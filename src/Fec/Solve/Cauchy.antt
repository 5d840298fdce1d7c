-- ===== src/Fec/Solve/Cauchy.antt =====
-- harness/include/fec.h: Cauchy matrices up to factors under a step of the elimination.
use low_latency_udp_fanout.Common.{ℕ, ◌<◌, ◌≡◌, refl, sym, ◌∙◌, ap, ap₂, arith, List, [], ◌∷◌, All}
use low_latency_udp_fanout.Fec.Field.{mul}
use low_latency_udp_fanout.Fec.Field.Xor.{◌⊕◌, xor-lt}
use low_latency_udp_fanout.Fec.Field.Linear.{xor-mul}
use low_latency_udp_fanout.Fec.Field.Laws.{mul-lt, one-mul, mul_comm}
use low_latency_udp_fanout.Fec.Field.Ring.{
  Term, var, plus, times, vanishes, solve_ring, lookup, lookup-lt,
}

pub mul-one : (a : ℕ) → a < 256 → mul a 1 ≡ a
mul-one a h = mul_comm a 1 h (omega arith) ∙ one-mul a h

infixl 65 ◌⊞◌
infixl 70 ◌⊠◌
abbrev ◌⊞◌ : Term → Term → Term
s ⊞ t = plus s t

abbrev ◌⊠◌ : Term → Term → Term
s ⊠ t = times s t

abbrev IsByte : ℕ → Type 0
IsByte a = a < 256

-- The Schur complement of one entry: `e`, `f`, `g`, `h` are the entries of rows `r`, `c` and
-- columns `j`, `c`, and `s`, `b`, `d` inverses.
module _ (e f g h s b d xr xc yj yc ur uc vj vc : ℕ)
    (bytes : All IsByte (e ∷ f ∷ g ∷ h ∷ s ∷ b ∷ d ∷ xr ∷ xc ∷ yj ∷ yc ∷ ur ∷ uc ∷ vj ∷ vc ∷ []))
    (e_eq : mul e (xr ⊕ yj) ≡ mul ur vj) (f_eq : mul f (xr ⊕ yc) ≡ mul ur vc)
    (g_eq : mul g (xc ⊕ yj) ≡ mul uc vj) (h_eq : mul h (xc ⊕ yc) ≡ mul uc vc) (pivot : mul h s ≡ 1)
    (b_eq : mul (xr ⊕ yc) b ≡ 1) (d_eq : mul (xc ⊕ yj) d ≡ 1) where
  abbrev env : List ℕ
  env = e ∷ f ∷ g ∷ h ∷ s ∷ b ∷ d ∷ xr ∷ xc ∷ yj ∷ yc ∷ ur ∷ uc ∷ vj ∷ vc ∷ []

  small : (i : ℕ) → lookup env i < 256
  small = lookup-lt env bytes

  one_more : (t : ℕ) → t < 256 → t ≡ mul t (mul (mul (xr ⊕ yc) b) (mul (xc ⊕ yj) d))
  one_more t lt =
      sym (
        ap₂ (λ p q. mul t (mul p q)) b_eq d_eq
        ∙ ap (mul t) (one-mul 1 (omega arith))
        ∙ mul-one t lt)

  cross :
      mul (mul f (mul g s)) (xr ⊕ yj) ≡ mul (xc ⊕ yc) (mul (mul ur vj) (mul (xr ⊕ yj) (mul b d)))
  unfolding vanishes
  cross =
      let F = var 1 in
      let G = var 2 in
      let H = var 3 in
      let S = var 4 in
      let B = var 5 in
      let D = var 6 in
      let XR = var 7 in
      let XC = var 8 in
      let YJ = var 9 in
      let YC = var 10 in
      let UR = var 11 in
      let UC = var 12 in
      let VJ = var 13 in
      let VC = var 14 in
      let last : ℕ = mul s (mul (mul ur vj) (mul (xr ⊕ yj) (mul b d))) in
      let flast : ℕ = mul (xc ⊕ yc) (mul (mul ur vj) (mul (xr ⊕ yj) (mul b d))) in
      one_more _ (mul-lt _ _ (mul-lt f _ (omega arith)))
      ∙ solve_ring (lookup env) small (F ⊠ (G ⊠ S) ⊠ (XR ⊞ YJ) ⊠ ((XR ⊞ YC) ⊠ B ⊠ ((XC ⊞ YJ) ⊠ D)))
          (F ⊠ (XR ⊞ YC) ⊠ (G ⊠ (XC ⊞ YJ)) ⊠ (S ⊠ (XR ⊞ YJ) ⊠ (B ⊠ D))) refl
      ∙ ap₂ (λ p q. mul (mul p q) (mul (mul s (xr ⊕ yj)) (mul b d))) f_eq g_eq
      ∙ solve_ring (lookup env) small (UR ⊠ VC ⊠ (UC ⊠ VJ) ⊠ (S ⊠ (XR ⊞ YJ) ⊠ (B ⊠ D)))
          (UC ⊠ VC ⊠ (S ⊠ (UR ⊠ VJ ⊠ ((XR ⊞ YJ) ⊠ (B ⊠ D))))) refl
      ∙ ap (λ p. mul p last) (sym h_eq)
      ∙ solve_ring (lookup env) small (H ⊠ (XC ⊞ YC) ⊠ (S ⊠ (UR ⊠ VJ ⊠ ((XR ⊞ YJ) ⊠ (B ⊠ D)))))
          (H ⊠ S ⊠ ((XC ⊞ YC) ⊠ (UR ⊠ VJ ⊠ ((XR ⊞ YJ) ⊠ (B ⊠ D))))) refl
      ∙ ap (λ p. mul p flast) pivot
      ∙ one-mul _ (mul-lt _ _ (xor-lt 8 xc yc (omega arith) (omega arith)))

  pub schur :
      mul (e ⊕ mul f (mul g s)) (xr ⊕ yj)
      ≡ mul (mul ur (mul (xr ⊕ xc) b)) (mul vj (mul (yj ⊕ yc) d))
  unfolding vanishes
  schur =
      let B = var 5 in
      let D = var 6 in
      let XR = var 7 in
      let XC = var 8 in
      let YJ = var 9 in
      let YC = var 10 in
      let UR = var 11 in
      let VJ = var 13 in
      xor-mul e (mul f (mul g s)) (xr ⊕ yj)
      ∙ ap₂ (λ p q. p ⊕ q) (e_eq ∙ one_more (mul ur vj) (mul-lt ur vj (omega arith))) cross
      ∙ solve_ring (lookup env) small
          (UR ⊠ VJ ⊠ ((XR ⊞ YC) ⊠ B ⊠ ((XC ⊞ YJ) ⊠ D))
            ⊞ (XC ⊞ YC) ⊠ (UR ⊠ VJ ⊠ ((XR ⊞ YJ) ⊠ (B ⊠ D))))
          (UR ⊠ ((XR ⊞ XC) ⊠ B) ⊠ (VJ ⊠ ((YJ ⊞ YC) ⊠ D))) refl
