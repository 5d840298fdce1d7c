-- ===== src/Fec/Field/Ring.antt =====
-- Equations of sums and products of bytes, decided by multiplying out: both sides together must
-- cancel to nothing.
use low_latency_udp_fanout.Common.{
  ℕ, zero, suc, ◌<◌, ◌≡◌, refl, sym, ◌∙◌, ap, ap₂, arith, Bool, true, false, ◌&&◌, ◌==◌, leb,
  if◌then◌else◌, List, [], ◌∷◌, ◌++◌, map, Option, none, some, inl, inr, Bool-cases, Option-cases,
  All,
}
use low_latency_udp_fanout.Fec.Field.{mul}
use low_latency_udp_fanout.Fec.Field.Xor.{
  ◌⊕◌, zero-xor, xor-zero, xor_self, xor_comm, xor_assoc, xor_interchange, eq_of_xor-zero,
}
use low_latency_udp_fanout.Fec.Field.Linear.{xor-mul, mul-xor, mul-zero, zero-mul}
use low_latency_udp_fanout.Fec.Field.Laws.{mul-lt, one-mul, mul_comm, mul_assoc}

pub data Term : Type 0 where
  var : ℕ → Term
  plus : Term → Term → Term
  times : Term → Term → Term

insert : ℕ → List ℕ → List ℕ
insert i [] = i ∷ []
insert i (j ∷ m) = let rest = insert i m in if leb i j then i ∷ j ∷ m else j ∷ rest

merge : List ℕ → List ℕ → List ℕ
merge [] m' = m'
merge (i ∷ m) m' = insert i (merge m m')

products : List (List ℕ) → List (List ℕ) → List (List ℕ)
products [] q = []
products (m ∷ p) q = map (merge m) q ++ products p q

expand : Term → List (List ℕ)
expand (var i) = (i ∷ []) ∷ []
expand (plus s t) = expand s ++ expand t
expand (times s t) = products (expand s) (expand t)

same : List ℕ → List ℕ → Bool
same [] [] = true
same (i ∷ m) (j ∷ m') = (i == j) && same m m'
same _ _ = false

remove : List ℕ → List (List ℕ) → Option (List (List ℕ))
remove m [] = none
remove m (m' ∷ p) =
    if same m m' then some p else elim (remove m p) [ none ↦ none | some p' ↦ some (m' ∷ p') ]

-- The monomials that are left, each pair of equal ones cancelled.
cancel : List (List ℕ) → List (List ℕ) → List (List ℕ)
cancel [] left = left
cancel (m ∷ p) left = cancel p (elim (remove m left) [ none ↦ m ∷ left | some left' ↦ left' ])

unfoldable pub vanishes : Term → Term → Bool
unfolding expand cancel products merge insert remove same
vanishes s t = elim (cancel (expand (plus s t)) []) [ [] ↦ true | m ∷ p ↦ false ]

module _ (env : ℕ → ℕ) (bytes : (i : ℕ) → env i < 256) where
  abbrev pub eval : Term → ℕ
  eval (var i) = env i
  eval (plus s t) = eval s ⊕ eval t
  eval (times s t) = mul (eval s) (eval t)

  mono : List ℕ → ℕ
  mono [] = 1
  mono (i ∷ m) = mul (env i) (mono m)

  poly : List (List ℕ) → ℕ
  poly [] = 0
  poly (m ∷ p) = mono m ⊕ poly p

  mono-lt : (m : List ℕ) → mono m < 256
  unfolding mono
  mono-lt [] = omega arith
  mono-lt (i ∷ m) = mul-lt (env i) (mono m) (bytes i)

  swap_factors : (a b c : ℕ) → a < 256 → b < 256 → c < 256 → mul a (mul b c) ≡ mul b (mul a c)
  swap_factors a b c ha hb hc =
      sym (mul_assoc a b c ha hb hc)
      ∙ ap (λ t. mul t c) (mul_comm a b ha hb)
      ∙ mul_assoc b a c hb ha hc

  mono-insert : (i : ℕ) (m : List ℕ) → mono (insert i m) ≡ mul (env i) (mono m)
  unfolding mono insert
  mono-insert i [] = refl
  mono-insert i (j ∷ m) = elim (Bool-cases (leb i j)) [
    | inl e ↦ rw e refl
    | inr e ↦
        rw (e, mono-insert i m)
          (swap_factors (env j) (env i) (mono m) (bytes j) (bytes i) (mono-lt m))
  ]

  mono-merge : (m m' : List ℕ) → mono (merge m m') ≡ mul (mono m) (mono m')
  unfolding mono merge
  mono-merge [] m' = sym (one-mul (mono m') (mono-lt m'))
  mono-merge (i ∷ m) m' =
      mono-insert i (merge m m')
      ∙ ap (mul (env i)) (mono-merge m m')
      ∙ sym (mul_assoc (env i) (mono m) (mono m') (bytes i) (mono-lt m) (mono-lt m'))

  poly-append : (p q : List (List ℕ)) → poly (p ++ q) ≡ poly p ⊕ poly q
  unfolding poly
  poly-append [] q = sym (zero-xor (poly q))
  poly-append (m ∷ p) q =
      ap (λ t. mono m ⊕ t) (poly-append p q) ∙ sym (xor_assoc (mono m) (poly p) (poly q))

  poly-map-merge : (m : List ℕ) (q : List (List ℕ)) → poly (map (merge m) q) ≡ mul (mono m) (poly q)
  unfolding poly
  poly-map-merge m [] = sym (mul-zero (mono m))
  poly-map-merge m (m' ∷ q) =
      ap₂ (λ s t. s ⊕ t) (mono-merge m m') (poly-map-merge m q)
      ∙ sym (mul-xor (mono m) (mono m') (poly q))

  poly-products : (p q : List (List ℕ)) → poly (products p q) ≡ mul (poly p) (poly q)
  unfolding poly products
  poly-products [] q = sym (zero-mul (poly q))
  poly-products (m ∷ p) q =
      poly-append (map (merge m) q) (products p q)
      ∙ ap₂ (λ s t. s ⊕ t) (poly-map-merge m q) (poly-products p q)
      ∙ sym (xor-mul (mono m) (poly p) (poly q))

  poly-expand : (t : Term) → poly (expand t) ≡ eval t
  unfolding poly mono expand
  poly-expand (var i) =
      xor-zero _ ∙ mul_comm (env i) 1 (bytes i) (omega arith) ∙ one-mul (env i) (bytes i)
  poly-expand (plus s t) =
      poly-append (expand s) (expand t) ∙ ap₂ (λ p q. p ⊕ q) (poly-expand s) (poly-expand t)
  poly-expand (times s t) =
      poly-products (expand s) (expand t) ∙ ap₂ mul (poly-expand s) (poly-expand t)

  same→≡ : (m m' : List ℕ) → same m m' ≡ true → m ≡ m'
  unfolding same
  same→≡ [] [] e = refl
  same→≡ [] (j ∷ m') e = cc
  same→≡ (i ∷ m) [] e = cc
  same→≡ (i ∷ m) (j ∷ m') e = ground (arith, same→≡ m m')

  xor_left_comm : (a b c : ℕ) → a ⊕ (b ⊕ c) ≡ b ⊕ (a ⊕ c)
  xor_left_comm a b c = sym (xor_assoc a b c) ∙ ap (λ t. t ⊕ c) (xor_comm a b) ∙ xor_assoc b a c

  poly-remove :
      (m : List ℕ) (p : List (List ℕ)) {p' : List (List ℕ)}
      → remove m p ≡ some p'
      → poly p ≡ mono m ⊕ poly p'
  unfolding poly remove
  poly-remove m [] e = cc
  poly-remove m (m' ∷ p) {p'} e = elim (Bool-cases (same m m')) [
    | inl here ↦
        let rest : p ≡ p' = ground (arith, e, here) in
        ap₂ (λ s t. s ⊕ t) (ap mono (sym (same→≡ m m' here))) (ap poly rest)
    | inr other ↦ elim (Option-cases (remove m p)) [
      | inl missing ↦ absurd (ground (arith, e, other, missing))
      | inr (q, found) ↦
          let rest : m' ∷ q ≡ p' = ground (arith, e, other, found) in
          ap (λ t. mono m' ⊕ t) (poly-remove m p found)
          ∙ xor_left_comm (mono m') (mono m) (poly q)
          ∙ ap (λ t. mono m ⊕ poly t) rest
    ]
  ]

  poly-cancel : (p left : List (List ℕ)) → poly (cancel p left) ≡ poly p ⊕ poly left
  unfolding poly cancel
  poly-cancel [] left = sym (zero-xor (poly left))
  poly-cancel (m ∷ p) left = elim (Option-cases (remove m left)) [
    | inl missing ↦
        rw (missing, cancel)
          (poly-cancel p (m ∷ left)
            ∙ xor_left_comm (poly p) (mono m) (poly left)
            ∙ sym (xor_assoc (mono m) (poly p) (poly left)))
    | inr (left', found) ↦
        rw (found, cancel)
          (poly-cancel p left'
            ∙ sym (zero-xor _)
            ∙ ap (λ t. t ⊕ (poly p ⊕ poly left')) (sym (xor_self (mono m)))
            ∙ xor_interchange (mono m) (mono m) (poly p) (poly left')
            ∙ ap (λ t. mono m ⊕ poly p ⊕ t) (sym (poly-remove m left found)))
  ]

  -- Two terms whose monomials cancel have the same value.
  pub solve_ring : (s t : Term) → vanishes s t ≡ true → eval s ≡ eval t
  unfolding vanishes poly
  solve_ring s t e =
      let nothing : cancel (expand (plus s t)) [] ≡ [] =
        empty_of (cancel (expand (plus s t)) []) e in
      eq_of_xor-zero (eval s) (eval t) (
        sym (poly-expand (plus s t))
        ∙ sym (xor-zero _)
        ∙ sym (poly-cancel (expand (plus s t)) [])
        ∙ ap poly nothing)
    where
      empty_of :
          (p : List (List ℕ))
          → (elim p as (λ _. Bool) [ [] ↦ true | m ∷ q ↦ false ]) ≡ true
          → p ≡ []
      empty_of [] h = refl
      empty_of (m ∷ q) h = cc

-- Variables by number in a list of bytes.
abbrev pub lookup : List ℕ → ℕ → ℕ
lookup [] i = 0
lookup (a ∷ rest) zero = a
lookup (a ∷ rest) (suc i) = lookup rest i

pub lookup-lt : (bytes : List ℕ) → All (λ a. a < 256) bytes → (i : ℕ) → lookup bytes i < 256
lookup-lt [] h i = omega arith
lookup-lt (a ∷ rest) h zero = h.0
lookup-lt (a ∷ rest) h (suc i) = lookup-lt rest h.1 i
