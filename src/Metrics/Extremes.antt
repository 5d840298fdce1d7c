-- ===== src/Metrics/Extremes.antt =====
-- The least and the greatest of a list of numbers.
use low_latency_udp_fanout.Common.{
  ℕ, ◌≤◌, ◌≡◌, sym, subst, List, [], ◌∷◌, length, min, max, All, arith, ◌⊎◌, inl, inr,
}
use low_latency_udp_fanout.Metrics.Reservoir.{All-weaken}
use mathlib.Core.List.{Mem, mem-cons_of_mem, mem-cons_self}

-- `m` is in the list and stands in the relation to every number of it.
abbrev pub IsExtreme : (ℕ → ℕ → Type 0) → ℕ → List ℕ → Type 0
IsExtreme R m xs = Mem m xs × All (R m) xs

abbrev pub IsLeast : ℕ → List ℕ → Type 0
IsLeast = IsExtreme (λ m x. m ≤ x)

abbrev pub IsGreatest : ℕ → List ℕ → Type 0
IsGreatest = IsExtreme (λ m x. x ≤ m)

module _ (R : ℕ → ℕ → Type 0) where
  one-IsExtreme : (m x : ℕ) → m ≡ x → R m x → IsExtreme R m (x ∷ [])
  one-IsExtreme m x e r = (subst (λ y. Mem y (x ∷ [])) (sym e) mem-cons_self, (r, tt))

  cons-IsExtreme :
      (m x m' : ℕ) (xs : List ℕ)
      → (m' ≡ m) ⊎ (m' ≡ x)
      → R m' x
      → ((z : ℕ) → R m z → R m' z)
      → IsExtreme R m xs
      → IsExtreme R m' (x ∷ xs)
  cons-IsExtreme m x m' xs (inl e) r wider (there, all) = (
    subst (λ y. Mem y (x ∷ xs)) (sym e) (mem-cons_of_mem x there),
    (r, All-weaken (R m) (R m') xs wider all),
  )
  cons-IsExtreme m x m' xs (inr e) r wider (there, all) =
      (subst (λ y. Mem y (x ∷ xs)) (sym e) mem-cons_self, (r, All-weaken (R m) (R m') xs wider all))

-- One number more: the first one is the extreme, and each later one is compared.
pub next-IsLeast :
    (m x m' : ℕ) (xs : List ℕ)
    → (length xs ≡ 0 → m' ≡ x)
    → (1 ≤ length xs → m' ≡ min m x)
    → (1 ≤ length xs → IsLeast m xs)
    → IsLeast m' (x ∷ xs)
next-IsLeast m x m' [] one more before =
    one-IsExtreme (λ m x. m ≤ x) m' x (one (omega arith)) (omega (arith, one))
next-IsLeast m x m' (y ∷ ys) one more before =
    cons-IsExtreme (λ m x. m ≤ x) m x m' (y ∷ ys) (ground (arith, more)) (omega (arith, more))
      (λ z le. omega (arith, more)) (before (omega arith))

pub next-IsGreatest :
    (m x m' : ℕ) (xs : List ℕ)
    → (length xs ≡ 0 → m' ≡ x)
    → (1 ≤ length xs → m' ≡ max m x)
    → (1 ≤ length xs → IsGreatest m xs)
    → IsGreatest m' (x ∷ xs)
next-IsGreatest m x m' [] one more before =
    one-IsExtreme (λ m x. x ≤ m) m' x (one (omega arith)) (omega (arith, one))
next-IsGreatest m x m' (y ∷ ys) one more before =
    cons-IsExtreme (λ m x. x ≤ m) m x m' (y ∷ ys) (ground (arith, more)) (omega (arith, more))
      (λ z le. omega (arith, more)) (before (omega arith))
