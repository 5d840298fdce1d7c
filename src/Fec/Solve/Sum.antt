-- ===== src/Fec/Solve/Sum.antt =====
-- Sums over the columns of a row.
use low_latency_udp_fanout.Common.{
  ℕ, zero, suc, ◌<◌, ◌≡◌, refl, sym, ◌∙◌, ap, ap₂, arith, ◌==◌, if◌then◌else◌,
}
use native.Mathlib.Decide.{ℕ_discrete}
use low_latency_udp_fanout.Fec.Field.{mul}
use low_latency_udp_fanout.Fec.Field.Xor.{◌⊕◌, zero-xor, xor-zero, xor_interchange}
use low_latency_udp_fanout.Fec.Field.Linear.{xor-mul, mul-xor, mul-zero, zero-mul}
use low_latency_udp_fanout.Fec.Field.Laws.{one-mul}

unfoldable pub sum : ℕ → (ℕ → ℕ) → ℕ
sum zero f = 0
sum (suc n) f = sum n f ⊕ f n

-- 1 on the diagonal.
abbrev pub delta : ℕ → ℕ → ℕ
delta r j = if r == j then 1 else 0

pub sum_ext : (n : ℕ) (f g : ℕ → ℕ) → ((j : ℕ) → j < n → f j ≡ g j) → sum n f ≡ sum n g
unfolding sum
sum_ext zero f g h = refl
sum_ext (suc n) f g h =
    ap₂ (λ a b. a ⊕ b) (sum_ext n f g (λ j lt. h j (omega arith))) (h n (omega arith))

pub sum-xor : (n : ℕ) (f g : ℕ → ℕ) → sum n f ⊕ sum n g ≡ sum n (λ j. f j ⊕ g j)
unfolding sum
sum-xor zero f g = xor-zero 0
sum-xor (suc n) f g =
    xor_interchange (sum n f) (f n) (sum n g) (g n) ∙ ap (λ t. t ⊕ (f n ⊕ g n)) (sum-xor n f g)

pub sum-mul : (n : ℕ) (f : ℕ → ℕ) (s : ℕ) → mul (sum n f) s ≡ sum n (λ j. mul (f j) s)
unfolding sum
sum-mul zero f s = zero-mul s
sum-mul (suc n) f s = xor-mul (sum n f) (f n) s ∙ ap (λ t. t ⊕ mul (f n) s) (sum-mul n f s)

pub mul-sum : (n : ℕ) (f : ℕ → ℕ) (s : ℕ) → mul s (sum n f) ≡ sum n (λ j. mul s (f j))
unfolding sum
mul-sum zero f s = mul-zero s
mul-sum (suc n) f s = mul-xor s (sum n f) (f n) ∙ ap (λ t. t ⊕ mul s (f n)) (mul-sum n f s)

sum_zero : (n : ℕ) (f : ℕ → ℕ) → ((j : ℕ) → j < n → f j ≡ 0) → sum n f ≡ 0
unfolding sum
sum_zero zero f h = refl
sum_zero (suc n) f h =
    ap₂ (λ a b. a ⊕ b) (sum_zero n f (λ j lt. h j (omega arith))) (h n (omega arith)) ∙ xor-zero 0

pub sum-delta :
    (n : ℕ) (f : ℕ → ℕ) (r : ℕ) → r < n → f r < 256 → sum n (λ j. mul (delta r j) (f j)) ≡ f r
unfolding sum
sum-delta zero f r lt h = absurd (omega arith)
sum-delta (suc n) f r lt h = elim (ℕ_discrete r n) [
  | yes e ↦
      let here : delta r n ≡ 1 = ground arith in
      ap₂ (λ a b. a ⊕ b)
        (sum_zero n (λ j. mul (delta r j) (f j))
          (λ j lt.
            let off : delta r j ≡ 0 = ground arith in ap (λ d. mul d (f j)) off ∙ zero-mul (f j)))
        (ap (λ d. mul d (f n)) here ∙ ap (λ k. mul 1 (f k)) (sym e) ∙ one-mul (f r) h)
      ∙ zero-xor (f r)
  | no ne ↦
      let off : delta r n ≡ 0 = ground arith in
      ap₂ (λ a b. a ⊕ b) (sum-delta n f r (omega arith) h)
        (ap (λ d. mul d (f n)) off ∙ zero-mul (f n))
      ∙ xor-zero (f r)
]
