-- ===== src/Fec/Field/Laws.antt =====
-- GF(256) is a field: the laws of `mul` and `inverse` on bytes.
use low_latency_udp_fanout.Common.{
  ℕ, zero, suc, ◌*◌, ◌/◌, ◌^◌, ◌<◌, ◌≡◌, ◌≢◌, refl, sym, ◌∙◌, ap, bit_and, arith, Bool, true, ◌&&◌,
  ◌||◌, ◌==◌, ==_iff, ltb, u8, inl, inr, Bool-cases,
}
use low_latency_udp_fanout.Fec.Field.{times_x, mul_loop, mul, inverse_or_zero}
use low_latency_udp_fanout.Fec.Field.Xor.{◌⊕◌, xor-lt}
use low_latency_udp_fanout.Fec.Field.Linear.{linear_ext, xor-mul, mul-xor, mul-zero}

-- A check of every number below a bound, by evaluation.
holds_below : ℕ → (ℕ → Bool) → Bool
holds_below zero test = true
holds_below (suc n) test = test n && holds_below n test

holds_below→ : (n : ℕ) (test : ℕ → Bool) (x : ℕ) → holds_below n test ≡ true → x < n → test x ≡ true
unfolding holds_below
holds_below→ zero test x h lt = absurd (omega arith)
holds_below→ (suc n) test x h lt = ground (arith, holds_below→ n test x, ap test {x = n} {y = x})

agree : (n : ℕ) (f g : ℕ → ℕ) (x : ℕ) → holds_below n (λ k. f k == g k) ≡ true → x < n → f x ≡ g x
agree n f g x h lt = (==_iff (f x) (g x)).0 (holds_below→ n (λ k. f k == g k) x h lt)

times_x-lt : (a : ℕ) → times_x a < 256
unfolding times_x
times_x-lt a = elim (Bool-cases (bit_and a 128 == 0)) [
  | inl e ↦ rw e (omega arith)
  | inr e ↦ rw e (xor-lt 8 (u8 (a * 2)) 0x1d (omega arith) (omega arith))
]

mul_loop-lt : (n a b out : ℕ) → a < 256 → out < 256 → mul_loop n a b out < 256
unfolding mul_loop
mul_loop-lt zero a b out h k = k
mul_loop-lt (suc n) a zero out h k = k
mul_loop-lt (suc n) a (suc b) out h k = ground (
  arith,
  mul_loop-lt n (times_x a) (suc b / 2) (out ⊕ a),
  mul_loop-lt n (times_x a) (suc b / 2) out,
  times_x-lt a,
  xor-lt 8 out a k h,
)

pub mul-lt : (a b : ℕ) → a < 256 → mul a b < 256
mul-lt a b h = unfold mul in mul_loop-lt 8 a b 0 h (omega arith)

pub one-mul : (a : ℕ) → a < 256 → mul 1 a ≡ a
unfolding mul holds_below
one-mul =
    linear_ext (mul 1) (λ a. a) (mul-xor 1) (λ x y. refl) 8
      (λ k lt. agree 8 (λ k. mul 1 (2 ^ k)) (λ k. 2 ^ k) k refl lt)

commutes_on_bits :
    holds_below 8 (λ i. holds_below 8 (λ k. mul (2 ^ i) (2 ^ k) == mul (2 ^ k) (2 ^ i))) ≡ true
unfolding mul holds_below
commutes_on_bits = refl

pub mul_comm : (a b : ℕ) → a < 256 → b < 256 → mul a b ≡ mul b a
mul_comm a b h k =
    linear_ext (λ a. mul a b) (mul b) (λ x y. xor-mul x y b) (mul-xor b) 8
      (λ i lt.
        linear_ext (mul (2 ^ i)) (λ b. mul b (2 ^ i)) (mul-xor (2 ^ i)) (λ x y. xor-mul x y (2 ^ i))
          8
          (λ j lt'.
            (==_iff _ _).0 (holds_below→ 8 _ j (holds_below→ 8 _ i commutes_on_bits lt) lt'))
          b k)
      a h

associates_on_bits :
    holds_below 8 (λ i. holds_below 8 (λ j.
      holds_below 8 (λ k. mul (mul (2 ^ i) (2 ^ j)) (2 ^ k) == mul (2 ^ i) (mul (2 ^ j) (2 ^ k)))))
    ≡ true
unfolding mul holds_below
associates_on_bits = refl

pub mul_assoc : (a b c : ℕ) → a < 256 → b < 256 → c < 256 → mul (mul a b) c ≡ mul a (mul b c)
mul_assoc a b c ha hb hc =
    linear_ext (λ a. mul (mul a b) c) (λ a. mul a (mul b c))
      (λ x y. ap (λ t. mul t c) (xor-mul x y b) ∙ xor-mul _ _ c) (λ x y. xor-mul x y _) 8
      (λ i li.
        linear_ext (λ b. mul (mul (2 ^ i) b) c) (λ b. mul (2 ^ i) (mul b c))
          (λ x y. ap (λ t. mul t c) (mul-xor _ x y) ∙ xor-mul _ _ c)
          (λ x y. ap (mul (2 ^ i)) (xor-mul x y c) ∙ mul-xor _ _ _) 8
          (λ j lj.
            linear_ext (mul (mul (2 ^ i) (2 ^ j))) (λ c. mul (2 ^ i) (mul (2 ^ j) c)) (mul-xor _)
              (λ x y. ap (mul (2 ^ i)) (mul-xor _ x y) ∙ mul-xor _ _ _) 8
              (λ k lk. (==_iff _ _).0 (
                holds_below→ 8 _ k
                  (holds_below→ 8 _ j (holds_below→ 8 _ i associates_on_bits li) lj) lk))
              c hc)
          b hb)
      a ha

inverses :
    holds_below 256
      (λ a. (a == 0) || (mul a (inverse_or_zero a) == 1) && ltb (inverse_or_zero a) 256)
    ≡ true
unfolding mul inverse_or_zero holds_below
inverses = refl

-- The inverse of a byte that is not zero is a byte, and their product in the field is 1.
pub mul-inverse :
    (a : ℕ) → a < 256 → a ≢ 0 → (mul a (inverse_or_zero a) ≡ 1) × (inverse_or_zero a < 256)
mul-inverse a h ne = ground (
  arith,
  holds_below→ 256
      (λ a. (a == 0) || (mul a (inverse_or_zero a) == 1) && ltb (inverse_or_zero a) 256) a inverses
      h,
)

-- There are no zero divisors.
pub mul-ne-zero : (a b : ℕ) → a < 256 → b < 256 → a ≢ 0 → b ≢ 0 → mul a b ≢ 0
mul-ne-zero a b ha hb na nb e =
    let (inv, small) = mul-inverse a ha na in
    nb (
      sym (one-mul b hb)
      ∙ ap (λ t. mul t b) (sym inv ∙ mul_comm a (inverse_or_zero a) ha small)
      ∙ mul_assoc (inverse_or_zero a) a b small ha hb
      ∙ ap (mul (inverse_or_zero a)) e
      ∙ mul-zero _)
