-- ===== src/Fec/Field/Linear.antt =====
-- `mul` is linear in both arguments, and a linear function of a byte is known from its bits.
use low_latency_udp_fanout.Common.{
  ℕ, zero, suc, ◌+◌, ◌-◌, ◌*◌, ◌/◌, ◌%◌, ◌^◌, ◌<◌, ◌≡◌, refl, sym, ◌∙◌, ap, ap₂, bit_and, arith,
  not, ◌==◌, if◌then◌else◌, u8, inl, inr, Bool-cases,
}
use low_latency_udp_fanout.Common.Bits.{
  xor_split, testbit, testbit-xor, and_mask, and_two_pow-ne-zero, mod_double,
}
use native.Mathlib.Nat.{pow-succ', one-le-pow}
use native.Mathlib.Decide.{dec_lt}
use low_latency_udp_fanout.Fec.Field.{times_x, mul_loop, mul}
use low_latency_udp_fanout.Fec.Field.Xor.{
  ◌⊕◌, zero-xor, xor-zero, xor_self, xor_interchange, xor_low, xor_cancel,
}

-- `a` where the bit is set.
pick : ℕ → ℕ → ℕ
pick bit a = if bit == 1 then a else 0

pick-xor : (p q a : ℕ) → p < 2 → q < 2 → pick ((p + q) % 2) a ≡ pick p a ⊕ pick q a
unfolding pick
pick-xor zero zero a h k = sym (xor-zero 0)
pick-xor zero (suc zero) a h k = sym (zero-xor a)
pick-xor (suc zero) zero a h k = sym (xor-zero a)
pick-xor (suc zero) (suc zero) a h k = sym (xor_self a)
pick-xor (suc (suc p)) q a h k = absurd (omega arith)
pick-xor zero (suc (suc q)) a h k = absurd (omega arith)
pick-xor (suc zero) (suc (suc q)) a h k = absurd (omega arith)

pick_sum : (p a b : ℕ) → pick p (a ⊕ b) ≡ pick p a ⊕ pick p b
unfolding pick
pick_sum p a b = elim (Bool-cases (p == 1)) [ inl e ↦ rw e refl | inr e ↦ rw e (sym (xor-zero 0)) ]

xor-mod : (n a b : ℕ) → (a ⊕ b) % 2 ^ n ≡ (a % 2 ^ n) ⊕ (b % 2 ^ n)
xor-mod zero a b =
    let (u, v) : (a % 2 ^ 0 ≡ 0) × (b % 2 ^ 0 ≡ 0) = (omega arith, omega arith) in
    omega (arith, ap₂ (λ x y. x ⊕ y) u v)
xor-mod (suc n) a b =
    let pos : 0 < 2 ^ n = one-le-pow n 2 (omega arith) in
    let low_a : a % 2 ^ suc n ≡ a / 2 % 2 ^ n * 2 + a % 2 =
      ap (λ (m : ℕ). a % m) (pow-succ' 2 n) ∙ mod_double a (2 ^ n) pos in
    let low_b : b % 2 ^ suc n ≡ b / 2 % 2 ^ n * 2 + b % 2 =
      ap (λ (m : ℕ). b % m) (pow-succ' 2 n) ∙ mod_double b (2 ^ n) pos in
    let half_a : a % 2 ^ suc n / 2 ≡ a / 2 % 2 ^ n = omega (arith, low_a) in
    let half_b : b % 2 ^ suc n / 2 ≡ b / 2 % 2 ^ n = omega (arith, low_b) in
    let half : (a ⊕ b) / 2 ≡ (a / 2) ⊕ (b / 2) = omega (arith, xor_split a b) in
    omega (
      arith,
      ap (λ (m : ℕ). (a ⊕ b) % m) (pow-succ' 2 n),
      mod_double (a ⊕ b) (2 ^ n) pos,
      ap (λ (x : ℕ). x % 2 ^ n) half,
      xor-mod n (a / 2) (b / 2),
      xor_split a b,
      xor_split (a % 2 ^ suc n) (b % 2 ^ suc n),
      ap₂ (λ x y. x ⊕ y) half_a half_b,
      low_a,
      low_b,
    )

double-xor : (a b : ℕ) → (a ⊕ b) * 2 ≡ (a * 2) ⊕ (b * 2)
double-xor a b =
    let (u, v) : (a * 2 / 2 ≡ a) × (b * 2 / 2 ≡ b) = (omega arith, omega arith) in
    omega (arith, xor_split (a * 2) (b * 2), ap₂ (λ x y. x ⊕ y) u v)

times_x_lem : (a : ℕ) → times_x a ≡ u8 (a * 2) ⊕ pick (testbit a 7) 0x1d
unfolding times_x pick
times_x_lem a = elim (Bool-cases (testbit a 7 == 1)) [
  | inl e ↦ rw (and_two_pow-ne-zero 7 a, e) refl
  | inr e ↦ rw (and_two_pow-ne-zero 7 a, e) (sym (xor-zero _))
]

times_x-xor : (a b : ℕ) → times_x (a ⊕ b) ≡ times_x a ⊕ times_x b
times_x-xor a b =
    times_x_lem (a ⊕ b)
    ∙ ap₂ (λ x y. x ⊕ y) (ap u8 (double-xor a b) ∙ xor-mod 8 (a * 2) (b * 2))
        (ap (λ t. pick t 0x1d) (testbit-xor 7 a b)
          ∙ pick-xor (testbit a 7) (testbit b 7) 0x1d (omega arith) (omega arith))
    ∙ xor_interchange _ _ _ _
    ∙ ap₂ (λ x y. x ⊕ y) (sym (times_x_lem a)) (sym (times_x_lem b))

mul_loop_stop : (n a out : ℕ) → mul_loop n a 0 out ≡ out
unfolding mul_loop
mul_loop_stop zero a out = refl
mul_loop_stop (suc n) a out = refl

add_bit : (a b out : ℕ) → (if not (bit_and b 1 == 0) then out ⊕ a else out) ≡ out ⊕ pick (b % 2) a
unfolding pick
add_bit a b out =
    let bit : bit_and b 1 ≡ b % 2 = and_mask 1 b in
    elim (Bool-cases (b % 2 == 1)) [
      | inl e ↦ ground (arith, bit, e)
      | inr e ↦ ground (arith, bit, e, xor-zero out)
    ]

mul_loop_go :
    (n a b out : ℕ)
    → mul_loop (suc n) a (suc b) out
      ≡ mul_loop n (times_x a) (suc b / 2) (if not (bit_and (suc b) 1 == 0) then out ⊕ a else out)
unfolding mul_loop
mul_loop_go n a b out = ground arith

-- One round, also where `b` is zero.
mul_step :
    (n a b out : ℕ)
    → mul_loop (suc n) a b out ≡ mul_loop n (times_x a) (b / 2) (out ⊕ pick (b % 2) a)
mul_step n a zero out =
    mul_loop_stop (suc n) a out ∙ sym (mul_loop_stop n (times_x a) _ ∙ unfold pick in xor-zero out)
mul_step n a (suc b) out =
    mul_loop_go n a b out ∙ ap (mul_loop n (times_x a) (suc b / 2)) (add_bit a (suc b) out)

mul_loop_left :
    (n a a' b out out' : ℕ)
    → mul_loop n (a ⊕ a') b (out ⊕ out') ≡ mul_loop n a b out ⊕ mul_loop n a' b out'
mul_loop_left zero a a' b out out' = unfold mul_loop in refl
mul_loop_left (suc n) a a' b out out' =
    mul_step n (a ⊕ a') b (out ⊕ out')
    ∙ ap₂ (λ x y. mul_loop n x (b / 2) y) (times_x-xor a a')
        (ap (λ p. (out ⊕ out') ⊕ p) (pick_sum (b % 2) a a') ∙ xor_interchange out out' _ _)
    ∙ mul_loop_left n (times_x a) (times_x a') (b / 2) _ _
    ∙ ap₂ (λ x y. x ⊕ y) (sym (mul_step n a b out)) (sym (mul_step n a' b out'))

mul_loop_right :
    (n a b b' out out' : ℕ)
    → mul_loop n a (b ⊕ b') (out ⊕ out') ≡ mul_loop n a b out ⊕ mul_loop n a b' out'
mul_loop_right zero a b b' out out' = unfold mul_loop in refl
mul_loop_right (suc n) a b b' out out' =
    let half : (b ⊕ b') / 2 ≡ (b / 2) ⊕ (b' / 2) = omega (arith, xor_split b b') in
    let bit : (b ⊕ b') % 2 ≡ (b % 2 + b' % 2) % 2 = omega (arith, xor_split b b') in
    mul_step n a (b ⊕ b') (out ⊕ out')
    ∙ ap₂ (mul_loop n (times_x a)) half (
        ap (λ p. (out ⊕ out') ⊕ p)
          (ap (λ t. pick t a) bit ∙ pick-xor (b % 2) (b' % 2) a (omega arith) (omega arith))
        ∙ xor_interchange out out' _ _)
    ∙ mul_loop_right n (times_x a) (b / 2) (b' / 2) _ _
    ∙ ap₂ (λ x y. x ⊕ y) (sym (mul_step n a b out)) (sym (mul_step n a b' out'))

pub xor-mul : (a b c : ℕ) → mul (a ⊕ b) c ≡ mul a c ⊕ mul b c
xor-mul a b c = unfold mul in mul_loop_left 8 a b c 0 0

pub mul-xor : (a b c : ℕ) → mul a (b ⊕ c) ≡ mul a b ⊕ mul a c
mul-xor a b c = unfold mul in mul_loop_right 8 a b c 0 0

pub mul-zero : (a : ℕ) → mul a 0 ≡ 0
mul-zero a = unfold mul in mul_loop_stop 8 a 0

pub zero-mul : (a : ℕ) → mul 0 a ≡ 0
zero-mul a =
    sym (xor_cancel (mul 0 a) (mul 0 a))
    ∙ ap (λ x. x ⊕ mul 0 a) (sym (xor-mul 0 0 a))
    ∙ xor_self (mul 0 a)

at_zero : (f : ℕ → ℕ) → ((x y : ℕ) → f (x ⊕ y) ≡ f x ⊕ f y) → f 0 ≡ 0
at_zero f l = sym (xor_cancel (f 0) (f 0)) ∙ ap (λ x. x ⊕ f 0) (sym (l 0 0)) ∙ xor_self (f 0)

abbrev pub IsLinear : (ℕ → ℕ) → Type 0
IsLinear f = (x y : ℕ) → f (x ⊕ y) ≡ f x ⊕ f y

-- Two linear functions that agree on the eight bits agree on every byte.
pub linear_ext :
    (f g : ℕ → ℕ)
    → IsLinear f
    → IsLinear g
    → (n : ℕ) → ((k : ℕ) → k < n → f (2 ^ k) ≡ g (2 ^ k))
    → (x : ℕ) → x < 2 ^ n
    → f x ≡ g x
linear_ext f g lf lg zero bits x h =
    let e : x ≡ 0 = omega arith in rw e (at_zero f lf ∙ sym (at_zero g lg))
linear_ext f g lf lg (suc n) bits x h = elim (dec_lt x (2 ^ n)) [
  | yes low ↦ linear_ext f g lf lg n (λ k lt. bits k (omega arith)) x low
  | no high ↦
      let small : x - 2 ^ n < 2 ^ n = omega (arith, pow-succ' 2 n) in
      let parts : x ≡ 2 ^ n ⊕ (x - 2 ^ n) = omega (arith, xor_low n (x - 2 ^ n) small) in
      ap f parts
      ∙ lf _ _
      ∙ ap₂ (λ p q. p ⊕ q) (bits n (omega arith))
          (linear_ext f g lf lg n (λ k lt. bits k (omega arith)) (x - 2 ^ n) small)
      ∙ sym (lg _ _)
      ∙ ap g (sym parts)
]
