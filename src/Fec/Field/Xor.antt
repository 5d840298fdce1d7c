-- ===== src/Fec/Field/Xor.antt =====
-- Exclusive or is a commutative group in which each number is its own inverse.
use low_latency_udp_fanout.Common.{
  ℕ, zero, suc, ◌+◌, ◌/◌, ◌^◌, ◌<◌, ◌≡◌, refl, sym, ◌∙◌, ap, bit_xor, arith,
}
use low_latency_udp_fanout.Common.Bits.{xor_split, halving}
use native.Mathlib.Nat.{pow-suc}

infixl 65 ◌⊕◌
abbrev pub ◌⊕◌ : ℕ → ℕ → ℕ
a ⊕ b = bit_xor a b

pub zero-xor : (b : ℕ) → 0 ⊕ b ≡ b
zero-xor = halving (λ b. 0 ⊕ b ≡ b) refl (λ n ih. omega (arith, xor_split 0 (suc n), ih))

pub xor-zero : (a : ℕ) → a ⊕ 0 ≡ a
xor-zero = halving (λ a. a ⊕ 0 ≡ a) refl (λ n ih. omega (arith, xor_split (suc n) 0, ih))

pub xor_self : (a : ℕ) → a ⊕ a ≡ 0
xor_self = halving (λ a. a ⊕ a ≡ 0) refl (λ n ih. omega (arith, xor_split (suc n) (suc n), ih))

pub xor_comm : (a b : ℕ) → a ⊕ b ≡ b ⊕ a
xor_comm =
    halving (λ a. (b : ℕ) → a ⊕ b ≡ b ⊕ a) (λ b. zero-xor b ∙ sym (xor-zero b))
      (λ n ih b. omega (arith, xor_split (suc n) b, xor_split b (suc n), ih (b / 2)))

half_xor : (a b : ℕ) → (a ⊕ b) / 2 ≡ (a / 2) ⊕ (b / 2)
half_xor a b = omega (arith, xor_split a b)

pub xor_assoc : (a b c : ℕ) → a ⊕ b ⊕ c ≡ a ⊕ (b ⊕ c)
xor_assoc =
    halving (λ a. (b c : ℕ) → a ⊕ b ⊕ c ≡ a ⊕ (b ⊕ c))
      (λ b c. ap (λ x. x ⊕ c) (zero-xor b) ∙ sym (zero-xor (b ⊕ c)))
      (λ n ih b c. omega (
        arith,
        xor_split (suc n ⊕ b) c,
        xor_split (suc n) (b ⊕ c),
        xor_split (suc n) b,
        xor_split b c,
        ap (λ x. x ⊕ (c / 2)) (half_xor (suc n) b),
        ap (λ x. (suc n / 2) ⊕ x) (half_xor b c),
        ih (b / 2) (c / 2),
      ))

pub xor_interchange : (a b c d : ℕ) → (a ⊕ b) ⊕ (c ⊕ d) ≡ (a ⊕ c) ⊕ (b ⊕ d)
xor_interchange a b c d =
    xor_assoc a b (c ⊕ d)
    ∙ ap (λ x. a ⊕ x) (sym (xor_assoc b c d) ∙ ap (λ x. x ⊕ d) (xor_comm b c) ∙ xor_assoc c b d)
    ∙ sym (xor_assoc a c (b ⊕ d))

-- Adding the same number twice changes nothing.
pub xor_cancel : (a b : ℕ) → (a ⊕ b) ⊕ b ≡ a
xor_cancel a b = xor_assoc a b b ∙ ap (λ x. a ⊕ x) (xor_self b) ∙ xor-zero a

pub eq_of_xor-zero : (a b : ℕ) → a ⊕ b ≡ 0 → a ≡ b
eq_of_xor-zero a b e = sym (xor_cancel a b) ∙ ap (λ x. x ⊕ b) e ∙ zero-xor b

pub xor-lt : (n a b : ℕ) → a < 2 ^ n → b < 2 ^ n → a ⊕ b < 2 ^ n
xor-lt zero a b p q =
    let (u, v) : (a ≡ 0) × (b ≡ 0) = (omega arith, omega arith) in rw (u, v) (omega arith)
xor-lt (suc n) a b p q = omega (
  arith,
  xor_split a b,
  pow-suc 2 n,
  xor-lt n (a / 2) (b / 2) (omega (arith, pow-suc 2 n)) (omega (arith, pow-suc 2 n)),
)

-- A bit and what is below it.
pub xor_low : (n r : ℕ) → r < 2 ^ n → 2 ^ n ⊕ r ≡ 2 ^ n + r
xor_low zero r h = let e : r ≡ 0 = omega arith in rw e refl
xor_low (suc n) r h =
    let half : 2 ^ suc n / 2 ≡ 2 ^ n = omega (arith, pow-suc 2 n) in
    omega (
      arith,
      xor_split (2 ^ suc n) r,
      pow-suc 2 n,
      ap (λ x. x ⊕ (r / 2)) half,
      xor_low n (r / 2) (omega (arith, pow-suc 2 n)),
    )
