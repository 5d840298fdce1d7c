-- ===== src/Common/Bits.antt =====
-- Bit operations on words of any width, digit by digit.
use Prim.Native.Nat.{
  ℕ, zero, suc, ◌+◌, ◌-◌, ◌*◌, ◌/◌, ◌%◌, ◌^◌, ◌≤◌, ◌<◌, min, max, bit_and, bit_or, bit_xor, digits,
  bitwise, bit_and-bitwise, bit_or-bitwise, bit_xor-bitwise, differ,
}
use mathlib.Core.Path.{◌≡◌, refl, sym, ap, ◌∙◌}
use mathlib.Core.Logic.{◌≢◌, ◌⊎◌, inl, inr}
use mathlib.Core.Bool.{not}
use native.Mathlib.Nat.{pow-suc, pow-succ', one-le-pow, div-div-eq-div-mul, zero-div}
use native.Mathlib.Nat.{add-mul-mod_self_left, mod-eq_of_lt, mod-lt, mul_assoc, div-add-mod}
use native.Mathlib.Decide.{ℕ_discrete}
use native.Mathlib.Omega.{arith}
use low_latency_udp_fanout.Common.Tests.{◌==◌, if◌then◌else◌}
use low_latency_udp_fanout.Common.Order.{strong_induction}

-- `digits` recurs on a count of digits; any count that is large enough gives the same.
module _ (z : ℕ → ℕ) (f : ℕ → ℕ → ℕ) where
  digits_enough : (x y k l : ℕ) → x ≤ k → x ≤ l → digits z f k x y ≡ digits z f l x y
  digits_enough zero y zero zero small fits = refl
  digits_enough zero y zero (suc l) small fits = refl
  digits_enough (suc x) y zero l small fits = absurd (omega arith)
  digits_enough zero y (suc k) zero small fits = refl
  digits_enough (suc x) y (suc k) zero small fits = absurd (omega arith)
  digits_enough zero y (suc k) (suc l) small fits = refl
  digits_enough (suc x) y (suc k) (suc l) small fits =
      rw (digits_enough (suc x / 2) (y / 2) k l (omega arith) (omega arith))

  bitwise_split :
      (x y : ℕ)
      → bitwise z f (suc x) y ≡ bitwise z f (suc x / 2) (y / 2) * 2 + f (suc x % 2) (y % 2)
  bitwise_split x y =
      rw (digits_enough (suc x / 2) (y / 2) x (suc x / 2) (omega arith) (omega arith))

-- What holds at 0, and at a number where it holds at its half, holds everywhere.
pub halving {ℓ} : (P : ℕ → Type ℓ) → P 0 → ((n : ℕ) → P (suc n / 2) → P (suc n)) → (n : ℕ) → P n
halving P base step = strong_induction P next
  where
    next : (n : ℕ) → ((m : ℕ) → m < n → P m) → P n
    next zero ih = base
    next (suc n) ih = step n (ih (suc n / 2) (omega arith))

-- The lowest digit of each operation, and the rest.
pub and_split : (a b : ℕ) → bit_and a b ≡ bit_and (a / 2) (b / 2) * 2 + min (a % 2) (b % 2)
and_split zero b = simp bit_and-bitwise (omega arith)
and_split (suc a) b = simp bit_and-bitwise (bitwise_split (λ y. 0) min a b)

pub or_split : (a b : ℕ) → bit_or a b ≡ bit_or (a / 2) (b / 2) * 2 + max (a % 2) (b % 2)
or_split zero b = simp bit_or-bitwise (omega arith)
or_split (suc a) b = simp bit_or-bitwise (bitwise_split (λ y. y) max a b)

differ_digits : (a b : ℕ) → a < 2 → b < 2 → differ a b ≡ (a + b) % 2
differ_digits zero b p q = omega arith
differ_digits (suc zero) zero p q = refl
differ_digits (suc zero) (suc zero) p q = refl
differ_digits (suc zero) (suc (suc b)) p q = absurd (omega arith)
differ_digits (suc (suc a)) b p q = absurd (omega arith)

xor_split_differ : (a b : ℕ) → bit_xor a b ≡ bit_xor (a / 2) (b / 2) * 2 + differ (a % 2) (b % 2)
xor_split_differ zero b = simp bit_xor-bitwise (omega arith)
xor_split_differ (suc a) b = simp bit_xor-bitwise (bitwise_split (λ y. y) differ a b)

pub xor_split : (a b : ℕ) → bit_xor a b ≡ bit_xor (a / 2) (b / 2) * 2 + (a + b) % 2
xor_split a b =
    omega (arith, xor_split_differ a b, differ_digits (a % 2) (b % 2) (omega arith) (omega arith))

-- Bit `j` of `w`, as 0 or 1.
abbrev pub testbit : ℕ → ℕ → ℕ
testbit w j = w / 2 ^ j % 2

pub testbit-suc : (w j : ℕ) → testbit w (suc j) ≡ testbit (w / 2) j
testbit-suc w j = ap (λ (t : ℕ). t % 2) (rw (pow-succ' 2 j) (sym (div-div-eq-div-mul w 2 (2 ^ j))))

half_and : (a b : ℕ) → bit_and a b / 2 ≡ bit_and (a / 2) (b / 2)
half_and a b = omega (arith, and_split a b)

half_or : (a b : ℕ) → bit_or a b / 2 ≡ bit_or (a / 2) (b / 2)
half_or a b = omega (arith, or_split a b)

half_xor : (a b : ℕ) → bit_xor a b / 2 ≡ bit_xor (a / 2) (b / 2)
half_xor a b = omega (arith, xor_split a b)

pub testbit-and : (j a b : ℕ) → testbit (bit_and a b) j ≡ min (testbit a j) (testbit b j)
testbit-and zero a b = omega (arith, and_split a b)
testbit-and (suc j) a b =
    rw (testbit-suc (bit_and a b) j, testbit-suc a j, testbit-suc b j, half_and a b)
      (testbit-and j (a / 2) (b / 2))

pub testbit-or : (j a b : ℕ) → testbit (bit_or a b) j ≡ max (testbit a j) (testbit b j)
testbit-or zero a b = omega (arith, or_split a b)
testbit-or (suc j) a b =
    rw (testbit-suc (bit_or a b) j, testbit-suc a j, testbit-suc b j, half_or a b)
      (testbit-or j (a / 2) (b / 2))

pub testbit-xor : (j a b : ℕ) → testbit (bit_xor a b) j ≡ (testbit a j + testbit b j) % 2
testbit-xor zero a b = omega (arith, xor_split a b)
testbit-xor (suc j) a b =
    rw (testbit-suc (bit_xor a b) j, testbit-suc a j, testbit-suc b j, half_xor a b)
      (testbit-xor j (a / 2) (b / 2))

-- A single bit.
pub testbit_two_pow : (j k : ℕ) → testbit (2 ^ k) j ≡ (if j == k then 1 else 0)
testbit_two_pow zero zero = refl
testbit_two_pow zero (suc k) = grind (arith, pow-suc 2 k)
testbit_two_pow (suc j) zero = rw (testbit-suc 1 j, zero-div (2 ^ j)) (ground arith)
testbit_two_pow (suc j) (suc k) =
    rw (testbit-suc (2 ^ suc k) j, half_pow k) (ground (arith, testbit_two_pow j k))
  where
    half_pow : (k : ℕ) → 2 ^ suc k / 2 ≡ 2 ^ k
    half_pow k = omega (arith, pow-suc 2 k)

-- The complement within `n` bits.
pub testbit_complement :
    (j n x : ℕ) → x < 2 ^ n → j < n → testbit (2 ^ n - 1 - x) j ≡ 1 - testbit x j
testbit_complement j zero x h lt = absurd (omega arith)
testbit_complement zero (suc n) x h lt = omega (arith, pow-suc 2 n)
testbit_complement (suc j) (suc n) x h lt =
    rw (testbit-suc (2 ^ suc n - 1 - x) j, testbit-suc x j, halves)
      (testbit_complement j n (x / 2) (omega (arith, pow-suc 2 n)) (omega arith))
  where
    halves : (2 ^ suc n - 1 - x) / 2 ≡ 2 ^ n - 1 - x / 2
    halves = omega (arith, pow-suc 2 n)

-- A mask of `k` ones is the remainder by `2 ^ k`.
and_zero : (a : ℕ) → bit_and a 0 ≡ 0
and_zero = halving (λ a. bit_and a 0 ≡ 0) refl (λ n ih. omega (arith, and_split (suc n) 0, ih))

and_self : (a : ℕ) → bit_and a a ≡ a
and_self =
    halving (λ a. bit_and a a ≡ a) refl (λ n ih. omega (arith, and_split (suc n) (suc n), ih))

pub mod_double : (a m : ℕ) → 0 < m → a % (2 * m) ≡ a / 2 % m * 2 + a % 2
mod_double a m pos = ap (λ (t : ℕ). t % (2 * m)) parts ∙ add-mul-mod_self_left _ _ _ ∙ small
  where
    parts : a ≡ a / 2 % m * 2 + a % 2 + 2 * m * (a / 2 / m)
    parts = omega (arith, div-add-mod (a / 2) m, mul_assoc 2 m (a / 2 / m))

    small : (a / 2 % m * 2 + a % 2) % (2 * m) ≡ a / 2 % m * 2 + a % 2
    small = mod-eq_of_lt (omega (arith, mod-lt (a / 2) pos))

pub and_mask : (k a : ℕ) → bit_and a (2 ^ k - 1) ≡ a % 2 ^ k
and_mask zero a = omega (arith, and_zero a)
and_mask (suc k) a =
    rw (pow-succ' 2 k, mod_double a (2 ^ k) (one-le-pow k 2 (omega arith)))
      (omega (
        arith,
        and_split a (2 * 2 ^ k - 1),
        ap (bit_and (a / 2)) half_mask,
        and_mask k (a / 2),
        one-le-pow k 2 (omega arith),
      ))
  where
    half_mask : (2 * 2 ^ k - 1) / 2 ≡ 2 ^ k - 1
    half_mask = omega (arith, one-le-pow k 2 (omega arith))

halved_even : (n : ℕ) → n % 2 ≡ 0 → n ≢ 0 → bit_and n (n - 1) ≡ 0 → bit_and (n / 2) (n / 2 - 1) ≡ 0
halved_even n even ne e = omega (arith, and_split n (n - 1), ap (bit_and (n / 2)) half_pred)
  where
    half_pred : (n - 1) / 2 ≡ n / 2 - 1
    half_pred = omega arith

one_of_odd : (n : ℕ) → n % 2 ≡ 1 → bit_and n (n - 1) ≡ 0 → n ≡ 1
one_of_odd n odd e =
    omega (arith, and_split n (n - 1), ap (bit_and (n / 2)) half_pred, and_self (n / 2))
  where
    half_pred : (n - 1) / 2 ≡ n / 2
    half_pred = omega arith

double_two_pow : (n : ℕ) → n % 2 ≡ 0 → (k : ℕ) × (n / 2 ≡ 2 ^ k) → (k : ℕ) × (n ≡ 2 ^ k)
double_two_pow n even (k, e) = (suc k, omega (arith, pow-suc 2 k))

-- `n & (n - 1)` is zero at the powers of two only.
pub two_pow_of_and_pred : (n : ℕ) → n ≢ 0 → bit_and n (n - 1) ≡ 0 → (k : ℕ) × (n ≡ 2 ^ k)
two_pow_of_and_pred =
    strong_induction (λ n. n ≢ 0 → bit_and n (n - 1) ≡ 0 → (k : ℕ) × (n ≡ 2 ^ k)) step
  where
    step :
        (n : ℕ)
        → ((m : ℕ) → m < n → m ≢ 0 → bit_and m (m - 1) ≡ 0 → (k : ℕ) × (m ≡ 2 ^ k))
        → n ≢ 0
        → bit_and n (n - 1) ≡ 0
        → (k : ℕ) × (n ≡ 2 ^ k)
    step n ih ne e = elim (ℕ_discrete (n % 2) 0) [
      | yes even ↦
          double_two_pow n even (ih (n / 2) (omega arith) (omega arith) (halved_even n even ne e))
      | no odd ↦ (0, one_of_odd n (omega arith) e)
    ]

-- `w & (1 << k)` keeps bit `k`.
and_two_pow : (k w : ℕ) → bit_and w (2 ^ k) ≡ testbit w k * 2 ^ k
and_two_pow zero w = omega (arith, and_split w 1, and_zero (w / 2))
and_two_pow (suc k) w = rw (testbit-suc w k) (
    omega (
      arith,
      and_split w (2 ^ suc k),
      ap (bit_and (w / 2)) half,
      and_two_pow k (w / 2),
      pow-suc 2 k,
      ap (λ (t : ℕ). testbit (w / 2) k * t) (pow-suc 2 k),
    ))
  where
    half : 2 ^ suc k / 2 ≡ 2 ^ k
    half = omega (arith, pow-suc 2 k)

testbit_zero_or_one : (w k : ℕ) → (testbit w k ≡ 0) ⊎ (testbit w k ≡ 1)
testbit_zero_or_one w k = omega arith

pub and_two_pow-ne-zero : (k w : ℕ) → not (bit_and w (2 ^ k) == 0) ≡ (testbit w k == 1)
and_two_pow-ne-zero k w = elim (testbit_zero_or_one w k) [
  | inl z ↦ rw (and_two_pow k w, z) (ground arith)
  | inr o ↦ rw (and_two_pow k w, o) (ground (arith, one-le-pow k 2 (omega arith)))
]

or_zero : (a : ℕ) → bit_or a 0 ≡ a
or_zero = halving (λ a. bit_or a 0 ≡ a) refl (λ n ih. omega (arith, or_split (suc n) 0, ih))

-- `(q << k) | r` is a sum where `r` fits into `k` bits.
pub or_low : (k q r : ℕ) → r < 2 ^ k → bit_or (q * 2 ^ k) r ≡ q * 2 ^ k + r
or_low zero q r fits = let e : r ≡ 0 = omega arith in rw (e, or_zero (q * 1)) (omega arith)
or_low (suc k) q r fits =
    let double : q * 2 ^ suc k ≡ 2 * (q * 2 ^ k) =
      omega (arith, ap (λ (t : ℕ). q * t) (pow-suc 2 k)) in
    let half : q * 2 ^ suc k / 2 ≡ q * 2 ^ k = omega (arith, double) in
    omega (
      arith,
      double,
      or_split (q * 2 ^ suc k) r,
      ap (λ (t : ℕ). bit_or t (r / 2)) half,
      or_low k q (r / 2) (omega (arith, pow-suc 2 k)),
    )
