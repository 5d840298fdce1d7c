-- ===== src/Dedupe/Bitmap.antt =====
-- The words of a duplicate window read as one row of bits.
use low_latency_udp_fanout.Common.{
  ℕ, ◌-◌, ◌/◌, ◌%◌, ◌^◌, ◌<◌, ◌≡◌, sym, ap, ◌∙◌, ◌≢◌, false, not, ◌&&◌, ◌||◌, List, ◌==◌,
  if◌then◌else◌, length, get_or, set as set_elem, get_or-set_self, replicate, get_or-replicate,
  get_or-set_ne, length-set, arith,
}
use low_latency_udp_fanout.Common.Bits.{
  testbit, testbit-and, testbit-or, testbit_two_pow, testbit_complement, and_mask,
  and_two_pow-ne-zero,
}
use low_latency_udp_fanout.Dedupe.{test_at, set_at, clear_at, bit_of}
use native.Mathlib.Nat.{one-mul, pow-le-pow_right, zero-div}
use native.Mathlib.Decide.{ℕ_discrete}

-- Bit `p` of the row.
abbrev pub bit : List ℕ → ℕ → ℕ
bit bits p = testbit (get_or bits (p / 64) 0) (p % 64)

bit_of_lem : (p : ℕ) → bit_of p ≡ 2 ^ (p % 64)
bit_of_lem p = rw (and_mask 6 p, one-mul)

pub test_at-bit : (bits : List ℕ) (p : ℕ) → test_at bits p ≡ (bit bits p == 1)
unfolding test_at
test_at-bit bits p = rw (bit_of_lem p) (and_two_pow-ne-zero (p % 64) (get_or bits (p / 64) 0))

one_bit-lt : (k : ℕ) → k < 64 → 2 ^ k < 2 ^ 64
one_bit-lt k h =
    omega (arith, pow-le-pow_right {n = 2} (omega arith) {i = k} {j = 63} (omega arith))

-- Two positions are one position when word and bit agree.
same_position : (p q : ℕ) → p / 64 ≡ q / 64 → p % 64 ≡ q % 64 → p ≡ q
same_position p q h k = omega arith

-- Writing word `q / 64` changes the bits of that word alone.
bit-set_word :
    (bits : List ℕ) (q p v : ℕ)
    → q / 64 < length bits
    → p / 64 ≡ q / 64
    → bit (set_elem bits (q / 64) v) p ≡ testbit v (p % 64)
bit-set_word bits q p v inside same =
    ap (λ (w : ℕ). testbit w (p % 64)) (rw same (get_or-set_self bits (q / 64) v 0 inside))

bit-set_other_word :
    (bits : List ℕ) (q p v : ℕ) → p / 64 ≢ q / 64 → bit (set_elem bits (q / 64) v) p ≡ bit bits p
bit-set_other_word bits q p v other =
    ap (λ (w : ℕ). testbit w (p % 64))
      (get_or-set_ne bits (q / 64) (p / 64) v 0 (λ e. other (sym e)))

bit-set_at :
    (bits : List ℕ) (q p : ℕ)
    → q / 64 < length bits
    → bit (set_at bits q) p ≡ (if p == q then 1 else bit bits p)
unfolding set_at
bit-set_at bits q p inside = elim (ℕ_discrete (p / 64) (q / 64)) [
  | yes same ↦
      bit-set_word bits q p _ inside same
      ∙ rw (bit_of_lem q) (
          ground (
            arith,
            testbit-or (p % 64) (get_or bits (q / 64) 0) (2 ^ (q % 64)),
            testbit_two_pow (p % 64) (q % 64),
            ap (λ (w : ℕ). testbit (get_or bits w 0) (p % 64)) same,
            same_position p q,
          ))
  | no other ↦ bit-set_other_word bits q p _ other ∙ ground arith
]

bit-clear_at :
    (bits : List ℕ) (q p : ℕ)
    → q / 64 < length bits
    → bit (clear_at bits q) p ≡ (if p == q then 0 else bit bits p)
unfolding clear_at
bit-clear_at bits q p inside = elim (ℕ_discrete (p / 64) (q / 64)) [
  | yes same ↦
      bit-set_word bits q p _ inside same
      ∙ rw (bit_of_lem q) (
          ground (
            arith,
            testbit-and (p % 64) (get_or bits (q / 64) 0) (2 ^ 64 - 1 - 2 ^ (q % 64)),
            testbit_complement (p % 64) 64 (2 ^ (q % 64)) (one_bit-lt (q % 64) (omega arith))
                (omega arith),
            testbit_two_pow (p % 64) (q % 64),
            ap (λ (w : ℕ). testbit (get_or bits w 0) (p % 64)) same,
            same_position p q,
          ))
  | no other ↦ bit-set_other_word bits q p _ other ∙ ground arith
]

-- Setting a bit sets that bit and no other.
pub test_at-set_at :
    (bits : List ℕ) (q p : ℕ)
    → q / 64 < length bits
    → test_at (set_at bits q) p ≡ ((p == q) || test_at bits p)
test_at-set_at bits q p inside =
    rw (test_at-bit (set_at bits q) p, test_at-bit bits p, bit-set_at bits q p inside)
      (ground arith)

-- Clearing a bit clears that bit and no other.
pub test_at-clear_at :
    (bits : List ℕ) (q p : ℕ)
    → q / 64 < length bits
    → test_at (clear_at bits q) p ≡ (not (p == q) && test_at bits p)
test_at-clear_at bits q p inside =
    rw (test_at-bit (clear_at bits q) p, test_at-bit bits p, bit-clear_at bits q p inside)
      (ground arith)

pub length-set_at : (bits : List ℕ) (q : ℕ) → length (set_at bits q) ≡ length bits
unfolding set_at
length-set_at bits q = length-set bits (q / 64) _

pub length-clear_at : (bits : List ℕ) (q : ℕ) → length (clear_at bits q) ≡ length bits
unfolding clear_at
length-clear_at bits q = length-set bits (q / 64) _

pub test_at-replicate : (n p : ℕ) → test_at (replicate n 0) p ≡ false
test_at-replicate n p =
    rw
      (
        test_at-bit (replicate n 0) p,
        get_or-replicate {A = ℕ} n (p / 64) 0,
        zero-div (2 ^ (p % 64)),
      )
      (ground arith)
