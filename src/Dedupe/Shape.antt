-- ===== src/Dedupe/Shape.antt =====
-- The representation invariant of a window, and what one bit access means for it.
use low_latency_udp_fanout.Common.{
  ℕ, ◌-◌, ◌*◌, ◌/◌, ◌%◌, ◌^◌, ◌≤◌, ◌<◌, ◌≡◌, not, ◌&&◌, ◌||◌, bit_and, ◌==◌, length, arith,
}
use low_latency_udp_fanout.Common.Bits.{and_mask}
use low_latency_udp_fanout.Dedupe.{Window, test, set, clear}
use low_latency_udp_fanout.Dedupe.Bitmap.{
  test_at-set_at, test_at-clear_at, length-set_at, length-clear_at,
}
use native.Mathlib.Nat.{mod-lt}

-- The size is a power of two, the mask and the number of words belong to it.
pub record IsShaped (w : Window) : Type 0 where
  pub exponent : ℕ
  pub size_pow : w.size ≡ 2 ^ exponent
  pub one_word : 64 ≤ w.size
  pub mask_low : w.mask ≡ w.size - 1
  pub words : length w.bits * 64 ≡ w.size

-- `seq & mask_` is the residue, and lies in the row of bits.
pub position : (w : Window) → IsShaped w → (t : ℕ) → bit_and t w.mask ≡ t % w.size
position w v t = rw (v.mask_low, v.size_pow) (and_mask v.exponent t)

pub position_inside : (w : Window) → IsShaped w → (t : ℕ) → bit_and t w.mask / 64 < length w.bits
position_inside w v t =
    rw (position w v t)
      (omega (arith, v.words, v.one_word, mod-lt t {m = w.size} (omega (arith, v.one_word))))

pub test-set :
    (w : Window)
    → IsShaped w
    → (s t : ℕ) → test (set w s) t ≡ ((t % w.size == s % w.size) || test w t)
unfolding test set
test-set w v s t =
    rw (← position w v s, ← position w v t)
      (test_at-set_at w.bits (bit_and s w.mask) (bit_and t w.mask) (position_inside w v s))

pub test-clear :
    (w : Window)
    → IsShaped w
    → (s t : ℕ) → test (clear w s) t ≡ (not (t % w.size == s % w.size) && test w t)
unfolding test clear
test-clear w v s t =
    rw (← position w v s, ← position w v t)
      (test_at-clear_at w.bits (bit_and s w.mask) (bit_and t w.mask) (position_inside w v s))

pub set-IsShaped : (w : Window) (s : ℕ) → IsShaped w → IsShaped (set w s)
unfolding set
set-IsShaped w s v = record {
  exponent = v.exponent;
  size_pow = v.size_pow;
  one_word = v.one_word;
  mask_low = v.mask_low;
  words = rw (length-set_at w.bits (bit_and s w.mask)) v.words;
}

pub clear-IsShaped : (w : Window) (s : ℕ) → IsShaped w → IsShaped (clear w s)
unfolding clear
clear-IsShaped w s v = record {
  exponent = v.exponent;
  size_pow = v.size_pow;
  one_word = v.one_word;
  mask_low = v.mask_low;
  words = rw (length-clear_at w.bits (bit_and s w.mask)) v.words;
}
