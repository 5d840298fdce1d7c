-- ===== src/Util.antt =====
-- harness/include/util.h: the pure helper of that header.
use low_latency_udp_fanout.Common.{ℕ, ◌-◌, ◌^◌, ◌≡◌, Bool, true, not, ◌&&◌, bit_and, ◌==◌, arith}
use low_latency_udp_fanout.Common.Bits.{two_pow_of_and_pred}

-- `value - 1` is computed only where `value` is not 0.
unfoldable pub is_power_of_two : ℕ → Bool
is_power_of_two value = not (value == 0) && (bit_and value (value - 1) == 0)

-- The bit test accepts powers of two only.
pub is_power_of_two→pow : (n : ℕ) → is_power_of_two n ≡ true → (k : ℕ) × (n ≡ 2 ^ k)
unfolding is_power_of_two
is_power_of_two→pow n h = two_pow_of_and_pred n (ground arith) (ground arith)
