-- ===== src/Fec/Field.antt =====
-- harness/include/fec.h: arithmetic of GF(256) with the polynomial 0x11d, and the coefficients of
-- the parity rows.
pub mod Xor
pub mod Linear
pub mod Laws
pub mod Ring
use low_latency_udp_fanout.Common.{
  ℕ, zero, suc, ◌+◌, ◌*◌, ◌/◌, ◌^◌, Bool, true, false, not, Option, none, some, bit_and, bit_xor,
  ◌==◌, if◌then◌else◌, u8,
}

-- `bool high=a&128; a<<=1; if(high) a^=0x1d`
unfoldable pub times_x : ℕ → ℕ
times_x a = if not (bit_and a 128 == 0) then bit_xor (u8 (a * 2)) 0x1d else u8 (a * 2)

-- The loop of `mul`, on fuel.
unfoldable pub mul_loop : ℕ → ℕ → ℕ → ℕ → ℕ
mul_loop zero a b out = out
mul_loop (suc fuel) a b out = elim (b == 0) [
  | true ↦ out
  | false ↦
      mul_loop fuel (times_x a) (b / 2) (if not (bit_and b 1 == 0) then bit_xor out a else out)
]

-- A byte `b` is zero after eight shifts.
unfoldable pub mul : ℕ → ℕ → ℕ
unfolding mul_loop times_x
mul a b = mul_loop 8 a b 0

-- The loop of `inverse`: `n` is 254 at first and is halved until it is zero.
unfoldable pub power_loop : ℕ → ℕ → ℕ → ℕ → ℕ
power_loop zero n a out = out
power_loop (suc fuel) n a out = elim (n == 0) [
  | true ↦ out
  | false ↦ power_loop fuel (n / 2) (mul a a) (if not (bit_and n 1 == 0) then mul out a else out)
]

-- `none` is the exception "zero GF inverse".
unfoldable pub inverse : ℕ → Option ℕ
unfolding power_loop
inverse a = if a == 0 then none else some (power_loop 8 254 a 1)

-- The inverse of a number that is known not to be zero.
unfoldable pub inverse_or_zero : ℕ → ℕ
unfolding inverse
inverse_or_zero a = elim (inverse a) [ none ↦ 0 | some b ↦ b ]

unfoldable pub coefficient : ℕ → ℕ → ℕ
coefficient row col = mul (u8 (bit_xor col 128)) (inverse_or_zero (u8 (bit_xor col (128 + row))))
