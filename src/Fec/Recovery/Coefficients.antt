-- ===== src/Fec/Recovery/Coefficients.antt =====
-- harness/include/fec.h: coefficient, as an entry of a Cauchy matrix.
use low_latency_udp_fanout.Common.{ℕ, ◌+◌, ◌<◌, ◌≡◌, ◌≢◌, ◌∙◌, ap, ap₂, arith, u8, bit_xor}
use low_latency_udp_fanout.Fec.Field.{mul, inverse_or_zero, coefficient}
use low_latency_udp_fanout.Fec.Field.Xor.{◌⊕◌, xor_comm, xor-lt, eq_of_xor-zero}
use low_latency_udp_fanout.Fec.Field.Laws.{mul-lt, mul_comm, mul_assoc, mul-inverse}
use low_latency_udp_fanout.Fec.Solve.Cauchy.{mul-one}

pub coefficient-lt : (row col : ℕ) → coefficient row col < 256
unfolding coefficient
coefficient-lt row col = mul-lt (u8 (bit_xor col 128)) _ (omega arith)

xor-ne : (a b : ℕ) → a ≢ b → a ⊕ b ≢ 0
xor-ne a b ne e = ne (eq_of_xor-zero a b e)

byte_xor : (a b : ℕ) → a < 256 → b < 256 → u8 (bit_xor a b) ≡ a ⊕ b
byte_xor a b ha hb = let lt : a ⊕ b < 256 = xor-lt 8 a b ha hb in omega arith

pub column_factor : ℕ → ℕ
column_factor col = col ⊕ 128

module _ (row col : ℕ) (row-lt : row < 16) (col-lt : col < 128) where
  left_byte : u8 (bit_xor col 128) ≡ col ⊕ 128
  left_byte = byte_xor col 128 (omega arith) (omega arith)

  right_byte : u8 (bit_xor col (128 + row)) ≡ (128 + row) ⊕ col
  right_byte = byte_xor col (128 + row) (omega arith) (omega arith) ∙ xor_comm col (128 + row)

  point-ne : (128 + row) ⊕ col ≢ 0
  point-ne = xor-ne (128 + row) col (omega arith)

  point-lt : (128 + row) ⊕ col < 256
  point-lt = xor-lt 8 (128 + row) col (omega arith) (omega arith)

  pub column_factor-lt : column_factor col < 256
  unfolding column_factor
  column_factor-lt = xor-lt 8 col 128 (omega arith) (omega arith)

  pub column_factor-ne : column_factor col ≢ 0
  unfolding column_factor
  column_factor-ne = xor-ne col 128 (omega arith)

  coefficient_lem :
      coefficient row col ≡ mul (column_factor col) (inverse_or_zero ((128 + row) ⊕ col))
  unfolding coefficient column_factor
  coefficient_lem = ap₂ (λ a b. mul a (inverse_or_zero b)) left_byte right_byte

  pub coefficient-point : mul (coefficient row col) ((128 + row) ⊕ col) ≡ column_factor col
  coefficient-point =
      let w : ℕ = (128 + row) ⊕ col in
      let (one, small) = mul-inverse w point-lt point-ne in
      ap (λ c. mul c w) coefficient_lem
      ∙ mul_assoc (column_factor col) (inverse_or_zero w) w column_factor-lt small point-lt
      ∙ ap (mul (column_factor col)) (mul_comm (inverse_or_zero w) w small point-lt ∙ one)
      ∙ mul-one (column_factor col) column_factor-lt

-- Row zero adds the blocks as they are.
pub coefficient-zero : (col : ℕ) → col < 128 → coefficient 0 col ≡ 1
unfolding coefficient
coefficient-zero col lt =
    let e : u8 (bit_xor col 128) ≡ col ⊕ 128 = byte_xor col 128 (omega arith) (omega arith) in
    ap (λ b. mul b (inverse_or_zero b)) e
    ∙ (mul-inverse (col ⊕ 128) (xor-lt 8 col 128 (omega arith) (omega arith))
        (xor-ne col 128 (omega arith))).0
