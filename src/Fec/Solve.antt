-- ===== src/Fec/Solve.antt =====
-- harness/include/fec.h: the linear system of Decoder::try_recover and its elimination. A row is
-- kept with its right-hand side.
pub mod Entry
pub mod Sum
pub mod Cauchy
pub mod Reduce
pub mod Correct
use low_latency_udp_fanout.Common.{
  ℕ, zero, suc, ◌+◌, ◌-◌, List, [], ◌∷◌, Bool, true, false, not, Option, none, some, ltb, ◌==◌,
  if◌then◌else◌, length, get_or, set, map,
}
use low_latency_udp_fanout.Wire.Codec.{◌>>=◌}
use low_latency_udp_fanout.Fec.Field.{mul, inverse}
use low_latency_udp_fanout.Fec.Envelope.{add_scaled}

pub record Row : Type 0 where
  pub coeffs : List ℕ
  pub rhs : List ℕ

abbrev pub no_row : Row
no_row = record { coeffs = []; rhs = [] }

abbrev pub row_at : List Row → ℕ → Row
row_at rows r = get_or rows r no_row

abbrev pub cell : List Row → ℕ → ℕ → ℕ
cell rows r c = get_or (row_at rows r).coeffs c 0

-- `while(pivot<missing && !matrix[pivot][c]) ++pivot`, with `rounds` rows from `pivot` on.
unfoldable pub find_pivot : ℕ → List Row → ℕ → ℕ → ℕ
find_pivot zero rows c pivot = pivot
find_pivot (suc rounds) rows c pivot =
    let next = find_pivot rounds rows c (suc pivot) in
    if cell rows pivot c == 0 then next else pivot

unfoldable pub swap_rows : List Row → ℕ → ℕ → List Row
swap_rows rows i j = set (set rows i (row_at rows j)) j (row_at rows i)

unfoldable pub scale_row : ℕ → Row → Row
scale_row scale row = record {
  coeffs = map (λ x. mul x scale) row.coeffs;
  rhs = map (λ x. mul x scale) row.rhs;
}

-- `row ^= factor * pivot_row` with the factor that clears column `c`.
unfoldable pub clear_row : ℕ → Row → Row → Row
clear_row c pivot_row row =
    let factor = get_or row.coeffs c 0 in
    record {
      coeffs = add_scaled factor pivot_row.coeffs row.coeffs;
      rhs = add_scaled factor pivot_row.rhs row.rhs;
    }

-- The loop over the rows, from row `r` on.
unfoldable pub clear_rows : ℕ → Row → ℕ → List Row → List Row
clear_rows c pivot_row r [] = []
clear_rows c pivot_row r (row ∷ rows) =
    (if r == c then pivot_row else clear_row c pivot_row row) ∷ clear_rows c pivot_row (suc r) rows

-- One column; `none` where no row has a pivot. `inverse` is called with a cell that is not zero.
unfoldable pub eliminate_column : List Row → ℕ → Option (List Row)
eliminate_column rows c =
    let pivot = find_pivot (length rows - c) rows c c in
    if pivot == length rows
    then none
    else (let swapped = swap_rows rows pivot c in
        inverse (cell swapped c c) >>= λ scale.
        some (clear_rows c (scale_row scale (row_at swapped c)) 0 swapped))

-- The columns from `c` on, `rounds` of them.
unfoldable pub eliminate : ℕ → ℕ → List Row → Option (List Row)
eliminate zero c rows = some rows
eliminate (suc rounds) c rows = eliminate_column rows c >>= eliminate rounds (suc c)
