-- ===== src/Fec/Solve/Correct.antt =====
-- harness/include/fec.h: the elimination of Decoder::try_recover on Cauchy systems.
use low_latency_udp_fanout.Common.{
  ℕ, zero, suc, ◌+◌, ◌≤◌, ◌<◌, ◌≡◌, refl, sym, ◌∙◌, subst, ap, ap₂, fun_ext, arith, Bool, true,
  false, ◌==◌, if◌then◌else◌, List, length-map, some, length, get_or,
}
use native.Mathlib.Decide.{dec_lt}
use low_latency_udp_fanout.Wire.Codec.{◌>>=◌}
use low_latency_udp_fanout.Fec.Field.{mul, inverse_or_zero}
use low_latency_udp_fanout.Fec.Field.Xor.{◌⊕◌, zero-xor}
use low_latency_udp_fanout.Fec.Field.Linear.{zero-mul}
use low_latency_udp_fanout.Fec.Field.Laws.{mul-inverse}
use low_latency_udp_fanout.Fec.Solve.{Row, no_row, row_at, cell, scale_row, clear_row, eliminate}
use low_latency_udp_fanout.Fec.Solve.Entry.{
  value, IsSystem, next_rows, next_row_at, next_beyond, next_rows-IsSystem, row_at_beyond,
  eliminate_column_lem, get_or-map_times, get_or-add_scaled, scaled,
}
use low_latency_udp_fanout.Fec.Solve.Reduce.{
  Points, step_cell, step_value, Reduced, pivot-ne, step-Reduced, solved,
}

module _ {n width : ℕ} {rows : List Row} (v : IsSystem n width rows) (c : ℕ) (inside : c < n) where
  abbrev s : ℕ
  s = inverse_or_zero (cell rows c c)

  pivot_entry : (j : ℕ) → get_or (scaled v c inside).coeffs j 0 ≡ mul (cell rows c j) s
  unfolding scale_row
  pivot_entry j = get_or-map_times (row_at rows c).coeffs s j

  pivot_value_entry : (t : ℕ) → get_or (scaled v c inside).rhs t 0 ≡ mul (value rows c t) s
  unfolding scale_row
  pivot_value_entry t = get_or-map_times (row_at rows c).rhs s t

  coeffs_length : length (scaled v c inside).coeffs ≡ n
  unfolding scale_row
  coeffs_length = length-map (row_at rows c).coeffs (λ x. mul x s) ∙ v.columns c inside

  rhs_length : length (scaled v c inside).rhs ≡ width
  unfolding scale_row
  rhs_length = length-map (row_at rows c).rhs (λ x. mul x s) ∙ v.widths c inside

  cleared_cell :
      (r j : ℕ)
      → r < n
      → get_or (clear_row c (scaled v c inside) (row_at rows r)).coeffs j 0
        ≡ cell rows r j ⊕ mul (cell rows r c) (mul (cell rows c j) s)
  unfolding clear_row
  cleared_cell r j lr =
      get_or-add_scaled (cell rows r c) (scaled v c inside).coeffs (row_at rows r).coeffs j
        (omega (arith, coeffs_length, v.columns r lr))
      ∙ ap (λ t. cell rows r j ⊕ mul (cell rows r c) t) (pivot_entry j)

  cleared_value :
      (r t : ℕ)
      → r < n
      → get_or (clear_row c (scaled v c inside) (row_at rows r)).rhs t 0
        ≡ value rows r t ⊕ mul (cell rows r c) (mul (value rows c t) s)
  unfolding clear_row
  cleared_value r t lr =
      get_or-add_scaled (cell rows r c) (scaled v c inside).rhs (row_at rows r).rhs t
        (omega (arith, rhs_length, v.widths r lr))
      ∙ ap (λ p. value rows r t ⊕ mul (cell rows r c) p) (pivot_value_entry t)

  by_row :
      {A : Type 0} {p q p2 q2 : A}
      → (r : ℕ) → p ≡ p2
      → q ≡ q2
      → (if r == c then p else q) ≡ (if r == c then p2 else q2)
  by_row {p = p} {q = q} {p2 = p2} {q2 = q2} r e f = ap₂ (λ s t. if r == c then s else t) e f

  if_ap :
      {A B : Type 0} (f : A → B) (b : Bool) (p q : A)
      → f (if b then p else q) ≡ (if b then f p else f q)
  if_ap f true p q = refl
  if_ap f false p q = refl

  cell_within : (r j : ℕ) → r < n → cell (next_rows rows c) r j ≡ step_cell c s (cell rows) r j
  cell_within r j lr =
      ap (λ row. get_or row.coeffs j 0) (next_row_at v c inside r lr)
      ∙ if_ap (λ (row : Row). get_or row.coeffs j 0) (r == c) _ _
      ∙ by_row r (pivot_entry j) (cleared_cell r j lr)

  value_within :
      (r t : ℕ) → r < n → value (next_rows rows c) r t ≡ step_value c s (cell rows) (value rows) r t
  value_within r t lr =
      ap (λ row. get_or row.rhs t 0) (next_row_at v c inside r lr)
      ∙ if_ap (λ (row : Row). get_or row.rhs t 0) (r == c) _ _
      ∙ by_row r (pivot_value_entry t) (cleared_value r t lr)

  -- Beyond the last row every cell is zero.
  cell_beyond : (r j : ℕ) → n ≤ r → step_cell c s (cell rows) r j ≡ 0
  cell_beyond r j le =
      let there : (r == c) ≡ false = ground arith in
      let none_here : row_at rows r ≡ no_row = row_at_beyond rows r (omega (arith, v.count)) in
      rw (there, none_here) (zero-xor _ ∙ zero-mul _)

  value_beyond : (r t : ℕ) → n ≤ r → step_value c s (cell rows) (value rows) r t ≡ 0
  value_beyond r t le =
      let there : (r == c) ≡ false = ground arith in
      let none_here : row_at rows r ≡ no_row = row_at_beyond rows r (omega (arith, v.count)) in
      rw (there, none_here) (zero-xor _ ∙ zero-mul _)

  pub next_cell : (r j : ℕ) → cell (next_rows rows c) r j ≡ step_cell c s (cell rows) r j
  next_cell r j = elim (dec_lt r n) [
    | yes lr ↦ cell_within r j lr
    | no ge ↦
        ap (λ row. get_or row.coeffs j 0) (next_beyond v c inside r (omega arith))
        ∙ sym (cell_beyond r j (omega arith))
  ]

  pub next_value :
      (r t : ℕ) → value (next_rows rows c) r t ≡ step_value c s (cell rows) (value rows) r t
  next_value r t = elim (dec_lt r n) [
    | yes lr ↦ value_within r t lr
    | no ge ↦
        ap (λ row. get_or row.rhs t 0) (next_beyond v c inside r (omega arith))
        ∙ sym (value_beyond r t (omega arith))
  ]

module _ {n width : ℕ} {x y : ℕ → ℕ} {d : ℕ → ℕ → ℕ} (points : Points n x y)
    (d-lt : (j t : ℕ) → d j t < 256) where
  next_Reduced :
      (c : ℕ) (rows : List Row)
      → c < n
      → IsSystem n width rows
      → Reduced n width x y d c (cell rows) (value rows)
      → Reduced n width x y d (suc c) (cell (next_rows rows c)) (value (next_rows rows c))
  next_Reduced c rows inside v i =
      let (pivot, small) =
        mul-inverse (cell rows c c) (i.cell-lt c c) (pivot-ne points d-lt i inside) in
      let cells = fun_ext (λ r. fun_ext (λ j. next_cell v c inside r j)) in
      let values = fun_ext (λ r. fun_ext (λ t. next_value v c inside r t)) in
      subst (λ m. Reduced n width x y d (suc c) m (value (next_rows rows c))) (sym cells)
        (subst (λ b. Reduced n width x y d (suc c) (step_cell c (s v c inside) (cell rows)) b)
          (sym values)
          (step-Reduced points d-lt i inside (inverse_or_zero (cell rows c c)) small pivot))

  -- The elimination returns, and its right-hand sides are the data.
  pub eliminate_lem :
      (rounds c : ℕ) (rows : List Row)
      → c + rounds ≡ n
      → IsSystem n width rows
      → Reduced n width x y d c (cell rows) (value rows)
      → (solved_rows : List Row) × (eliminate rounds c rows ≡ some solved_rows)
        × IsSystem n width solved_rows
        × ((r t : ℕ) → r < n → t < width → value solved_rows r t ≡ d r t)
  unfolding eliminate
  eliminate_lem zero c rows e v i =
      let last : c ≡ n = omega arith in
      (
        rows,
        refl,
        v,
        solved d-lt (subst (λ k. Reduced n width x y d k (cell rows) (value rows)) last i),
      )
  eliminate_lem (suc rounds) c rows e v i =
      let inside : c < n = omega arith in
      let (solved_rows, run, w, right) =
        eliminate_lem rounds (suc c) (next_rows rows c) (omega arith)
          (next_rows-IsSystem v c inside) (next_Reduced c rows inside v i) in
      let here =
        eliminate_column_lem rows c (omega (arith, v.count)) (pivot-ne points d-lt i inside) in
      (solved_rows, ap (λ o. o >>= eliminate rounds (suc c)) here ∙ run, w, right)
