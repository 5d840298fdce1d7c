-- ===== src/Fec/Recovery/System.antt =====
-- harness/include/fec.h: the system that Decoder::try_recover builds from a generation.
use low_latency_udp_fanout.Common.{
  ℕ, zero, suc, ◌+◌, ◌≤◌, ◌<◌, ◌≡◌, refl, sym, ◌∙◌, subst, ap, arith, true, false, List, [], ◌∷◌,
  length-map, map, some, length, get_or,
}
use native.Mathlib.Decide.{dec_lt}
use low_latency_udp_fanout.Wire.Codec.{◌>>=◌}
use low_latency_udp_fanout.Fec.Field.{mul, coefficient}
use low_latency_udp_fanout.Fec.Field.Xor.{◌⊕◌}
use low_latency_udp_fanout.Fec.Field.Laws.{one-mul}
use low_latency_udp_fanout.Fec.Decoder.{Generation}
use low_latency_udp_fanout.Fec.Decoder.Recover.{absent_from, build_rows}
use low_latency_udp_fanout.Fec.Solve.{Row, row_at, cell, eliminate}
use low_latency_udp_fanout.Fec.Solve.Sum.{sum, sum_ext}
use low_latency_udp_fanout.Fec.Solve.Entry.{value, IsSystem, row_at_beyond}
use low_latency_udp_fanout.Fec.Solve.Reduce.{Points, Reduced}
use low_latency_udp_fanout.Fec.Solve.Correct.{eliminate_lem}
use low_latency_udp_fanout.Fec.Recovery.Coefficients.{
  coefficient-lt, column_factor, column_factor-lt, column_factor-ne, coefficient-point,
}
use low_latency_udp_fanout.Fec.Recovery.Indices.{Ascending, get_or-lt, distinct}
use low_latency_udp_fanout.Fec.Recovery.Parity.{across, term, subtract_received_lem, left_entry}

pub widen :
    (lo hi higher : ℕ) (is : List ℕ) → hi ≤ higher → Ascending lo hi is → Ascending lo higher is
widen lo hi higher [] h a = tt
widen lo hi higher (i ∷ is) h (ge, lt, rest) = (ge, omega arith, widen (suc i) hi higher is h rest)

get_or-map_lt :
    (f : ℕ → ℕ) (is : List ℕ) (j : ℕ) → j < length is → get_or (map f is) j 0 ≡ f (get_or is j 0)
get_or-map_lt f [] j h = absurd (omega arith)
get_or-map_lt f (i ∷ is) zero h = refl
get_or-map_lt f (i ∷ is) (suc j) h = get_or-map_lt f is j (omega arith)

get_or-map_byte : (row : ℕ) (is : List ℕ) (j : ℕ) → get_or (map (coefficient row) is) j 0 < 256
get_or-map_byte row [] j = omega arith
get_or-map_byte row (i ∷ is) zero = coefficient-lt row i
get_or-map_byte row (i ∷ is) (suc j) = get_or-map_byte row is j

-- What a generation holds: the blocks of `content` that were received, and sums of all of them in
-- its parity rows.
pub record Holds (width : ℕ) (content : ℕ → ℕ → ℕ) (gen : Generation) : Type 0 where
  pub k-le : gen.k ≤ 128
  pub bytes : (i t : ℕ) → content i t < 256
  pub fits : (i : ℕ) → get_or gen.received i false ≡ true → length (get_or gen.blocks i []) ≤ width
  pub blocks_hold :
      (i t : ℕ)
      → get_or gen.received i false ≡ true
      → get_or (get_or gen.blocks i []) t 0 ≡ content i t

-- A parity row that is there.
pub record IsParity (width : ℕ) (content : ℕ → ℕ → ℕ) (gen : Generation) (row : ℕ) : Type 0 where
  pub wide : length (get_or gen.parities row []) ≡ width
  pub sums : (t : ℕ) → get_or (get_or gen.parities row []) t 0 ≡ across gen.k 0 (term content row t)

abbrev absent_of : Generation → List ℕ
absent_of gen = absent_from gen.k 0 gen.received

module _ {width : ℕ} {content : ℕ → ℕ → ℕ} {gen : Generation} (h : Holds width content gen) where
  abbrev absent : List ℕ
  absent = absent_of gen

  -- Row `row` of the system.
  record IsRow (row : ℕ) (built : Row) : Type 0 where
    coefficients : built.coeffs ≡ map (coefficient row) absent
    width_kept : length built.rhs ≡ width
    entries :
        (t : ℕ)
        → get_or built.rhs t 0 ≡ sum (length absent) (λ j. term content row t (get_or absent j 0))

  build_rows_lem :
      (rows : List ℕ)
      → ((r : ℕ) → r < length rows → IsParity width content gen (get_or rows r 0))
      → (system : List Row) × (build_rows gen width absent rows ≡ some system)
        × (length system ≡ length rows)
        × ((r : ℕ) → r < length rows → IsRow (get_or rows r 0) (row_at system r))
  unfolding build_rows
  build_rows_lem [] parity = ([], refl, refl, λ r lt. absurd (omega arith))
  build_rows_lem (row ∷ rows) parity =
      let here = parity 0 (omega arith) in
      let shard : List ℕ = get_or gen.parities row [] in
      let (after, run, left) =
        subtract_received_lem width row content gen.k 0 gen.received gen.blocks shard here.wide
          h.fits h.blocks_hold in
      let (system, more, count, each) =
        build_rows_lem rows (λ r lt. parity (suc r) (omega arith)) in
      let first : Row = record { coeffs = map (coefficient row) absent; rhs = after } in
      let first-IsRow : IsRow row first = record {
        coefficients = refl;
        width_kept = left.same_length ∙ here.wide;
        entries =
            λ t. left_entry width row content gen.k gen.received shard after t left (here.sums t);
      } in
      (
        first ∷ system,
        ap
              (λ o. o >>= λ rhs. build_rows gen width absent rows >>= λ rest.
                some (record { coeffs = map (coefficient row) absent; rhs = rhs } ∷ rest))
              run
            ∙ ap (λ o. o >>= λ rest. some (first ∷ rest)) more,
        ap suc count,
        nth rows system first-IsRow each,
      )
    where
      nth :
          {row : ℕ} (rows : List ℕ) {first : Row} (system : List Row)
          → IsRow row first
          → ((r : ℕ) → r < length rows → IsRow (get_or rows r 0) (row_at system r))
          → (r : ℕ) → r < suc (length rows)
          → IsRow (get_or (row ∷ rows) r 0) (row_at (first ∷ system) r)
      nth rows system one each zero lt = one
      nth rows system one each (suc r) lt = each r (omega arith)

  module _ (rows : List ℕ) (rows-Ascending : Ascending 0 16 rows)
      (absent-Ascending : Ascending 0 gen.k absent) (square : length rows ≡ length absent) where
    abbrev n : ℕ
    n = length absent

    abbrev row_point : ℕ → ℕ
    row_point r = 128 + get_or rows r 0

    abbrev column_point : ℕ → ℕ
    column_point j = get_or absent j 0

    row-lt : (r : ℕ) → get_or rows r 0 < 16
    row-lt r = get_or-lt 0 16 rows r (omega arith) rows-Ascending

    column-lt : (j : ℕ) → column_point j < 128
    column-lt j =
        get_or-lt 0 128 absent j (omega arith) (widen 0 gen.k 128 absent h.k-le absent-Ascending)

    points : Points n row_point column_point
    points = record {
      x-lt = λ r. omega (arith, row-lt r);
      y-lt = λ j. omega (arith, column-lt j);
      rows_differ = λ r q lr lq ne.
          let other = distinct 0 16 rows r q rows-Ascending (omega arith) (omega arith) ne in
          omega arith;
      columns_differ = λ j k lj lk ne. distinct 0 gen.k absent j k absent-Ascending lj lk ne;
      apart = λ r j lr lj. omega (arith, column-lt j);
    }

    module _ (system : List Row) (count : length system ≡ length rows)
        (each : (r : ℕ) → r < length rows → IsRow (get_or rows r 0) (row_at system r)) where
      built-IsSystem : IsSystem n width system
      built-IsSystem = record {
        count = count ∙ square;
        columns = λ r lt.
            let row = each r (omega arith) in
            ap length row.coefficients ∙ length-map absent (coefficient (get_or rows r 0));
        widths = λ r lt. let row = each r (omega arith) in row.width_kept;
      }

      system_cell :
          (r j : ℕ)
          → r < n
          → j < n
          → cell system r j ≡ coefficient (get_or rows r 0) (get_or absent j 0)
      system_cell r j lr lj =
          let row = each r (omega arith) in
          ap (λ cs. get_or cs j 0) row.coefficients
          ∙ get_or-map_lt (coefficient (get_or rows r 0)) absent j lj

      system_cell-lt : (r j : ℕ) → cell system r j < 256
      system_cell-lt r j = elim (dec_lt r n) [
        | yes lr ↦
            let row = each r (omega arith) in
            subst (λ cs. get_or cs j 0 < 256) (sym row.coefficients)
              (get_or-map_byte (get_or rows r 0) absent j)
        | no ge ↦
            subst (λ row. get_or row.coeffs j 0 < 256) (sym (row_at_beyond system r (omega arith)))
              (omega arith)
      ]

      system-Reduced :
          Reduced n width row_point column_point
            (λ j t. content (get_or absent j 0) t)
            0
            (cell system)
            (value system)
      system-Reduced = record {
        u = λ r. 1;
        v = λ j. column_factor (get_or absent j 0);
        u-lt = λ r. omega arith;
        v-lt = λ j. column_factor-lt 0 (get_or absent j 0) (omega arith) (column-lt j);
        u-ne = λ r ge lt. omega arith;
        v-ne = λ j ge lt. column_factor-ne 0 (get_or absent j 0) (omega arith) (column-lt j);
        cell-lt = system_cell-lt;
        cauchy = λ r j ge lr gf lj.
            ap (λ c. mul c (row_point r ⊕ column_point j)) (system_cell r j lr lj)
            ∙ coefficient-point (get_or rows r 0) (get_or absent j 0) (row-lt r) (column-lt j)
            ∙ sym (one-mul _ (column_factor-lt 0 (get_or absent j 0) (omega arith) (column-lt j)));
        cleared = λ r j lr lj. absurd (omega arith);
        solves = λ r t lr lt.
            let row = each r (omega arith) in
            row.entries t
            ∙ sum_ext n _ _ (λ j lj.
              ap (λ c. mul c (content (get_or absent j 0) t)) (sym (system_cell r j lr lj)));
      }

  -- The decoder's system has a solution, and it is the content of the absent columns.
  pub recovers_content :
      (rows : List ℕ)
      → Ascending 0 16 rows
      → Ascending 0 gen.k absent
      → length rows ≡ length absent
      → ((r : ℕ) → r < length rows → IsParity width content gen (get_or rows r 0))
      → (solved : List Row) × ((build_rows gen width absent rows >>= λ system.
            eliminate (length absent) 0 system)
          ≡ some solved)
        × IsSystem (length absent) width solved
        × ((r t : ℕ)
            → r < length absent
            → t < width
            → value solved r t ≡ content (get_or absent r 0) t)
  recovers_content rows ra aa square parity =
      let (system, built, count, each) = build_rows_lem rows parity in
      let (solved, run, is, right) =
        eliminate_lem (points rows ra aa square) (λ j t. h.bytes (get_or absent j 0) t)
          (length absent) 0 system (omega arith)
          (built-IsSystem rows ra aa square system count each)
          (system-Reduced rows ra aa square system count each) in
      (solved, ap (λ o. o >>= λ system. eliminate (length absent) 0 system) built ∙ run, is, right)
