-- ===== src/Fec/Solve/Entry.antt =====
-- The rows of the code, entry by entry.
use low_latency_udp_fanout.Common.{
  ℕ, zero, suc, ◌+◌, ◌-◌, ◌≤◌, ◌<◌, ◌≡◌, ◌≢◌, refl, sym, ◌∙◌, ap, arith, false, ◌==◌, if◌then◌else◌,
  List, [], ◌∷◌, some, length, get_or, set, map, length-map,
}
use low_latency_udp_fanout.Fec.Field.{mul, inverse, inverse_or_zero}
use low_latency_udp_fanout.Fec.Field.Xor.{◌⊕◌, xor-zero}
use low_latency_udp_fanout.Fec.Field.Linear.{mul-zero, zero-mul}
use low_latency_udp_fanout.Fec.Envelope.{add_scaled}
use low_latency_udp_fanout.Fec.Solve.{
  Row, no_row, row_at, cell, find_pivot, swap_rows, scale_row, clear_row, clear_rows,
  eliminate_column,
}

abbrev pub value : List Row → ℕ → ℕ → ℕ
value rows r t = get_or (row_at rows r).rhs t 0

pub record IsSystem (n width : ℕ) (rows : List Row) : Type 0 where
  pub count : length rows ≡ n
  pub columns : (r : ℕ) → r < n → length (row_at rows r).coeffs ≡ n
  pub widths : (r : ℕ) → r < n → length (row_at rows r).rhs ≡ width

pub get_or-map_times :
    (xs : List ℕ) (s j : ℕ) → get_or (map (λ x. mul x s) xs) j 0 ≡ mul (get_or xs j 0) s
get_or-map_times [] s j = sym (zero-mul s)
get_or-map_times (x ∷ xs) s zero = refl
get_or-map_times (x ∷ xs) s (suc j) = get_or-map_times xs s j

pub length-add_scaled : (f : ℕ) (block acc : List ℕ) → length (add_scaled f block acc) ≡ length acc
unfolding add_scaled
length-add_scaled f block [] = refl
length-add_scaled f [] (a ∷ acc) = refl
length-add_scaled f (b ∷ block) (a ∷ acc) = ap suc (length-add_scaled f block acc)

pub get_or-add_scaled :
    (f : ℕ) (block acc : List ℕ) (j : ℕ)
    → length block ≤ length acc
    → get_or (add_scaled f block acc) j 0 ≡ get_or acc j 0 ⊕ mul f (get_or block j 0)
unfolding add_scaled
get_or-add_scaled f [] [] j h = sym (ap (λ t. 0 ⊕ t) (mul-zero f) ∙ xor-zero 0)
get_or-add_scaled f (b ∷ block) [] j h = absurd (omega arith)
get_or-add_scaled f [] (a ∷ acc) j h =
    sym (ap (λ t. get_or (a ∷ acc) j 0 ⊕ t) (mul-zero f) ∙ xor-zero _)
get_or-add_scaled f (b ∷ block) (a ∷ acc) zero h = refl
get_or-add_scaled f (b ∷ block) (a ∷ acc) (suc j) h = get_or-add_scaled f block acc j (omega arith)

length-clear_rows :
    (c : ℕ) (p : Row) (k : ℕ) (rows : List Row) → length (clear_rows c p k rows) ≡ length rows
unfolding clear_rows
length-clear_rows c p k [] = refl
length-clear_rows c p k (row ∷ rows) = ap suc (length-clear_rows c p (suc k) rows)

row_at-clear_rows :
    (c : ℕ) (p : Row) (k : ℕ) (rows : List Row) (r : ℕ)
    → r < length rows
    → row_at (clear_rows c p k rows) r ≡ (if r + k == c then p else clear_row c p (row_at rows r))
unfolding clear_rows
row_at-clear_rows c p k [] r h = absurd (omega arith)
row_at-clear_rows c p k (row ∷ rows) zero h = let e : 0 + k ≡ k = omega arith in rw e refl
row_at-clear_rows c p k (row ∷ rows) (suc r) h =
    let e : suc r + k ≡ r + suc k = omega arith in
    rw e (row_at-clear_rows c p (suc k) rows r (omega arith))

pub row_at_beyond : (rows : List Row) (r : ℕ) → length rows ≤ r → row_at rows r ≡ no_row
row_at_beyond [] r h = refl
row_at_beyond (row ∷ rows) zero h = absurd (omega arith)
row_at_beyond (row ∷ rows) (suc r) h = row_at_beyond rows r (omega arith)

set_same : {A : Type 0} (xs : List A) (i : ℕ) (d : A) → set xs i (get_or xs i d) ≡ xs
set_same [] i d = refl
set_same (x ∷ xs) zero d = refl
set_same (x ∷ xs) (suc i) d = ap (λ ys. x ∷ ys) (set_same xs i d)

swap_same : (rows : List Row) (c : ℕ) → swap_rows rows c c ≡ rows
unfolding swap_rows
swap_same rows c =
    ap (λ rs. set rs c (row_at rows c)) (set_same rows c no_row) ∙ set_same rows c no_row

find_pivot_here :
    (rounds : ℕ) (rows : List Row) (c : ℕ)
    → 1 ≤ rounds
    → cell rows c c ≢ 0
    → find_pivot rounds rows c c ≡ c
unfolding find_pivot
find_pivot_here zero rows c h ne = absurd (omega arith)
find_pivot_here (suc rounds) rows c h ne = ground arith

inverse_defined : (a : ℕ) → a ≢ 0 → inverse a ≡ some (inverse_or_zero a)
unfolding inverse inverse_or_zero
inverse_defined a ne = ground arith

-- The rows after a column whose pivot is in place.
pub next_rows : List Row → ℕ → List Row
next_rows rows c = clear_rows c (scale_row (inverse_or_zero (cell rows c c)) (row_at rows c)) 0 rows

pub eliminate_column_lem :
    (rows : List Row) (c : ℕ)
    → c < length rows
    → cell rows c c ≢ 0
    → eliminate_column rows c ≡ some (next_rows rows c)
unfolding eliminate_column next_rows
eliminate_column_lem rows c lt ne =
    let here : find_pivot (length rows - c) rows c c ≡ c =
      find_pivot_here (length rows - c) rows c (omega arith) ne in
    let inside : (c == length rows) ≡ false = ground arith in
    rw (here, inside, swap_same rows c, inverse_defined _ ne) refl

module _ {n width : ℕ} {rows : List Row} (v : IsSystem n width rows) (c : ℕ) (inside : c < n) where
  abbrev pub scaled : Row
  scaled = scale_row (inverse_or_zero (cell rows c c)) (row_at rows c)

  pub next_row_at :
      (r : ℕ)
      → r < n
      → row_at (next_rows rows c) r
        ≡ (if r == c then scaled else clear_row c scaled (row_at rows r))
  unfolding next_rows
  next_row_at r lt =
      let e : r + 0 ≡ r = omega arith in
      row_at-clear_rows c scaled 0 rows r (omega (arith, v.count))
      ∙ ap (λ k. if k == c then scaled else clear_row c scaled (row_at rows r)) e

  pub next_beyond : (r : ℕ) → n ≤ r → row_at (next_rows rows c) r ≡ no_row
  unfolding next_rows
  next_beyond r le =
      row_at_beyond (next_rows rows c) r (omega (arith, v.count, length-clear_rows c scaled 0 rows))

  lengths :
      (r : ℕ)
      → r < n
      → (length (row_at (next_rows rows c) r).coeffs ≡ n)
        × (length (row_at (next_rows rows c) r).rhs ≡ width)
  unfolding scale_row clear_row
  lengths r lt = rw (next_row_at r lt) (
      ground (
        arith,
        length-map (row_at rows c).coeffs (λ x. mul x (inverse_or_zero (cell rows c c))),
        length-map (row_at rows c).rhs (λ x. mul x (inverse_or_zero (cell rows c c))),
        length-add_scaled (cell rows r c) scaled.coeffs (row_at rows r).coeffs,
        length-add_scaled (cell rows r c) scaled.rhs (row_at rows r).rhs,
        v.columns r,
        v.columns c,
        v.widths r,
        v.widths c,
      ))

  pub next_rows-IsSystem : IsSystem n width (next_rows rows c)
  unfolding next_rows
  next_rows-IsSystem = record {
    count = length-clear_rows c scaled 0 rows ∙ v.count;
    columns = λ r lt. (lengths r lt).0;
    widths = λ r lt. (lengths r lt).1;
  }
