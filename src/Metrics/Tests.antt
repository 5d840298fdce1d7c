-- ===== src/Metrics/Tests.antt =====
-- Three records, with fractions in ten-thousandths and an insertion sort.
use low_latency_udp_fanout.Common.{
  ℕ, suc, ◌+◌, ◌*◌, ◌/◌, ◌≡◌, refl, ◌∙◌, ap, true, false, List, [], ◌∷◌, ltb, leb, if◌then◌else◌,
  length, All, arith,
}
use low_latency_udp_fanout.Metrics.{Floats, record_all, record_latency, report, percentile, sample}
use low_latency_udp_fanout.Metrics.Totals.{Summary, report-Summary}

insert : ℕ → List ℕ → List ℕ
insert x [] = x ∷ []
insert x (y ∷ ys) = let rest = insert x ys in if leb x y then x ∷ y ∷ ys else y ∷ rest

pub insertion_sort : List ℕ → List ℕ
insertion_sort [] = []
insertion_sort (x ∷ xs) = insert x (insertion_sort xs)

length-insert : (x : ℕ) (ys : List ℕ) → length (insert x ys) ≡ suc (length ys)
unfolding insert
length-insert x [] = refl
length-insert x (y ∷ ys) = ground (arith, length-insert x ys)

length-insertion_sort : (xs : List ℕ) → length (insertion_sort xs) ≡ length xs
unfolding insertion_sort
length-insertion_sort [] = refl
length-insertion_sort (x ∷ xs) =
    length-insert x (insertion_sort xs) ∙ ap suc (length-insertion_sort xs)

All-insert : (P : ℕ → Type 0) (x : ℕ) (ys : List ℕ) → P x → All P ys → All P (insert x ys)
unfolding insert
All-insert P x [] p h = (p, tt)
All-insert P x (y ∷ ys) p h =
    elim (leb x y) as (λ b. All P (if b then x ∷ y ∷ ys else y ∷ insert x ys)) [
      | true ↦ (p, h)
      | false ↦ (h.0, All-insert P x ys p h.1)
    ]

All-insertion_sort : (P : ℕ → Type 0) (xs : List ℕ) → All P xs → All P (insertion_sort xs)
unfolding insertion_sort
All-insertion_sort P [] h = tt
All-insertion_sort P (x ∷ xs) h =
    All-insert P x (insertion_sort xs) h.0 (All-insertion_sort P xs h.1)

abbrev pub fixed_point : Floats
fixed_point = record {
  Double = ℕ;
  zero_point = 0;
  of_u64 = λ n. n * 10000;
  plus = λ a b. a + b;
  times = λ a b. a * b / 10000;
  over = λ a b. a * 10000 / b;
  less = λ a b. ltb a b;
  truncate = λ a. a / 10000;
  p01_share = 100;
  p50_share = 5000;
  p99_share = 9900;
  p999_share = 9990;
  p9999_share = 9999;
  sort = insertion_sort;
}

abbrev run : List (ℕ × ℕ)
run = (14, 300) ∷ (11, 200) ∷ (12, 900) ∷ []

one_dropped : (report fixed_point (record_all fixed_point run)).dropped ≡ 1
unfolding report record_all record_latency
one_dropped = refl

-- The number 12 is missing, but 14 was recorded twice.
repeated_hides_missing :
    (report fixed_point
      (record_all fixed_point ((14, 300) ∷ (14, 310) ∷ (11, 200) ∷ (13, 900) ∷ []))).dropped
    ≡ 0
unfolding report record_all record_latency
repeated_hides_missing = refl

median : (report fixed_point (record_all fixed_point run)).p50 ≡ 300
unfolding report record_all record_latency sample percentile insertion_sort insert
median = refl

report-Summary_example : Summary fixed_point run (report fixed_point (record_all fixed_point run))
report-Summary_example =
    report-Summary fixed_point length-insertion_sort All-insertion_sort run (omega arith)
      (omega arith) (ground arith)
