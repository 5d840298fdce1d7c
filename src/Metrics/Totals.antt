-- ===== src/Metrics/Totals.antt =====
-- What the report says of a run.
use low_latency_udp_fanout.Common.{
  ℕ, suc, ◌+◌, ◌-◌, ◌^◌, ◌≤◌, ◌<◌, ◌≡◌, refl, false, List, [], ◌∷◌, ◌==◌, length, min, map, All,
  arith, u64, length-map,
}
use mathlib.Core.List.{Mem, mem-cons_of_mem, mem-cons_self}
use low_latency_udp_fanout.Metrics.{
  Floats, Accumulator, Report, record_all, record_latency, sample_limit, report, percentile,
  rank_of,
}
use low_latency_udp_fanout.Metrics.Reservoir.{length-sample, All-sample, All-get_or, All-weaken}
use low_latency_udp_fanout.Metrics.Extremes.{IsLeast, IsGreatest, next-IsLeast, next-IsGreatest}

-- A latency is a uint64_t, and a sequence number one that has a successor.
abbrev pub IsRecord : ℕ × ℕ → Type 0
IsRecord r = (r.0 < 2 ^ 64 - 1) × (r.1 < 2 ^ 64)

abbrev pub numbers_of : List (ℕ × ℕ) → List ℕ
numbers_of rs = map (λ r. r.0) rs

abbrev pub latencies_of : List (ℕ × ℕ) → List ℕ
latencies_of rs = map (λ r. r.1) rs

module _ (floats : Floats) where
  record Totalled (rs : List (ℕ × ℕ)) (a : Accumulator floats) : Type 1 where
    count : a.received ≡ length rs
    retained : length a.latencies ≡ min (length rs) sample_limit
    last-lt : a.last_seq < 2 ^ 64 - 1
    empty : length rs ≡ 0 → (a.min_ns ≡ 2 ^ 64 - 1) × (a.max_ns ≡ 0)
    first : 1 ≤ length rs → IsLeast a.first_seq (numbers_of rs)
    last : 1 ≤ length rs → IsGreatest a.last_seq (numbers_of rs)
    least : 1 ≤ length rs → IsLeast a.min_ns (latencies_of rs)
    greatest : 1 ≤ length rs → IsGreatest a.max_ns (latencies_of rs)
    kept : All (λ v. Mem v (latencies_of rs)) a.latencies

  record_latency-Totalled :
      (rs : List (ℕ × ℕ)) (r : ℕ × ℕ) (a : Accumulator floats)
      → IsRecord r
      → suc (length rs) < 2 ^ 64
      → Totalled rs a
      → Totalled (r ∷ rs) (record_latency floats a r.0 r.1)
  unfolding record_latency
  record_latency-Totalled rs r a known bound t =
      let numbers = length-map rs (λ q. q.0) in
      let latencies = length-map rs (λ q. q.1) in
      record {
        count = omega (arith, t.count, bound);
        retained = omega (
          arith,
          t.retained,
          length-sample a.latencies r.1 (u64 (a.received + 1)) (omega (arith, t.retained)),
        );
        last-lt = ground (arith, known, t.last-lt);
        empty = λ e. absurd (omega arith);
        first = λ _.
            next-IsLeast a.first_seq r.0 _ (numbers_of rs) (λ e. ground (arith, numbers, t.count))
              (λ e. ground (arith, numbers, t.count)) (λ e. t.first (omega arith));
        last = λ _.
            next-IsGreatest a.last_seq r.0 _ (numbers_of rs) (λ e. ground (arith, numbers, t.count))
              (λ e. ground (arith, numbers, t.count)) (λ e. t.last (omega arith));
        least = λ _.
            next-IsLeast a.min_ns r.1 _ (latencies_of rs)
              (λ e. omega (arith, t.empty (omega arith), known)) (λ e. refl)
              (λ e. t.least (omega arith));
        greatest = λ _.
            next-IsGreatest a.max_ns r.1 _ (latencies_of rs)
              (λ e. omega (arith, t.empty (omega arith))) (λ e. refl)
              (λ e. t.greatest (omega arith));
        kept =
            All-sample (λ v. Mem v (latencies_of (r ∷ rs))) a.latencies r.1 (u64 (a.received + 1))
              (All-weaken (λ v. Mem v (latencies_of rs)) (λ v. Mem v (latencies_of (r ∷ rs)))
                a.latencies (λ v there. mem-cons_of_mem r.1 there) t.kept)
              mem-cons_self;
      }

  record_all-Totalled :
      (rs : List (ℕ × ℕ))
      → All IsRecord rs
      → length rs < 2 ^ 64
      → Totalled rs (record_all floats rs)
  unfolding record_all
  record_all-Totalled [] known bound = record {
    count = refl;
    retained = refl;
    last-lt = omega arith;
    empty = λ e. (refl, refl);
    first = λ h. absurd (omega arith);
    last = λ h. absurd (omega arith);
    least = λ h. absurd (omega arith);
    greatest = λ h. absurd (omega arith);
    kept = tt;
  }
  record_all-Totalled (r ∷ rs) known bound =
      record_latency-Totalled rs r _ known.0 bound (record_all-Totalled rs known.1 (omega arith))

  -- A percentile of a list that is not empty is one of its elements.
  percentile-All :
      (P : ℕ → Type 0) (sorted : List ℕ) (p : floats.Double)
      → 1 ≤ length sorted
      → All P sorted
      → P (percentile floats sorted p)
  unfolding percentile
  percentile-All P sorted p nonempty h =
      let e : (length sorted == 0) ≡ false = ground arith in
      rw e (All-get_or P sorted (rank_of floats (length sorted) p - 1) 0 (ground arith) h)

  -- What a report says of the records it was made from.
  pub record Summary (rs : List (ℕ × ℕ)) (r : Report floats) : Type 1 where
    pub received : r.received ≡ length rs
    pub first : ℕ
    pub last : ℕ
    pub first_least : IsLeast first (numbers_of rs)
    pub last_greatest : IsGreatest last (numbers_of rs)
    pub spanned : r.expected ≡ last - first + 1
    pub missing : r.dropped ≡ r.expected - r.received
    pub lat_least : IsLeast r.lat_min (latencies_of rs)
    pub lat_greatest : IsGreatest r.lat_max (latencies_of rs)
    pub p01_recorded : Mem r.p01 (latencies_of rs)
    pub p50_recorded : Mem r.p50 (latencies_of rs)
    pub p99_recorded : Mem r.p99 (latencies_of rs)
    pub p999_recorded : Mem r.p999 (latencies_of rs)
    pub p9999_recorded : Mem r.p9999 (latencies_of rs)

  module _ (length-sort : (xs : List ℕ) → length (floats.sort xs) ≡ length xs)
      (All-sort : (P : ℕ → Type 0) (xs : List ℕ) → All P xs → All P (floats.sort xs)) where
    in_order : (a b : ℕ) (xs : List ℕ) → 1 ≤ length xs → IsLeast a xs → IsGreatest b xs → a ≤ b
    in_order a b [] nonempty least greatest = absurd (omega arith)
    in_order a b (x ∷ xs) nonempty least greatest = omega (arith, least.1.0, greatest.1.0)

    report-Totalled :
        (rs : List (ℕ × ℕ)) (a : Accumulator floats)
        → 1 ≤ length rs
        → Totalled rs a
        → Summary rs (report floats a)
    unfolding report
    report-Totalled rs a nonempty t =
        let some_received : (a.received == 0) ≡ false = ground (arith, t.count) in
        let order =
          in_order a.first_seq a.last_seq (numbers_of rs) (omega (arith, length-map rs (λ q. q.0)))
            (t.first nonempty) (t.last nonempty) in
        let top = t.last-lt in
        rw some_received (record {
          received = t.count;
          first = a.first_seq;
          last = a.last_seq;
          first_least = t.first nonempty;
          last_greatest = t.last nonempty;
          spanned = omega arith;
          missing = ground arith;
          lat_least = t.least nonempty;
          lat_greatest = t.greatest nonempty;
          p01_recorded = recorded floats.p01_share;
          p50_recorded = recorded floats.p50_share;
          p99_recorded = recorded floats.p99_share;
          p999_recorded = recorded floats.p999_share;
          p9999_recorded = recorded floats.p9999_share;
        })
      where
        recorded :
            (p : floats.Double)
            → Mem (percentile floats (floats.sort a.latencies) p) (latencies_of rs)
        recorded p =
            percentile-All (λ v. Mem v (latencies_of rs)) (floats.sort a.latencies) p
              (omega (arith, length-sort a.latencies, t.retained, nonempty))
              (All-sort (λ v. Mem v (latencies_of rs)) a.latencies t.kept)

    -- The report of a run that is not empty counts its records, expects the numbers from the least
    -- to the greatest one recorded, and counts as dropped what these are more than the records, or 0
    -- if they are not more, so that repeated numbers hide missing ones. Its least and greatest
    -- latencies are the least and the greatest recorded ones, and every percentile is a recorded
    -- one, also after the reservoir is full. There are fewer than 2 ^ 64 records, of numbers below
    -- 2 ^ 64 - 1 and latencies of 64 bits, and the sort keeps the length and the elements.
    pub report-Summary :
        (rs : List (ℕ × ℕ))
        → 1 ≤ length rs
        → length rs < 2 ^ 64
        → All IsRecord rs
        → Summary rs (report floats (record_all floats rs))
    report-Summary rs nonempty bound known =
        report-Totalled rs _ nonempty (record_all-Totalled rs known bound)
