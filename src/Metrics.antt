-- ===== src/Metrics.antt =====
-- harness/include/samples.h and harness/include/metrics.h: the reservoir of latencies, and the
-- accumulator with its report.
pub mod Reservoir
pub mod Extremes
pub mod Totals
pub mod Tests
use low_latency_udp_fanout.Common.{
  ℕ, ◌+◌, ◌-◌, ◌*◌, ◌%◌, ◌^◌, min, max, Bool, true, false, List, [], ◌∷◌, ◌++◌, ltb, ◌==◌,
  if◌then◌else◌, length, get_or, set, u64, sub64, ◌>>>◌, bit_xor,
}

abbrev pub sample_limit : ℕ
sample_limit = 65536

-- The mixing of the count, from which the place of a late value is taken.
pub mix : ℕ → ℕ
mix seen =
    let x = u64 (seen + 0x9e3779b97f4a7c15) in
    let y = u64 (bit_xor x (x >>> 30) * 0xbf58476d1ce4e5b9) in
    let z = u64 (bit_xor y (y >>> 27) * 0x94d049bb133111eb) in bit_xor z (z >>> 31)

-- `sample`; `set` out of bounds changes nothing, as the test of the index does.
unfoldable pub sample : List ℕ → ℕ → ℕ → List ℕ
sample values value seen =
    if ltb (length values) sample_limit
    then values ++ (value ∷ [])
    else if ltb (mix seen % seen) (length values)
    then set values (mix seen % seen) value
    else values

-- The arithmetic of double, the constants that the report uses, and std::sort.
pub record Floats : Type 1 where
  pub Double : Type 0
  pub zero_point : Double
  pub of_u64 : ℕ → Double
  pub plus : Double → Double → Double
  pub times : Double → Double → Double
  pub over : Double → Double → Double
  pub less : Double → Double → Bool
  pub truncate : Double → ℕ
  pub p01_share : Double
  pub p50_share : Double
  pub p99_share : Double
  pub p999_share : Double
  pub p9999_share : Double
  pub sort : List ℕ → List ℕ

module _ (floats : Floats) where
  open floats use {Double, zero_point, of_u64, plus, times, over, less, truncate, sort}

  pub record Report : Type 0 where
    pub received : ℕ
    pub expected : ℕ
    pub dropped : ℕ
    pub drop_rate : Double
    pub lat_min : ℕ
    pub lat_max : ℕ
    pub lat_mean : Double
    pub p01 : ℕ
    pub p50 : ℕ
    pub p99 : ℕ
    pub p999 : ℕ
    pub p9999 : ℕ

  pub record Accumulator : Type 0 where
    pub min_ns : ℕ
    pub max_ns : ℕ
    pub received : ℕ
    pub first_seq : ℕ
    pub last_seq : ℕ
    pub sum : Double
    pub latencies : List ℕ

  abbrev pub no_records : Accumulator
  no_records = record {
    min_ns = 2 ^ 64 - 1;
    max_ns = 0;
    received = 0;
    first_seq = 0;
    last_seq = 0;
    sum = zero_point;
    latencies = [];
  }

  -- `Accumulator::record`.
  unfoldable pub record_latency : Accumulator → ℕ → ℕ → Accumulator
  record_latency a seq_id latency_ns =
      let received = u64 (a.received + 1) in
      record {
        min_ns = min a.min_ns latency_ns;
        max_ns = max a.max_ns latency_ns;
        received = received;
        first_seq =
            if a.received == 0
            then seq_id
            else if ltb seq_id a.first_seq
            then seq_id
            else a.first_seq;
        last_seq =
            if a.received == 0
            then seq_id
            else if ltb a.last_seq seq_id
            then seq_id
            else a.last_seq;
        sum = plus a.sum (of_u64 latency_ns);
        latencies = sample a.latencies latency_ns received;
      }

  -- The rank is the ceiling of `p * n`, kept within 1 and `n`.
  abbrev pub rank_of : ℕ → Double → ℕ
  rank_of n p =
      let share = times p (of_u64 n) in
      let rank = truncate share in
      let rounded = if less (of_u64 rank) share then u64 (rank + 1) else rank in
      let at_least = if ltb rounded 1 then 1 else rounded in if ltb n at_least then n else at_least

  unfoldable pub percentile : List ℕ → Double → ℕ
  percentile sorted p =
      if length sorted == 0 then 0 else get_or sorted (rank_of (length sorted) p - 1) 0

  abbrev pub empty_report : Report
  empty_report = record {
    received = 0;
    expected = 0;
    dropped = 0;
    drop_rate = zero_point;
    lat_min = 0;
    lat_max = 0;
    lat_mean = zero_point;
    p01 = 0;
    p50 = 0;
    p99 = 0;
    p999 = 0;
    p9999 = 0;
  }

  unfoldable pub report : Accumulator → Report
  report a =
      let expected = u64 (sub64 a.last_seq a.first_seq + 1) in
      let dropped = if ltb a.received expected then expected - a.received else 0 in
      let sorted = sort a.latencies in
      if a.received == 0 then empty_report else record {
        received = a.received;
        expected = expected;
        dropped = dropped;
        drop_rate = if expected == 0 then zero_point else over (of_u64 dropped) (of_u64 expected);
        lat_min = a.min_ns;
        lat_max = a.max_ns;
        lat_mean = over a.sum (of_u64 a.received);
        p01 = percentile sorted floats.p01_share;
        p50 = percentile sorted floats.p50_share;
        p99 = percentile sorted floats.p99_share;
        p999 = percentile sorted floats.p999_share;
        p9999 = percentile sorted floats.p9999_share;
      }

  -- The records of a whole run, the last one first.
  unfoldable pub record_all : List (ℕ × ℕ) → Accumulator
  record_all [] = no_records
  record_all (r ∷ rs) = record_latency (record_all rs) r.0 r.1
