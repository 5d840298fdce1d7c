-- ===== src/Fec/Decoder/Recover.antt =====
-- harness/include/fec.h: Decoder::try_recover.
use low_latency_udp_fanout.Common.{
  ℕ, zero, suc, ◌+◌, ◌-◌, List, [], ◌∷◌, Bool, true, false, not, ◌||◌, ◌&&◌, Option, none, some,
  if◌then◌else◌, ltb, leb, ◌==◌, length, get_or, set, take, drop, u64, map,
}
use low_latency_udp_fanout.Metrics.{sample}
use low_latency_udp_fanout.Wire.Codec.{◌>>=◌}
use low_latency_udp_fanout.Wire.Frame.{max_frame}
use low_latency_udp_fanout.Fec.Field.{coefficient}
use low_latency_udp_fanout.Fec.Envelope.{add_scaled, get_u16}
use low_latency_udp_fanout.Fec.Solve.{Row, eliminate}
use low_latency_udp_fanout.Fec.Decoder.{Counters, Generation, Decoder}

-- The indices below `k`, from `i` on, that were not received.
unfoldable pub absent_from : ℕ → ℕ → List Bool → List ℕ
absent_from zero i received = []
absent_from (suc k) i received =
    let rest = absent_from k (suc i) received in if get_or received i false then rest else i ∷ rest

-- The rows whose parity is there.
unfoldable pub rows_from : ℕ → List (List ℕ) → List ℕ
rows_from i [] = []
rows_from i (parity ∷ parities) =
    let rest = rows_from (suc i) parities in if length parity == 0 then rest else i ∷ rest

-- The blocks that were received, moved to the right-hand side of a parity row, from column `c` on;
-- `none` where a block is longer than the row.
unfoldable pub subtract_received :
    ℕ → ℕ → ℕ → ℕ → List Bool → List (List ℕ) → List ℕ → Option (List ℕ)
subtract_received zero width row c received blocks rhs = some rhs
subtract_received (suc k) width row c received blocks rhs = elim (get_or received c false) [
  | true ↦ elim (ltb width (length (get_or blocks c []))) [
    | true ↦ none
    | false ↦
        subtract_received k width row (suc c) received blocks
          (add_scaled (coefficient row c) (get_or blocks c []) rhs)
  ]
  | false ↦ subtract_received k width row (suc c) received blocks rhs
]

-- The system: one row for each parity row that is used.
unfoldable pub build_rows : Generation → ℕ → List ℕ → List ℕ → Option (List Row)
build_rows gen width absent [] = some []
build_rows gen width absent (row ∷ rows) =
    subtract_received gen.k width row 0 gen.received gen.blocks (get_or gen.parities row [])
    >>= λ rhs. build_rows gen width absent rows >>= λ rest.
        some (record { coeffs = map (coefficient row) absent; rhs = rhs } ∷ rest)

-- The check of the recovered lengths.
unfoldable pub lengths_ok : ℕ → List Row → Bool
lengths_ok width [] = true
lengths_ok width (row ∷ rows) =
    let len = get_u16 row.rhs in
    not ((len == 0) || ltb max_frame len || ltb width (len + 2)) && lengths_ok width rows

unfoldable pub count_recovered : ℕ → Counters → Counters
count_recovered reason counters =
    let all = record counters { recovered = u64 (counters.recovered + 1) } in
    if reason == 0
    then record all { recovered_by_k = u64 (counters.recovered_by_k + 1) }
    else if reason == 1
    then record all { recovered_by_timeout = u64 (counters.recovered_by_timeout + 1) }
    else record all { recovered_by_flush = u64 (counters.recovered_by_flush + 1) }

-- The latency of a recovery, in the samples of all and of its reason.
unfoldable pub note_latency : ℕ → ℕ → Decoder → Decoder
note_latency reason latency d =
    let events = u64 (d.recovery_events + 1) in
    let all = record d {
      recovery_events = events;
      recovery_latencies = sample d.recovery_latencies latency events;
    } in
    let k_events = u64 (d.recovery_k_events + 1) in
    let timeout_events = u64 (d.recovery_timeout_events + 1) in
    let flush_events = u64 (d.recovery_flush_events + 1) in
    if reason == 0
    then record all {
      recovery_k_events = k_events;
      recovery_by_k = sample d.recovery_by_k latency k_events;
    }
    else if reason == 1
    then record all {
      recovery_timeout_events = timeout_events;
      recovery_by_timeout = sample d.recovery_by_timeout latency timeout_events;
    }
    else record all {
      recovery_flush_events = flush_events;
      recovery_by_flush = sample d.recovery_by_flush latency flush_events;
    }

-- The system of a generation, solved; `none` is a result false before anything was published.
unfoldable pub solve : Generation → List ℕ → List ℕ → Option (List Row)
solve gen absent rows =
    let width = length (get_or gen.parities (get_or rows 0 0) []) in
    build_rows gen width absent rows >>= λ system. eliminate (length absent) 0 system >>= λ solved.
    if lengths_ok width solved then some solved else none

module _ {S : Type 0} (publish : List ℕ → Bool → ℕ → S → Bool × S) where
  -- The last loop: each recovered frame is published and stored.
  unfoldable pub publish_recovered :
      List ℕ → List Row → Generation → Counters → S → Bool × (Generation × (Counters × S))
  publish_recovered [] rows gen counters s = (true, (gen, (counters, s)))
  publish_recovered (i ∷ absent) [] gen counters s = (true, (gen, (counters, s)))
  publish_recovered (i ∷ absent) (row ∷ rows) gen counters s =
      let (accepted, s') =
        publish (take (get_u16 row.rhs) (drop 2 row.rhs)) true gen.close_reason s in
      let stored = record gen {
        received = set gen.received i true;
        blocks = set gen.blocks i row.rhs;
      } in
      let rest =
        publish_recovered absent rows stored (count_recovered gen.close_reason counters) s' in
      if accepted then rest else (false, (gen, (counters, s')))

  -- The end of `try_recover`, once the system is solved.
  unfoldable pub finish_recovery :
      Generation → ℕ → List ℕ → List Row → Decoder → S → Bool × (Generation × (Decoder × S))
  finish_recovery gen now_ns absent solved d s =
      let (done, (gen', (counters, s'))) = publish_recovered absent solved gen d.counters s in
      let counted = record d { counters = counters } in
      if done
      then (
        true,
        (
          record gen' { recovered = true },
          (
            note_latency gen.close_reason
                (if leb gen.first_ns now_ns then now_ns - gen.first_ns else 0) counted,
            s',
          ),
        ),
      )
      else (false, (gen', (counted, s')))

  unfoldable pub try_recover : Generation → ℕ → Decoder → S → Bool × (Generation × (Decoder × S))
  try_recover gen now_ns d s =
      let absent = absent_from gen.k 0 gen.received in
      let rows = rows_from 0 gen.parities in
      if not gen.parity_received
        || gen.recovered
        || (gen.k == 0)
        || (length absent == 0)
        || ltb (length rows) (length absent)
      then (true, (gen, (d, s)))
      else elim (solve gen absent (take (length absent) rows)) [
        | none ↦ (false, (gen, (d, s)))
        | some solved ↦ finish_recovery gen now_ns absent solved d s
      ]
