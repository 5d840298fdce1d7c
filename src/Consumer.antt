-- ===== src/Consumer.antt =====
-- harness/src/consumer.cpp: the read loop of `run`. What Ring::read gave in a round, with the clock, is a list of reads;
-- its end stands for the signal that stops the loop. The output of records is not modelled.
pub mod Accounts
mod Tests
use low_latency_udp_fanout.Common.{
  ℕ, zero, suc, ◌+◌, ◌-◌, ◌≡◌, List, [], ◌∷◌, ◌++◌, Bool, true, false, not, ◌||◌, ◌&&◌, Option,
  none, some, ltb, leb, ◌==◌, if◌then◌else◌, length, u64,
}
use low_latency_udp_fanout.Message.{Header, validate_frame}
use low_latency_udp_fanout.Metrics.{Floats, Accumulator, no_records, record_latency}
use low_latency_udp_fanout.Multiplex.{Key, same_key, find}

pub record Config : Type 0 where
  pub count : ℕ
  pub skip : ℕ

pub data Read : Type 0 where
  ok_frame : Header → ℕ → ℕ → Read
  lapped : ℕ → Read
  corrupt : Read
  nothing : Bool → Read

module _ (floats : Floats) where
  pub record Consumer : Type 0 where
    pub read_index : ℕ
    pub received : ℕ
    pub skipped : ℕ
    pub lapped_events : ℕ
    pub acc : Accumulator floats
    pub stream_metrics : List (Key × Accumulator floats)

  pub data Outcome : Type 0 where
    running : Consumer → Outcome
    stopped : Consumer → Outcome
    failed : Outcome

  -- `stream_metrics[identity].record(...)` for an identity that is there.
  unfoldable pub update :
      Key → ℕ → ℕ → List (Key × Accumulator floats) → List (Key × Accumulator floats)
  update key seq latency [] = []
  update key seq latency (entry ∷ entries) =
      let rest = update key seq latency entries in
      if same_key entry.0 key
      then (entry.0, record_latency floats entry.1 seq latency) ∷ entries
      else entry ∷ rest

  -- The same for any identity; `none` is "consumer stream limit exceeded".
  unfoldable pub record_stream :
      Key → ℕ → ℕ → List (Key × Accumulator floats) → Option (List (Key × Accumulator floats))
  record_stream key seq latency entries = elim (find entries key) [
    | some a ↦ some (update key seq latency entries)
    | none ↦
        if leb 256 (length entries)
        then none
        else some (entries ++ ((key, record_latency floats (no_records floats) seq latency) ∷ []))
  ]

  -- A frame that is not skipped.
  unfoldable pub take_frame : Header → ℕ → Consumer → Outcome
  take_frame h recv_ts c =
      let latency = if ltb h.send_ts_ns recv_ts then recv_ts - h.send_ts_ns else 0 in
      elim (record_stream (record { stream = h.stream_id; epoch = h.stream_epoch }) h.seq_id latency
        c.stream_metrics) [
          | none ↦ failed
          | some entries ↦ running (record c {
            stream_metrics = entries;
            acc = record_latency floats c.acc (u64 (c.received + 1)) latency;
            received = u64 (c.received + 1);
            read_index = u64 (c.read_index + 1);
          })
        ]

  -- One round.
  unfoldable pub consume : Config → Read → Consumer → Outcome
  consume cfg (ok_frame h len recv_ts) c =
      if not (validate_frame h len)
      then failed
      else if ltb c.skipped cfg.skip
      then running (record c { skipped = u64 (c.skipped + 1); read_index = u64 (c.read_index + 1) })
      else take_frame h recv_ts c
  consume cfg (lapped resume) c =
      running (record c { lapped_events = u64 (c.lapped_events + 1); read_index = resume })
  consume cfg corrupt c = failed
  consume cfg (nothing idle) c = if idle then stopped c else running c

  -- The loop.
  unfoldable pub consume_all : Config → List Read → Consumer → Outcome
  consume_all cfg [] c = stopped c
  consume_all cfg (r ∷ reads) c =
      if (cfg.count == 0) || ltb c.received cfg.count
      then elim (consume cfg r c) [
        | running c' ↦ consume_all cfg reads c'
        | stopped c' ↦ stopped c'
        | failed ↦ failed
      ]
      else stopped c
