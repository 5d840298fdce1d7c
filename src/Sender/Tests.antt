-- ===== src/Sender/Tests.antt =====
-- Runs of the sender's parts.
use low_latency_udp_fanout.Common.{
  ℕ, ◌+◌, ◌≡◌, refl, arith, List, [], ◌∷◌, ◌++◌, Bool, true, false, not, map,
}
use low_latency_udp_fanout.Multiplex.{Key, wrap}
use low_latency_udp_fanout.Sender.Fanout.{
  Event, enqueued, thread, finished, new_destination, batch_bytes, reject_queued, fail_state,
  enqueue, take_work, step, run, offered,
}
use low_latency_udp_fanout.Sender.Fanout.Runs.{drains, Drained}
use low_latency_udp_fanout.Sender.Batch.{PendingDatagram, Batch, is_due, flush_pending}
use low_latency_udp_fanout.Sender.Batch.Flow.{IsLink}
use low_latency_udp_fanout.Sender.Batch.Held.{filter, flush_pending-filters}

-- The second batch does not fit behind the first.
abbrev overflow : List Event
overflow =
    enqueued ((1 ∷ 2 ∷ 3 ∷ []) ∷ (4 ∷ []) ∷ []) ∷ enqueued ((5 ∷ 6 ∷ []) ∷ []) ∷ thread true ∷ []

overflow_rejected : (run 5 overflow new_destination).state.rejected ≡ 3
unfolding run step enqueue batch_bytes fail_state reject_queued take_work
overflow_rejected = refl

abbrev healthy : List Event
healthy = enqueued ((1 ∷ 2 ∷ 3 ∷ []) ∷ []) ∷ thread true ∷ enqueued ((5 ∷ 6 ∷ []) ∷ []) ∷ []

drains_example :
    Drained 100 6 (step 100 finished (run 100 healthy new_destination)) (offered healthy)
unfolding batch_bytes offered run step enqueue take_work
drains_example =
    drains 100 healthy 6 (omega arith) (omega arith) (omega arith, (tt, (omega arith, tt))) refl
      refl (omega arith)

-- A connection with a log and a clock that advances.
abbrev Log : Type 0
Log = List (List ℕ) × ℕ

abbrev log_clock : Log → ℕ × Log
log_clock s = (s.1, (s.0, s.1 + 1))

abbrev log_send : List (List ℕ) → Log → Bool × Log
log_send frames s = (true, (s.0 ++ frames, s.1))

log-IsLink : IsLink log_clock log_send (λ s. s.0)
log-IsLink = record {
  clock_keeps = λ s. refl;
  send_succeeds = λ frames s. refl;
  send_takes = λ frames s. refl;
}

abbrev held : List PendingDatagram
held =
    record { bytes = 1 ∷ []; release_ns = 900 }
    ∷ record { bytes = 2 ∷ []; release_ns = 100 }
    ∷ record { bytes = 3 ∷ []; release_ns = 800 }
    ∷ []

abbrev identity : Key
identity = record { stream = 4; epoch = 9 }

abbrev waiting : Batch
waiting = record { frames = (7 ∷ []) ∷ []; first_ns = 50 }

flush_pending-filters_example :
    (b' : Batch) × (s' : Log) × (flush_pending 2 identity log_clock log_send
        (λ p. p)
        500
        false
        held
        waiting
        ([], 60)
      ≡ (true, (filter (λ p. not (is_due 500 false p)) held, (b', s'))))
    × (s'.0 ++ map (wrap identity) b'.frames
        ≡ ([] ++ map (wrap identity) waiting.frames)
          ++ map (λ p. wrap identity p.bytes) (filter (λ p. is_due 500 false p) held))
flush_pending-filters_example =
    flush_pending-filters log-IsLink 2 (omega arith) identity (λ p. p) 500 false held waiting
      ([], 60)
