-- ===== src/Sender/Fanout/Runs.antt =====
-- harness/src/sender.cpp: whole runs of a destination of Fanout.
use low_latency_udp_fanout.Common.{
  ℕ, zero, suc, ◌+◌, ◌*◌, ◌^◌, ◌≤◌, ◌<◌, ◌≡◌, refl, sym, ◌∙◌, subst, ap, ap₂, arith, List, [], ◌∷◌,
  ◌++◌, true, false, not, ◌||◌, ◌&&◌, Option, none, some, if◌then◌else◌, length, length-append, All,
  replicate,
}
use mathlib.Core.List.{append_assoc, append-nil}
use low_latency_udp_fanout.Sender.Fanout.{
  Work, Destination, Event, enqueued, thread, finished, new_destination, batch_bytes, enqueue,
  pop_work, take_work, flush_work, step, run, offered, is_nil,
}
use low_latency_udp_fanout.Sender.Fanout.Account.{
  Holds, lengths_of, frames_of, at_hand, finish-Holds, new_destination-Holds,
}
use low_latency_udp_fanout.Sender.Fanout.Enqueue.{enqueue-Holds}
use low_latency_udp_fanout.Sender.Fanout.Thread.{thread-Holds}

-- A batch of fewer than 2 ^ 63 bytes.
abbrev pub IsSmall : Event → Type 0
IsSmall (enqueued batch) = batch_bytes 0 batch < 2 ^ 63
IsSmall (thread ok) = Unit
IsSmall finished = Unit

-- A batch whose frames have fewer than 2 ^ 63 bytes together.
abbrev pub IsBounded : Event → Type 0
IsBounded (enqueued batch) = lengths_of batch < 2 ^ 63
IsBounded (thread ok) = Unit
IsBounded finished = Unit

-- A batch with a count below 2 ^ 63, of which `P` holds.
abbrev Fits : (List (List ℕ) → Type 0) → Event → Type 0
Fits P (enqueued batch) = (batch_bytes 0 batch < 2 ^ 63) × P batch
Fits P (thread ok) = Unit
Fits P finished = Unit

IsSmall-Fits : (events : List Event) → All IsSmall events → All (Fits (λ b. Unit)) events
IsSmall-Fits [] h = tt
IsSmall-Fits (enqueued batch ∷ events) h = ((h.0, tt), IsSmall-Fits events h.1)
IsSmall-Fits (thread ok ∷ events) h = (tt, IsSmall-Fits events h.1)
IsSmall-Fits (finished ∷ events) h = (tt, IsSmall-Fits events h.1)

run-Holds_from :
    {P : List (List ℕ) → Type 0} (queue_bytes : ℕ) (events : List Event) (all : List (List ℕ))
    (d : Destination)
    → queue_bytes < 2 ^ 63
    → length all + length (offered events) < 2 ^ 64
    → All (Fits P) events
    → Holds P queue_bytes all d
    → Holds P queue_bytes (all ++ offered events) (run queue_bytes events d)
unfolding run offered step
run-Holds_from {P} q [] all d limit room small a =
    subst (λ fs. Holds P q fs d) (sym (append-nil all)) a
run-Holds_from {P} q (enqueued batch ∷ events) all d limit room (one, small) a =
    let sum = length-append batch (offered events) in
    subst (λ fs. Holds P q fs (run q events (record d { state = enqueue q batch d.state })))
      (append_assoc all batch (offered events))
      (run-Holds_from q events (all ++ batch) _ limit (omega (arith, length-append all batch)) small
        (enqueue-Holds a batch (omega arith) limit one.0 one.1))
run-Holds_from q (thread ok ∷ events) all d limit room (one, small) a =
    run-Holds_from q events all _ limit room small (thread-Holds a (omega arith) limit ok)
run-Holds_from q (finished ∷ events) all d limit room (one, small) a =
    run-Holds_from q events all _ limit room small (finish-Holds a)

run-Holds :
    {P : List (List ℕ) → Type 0} (queue_bytes : ℕ) (events : List Event)
    → queue_bytes < 2 ^ 63
    → length (offered events) < 2 ^ 64
    → All (Fits P) events
    → Holds P queue_bytes (offered events) (run queue_bytes events new_destination)
run-Holds q events limit room fits =
    run-Holds_from q events [] new_destination limit (omega arith) fits (new_destination-Holds q)

abbrev one_if : Option Work → ℕ
one_if none = 0
one_if (some w) = 1

run_exited :
    (q rounds : ℕ) (d : Destination)
    → d.exited ≡ true
    → run q (replicate rounds (thread true)) d ≡ d
unfolding run step
run_exited q zero d e = refl
run_exited q (suc rounds) d e =
    ap
      (λ b.
        run q (replicate rounds (thread true)) (
          if b then d else elim d.work [ none ↦ take_work d | some work ↦ flush_work true work d ]))
      e
    ∙ run_exited q rounds d e

step_here :
    (q : ℕ) (d : Destination) (o : Option Work)
    → d.exited ≡ false
    → d.work ≡ o
    → step q (thread true) d ≡ elim o [ none ↦ take_work d | some work ↦ flush_work true work d ]
unfolding step
step_here q d o here e =
    ap₂ (λ b p. if b then d else elim p [ none ↦ take_work d | some work ↦ flush_work true work d ])
      here e

flush_true :
    (w : Work) (d : Destination)
    → flush_work true w d ≡ record d { work = none; delivered = d.delivered ++ w.frames }
unfolding flush_work
flush_true w d = refl

take_last :
    (d : Destination)
    → d.state.done ≡ true
    → d.state.failed ≡ false
    → d.state.queue ≡ []
    → take_work d ≡ record d { exited = true }
unfolding take_work
take_last d done alive e =
    let on : not (d.state.done || d.state.failed || not (is_nil d.state.queue)) ≡ false =
      ground (arith, done) in
    let ends : (d.state.failed || (d.state.done && is_nil d.state.queue)) ≡ true =
      ap₂ (λ p f. p || f) alive (ap₂ (λ p q. p && is_nil q) done e) in
    rw (on, ends) refl

take_next :
    (d : Destination) (w : Work) (queue : List Work)
    → d.state.done ≡ true
    → d.state.failed ≡ false
    → d.state.queue ≡ w ∷ queue
    → take_work d ≡ pop_work (w ∷ queue) d
unfolding take_work
take_next d w queue done alive e =
    let on : not (d.state.done || d.state.failed || not (is_nil d.state.queue)) ≡ false =
      ground (arith, done) in
    let goes : (d.state.failed || (d.state.done && is_nil d.state.queue)) ≡ false =
      ap₂ (λ p f. p || f) alive (ap₂ (λ p q. p && is_nil q) done e) in
    rw (on, goes) (ap (λ q. pop_work q d) e)

abbrev pub Drained : ℕ → ℕ → Destination → List (List ℕ) → Type 0
Drained q rounds d all =
    ((run q (replicate rounds (thread true)) d).delivered ≡ all)
    × ((run q (replicate rounds (thread true)) d).exited ≡ true)

next_round :
    (q rounds : ℕ) (d d' : Destination) (all : List (List ℕ))
    → step q (thread true) d ≡ d'
    → Drained q rounds d' all
    → Drained q (suc rounds) d all
unfolding run
next_round q rounds d d' all e h = subst (λ s. Drained q rounds s all) (sym e) h

drain_from :
    (q rounds : ℕ) (d : Destination) (o : Option Work) (queue : List Work)
    → d.work ≡ o
    → d.state.queue ≡ queue
    → d.state.done ≡ true
    → d.state.failed ≡ false
    → d.exited ≡ false
    → 2 * length queue + one_if o < rounds
    → Drained q rounds d (d.delivered ++ (at_hand o ++ frames_of queue))
unfolding at_hand frames_of
drain_from q zero d o queue ew eq done alive here lt = absurd (omega arith)
drain_from q (suc rounds) d (some w) queue ew eq done alive here lt =
    let d' : Destination = record d { work = none; delivered = d.delivered ++ w.frames } in
    let flushed : step q (thread true) d ≡ d' = step_here q d (some w) here ew ∙ flush_true w d in
    next_round q rounds d d' _ flushed (
      subst (Drained q rounds d') (append_assoc d.delivered w.frames (frames_of queue))
        (drain_from q rounds d' none queue refl eq done alive here (omega arith)))
drain_from q (suc rounds) d none (w ∷ queue) ew eq done alive here lt =
    next_round q rounds d (pop_work (w ∷ queue) d) _
      (step_here q d none here ew ∙ take_next d w queue done alive eq)
      (drain_from q rounds (pop_work (w ∷ queue) d) (some w) queue refl refl done alive here
        (omega arith))
drain_from q (suc rounds) d none [] ew eq done alive here lt =
    let d' : Destination = record d { exited = true } in
    let over = run_exited q rounds d' refl in
    next_round q rounds d d' _ (step_here q d none here ew ∙ take_last d done alive eq)
      (ap (λ s. s.delivered) over ∙ sym (append-nil d.delivered), ap (λ s. s.exited) over)

-- A destination that has not failed and whose thread runs, after any sequence of events with a limit and batches below
-- 2 ^ 63 bytes and fewer than 2 ^ 64 frames: once `finish` is called and the socket takes everything, the thread leaves
-- after at most two steps for each queued work and two more, and every offered frame was delivered, in order.
pub drains :
    (queue_bytes : ℕ) (events : List Event) (rounds : ℕ)
    → queue_bytes < 2 ^ 63
    → length (offered events) < 2 ^ 64
    → All IsSmall events
    → (run queue_bytes events new_destination).state.failed ≡ false
    → (run queue_bytes events new_destination).exited ≡ false
    → 2 * length (run queue_bytes events new_destination).state.queue + 2 ≤ rounds
    → Drained queue_bytes rounds
        (step queue_bytes finished (run queue_bytes events new_destination))
        (offered events)
unfolding step
drains q events rounds limit room small alive here enough =
    let a = run-Holds q events limit room (IsSmall-Fits events small) in
    let d : Destination = run q events new_destination in
    let whole : d.delivered ++ (at_hand d.work ++ frames_of d.state.queue) ≡ offered events =
      ap (λ fs. d.delivered ++ (at_hand d.work ++ fs))
        (sym (
          ap (λ r. frames_of d.state.queue ++ r) (a.none_lost alive)
          ∙ append-nil (frames_of d.state.queue)))
      ∙ a.in_order in
    subst (Drained q rounds (record d { state = record (d.state) { done = true } })) whole (
      drain_from q rounds (record d { state = record (d.state) { done = true } }) d.work
        d.state.queue refl refl refl alive here (omega (arith, at_most_one d.work)))
  where
    at_most_one : (o : Option Work) → one_if o ≤ 1
    at_most_one none = omega arith
    at_most_one (some w) = omega arith
