-- ===== src/Sender/Fanout.antt =====
-- harness/src/sender.cpp: Fanout, one destination with its queue and its thread. What the socket does
-- with a work is an argument of its event; the lock makes each event one step.
pub mod Account
pub mod Enqueue
pub mod Thread
pub mod Runs
use low_latency_udp_fanout.Common.{
  ℕ, zero, suc, ◌+◌, ◌-◌, ◌%◌, ◌^◌, List, [], ◌∷◌, ◌++◌, Bool, true, false, not, ◌||◌, ◌&&◌, Option,
  none, some, ltb, ◌==◌, if◌then◌else◌, length, u64, sub64, map,
}

pub record Work : Type 0 where
  pub frames : List (List ℕ)
  pub bytes : ℕ

pub record DestinationState : Type 0 where
  pub queue : List Work
  pub bytes : ℕ
  pub done : Bool
  pub failed : Bool
  pub rejected : ℕ

-- A destination with its thread: the work that the thread has taken, whether it has left its loop, and the frames
-- that it has handed to the socket.
pub record Destination : Type 0 where
  pub state : DestinationState
  pub work : Option Work
  pub exited : Bool
  pub delivered : List (List ℕ)

abbrev pub new_destination : Destination
new_destination = record {
  state = record { queue = []; bytes = 0; done = false; failed = false; rejected = 0 };
  work = none;
  exited = false;
  delivered = [];
}

-- The sum over the lengths of a batch.
unfoldable pub batch_bytes : ℕ → List (List ℕ) → ℕ
batch_bytes bytes [] = bytes
batch_bytes bytes (frame ∷ frames) = batch_bytes (u64 (bytes + length frame)) frames

-- The loop over what is queued.
unfoldable pub reject_queued : ℕ → List Work → ℕ
reject_queued rejected [] = rejected
reject_queued rejected (queued ∷ queue) =
    reject_queued (u64 (rejected + length queued.frames)) queue

-- A failure: the frames at hand and everything queued are rejected.
unfoldable pub fail_state : ℕ → DestinationState → DestinationState
fail_state at_hand s = record s {
  failed = true;
  rejected = reject_queued (u64 (s.rejected + at_hand)) s.queue;
  queue = [];
  bytes = 0;
}

-- `enqueue`, for one destination.
unfoldable pub enqueue : ℕ → List (List ℕ) → DestinationState → DestinationState
enqueue queue_bytes batch s =
    let bytes = batch_bytes 0 batch in
    if s.failed
    then record s { rejected = u64 (s.rejected + length batch) }
    else if ltb queue_bytes (u64 (s.bytes + bytes))
    then fail_state (length batch) s
    else record s {
      bytes = u64 (s.bytes + bytes);
      queue = s.queue ++ (record { frames = batch; bytes = bytes } ∷ []);
    }

-- `enqueue`, for all of them.
unfoldable pub enqueue_all : ℕ → List (List ℕ) → List DestinationState → List DestinationState
enqueue_all queue_bytes batch states = map (enqueue queue_bytes batch) states

abbrev pub is_nil : {A : Type 0} → List A → Bool
is_nil [] = true
is_nil (a ∷ as') = false

abbrev pub pop_work : List Work → Destination → Destination
pop_work [] d = d
pop_work (work ∷ queue) d = record d {
  work = some work;
  state = record (d.state) { queue = queue; bytes = sub64 d.state.bytes work.bytes };
}

-- What the thread does with the lock: it waits, leaves, or takes the first work.
unfoldable pub take_work : Destination → Destination
take_work d =
    if not (d.state.done || d.state.failed || not (is_nil d.state.queue))
    then d
    else if d.state.failed || (d.state.done && is_nil d.state.queue)
    then record d { exited = true }
    else pop_work d.state.queue d

-- What the thread does with the work that it has taken; `ok` is the result of flush_batch_direct.
unfoldable pub flush_work : Bool → Work → Destination → Destination
flush_work ok work d =
    if ok
    then record d { work = none; delivered = d.delivered ++ work.frames }
    else record d { work = none; exited = true; state = fail_state (length work.frames) d.state }

pub data Event : Type 0 where
  enqueued : List (List ℕ) → Event
  thread : Bool → Event
  finished : Event

-- One step: a call of `enqueue`, a step of the thread (with the result of the socket, if it has a work), or `finish`.
unfoldable pub step : ℕ → Event → Destination → Destination
step queue_bytes (enqueued batch) d = record d { state = enqueue queue_bytes batch d.state }
step queue_bytes (thread ok) d =
    if d.exited then d else elim d.work [ none ↦ take_work d | some work ↦ flush_work ok work d ]
step queue_bytes finished d = record d { state = record (d.state) { done = true } }

unfoldable pub run : ℕ → List Event → Destination → Destination
run queue_bytes [] d = d
run queue_bytes (e ∷ events) d = run queue_bytes events (step queue_bytes e d)

-- The frames that the events offer, in order.
unfoldable pub offered : List Event → List (List ℕ)
offered [] = []
offered (enqueued batch ∷ events) = batch ++ offered events
offered (thread ok ∷ events) = offered events
offered (finished ∷ events) = offered events
