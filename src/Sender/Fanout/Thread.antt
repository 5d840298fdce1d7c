-- ===== src/Sender/Fanout/Thread.antt =====
-- harness/src/sender.cpp: the steps of the thread of a destination.
use low_latency_udp_fanout.Common.{
  ℕ, ◌+◌, ◌^◌, ◌<◌, ◌≡◌, refl, sym, ◌∙◌, ap, ap₂, arith, List, [], ◌∷◌, ◌++◌, Bool, true, false,
  not, ◌||◌, ◌&&◌, inl, inr, Bool-cases, Option, none, some, if◌then◌else◌, length, u64,
  length-append, All, subst,
}
use mathlib.Core.List.{append_assoc}
use low_latency_udp_fanout.Sender.Fanout.{
  Work, Destination, thread, reject_queued, fail_state, pop_work, take_work, flush_work, step,
  is_nil,
}
use low_latency_udp_fanout.Sender.Fanout.Account.{
  Holds, IsCounted, frames_of, bytes_of, at_hand, parts, reject_queued_lem,
}

module _ {P : List (List ℕ) → Type 0} {queue_bytes : ℕ} {all : List (List ℕ)} {d : Destination}
    (a : Holds P queue_bytes all d) (room : length all < 2 ^ 64)
    (limit : queue_bytes < 2 ^ 63) where
  leave : Holds P queue_bytes all (record d { exited = true })
  leave = record {
    rest = a.rest;
    in_order = a.in_order;
    rejected_rest = a.rejected_rest;
    none_lost = a.none_lost;
    queue_gone = a.queue_gone;
    bytes_sum = a.bytes_sum;
    bytes-le = a.bytes-le;
    each = a.each;
  }

  popped :
      (queue : List Work)
      → d.state.queue ≡ queue
      → d.work ≡ none
      → d.state.failed ≡ false
      → Holds P queue_bytes all (pop_work queue d)
  unfolding frames_of bytes_of at_hand
  popped [] e idle alive = a
  popped (w ∷ queue) e idle alive =
      let bytes = a.bytes_sum ∙ ap bytes_of e in
      record {
        rest = a.rest;
        in_order =
            ap (λ fs. d.delivered ++ fs) (sym (append_assoc w.frames (frames_of queue) a.rest))
            ∙ sym (ap₂ (λ o q. d.delivered ++ (at_hand o ++ (frames_of q ++ a.rest))) idle e)
            ∙ a.in_order;
        rejected_rest = a.rejected_rest;
        none_lost = a.none_lost;
        queue_gone = λ failed. absurd (cc);
        bytes_sum = omega (arith, bytes, a.bytes-le);
        bytes-le = omega (arith, bytes, a.bytes-le);
        each = (subst (All (IsCounted P)) e a.each).1;
      }

  taken : d.work ≡ none → Holds P queue_bytes all (take_work d)
  unfolding take_work
  taken idle =
      elim (Bool-cases (not (d.state.done || d.state.failed || not (is_nil d.state.queue)))) [
        | inl waits ↦ rw waits a
        | inr on ↦ elim (Bool-cases (d.state.failed || (d.state.done && is_nil d.state.queue))) [
          | inl ends ↦ rw (on, ends) leave
          | inr goes ↦ rw (on, goes) (popped d.state.queue refl idle (ground (arith, goes)))
        ]
      ]

  flushed_all :
      (w : Work)
      → d.work ≡ some w
      → Holds P queue_bytes all (record d { work = none; delivered = d.delivered ++ w.frames })
  unfolding at_hand
  flushed_all w busy = record {
    rest = a.rest;
    in_order =
        append_assoc d.delivered w.frames (frames_of d.state.queue ++ a.rest)
        ∙ sym (ap (λ o. d.delivered ++ (at_hand o ++ (frames_of d.state.queue ++ a.rest))) busy)
        ∙ a.in_order;
    rejected_rest = a.rejected_rest;
    none_lost = a.none_lost;
    queue_gone = a.queue_gone;
    bytes_sum = a.bytes_sum;
    bytes-le = a.bytes-le;
    each = a.each;
  }

  socket_failed :
      (w : Work)
      → d.work ≡ some w
      → Holds P queue_bytes all
          (record d { work = none; exited = true; state = fail_state (length w.frames) d.state })
  unfolding at_hand fail_state frames_of bytes_of
  socket_failed w busy =
      let size = ap (λ o. length (at_hand o)) busy in
      let first : u64 (d.state.rejected + length w.frames) ≡ d.state.rejected + length w.frames =
        omega (arith, size, parts a) in
      let sum =
        reject_queued_lem (d.state.rejected + length w.frames) d.state.queue
          (omega (arith, size, parts a)) in
      record {
        rest = w.frames ++ (frames_of d.state.queue ++ a.rest);
        in_order =
            sym (ap (λ o. d.delivered ++ (at_hand o ++ (frames_of d.state.queue ++ a.rest))) busy)
            ∙ a.in_order;
        rejected_rest =
            ap (λ r. reject_queued r d.state.queue) first
            ∙ sum
            ∙ omega (
              arith,
              length-append w.frames (frames_of d.state.queue ++ a.rest),
              length-append (frames_of d.state.queue) a.rest,
              a.rejected_rest,
            );
        none_lost = λ e. absurd (cc);
        queue_gone = λ e. refl;
        bytes_sum = refl;
        bytes-le = omega arith;
        each = tt;
      }

  thread_step :
      (ok : Bool) (o : Option Work)
      → d.work ≡ o
      → Holds P queue_bytes all (elim o [ none ↦ take_work d | some work ↦ flush_work ok work d ])
  unfolding flush_work
  thread_step ok none e = taken e
  thread_step true (some w) e = flushed_all w e
  thread_step false (some w) e = socket_failed w e

  pub thread-Holds : (ok : Bool) → Holds P queue_bytes all (step queue_bytes (thread ok) d)
  unfolding step
  thread-Holds ok = unless_exited d.exited
    where
      unless_exited :
          (b : Bool)
          → Holds P queue_bytes all (
              if b
              then d
              else elim d.work [ none ↦ take_work d | some work ↦ flush_work ok work d ])
      unless_exited true = a
      unless_exited false = thread_step ok d.work refl
