-- ===== src/Sender/Fanout/Account.antt =====
-- harness/src/sender.cpp: where the frames are that were offered to a destination of Fanout.
use low_latency_udp_fanout.Common.{
  ℕ, ◌+◌, ◌^◌, ◌≤◌, ◌<◌, ◌≡◌, refl, sym, ◌∙◌, ap, arith, List, [], ◌∷◌, ◌++◌, true, false, Option,
  none, some, length, u64, length-append, All,
}
use mathlib.Core.List.{append_assoc, append-nil}
use low_latency_udp_fanout.Sender.Fanout.{
  Work, Destination, new_destination, batch_bytes, reject_queued,
}

-- The frames of the works that are queued, and of the one that the thread has taken.
unfoldable pub frames_of : List Work → List (List ℕ)
frames_of [] = []
frames_of (work ∷ queue) = work.frames ++ frames_of queue

-- The counts that the queued works carry, added up.
unfoldable pub bytes_of : List Work → ℕ
bytes_of [] = 0
bytes_of (work ∷ queue) = work.bytes + bytes_of queue

unfoldable pub at_hand : Option Work → List (List ℕ)
at_hand none = []
at_hand (some work) = work.frames

-- The lengths of the frames, added up.
unfoldable pub lengths_of : List (List ℕ) → ℕ
lengths_of [] = 0
lengths_of (frame ∷ frames) = length frame + lengths_of frames

-- The parts add up to `all`, and the queued bytes are within the limit.
pub record Accounts (queue_bytes : ℕ) (all : List (List ℕ)) (d : Destination) : Type 0 where
  pub rest : List (List ℕ)
  pub in_order : d.delivered ++ (at_hand d.work ++ (frames_of d.state.queue ++ rest)) ≡ all
  pub rejected_rest : d.state.rejected ≡ length rest
  pub none_lost : d.state.failed ≡ false → rest ≡ []
  pub queue_gone : d.state.failed ≡ true → d.state.queue ≡ []
  pub bytes_sum : d.state.bytes ≡ lengths_of (frames_of d.state.queue)
  pub bytes-le : d.state.bytes ≤ queue_bytes

-- A queued work carries the count of its batch, of which `P` holds.
abbrev pub IsCounted : (List (List ℕ) → Type 0) → Work → Type 0
IsCounted P work = P work.frames × (work.bytes ≡ batch_bytes 0 work.frames)

-- The same with the bytes as they are counted in each work, for batches of which `P` holds.
pub record Holds (P : List (List ℕ) → Type 0) (queue_bytes : ℕ) (all : List (List ℕ))
    (d : Destination) : Type 0 where
  pub rest : List (List ℕ)
  pub in_order : d.delivered ++ (at_hand d.work ++ (frames_of d.state.queue ++ rest)) ≡ all
  pub rejected_rest : d.state.rejected ≡ length rest
  pub none_lost : d.state.failed ≡ false → rest ≡ []
  pub queue_gone : d.state.failed ≡ true → d.state.queue ≡ []
  pub bytes_sum : d.state.bytes ≡ bytes_of d.state.queue
  pub bytes-le : d.state.bytes ≤ queue_bytes
  pub each : All (IsCounted P) d.state.queue

pub new_destination-Holds :
    {P : List (List ℕ) → Type 0} (queue_bytes : ℕ) → Holds P queue_bytes [] new_destination
unfolding frames_of bytes_of at_hand
new_destination-Holds queue_bytes = record {
  rest = [];
  in_order = refl;
  rejected_rest = refl;
  none_lost = λ e. refl;
  queue_gone = λ e. refl;
  bytes_sum = refl;
  bytes-le = omega arith;
  each = tt;
}

pub frames_of-append :
    (queue : List Work) (work : Work)
    → frames_of (queue ++ (work ∷ [])) ≡ frames_of queue ++ work.frames
unfolding frames_of
frames_of-append [] work = append-nil work.frames
frames_of-append (w ∷ queue) work =
    ap (λ fs. w.frames ++ fs) (frames_of-append queue work)
    ∙ sym (append_assoc w.frames (frames_of queue) work.frames)

pub bytes_of-append :
    (queue : List Work) (work : Work)
    → bytes_of (queue ++ (work ∷ [])) ≡ bytes_of queue + work.bytes
unfolding bytes_of
bytes_of-append [] work = omega arith
bytes_of-append (w ∷ queue) work = omega (arith, bytes_of-append queue work)

pub All-snoc_work :
    (P : List (List ℕ) → Type 0) (queue : List Work) (work : Work)
    → All (IsCounted P) queue
    → IsCounted P work
    → All (IsCounted P) (queue ++ (work ∷ []))
All-snoc_work P [] work h one = (one, tt)
All-snoc_work P (w ∷ queue) work h one = (h.0, All-snoc_work P queue work h.1 one)

pub batch_bytes_lem :
    (bytes : ℕ) (batch : List (List ℕ))
    → bytes + lengths_of batch < 2 ^ 64
    → batch_bytes bytes batch ≡ bytes + lengths_of batch
unfolding batch_bytes lengths_of
batch_bytes_lem bytes [] lt = omega arith
batch_bytes_lem bytes (frame ∷ frames) lt =
    let same : u64 (bytes + length frame) ≡ bytes + length frame = omega arith in
    ap (λ b. batch_bytes b frames) same
    ∙ batch_bytes_lem (bytes + length frame) frames (omega arith)
    ∙ omega arith

lengths_of-append : (xs ys : List (List ℕ)) → lengths_of (xs ++ ys) ≡ lengths_of xs + lengths_of ys
unfolding lengths_of
lengths_of-append [] ys = omega arith
lengths_of-append (x ∷ xs) ys = omega (arith, lengths_of-append xs ys)

-- The counts of the works are the lengths of their frames, if no batch has more than a count can say.
bytes_of_lem :
    (queue : List Work)
    → All (IsCounted (λ batch. lengths_of batch < 2 ^ 63)) queue
    → bytes_of queue ≡ lengths_of (frames_of queue)
unfolding bytes_of frames_of lengths_of
bytes_of_lem [] h = refl
bytes_of_lem (w ∷ queue) h = omega (
  arith,
  h.0.0,
  h.0.1,
  batch_bytes_lem 0 w.frames (omega (arith, h.0.0)),
  lengths_of-append w.frames (frames_of queue),
  bytes_of_lem queue h.1,
)

pub Holds-Accounts :
    {queue_bytes : ℕ} {all : List (List ℕ)} {d : Destination}
    → Holds (λ batch. lengths_of batch < 2 ^ 63) queue_bytes all d
    → Accounts queue_bytes all d
Holds-Accounts {d = d} a = record {
  rest = a.rest;
  in_order = a.in_order;
  rejected_rest = a.rejected_rest;
  none_lost = a.none_lost;
  queue_gone = a.queue_gone;
  bytes_sum = a.bytes_sum ∙ bytes_of_lem d.state.queue a.each;
  bytes-le = a.bytes-le;
}

pub reject_queued_lem :
    (rejected : ℕ) (queue : List Work)
    → rejected + length (frames_of queue) < 2 ^ 64
    → reject_queued rejected queue ≡ rejected + length (frames_of queue)
unfolding reject_queued frames_of
reject_queued_lem rejected [] lt = omega arith
reject_queued_lem rejected (w ∷ queue) lt =
    let sum = length-append w.frames (frames_of queue) in
    let same : u64 (rejected + length w.frames) ≡ rejected + length w.frames = omega arith in
    ap (λ r. reject_queued r queue) same
    ∙ reject_queued_lem (rejected + length w.frames) queue (omega arith)
    ∙ omega arith

module _ {P : List (List ℕ) → Type 0} {queue_bytes : ℕ} {all : List (List ℕ)} {d : Destination}
    (a : Holds P queue_bytes all d) where
  -- The lengths of the parts.
  pub parts :
      length d.delivered
        + length (at_hand d.work)
        + length (frames_of d.state.queue)
        + d.state.rejected
      ≡ length all
  parts = omega (
    arith,
    ap length a.in_order,
    length-append d.delivered (at_hand d.work ++ (frames_of d.state.queue ++ a.rest)),
    length-append (at_hand d.work) (frames_of d.state.queue ++ a.rest),
    length-append (frames_of d.state.queue) a.rest,
    a.rejected_rest,
  )

  pub finish-Holds : Holds P queue_bytes all (record d { state = record (d.state) { done = true } })
  finish-Holds = record {
    rest = a.rest;
    in_order = a.in_order;
    rejected_rest = a.rejected_rest;
    none_lost = a.none_lost;
    queue_gone = a.queue_gone;
    bytes_sum = a.bytes_sum;
    bytes-le = a.bytes-le;
    each = a.each;
  }
