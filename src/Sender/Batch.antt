-- ===== src/Sender/Batch.antt =====
-- harness/src/sender.cpp: the batch of datagrams and the datagrams that are held back. What lies outside, the clock and
-- the sending of a batch (flush_batch_direct or Fanout::enqueue), is a function on a state of its own.
pub mod Flow
pub mod Held
use low_latency_udp_fanout.Common.{
  ℕ, zero, suc, ◌+◌, ◌*◌, List, [], ◌∷◌, ◌++◌, Bool, true, false, not, ◌||◌, ◌&&◌, if◌then◌else◌,
  ltb, leb, ◌==◌, length, get_or, set, take, map, u64,
}
use low_latency_udp_fanout.Multiplex.{Key, wrap}

pub record PendingDatagram : Type 0 where
  pub bytes : List ℕ
  pub release_ns : ℕ

abbrev pub no_datagram : PendingDatagram
no_datagram = record { bytes = []; release_ns = 0 }

-- The first `size` frames of a batch, cut to their lengths.
pub record Batch : Type 0 where
  pub frames : List (List ℕ)
  pub first_ns : ℕ

abbrev pub make_batch : Batch
make_batch = record { frames = []; first_ns = 0 }

abbrev pub size : Batch → ℕ
size b = length b.frames

-- `queue_datagram`, at time `now_ns`; there is room for one more.
unfoldable pub queue_datagram : List ℕ → ℕ → Batch → Batch
queue_datagram bytes now_ns b = record {
  frames = b.frames ++ (bytes ∷ []);
  first_ns = if size b == 0 then now_ns else b.first_ns;
}

abbrev pub is_due : ℕ → Bool → PendingDatagram → Bool
is_due now_ns all p = all || leb p.release_ns now_ns

-- `if (write != i) pending[write] = std::move(pending[i])`; what a move leaves behind is `moved_from`.
unfoldable pub keep_at :
    (PendingDatagram → PendingDatagram) → ℕ → ℕ → List PendingDatagram → List PendingDatagram
keep_at moved_from i write pending =
    if i == write
    then pending
    else set (set pending write (get_or pending i no_datagram)) i
        (moved_from (get_or pending i no_datagram))

module _ {S : Type 0} (batch_size : ℕ) (key : Key) (clock : S → ℕ × S)
    (send : List (List ℕ) → S → Bool × S) where
  -- A batch that was not sent stays, with its frames wrapped.
  unfoldable pub flush_batch : Batch → S → Bool × (Batch × S)
  flush_batch b s =
      if size b == 0
      then (true, (b, s))
      else (let wrapped = map (wrap key) b.frames in
          let (ok, s') = send wrapped s in
          (ok, (if ok then make_batch else record b { frames = wrapped }, s')))

  unfoldable pub queue_or_flush : List ℕ → Batch → S → Bool × (Batch × S)
  queue_or_flush bytes b s =
      let (now_ns, s') = if size b == 0 then clock s else (b.first_ns, s) in
      let queued = queue_datagram bytes now_ns b in
      if leb batch_size (size queued) then flush_batch queued s' else (true, (queued, s'))

  module _ (moved_from : PendingDatagram → PendingDatagram) (now_ns : ℕ) (all : Bool) where
    -- The loop of `flush_pending`, from `i` on.
    unfoldable pub pending_loop :
        ℕ → ℕ → ℕ → List PendingDatagram → Batch → S → Bool × (List PendingDatagram × (Batch × S))
    pending_loop zero i write pending b s = (true, (take write pending, (b, s)))
    pending_loop (suc rounds) i write pending b s =
        elim (is_due now_ns all (get_or pending i no_datagram)) [
          | true ↦
              let (ok, (b', s')) = queue_or_flush (get_or pending i no_datagram).bytes b s in
              elim ok [
                | true ↦ pending_loop rounds (suc i) write pending b' s'
                | false ↦ (false, (pending, (b', s')))
              ]
          | false ↦ pending_loop rounds (suc i) (suc write) (keep_at moved_from i write pending) b s
        ]

    unfoldable pub flush_pending :
        List PendingDatagram → Batch → S → Bool × (List PendingDatagram × (Batch × S))
    flush_pending pending b s = pending_loop (length pending) 0 0 pending b s
