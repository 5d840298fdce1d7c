-- ===== src/Sender/Fanout/Enqueue.antt =====
-- harness/src/sender.cpp: the branches of Fanout::enqueue for one destination.
use low_latency_udp_fanout.Common.{
  ℕ, ◌+◌, ◌^◌, ◌≤◌, ◌<◌, ◌≡◌, refl, sym, ◌∙◌, subst, ap, ap₂, arith, List, [], ◌∷◌, ◌++◌, Bool,
  true, false, inl, inr, Bool-cases, ltb, if◌then◌else◌, length, u64, length-append,
}
use mathlib.Core.List.{append_assoc, append-nil}
use low_latency_udp_fanout.Sender.Fanout.{
  Work, DestinationState, Destination, batch_bytes, reject_queued, fail_state, enqueue,
}
use low_latency_udp_fanout.Sender.Fanout.Account.{
  Holds, frames_of, bytes_of, at_hand, frames_of-append, bytes_of-append, All-snoc_work,
  reject_queued_lem, parts,
}

shift3 : {A : Type 0} (a b c x : List A) → a ++ (b ++ (c ++ x)) ≡ (a ++ (b ++ c)) ++ x
shift3 a b c x = ap (λ t. a ++ t) (sym (append_assoc b c x)) ∙ sym (append_assoc a (b ++ c) x)

shift4 :
    {A : Type 0} (a b c r x : List A) → a ++ (b ++ (c ++ (r ++ x))) ≡ (a ++ (b ++ (c ++ r))) ++ x
shift4 a b c r x = ap (λ t. a ++ (b ++ t)) (sym (append_assoc c r x)) ∙ shift3 a b (c ++ r) x

-- The branches of `enqueue`.
module _ (queue_bytes : ℕ) (batch : List (List ℕ)) (s : DestinationState) where
  abbrev refusing : DestinationState
  refusing = record s { rejected = u64 (s.rejected + length batch) }

  abbrev accepting : DestinationState
  accepting = record s {
    bytes = u64 (s.bytes + batch_bytes 0 batch);
    queue = s.queue ++ (record { frames = batch; bytes = batch_bytes 0 batch } ∷ []);
  }

  abbrev branches : Bool → Bool → DestinationState
  branches failed over =
      if failed then refusing else if over then fail_state (length batch) s else accepting

  enqueue_branch :
      {failed over : Bool}
      → s.failed ≡ failed
      → ltb queue_bytes (u64 (s.bytes + batch_bytes 0 batch)) ≡ over
      → enqueue queue_bytes batch s ≡ branches failed over
  unfolding enqueue
  enqueue_branch e o = ap₂ branches e o

module _ {P : List (List ℕ) → Type 0} {queue_bytes : ℕ} {all : List (List ℕ)} {d : Destination}
    (a : Holds P queue_bytes all d) (batch : List (List ℕ))
    (room : length all + length batch < 2 ^ 64) (limit : queue_bytes < 2 ^ 63)
    (small : batch_bytes 0 batch < 2 ^ 63) (good : P batch) where
  refused :
      d.state.failed ≡ true
      → Holds P queue_bytes (all ++ batch) (record d { state = refusing queue_bytes batch d.state })
  refused failed = record {
    rest = a.rest ++ batch;
    in_order =
        shift4 d.delivered (at_hand d.work) (frames_of d.state.queue) a.rest batch
        ∙ ap (λ fs. fs ++ batch) a.in_order;
    rejected_rest = omega (arith, a.rejected_rest, length-append a.rest batch, parts a);
    none_lost = λ e. absurd (cc);
    queue_gone = a.queue_gone;
    bytes_sum = a.bytes_sum;
    bytes-le = a.bytes-le;
    each = a.each;
  }

  nothing_rejected :
      d.state.failed ≡ false
      → (d.state.rejected ≡ 0) × (d.delivered ++ (at_hand d.work ++ frames_of d.state.queue) ≡ all)
  nothing_rejected alive =
      let gone = a.none_lost alive in
      (
        a.rejected_rest ∙ ap length gone,
        ap (λ fs. d.delivered ++ (at_hand d.work ++ fs))
              (sym (
                ap (λ r. frames_of d.state.queue ++ r) gone ∙ append-nil (frames_of d.state.queue)))
            ∙ a.in_order,
      )

  overflowed :
      d.state.failed ≡ false
      → Holds P queue_bytes (all ++ batch) (record d { state = fail_state (length batch) d.state })
  unfolding fail_state frames_of bytes_of
  overflowed alive =
      let (zero_rejected, whole) = nothing_rejected alive in
      let first : u64 (d.state.rejected + length batch) ≡ length batch = omega arith in
      let sum = reject_queued_lem (length batch) d.state.queue (omega (arith, parts a)) in
      record {
        rest = frames_of d.state.queue ++ batch;
        in_order =
            shift3 d.delivered (at_hand d.work) (frames_of d.state.queue) batch
            ∙ ap (λ fs. fs ++ batch) whole;
        rejected_rest =
            ap (λ r. reject_queued r d.state.queue) first
            ∙ sum
            ∙ omega (arith, length-append (frames_of d.state.queue) batch);
        none_lost = λ e. absurd (cc);
        queue_gone = λ e. refl;
        bytes_sum = refl;
        bytes-le = omega arith;
        each = tt;
      }

  accepted :
      d.state.failed ≡ false
      → u64 (d.state.bytes + batch_bytes 0 batch) ≤ queue_bytes
      → Holds P queue_bytes
          (all ++ batch)
          (record d { state = accepting queue_bytes batch d.state })
  accepted alive fits =
      let (zero_rejected, whole) = nothing_rejected alive in
      let work : Work = record { frames = batch; bytes = batch_bytes 0 batch } in
      record {
        rest = [];
        in_order =
            ap (λ fs. d.delivered ++ (at_hand d.work ++ fs))
              (append-nil (frames_of (d.state.queue ++ (work ∷ [])))
                ∙ frames_of-append d.state.queue work)
            ∙ shift3 d.delivered (at_hand d.work) (frames_of d.state.queue) batch
            ∙ ap (λ fs. fs ++ batch) whole;
        rejected_rest = zero_rejected;
        none_lost = λ e. refl;
        queue_gone = λ e. absurd (cc);
        bytes_sum = omega (arith, a.bytes_sum, a.bytes-le, bytes_of-append d.state.queue work);
        bytes-le = fits;
        each = All-snoc_work P d.state.queue work a.each (good, refl);
      }

  pub enqueue-Holds :
      Holds P queue_bytes (all ++ batch) (record d { state = enqueue queue_bytes batch d.state })
  enqueue-Holds = elim (Bool-cases d.state.failed) [
    | inl failed ↦ by_branch (enqueue_branch queue_bytes batch d.state failed refl) (refused failed)
    | inr alive ↦ elim (Bool-cases (ltb queue_bytes (u64 (d.state.bytes + batch_bytes 0 batch)))) [
      | inl over ↦
          by_branch (enqueue_branch queue_bytes batch d.state alive over) (overflowed alive)
      | inr fits ↦
          by_branch (enqueue_branch queue_bytes batch d.state alive fits)
            (accepted alive (ground (arith, fits)))
    ]
  ]
    where
      by_branch :
          {s : DestinationState}
          → enqueue queue_bytes batch d.state ≡ s
          → Holds P queue_bytes (all ++ batch) (record d { state = s })
          → Holds P queue_bytes
              (all ++ batch)
              (record d { state = enqueue queue_bytes batch d.state })
      by_branch e h =
          subst (λ s. Holds P queue_bytes (all ++ batch) (record d { state = s })) (sym e) h
