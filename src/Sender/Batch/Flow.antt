-- ===== src/Sender/Batch/Flow.antt =====
-- harness/src/sender.cpp: what goes through the batch.
use low_latency_udp_fanout.Common.{
  ℕ, suc, ◌<◌, ◌≡◌, refl, sym, ◌∙◌, ap, arith, List, [], ◌∷◌, ◌++◌, Bool, true, false, inl, inr,
  Bool-cases, if◌then◌else◌, leb, ◌==◌, map, length-append,
}
use mathlib.Core.List.{append_assoc, append-nil}
use low_latency_udp_fanout.Multiplex.{Key, wrap}
use low_latency_udp_fanout.Sender.Batch.{
  Batch, make_batch, size, queue_datagram, flush_batch, queue_or_flush,
}

-- A connection that takes every batch, with the list of what it took; the clock leaves that alone.
pub record IsLink {S : Type 0} (clock : S → ℕ × S) (send : List (List ℕ) → S → Bool × S)
    (sent : S → List (List ℕ)) : Type 0 where
  pub clock_keeps : (s : S) → sent (clock s).1 ≡ sent s
  pub send_succeeds : (frames : List (List ℕ)) (s : S) → (send frames s).0 ≡ true
  pub send_takes : (frames : List (List ℕ)) (s : S) → sent (send frames s).1 ≡ sent s ++ frames

pub map-append :
    {A B : Type 0} (f : A → B) (xs ys : List A) → map f (xs ++ ys) ≡ map f xs ++ map f ys
map-append f [] ys = refl
map-append f (x ∷ xs) ys = ap (λ zs. f x ∷ zs) (map-append f xs ys)

module _ {S : Type 0} {clock : S → ℕ × S} {send : List (List ℕ) → S → Bool × S}
    {sent : S → List (List ℕ)} (link : IsLink clock send sent) (batch_size : ℕ)
    (some_room : 0 < batch_size) (key : Key) where
  -- What was sent, with what is about to be.
  abbrev pub flow : Batch → S → List (List ℕ)
  flow b s = sent s ++ map (wrap key) b.frames

  flush_batch_full :
      (b : Batch) (s : S)
      → 0 < size b
      → (s' : S) × (flush_batch batch_size key clock send b s ≡ (true, (make_batch, s')))
        × (flow make_batch s' ≡ flow b s)
  unfolding flush_batch
  flush_batch_full b s lt =
      let full : (size b == 0) ≡ false = ground arith in
      let wrapped : List (List ℕ) = map (wrap key) b.frames in
      (
        (send wrapped s).1,
        ap
              (λ t. if t then (true, (b, s)) else (
                (send wrapped s).0,
                (
                  (if (send wrapped s).0 then make_batch else record b { frames = wrapped }),
                  (send wrapped s).1,
                ),
              ))
              full
            ∙ ap
                (λ ok. (
                  ok,
                  ((if ok then make_batch else record b { frames = wrapped }), (send wrapped s).1),
                ))
                (link.send_succeeds wrapped s),
        append-nil _ ∙ link.send_takes wrapped s,
      )

  -- The state when the clock was read, if it was.
  read_clock : Batch → S → ℕ × S
  read_clock b s = if size b == 0 then clock s else (b.first_ns, s)

  read_clock_keeps : (b : Batch) (s : S) → sent (read_clock b s).1 ≡ sent s
  unfolding read_clock
  read_clock_keeps b s = elim (Bool-cases (size b == 0)) [
    | inl t ↦ rw t (link.clock_keeps s)
    | inr f ↦ rw f refl
  ]

  queued_flow :
      (bytes : List ℕ) (now_ns : ℕ) (b : Batch) (s : S)
      → flow (queue_datagram bytes now_ns b) s ≡ flow b s ++ (wrap key bytes ∷ [])
  unfolding queue_datagram
  queued_flow bytes now_ns b s =
      ap (λ fs. sent s ++ fs) (map-append (wrap key) b.frames (bytes ∷ []))
      ∙ sym (append_assoc (sent s) (map (wrap key) b.frames) (wrap key bytes ∷ []))

  pub record IsQueued (bytes : List ℕ) (b : Batch) (s : S) (b' : Batch) (s' : S) : Type 0 where
    pub ran : queue_or_flush batch_size key clock send bytes b s ≡ (true, (b', s'))
    pub went : flow b' s' ≡ flow b s ++ (wrap key bytes ∷ [])
    pub room : size b' < batch_size

  pub queue_or_flush_lem :
      (bytes : List ℕ) (b : Batch) (s : S) → (b' : Batch) × (s' : S) × IsQueued bytes b s b' s'
  unfolding queue_or_flush read_clock queue_datagram
  queue_or_flush_lem bytes b s =
      let now_ns : ℕ = (read_clock b s).0 in
      let s1 : S = (read_clock b s).1 in
      let queued : Batch = queue_datagram bytes now_ns b in
      let moved =
        queued_flow bytes now_ns b s1
        ∙ ap (λ fs. fs ++ map (wrap key) b.frames ++ (wrap key bytes ∷ []))
            (read_clock_keeps b s) in
      let count : size queued ≡ suc (size b) = omega (arith, length-append b.frames (bytes ∷ [])) in
      elim (Bool-cases (leb batch_size (size queued))) [
        | inl full ↦
            let (s2, ran, kept) = flush_batch_full queued s1 (omega arith) in
            (
              make_batch,
              s2,
              record {
                ran =
                    ap
                      (λ t.
                        if t
                        then flush_batch batch_size key clock send queued s1
                        else (true, (queued, s1)))
                      full
                    ∙ ran;
                went = kept ∙ moved;
                room = some_room;
              },
            )
        | inr fits ↦ (
          queued,
          s1,
          record {
            ran =
                ap
                  (λ t.
                    if t
                    then flush_batch batch_size key clock send queued s1
                    else (true, (queued, s1)))
                  fits;
            went = moved;
            room = ground (arith, fits);
          },
        )
      ]
