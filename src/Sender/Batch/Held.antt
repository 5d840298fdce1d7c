-- ===== src/Sender/Batch/Held.antt =====
-- harness/src/sender.cpp: the loop of flush_pending against two filters.
use low_latency_udp_fanout.Common.{
  ℕ, suc, ◌+◌, ◌<◌, ◌≡◌, refl, sym, ◌∙◌, ap, ap₂, arith, List, [], ◌∷◌, ◌++◌, Bool, true, false,
  not, inl, inr, Bool-cases, if◌then◌else◌, ◌==◌, length, get_or, set, map, length-append,
  take-append_length,
}
use mathlib.Core.List.{append_assoc, append-nil}
use low_latency_udp_fanout.Multiplex.{Key, wrap}
use low_latency_udp_fanout.Sender.Batch.{
  PendingDatagram, no_datagram, Batch, queue_or_flush, is_due, keep_at, pending_loop, flush_pending,
}
use low_latency_udp_fanout.Sender.Batch.Flow.{IsLink, flow, queue_or_flush_lem}

-- The datagrams that a test takes, in order.
pub filter : {A : Type 0} → (A → Bool) → List A → List A
filter f [] = []
filter f (x ∷ xs) = let rest = filter f xs in if f x then x ∷ rest else rest

filter_yes :
    {A : Type 0} (f : A → Bool) (x : A) (xs : List A)
    → f x ≡ true
    → filter f (x ∷ xs) ≡ x ∷ filter f xs
unfolding filter
filter_yes f x xs e = rw e refl

filter_no :
    {A : Type 0} (f : A → Bool) (x : A) (xs : List A)
    → f x ≡ false
    → filter f (x ∷ xs) ≡ filter f xs
unfolding filter
filter_no f x xs e = rw e refl

get_or-middle :
    {A : Type 0} (xs : List A) (a : A) (ys : List A) (d : A)
    → get_or (xs ++ (a ∷ ys)) (length xs) d ≡ a
get_or-middle [] a ys d = refl
get_or-middle (x ∷ xs) a ys d = get_or-middle xs a ys d

set-middle :
    {A : Type 0} (xs : List A) (a v : A) (ys : List A)
    → set (xs ++ (a ∷ ys)) (length xs) v ≡ xs ++ (v ∷ ys)
set-middle [] a v ys = refl
set-middle (x ∷ xs) a v ys = ap (λ zs. x ∷ zs) (set-middle xs a v ys)

-- The vector within the loop: what is kept, entries that were moved or sent, and what is still to see.
abbrev split :
    List PendingDatagram → List PendingDatagram → List PendingDatagram → List PendingDatagram
split kept stale rest = kept ++ (stale ++ rest)

seen :
    (kept stale : List PendingDatagram) (p : PendingDatagram) (rest : List PendingDatagram)
    → get_or (split kept stale (p ∷ rest)) (length kept + length stale) no_datagram ≡ p
seen kept stale p rest =
    ap₂ (λ xs i. get_or xs i no_datagram) (sym (append_assoc kept stale (p ∷ rest)))
      (sym (length-append kept stale))
    ∙ get_or-middle (kept ++ stale) p rest no_datagram

module _ (moved_from : PendingDatagram → PendingDatagram) where
  -- Keeping the datagram at hand moves it to the end of what is kept.
  keep_lem :
      (kept stale : List PendingDatagram) (p : PendingDatagram) (rest : List PendingDatagram)
      → (stale' : List PendingDatagram) × (keep_at moved_from
            (length kept + length stale)
            (length kept)
            (split kept stale (p ∷ rest))
          ≡ split (kept ++ (p ∷ [])) stale' rest)
        × (length stale' ≡ length stale)
  unfolding keep_at
  keep_lem kept [] p rest =
      let same : (length kept + 0 == length kept) ≡ true = ground arith in
      ([], rw same (sym (append_assoc kept (p ∷ []) rest)), refl)
  keep_lem kept (x ∷ stale) p rest =
      let other : (length kept + suc (length stale) == length kept) ≡ false = ground arith in
      let first = set-middle kept x p (stale ++ (p ∷ rest)) in
      let place : length kept + suc (length stale) ≡ length ((kept ++ (p ∷ [])) ++ stale) =
        omega (arith, length-append (kept ++ (p ∷ [])) stale, length-append kept (p ∷ [])) in
      let whole : kept ++ (p ∷ (stale ++ (p ∷ rest)))
          ≡ ((kept ++ (p ∷ [])) ++ stale) ++ (p ∷ rest) =
        sym (
          append_assoc (kept ++ (p ∷ [])) stale (p ∷ rest)
          ∙ append_assoc kept (p ∷ []) (stale ++ (p ∷ rest))) in
      (
        stale ++ (moved_from p ∷ []),
        rw other (
            ap₂ (λ q xs. set xs (length kept + suc (length stale)) (moved_from q))
              (seen kept (x ∷ stale) p rest)
              (ap (λ q. set (split kept (x ∷ stale) (p ∷ rest)) (length kept) q)
                  (seen kept (x ∷ stale) p rest)
                ∙ first
                ∙ whole)
            ∙ ap (λ i. set (((kept ++ (p ∷ [])) ++ stale) ++ (p ∷ rest)) i (moved_from p)) place
            ∙ set-middle ((kept ++ (p ∷ [])) ++ stale) p (moved_from p) rest
            ∙ append_assoc (kept ++ (p ∷ [])) stale (moved_from p ∷ rest)
            ∙ ap (λ zs. (kept ++ (p ∷ [])) ++ zs)
                (sym (append_assoc stale (moved_from p ∷ []) rest))),
        omega (arith, length-append stale (moved_from p ∷ [])),
      )

module _ {S : Type 0} {clock : S → ℕ × S} {send : List (List ℕ) → S → Bool × S}
    {sent : S → List (List ℕ)} (link : IsLink clock send sent) (batch_size : ℕ)
    (some_room : 0 < batch_size) (key : Key) (moved_from : PendingDatagram → PendingDatagram)
    (now_ns : ℕ) (all : Bool) where
  abbrev due : PendingDatagram → Bool
  due p = is_due now_ns all p

  abbrev leaving : List PendingDatagram → List (List ℕ)
  leaving pending = map (λ p. wrap key p.bytes) (filter due pending)

  abbrev staying : List PendingDatagram → List PendingDatagram
  staying pending = filter (λ p. not (due p)) pending

  -- The two rounds of the loop.
  loop : ℕ → ℕ → ℕ → List PendingDatagram → Batch → S → Bool × (List PendingDatagram × (Batch × S))
  loop = pending_loop batch_size key clock send moved_from now_ns all

  send_round :
      (n i write : ℕ) (pending : List PendingDatagram) (p : PendingDatagram) (b b' : Batch)
      (s s' : S)
      → get_or pending i no_datagram ≡ p
      → due p ≡ true
      → queue_or_flush batch_size key clock send p.bytes b s ≡ (true, (b', s'))
      → loop (suc n) i write pending b s ≡ loop n (suc i) write pending b' s'
  unfolding loop pending_loop
  send_round n i write pending p b b' s s' here go ran =
      let test = ap due here ∙ go in
      let result =
        ap (λ (q : PendingDatagram). queue_or_flush batch_size key clock send q.bytes b s) here
        ∙ ran in
      rw (test, ap (λ r. r.0) result, loop, pending_loop)
        (ap (λ r. loop n (suc i) write pending r.1.0 r.1.1) result)

  keep_round :
      (n i write : ℕ) (pending : List PendingDatagram) (p : PendingDatagram) (b : Batch) (s : S)
      → get_or pending i no_datagram ≡ p
      → due p ≡ false
      → loop (suc n) i write pending b s
        ≡ loop n (suc i) (suc write) (keep_at moved_from i write pending) b s
  unfolding loop pending_loop
  keep_round n i write pending p b s here stay = rw (here, stay, loop, pending_loop) refl

  loop_lem :
      (rest kept stale : List PendingDatagram) (b : Batch) (s : S)
      → (b' : Batch) × (s' : S) × (loop
            (length rest)
            (length kept + length stale)
            (length kept)
            (split kept stale rest)
            b
            s
          ≡ (true, (kept ++ staying rest, (b', s'))))
        × (flow link batch_size some_room key b' s'
            ≡ flow link batch_size some_room key b s ++ leaving rest)
  unfolding loop pending_loop filter
  loop_lem [] kept stale b s = (
    b,
    s,
    ap (λ ps. (true, (ps, (b, s)))) (take-append_length kept (stale ++ []) ∙ sym (append-nil kept)),
    sym (append-nil _),
  )
  loop_lem (p ∷ rest) kept stale b s = elim (Bool-cases (due p)) [
    | inl go ↦
        let (b1, s1, queued) = queue_or_flush_lem link batch_size some_room key p.bytes b s in
        let (b2, s2, ran, went) = loop_lem rest kept (stale ++ (p ∷ [])) b1 s1 in
        let next : suc (length kept + length stale) ≡ length kept + length (stale ++ (p ∷ [])) =
          omega (arith, length-append stale (p ∷ [])) in
        let same : split kept stale (p ∷ rest) ≡ split kept (stale ++ (p ∷ [])) rest =
          ap (λ zs. kept ++ zs) (sym (append_assoc stale (p ∷ []) rest)) in
        (
          b2,
          s2,
          send_round (length rest) (length kept + length stale) (length kept) _ p b b1 s s1
                (seen kept stale p rest) go queued.ran
              ∙ ap₂ (λ i v. loop (length rest) i (length kept) v b1 s1) next same
              ∙ ran
              ∙ ap (λ ps. (true, (kept ++ ps, (b2, s2))))
                  (sym (filter_no (λ q. not (due q)) p rest (ap not go))),
          went
              ∙ ap (λ fs. fs ++ leaving rest) queued.went
              ∙ append_assoc (flow link batch_size some_room key b s) (wrap key p.bytes ∷ [])
                  (leaving rest)
              ∙ ap (λ ps. flow link batch_size some_room key b s ++ map (λ q. wrap key q.bytes) ps)
                  (sym (filter_yes due p rest go)),
        )
    | inr stay ↦
        let (stale', kept_vector, count) = keep_lem moved_from kept stale p rest in
        let (b2, s2, ran, went) = loop_lem rest (kept ++ (p ∷ [])) stale' b s in
        let next : suc (length kept + length stale) ≡ length (kept ++ (p ∷ [])) + length stale' =
          omega (arith, length-append kept (p ∷ []), count) in
        let write : suc (length kept) ≡ length (kept ++ (p ∷ [])) =
          omega (arith, length-append kept (p ∷ [])) in
        (
          b2,
          s2,
          keep_round (length rest) (length kept + length stale) (length kept) _ p b s
                (seen kept stale p rest) stay
              ∙ ap
                  (λ v.
                    loop (length rest) (suc (length kept + length stale)) (suc (length kept)) v b s)
                  kept_vector
              ∙ ap₂ (λ i w. loop (length rest) i w (split (kept ++ (p ∷ [])) stale' rest) b s) next
                  write
              ∙ ran
              ∙ ap (λ ps. (true, (ps, (b2, s2))))
                  (append_assoc kept (p ∷ []) (staying rest)
                    ∙ ap (λ ps. kept ++ ps)
                        (sym (filter_yes (λ q. not (due q)) p rest (ap not stay)))),
          went
              ∙ ap (λ ps. flow link batch_size some_room key b s ++ map (λ q. wrap key q.bytes) ps)
                  (sym (filter_no due p rest stay)),
        )
  ]

  -- Over a connection that takes every batch, with room for a datagram: `flush_pending` returns true, keeps exactly the
  -- datagrams that are not due, in order, whatever a move leaves behind, and sends or queues exactly those that are due,
  -- each wrapped once, in order, behind what was there.
  pub flush_pending-filters :
      (pending : List PendingDatagram) (b : Batch) (s : S)
      → (b' : Batch) × (s' : S) × (flush_pending batch_size key clock send moved_from now_ns all
            pending b s
          ≡ (true, (filter (λ p. not (is_due now_ns all p)) pending, (b', s'))))
        × (sent s' ++ map (wrap key) b'.frames
            ≡ (sent s ++ map (wrap key) b.frames)
              ++ map (λ p. wrap key p.bytes) (filter (λ p. is_due now_ns all p) pending))
  unfolding flush_pending loop
  flush_pending-filters pending b s =
      let zeros : ◌≡◌ {A = ℕ} 0 (0 + 0) = omega arith in
      let (b', s', ran, went) = loop_lem pending [] [] b s in
      (b', s', ap (λ i. loop (length pending) i 0 pending b s) zeros ∙ ran, went)
