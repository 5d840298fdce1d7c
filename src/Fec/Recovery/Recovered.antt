-- ===== src/Fec/Recovery/Recovered.antt =====
-- harness/include/fec.h: what Decoder::try_recover publishes.
use low_latency_udp_fanout.Common.{
  ℕ, suc, ◌+◌, ◌≤◌, ◌<◌, ◌≡◌, refl, sym, ◌∙◌, ap, arith, Bool, true, false, not, ltb, ◌==◌, ◌||◌,
  if◌then◌else◌, List, [], ◌∷◌, ◌++◌, map, Option, none, some, length, get_or, set, take, drop,
  length-take,
}
use native.Mathlib.Decide.{dec_lt}
use mathlib.Core.List.{append_assoc, append-nil}
use low_latency_udp_fanout.Wire.Codec.{◌>>=◌}
use low_latency_udp_fanout.Wire.Frame.{max_frame}
use low_latency_udp_fanout.Fec.Envelope.{get_u16, protected_frame}
use low_latency_udp_fanout.Fec.Encoder.Valid.{IsFrame}
use low_latency_udp_fanout.Fec.Decoder.{Counters, Generation, Decoder}
use low_latency_udp_fanout.Fec.Decoder.Recover.{
  absent_from, rows_from, build_rows, lengths_ok, solve, publish_recovered, finish_recovery,
  try_recover, count_recovered,
}
use low_latency_udp_fanout.Fec.Solve.{Row, row_at, eliminate}
use low_latency_udp_fanout.Fec.Recovery.Indices.{
  Ascending, absent_from-Ascending, rows_from-Ascending, take-Ascending, get_or-Ascending,
}
use low_latency_udp_fanout.Fec.Recovery.System.{recovers_content, widen}
use low_latency_udp_fanout.Fec.Recovery.Frames.{
  IsPartOf, nth-IsFrame, frame, absent, used, holds, used_parity,
}
use low_latency_udp_fanout.Fec.Recovery.Blocks.{
  length-protected_frame, get_u16-protected_frame, block_frame, list_ext,
}

lengths_ok_lem :
    (max_len : ℕ) (solved : List Row)
    → max_len ≤ max_frame
    → ((r : ℕ)
        → r < length solved
        → (f : List ℕ) × IsFrame max_len f × ((row_at solved r).rhs ≡ protected_frame f max_len))
    → lengths_ok (max_len + 2) solved ≡ true
unfolding lengths_ok
lengths_ok_lem max_len [] le h = refl
lengths_ok_lem max_len (row ∷ solved) le h =
    let (f, is, e) = h 0 (omega arith) in
    let size : get_u16 row.rhs ≡ length f =
      ap get_u16 e ∙ get_u16-protected_frame f max_len (omega (arith, is.within)) in
    let rest = lengths_ok_lem max_len solved le (λ r lt. h (suc r) (omega arith)) in
    ground (arith, size, rest, is.within, is.some_bytes)

-- The callback that accepts each frame and keeps a log.
abbrev pub accept : List ℕ → Bool → ℕ → List (List ℕ) → Bool × List (List ℕ)
accept frame recovered reason log = (true, log ++ (frame ∷ []))

publish_recovered_lem :
    (frame : ℕ → List ℕ) (is : List ℕ) (rows : List Row) (gen : Generation) (counters : Counters)
    (log : List (List ℕ))
    → length rows ≡ length is
    → ((r : ℕ)
        → r < length is
        → take (get_u16 (row_at rows r).rhs) (drop 2 (row_at rows r).rhs) ≡ frame (get_or is r 0))
    → (after : Generation) × (counted : Counters) × (publish_recovered accept is rows gen counters
          log
        ≡ (true, (after, (counted, log ++ map frame is))))
unfolding publish_recovered
publish_recovered_lem frame [] rows gen counters log e h =
    (gen, counters, ap (λ l. (true, (gen, (counters, l)))) (sym (append-nil log)))
publish_recovered_lem frame (i ∷ is) [] gen counters log e h = absurd (omega arith)
publish_recovered_lem frame (i ∷ is) (row ∷ rows) gen counters log e h =
    let stored : Generation = record gen {
      received = set gen.received i true;
      blocks = set gen.blocks i row.rhs;
    } in
    let counted : Counters = count_recovered gen.close_reason counters in
    let first : List ℕ = take (get_u16 row.rhs) (drop 2 row.rhs) in
    let (after, total, run) =
      publish_recovered_lem frame is rows stored counted (log ++ (first ∷ [])) (omega arith)
        (λ r lt. h (suc r) (omega arith)) in
    (
      after,
      total,
      run
          ∙ ap (λ l. (true, (after, (total, l))))
              (append_assoc log (first ∷ []) (map frame is)
                ∙ ap (λ f. log ++ (f ∷ map frame is)) (h 0 (omega arith))),
    )

complete_idle :
    (gen : Generation) (now_ns : ℕ) (d : Decoder) (log : List (List ℕ))
    → absent_from gen.k 0 gen.received ≡ []
    → try_recover accept gen now_ns d log ≡ (true, (gen, (d, log)))
unfolding try_recover
complete_idle gen now_ns d log e =
    let guard : (not gen.parity_received
          || gen.recovered
          || (gen.k == 0)
          || (length (absent_from gen.k 0 gen.received) == 0)
          || ltb (length (rows_from 0 gen.parities)) (length (absent_from gen.k 0 gen.received)))
        ≡ true =
      simp e (ground arith) in
    rw guard refl

bind_both :
    {A B C : Type 0} (o : Option A) (f : A → Option B) (g : B → Option C) (b : B)
    → (o >>= f) ≡ some b
    → (o >>= λ a. f a >>= g) ≡ g b
bind_both none f g b e = cc
bind_both (some a) f g b e = ap (λ o. o >>= g) e

module _ {max_len : ℕ} {frames : List (List ℕ)} {gen : Generation} (g : IsPartOf max_len frames gen)
    (enough : length (absent_from gen.k 0 gen.received) ≤ length (rows_from 0 gen.parities))
    (missing : 0 < length (absent_from gen.k 0 gen.received)) where
  square : length (used g) ≡ length (absent g)
  square = omega (arith, length-take (length (absent g)) (rows_from 0 gen.parities))

  used-Ascending : Ascending 0 16 (used g)
  used-Ascending = take-Ascending (length (absent g)) 0 16 (rows_from 0 gen.parities) (
      widen 0 (0 + length gen.parities) 16 _ (omega (arith, g.row_count))
        (rows_from-Ascending 0 gen.parities))

  absent-Ascending : Ascending 0 gen.k (absent g)
  absent-Ascending =
      widen 0 (0 + gen.k) gen.k (absent g) (omega arith)
        (absent_from-Ascending gen.k 0 gen.received)

  whole_frame : (r : ℕ) → r < length (absent g) → IsFrame max_len (frame g (get_or (absent g) r 0))
  whole_frame r lt =
      nth-IsFrame max_len frames (get_or (absent g) r 0) g.all_frames
        (omega (arith, g.count, get_or-Ascending 0 gen.k (absent g) r absent-Ascending lt))

  -- The elimination gives the padded blocks of the missing frames.
  solve_lem :
      (solved : List Row) × (solve gen (absent g) (used g) ≡ some solved)
      × (length solved ≡ length (absent g))
      × ((r : ℕ)
          → r < length (absent g)
          → (row_at solved r).rhs ≡ protected_frame (frame g (get_or (absent g) r 0)) max_len)
  unfolding solve
  solve_lem =
      let check : ℕ → List Row → Option (List Row) =
        λ w rows. if lengths_ok w rows then some rows else none in
      let reduce : List Row → Option (List Row) =
        λ system. eliminate (length (absent g)) 0 system in
      let (solved, run, is, right) =
        recovers_content (holds g) (used g) used-Ascending absent-Ascending square
          (used_parity g) in
      let wide : length (get_or gen.parities (get_or (used g) 0 0) []) ≡ max_len + 2 =
        (let first = used_parity g 0 (omega (arith, square)) in first.wide) in
      let block : (r : ℕ)
          → r < length (absent g)
          → (row_at solved r).rhs ≡ protected_frame (frame g (get_or (absent g) r 0)) max_len =
        λ r lt.
          let f = whole_frame r lt in
          let size = length-protected_frame (frame g (get_or (absent g) r 0)) max_len f.within in
          list_ext _ _ (is.widths r lt ∙ sym size) (λ t lt_t. right r t lt (omega (arith, size))) in
      let ok = lengths_ok_lem max_len solved g.max_len-le (λ r lt.
        let lr : r < length (absent g) = omega (arith, is.count) in
        (frame g (get_or (absent g) r 0), whole_frame r lr, block r lr)) in
      (
        solved,
        ap (λ w. build_rows gen w (absent g) (used g) >>= λ system. reduce system >>= check w) wide
            ∙ bind_both (build_rows gen (max_len + 2) (absent g) (used g)) reduce
                (check (max_len + 2)) solved run
            ∙ ap (λ b. if b then some solved else none) ok,
        is.count,
        block,
      )

  recovers :
      (now_ns : ℕ) (d : Decoder) (log : List (List ℕ))
      → gen.parity_received ≡ true
      → gen.recovered ≡ false
      → let result = try_recover accept gen now_ns d log in
        (result.0 ≡ true) × (result.1.1.1 ≡ log ++ map (frame g) (absent g))
  unfolding try_recover finish_recovery
  recovers now_ns d log here fresh =
      let (solved, run, count, block) = solve_lem in
      let some_k : (gen.k == 0) ≡ false =
        ground (arith, get_or-Ascending 0 gen.k (absent g) 0 (absent-Ascending) missing) in
      let some_absent : (length (absent g) == 0) ≡ false = ground arith in
      let rows_enough : ltb (length (rows_from 0 gen.parities)) (length (absent g)) ≡ false =
        ground arith in
      let (after, counted, published) =
        publish_recovered_lem (frame g) (absent g) solved gen d.counters log count (λ r lt.
          ap (λ b. take (get_u16 b) (drop 2 b)) (block r lt)
          ∙ block_frame (frame g (get_or (absent g) r 0)) max_len
              (let f = whole_frame r lt in omega (arith, f.within, g.max_len-le))) in
      simp (here, fresh, some_k, some_absent, rows_enough, run, published) (refl, refl)

-- A generation of at most 128 frames that misses no more of them than it has parity rows of the encoder, has not
-- recovered yet and has some parity: `try_recover`, with a callback that accepts every frame, returns true and
-- publishes exactly the missing frames, byte for byte, in the order of their numbers.
pub try_recover-publishes :
    {max_len : ℕ} {frames : List (List ℕ)} {gen : Generation}
    → IsPartOf max_len frames gen
    → length (absent_from gen.k 0 gen.received) ≤ length (rows_from 0 gen.parities)
    → gen.parity_received ≡ true
    → gen.recovered ≡ false
    → (now_ns : ℕ) (d : Decoder) (log : List (List ℕ))
    → ((try_recover accept gen now_ns d log).0 ≡ true)
      × ((try_recover accept gen now_ns d log).1.1.1
          ≡ log ++ map (λ i. get_or frames i []) (absent_from gen.k 0 gen.received))
try_recover-publishes {max_len} {frames} {gen} g enough here fresh now_ns d log =
    elim (dec_lt 0 (length (absent_from gen.k 0 gen.received))) [
      | yes missing ↦ recovers g enough missing now_ns d log here fresh
      | no complete ↦ nothing_missing (absent_from gen.k 0 gen.received) refl (omega arith)
    ]
  where
    nothing_missing :
        (is : List ℕ)
        → absent_from gen.k 0 gen.received ≡ is
        → length is ≡ 0
        → ((try_recover accept gen now_ns d log).0 ≡ true)
          × ((try_recover accept gen now_ns d log).1.1.1 ≡ log ++ map (λ i. get_or frames i []) is)
    nothing_missing (i ∷ is) e none_left = absurd (omega arith)
    nothing_missing [] e none_left =
        let idle = complete_idle gen now_ns d log e in
        (ap (λ r. r.0) idle, ap (λ r. r.1.1.1) idle ∙ sym (append-nil log))
