-- ===== src/ShmRing/Safe.antt =====
-- The invariant of a reader that joined in time and reads in order, and that its reads keep it.
use low_latency_udp_fanout.Common.{
  ℕ, suc, ◌+◌, ◌-◌, ◌^◌, ◌≤◌, ◌<◌, ◌≡◌, ◌≢◌, refl, sym, ap, ◌∙◌, Bool, true, false, List, [], ◌∷◌,
  ◌++◌, some, length, get_or, arith, length-append, get_or-set_self, length-set, u64,
}
use low_latency_udp_fanout.ShmRing.{
  Ring, free_reader, slot_at, FrameStatus, ok, empty, lapped, corrupt, read, move_cursor, inspect,
}
use low_latency_udp_fanout.ShmRing.Registry.{reader_of, SameReader}
use low_latency_udp_fanout.ShmRing.Recall.{recall, inspect-recall}
use low_latency_udp_fanout.ShmRing.Frames.{SameFrames, move_cursor-SameFrames}
use low_latency_udp_fanout.ShmRing.History.{frame_number, Held, Held-SameFrames}
use low_latency_udp_fanout.ShmRing.System.{collect}

pub record Safe (count r : ℕ) (frames got : List (List ℕ)) (ring : Ring) (c : Bool) : Type 0 where
  pub held : Held count frames ring
  pub policy : ring.backpressure ≡ true
  pub inside : r < length ring.readers
  pub registered : (reader_of ring r).pid ≢ 0
  pub pending : List (List ℕ)
  pub in_order : frames ≡ pending ++ got
  pub position : (reader_of ring r).cursor ≡ length got
  pub near : length frames ≤ length got + count
  pub room : c ≡ true → length frames < length got + count

pub Safe-SameReader :
    {count r : ℕ} {frames got : List (List ℕ)} {ring ring' : Ring} {c : Bool}
    → SameReader r ring ring'
    → SameFrames ring ring'
    → Safe count r frames got ring c
    → Safe count r frames got ring' c
Safe-SameReader s f v = record {
  held = Held-SameFrames f v.held;
  policy = s.same_policy ∙ v.policy;
  inside = omega (arith, s.same_length, v.inside);
  registered = rw s.same_entry v.registered;
  pending = v.pending;
  in_order = v.in_order;
  position = ap (λ e. e.cursor) s.same_entry ∙ v.position;
  near = v.near;
  room = v.room;
}

-- The oldest pending frame is the next one to be read.
oldest_of :
    (x : List ℕ) (pending got : List (List ℕ))
    → (rest : List (List ℕ)) × ((x ∷ pending) ++ got
        ≡ rest ++ (get_or ((x ∷ pending) ++ got) (length pending) [] ∷ got))
oldest_of x [] got = ([], refl)
oldest_of x (y ∷ pending) got =
    let (rest, e) = oldest_of y pending got in (x ∷ rest, ap (λ fs. x ∷ fs) e)

oldest :
    (pending got : List (List ℕ)) (k : ℕ)
    → length pending ≡ suc k
    → (rest : List (List ℕ)) × (pending ++ got ≡ rest ++ (get_or (pending ++ got) k [] ∷ got))
oldest [] got k h = absurd (omega arith)
oldest (x ∷ pending) got k h =
    let e : length pending ≡ k = omega (arith, h) in rw (← e) (oldest_of x pending got)

recall-ok :
    (h : ℕ → List ℕ) (count w i : ℕ) (bytes : List ℕ)
    → ok bytes ≡ recall h count w i
    → (i < w) × (h i ≡ bytes)
unfolding recall
recall-ok h count w i bytes e = ground arith

module _ {count r : ℕ} {frames got : List (List ℕ)} {ring : Ring} {c : Bool}
    (v : Safe count r frames got ring c) where
  moved-ok :
      (bytes : List ℕ)
      → length frames < 2 ^ 64
      → ok bytes ≡ recall (frame_number frames) count (length frames) (reader_of ring r).cursor
      → Safe count r frames
          (bytes ∷ got)
          (move_cursor (some r) (reader_of ring r).cursor (ok bytes) ring)
          c
  unfolding move_cursor
  moved-ok bytes bound e =
      let (ahead, next) =
        recall-ok (frame_number frames) count (length frames) (reader_of ring r).cursor bytes e in
      let sum : length frames ≡ length v.pending + length got =
        ap length v.in_order ∙ length-append v.pending got in
      let newest : ℕ = length frames - 1 - (reader_of ring r).cursor in
      let (rest, split) = oldest v.pending got newest (omega (arith, sum, v.position, ahead)) in
      let here : reader_of (move_cursor (some r) (reader_of ring r).cursor (ok bytes) ring) r
          ≡ record (reader_of ring r) { cursor = u64 ((reader_of ring r).cursor + 1) } =
        get_or-set_self ring.readers r _ free_reader v.inside in
      record {
        held =
            Held-SameFrames
              (move_cursor-SameFrames (some r) (reader_of ring r).cursor (ok bytes) ring) v.held;
        policy = v.policy;
        inside = rw length-set v.inside;
        registered = rw here v.registered;
        pending = rest;
        in_order =
            v.in_order
            ∙ split
            ∙ ap (λ b. rest ++ (b ∷ got)) (ap (λ fs. get_or fs newest []) (sym v.in_order) ∙ next);
        position = ap (λ e. e.cursor) here ∙ omega (arith, v.position, ahead, bound);
        near = omega (arith, v.near);
        room = λ e. omega (arith, v.room e);
      }

  moved :
      (status : FrameStatus)
      → length frames < 2 ^ 64
      → status ≡ recall (frame_number frames) count (length frames) (reader_of ring r).cursor
      → Safe count r frames
          (collect status got)
          (move_cursor (some r) (reader_of ring r).cursor status ring)
          c
  unfolding move_cursor
  moved (ok bytes) bound e = moved-ok bytes bound e
  moved (lapped resume) bound e = v
  moved empty bound e = v
  moved corrupt bound e = v

  pub recalled :
      length frames < 2 ^ 64 - 1
      → inspect ring (reader_of ring r).cursor (slot_at ring (reader_of ring r).cursor)
        ≡ recall (frame_number frames) count (length frames) (reader_of ring r).cursor
  recalled bound =
      let sum : length frames ≡ length v.pending + length got =
        ap length v.in_order ∙ length-append v.pending got in
      rw (← v.held.same_count, ← v.held.index)
        (inspect-recall v.held.holds (reader_of ring r).cursor
          (omega (arith, sum, v.position, bound)))

  pub read_next-Safe :
      (locked : Bool)
      → length frames < 2 ^ 64 - 1
      → Safe count r frames
          (collect (read (some r) locked (reader_of ring r).cursor ring).0 got)
          (read (some r) locked (reader_of ring r).cursor ring).1
          c
  unfolding read
  read_next-Safe true bound = moved _ (omega (arith, bound)) (recalled bound)
  read_next-Safe false bound = v
