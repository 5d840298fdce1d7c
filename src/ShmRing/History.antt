-- ===== src/ShmRing/History.antt =====
-- A ring with everything that was done to it, and what its readers can read.
use low_latency_udp_fanout.Common.{
  ℕ, suc, ◌+◌, ◌-◌, ◌^◌, ◌≤◌, ◌<◌, ◌≡◌, refl, ap, ◌∙◌, Bool, true, List, [], ◌∷◌, Option, none,
  bit_and, length, get_or, arith, length-replicate, get_or-replicate,
}
use low_latency_udp_fanout.Util.{is_power_of_two, is_power_of_two→pow}
use low_latency_udp_fanout.ShmRing.{
  Ring, ReaderState, blank_slot, frame_cap, returns, create, blank_ring, attach, detach,
  set_backpressure, publish, write, read,
}
use low_latency_udp_fanout.ShmRing.Holds.{Holds, write-Holds, write_index-write, slot_count-write}
use low_latency_udp_fanout.ShmRing.Frames.{
  SameFrames, Holds-SameFrames, register-SameFrames, detach-SameFrames, read-SameFrames, attach-inv,
  set_backpressure-inv, publish-inv, create-inv,
}
use low_latency_udp_fanout.ShmRing.Recall.{recall, inspect-recall}

-- Operations of any processes, in any order. The frames published so far, the last one first.
pub data History (count : ℕ) : List (List ℕ) → Ring → Type 0 where
  created :
      (aligned : Bool) (now : ℕ) (overwrite : Bool) (sizeof_slot : ℕ) {ring : Ring}
      → create aligned count now overwrite sizeof_slot ≡ returns ring
      → History count [] ring
  published :
      (looks : List (List ReaderState)) (locked : Bool) (bytes : List ℕ) {frames : List (List ℕ)}
      {ring ring' : Ring}
      → History count frames ring
      → publish none looks locked ring bytes ≡ returns ring'
      → History count (bytes ∷ frames) ring'
  attached :
      (aligned : Bool) (sizeof_slot pid reader : ℕ) {frames : List (List ℕ)} {ring ring' : Ring}
      → History count frames ring
      → attach aligned count sizeof_slot pid ring ≡ returns (reader, ring')
      → History count frames ring'
  detached :
      (reader : Option ℕ) {frames : List (List ℕ)} {ring : Ring}
      → History count frames ring
      → History count frames (detach reader ring)
  was_read :
      (reader : Option ℕ) (locked : Bool) (index : ℕ) {frames : List (List ℕ)} {ring : Ring}
      → History count frames ring
      → History count frames (read reader locked index ring).1
  policy_set :
      (enabled : Bool) {frames : List (List ℕ)} {ring ring' : Ring}
      → History count frames ring
      → set_backpressure none enabled ring ≡ returns ring'
      → History count frames ring'

-- Frame number `i`, of frames with the last one first.
abbrev pub frame_number : List (List ℕ) → ℕ → List ℕ
frame_number frames i = get_or frames (length frames - 1 - i) []

-- What no reader changes.
pub record Held (count : ℕ) (frames : List (List ℕ)) (ring : Ring) : Type 0 where
  pub holds : Holds (frame_number frames) ring
  pub index : ring.write_index ≡ length frames
  pub same_count : ring.slot_count ≡ count

pub Held-SameFrames :
    {count : ℕ} {frames : List (List ℕ)} {ring ring' : Ring}
    → SameFrames ring ring'
    → Held count frames ring
    → Held count frames ring'
Held-SameFrames s v = record {
  holds = Holds-SameFrames s v.holds;
  index = s.index ∙ v.index;
  same_count = s.count ∙ v.same_count;
}

blank_ring-Held :
    (count now : ℕ) (overwrite : Bool) (sizeof_slot : ℕ)
    → is_power_of_two count ≡ true
    → Held count [] (blank_ring count now overwrite sizeof_slot)
unfolding blank_slot
blank_ring-Held count now overwrite sizeof_slot e =
    let (k, pow) = is_power_of_two→pow count e in
    record {
      holds = record {
        shape = record {
          exponent = k;
          count_pow = pow;
          mask_low = refl;
          whole = length-replicate count blank_slot;
        };
        sized = λ i lt. absurd (omega arith);
        written = λ i lt near. absurd (omega arith);
        fresh =
            λ i le lt. ap (λ s. s.seq) (get_or-replicate count (bit_and i (count - 1)) blank_slot);
      };
      index = refl;
      same_count = refl;
    }

pub write-Held :
    {count : ℕ} {frames : List (List ℕ)} {ring : Ring} (bytes : List ℕ)
    → suc (length frames) < 2 ^ 64
    → 1 ≤ length bytes
    → length bytes ≤ frame_cap
    → Held count frames ring
    → Held count (bytes ∷ frames) (write ring bytes)
write-Held {count} {frames} {ring} bytes room nonempty fits v = record {
  holds =
      write-Holds (frame_number frames) ring bytes v.holds (omega (arith, v.index)) nonempty fits
        (frame_number (bytes ∷ frames)) newest older;
  index = omega (arith, write_index-write ring bytes, v.index);
  same_count = slot_count-write ring bytes ∙ v.same_count;
}
  where
    newest : frame_number (bytes ∷ frames) ring.write_index ≡ bytes
    newest =
        let e : suc (length frames) - 1 - ring.write_index ≡ 0 = omega (arith, v.index) in rw e refl

    older : (i : ℕ) → i < ring.write_index → frame_number (bytes ∷ frames) i ≡ frame_number frames i
    older i lt =
        let e : suc (length frames) - 1 - i ≡ suc (length frames - 1 - i) =
          omega (arith, v.index) in
        ap (λ k. get_or (bytes ∷ frames) k []) e

pub History-Held :
    {count : ℕ} {frames : List (List ℕ)} {ring : Ring}
    → History count frames ring
    → length frames < 2 ^ 64
    → Held count frames ring
History-Held (created aligned now overwrite sizeof_slot e) room =
    let (same, pow) = create-inv aligned _ now overwrite sizeof_slot e in
    rw same (blank_ring-Held _ now overwrite sizeof_slot pow)
History-Held (published looks locked bytes before e) room =
    let (same, sized) = publish-inv looks locked _ bytes e in
    rw same (write-Held bytes room sized.0 sized.1 (History-Held before (omega arith)))
History-Held (attached aligned sizeof_slot pid reader before e) room =
    rw (attach-inv aligned _ sizeof_slot pid reader _ e)
      (Held-SameFrames (register-SameFrames reader pid _) (History-Held before room))
History-Held (detached reader before) room =
    Held-SameFrames (detach-SameFrames reader _) (History-Held before room)
History-Held (was_read reader locked index before) room =
    Held-SameFrames (read-SameFrames reader locked index _) (History-Held before room)
History-Held (policy_set enabled before e) room = rw (set_backpressure-inv enabled _ e) (
    Held-SameFrames (record { slots = refl; mask = refl; count = refl; index = refl })
      (History-Held before room))

-- Whatever processes did to a ring, a reader that gets the lock of the slot finds at an index the
-- frame with that number, if it was published and is among the last `count` ones; that it is
-- empty, if it is still to come; and that it was lapped, with the oldest number that is held. The
-- number of frames is below 2 ^ 64, and the index has a successor below it.
pub read-History :
    {count : ℕ} {frames : List (List ℕ)} {ring : Ring}
    → History count frames ring
    → length frames < 2 ^ 64
    → (reader : Option ℕ) (i : ℕ) → i + 1 < 2 ^ 64
    → (read reader true i ring).0 ≡ recall (frame_number frames) count (length frames) i
unfolding read
read-History {count} {frames} {ring} past room reader i near =
    let v = History-Held past room in rw (← v.same_count, ← v.index) (inspect-recall v.holds i near)
