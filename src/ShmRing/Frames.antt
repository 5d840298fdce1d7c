-- ===== src/ShmRing/Frames.antt =====
-- Which operations change the frames of a ring, and what it takes for one to return.
use low_latency_udp_fanout.Common.{
  ℕ, ◌≤◌, ◌≡◌, refl, sym, ap, ◌∙◌, Bool, true, false, List, Option, none, some, length, arith,
}
use low_latency_udp_fanout.Util.{is_power_of_two}
use low_latency_udp_fanout.ShmRing.{
  Ring, ReaderState, slot_at, frame_cap, FrameStatus, ok, empty, lapped, corrupt, returns, create,
  blank_ring, attach, register, detach, set_backpressure, publish, write, read, move_cursor,
}
use low_latency_udp_fanout.ShmRing.Holds.{Holds}

pub record SameFrames (ring ring' : Ring) : Type 0 where
  pub slots : ring'.slots ≡ ring.slots
  pub mask : ring'.mask ≡ ring.mask
  pub count : ring'.slot_count ≡ ring.slot_count
  pub index : ring'.write_index ≡ ring.write_index

pub Holds-SameFrames :
    {h : ℕ → List ℕ} {ring ring' : Ring} → SameFrames ring ring' → Holds h ring → Holds h ring'
Holds-SameFrames {h} {ring} {ring'} s v = record {
  shape = record {
    exponent = v.shape.exponent;
    count_pow = s.count ∙ v.shape.count_pow;
    mask_low = omega (arith, s.mask, s.count, v.shape.mask_low);
    whole = ap length s.slots ∙ v.shape.whole ∙ sym s.count;
  };
  sized = λ i lt. v.sized i (omega (arith, s.index));
  written = λ i lt near.
      rw (same_slot i) (v.written i (omega (arith, s.index)) (omega (arith, s.index, s.count)));
  fresh = λ i le lt. rw (same_slot i) (v.fresh i (omega (arith, s.index)) (omega (arith, s.count)));
}
  where
    same_slot : (i : ℕ) → slot_at ring' i ≡ slot_at ring i
    same_slot i = rw (s.slots, s.mask) refl

pub register-SameFrames :
    (reader pid : ℕ) (ring : Ring) → SameFrames ring (register ring reader pid)
register-SameFrames reader pid ring = record {
  slots = refl;
  mask = refl;
  count = refl;
  index = refl;
}

pub detach-SameFrames : (reader : Option ℕ) (ring : Ring) → SameFrames ring (detach reader ring)
unfolding detach
detach-SameFrames none ring = record { slots = refl; mask = refl; count = refl; index = refl }
detach-SameFrames (some reader) ring = record {
  slots = refl;
  mask = refl;
  count = refl;
  index = refl;
}

pub move_cursor-SameFrames :
    (reader : Option ℕ) (index : ℕ) (status : FrameStatus) (ring : Ring)
    → SameFrames ring (move_cursor reader index status ring)
unfolding move_cursor
move_cursor-SameFrames none index status ring = record {
  slots = refl;
  mask = refl;
  count = refl;
  index = refl;
}
move_cursor-SameFrames (some reader) index (ok bytes) ring = record {
  slots = refl;
  mask = refl;
  count = refl;
  index = refl;
}
move_cursor-SameFrames (some reader) index (lapped resume) ring = record {
  slots = refl;
  mask = refl;
  count = refl;
  index = refl;
}
move_cursor-SameFrames (some reader) index empty ring = record {
  slots = refl;
  mask = refl;
  count = refl;
  index = refl;
}
move_cursor-SameFrames (some reader) index corrupt ring = record {
  slots = refl;
  mask = refl;
  count = refl;
  index = refl;
}

pub read-SameFrames :
    (reader : Option ℕ) (locked : Bool) (index : ℕ) (ring : Ring)
    → SameFrames ring (read reader locked index ring).1
unfolding read
read-SameFrames reader true index ring = move_cursor-SameFrames reader index _ ring
read-SameFrames reader false index ring = record {
  slots = refl;
  mask = refl;
  count = refl;
  index = refl;
}

pub attach-inv :
    (aligned : Bool) (count sizeof_slot pid reader : ℕ) (ring : Ring) {ring' : Ring}
    → attach aligned count sizeof_slot pid ring ≡ returns (reader, ring')
    → ring' ≡ register ring reader pid
unfolding attach
attach-inv aligned count sizeof_slot pid reader ring e = ground arith

pub set_backpressure-inv :
    (enabled : Bool) (ring : Ring) {ring' : Ring}
    → set_backpressure none enabled ring ≡ returns ring'
    → ring' ≡ record ring { backpressure = enabled }
unfolding set_backpressure
set_backpressure-inv enabled ring e = ground arith

pub publish-inv :
    (looks : List (List ReaderState)) (locked : Bool) (ring : Ring) (bytes : List ℕ) {ring' : Ring}
    → publish none looks locked ring bytes ≡ returns ring'
    → (ring' ≡ write ring bytes) × ((1 ≤ length bytes) × (length bytes ≤ frame_cap))
unfolding publish
publish-inv looks locked ring bytes e = ground arith

pub create-inv :
    (aligned : Bool) (count now : ℕ) (overwrite : Bool) (sizeof_slot : ℕ) {ring : Ring}
    → create aligned count now overwrite sizeof_slot ≡ returns ring
    → (ring ≡ blank_ring count now overwrite sizeof_slot) × (is_power_of_two count ≡ true)
unfolding create
create-inv aligned count now overwrite sizeof_slot e = ground arith
