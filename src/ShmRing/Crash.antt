-- ===== src/ShmRing/Crash.antt =====
-- A producer that dies while it copies a frame, with the lock of the slot held.
use low_latency_udp_fanout.Common.{
  ap, ℕ, ◌+◌, ◌%◌, ◌^◌, ◌<◌, ◌≡◌, ◌≢◌, refl, ◌∙◌, true, List, Option, bit_and, ◌==◌, if◌then◌else◌,
  length, set, arith, get_or-set_self, get_or-set_ne, length-set,
}
use native.Mathlib.Decide.{ℕ_discrete}
use low_latency_udp_fanout.ShmRing.{
  Ring, Slot, blank_slot, slot_at, empty, read, inspect, invalidate,
}
use low_latency_udp_fanout.ShmRing.Holds.{IsShaped, place, place-lt}
use low_latency_udp_fanout.ShmRing.Recall.{recall, inspect-recall}
use low_latency_udp_fanout.ShmRing.History.{History, frame_number, History-Held}

-- A death inside the memcpy of `publish`: the slot was invalidated, and its buffer is whatever the copy left there. A
-- death between the two stores behind the copy is not modelled.
unfoldable pub crashed : Ring → List ℕ → Ring
unfolding invalidate
crashed ring torn = record (invalidate ring) {
  slots =
      set (invalidate ring).slots (bit_and ring.write_index ring.mask)
        (record (slot_at (invalidate ring) ring.write_index) { frame = torn });
}

invalidated_seq :
    (ring : Ring) → IsShaped ring → (slot_at (invalidate ring) ring.write_index).seq ≡ 0
unfolding invalidate
invalidated_seq ring s =
    ap (λ slot. slot.seq)
      (get_or-set_self ring.slots (bit_and ring.write_index ring.mask)
        (record (slot_at ring ring.write_index) { seq = 0; frame_len = 0 }) blank_slot
        (place-lt s ring.write_index))

crashed_slot :
    (ring : Ring) (torn : List ℕ) (i : ℕ)
    → IsShaped ring
    → bit_and ring.write_index ring.mask ≡ bit_and i ring.mask
    → (slot_at (crashed ring torn) i).seq ≡ 0
unfolding crashed invalidate
crashed_slot ring torn i s same = rw (← same) (
    ap (λ slot. slot.seq)
      (get_or-set_self (invalidate ring).slots (bit_and ring.write_index ring.mask) _ blank_slot
        (rw length-set (place-lt s ring.write_index)))
    ∙ invalidated_seq ring s)

other_slot :
    (ring : Ring) (torn : List ℕ) (i : ℕ)
    → bit_and ring.write_index ring.mask ≢ bit_and i ring.mask
    → slot_at (crashed ring torn) i ≡ slot_at ring i
unfolding crashed invalidate
other_slot ring torn i ne =
    get_or-set_ne (invalidate ring).slots (bit_and ring.write_index ring.mask) (bit_and i ring.mask)
      _ blank_slot ne
    ∙ get_or-set_ne ring.slots (bit_and ring.write_index ring.mask) (bit_and i ring.mask) _
        blank_slot ne

inspect-crashed :
    (ring : Ring) (torn : List ℕ) (i : ℕ) (slot : Slot)
    → inspect (crashed ring torn) i slot ≡ inspect ring i slot
unfolding crashed invalidate inspect
inspect-crashed ring torn i slot = refl

inspect-blank :
    (ring : Ring) (i : ℕ) (slot : Slot)
    → slot.seq ≡ 0
    → i + 1 < 2 ^ 64
    → inspect ring i slot ≡ empty
unfolding inspect
inspect-blank ring i slot e near = ground (arith, e)

-- After a producer died in the middle of its copy, every read of the slot it was filling is empty,
-- whatever bytes it left there, and every other slot reads as before, for fewer than 2 ^ 64 frames
-- and an index that has a successor below it.
pub read-crashed :
    {count : ℕ} {frames : List (List ℕ)} {ring : Ring} (torn : List ℕ)
    → History count frames ring
    → length frames < 2 ^ 64
    → (reader : Option ℕ) (i : ℕ) → i + 1 < 2 ^ 64
    → (read reader true i (crashed ring torn)).0 ≡ (
        if length frames % count == i % count
        then empty
        else recall (frame_number frames) count (length frames) i)
unfolding read
read-crashed {count} {frames} {ring} torn past room reader i near =
    let v = History-Held past room in
    let here = place v.holds.shape ring.write_index in
    let there = place v.holds.shape i in
    rw (inspect-crashed ring torn i, ← v.same_count, ← v.index)
      (elim (ℕ_discrete (bit_and ring.write_index ring.mask) (bit_and i ring.mask)) [
        | yes same ↦
            inspect-blank ring i _ (crashed_slot ring torn i v.holds.shape same) near
            ∙ ground (arith, here, there, same)
        | no ne ↦
            rw (other_slot ring torn i ne)
              (inspect-recall v.holds i near ∙ ground (arith, here, there, ne))
      ])
