-- ===== src/ShmRing/Holds.antt =====
-- What the slots of a ring hold: the last frames that were written, each at its residue.
use low_latency_udp_fanout.Common.{
  ℕ, ◌+◌, ◌-◌, ◌%◌, ◌^◌, ◌≤◌, ◌<◌, ◌≡◌, ◌≢◌, refl, sym, ◌∙◌, List, bit_and, length, set, take,
  arith, length-set, get_or-set_self, get_or-set_ne, take-append_length,
}
use low_latency_udp_fanout.Common.Bits.{and_mask}
use low_latency_udp_fanout.Common.Modular.{same_residue}
use native.Mathlib.Nat.{mod-lt, one-le-pow}
use native.Mathlib.Decide.{dec_lt}
use low_latency_udp_fanout.ShmRing.{
  Ring, Slot, blank_slot, slot_at, filled, frame_cap, invalidate, fill, write,
}

pub record IsShaped (ring : Ring) : Type 0 where
  pub exponent : ℕ
  pub count_pow : ring.slot_count ≡ 2 ^ exponent
  pub mask_low : ring.mask ≡ ring.slot_count - 1
  pub whole : length ring.slots ≡ ring.slot_count

pub count_pos : {ring : Ring} → IsShaped ring → 1 ≤ ring.slot_count
count_pos s = omega (arith, s.count_pow, one-le-pow s.exponent 2 (omega arith))

pub place : {ring : Ring} → IsShaped ring → (i : ℕ) → bit_and i ring.mask ≡ i % ring.slot_count
place s i = rw (s.mask_low, s.count_pow) (and_mask s.exponent i)

pub place-lt : {ring : Ring} (s : IsShaped ring) (i : ℕ) → bit_and i ring.mask < length ring.slots
place-lt s i = rw (place s i, s.whole) (mod-lt i (count_pos s))

-- Two indices less than a ring apart have different slots.
pub place-ne :
    {ring : Ring} (s : IsShaped ring) (i j : ℕ)
    → i < j
    → j < i + ring.slot_count
    → bit_and i ring.mask ≢ bit_and j ring.mask
place-ne {ring} s i j lt near e =
    omega
      (arith, same_residue ring.slot_count i j (omega arith) near (sym (place s i) ∙ e ∙ place s j))

pub record Contains (bytes : List ℕ) (i : ℕ) (slot : Slot) : Type 0 where
  pub seq : slot.seq ≡ i + 1
  pub len : slot.frame_len ≡ length bytes
  pub begins : take (length bytes) slot.frame ≡ bytes

-- `h i` is the frame that was published as number `i`.
pub record Holds (h : ℕ → List ℕ) (ring : Ring) : Type 0 where
  pub shape : IsShaped ring
  pub sized : (i : ℕ) → i < ring.write_index → (1 ≤ length (h i)) × (length (h i) ≤ frame_cap)
  pub written :
      (i : ℕ)
      → i < ring.write_index
      → ring.write_index ≤ i + ring.slot_count
      → Contains (h i) i (slot_at ring i)
  pub fresh : (i : ℕ) → ring.write_index ≤ i → i < ring.slot_count → (slot_at ring i).seq ≡ 0

write_self :
    (ring : Ring) (bytes : List ℕ)
    → IsShaped ring
    → ring.write_index + 1 < 2 ^ 64
    → Contains bytes ring.write_index (slot_at (write ring bytes) ring.write_index)
unfolding write invalidate fill
write_self ring bytes s room =
    let e : slot_at (write ring bytes) ring.write_index
        ≡ filled ring.write_index bytes (slot_at (invalidate ring) ring.write_index) =
      get_or-set_self (invalidate ring).slots (bit_and ring.write_index ring.mask) _ blank_slot
        (rw length-set (place-lt s ring.write_index)) in
    rw e (record { seq = omega arith; len = refl; begins = take-append_length bytes _ })

write_other :
    (ring : Ring) (bytes : List ℕ) (i : ℕ)
    → bit_and ring.write_index ring.mask ≢ bit_and i ring.mask
    → slot_at (write ring bytes) i ≡ slot_at ring i
unfolding write invalidate fill
write_other ring bytes i ne =
    get_or-set_ne (set ring.slots (bit_and ring.write_index ring.mask) _)
      (bit_and ring.write_index ring.mask) (bit_and i ring.mask) _ blank_slot ne
    ∙ get_or-set_ne ring.slots (bit_and ring.write_index ring.mask) (bit_and i ring.mask) _
        blank_slot ne

write-IsShaped : (ring : Ring) (bytes : List ℕ) → IsShaped ring → IsShaped (write ring bytes)
unfolding write invalidate fill
write-IsShaped ring bytes s = record {
  exponent = s.exponent;
  count_pow = s.count_pow;
  mask_low = s.mask_low;
  whole = length-set _ _ _ ∙ length-set _ _ _ ∙ s.whole;
}

pub write_index-write :
    (ring : Ring) (bytes : List ℕ)
    → ring.write_index + 1 < 2 ^ 64
    → (write ring bytes).write_index ≡ ring.write_index + 1
unfolding write invalidate fill
write_index-write ring bytes room = omega arith

pub slot_count-write :
    (ring : Ring) (bytes : List ℕ) → (write ring bytes).slot_count ≡ ring.slot_count
unfolding write invalidate fill
slot_count-write ring bytes = refl

module _ (h : ℕ → List ℕ) (ring : Ring) (bytes : List ℕ) (v : Holds h ring)
    (room : ring.write_index + 1 < 2 ^ 64) (nonempty : 1 ≤ length bytes)
    (fits : length bytes ≤ frame_cap) (h' : ℕ → List ℕ) (new : h' ring.write_index ≡ bytes)
    (old : (i : ℕ) → i < ring.write_index → h' i ≡ h i) where
  -- A write adds its frame to the history.
  pub write-Holds : Holds h' (write ring bytes)
  write-Holds = record {
    shape = write-IsShaped ring bytes v.shape;
    sized = λ i lt.
        split (λ i. (1 ≤ length (h' i)) × (length (h' i) ≤ frame_cap)) (rw new (nonempty, fits))
          (λ i lt. rw (old i lt) (v.sized i lt)) i lt;
    written = λ i lt near.
        split
          (λ i.
            (write ring bytes).write_index ≤ i + (write ring bytes).slot_count
            → Contains (h' i) i (slot_at (write ring bytes) i))
          (λ near. rw new (write_self ring bytes v.shape room))
          (λ i lt near.
            rw
              (
                old i lt,
                write_other ring bytes i (λ e.
                    place-ne v.shape i ring.write_index lt (omega (arith, near, grown, same_count))
                      (sym e)),
              )
              (v.written i lt (omega (arith, near, grown, same_count))))
          i lt near;
    fresh = λ i le lt.
        rw
          (write_other ring bytes i (
            place-ne v.shape ring.write_index i (omega (arith, le, grown))
              (omega (arith, lt, same_count))))
          (v.fresh i (omega (arith, le, grown)) (omega (arith, lt, same_count)));
  }
    where
      grown : (write ring bytes).write_index ≡ ring.write_index + 1
      grown = write_index-write ring bytes room

      same_count : (write ring bytes).slot_count ≡ ring.slot_count
      same_count = slot_count-write ring bytes

      split :
          (P : ℕ → Type 0)
          → P ring.write_index
          → ((i : ℕ) → i < ring.write_index → P i)
          → (i : ℕ) → i < (write ring bytes).write_index
          → P i
      split P last before i lt = elim (dec_lt i ring.write_index) [
        | yes earlier ↦ before i earlier
        | no late ↦ let e : i ≡ ring.write_index = omega (arith, grown) in rw e last
      ]
