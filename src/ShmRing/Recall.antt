-- ===== src/ShmRing/Recall.antt =====
-- What a reader finds at an index: the frame, that it is still to come, or that it is overwritten.
use low_latency_udp_fanout.Common.{
  ℕ, ◌+◌, ◌-◌, ◌*◌, ◌/◌, ◌%◌, ◌^◌, ◌≤◌, ◌<◌, ◌≡◌, ◌⊎◌, inl, inr, sym, ap, ◌∙◌, List, ltb, leb,
  if◌then◌else◌, get_or, take, arith,
}
use native.Mathlib.Nat.{div-add-mod, mod-lt, mul_comm, mod-mod, add-mul-mod_self_right}
use native.Mathlib.Decide.{dec_lt}
use low_latency_udp_fanout.ShmRing.{
  Ring, blank_slot, slot_at, inspect, FrameStatus, ok, empty, lapped,
}
use low_latency_udp_fanout.ShmRing.Holds.{count_pos, place, Holds}

-- The abstract ring: the last `count` of `w` frames can be read.
unfoldable pub recall : (ℕ → List ℕ) → ℕ → ℕ → ℕ → FrameStatus
recall h count w i =
    if leb w i then empty else if ltb (i + count) w then lapped (w - count) else ok (h i)

-- The last number with the residue of `i` that was written, or its first place in the ring.
record Latest (count w i : ℕ) : Type 0 where
  pub at : ℕ
  pub residue : at % count ≡ i % count
  pub last : ((at < w) × (w ≤ at + count)) ⊎ ((w ≤ at) × (at < count))

latest : (count w i : ℕ) → 1 ≤ count → Latest count w i
latest count w i pos = elim (dec_lt (i % count) w) [
  | yes written ↦ record {
    at = i % count + (w - 1 - i % count) / count * count;
    residue = add-mul-mod_self_right _ _ _ ∙ mod-mod i count;
    last = inl (omega (arith, bounds), omega (arith, bounds));
  }
  | no fresh ↦ record {
    at = i % count;
    residue = mod-mod i count;
    last = inr (omega arith, mod-lt i pos);
  }
]
  where
    bounds :
        ((w - 1 - i % count) / count * count + (w - 1 - i % count) % count ≡ w - 1 - i % count)
        × ((w - 1 - i % count) % count < count)
    bounds = (
      omega (
        arith,
        div-add-mod (w - 1 - i % count) count,
        mul_comm count ((w - 1 - i % count) / count),
      ),
      mod-lt _ pos,
    )

module _ {h : ℕ → List ℕ} {ring : Ring} (v : Holds h ring) where
  same_slot :
      (i j : ℕ) → j % ring.slot_count ≡ i % ring.slot_count → slot_at ring j ≡ slot_at ring i
  same_slot i j e =
      ap (λ p. get_or ring.slots p blank_slot) (place v.shape j ∙ e ∙ sym (place v.shape i))

  -- The slot of an index that is not written yet holds an earlier number.
  seq-ahead : (i : ℕ) → ring.write_index ≤ i → (slot_at ring i).seq ≤ i
  seq-ahead i ahead =
      let l = latest ring.slot_count ring.write_index i (count_pos v.shape) in
      let same : slot_at ring l.at ≡ slot_at ring i = same_slot i l.at l.residue in
      elim l.last [
        | inl (lt, near) ↦ omega (arith, ap (λ s. s.seq) same, (v.written l.at lt near).seq)
        | inr (le, lt) ↦ omega (arith, ap (λ s. s.seq) same, v.fresh l.at le lt)
      ]

  -- The slot of an index that was overwritten holds a later number.
  seq-behind : (i : ℕ) → i + ring.slot_count < ring.write_index → i + 1 < (slot_at ring i).seq
  seq-behind i behind =
      let l = latest ring.slot_count ring.write_index i (count_pos v.shape) in
      let same : slot_at ring l.at ≡ slot_at ring i = same_slot i l.at l.residue in
      elim l.last [
        | inl (lt, near) ↦ omega (arith, ap (λ s. s.seq) same, (v.written l.at lt near).seq)
        | inr (le, lt) ↦ absurd (omega arith)
      ]

  pub inspect-recall :
      (i : ℕ)
      → i + 1 < 2 ^ 64
      → inspect ring i (slot_at ring i) ≡ recall h ring.slot_count ring.write_index i
  unfolding inspect recall
  inspect-recall i room = elim (dec_lt i ring.write_index) [
    | no ahead ↦ ground (arith, seq-ahead i (omega arith))
    | yes written ↦ elim (dec_lt (i + ring.slot_count) ring.write_index) [
      | yes behind ↦ ground (arith, seq-behind i behind)
      | no held ↦
          let c = v.written i written (omega arith) in
          let sized = v.sized i written in
          let slot : take (slot_at ring i).frame_len (slot_at ring i).frame ≡ h i =
            ap (λ n. take n (slot_at ring i).frame) c.len ∙ c.begins in
          ground (arith, c.seq, c.len, slot, sized)
    ]
  ]
