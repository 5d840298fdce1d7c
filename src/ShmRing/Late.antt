-- ===== src/ShmRing/Late.antt =====
-- A reader that attaches to a full ring and starts at its live edge (`--from-edge`).
use low_latency_udp_fanout.Common.{
  ℕ, ◌+◌, ◌-◌, ◌^◌, ◌≤◌, ◌<◌, ◌≡◌, ◌≢◌, refl, ap, ◌∙◌, Bool, true, false, List, some, length, arith,
  get_or-set_self, length-set,
}
use low_latency_udp_fanout.ShmRing.{
  Ring, free_reader, slot_at, FrameStatus, empty, returns, attach, register, read, move_cursor,
  inspect, has_room,
}
use low_latency_udp_fanout.ShmRing.Registry.{reader_of, has_room-blocked, first_free-inside}
use low_latency_udp_fanout.ShmRing.Recall.{recall, inspect-recall}
use low_latency_udp_fanout.ShmRing.Frames.{attach-inv}
use low_latency_udp_fanout.ShmRing.History.{History, Held, History-Held, attached}

attach-inside :
    (aligned : Bool) (count sizeof_slot pid s : ℕ) (ring : Ring) {ring' : Ring}
    → attach aligned count sizeof_slot pid ring ≡ returns (s, ring')
    → s < length ring.readers
unfolding attach
attach-inside aligned count sizeof_slot pid s ring e =
    first_free-inside ring.readers s (ground arith)

register-blocked :
    (ring : Ring) (s pid : ℕ)
    → ring.backpressure ≡ true
    → ring.slot_count ≤ ring.write_index
    → s < length ring.readers
    → pid ≢ 0
    → has_room (register ring s pid) (register ring s pid).readers ≡ false
register-blocked ring s pid policy full inside live =
    let here : reader_of (register ring s pid) s ≡ record { pid = pid; cursor = 0 } =
      get_or-set_self ring.readers s _ free_reader inside in
    has_room-blocked (register ring s pid) s policy full (rw length-set inside) (rw here live)
      (rw here (omega arith))

read-edge :
    {count : ℕ} {frames : List (List ℕ)} (ring : Ring) (s : ℕ) (locked : Bool)
    → Held count frames ring
    → ring.write_index + 1 < 2 ^ 64
    → read (some s) locked ring.write_index ring ≡ (empty, ring)
unfolding read recall move_cursor
read-edge ring s false v bound = refl
read-edge {count} {frames} ring s true v bound =
    ap (λ st. (st, move_cursor (some s) ring.write_index st ring)) at_edge ∙ stays
  where
    at_edge : inspect ring ring.write_index (slot_at ring ring.write_index) ≡ empty
    at_edge = inspect-recall v.holds ring.write_index bound ∙ ground arith

    stays :
        ◌≡◌ {A = FrameStatus × Ring}
          (empty, move_cursor (some s) ring.write_index empty ring)
          (empty, ring)
    stays = refl

-- With back-pressure on, once a reader has attached to a ring that is full, the producer has no
-- room, and a read of that reader at the live edge is empty and changes nothing. The
-- reader has a pid that is not 0, and fewer than 2 ^ 64 - 1 frames were published.
pub late_reader_blocks :
    {count : ℕ} {frames : List (List ℕ)} {ring ring' : Ring} (aligned : Bool)
    (sizeof_slot pid s : ℕ) (locked : Bool)
    → History count frames ring
    → ring.backpressure ≡ true
    → count ≤ length frames
    → length frames < 2 ^ 64 - 1
    → pid ≢ 0
    → attach aligned count sizeof_slot pid ring ≡ returns (s, ring')
    → (has_room ring' ring'.readers ≡ false)
      × (read (some s) locked ring'.write_index ring' ≡ (empty, ring'))
late_reader_blocks {count} {frames} {ring} {ring'} aligned sizeof_slot pid s locked past policy full
      bound live e =
    let v = History-Held past (omega arith) in
    let v' = History-Held (attached aligned sizeof_slot pid s past e) (omega arith) in
    let same = attach-inv aligned count sizeof_slot pid s ring e in
    (
      rw same (
          register-blocked ring s pid policy (omega (arith, v.index, v.same_count))
            (attach-inside aligned count sizeof_slot pid s ring e) live),
      read-edge ring' s locked v' (omega (arith, v'.index)),
    )
