-- ===== src/ShmRing/Tests.antt =====
-- A ring of two slots.
use low_latency_udp_fanout.Common.{
  ℕ, ◌%◌, ◌≤◌, ◌≡◌, refl, true, false, List, [], ◌∷◌, ◌++◌, none, some, ◌==◌, if◌then◌else◌, length,
  arith,
}
use low_latency_udp_fanout.Util.{is_power_of_two}
use low_latency_udp_fanout.ShmRing.{
  Ring, ok, empty, returns, create, blank_ring, blank_slot, attach, register, first_free, publish,
  has_room, look, wait_for_room, write, invalidate, fill, read, inspect, move_cursor,
}
use low_latency_udp_fanout.ShmRing.Recall.{recall}
use low_latency_udp_fanout.ShmRing.Registry.{reader_of}
use low_latency_udp_fanout.ShmRing.History.{
  History, created, published, attached, frame_number, read-History,
}
use low_latency_udp_fanout.ShmRing.System.{Run, joined, looked, wrote}
use low_latency_udp_fanout.ShmRing.Lossless.{lossless}
use low_latency_udp_fanout.ShmRing.Late.{late_reader_blocks}
use low_latency_udp_fanout.ShmRing.Crash.{crashed, read-crashed}

abbrev new_ring : Ring
new_ring = blank_ring 2 7 false 704

new_ring-History : History 2 [] new_ring
unfolding create is_power_of_two
new_ring-History = created true 7 false 704 refl

abbrev first : List ℕ
first = 10 ∷ 11 ∷ []

abbrev second : List ℕ
second = 20 ∷ []

abbrev third : List ℕ
third = 30 ∷ 31 ∷ 32 ∷ []

abbrev full_ring : Ring
full_ring = write (write new_ring first) second

full_ring-History : History 2 (second ∷ first ∷ []) full_ring
unfolding publish write invalidate fill blank_slot
full_ring-History = published [] true second (published [] true first new_ring-History refl) refl

-- Full, with no reader: the producer would wait for ever.
nobody_reads : wait_for_room full_ring (full_ring.readers ∷ full_ring.readers ∷ []) ≡ false
unfolding wait_for_room has_room look write invalidate fill blank_slot
nobody_reads = refl

second-read : (read none true 1 full_ring).0 ≡ ok second
unfolding read inspect move_cursor write invalidate fill blank_slot
second-read = refl

read-History_example :
    (read none true 0 full_ring).0 ≡ recall (frame_number (second ∷ first ∷ [])) 2 2 0
read-History_example = read-History full_ring-History (omega arith) none 0 (omega arith)

read-crashed_example :
    (read none true 2 (crashed full_ring third)).0
    ≡ (if 2 % 2 == 2 % 2 then empty else recall (frame_number (second ∷ first ∷ [])) 2 2 2)
read-crashed_example = read-crashed third full_ring-History (omega arith) none 2 (omega arith)

abbrev late_ring : Ring
late_ring = register full_ring 0 99

late_attach : attach true 2 704 99 full_ring ≡ returns (0, late_ring)
unfolding attach first_free is_power_of_two write invalidate fill blank_slot
late_attach = refl

late_reader_blocks_example :
    (has_room late_ring late_ring.readers ≡ false)
    × (read (some 0) true late_ring.write_index late_ring ≡ (empty, late_ring))
unfolding write invalidate fill blank_slot
late_reader_blocks_example =
    late_reader_blocks true 704 99 0 true full_ring-History refl (omega arith) (omega arith)
      (omega arith) late_attach

abbrev read_ring : Ring
read_ring = register new_ring 0 42

read_ring-History : History 2 [] read_ring
unfolding attach first_free is_power_of_two
read_ring-History = attached true 704 42 0 new_ring-History refl

one_written : Run 2 0 (first ∷ []) [] (write read_ring first) false
unfolding has_room
one_written =
    wrote first
      (looked (joined read_ring-History refl (omega arith) (omega arith) refl (omega arith)) refl)
      (omega arith) (omega arith)

lossless_example :
    (pending : List (List ℕ)) × ((first ∷ [] ≡ pending ++ [])
      × ((length pending ≤ 2)
          × ((read
                (some 0)
                true
                (reader_of (write read_ring first) 0).cursor
                (write read_ring first)).0
              ≡ (if length pending == 0 then empty else ok (frame_number (first ∷ []) 0)))))
lossless_example = lossless one_written (omega arith)
