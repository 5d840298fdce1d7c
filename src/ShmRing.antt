-- ===== src/ShmRing.antt =====
-- harness/include/shm_ring.h: the ring of frames in shared memory, with its registry of readers.
-- One process creates the ring and publishes; the others attach as readers. A Ring is the shared
-- memory; which reader a process is, is passed to the operations (`none` for the creator).
pub mod Holds
pub mod Recall
pub mod Frames
pub mod History
pub mod Registry
pub mod System
pub mod Safe
pub mod Lossless
pub mod Late
pub mod Crash
mod Tests
use low_latency_udp_fanout.Common.{
  ℕ, zero, suc, ◌+◌, ◌-◌, ◌^◌, Bool, true, false, not, ◌||◌, ◌&&◌, List, [], ◌∷◌, ◌++◌, Option,
  none, some, bit_and, ltb, leb, ◌==◌, if◌then◌else◌, length, get_or, set, take, drop, replicate,
  u64,
}
use low_latency_udp_fanout.Message.{max_native_frame}
use low_latency_udp_fanout.Util.{is_power_of_two}

abbrev pub frame_cap : ℕ
frame_cap = max_native_frame

abbrev pub max_readers : ℕ
max_readers = 64

abbrev pub ring_magic : ℕ
ring_magic = 0x53484d31

abbrev pub layout : ℕ
layout = 3

pub data Exception : Type 0 where
  invalid_argument length_error logic_error runtime_error : Exception

pub data Outcome (A : Type 0) : Type 0 where
  returns : A → Outcome A
  throws : Exception → Outcome A

pub record Slot : Type 0 where
  pub seq : ℕ
  pub frame_len : ℕ
  pub frame : List ℕ

pub record ReaderState : Type 0 where
  pub pid : ℕ
  pub cursor : ℕ

pub record Ring : Type 0 where
  pub magic : ℕ
  pub layout_version : ℕ
  pub epoch : ℕ
  pub readers : List ReaderState
  pub slot_count : ℕ
  pub slot_size : ℕ
  pub backpressure : Bool
  pub write_index : ℕ
  pub slots : List Slot
  pub mask : ℕ

unfoldable pub blank_slot : Slot
blank_slot = record { seq = 0; frame_len = 0; frame = replicate frame_cap 0 }

abbrev pub free_reader : ReaderState
free_reader = record { pid = 0; cursor = 0 }

-- `attach` with `init`. `aligned` is whether `base` is aligned, `now` the clock, `overwrite`
-- whether PULSEFANOUT_RING_POLICY says so, and `sizeof_slot` the size with its mutex.
abbrev pub blank_ring : ℕ → ℕ → Bool → ℕ → Ring
blank_ring count now overwrite sizeof_slot = record {
  magic = ring_magic;
  layout_version = layout;
  epoch = now;
  readers = replicate max_readers free_reader;
  slot_count = count;
  slot_size = sizeof_slot;
  backpressure = not overwrite;
  write_index = 0;
  slots = replicate count blank_slot;
  mask = count - 1;
}

unfoldable pub create : Bool → ℕ → ℕ → Bool → ℕ → Outcome Ring
create aligned count now overwrite sizeof_slot =
    if not (is_power_of_two count) || not aligned
    then throws invalid_argument
    else returns (blank_ring count now overwrite sizeof_slot)

-- The first entry of the registry whose `pid` is zero.
unfoldable pub first_free : List ReaderState → Option ℕ
first_free [] = none
first_free (r ∷ rs) =
    if r.pid == 0 then some 0 else elim (first_free rs) [ none ↦ none | some i ↦ some (suc i) ]

abbrev pub register : Ring → ℕ → ℕ → Ring
register ring reader pid = record ring {
  readers = set ring.readers reader (record { pid = pid; cursor = 0 });
}

-- `attach` without `init`, by the process `pid`: the number of its entry. The mutex of the registry is had; the
-- exception when it is not is not modelled.
unfoldable pub attach : Bool → ℕ → ℕ → ℕ → Ring → Outcome (ℕ × Ring)
attach aligned count sizeof_slot pid ring =
    if not (is_power_of_two count) || not aligned
    then throws invalid_argument
    else if not (ring.magic == ring_magic)
        || not (ring.layout_version == layout)
        || not (ring.slot_count == count)
        || not (ring.slot_size == sizeof_slot)
    then throws runtime_error
    else elim (first_free ring.readers) [
      | none ↦ throws runtime_error
      | some reader ↦ returns (reader, register ring reader pid)
    ]

-- The destructor.
unfoldable pub detach : Option ℕ → Ring → Ring
detach none ring = ring
detach (some reader) ring = record ring {
  readers =
      set ring.readers reader
        (record { pid = 0; cursor = (get_or ring.readers reader free_reader).cursor });
}

unfoldable pub reader_count : List ReaderState → ℕ
reader_count [] = 0
reader_count (r ∷ rs) = if r.pid == 0 then reader_count rs else suc (reader_count rs)

unfoldable pub set_backpressure : Option ℕ → Bool → Ring → Outcome Ring
set_backpressure none enabled ring = returns (record ring { backpressure = enabled })
set_backpressure (some reader) enabled ring = throws logic_error

-- One look of the producer at the registry, at a full ring: `(any, blocked)`.
unfoldable pub look : ℕ → List ReaderState → Bool × Bool
look limit [] = (false, false)
look limit (r ∷ rs) =
    let (any, blocked) = look limit rs in
    if r.pid == 0 then (any, blocked) else (true, blocked || leb r.cursor limit)

-- The producer does not wait on this registry.
unfoldable pub has_room : Ring → List ReaderState → Bool
unfolding look
has_room ring readers =
    if ring.backpressure && leb ring.slot_count ring.write_index
    then (let (any, blocked) = look (ring.write_index - ring.slot_count) readers in
        any && not blocked)
    else true

-- The loop: the registry at each look, up to the one after which the deadline has passed.
unfoldable pub wait_for_room : Ring → List (List ReaderState) → Bool
wait_for_room ring [] = false
wait_for_room ring (readers ∷ looks) =
    let rest = wait_for_room ring looks in if has_room ring readers then true else rest

abbrev pub slot_at : Ring → ℕ → Slot
slot_at ring index = get_or ring.slots (bit_and index ring.mask) blank_slot

-- Under the lock of the slot: the slot is invalidated, and then filled.
unfoldable pub invalidate : Ring → Ring
invalidate ring = record ring {
  slots =
      set ring.slots (bit_and ring.write_index ring.mask)
        (record (slot_at ring ring.write_index) { seq = 0; frame_len = 0 });
}

-- `memcpy` overwrites the beginning of the buffer.
abbrev pub filled : ℕ → List ℕ → Slot → Slot
filled index bytes slot = record {
  seq = u64 (index + 1);
  frame_len = length bytes;
  frame = bytes ++ drop (length bytes) slot.frame;
}

unfoldable pub fill : Ring → List ℕ → Ring
fill ring bytes = record ring {
  slots =
      set ring.slots (bit_and ring.write_index ring.mask)
        (filled ring.write_index bytes (slot_at ring ring.write_index));
  write_index = u64 (ring.write_index + 1);
}

unfoldable pub write : Ring → List ℕ → Ring
write ring bytes = fill (invalidate ring) bytes

-- `publish`. `looks` are the registries seen while waiting, `locked` whether the lock of the slot
-- was had before its deadline.
unfoldable pub publish : Option ℕ → List (List ReaderState) → Bool → Ring → List ℕ → Outcome Ring
publish (some reader) looks locked ring bytes =
    if (length bytes == 0) || ltb frame_cap (length bytes)
    then throws length_error
    else throws logic_error
publish none looks locked ring bytes =
    if (length bytes == 0) || ltb frame_cap (length bytes)
    then throws length_error
    else if not (ring.backpressure && leb ring.slot_count ring.write_index)
        || wait_for_room ring looks
    then (if locked then returns (write ring bytes) else throws runtime_error)
    else throws runtime_error

-- FrameStatus with what `read` stores through its pointers.
pub data FrameStatus : Type 0 where
  ok : List ℕ → FrameStatus
  lapped : ℕ → FrameStatus
  empty corrupt : FrameStatus

-- What a slot gives to a reader of `index`.
unfoldable pub inspect : Ring → ℕ → Slot → FrameStatus
inspect ring index slot =
    if ltb slot.seq (u64 (index + 1))
    then empty
    else if ltb (u64 (index + 1)) slot.seq
    then lapped
        (if ltb ring.slot_count ring.write_index then ring.write_index - ring.slot_count else 0)
    else if (slot.frame_len == 0) || ltb frame_cap slot.frame_len
    then corrupt
    else ok (take slot.frame_len slot.frame)

-- A reader that got its frame moves its cursor.
unfoldable pub move_cursor : Option ℕ → ℕ → FrameStatus → Ring → Ring
move_cursor (some reader) index (ok bytes) ring = record ring {
  readers =
      set ring.readers reader
        (record (get_or ring.readers reader free_reader) { cursor = u64 (index + 1) });
}
move_cursor _ index _ ring = ring

unfoldable pub read : Option ℕ → Bool → ℕ → Ring → FrameStatus × Ring
read reader locked index ring =
    let status = inspect ring index (slot_at ring index) in
    if locked then (status, move_cursor reader index status ring) else (empty, ring)
