-- ===== src/ShmRing/System.antt =====
-- The producer with back-pressure and its readers, interleaved: a reader that joins in time and
-- reads in order loses nothing.
use low_latency_udp_fanout.Common.{
  ℕ, ◌≤◌, ◌<◌, ◌≡◌, ◌≢◌, Bool, true, false, List, [], ◌∷◌, some, length,
}
use low_latency_udp_fanout.ShmRing.{
  Ring, frame_cap, FrameStatus, ok, empty, lapped, corrupt, returns, attach, detach, has_room,
  write, read,
}
use low_latency_udp_fanout.ShmRing.Registry.{reader_of}
use low_latency_udp_fanout.ShmRing.History.{History}

abbrev pub collect : FrameStatus → List (List ℕ) → List (List ℕ)
collect (ok bytes) got = bytes ∷ got
collect (lapped resume) got = got
collect empty got = got
collect corrupt got = got

-- What the producer, reader `r` and the other processes do in any order, with the frames that were
-- published and those that `r` got, the last one first. The look at the registry after which the
-- producer stops waiting and its write are two steps; `true` stands for being between them.
pub data Run (count r : ℕ) : List (List ℕ) → List (List ℕ) → Ring → Bool → Type 0 where
  joined :
      {frames : List (List ℕ)} {ring : Ring}
      → History count frames ring
      → ring.backpressure ≡ true
      → r < length ring.readers
      → (reader_of ring r).pid ≢ 0
      → (reader_of ring r).cursor ≡ 0
      → length frames ≤ count
      → Run count r frames [] ring false
  looked :
      {frames got : List (List ℕ)} {ring : Ring}
      → Run count r frames got ring false
      → has_room ring ring.readers ≡ true
      → Run count r frames got ring true
  wrote :
      (bytes : List ℕ) {frames got : List (List ℕ)} {ring : Ring}
      → Run count r frames got ring true
      → 1 ≤ length bytes
      → length bytes ≤ frame_cap
      → Run count r (bytes ∷ frames) got (write ring bytes) false
  read_next :
      (locked : Bool) {frames got : List (List ℕ)} {ring : Ring} {c : Bool}
      → Run count r frames got ring c
      → Run count r frames
          (collect (read (some r) locked (reader_of ring r).cursor ring).0 got)
          (read (some r) locked (reader_of ring r).cursor ring).1
          c
  other_read :
      (locked : Bool) (s index : ℕ) {frames got : List (List ℕ)} {ring : Ring} {c : Bool}
      → Run count r frames got ring c
      → s ≢ r
      → Run count r frames got (read (some s) locked index ring).1 c
  other_attached :
      (aligned : Bool) (sizeof_slot pid s : ℕ) {frames got : List (List ℕ)} {ring ring' : Ring}
      {c : Bool}
      → Run count r frames got ring c
      → attach aligned count sizeof_slot pid ring ≡ returns (s, ring')
      → Run count r frames got ring' c
  other_detached :
      (s : ℕ) {frames got : List (List ℕ)} {ring : Ring} {c : Bool}
      → Run count r frames got ring c
      → s ≢ r
      → Run count r frames got (detach (some s) ring) c
