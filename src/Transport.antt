-- ===== src/Transport.antt =====
-- harness/include/stream_transport.h: transfer, send_frame and receive_frame on a byte stream.
-- What the clock, poll and the socket do in each round of the loop is a list of events.
pub mod Framing
mod Tests
use low_latency_udp_fanout.Common.{
  ℕ, zero, suc, ◌+◌, ◌*◌, ◌/◌, ◌^◌, Bool, true, false, ◌||◌, List, [], ◌∷◌, ◌++◌, Option, none,
  some, ltb, ◌==◌, if◌then◌else◌, length, take, drop, u8, bit_or, ◌<<<◌, ◌>>>◌, ◌-◌, min, not,
  get_or,
}

-- One round: `stopped` is should_stop, `expired` the deadline, `poll_failed` an error of poll,
-- `again` what makes the loop go on without progress, `failed` an error or the end of the stream,
-- and `moved n` a send or recv of `suc n` bytes, or of as many as there are.
pub data Event : Type 0 where
  stopped expired poll_failed again failed : Event
  moved : ℕ → Event

-- Sending: whether all was sent, and what was put on the stream.
unfoldable pub transfer_out : List Event → List ℕ → Bool × List ℕ
transfer_out events [] = (true, [])
transfer_out [] (b ∷ bytes) = (false, [])
transfer_out (again ∷ events) (b ∷ bytes) = transfer_out events (b ∷ bytes)
transfer_out (moved n ∷ events) (b ∷ bytes) =
    let (done, sent) = transfer_out events (drop n bytes) in (done, (b ∷ take n bytes) ++ sent)
transfer_out (_ ∷ events) (b ∷ bytes) = (false, [])

-- Receiving `size` bytes: whether they came, what came, and what is left on the stream.
unfoldable pub transfer_in : List Event → ℕ → List ℕ → Bool × (List ℕ × List ℕ)
transfer_in events zero wire = (true, ([], wire))
transfer_in [] (suc size) wire = (false, ([], wire))
transfer_in (again ∷ events) (suc size) wire = transfer_in events (suc size) wire
transfer_in (moved n ∷ events) (suc size) [] = (false, ([], []))
transfer_in (moved n ∷ events) (suc size) (b ∷ wire) =
    let k = min n size in
    let (done, (got, rest)) = transfer_in events (size - length (take k wire)) (drop k wire) in
    (done, ((b ∷ take k wire) ++ got, rest))
transfer_in (_ ∷ events) (suc size) wire = (false, ([], wire))

-- `prefix`, two bytes of the length.
abbrev pub length_prefix : ℕ → List ℕ
length_prefix len = u8 (len >>> 8) ∷ u8 len ∷ []

unfoldable pub send_frame : List Event → List Event → List ℕ → Bool × List ℕ
send_frame events events' frame =
    let (begun, sent) = transfer_out events (length_prefix (length frame)) in
    let (done, sent') = transfer_out events' frame in
    if begun then (done, sent ++ sent') else (false, sent)

-- The length that a prefix says.
abbrev pub length_of : List ℕ → ℕ
length_of bytes = bit_or (get_or bytes 0 0 <<< 8) (get_or bytes 1 0)

-- `none` is the result -1.
unfoldable pub receive_frame : List Event → List Event → ℕ → List ℕ → Option (List ℕ × List ℕ)
receive_frame events events' cap wire =
    let (begun, (bytes, rest)) = transfer_in events 2 wire in
    let len = length_of bytes in
    let (done, (frame, rest')) = transfer_in events' len rest in
    if not begun || (len == 0) || ltb cap len || not done then none else some (frame, rest')
