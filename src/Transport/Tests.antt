-- ===== src/Transport/Tests.antt =====
-- Three bytes in pieces.
use low_latency_udp_fanout.Common.{ℕ, ◌≡◌, refl, true, false, List, [], ◌∷◌, ◌++◌, some, arith}
use low_latency_udp_fanout.Transport.{
  Event, expired, again, moved, transfer_out, send_frame, receive_frame,
}
use low_latency_udp_fanout.Transport.Framing.{moves, receive-send}

abbrev bytewise : List Event
bytewise = moved 0 ∷ again ∷ moved 0 ∷ moved 0 ∷ []

abbrev pieces : List Event
pieces = again ∷ moved 1 ∷ moved 5 ∷ moved 0 ∷ expired ∷ []

abbrev frame : List ℕ
frame = 7 ∷ 8 ∷ 9 ∷ []

too_late : send_frame bytewise (moved 0 ∷ expired ∷ []) frame ≡ (false, 0 ∷ 3 ∷ 7 ∷ [])
unfolding send_frame transfer_out
too_late = refl

receive-send_example :
    ((send_frame bytewise pieces frame).0 ≡ true)
    × (receive_frame pieces bytewise 576 ((send_frame bytewise pieces frame).1 ++ (1 ∷ []))
        ≡ some (frame, 1 ∷ []))
unfolding moves
receive-send_example =
    receive-send bytewise pieces pieces bytewise 576 frame (1 ∷ []) (omega arith) (omega arith)
      (omega arith) (omega arith) (omega arith) (omega arith) (omega arith)
