-- ===== src/Transport/Framing.antt =====
-- A frame that is sent is received, however the stream cuts it.
use low_latency_udp_fanout.Common.{
  ℕ, zero, suc, ◌-◌, ◌^◌, ◌≤◌, ◌<◌, ◌≡◌, refl, ap, ◌∙◌, true, List, [], ◌∷◌, ◌++◌, some, length,
  take, drop, u8, ◌>>>◌, arith, min, length-take, length-drop,
}
use low_latency_udp_fanout.Common.Bits.{or_low}
use low_latency_udp_fanout.Transport.{
  Event, stopped, expired, poll_failed, again, failed, moved, transfer_out, transfer_in,
  length_prefix, length_of, send_frame, receive_frame,
}

-- The rounds with progress before the first one that ends the loop.
unfoldable pub moves : List Event → ℕ
moves [] = 0
moves (again ∷ events) = moves events
moves (moved n ∷ events) = suc (moves events)
moves (_ ∷ events) = 0

take-append-drop : (n : ℕ) (xs : List ℕ) → take n xs ++ drop n xs ≡ xs
take-append-drop zero xs = refl
take-append-drop (suc n) [] = refl
take-append-drop (suc n) (x ∷ xs) = ap (λ ys. x ∷ ys) (take-append-drop n xs)

take_within : (n : ℕ) (xs ys : List ℕ) → n ≤ length xs → take n (xs ++ ys) ≡ take n xs
take_within zero xs ys h = refl
take_within (suc n) [] ys h = absurd (omega arith)
take_within (suc n) (x ∷ xs) ys h = ap (λ zs. x ∷ zs) (take_within n xs ys (omega arith))

drop_within : (n : ℕ) (xs ys : List ℕ) → n ≤ length xs → drop n (xs ++ ys) ≡ drop n xs ++ ys
drop_within zero xs ys h = refl
drop_within (suc n) [] ys h = absurd (omega arith)
drop_within (suc n) (x ∷ xs) ys h = drop_within n xs ys (omega arith)

transfer_out_all :
    (events : List Event) (bytes : List ℕ)
    → length bytes ≤ moves events
    → transfer_out events bytes ≡ (true, bytes)
unfolding transfer_out moves
transfer_out_all events [] h = refl
transfer_out_all [] (b ∷ bytes) h = absurd (omega arith)
transfer_out_all (again ∷ events) (b ∷ bytes) h = transfer_out_all events (b ∷ bytes) h
transfer_out_all (moved n ∷ events) (b ∷ bytes) h =
    rw (transfer_out_all events (drop n bytes) (omega (arith, length-drop n bytes)))
      (ap (λ bs. (true, b ∷ bs)) (take-append-drop n bytes))
transfer_out_all (stopped ∷ events) (b ∷ bytes) h = absurd (omega arith)
transfer_out_all (expired ∷ events) (b ∷ bytes) h = absurd (omega arith)
transfer_out_all (poll_failed ∷ events) (b ∷ bytes) h = absurd (omega arith)
transfer_out_all (failed ∷ events) (b ∷ bytes) h = absurd (omega arith)

transfer_in_all :
    (events : List Event) (bytes more : List ℕ)
    → length bytes ≤ moves events
    → transfer_in events (length bytes) (bytes ++ more) ≡ (true, (bytes, more))
unfolding transfer_in moves
transfer_in_all events [] more h = refl
transfer_in_all [] (b ∷ bytes) more h = absurd (omega arith)
transfer_in_all (again ∷ events) (b ∷ bytes) more h = transfer_in_all events (b ∷ bytes) more h
transfer_in_all (moved n ∷ events) (b ∷ bytes) more h =
    let k : ℕ = min n (length bytes) in
    let le : k ≤ length bytes = omega arith in
    let left : length bytes - length (take k bytes) ≡ length (drop k bytes) =
      omega (arith, length-take k bytes, length-drop k bytes) in
    rw
      (
        take_within k bytes more le,
        drop_within k bytes more le,
        left,
        transfer_in_all events (drop k bytes) more (omega (arith, length-drop k bytes)),
      )
      (ap (λ bs. (true, (b ∷ bs, more))) (take-append-drop k bytes))
transfer_in_all (stopped ∷ events) (b ∷ bytes) more h = absurd (omega arith)
transfer_in_all (expired ∷ events) (b ∷ bytes) more h = absurd (omega arith)
transfer_in_all (poll_failed ∷ events) (b ∷ bytes) more h = absurd (omega arith)
transfer_in_all (failed ∷ events) (b ∷ bytes) more h = absurd (omega arith)

length_of-length_prefix : (len : ℕ) → len < 2 ^ 16 → length_of (length_prefix len) ≡ len
length_of-length_prefix len h = or_low 8 (u8 (len >>> 8)) (u8 len) (omega arith) ∙ omega arith

module _ (out out' back back' : List Event) (cap : ℕ) (frame more : List ℕ)
    (nonempty : 1 ≤ length frame) (short : length frame < 2 ^ 16) (fits : length frame ≤ cap)
    (o : 2 ≤ moves out) (o' : length frame ≤ moves out') (i : 2 ≤ moves back)
    (i' : length frame ≤ moves back') where
  send_frame_lem : send_frame out out' frame ≡ (true, length_prefix (length frame) ++ frame)
  unfolding send_frame
  send_frame_lem =
      rw (transfer_out_all out (length_prefix (length frame)) o, transfer_out_all out' frame o')
        refl

  receive_frame_lem :
      receive_frame back back' cap (length_prefix (length frame) ++ (frame ++ more))
      ≡ some (frame, more)
  unfolding receive_frame
  receive_frame_lem =
      rw
        (
          transfer_in_all back (length_prefix (length frame)) (frame ++ more) i,
          length_of-length_prefix (length frame) short,
          transfer_in_all back' frame more i',
        )
        (ground (arith, nonempty, fits))

  -- A frame of 1 to 65535 bytes that is sent is received, with what follows it left on the stream,
  -- if it is within the capacity and each of the four transfers makes progress often enough before
  -- its deadline, however the sends and the receives cut the bytes.
  pub receive-send :
      ((send_frame out out' frame).0 ≡ true)
      × (receive_frame back back' cap ((send_frame out out' frame).1 ++ more) ≡ some (frame, more))
  receive-send = rw send_frame_lem (refl, receive_frame_lem)
