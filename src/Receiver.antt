-- ===== src/Receiver.antt =====
-- harness/src/receiver.cpp: publish_frame, the callback of the decoder, for the stream of a key. The ring is a
-- parameter, with what `publish` does to it.
pub mod Filtered
mod Tests
use low_latency_udp_fanout.Common.{
  ℕ, ◌+◌, Bool, true, false, not, ◌||◌, ◌&&◌, List, [], ◌∷◌, Option, none, some, ltb, ◌==◌,
  if◌then◌else◌, u64,
}
use low_latency_udp_fanout.Message.{Header}
use low_latency_udp_fanout.Wire.Frame.{NativeLayout, decode}
use low_latency_udp_fanout.Multiplex.{Key}
use low_latency_udp_fanout.Fec.Decoder.{Decoder, expire}
use low_latency_udp_fanout.Fec.Decoder.Receive.{receive}
use low_latency_udp_fanout.Dedupe.{
  Window, ObserveResult, accept, duplicate, too_old, advanced, observe,
}
use low_latency_udp_fanout.Dedupe.Observe.{delivers}

-- What the callback changes: the stream but for its decoder, the ring and the counters.
pub record Session (R : Type 0) : Type 0 where
  pub dedupe : Window
  pub last_seq : ℕ
  pub ring : R
  pub published : ℕ
  pub old_duplicates : ℕ
  pub late_too_old : ℕ

abbrev pub is_too_old : ObserveResult → Bool
is_too_old too_old = true
is_too_old accept = false
is_too_old duplicate = false
is_too_old advanced = false

module _ (native : NativeLayout) {R : Type 0} (ring_publish : native.Memory → ℕ → R → R)
    (key : Key) where
  -- Without the filter: numbers have to rise.
  unfoldable pub publish_rising : native.Memory → ℕ → Session R → Session R
  publish_rising frame len s =
      let seq = (native.load_header frame).seq_id in
      if ltb s.last_seq seq
      then record s {
        ring = ring_publish frame len s.ring;
        last_seq = seq;
        published = u64 (s.published + 1);
      }
      else record s { old_duplicates = u64 (s.old_duplicates + 1) }

  unfoldable pub publish_filtered : native.Memory → ℕ → Bool → Session R → Session R
  publish_filtered frame len recovered s =
      let (result, window) = observe s.dedupe (native.load_header frame).seq_id in
      let late =
        if recovered && is_too_old result then u64 (s.late_too_old + 1) else s.late_too_old in
      let seen = record s { dedupe = window; late_too_old = late } in
      if delivers result
      then record seen { ring = ring_publish frame len s.ring; published = u64 (s.published + 1) }
      else seen

  unfoldable pub publish_frame : Bool → List ℕ → Bool → ℕ → Session R → Bool × Session R
  publish_frame dedupe_enabled frame recovered reason s = elim (decode native frame) [
    | none ↦ (false, s)
    | some (memory, len) ↦
        let header = native.load_header memory in
        if not (header.stream_id == key.stream) || not (header.stream_epoch == key.epoch)
        then (false, s)
        else (
          true,
          if not dedupe_enabled
              then publish_rising memory len s
              else publish_filtered memory len recovered s,
        )
  ]

  -- The datagrams of one stream in one round of the loop, behind the envelope of their key, each with the time of its
  -- arrival.
  unfoldable pub receive_round :
      Bool → List (List ℕ × ℕ) → Decoder → Session R → Decoder × Session R
  receive_round dedupe_enabled [] d s = (d, s)
  receive_round dedupe_enabled (packet ∷ packets) d s =
      let (accepted, (d', s')) = receive (publish_frame dedupe_enabled) d packet.0 packet.1 s in
      receive_round dedupe_enabled packets d' s'

  -- The rounds, each with its time, at which the decoder gives up what is a second old, and its datagrams.
  unfoldable pub receive_all :
      Bool → List (ℕ × List (List ℕ × ℕ)) → Decoder → Session R → Decoder × Session R
  receive_all dedupe_enabled [] d s = (d, s)
  receive_all dedupe_enabled (round ∷ rounds) d s =
      let (d', s') = receive_round dedupe_enabled round.1 (expire round.0 1000000000 d) s in
      receive_all dedupe_enabled rounds d' s'
