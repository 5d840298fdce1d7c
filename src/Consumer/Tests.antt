-- ===== src/Consumer/Tests.antt =====
-- A consumer that skips one frame and then takes two.
use low_latency_udp_fanout.Common.{ℕ, ◌≡◌, refl, arith, List, [], ◌∷◌, false}
use low_latency_udp_fanout.Message.{validate_frame, expected_size}
use low_latency_udp_fanout.Metrics.{no_records}
use low_latency_udp_fanout.Metrics.Tests.{fixed_point}
use low_latency_udp_fanout.Wire.Frame.Tests.{header}
use low_latency_udp_fanout.Multiplex.{same_key, find}
use low_latency_udp_fanout.Consumer.{
  Config, Read, ok_frame, lapped, nothing, Consumer, Outcome, running, stopped, failed, consume,
  consume_all, take_frame, record_stream, update,
}
use low_latency_udp_fanout.Consumer.Accounts.{IsCounted, Ends, total, consume_all-IsCounted}

abbrev two_after_one : Config
two_after_one = record { count = 2; skip = 1 }

abbrev reads : List Read
reads =
    ok_frame header 192 500
    ∷ lapped 9
    ∷ ok_frame header 192 600
    ∷ nothing false
    ∷ ok_frame header 192 700
    ∷ ok_frame header 192 800
    ∷ []

abbrev fresh : Consumer fixed_point
fresh = record {
  read_index = 0;
  received = 0;
  skipped = 0;
  lapped_events = 0;
  acc = no_records fixed_point;
  stream_metrics = [];
}

fresh-IsCounted : IsCounted fixed_point two_after_one 0 fresh
unfolding total
fresh-IsCounted = record {
  by_stream = refl;
  in_all = refl;
  reads = omega arith;
  skips = omega arith;
  skipped_first = λ h. absurd (h refl);
  streams = omega arith;
  no_more = λ h. omega arith;
}

consume_all-IsCounted_example :
    Ends fixed_point two_after_one 6 (consume_all fixed_point two_after_one reads fresh)
consume_all-IsCounted_example =
    consume_all-IsCounted fixed_point two_after_one reads 0 fresh (omega arith) fresh-IsCounted

received_of : Outcome fixed_point → ℕ
received_of (running c) = c.received
received_of (stopped c) = c.received
received_of failed = 0

two_received : received_of (consume_all fixed_point two_after_one reads fresh) ≡ 2
unfolding received_of consume_all consume validate_frame expected_size take_frame record_stream
    update find same_key
two_received = refl
