-- ===== src/Receiver/Tests.antt =====
-- A stream of one quote that arrives twice, and a datagram that is no frame.
use low_latency_udp_fanout.Common.{ℕ, refl, List, [], ◌∷◌, none, some, true}
use low_latency_udp_fanout.Wire.Frame.{encode}
use low_latency_udp_fanout.Wire.Frame.Tests.{structs, as_bbo, bbo}
use low_latency_udp_fanout.Multiplex.{Key}
use low_latency_udp_fanout.Dedupe.{blank}
use low_latency_udp_fanout.Dedupe.Stream.{deliveries}
use low_latency_udp_fanout.Fec.Decoder.{new_decoder}
use low_latency_udp_fanout.Receiver.{Session, receive_all}
use low_latency_udp_fanout.Receiver.Filtered.{
  IsFiltered, Log, log_publish, observe_all, receive_all-IsFiltered,
}

abbrev quotes : Key
quotes = record { stream = 7; epoch = 3 }

abbrev quote : List ℕ
quote = elim (encode structs (as_bbo bbo) 192) [ none ↦ [] | some bytes ↦ bytes ]

abbrev fresh : Session (Log structs quotes)
fresh = record {
  dedupe = blank 64;
  last_seq = 0;
  ring = [];
  published = 0;
  old_duplicates = 0;
  late_too_old = 0;
}

fresh-IsFiltered : IsFiltered structs quotes (blank 64) fresh
unfolding deliveries observe_all
fresh-IsFiltered = record { seqs = []; window = refl; output = refl; counted = refl; own = tt }

-- Two rounds; the quote arrives in both.
abbrev arriving : List (ℕ × List (List ℕ × ℕ))
arriving = (90, (quote, 100) ∷ (1 ∷ 2 ∷ [], 200) ∷ []) ∷ (290, (quote, 300) ∷ []) ∷ []

receive_all-IsFiltered_example :
    IsFiltered structs quotes
      (blank 64)
      (receive_all structs
        (log_publish structs quotes)
        quotes
        true
        arriving
        (new_decoder 4)
        fresh).1
receive_all-IsFiltered_example =
    receive_all-IsFiltered structs quotes (blank 64) arriving (new_decoder 4) fresh fresh-IsFiltered
