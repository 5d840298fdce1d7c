-- ===== src/Fec/Tests.antt =====
-- A generation of three frames, of which two are lost, through the encoder and the decoder.
use low_latency_udp_fanout.Common.{
  ℕ, zero, suc, ◌≤◌, ◌<◌, ◌≡◌, ◌≢◌, refl, arith, true, false, List, [], ◌∷◌, some, length, get_or,
  All,
}
use low_latency_udp_fanout.Common.{length-append, ◌++◌, bit_xor}
use low_latency_udp_fanout.Fec.Encoder.Shard.{parity_byte, share, block_byte}
use low_latency_udp_fanout.Fec.Recovery.Parity.{across}
use low_latency_udp_fanout.Fec.Envelope.{Envelope, fec_magic}
use low_latency_udp_fanout.Fec.Envelope.Laws.{FitsEnvelope, envelope-IsLawful}
use low_latency_udp_fanout.Fec.Decoder.Receive.{receive}
use low_latency_udp_fanout.Fec.Decoder.Receive.Malformed.{bad_parity, behind, receive-refused}
use low_latency_udp_fanout.Fec.Field.{mul, inverse_or_zero}
use low_latency_udp_fanout.Fec.Field.Laws.{mul-inverse}
use low_latency_udp_fanout.Fec.Envelope.{envelope, add_scaled, protected_frame}
use low_latency_udp_fanout.Fec.Encoder.{
  Encoder, BuiltGeneration, add, close, data_datagrams, first_parity, parity_shard, parity_datagram,
  extra_parities, zeros,
}
use low_latency_udp_fanout.Fec.Encoder.Valid.{IsFrame, IsValid, add-IsValid, close-IsValid}
use low_latency_udp_fanout.Fec.Encoder.Datagrams.{data_header, shard_of, first_parity-parity_shard}
use low_latency_udp_fanout.Fec.Encoder.Closed.{
  IsParityOf, close-parities_read, close-datagrams_read, close-sizes,
}
use low_latency_udp_fanout.Fec.Decoder.{Generation, blank_generation, new_decoder}
use low_latency_udp_fanout.Fec.Decoder.Recover.{absent_from, rows_from, try_recover}
use low_latency_udp_fanout.Fec.Recovery.Frames.{IsPartOf}
use low_latency_udp_fanout.Fec.Recovery.Recovered.{accept, try_recover-publishes}

abbrev first : List ℕ
first = 10 ∷ 20 ∷ []

abbrev second : List ℕ
second = 30 ∷ 40 ∷ 50 ∷ []

abbrev third : List ℕ
third = 200 ∷ []

abbrev three : List (List ℕ)
three = first ∷ second ∷ third ∷ []

abbrev sender : Encoder
sender = record { k = 4; parity_count = 2; max_len = 3; frames = three }

abbrev half_lost : Generation
half_lost = record blank_generation {
  active = true;
  seen_any = true;
  parity_received = true;
  gen_id = 7;
  k = 3;
  parity_count = 2;
  close_reason = 1;
  first_ns = 100;
  blocks = [] ∷ (3 ∷ 0 ∷ 30 ∷ 40 ∷ 50 ∷ []) ∷ [] ∷ [];
  parities = shard_of sender 0 ∷ shard_of sender 1 ∷ [];
  received = false ∷ true ∷ false ∷ [];
}

three_frames : All (IsFrame 3) three
three_frames = (
  record {
    some_bytes = omega arith;
    within = omega arith;
    bytes = (omega arith, (omega arith, tt));
  },
  (
    record {
      some_bytes = omega arith;
      within = omega arith;
      bytes = (omega arith, (omega arith, (omega arith, tt)));
    },
    (record { some_bytes = omega arith; within = omega arith; bytes = (omega arith, tt) }, tt),
  ),
)

sender-IsValid : IsValid sender
sender-IsValid = record {
  k-pos = omega arith;
  k-le = omega arith;
  parity-pos = omega arith;
  parity-le = omega arith;
  count = omega arith;
  max_len-le = omega arith;
  all_frames = three_frames;
}

received_one : (i : ℕ) → get_or half_lost.received i false ≡ true → i < 3
received_one zero h = omega arith
received_one (suc zero) h = omega arith
received_one (suc (suc zero)) h = omega arith
received_one (suc (suc (suc i))) h = absurd (cc)

block_one :
    (i : ℕ)
    → get_or half_lost.received i false ≡ true
    → get_or half_lost.blocks i []
      ≡ protected_frame (get_or three i []) (length (get_or three i []))
unfolding protected_frame
block_one zero h = absurd (cc)
block_one (suc zero) h = refl
block_one (suc (suc zero)) h = absurd (cc)
block_one (suc (suc (suc i))) h = absurd (cc)

two_rows :
    (row : ℕ)
    → length (get_or half_lost.parities row []) ≢ 0
    → get_or half_lost.parities row [] ≡ parity_shard row 3 0 three (zeros 3)
two_rows zero h = refl
two_rows (suc zero) h = refl
two_rows (suc (suc row)) h = absurd (h refl)

half_lost-IsPartOf : IsPartOf 3 three half_lost
half_lost-IsPartOf = record {
  count = refl;
  count-le = omega arith;
  max_len-le = omega arith;
  all_frames = three_frames;
  received_below = received_one;
  blocks_kept = block_one;
  row_count = omega arith;
  rows_kept = two_rows;
}

enough :
    length (absent_from half_lost.k 0 half_lost.received) ≤ length (rows_from 0 half_lost.parities)
unfolding absent_from rows_from parity_shard add_scaled protected_frame
enough = omega arith

try_recover-publishes_example :
    ((try_recover accept half_lost 900 (new_decoder 8) (second ∷ [])).0 ≡ true)
    × ((try_recover accept half_lost 900 (new_decoder 8) (second ∷ [])).1.1.1
        ≡ second ∷ first ∷ third ∷ [])
unfolding absent_from
try_recover-publishes_example =
    try_recover-publishes half_lost-IsPartOf enough refl refl 900 (new_decoder 8) (second ∷ [])

mul-inverse_example : (mul 83 (inverse_or_zero 83) ≡ 1) × (inverse_or_zero 83 < 256)
mul-inverse_example = mul-inverse 83 (omega arith) (omega arith)

first_parity-parity_shard_example :
    first_parity 3 three (zeros 3) ≡ parity_shard 0 3 0 three (zeros 3)
first_parity-parity_shard_example =
    first_parity-parity_shard 3 0 three (zeros 3) three_frames (omega arith)

abbrev sent : BuiltGeneration
sent = record {
  datagrams = data_datagrams 7 4 0 three;
  parity = parity_datagram sender 7 1 0 (first_parity 3 three (zeros 3));
  extra_parity = extra_parities sender 7 1 1 1;
}

abbrev emptied : Encoder
emptied = record { k = 4; parity_count = 2; max_len = 0; frames = [] }

closing : close sender 7 1 ≡ some (sent, emptied)
unfolding close
closing = refl

add-IsValid_example : IsValid (add sender (9 ∷ 9 ∷ 9 ∷ 9 ∷ [])).1
add-IsValid_example =
    add-IsValid sender (9 ∷ 9 ∷ 9 ∷ 9 ∷ []) sender-IsValid
      (omega arith, (omega arith, (omega arith, (omega arith, tt))))

close-IsValid_example : IsValid emptied
close-IsValid_example = close-IsValid sender emptied sent 7 1 sender-IsValid closing

close-parities_read_example :
    IsParityOf sender 7 1 1 (get_or (sent.parity ∷ sent.extra_parity) 1 [])
close-parities_read_example =
    close-parities_read 7 1 sender-IsValid closing 1 (omega arith) (omega arith) (omega arith)

-- The third byte of row zero is the XOR of the first bytes of the frames.
third_of_row_zero : parity_byte three 0 2 ≡ bit_xor 10 (bit_xor 30 200)
unfolding parity_byte share block_byte across
third_of_row_zero = refl

close-datagrams_read_example :
    envelope.get (get_or sent.datagrams 2 []) ≡ some (data_header 7 2 4 1, third)
close-datagrams_read_example =
    close-datagrams_read 7 1 sender-IsValid closing 2 (omega arith) (omega arith)

close-sizes_example :
    (length sent.datagrams ≡ 3)
    × (length (sent.parity ∷ sent.extra_parity) ≡ 2)
    × All (λ d. length d ≤ 1043) sent.datagrams
    × All (λ d. length d ≤ 1043) (sent.parity ∷ sent.extra_parity)
close-sizes_example = close-sizes 7 1 sender-IsValid closing (omega arith) (omega arith)

-- A parity datagram behind the last row.
abbrev stray : Envelope
stray = record {
  magic = fec_magic;
  gen_id = 7;
  index = 9;
  k = 3;
  parity_count = 2;
  protected_len = 4;
  close_reason = 1;
}

abbrev stray_bytes : List ℕ
stray_bytes = envelope.put stray ++ (1 ∷ 2 ∷ 3 ∷ 4 ∷ [])

stray-Fits : FitsEnvelope stray
stray-Fits = (
  omega arith,
  (omega arith, (omega arith, (omega arith, (omega arith, (omega arith, omega arith))))),
)

receive-refused_example :
    receive accept (new_decoder 8) stray_bytes 900 (second ∷ [])
    ≡ (false, (new_decoder 8, second ∷ []))
receive-refused_example =
    receive-refused accept (new_decoder 8) 900 (second ∷ []) stray_bytes (1 ∷ 2 ∷ 3 ∷ 4 ∷ []) stray
      (omega (
        arith,
        envelope-IsLawful.size stray stray-Fits,
        length-append (envelope.put stray) (1 ∷ 2 ∷ 3 ∷ 4 ∷ []),
      ))
      (envelope-IsLawful.forth stray (1 ∷ 2 ∷ 3 ∷ 4 ∷ []) stray-Fits) refl
      (bad_parity (omega arith) (behind (omega arith)))
