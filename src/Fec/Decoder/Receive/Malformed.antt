-- ===== src/Fec/Decoder/Receive/Malformed.antt =====
-- harness/include/fec.h: the checks of Decoder::receive.
use low_latency_udp_fanout.Common.{
  ℕ, ◌+◌, ◌≤◌, ◌<◌, ◌≡◌, ◌≢◌, refl, arith, Bool, true, false, not, ◌||◌, List, some, if◌then◌else◌,
  ltb, leb, ◌==◌, length,
}
use low_latency_udp_fanout.Wire.Frame.{max_frame}
use low_latency_udp_fanout.Fec.Envelope.{
  Envelope, envelope, envelope_size, fec_magic, max_generation,
}
use low_latency_udp_fanout.Fec.Decoder.{Decoder}
use low_latency_udp_fanout.Fec.Decoder.Receive.{receive_data, receive_parity, receive}

-- What is wrong with a data datagram.
pub data IsBadData (e : Envelope) (payload : List ℕ) : Type 0 where
  empty : length payload ≡ 0 → IsBadData e payload
  other_length : length payload ≢ e.protected_len → IsBadData e payload
  too_long : 1024 < e.protected_len → IsBadData e payload
  beyond : e.k ≤ e.index → IsBadData e payload

-- What is wrong with a parity datagram.
pub data IsBadParity (e : Envelope) (payload : List ℕ) : Type 0 where
  too_many_rows : 16 < e.parity_count → IsBadParity e payload
  before : e.index < e.k → IsBadParity e payload
  behind : e.k + e.parity_count ≤ e.index → IsBadParity e payload
  other_size : e.protected_len ≢ length payload → IsBadParity e payload
  too_small : length payload < 2 → IsBadParity e payload
  too_large : 1026 < length payload → IsBadParity e payload

pub data IsMalformed (e : Envelope) (payload : List ℕ) : Type 0 where
  no_frames : e.k ≡ 0 → IsMalformed e payload
  too_many : 128 < e.k → IsMalformed e payload
  unknown_reason : 2 < e.close_reason → IsMalformed e payload
  bad_data : e.parity_count ≡ 0 → IsBadData e payload → IsMalformed e payload
  bad_parity : e.parity_count ≢ 0 → IsBadParity e payload → IsMalformed e payload

abbrev data_test : Envelope → List ℕ → Bool
data_test e payload =
    (length payload == 0)
    || not (length payload == e.protected_len)
    || ltb max_frame e.protected_len
    || leb e.k e.index

data_caught : (e : Envelope) (payload : List ℕ) → IsBadData e payload → data_test e payload ≡ true
data_caught e payload (empty h) = ground arith
data_caught e payload (other_length h) = ground arith
data_caught e payload (too_long h) = ground arith
data_caught e payload (beyond h) = ground arith

abbrev parity_test : Envelope → List ℕ → Bool
parity_test e payload =
    ltb 16 e.parity_count
    || ltb e.index e.k
    || leb (e.k + e.parity_count) e.index
    || not (e.protected_len == length payload)
    || ltb (length payload) 2
    || ltb (max_frame + 2) (length payload)

parity_caught :
    (e : Envelope) (payload : List ℕ) → IsBadParity e payload → parity_test e payload ≡ true
parity_caught e payload (too_many_rows h) = ground arith
parity_caught e payload (before h) = ground arith
parity_caught e payload (behind h) = ground arith
parity_caught e payload (other_size h) = ground arith
parity_caught e payload (too_small h) = ground arith
parity_caught e payload (too_large h) = ground arith

module _ {S : Type 0} (publish : List ℕ → Bool → ℕ → S → Bool × S) (d : Decoder) (now_ns : ℕ)
    (s : S) where
  data_refused :
      (e : Envelope) (payload : List ℕ)
      → IsBadData e payload
      → receive_data publish d e payload now_ns s ≡ (false, (d, s))
  unfolding receive_data
  data_refused e payload bad =
      let caught : data_test e payload ≡ true = data_caught e payload bad in rw caught refl

  parity_refused :
      (e : Envelope) (payload : List ℕ)
      → IsBadParity e payload
      → receive_parity publish d e payload now_ns s ≡ (false, (d, s))
  unfolding receive_parity
  parity_refused e payload bad =
      let caught : parity_test e payload ≡ true = parity_caught e payload bad in rw caught refl

  abbrev by_header : Envelope → List ℕ → Bool × (Decoder × S)
  by_header e payload =
      if (e.k == 0) || ltb max_generation e.k || ltb 2 e.close_reason
      then (false, (d, s))
      else if e.parity_count == 0
      then receive_data publish d e payload now_ns s
      else receive_parity publish d e payload now_ns s

  kind_refused :
      (e : Envelope) (payload : List ℕ) (bad : Bool)
      → IsMalformed e payload
      → bad ≡ ((e.k == 0) || ltb max_generation e.k || ltb 2 e.close_reason)
      → (if bad
          then (false, (d, s))
          else if e.parity_count == 0
          then receive_data publish d e payload now_ns s
          else receive_parity publish d e payload now_ns s)
        ≡ (false, (d, s))
  kind_refused e payload true m h = refl
  kind_refused e payload false (no_frames z) h = absurd (ground arith)
  kind_refused e payload false (too_many z) h = absurd (ground arith)
  kind_refused e payload false (unknown_reason z) h = absurd (ground arith)
  kind_refused e payload false (bad_data z b) h =
      let kind : (e.parity_count == 0) ≡ true = ground arith in rw kind (data_refused e payload b)
  kind_refused e payload false (bad_parity z b) h =
      let kind : (e.parity_count == 0) ≡ false = ground arith in
      rw kind (parity_refused e payload b)

  -- A datagram with the magic number of the envelope and a header that is malformed, for its own fields or for the length
  -- of its payload: `receive` returns false and changes neither the decoder nor the state of the callback.
  pub receive-refused :
      (bytes payload : List ℕ) (e : Envelope)
      → envelope_size ≤ length bytes
      → envelope.get bytes ≡ some (e, payload)
      → e.magic ≡ fec_magic
      → IsMalformed e payload
      → receive publish d bytes now_ns s ≡ (false, (d, s))
  unfolding receive
  receive-refused bytes payload e long got magic bad =
      let enough : ltb (length bytes) envelope_size ≡ false = ground arith in
      let known : not (e.magic == fec_magic) ≡ false = ground arith in
      rw (enough, got, known) (kind_refused e payload _ bad refl)
