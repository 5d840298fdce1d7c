-- ===== src/Fec/Encoder.antt =====
-- harness/include/fec.h: Encoder.
pub mod Valid
pub mod Datagrams
pub mod Shard
pub mod Closed
use low_latency_udp_fanout.Common.{
  ℕ, zero, suc, ◌+◌, ◌-◌, List, [], ◌∷◌, ◌++◌, Bool, true, false, ◌||◌, Option, none, some, ltb,
  ◌==◌, if◌then◌else◌, length, replicate, max, u16,
}
use low_latency_udp_fanout.Wire.Frame.{max_frame}
use low_latency_udp_fanout.Fec.Field.{coefficient}
use low_latency_udp_fanout.Fec.Envelope.{
  Envelope, envelope, fec_magic, max_generation, protected_frame, data_datagram, add_scaled,
  add_block,
}

pub record Encoder : Type 0 where
  pub k : ℕ
  pub parity_count : ℕ
  pub max_len : ℕ
  pub frames : List (List ℕ)

pub record BuiltGeneration : Type 0 where
  pub datagrams : List (List ℕ)
  pub parity : List ℕ
  pub extra_parity : List (List ℕ)

-- The constructor; `none` is the exception.
unfoldable pub new_encoder : ℕ → ℕ → Option Encoder
new_encoder k parity_count =
    if (k == 0) || ltb max_generation k || (parity_count == 0) || ltb 16 parity_count
    then none
    else some (record { k = k; parity_count = parity_count; max_len = 0; frames = [] })

unfoldable pub add : Encoder → List ℕ → Bool × Encoder
add e frame =
    if (length frame == 0) || ltb max_frame (length frame) || (length e.frames == e.k)
    then (false, e)
    else (
      true,
      record e {
        frames = e.frames ++ (frame ∷ []);
        max_len = if ltb e.max_len (length frame) then length frame else e.max_len;
      },
    )

abbrev pub is_empty : Encoder → Bool
is_empty e = length e.frames == 0

abbrev pub is_full : Encoder → Bool
is_full e = length e.frames == e.k

-- The first loop of `close`, with the datagrams and the parity of row zero.
unfoldable pub data_datagrams : ℕ → ℕ → ℕ → List (List ℕ) → List (List ℕ)
data_datagrams gen_id k i [] = []
data_datagrams gen_id k i (frame ∷ frames) =
    data_datagram gen_id i k frame ∷ data_datagrams gen_id k (suc i) frames

unfoldable pub first_parity : ℕ → List (List ℕ) → List ℕ → List ℕ
first_parity max_len [] acc = acc
first_parity max_len (frame ∷ frames) acc =
    first_parity max_len frames (add_block (protected_frame frame max_len) acc)

-- The shard of a further row.
unfoldable pub parity_shard : ℕ → ℕ → ℕ → List (List ℕ) → List ℕ → List ℕ
parity_shard row max_len col [] acc = acc
parity_shard row max_len col (frame ∷ frames) acc =
    parity_shard row max_len (suc col) frames
      (add_scaled (coefficient row col) (protected_frame frame max_len) acc)

abbrev pub zeros : ℕ → List ℕ
zeros max_len = replicate (max_len + 2) 0

abbrev pub parity_header : Encoder → ℕ → ℕ → ℕ → Envelope
parity_header e gen_id close_reason row = record {
  magic = fec_magic;
  gen_id = gen_id;
  index = length e.frames + row;
  k = length e.frames;
  parity_count = e.parity_count;
  protected_len = u16 (e.max_len + 2);
  close_reason = close_reason;
}

abbrev pub parity_datagram : Encoder → ℕ → ℕ → ℕ → List ℕ → List ℕ
parity_datagram e gen_id close_reason row shard =
    envelope.put (parity_header e gen_id close_reason row) ++ shard

-- The rows from `row` on, `rounds` of them.
unfoldable pub extra_parities : Encoder → ℕ → ℕ → ℕ → ℕ → List (List ℕ)
extra_parities e gen_id close_reason zero row = []
extra_parities e gen_id close_reason (suc rounds) row =
    parity_datagram e gen_id close_reason row
      (parity_shard row e.max_len 0 e.frames (zeros e.max_len))
    ∷ extra_parities e gen_id close_reason rounds (suc row)

-- `close`; `none` is the exception for an empty generation.
unfoldable pub close : Encoder → ℕ → ℕ → Option (BuiltGeneration × Encoder)
close e gen_id close_reason =
    if is_empty e
    then none
    else some (
      record {
        datagrams = data_datagrams gen_id e.k 0 e.frames;
        parity =
            parity_datagram e gen_id close_reason 0
              (first_parity e.max_len e.frames (zeros e.max_len));
        extra_parity = extra_parities e gen_id close_reason (e.parity_count - 1) 1;
      },
      record e { frames = []; max_len = 0 },
    )
