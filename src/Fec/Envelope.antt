-- ===== src/Fec/Envelope.antt =====
-- harness/include/fec.h: the header of a datagram, and the blocks that the parity is taken over.
pub mod Laws
use low_latency_udp_fanout.Common.{
  ℕ, zero, suc, ◌+◌, ◌-◌, ◌*◌, List, [], ◌∷◌, ◌++◌, Option, none, some, length, replicate, get_or,
  take, u8, u16, bit_or, bit_and, bit_xor, ◌<<<◌, ◌>>>◌,
}
use low_latency_udp_fanout.Wire.Codec.{Codec, ◌⊗◌, struct, ◌>>=◌}
use low_latency_udp_fanout.Wire.Fields.{uint8, uint16, uint32}
use low_latency_udp_fanout.Fec.Field.{mul}

abbrev pub fec_magic : ℕ
fec_magic = 0x46454332

abbrev pub max_generation : ℕ
max_generation = 128

abbrev pub envelope_size : ℕ
envelope_size = 17

pub record Envelope : Type 0 where
  pub magic : ℕ
  pub gen_id : ℕ
  pub index : ℕ
  pub k : ℕ
  pub parity_count : ℕ
  pub protected_len : ℕ
  pub close_reason : ℕ

abbrev pub envelope_fields : Envelope → ℕ × (ℕ × (ℕ × (ℕ × (ℕ × (ℕ × ℕ)))))
envelope_fields h =
    (h.magic, (h.gen_id, (h.index, (h.k, (h.parity_count, (h.protected_len, h.close_reason))))))

abbrev pub build_envelope : ℕ × (ℕ × (ℕ × (ℕ × (ℕ × (ℕ × ℕ))))) → Envelope
build_envelope p = record {
  magic = p.0;
  gen_id = p.1.0;
  index = p.1.1.0;
  k = p.1.1.1.0;
  parity_count = p.1.1.1.1.0;
  protected_len = p.1.1.1.1.1.0;
  close_reason = p.1.1.1.1.1.1;
}

-- `write_envelope` and `read_envelope`.
unfoldable pub envelope : Codec Envelope
envelope =
    struct (uint32 ⊗ uint32 ⊗ uint16 ⊗ uint16 ⊗ uint16 ⊗ uint16 ⊗ uint8) envelope_fields
      build_envelope

-- Two bytes, the low one first.
abbrev pub put_u16 : ℕ → List ℕ
put_u16 value = bit_and value 255 ∷ u8 (value >>> 8) ∷ []

abbrev pub get_u16 : List ℕ → ℕ
get_u16 bytes = bit_or (get_or bytes 0 0) (u16 (get_or bytes 1 0 <<< 8))

-- The length and the frame, padded with zeros; no frame is longer than `padded_len`.
unfoldable pub protected_frame : List ℕ → ℕ → List ℕ
protected_frame frame padded_len =
    put_u16 (length frame) ++ (frame ++ replicate (padded_len - length frame) 0)

unfoldable pub data_datagram : ℕ → ℕ → ℕ → List ℕ → List ℕ
data_datagram gen_id index k frame =
    envelope.put (record {
      magic = fec_magic;
      gen_id = gen_id;
      index = index;
      k = k;
      parity_count = 0;
      protected_len = u16 (length frame);
      close_reason = 0;
    })
    ++ frame

-- `acc[j] ^= mul(factor, block[j])` for each `j` within the block.
unfoldable pub add_scaled : ℕ → List ℕ → List ℕ → List ℕ
add_scaled factor block [] = []
add_scaled factor [] (a ∷ acc) = a ∷ acc
add_scaled factor (b ∷ block) (a ∷ acc) = bit_xor a (mul factor b) ∷ add_scaled factor block acc

-- `acc[j] ^= block[j]`.
unfoldable pub add_block : List ℕ → List ℕ → List ℕ
add_block block [] = []
add_block [] (a ∷ acc) = a ∷ acc
add_block (b ∷ block) (a ∷ acc) = bit_xor a b ∷ add_block block acc
