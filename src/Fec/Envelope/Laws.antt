-- ===== src/Fec/Envelope/Laws.antt =====
-- harness/include/fec.h: write_envelope and read_envelope.
use low_latency_udp_fanout.Common.{◌^◌, ◌<◌, refl}
use low_latency_udp_fanout.Wire.Codec.Laws.{
  IsLawful, unsigned-IsLawful, pair-IsLawful, struct-IsLawful,
}
use low_latency_udp_fanout.Fec.Envelope.{
  Envelope, envelope, envelope_fields, build_envelope, envelope_size,
}

abbrev pub FitsEnvelope : Envelope → Type 0
FitsEnvelope h =
    (h.magic < 256 ^ 4)
    × ((h.gen_id < 256 ^ 4)
        × ((h.index < 256 ^ 2)
            × ((h.k < 256 ^ 2)
                × ((h.parity_count < 256 ^ 2)
                    × ((h.protected_len < 256 ^ 2) × (h.close_reason < 256 ^ 1))))))

pub envelope-IsLawful : IsLawful envelope FitsEnvelope envelope_size
unfolding envelope
envelope-IsLawful =
    struct-IsLawful envelope_fields build_envelope
      (pair-IsLawful (unsigned-IsLawful 4) (
        pair-IsLawful (unsigned-IsLawful 4) (
          pair-IsLawful (unsigned-IsLawful 2) (
            pair-IsLawful (unsigned-IsLawful 2) (
              pair-IsLawful (unsigned-IsLawful 2)
                (pair-IsLawful (unsigned-IsLawful 2) (unsigned-IsLawful 1)))))))
      (λ b. refl) (λ a. refl)
