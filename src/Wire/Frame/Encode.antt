-- ===== src/Wire/Frame/Encode.antt =====
-- What `encode_as` writes and what `decode_as` reads, for any struct that begins with a header.
use low_latency_udp_fanout.Common.{
  ℕ, ◌+◌, ◌^◌, ◌≤◌, ◌<◌, ◌≡◌, sym, ◌∙◌, ap, List, [], ◌++◌, some, length, length-append, drop,
  drop-append_length, u32, arith,
}
use mathlib.Core.List.{append-nil}
use low_latency_udp_fanout.Message.{Header, schema_version}
use low_latency_udp_fanout.Wire.Codec.{Codec}
use low_latency_udp_fanout.Wire.Codec.Laws.{IsLawful, unsigned-IsLawful}
use low_latency_udp_fanout.Wire.Fields
use low_latency_udp_fanout.Wire.Fields.{uint32}
use low_latency_udp_fanout.Wire.Fields.Laws.{FitsHeader}
use low_latency_udp_fanout.Wire.Frame.{magic, max_frame, with_body_len, encode_as, decode_as}

-- A struct of `n` wire bytes that begins with a header, whose length field is set by `set_len`.
pub record IsFramed {T : Type 0} (c : Codec T) (Fits : T → Type 0) (n : ℕ) (set_len : ℕ → T → T)
    (header_of : T → Header) : Type 0 where
  pub lawful : IsLawful c Fits n
  pub fits_datagram : (40 ≤ n) × (n + 4 ≤ max_frame)
  pub starts : (m : T) → (tail : List ℕ) × (c.put m ≡ Fields.header.put (header_of m) ++ tail)
  pub header-set : (k : ℕ) (m : T) → header_of (set_len k m) ≡ with_body_len k (header_of m)
  pub fits-set : (k : ℕ) (m : T) → k < 256 ^ 4 → Fits m → Fits (set_len k m)
  pub set-set : (j k : ℕ) (m : T) → set_len j (set_len k m) ≡ set_len j m
  pub set_own : (m : T) → set_len (header_of m).body_len m ≡ m
  pub fits-header : (m : T) → Fits m → FitsHeader (header_of m)

abbrev pub tag : List ℕ
tag = uint32.put magic

pub length-tag : length tag ≡ 4
length-tag = (unsigned-IsLawful 4).size magic (omega arith)

module _ {T : Type 0} {c : Codec T} {Fits : T → Type 0} {n : ℕ} {set_len : ℕ → T → T}
    {header_of : T → Header} (f : IsFramed c Fits n set_len header_of) where
  -- The length that the first pass finds is the one of the result.
  pub encode_as_lem : (m : T) → Fits m → encode_as c set_len m ≡ tag ++ c.put (set_len (n + 4) m)
  unfolding encode_as
  encode_as_lem m h = ap (λ k. tag ++ c.put (set_len k m)) found
    where
      found : u32 (length (tag ++ c.put (set_len 0 m))) ≡ n + 4
      found = omega (
        arith,
        length-append tag (c.put (set_len 0 m)),
        length-tag,
        f.lawful.size (set_len 0 m) (f.fits-set 0 m (omega arith) h),
        f.fits_datagram,
      )

  pub length-framed : (m : T) → Fits m → length (tag ++ c.put m) ≡ n + 4
  length-framed m h = omega (arith, length-append tag (c.put m), length-tag, f.lawful.size m h)

  drop-tag : (m : T) → drop 4 (tag ++ c.put m) ≡ c.put m ++ []
  drop-tag m =
      ap (λ k. drop k (tag ++ c.put m)) (sym length-tag)
      ∙ drop-append_length tag (c.put m)
      ∙ sym (append-nil (c.put m))

  -- A frame with the right length and version is read back.
  pub decode_as-framed :
      (size : ℕ) (m : T)
      → Fits m
      → (header_of m).version ≡ schema_version
      → (header_of m).body_len ≡ n + 4
      → decode_as c set_len header_of size (tag ++ c.put m) ≡ some (set_len size m, size)
  unfolding decode_as
  decode_as-framed size m h v l =
      rw (drop-tag m, f.lawful.forth m [] h, length-framed m h, v, l) (ground arith)
