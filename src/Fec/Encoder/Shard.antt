-- ===== src/Fec/Encoder/Shard.antt =====
-- harness/include/fec.h: the parity shards of Encoder::close, byte by byte.
use low_latency_udp_fanout.Common.{
  ℕ, zero, suc, ◌+◌, ◌-◌, ◌/◌, ◌%◌, ◌^◌, ◌<◌, ◌≡◌, refl, sym, ◌∙◌, ap, ap₂, arith, List, [], length,
  get_or, length-replicate, get_or-replicate,
}
use low_latency_udp_fanout.Common.Bits.{and_mask}
use low_latency_udp_fanout.Fec.Field.{mul, coefficient}
use low_latency_udp_fanout.Fec.Field.Xor.{◌⊕◌, zero-xor}
use low_latency_udp_fanout.Fec.Field.Laws.{one-mul}
use low_latency_udp_fanout.Fec.Envelope.{protected_frame}
use low_latency_udp_fanout.Fec.Encoder.{Encoder, zeros}
use low_latency_udp_fanout.Fec.Encoder.Valid.{IsFrame, IsValid}
use low_latency_udp_fanout.Fec.Encoder.Datagrams.{shard_of}
use low_latency_udp_fanout.Fec.Recovery.Coefficients.{coefficient-zero}
use low_latency_udp_fanout.Fec.Recovery.Blocks.{
  length-protected_frame, get_or-pad, protected_frame-lt,
}
use low_latency_udp_fanout.Fec.Recovery.Frames.{nth-IsFrame}
use low_latency_udp_fanout.Fec.Recovery.Parity.{
  across, term, length-parity_shard, get_or-parity_shard,
}

-- The bytes that a frame gives to the parity: its length in two bytes, the low one first, its own bytes, and zeros.
unfoldable pub block_byte : List ℕ → ℕ → ℕ
block_byte frame zero = length frame % 256
block_byte frame (suc zero) = length frame / 256
block_byte frame (suc (suc t)) = get_or frame t 0

-- The share of a byte of column `c` in the parity of a row: in row zero the byte itself.
unfoldable pub share : ℕ → ℕ → ℕ → ℕ
share zero c b = b
share (suc row) c b = mul (coefficient (suc row) c) b

-- The sum, which is an XOR, of the shares of all frames in byte `t` of a row.
unfoldable pub parity_byte : List (List ℕ) → ℕ → ℕ → ℕ
parity_byte frames row t =
    across (length frames) 0 (λ c. share row c (block_byte (get_or frames c []) t))

get_or-protected_frame-block_byte :
    (frame : List ℕ) (padded_len t : ℕ)
    → length frame < 2 ^ 16
    → get_or (protected_frame frame padded_len) t 0 ≡ block_byte frame t
unfolding protected_frame block_byte
get_or-protected_frame-block_byte frame padded_len zero lt = and_mask 8 (length frame)
get_or-protected_frame-block_byte frame padded_len (suc zero) lt = omega arith
get_or-protected_frame-block_byte frame padded_len (suc (suc t)) lt =
    get_or-pad frame (padded_len - length frame) t

across_ext :
    (k c : ℕ) (f g : ℕ → ℕ)
    → ((i : ℕ) → i < k → f (c + i) ≡ g (c + i))
    → across k c f ≡ across k c g
unfolding across
across_ext zero c f g same = refl
across_ext (suc k) c f g same =
    let here : c + 0 ≡ c = omega arith in
    ap₂ (λ p q. p ⊕ q) (ap f (sym here) ∙ same 0 (omega arith) ∙ ap g here)
      (across_ext k (suc c) f g (λ i lt.
        let next : suc c + i ≡ c + suc i = omega arith in
        ap f next ∙ same (suc i) (omega arith) ∙ ap g (sym next)))

module _ {e : Encoder} (v : IsValid e) where
  nth : (i : ℕ) → i < length e.frames → IsFrame e.max_len (get_or e.frames i [])
  nth i lt = nth-IsFrame e.max_len e.frames i v.all_frames lt

  same_byte :
      (i t : ℕ)
      → i < length e.frames
      → get_or (protected_frame (get_or e.frames i []) e.max_len) t 0
        ≡ block_byte (get_or e.frames i []) t
  same_byte i t lt =
      get_or-protected_frame-block_byte (get_or e.frames i []) e.max_len t
        (omega (arith, (nth i lt).within, v.max_len-le))

  term-share :
      (row i t : ℕ)
      → i < length e.frames
      → term (λ c s. block_byte (get_or e.frames c []) s) row t i
        ≡ share row i (block_byte (get_or e.frames i []) t)
  unfolding share
  term-share zero i t lt =
      ap (λ c. mul c (block_byte (get_or e.frames i []) t))
        (coefficient-zero i (omega (arith, v.count, v.k-le)))
      ∙ one-mul _ (
          omega (
            arith,
            same_byte i t lt,
            protected_frame-lt (get_or e.frames i []) e.max_len t (nth i lt).bytes,
          ))
  term-share (suc row) i t lt = refl

  pub length-shard_of : (row : ℕ) → length (shard_of e row) ≡ e.max_len + 2
  length-shard_of row =
      length-parity_shard row e.max_len 0 e.frames (zeros e.max_len)
      ∙ length-replicate {A = ℕ} (e.max_len + 2) 0

  pub get_or-shard_of : (row t : ℕ) → get_or (shard_of e row) t 0 ≡ parity_byte e.frames row t
  unfolding parity_byte
  get_or-shard_of row t =
      get_or-parity_shard row e.max_len 0 (λ c s. block_byte (get_or e.frames c []) s) e.frames
        (zeros e.max_len) t
        (λ i lt. omega (
          arith,
          length-replicate {A = ℕ} (e.max_len + 2) 0,
          length-protected_frame (get_or e.frames i []) e.max_len (nth i lt).within,
        ))
        (λ i lt.
          let here : i ≡ 0 + i = omega arith in
          same_byte i t lt ∙ ap (λ c. block_byte (get_or e.frames c []) t) here)
      ∙ ap
          (λ z.
            z
            ⊕ across (length e.frames) 0 (term (λ c s. block_byte (get_or e.frames c []) s) row t))
          (get_or-replicate {A = ℕ} (e.max_len + 2) t 0)
      ∙ zero-xor _
      ∙ across_ext (length e.frames) 0 _ _ (λ i lt.
        let here : 0 + i ≡ i = omega arith in
        ap (term (λ c s. block_byte (get_or e.frames c []) s) row t) here
        ∙ term-share row i t lt
        ∙ ap (λ c. share row c (block_byte (get_or e.frames c []) t)) (sym here))
