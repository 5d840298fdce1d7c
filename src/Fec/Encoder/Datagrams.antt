-- ===== src/Fec/Encoder/Datagrams.antt =====
-- harness/include/fec.h: the datagrams of Encoder::close, one by one.
use low_latency_udp_fanout.Common.{
  ℕ, zero, suc, ◌+◌, ◌^◌, ◌≤◌, ◌<◌, ◌≡◌, refl, sym, ◌∙◌, ap, ap₂, arith, u16, List, [], ◌∷◌, ◌++◌,
  All, some, length, get_or,
}
use low_latency_udp_fanout.Wire.Frame.{max_frame}
use low_latency_udp_fanout.Fec.Field.Xor.{◌⊕◌}
use low_latency_udp_fanout.Fec.Field.Laws.{one-mul}
use low_latency_udp_fanout.Fec.Envelope.{
  Envelope, envelope, fec_magic, protected_frame, data_datagram, add_block, add_scaled,
}
use low_latency_udp_fanout.Fec.Envelope.Laws.{envelope-IsLawful}
use low_latency_udp_fanout.Fec.Encoder.{
  Encoder, zeros, data_datagrams, first_parity, parity_shard, parity_header, parity_datagram,
  extra_parities,
}
use low_latency_udp_fanout.Fec.Encoder.Valid.{IsFrame, IsValid}
use low_latency_udp_fanout.Fec.Recovery.Coefficients.{coefficient-zero}
use low_latency_udp_fanout.Fec.Recovery.Blocks.{protected_frame-IsBytes}

add_scaled-one :
    (block acc : List ℕ) → All (λ b. b < 256) block → add_scaled 1 block acc ≡ add_block block acc
unfolding add_scaled add_block
add_scaled-one block [] h = refl
add_scaled-one [] (a ∷ acc) h = refl
add_scaled-one (b ∷ block) (a ∷ acc) (lt, h) =
    ap₂ (λ p q. (a ⊕ p) ∷ q) (one-mul b lt) (add_scaled-one block acc h)

-- For frames of bytes in at most 128 columns, the plain XOR that `close` takes for the first parity is the shard that the
-- general loop over the coefficients of row zero gives.
pub first_parity-parity_shard :
    (max_len col : ℕ) (frames : List (List ℕ)) (acc : List ℕ)
    → All (IsFrame max_len) frames
    → col + length frames ≤ 128
    → first_parity max_len frames acc ≡ parity_shard 0 max_len col frames acc
unfolding first_parity parity_shard
first_parity-parity_shard max_len col [] acc h le = refl
first_parity-parity_shard max_len col (f ∷ frames) acc (one, h) le =
    ap (first_parity max_len frames) (
      sym (
        ap (λ c. add_scaled c (protected_frame f max_len) acc) (coefficient-zero col (omega arith))
        ∙ add_scaled-one (protected_frame f max_len) acc
            (protected_frame-IsBytes f max_len one.bytes)))
    ∙ first_parity-parity_shard max_len (suc col) frames _ h (omega arith)

-- The header of a data datagram.
abbrev pub data_header : ℕ → ℕ → ℕ → ℕ → Envelope
data_header gen_id index k len = record {
  magic = fec_magic;
  gen_id = gen_id;
  index = index;
  k = k;
  parity_count = 0;
  protected_len = len;
  close_reason = 0;
}

pub length-data_datagrams :
    (gen_id k i : ℕ) (frames : List (List ℕ))
    → length (data_datagrams gen_id k i frames) ≡ length frames
unfolding data_datagrams
length-data_datagrams gen_id k i [] = refl
length-data_datagrams gen_id k i (f ∷ frames) =
    ap suc (length-data_datagrams gen_id k (suc i) frames)

read_data :
    (gen_id k i : ℕ) (frame : List ℕ)
    → gen_id < 2 ^ 32
    → k ≤ 128
    → i < 128
    → length frame ≤ max_frame
    → envelope.get (data_datagram gen_id i k frame)
      ≡ some (data_header gen_id i k (length frame), frame)
unfolding data_datagram
read_data gen_id k i frame id-lt k-le i-lt short =
    let same : u16 (length frame) ≡ length frame = omega arith in
    ap (λ len. envelope.get (envelope.put (data_header gen_id i k len) ++ frame)) same
    ∙ envelope-IsLawful.forth (data_header gen_id i k (length frame)) frame (
      omega arith,
      (omega arith, (omega arith, (omega arith, (omega arith, (omega arith, omega arith))))),
    )

pub nth_data :
    (gen_id k lo max_len : ℕ) (frames : List (List ℕ)) (i : ℕ)
    → gen_id < 2 ^ 32
    → k ≤ 128
    → lo + length frames ≤ 128
    → max_len ≤ max_frame
    → All (IsFrame max_len) frames
    → i < length frames
    → envelope.get (get_or (data_datagrams gen_id k lo frames) i [])
      ≡ some (data_header gen_id (lo + i) k (length (get_or frames i [])), get_or frames i [])
unfolding data_datagrams
nth_data gen_id k lo max_len [] i id-lt k-le le short h lt = absurd (omega arith)
nth_data gen_id k lo max_len (f ∷ frames) zero id-lt k-le le short (one, h) lt =
    let e : lo ≡ lo + 0 = omega arith in
    read_data gen_id k lo f id-lt k-le (omega arith) (omega (arith, one.within))
    ∙ ap (λ j. some (data_header gen_id j k (length f), f)) e
nth_data gen_id k lo max_len (f ∷ frames) (suc i) id-lt k-le le short (one, h) lt =
    let e : suc lo + i ≡ lo + suc i = omega arith in
    nth_data gen_id k (suc lo) max_len frames i id-lt k-le (omega arith) short h (omega arith)
    ∙ ap (λ j. some (data_header gen_id j k (length (get_or frames i [])), get_or frames i [])) e

-- The shard of a row, in the words of the encoder.
abbrev pub shard_of : Encoder → ℕ → List ℕ
shard_of e row = parity_shard row e.max_len 0 e.frames (zeros e.max_len)

pub length-extra_parities :
    (e : Encoder) (gen_id close_reason rounds row : ℕ)
    → length (extra_parities e gen_id close_reason rounds row) ≡ rounds
unfolding extra_parities
length-extra_parities e gen_id close_reason zero row = refl
length-extra_parities e gen_id close_reason (suc rounds) row =
    ap suc (length-extra_parities e gen_id close_reason rounds (suc row))

pub nth_parity :
    (e : Encoder) (gen_id close_reason rounds lo i : ℕ)
    → i < rounds
    → get_or (extra_parities e gen_id close_reason rounds lo) i []
      ≡ parity_datagram e gen_id close_reason (lo + i) (shard_of e (lo + i))
unfolding extra_parities
nth_parity e gen_id close_reason zero lo i lt = absurd (omega arith)
nth_parity e gen_id close_reason (suc rounds) lo zero lt =
    let same : lo ≡ lo + 0 = omega arith in
    ap (λ r. parity_datagram e gen_id close_reason r (shard_of e r)) same
nth_parity e gen_id close_reason (suc rounds) lo (suc i) lt =
    let same : suc lo + i ≡ lo + suc i = omega arith in
    nth_parity e gen_id close_reason rounds (suc lo) i (omega arith)
    ∙ ap (λ r. parity_datagram e gen_id close_reason r (shard_of e r)) same

pub read_parity :
    (e : Encoder) (gen_id close_reason row : ℕ) (shard : List ℕ)
    → IsValid e
    → gen_id < 2 ^ 32
    → close_reason < 256
    → row < 16
    → envelope.get (parity_datagram e gen_id close_reason row shard)
      ≡ some (parity_header e gen_id close_reason row, shard)
read_parity e gen_id close_reason row shard v id-lt reason-lt row-lt =
    envelope-IsLawful.forth (parity_header e gen_id close_reason row) shard (
      omega arith,
      (
        omega arith,
        (
          omega (arith, v.count, v.k-le),
          (
            omega (arith, v.count, v.k-le),
            (omega (arith, v.parity-le), (omega arith, omega arith)),
          ),
        ),
      ),
    )
