-- ===== src/Fec/Encoder/Closed.antt =====
-- harness/include/fec.h: the datagrams of Encoder::close, together.
use low_latency_udp_fanout.Common.{
  ℕ, zero, suc, ◌+◌, ◌-◌, ◌^◌, ◌≤◌, ◌<◌, ◌≡◌, refl, sym, ◌∙◌, ap, subst, arith, u16, inl, inr,
  Bool-cases, List, [], ◌∷◌, All, some, length, get_or, length-append,
}
use low_latency_udp_fanout.Fec.Envelope.{envelope, fec_magic, data_datagram}
use low_latency_udp_fanout.Fec.Envelope.Laws.{envelope-IsLawful}
use low_latency_udp_fanout.Fec.Encoder.{
  Encoder, BuiltGeneration, close, is_empty, zeros, data_datagrams, first_parity, parity_header,
  parity_datagram, extra_parities,
}
use low_latency_udp_fanout.Fec.Encoder.Valid.{IsFrame, IsValid, AllOf}
use low_latency_udp_fanout.Fec.Encoder.Datagrams.{
  data_header, shard_of, first_parity-parity_shard, nth_data, nth_parity, read_parity,
  length-data_datagrams, length-extra_parities,
}
use low_latency_udp_fanout.Fec.Encoder.Shard.{parity_byte, length-shard_of, get_or-shard_of}

-- The datagrams in terms of the shards of the rows.
abbrev built_from : Encoder → ℕ → ℕ → BuiltGeneration
built_from e gen_id close_reason = record {
  datagrams = data_datagrams gen_id e.k 0 e.frames;
  parity = parity_datagram e gen_id close_reason 0 (shard_of e 0);
  extra_parity = extra_parities e gen_id close_reason (e.parity_count - 1) 1;
}

built_all :
    (e : Encoder) (gen_id close_reason : ℕ)
    → IsValid e
    → AllOf (λ r. r.0 ≡ built_from e gen_id close_reason) (close e gen_id close_reason)
unfolding close
built_all e gen_id close_reason v = elim (Bool-cases (is_empty e)) [
  | inl t ↦ rw t tt
  | inr f ↦
      let same : first_parity e.max_len e.frames (zeros e.max_len) ≡ shard_of e 0 =
        first_parity-parity_shard e.max_len 0 e.frames (zeros e.max_len) v.all_frames
          (omega (arith, v.count, v.k-le)) in
      rw f (
        ap
          (λ p. record {
            datagrams = data_datagrams gen_id e.k 0 e.frames;
            parity = parity_datagram e gen_id close_reason 0 p;
            extra_parity = extra_parities e gen_id close_reason (e.parity_count - 1) 1;
          })
          same)
]

-- What a parity datagram of a row says of the frames of the encoder.
pub record IsParityOf (e : Encoder) (gen_id close_reason row : ℕ) (datagram : List ℕ) : Type 0 where
  pub shard : List ℕ
  pub read :
      envelope.get datagram
      ≡ some (
        record {
          magic = fec_magic;
          gen_id = gen_id;
          index = length e.frames + row;
          k = length e.frames;
          parity_count = e.parity_count;
          protected_len = e.max_len + 2;
          close_reason = close_reason;
        },
        shard,
      )
  pub size : length shard ≡ e.max_len + 2
  pub bytes : (t : ℕ) → get_or shard t 0 ≡ parity_byte e.frames row t

module _ {e e' : Encoder} {built : BuiltGeneration} (gen_id close_reason : ℕ) (v : IsValid e)
    (closed : close e gen_id close_reason ≡ some (built, e')) where
  made : built ≡ built_from e gen_id close_reason
  made =
      subst (AllOf (λ r. r.0 ≡ built_from e gen_id close_reason)) closed
        (built_all e gen_id close_reason v)

  nth_row :
      (row : ℕ)
      → row < e.parity_count
      → get_or
          (parity_datagram e gen_id close_reason 0 (shard_of e 0)
            ∷ extra_parities e gen_id close_reason (e.parity_count - 1) 1)
          row
          []
        ≡ parity_datagram e gen_id close_reason row (shard_of e row)
  nth_row zero lt = refl
  nth_row (suc row) lt =
      let next : 1 + row ≡ suc row = omega arith in
      nth_parity e gen_id close_reason (e.parity_count - 1) 1 row (omega arith)
      ∙ ap (λ r. parity_datagram e gen_id close_reason r (shard_of e r)) next

  -- `close` on a valid encoder, with identifiers in range: the first and the further parity datagrams, in a row, read
  -- back as a header with the identifier of the generation, the number of frames plus the row as its index, the number
  -- of frames, the number of rows, the longest length plus 2 and the reason of closing, and a payload of that length.
  -- Each byte of the payload is the XOR over the frames of their bytes, the two of the length first and zeros behind
  -- the frame, which are multiplied in the field with the coefficient of row and column, or in row zero taken as they
  -- are.
  pub close-parities_read :
      (row : ℕ)
      → gen_id < 2 ^ 32
      → close_reason < 256
      → row < e.parity_count
      → IsParityOf e gen_id close_reason row (get_or (built.parity ∷ built.extra_parity) row [])
  close-parities_read row id-lt reason-lt lt = record {
    shard = shard_of e row;
    read =
        ap (λ b. envelope.get (get_or (b.parity ∷ b.extra_parity) row [])) made
        ∙ ap envelope.get (nth_row row lt)
        ∙ read_parity e gen_id close_reason row (shard_of e row) v id-lt reason-lt
            (omega (arith, v.parity-le))
        ∙ ap
            (λ len. some (
              record {
                magic = fec_magic;
                gen_id = gen_id;
                index = length e.frames + row;
                k = length e.frames;
                parity_count = e.parity_count;
                protected_len = len;
                close_reason = close_reason;
              },
              shard_of e row,
            ))
            short;
    size = length-shard_of v row;
    bytes = get_or-shard_of v row;
  }
    where
      short : u16 (e.max_len + 2) ≡ e.max_len + 2
      short = omega (arith, v.max_len-le)

  -- `close` on a valid encoder, with an identifier in range: each data datagram reads back as its number, its length
  -- and exactly the frame that was added.
  pub close-datagrams_read :
      (i : ℕ)
      → gen_id < 2 ^ 32
      → i < length e.frames
      → envelope.get (get_or built.datagrams i [])
        ≡ some (data_header gen_id i e.k (length (get_or e.frames i [])), get_or e.frames i [])
  close-datagrams_read i id-lt lt =
      let e0 : 0 + i ≡ i = omega arith in
      ap (λ b. envelope.get (get_or b.datagrams i [])) made
      ∙ nth_data gen_id e.k 0 e.max_len e.frames i id-lt v.k-le (omega (arith, v.count, v.k-le))
          v.max_len-le v.all_frames lt
      ∙ ap
          (λ j.
            some (data_header gen_id j e.k (length (get_or e.frames i [])), get_or e.frames i []))
          e0

  size_data :
      (lo : ℕ) (frames : List (List ℕ))
      → gen_id < 2 ^ 32
      → lo + length frames ≤ 128
      → All (IsFrame e.max_len) frames
      → All (λ d. length d ≤ 1043) (data_datagrams gen_id e.k lo frames)
  unfolding data_datagrams data_datagram
  size_data lo [] id-lt le h = tt
  size_data lo (f ∷ frames) id-lt le (one, h) =
      let head = data_header gen_id lo e.k (u16 (length f)) in
      let size = envelope-IsLawful.size head (
        omega arith,
        (
          omega arith,
          (omega arith, (omega (arith, v.k-le), (omega arith, (omega arith, omega arith)))),
        ),
      ) in
      (
        omega (arith, size, length-append (envelope.put head) f, one.within, v.max_len-le),
        size_data (suc lo) frames id-lt (omega arith) h,
      )

  size_parity :
      (row : ℕ)
      → gen_id < 2 ^ 32
      → close_reason < 256
      → row < 16
      → length (parity_datagram e gen_id close_reason row (shard_of e row)) ≤ 1043
  size_parity row id-lt reason-lt lt =
      let head = parity_header e gen_id close_reason row in
      let size = envelope-IsLawful.size head (
        omega arith,
        (
          omega arith,
          (
            omega (arith, v.count, v.k-le),
            (
              omega (arith, v.count, v.k-le),
              (omega (arith, v.parity-le), (omega arith, omega arith)),
            ),
          ),
        ),
      ) in
      omega (
        arith,
        size,
        length-append (envelope.put head) (shard_of e row),
        length-shard_of v row,
        v.max_len-le,
      )

  size_extra :
      (rounds row : ℕ)
      → gen_id < 2 ^ 32
      → close_reason < 256
      → row + rounds ≤ 16
      → All (λ d. length d ≤ 1043) (extra_parities e gen_id close_reason rounds row)
  unfolding extra_parities
  size_extra zero row id-lt reason-lt le = tt
  size_extra (suc rounds) row id-lt reason-lt le = (
    size_parity row id-lt reason-lt (omega arith),
    size_extra rounds (suc row) id-lt reason-lt (omega arith),
  )

  -- `close` on a valid encoder, with identifiers in range: there are as many data datagrams as frames and as many
  -- parity datagrams as rows, and none is longer than 1043 bytes, so that each fits into one packet of 1500.
  pub close-sizes :
      gen_id < 2 ^ 32
      → close_reason < 256
      → (length built.datagrams ≡ length e.frames)
        × (length (built.parity ∷ built.extra_parity) ≡ e.parity_count)
        × All (λ d. length d ≤ 1043) built.datagrams
        × All (λ d. length d ≤ 1043) (built.parity ∷ built.extra_parity)
  close-sizes id-lt reason-lt = (
    ap (λ b. length b.datagrams) made ∙ length-data_datagrams gen_id e.k 0 e.frames,
    ap (λ b. suc (length b.extra_parity)) made
        ∙ ap suc (length-extra_parities e gen_id close_reason (e.parity_count - 1) 1)
        ∙ omega (arith, v.parity-pos),
    subst (λ b. All (λ d. length d ≤ 1043) b.datagrams) (sym made)
        (size_data 0 e.frames id-lt (omega (arith, v.count, v.k-le)) v.all_frames),
    subst (λ b. All (λ d. length d ≤ 1043) (b.parity ∷ b.extra_parity)) (sym made)
        (
          size_parity 0 id-lt reason-lt (omega arith),
          size_extra (e.parity_count - 1) 1 id-lt reason-lt
              (omega (arith, v.parity-le, v.parity-pos)),
        ),
  )
