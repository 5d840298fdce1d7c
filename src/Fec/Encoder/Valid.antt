-- ===== src/Fec/Encoder/Valid.antt =====
-- harness/include/fec.h: the state of an Encoder.
use low_latency_udp_fanout.Common.{
  ℕ, suc, ◌≤◌, ◌<◌, ◌≡◌, subst, arith, ltb, ◌==◌, ◌||◌, if◌then◌else◌, inl, inr, Bool-cases, List,
  [], ◌∷◌, ◌++◌, All, Option, none, some, length, length-append,
}
use low_latency_udp_fanout.Wire.Frame.{max_frame}
use low_latency_udp_fanout.Fec.Envelope.{max_generation}
use low_latency_udp_fanout.Fec.Encoder.{Encoder, BuiltGeneration, new_encoder, add, close, is_empty}

-- A frame that the encoder takes, no longer than the longest of its generation.
pub record IsFrame (max_len : ℕ) (frame : List ℕ) : Type 0 where
  pub some_bytes : 0 < length frame
  pub within : length frame ≤ max_len
  pub bytes : All (λ b. b < 256) frame

pub record IsValid (e : Encoder) : Type 0 where
  pub k-pos : 0 < e.k
  pub k-le : e.k ≤ 128
  pub parity-pos : 0 < e.parity_count
  pub parity-le : e.parity_count ≤ 16
  pub count : length e.frames ≤ e.k
  pub max_len-le : e.max_len ≤ max_frame
  pub all_frames : All (IsFrame e.max_len) e.frames

longer :
    (m n : ℕ) (frames : List (List ℕ)) → m ≤ n → All (IsFrame m) frames → All (IsFrame n) frames
longer m n [] le h = tt
longer m n (f ∷ frames) le (is, h) = (
  record { some_bytes = is.some_bytes; within = omega (arith, is.within); bytes = is.bytes },
  longer m n frames le h,
)

All-append_one :
    (m : ℕ) (frames : List (List ℕ)) (f : List ℕ)
    → All (IsFrame m) frames
    → IsFrame m f
    → All (IsFrame m) (frames ++ (f ∷ []))
All-append_one m [] f h is = (is, tt)
All-append_one m (g ∷ frames) f (one, h) is = (one, All-append_one m frames f h is)

abbrev pub AllOf : {A : Type 0} → (A → Type 0) → Option A → Type 0
AllOf P none = Unit
AllOf P (some a) = P a

made-IsValid : (k parity_count : ℕ) → AllOf IsValid (new_encoder k parity_count)
unfolding new_encoder
made-IsValid k parity_count =
    elim (Bool-cases
      ((k == 0) || ltb max_generation k || (parity_count == 0) || ltb 16 parity_count)) [
        | inl t ↦ rw t tt
        | inr f ↦ rw f (record {
          k-pos = ground arith;
          k-le = ground arith;
          parity-pos = ground arith;
          parity-le = ground arith;
          count = omega arith;
          max_len-le = omega arith;
          all_frames = tt;
        })
      ]

pub new_encoder-IsValid :
    (k parity_count : ℕ) (e : Encoder) → new_encoder k parity_count ≡ some e → IsValid e
new_encoder-IsValid k parity_count e made = subst (AllOf IsValid) made (made-IsValid k parity_count)

-- `add` keeps an encoder valid, whether it takes the frame of bytes or refuses it: at most `k` frames, none empty or longer
-- than `max_len`, and `max_len` within the largest frame.
pub add-IsValid :
    (e : Encoder) (frame : List ℕ) → IsValid e → All (λ b. b < 256) frame → IsValid (add e frame).1
unfolding add
add-IsValid e frame v bytes =
    elim (Bool-cases
      ((length frame == 0) || ltb max_frame (length frame) || (length e.frames == e.k))) [
        | inl t ↦ rw t v
        | inr f ↦
            let room : (0 < length frame)
                × (length frame ≤ max_frame)
                × (suc (length e.frames) ≤ e.k) =
              ground (arith, v.count) in
            let longest : ℕ = if ltb e.max_len (length frame) then length frame else e.max_len in
            let (old, new, bounded) : (e.max_len ≤ longest)
                × (length frame ≤ longest)
                × (longest ≤ max_frame) =
              ground (arith, v.max_len-le) in
            let taken : IsFrame longest frame = record {
              some_bytes = room.0;
              within = new;
              bytes = bytes;
            } in
            rw f (record {
              k-pos = v.k-pos;
              k-le = v.k-le;
              parity-pos = v.parity-pos;
              parity-le = v.parity-le;
              count = omega (arith, length-append e.frames (frame ∷ []));
              max_len-le = bounded;
              all_frames =
                  All-append_one longest e.frames frame
                    (longer e.max_len longest e.frames old v.all_frames) taken;
            })
      ]

closed-IsValid :
    (e : Encoder) (gen_id close_reason : ℕ)
    → IsValid e
    → AllOf (λ r. IsValid r.1) (close e gen_id close_reason)
unfolding close
closed-IsValid e gen_id close_reason v = elim (Bool-cases (is_empty e)) [
  | inl t ↦ rw t tt
  | inr f ↦ rw f (record {
    k-pos = v.k-pos;
    k-le = v.k-le;
    parity-pos = v.parity-pos;
    parity-le = v.parity-le;
    count = omega arith;
    max_len-le = omega arith;
    all_frames = tt;
  })
]

pub close-IsValid :
    (e e' : Encoder) (built : BuiltGeneration) (gen_id close_reason : ℕ)
    → IsValid e
    → close e gen_id close_reason ≡ some (built, e')
    → IsValid e'
close-IsValid e e' built gen_id close_reason v closed =
    subst (AllOf (λ r. IsValid r.1)) closed (closed-IsValid e gen_id close_reason v)
