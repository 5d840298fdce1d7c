-- ===== src/Fec/Recovery/Blocks.antt =====
-- harness/include/fec.h: put_u16, get_u16 and protected_frame.
use low_latency_udp_fanout.Common.{
  ℕ, zero, suc, ◌+◌, ◌-◌, ◌*◌, ◌/◌, ◌%◌, ◌^◌, ◌≤◌, ◌<◌, ◌≡◌, refl, sym, ◌∙◌, ap, ap₂, arith, List,
  [], ◌∷◌, ◌++◌, All, length, get_or, replicate, take, drop, bit_or, u8, u16, ◌<<<◌, ◌>>>◌,
  length-append, length-replicate, take-append_length,
}
use low_latency_udp_fanout.Common.Bits.{and_mask, or_low, or_split, halving}
use low_latency_udp_fanout.Fec.Envelope.{put_u16, get_u16, protected_frame}

pub length-protected_frame :
    (frame : List ℕ) (padded_len : ℕ)
    → length frame ≤ padded_len
    → length (protected_frame frame padded_len) ≡ padded_len + 2
unfolding protected_frame
length-protected_frame frame padded_len h = omega (
  arith,
  length-append frame (replicate (padded_len - length frame) 0),
  length-replicate {A = ℕ} (padded_len - length frame) 0,
)

or_comm : (a b : ℕ) → bit_or a b ≡ bit_or b a
or_comm =
    halving (λ a. (b : ℕ) → bit_or a b ≡ bit_or b a)
      (halving (λ b. bit_or 0 b ≡ bit_or b 0) refl
        (λ n ih. omega (arith, or_split 0 (suc n), or_split (suc n) 0, ih)))
      (λ n ih b. omega (arith, or_split (suc n) b, or_split b (suc n), ih (b / 2)))

-- Every frame is shorter than 2 ^ 16 bytes, so that two bytes hold its length.
get_u16-put_u16 : (n : ℕ) (rest : List ℕ) → n < 2 ^ 16 → get_u16 (put_u16 n ++ rest) ≡ n
get_u16-put_u16 n rest lt =
    let low = and_mask 8 n in
    let split = or_low 8 (n / 256) (n % 256) (omega arith) in
    let fits : u16 (u8 (n >>> 8) <<< 8) ≡ n / 256 * 2 ^ 8 = omega arith in
    ap₂ bit_or low fits ∙ or_comm (n % 256) (n / 256 * 2 ^ 8) ∙ split ∙ omega arith

pub get_u16-protected_frame :
    (frame : List ℕ) (padded_len : ℕ)
    → length frame < 2 ^ 16
    → get_u16 (protected_frame frame padded_len) ≡ length frame
unfolding protected_frame
get_u16-protected_frame frame padded_len lt =
    get_u16-put_u16 (length frame) (frame ++ replicate (padded_len - length frame) 0) lt

-- The frame is read back from its block, however much the block was padded.
pub block_frame :
    (frame : List ℕ) (padded_len : ℕ)
    → length frame < 2 ^ 16
    → take (get_u16 (protected_frame frame padded_len)) (drop 2 (protected_frame frame padded_len))
      ≡ frame
unfolding protected_frame
block_frame frame padded_len lt =
    ap (λ n. take n (frame ++ replicate (padded_len - length frame) 0))
      (get_u16-protected_frame frame padded_len lt)
    ∙ take-append_length frame (replicate (padded_len - length frame) 0)

-- Padding adds zeros, which a read past the end gives too.
pub get_or-pad : (frame : List ℕ) (n t : ℕ) → get_or (frame ++ replicate n 0) t 0 ≡ get_or frame t 0
get_or-pad [] zero t = refl
get_or-pad [] (suc n) zero = refl
get_or-pad [] (suc n) (suc t) = get_or-pad [] n t
get_or-pad (b ∷ frame) n zero = refl
get_or-pad (b ∷ frame) n (suc t) = get_or-pad frame n t

pub get_or-protected_frame :
    (frame : List ℕ) (p q t : ℕ)
    → get_or (protected_frame frame p) t 0 ≡ get_or (protected_frame frame q) t 0
unfolding protected_frame
get_or-protected_frame frame p q zero = refl
get_or-protected_frame frame p q (suc zero) = refl
get_or-protected_frame frame p q (suc (suc t)) =
    get_or-pad frame (p - length frame) t ∙ sym (get_or-pad frame (q - length frame) t)

get_or-byte : (bytes : List ℕ) (t : ℕ) → All (λ b. b < 256) bytes → get_or bytes t 0 < 256
get_or-byte [] t h = omega arith
get_or-byte (b ∷ bytes) zero (lt, h) = lt
get_or-byte (b ∷ bytes) (suc t) (lt, h) = get_or-byte bytes t h

pub protected_frame-lt :
    (frame : List ℕ) (padded_len t : ℕ)
    → All (λ b. b < 256) frame
    → get_or (protected_frame frame padded_len) t 0 < 256
unfolding protected_frame
protected_frame-lt frame padded_len zero h = let low = and_mask 8 (length frame) in omega arith
protected_frame-lt frame padded_len (suc zero) h = omega arith
protected_frame-lt frame padded_len (suc (suc t)) h =
    let e = get_or-pad frame (padded_len - length frame) t in
    let lt = get_or-byte frame t h in omega arith

pub list_ext :
    (xs ys : List ℕ)
    → length xs ≡ length ys
    → ((t : ℕ) → t < length ys → get_or xs t 0 ≡ get_or ys t 0)
    → xs ≡ ys
list_ext [] [] e h = refl
list_ext [] (y ∷ ys) e h = absurd (omega arith)
list_ext (x ∷ xs) [] e h = absurd (omega arith)
list_ext (x ∷ xs) (y ∷ ys) e h =
    ap₂ (λ a rest. a ∷ rest) (h 0 (omega arith))
      (list_ext xs ys (omega arith) (λ t lt. h (suc t) (omega arith)))

append-IsBytes :
    (xs ys : List ℕ) → All (λ b. b < 256) xs → All (λ b. b < 256) ys → All (λ b. b < 256) (xs ++ ys)
append-IsBytes [] ys h g = g
append-IsBytes (x ∷ xs) ys (lt, h) g = (lt, append-IsBytes xs ys h g)

zeros-IsBytes : (n : ℕ) → All (λ b. b < 256) (replicate n 0)
zeros-IsBytes zero = tt
zeros-IsBytes (suc n) = (omega arith, zeros-IsBytes n)

pub protected_frame-IsBytes :
    (frame : List ℕ) (padded_len : ℕ)
    → All (λ b. b < 256) frame
    → All (λ b. b < 256) (protected_frame frame padded_len)
unfolding protected_frame
protected_frame-IsBytes frame padded_len h =
    let low = and_mask 8 (length frame) in
    (
      omega arith,
      (omega arith, append-IsBytes frame _ h (zeros-IsBytes (padded_len - length frame))),
    )
