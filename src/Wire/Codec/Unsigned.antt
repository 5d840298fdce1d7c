-- ===== src/Wire/Codec/Unsigned.antt =====
-- Integers on the wire: what is written is read back, and what is read was written so.
use low_latency_udp_fanout.Common.{
  ℕ, zero, suc, ◌+◌, ◌*◌, ◌/◌, ◌%◌, ◌^◌, ◌≤◌, ◌<◌, ◌≡◌, refl, sym, ◌∙◌, ap, ap₂, false, some, List,
  [], ◌∷◌, ◌++◌, bit_or, ltb, length, length-append, u8, arith, All,
}
use low_latency_udp_fanout.Common.Bits.{or_low}
use low_latency_udp_fanout.Wire.Codec.{put_bytes, get_bytes, get_unsigned}
use native.Mathlib.Nat.{
  mul-add-div, div-eq_of_lt, pow-suc, pow-le-pow_right, one-le-pow, div-add-mod, mod-eq_of_lt,
  mod-lt, add-mul-mod_self_left, mul-le-mul_left,
}

abbrev pub IsBytes : List ℕ → Type 0
IsBytes = All (λ b. b < 256)

pub length-put_bytes : (i v : ℕ) → length (put_bytes i v) ≡ i
unfolding put_bytes
length-put_bytes zero v = refl
length-put_bytes (suc i) v = ap suc (length-put_bytes i v)

pub put_bytes-IsBytes : (i v : ℕ) → IsBytes (put_bytes i v)
unfolding put_bytes
put_bytes-IsBytes zero v = tt
put_bytes-IsBytes (suc i) v = (omega arith, put_bytes-IsBytes i v)

pow_pos : (i : ℕ) → 0 < 256 ^ i
pow_pos i = one-le-pow i 256 (omega arith)

-- The digit at place `i` and the digits below it.
split_digit : (i v : ℕ) → v % 256 ^ suc i ≡ v / 256 ^ i % 256 * 256 ^ i + v % 256 ^ i
split_digit i v =
    rw (pow-suc 256 i)
      (ap (λ (t : ℕ). t % (256 ^ i * 256)) parts ∙ add-mul-mod_self_left _ _ _ ∙ mod-eq_of_lt small)
  where
    parts : v ≡ v / 256 ^ i % 256 * 256 ^ i + v % 256 ^ i + 256 ^ i * 256 * (v / 256 ^ i / 256)
    parts = omega (
      arith,
      div-add-mod v (256 ^ i),
      ap (λ (t : ℕ). 256 ^ i * t) (div-add-mod (v / 256 ^ i) 256),
    )

    small : v / 256 ^ i % 256 * 256 ^ i + v % 256 ^ i < 256 ^ i * 256
    small = omega (
      arith,
      mod-lt v (pow_pos i),
      mul-le-mul_left {m = v / 256 ^ i % 256} {n = 255} (256 ^ i) (omega arith),
    )

-- One byte enters at the low end, and the cast cuts nothing off.
shift_in :
    (j width bits b : ℕ)
    → suc j ≤ width
    → bits < 256 ^ j
    → b < 256
    → (bit_or (bits * 2 ^ 8) b % 256 ^ width ≡ bits * 256 + b) × (bits * 256 + b < 256 ^ suc j)
shift_in j width bits b le small byte =
    (rw (or_low 8 bits b byte) (mod-eq_of_lt (omega (arith, fits, wide))), fits)
  where
    fits : bits * 256 + b < 256 ^ suc j
    fits = omega (arith, pow-suc 256 j)

    wide : 256 ^ suc j ≤ 256 ^ width
    wide = pow-le-pow_right {n = 256} (omega arith) {i = suc j} {j = width} le

pub get_bytes-put_bytes :
    (i j width bits v : ℕ) (rest : List ℕ)
    → j + i ≡ width
    → bits < 256 ^ j
    → get_bytes width i bits (put_bytes i v ++ rest) ≡ some (bits * 256 ^ i + v % 256 ^ i, rest)
unfolding get_bytes put_bytes
get_bytes-put_bytes zero j width bits v rest e small = ap (λ n. some (n, rest)) (omega arith)
get_bytes-put_bytes (suc i) j width bits v rest e small =
    let d : ℕ = u8 (v / 256 ^ i) in
    let step = shift_in j width bits d (omega arith) small (omega arith) in
    rw step.0 (
      get_bytes-put_bytes i (suc j) width (bits * 256 + d) v rest (omega arith) step.1
      ∙ ap (λ n. some (n, rest))
          (omega (arith, split_digit i v, ap (λ (t : ℕ). bits * t) (pow-suc 256 i))))

pub get_unsigned-put_bytes :
    (width v : ℕ) (rest : List ℕ)
    → v < 256 ^ width
    → get_unsigned width (put_bytes width v ++ rest) ≡ some (v, rest)
unfolding get_unsigned
get_unsigned-put_bytes width v rest fits =
    let long : ltb (length (put_bytes width v ++ rest)) width ≡ false =
      ground (arith, length-append (put_bytes width v) rest, length-put_bytes width v) in
    rw long (
      get_bytes-put_bytes width 0 width 0 v rest (omega arith) (pow_pos 0)
      ∙ ap (λ n. some (n, rest)) (omega (arith, mod-eq_of_lt fits)))

-- The digits above the bytes that are written do not matter.
put_bytes_high : (i c w : ℕ) → put_bytes i (256 ^ i * c + w) ≡ put_bytes i w
unfolding put_bytes
put_bytes_high zero c w = refl
put_bytes_high (suc i) c w =
    let tail_same : put_bytes i (256 ^ suc i * c + w) ≡ put_bytes i w =
      rw regroup (put_bytes_high i (256 * c) w) in
    ap₂ (λ x xs. x ∷ xs) head_same tail_same
  where
    regroup : 256 ^ suc i * c + w ≡ 256 ^ i * (256 * c) + w
    regroup = omega (arith, pow-suc 256 i, ap (λ (t : ℕ). t * c) (pow-suc 256 i))

    head_same : u8 ((256 ^ suc i * c + w) / 256 ^ i) ≡ u8 (w / 256 ^ i)
    head_same = rw (regroup, mul-add-div (pow_pos i) (256 * c) w) (omega arith)

put_bytes_cons :
    (i b w : ℕ) → b < 256 → w < 256 ^ i → put_bytes (suc i) (256 ^ i * b + w) ≡ b ∷ put_bytes i w
unfolding put_bytes
put_bytes_cons i b w byte small = ap₂ (λ x xs. x ∷ xs) top (put_bytes_high i b w)
  where
    top : u8 ((256 ^ i * b + w) / 256 ^ i) ≡ b
    top = rw (mul-add-div (pow_pos i) b w, div-eq_of_lt small) (omega arith)

-- What the loop reads is the number that is written as those bytes.
pub record Read (i bits : ℕ) (bs : List ℕ) (v : ℕ) (rest : List ℕ) : Type 0 where
  pub low : ℕ
  pub low_lt : low < 256 ^ i
  pub value : v ≡ bits * 256 ^ i + low
  pub bytes : bs ≡ put_bytes i low ++ rest
  pub rest_bytes : IsBytes rest

pub get_bytes-Read :
    (i j width bits : ℕ) (bs : List ℕ) {v : ℕ} {rest : List ℕ}
    → IsBytes bs
    → j + i ≡ width
    → bits < 256 ^ j
    → get_bytes width i bits bs ≡ some (v, rest)
    → Read i bits bs v rest
unfolding get_bytes put_bytes
get_bytes-Read zero j width bits bs {v} {rest} h e small r =
    let same : bs ≡ rest = cc in
    record {
      low = 0;
      low_lt = omega arith;
      value = ground arith;
      bytes = same;
      rest_bytes = rw (← same) h;
    }
get_bytes-Read (suc i) j width bits [] h e small r = cc
get_bytes-Read (suc i) j width bits (b ∷ bs) {v} {rest} h e small r =
    let step = shift_in j width bits b (omega arith) small h.0 in
    let q =
      get_bytes-Read i (suc j) width (bits * 256 + b) bs h.1 (omega arith) step.1
        (rw step.0 at r) in
    record {
      low = 256 ^ i * b + q.low;
      low_lt = omega (
        arith,
        q.low_lt,
        pow-suc 256 i,
        mul-le-mul_left {m = b} {n = 255} (256 ^ i) (omega (arith, h.0)),
      );
      value = omega (arith, q.value, ap (λ (t : ℕ). bits * t) (pow-suc 256 i));
      bytes =
          ap (λ xs. b ∷ xs) q.bytes
          ∙ ap (λ xs. xs ++ rest) (sym (put_bytes_cons i b q.low h.0 q.low_lt));
      rest_bytes = q.rest_bytes;
    }

pub get_unsigned-inv :
    (width : ℕ) (bs : List ℕ) {v : ℕ} {rest : List ℕ}
    → IsBytes bs
    → get_unsigned width bs ≡ some (v, rest)
    → (v < 256 ^ width) × (bs ≡ put_bytes width v ++ rest) × IsBytes rest
unfolding get_unsigned
get_unsigned-inv width bs {v} {rest} h r =
    let q =
      get_bytes-Read width 0 width 0 bs {v = v} {rest = rest} h (omega arith) (pow_pos 0)
        (ground arith) in
    let same : q.low ≡ v = omega (arith, q.value) in
    (rw (← same) q.low_lt, rw (← same) q.bytes, q.rest_bytes)
