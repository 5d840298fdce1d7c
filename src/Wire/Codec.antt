-- ===== src/Wire/Codec.antt =====
-- harness/include/wire.h, Writer::value and Reader::value: one codec for each kind of field.
-- A Reader is the list of the bytes from `pos` to `size`; `none` is its length_error.
pub mod Unsigned
pub mod Laws
use low_latency_udp_fanout.Common.{
  ℕ, zero, suc, ◌+◌, ◌-◌, ◌*◌, ◌/◌, ◌%◌, ◌^◌, ◌≤◌, ◌<◌, ◌≡◌, Bool, true, false, Option, none, some,
  List, [], ◌∷◌, ◌++◌, bit_or, ltb, leb, if◌then◌else◌, length, u8,
}

pub record Codec (A : Type 0) : Type 0 where
  pub put : A → List ℕ
  pub get : List ℕ → Option (A × List ℕ)

infixl 5 ◌>>=◌
abbrev pub ◌>>=◌ {ℓ κ} : {A : Type ℓ} {B : Type κ} → Option A → (A → Option B) → Option B
none >>= f = none
some a >>= f = f a

-- The loop of `Writer::value`, with `i` bytes to go: `bits >> ((i - 1) * 8)`, cut to a byte.
pub put_bytes : ℕ → ℕ → List ℕ
put_bytes zero bits = []
put_bytes (suc i) bits = u8 (bits / 256 ^ i) ∷ put_bytes i bits

-- The loop of `Reader::value`, with `i` of `width` bytes to go.
pub get_bytes : ℕ → ℕ → ℕ → List ℕ → Option (ℕ × List ℕ)
get_bytes width zero bits rest = some (bits, rest)
get_bytes width (suc i) bits [] = none
get_bytes width (suc i) bits (b ∷ rest) =
    get_bytes width i (bit_or (bits * 2 ^ 8) b % 256 ^ width) rest

-- The check of the length, and the loop.
pub get_unsigned : ℕ → List ℕ → Option (ℕ × List ℕ)
get_unsigned width rest = if ltb (length rest) width then none else get_bytes width width 0 rest

-- An unsigned integer of `width` bytes. A double is the uint64_t of its representation.
unfoldable pub unsigned : ℕ → Codec ℕ
unsigned width = record { put = put_bytes width; get = get_unsigned width }

-- `negsuc n` is -(n + 1).
pub data ℤ : Type 0 where
  pos : ℕ → ℤ
  negsuc : ℕ → ℤ

-- `static_cast<uint64_t>(v)` of an int64_t.
pub to_bits : ℤ → ℕ
to_bits (pos n) = n % 2 ^ 64
to_bits (negsuc n) = (2 ^ 64 - 1 - n % 2 ^ 64) % 2 ^ 64

-- Up to INT64_MAX the value is kept, above it is -1 - ~bits.
pub of_bits : ℕ → ℤ
of_bits bits = if leb bits (2 ^ 63 - 1) then pos bits else negsuc (2 ^ 64 - 1 - bits)

unfoldable pub signed : Codec ℤ
signed = record {
  put = λ v. put_bytes 8 (to_bits v);
  get = λ rest. get_unsigned 8 rest >>= λ r. some (of_bits r.0, r.1);
}

-- An array of fixed length, element by element.
put_array : {A : Type 0} → Codec A → List A → List ℕ
put_array c [] = []
put_array c (x ∷ xs) = c.put x ++ put_array c xs

get_array : {A : Type 0} → Codec A → ℕ → List ℕ → Option (List A × List ℕ)
get_array c zero rest = some ([], rest)
get_array c (suc n) rest = c.get rest >>= λ r. get_array c n r.1 >>= λ q. some (r.0 ∷ q.0, q.1)

unfoldable pub array : {A : Type 0} → ℕ → Codec A → Codec (List A)
unfolding put_array get_array
array n c = record { put = put_array c; get = get_array c n }

-- `io(a, b, ...)`: one field, then the others.
infixr 40 ◌⊗◌
unfoldable pub ◌⊗◌ : {A B : Type 0} → Codec A → Codec B → Codec (A × B)
c ⊗ d = record {
  put = λ p. c.put p.0 ++ d.put p.1;
  get = λ rest. c.get rest >>= λ r. d.get r.1 >>= λ q. some ((r.0, q.0), q.1);
}

-- A struct is the sequence of its fields.
unfoldable pub struct : {A B : Type 0} → Codec A → (B → A) → (A → B) → Codec B
struct c fields build = record {
  put = λ b. c.put (fields b);
  get = λ rest. c.get rest >>= λ r. some (build r.0, r.1);
}
