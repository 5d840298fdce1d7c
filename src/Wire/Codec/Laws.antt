-- ===== src/Wire/Codec/Laws.antt =====
-- A codec is lawful for the values that fit: reading inverts writing, and writing inverts reading.
use low_latency_udp_fanout.Common.{
  ℕ, zero, suc, ◌+◌, ◌*◌, ◌^◌, ◌<◌, ◌≡◌, refl, sym, ◌∙◌, ap, Option, none, some, List, [], ◌∷◌,
  ◌++◌, length, length-append, arith, All,
}
use mathlib.Core.List.{append_assoc}
use low_latency_udp_fanout.Wire.Codec.{
  Codec, ◌>>=◌, get_unsigned, put_bytes, unsigned, ℤ, pos, negsuc, to_bits, of_bits, signed,
  put_array, get_array, array, ◌⊗◌, struct,
}
use low_latency_udp_fanout.Wire.Codec.Unsigned.{
  IsBytes, length-put_bytes, get_unsigned-put_bytes, get_unsigned-inv,
}

-- `width` bytes are written for every value that fits.
pub record IsLawful {A : Type 0} (c : Codec A) (Fits : A → Type 0) (width : ℕ) : Type 0 where
  pub size : (a : A) → Fits a → length (c.put a) ≡ width
  pub forth : (a : A) (rest : List ℕ) → Fits a → c.get (c.put a ++ rest) ≡ some (a, rest)
  pub back :
      (bs rest : List ℕ) (a : A)
      → IsBytes bs
      → c.get bs ≡ some (a, rest)
      → (bs ≡ c.put a ++ rest) × Fits a × IsBytes rest

pub unsigned-IsLawful : (width : ℕ) → IsLawful (unsigned width) (λ v. v < 256 ^ width) width
unfolding unsigned
unsigned-IsLawful width = record {
  size = λ v _. length-put_bytes width v;
  forth = λ v rest fits. get_unsigned-put_bytes width v rest fits;
  back = λ bs rest v h r. let (fits, e, q) = get_unsigned-inv width bs h r in (e, fits, q);
}

-- The range of int64_t.
abbrev pub IsInt64 : ℤ → Type 0
IsInt64 (pos n) = n < 2 ^ 63
IsInt64 (negsuc n) = n < 2 ^ 63

pub of_bits-to_bits : (v : ℤ) → IsInt64 v → of_bits (to_bits v) ≡ v
unfolding of_bits to_bits
of_bits-to_bits (pos n) h = ground arith
of_bits-to_bits (negsuc n) h = ground arith

pub to_bits-of_bits :
    (bits : ℕ) → bits < 2 ^ 64 → (to_bits (of_bits bits) ≡ bits) × IsInt64 (of_bits bits)
unfolding of_bits to_bits
to_bits-of_bits bits h = ground arith

to_bits-lt : (v : ℤ) → to_bits v < 2 ^ 64
unfolding to_bits
to_bits-lt (pos n) = omega arith
to_bits-lt (negsuc n) = omega arith

-- A successful bind, taken apart.
pub bind_inv {ℓ κ} :
    {A : Type ℓ} {B : Type κ} (m : Option A) (f : A → Option B) {b : B}
    → (m >>= f) ≡ some b
    → (a : A) × (m ≡ some a) × (f a ≡ some b)
bind_inv none f e = cc
bind_inv (some a) f e = (a, refl, e)

signed_back :
    (bs rest : List ℕ) (v : ℤ) (q : ℕ × List ℕ)
    → IsBytes bs
    → get_unsigned 8 bs ≡ some q
    → ◌≡◌ {A = Option (ℤ × List ℕ)} (some (of_bits q.0, q.1)) (some (v, rest))
    → (bs ≡ put_bytes 8 (to_bits v) ++ rest) × IsInt64 v × IsBytes rest
signed_back bs rest v (bits, rest') h got e =
    let (fits, parts, ok) = get_unsigned-inv 8 bs h got in
    let value : of_bits bits ≡ v = cc in
    let after : rest' ≡ rest = cc in
    let (there, range) = to_bits-of_bits bits fits in
    (rw (← value, there, ← after) parts, rw (← value) range, rw (← after) ok)

pub signed-IsLawful : IsLawful signed IsInt64 8
unfolding signed
signed-IsLawful = record {
  size = λ v _. length-put_bytes 8 (to_bits v);
  forth = λ v rest h.
      rw (get_unsigned-put_bytes 8 (to_bits v) rest (to_bits-lt v), of_bits-to_bits v h);
  back = λ bs rest v h r.
      let (q, got, e) = bind_inv (get_unsigned 8 bs) _ r in signed_back bs rest v q h got e;
}

module _ {A B : Type 0} {c : Codec A} {d : Codec B} {P : A → Type 0} {Q : B → Type 0}
    {m n : ℕ} where
  pair_back :
      IsLawful c P m
      → IsLawful d Q n
      → (bs rest : List ℕ) (p : A × B) (r : A × List ℕ) (q : B × List ℕ) → IsBytes bs
      → c.get bs ≡ some r
      → d.get r.1 ≡ some q
      → ◌≡◌ {A = Option ((A × B) × List ℕ)} (some ((r.0, q.0), q.1)) (some (p, rest))
      → (bs ≡ (c.put p.0 ++ d.put p.1) ++ rest) × (P p.0 × Q p.1) × IsBytes rest
  pair_back lc ld bs rest (a, b) (a', mid) (b', rest') h got got' e =
      let (parts, fits, ok) = lc.back bs mid a' h got in
      let (parts', fits', ok') = ld.back mid rest' b' ok got' in
      let ea : a' ≡ a = cc in
      let eb : b' ≡ b = cc in
      let er : rest' ≡ rest = cc in
      (
        rw (append_assoc, ← ea, ← eb, ← er, ← parts') parts,
        (rw (← ea) fits, rw (← eb) fits'),
        rw (← er) ok',
      )

  -- Two fields in a row.
  pub pair-IsLawful :
      IsLawful c P m → IsLawful d Q n → IsLawful (c ⊗ d) (λ p. P p.0 × Q p.1) (m + n)
  unfolding ◌⊗◌
  pair-IsLawful lc ld = record {
    size = λ p h.
        omega (arith, length-append (c.put p.0) (d.put p.1), lc.size p.0 h.0, ld.size p.1 h.1);
    forth =
        λ p rest h. rw (append_assoc, lc.forth p.0 (d.put p.1 ++ rest) h.0, ld.forth p.1 rest h.1);
    back = λ bs rest p h r.
        let (r1, got, e1) = bind_inv (c.get bs) _ r in
        let (r2, got', e2) = bind_inv (d.get r1.1) _ e1 in
        pair_back lc ld bs rest p r1 r2 h got got' e2;
  }

module _ {A B : Type 0} {c : Codec A} {P : A → Type 0} {n : ℕ} (fields : B → A)
    (build : A → B) where
  struct_back :
      IsLawful c P n
      → ((a : A) → fields (build a) ≡ a)
      → (bs rest : List ℕ) (b : B) (r : A × List ℕ) → IsBytes bs
      → c.get bs ≡ some r
      → ◌≡◌ {A = Option (B × List ℕ)} (some (build r.0, r.1)) (some (b, rest))
      → (bs ≡ c.put (fields b) ++ rest) × P (fields b) × IsBytes rest
  struct_back lc onto bs rest b (a, rest') h got e =
      let (parts, fits, ok) = lc.back bs rest' a h got in
      let eb : build a ≡ b = cc in
      let er : rest' ≡ rest = cc in
      let ea : fields b ≡ a = ap fields (sym eb) ∙ onto a in
      (rw (ea, ← er) parts, rw ea fits, rw (← er) ok)

  -- A struct, whose fields determine it.
  pub struct-IsLawful :
      IsLawful c P n
      → ((b : B) → build (fields b) ≡ b)
      → ((a : A) → fields (build a) ≡ a)
      → IsLawful (struct c fields build) (λ b. P (fields b)) n
  unfolding struct
  struct-IsLawful lc into onto = record {
    size = λ b h. lc.size (fields b) h;
    forth = λ b rest h. rw (lc.forth (fields b) rest h, into b);
    back = λ bs rest b h r.
        let (q, got, e) = bind_inv (c.get bs) _ r in struct_back lc onto bs rest b q h got e;
  }

module _ {A : Type 0} {c : Codec A} {P : A → Type 0} {k : ℕ} (lc : IsLawful c P k) where
  size_array : (xs : List A) → All P xs → length (put_array c xs) ≡ length xs * k
  unfolding put_array
  size_array [] h = omega arith
  size_array (x ∷ xs) h =
      omega (arith, length-append (c.put x) (put_array c xs), lc.size x h.0, size_array xs h.1)

  forth_array :
      (n : ℕ) (xs : List A) (rest : List ℕ)
      → length xs ≡ n
      → All P xs
      → get_array c n (put_array c xs ++ rest) ≡ some (xs, rest)
  unfolding put_array get_array
  forth_array zero [] rest e h = refl
  forth_array zero (x ∷ xs) rest e h = absurd (omega arith)
  forth_array (suc n) [] rest e h = absurd (omega arith)
  forth_array (suc n) (x ∷ xs) rest e h = rw (
    append_assoc,
    lc.forth x (put_array c xs ++ rest) h.0,
    forth_array n xs rest (omega arith) h.1,
  )

  back_cons :
      (n : ℕ) (bs rest : List ℕ) (xs : List A) (r : A × List ℕ) (q : List A × List ℕ)
      → IsBytes bs
      → c.get bs ≡ some r
      → ((r.1 ≡ put_array c q.0 ++ q.1) × ((length q.0 ≡ n) × All P q.0) × IsBytes q.1)
      → ◌≡◌ {A = Option (List A × List ℕ)} (some (r.0 ∷ q.0, q.1)) (some (xs, rest))
      → (bs ≡ put_array c xs ++ rest) × ((length xs ≡ suc n) × All P xs) × IsBytes rest
  unfolding put_array
  back_cons n bs rest [] (a, mid) (as', rest') h got ih e = cc
  back_cons n bs rest (x ∷ xs) (a, mid) (as', rest') h got ih e =
      let (parts, fits, ok) = lc.back bs mid a h got in
      let ea : a ≡ x = cc in
      let es : as' ≡ xs = cc in
      let er : rest' ≡ rest = cc in
      (
        rw (append_assoc, ← ea, ← es, ← er, ← ih.0) parts,
        (rw (← es) (ap suc ih.1.0), (rw (← ea) fits, rw (← es) ih.1.1)),
        rw (← er) ih.2,
      )

  back_array :
      (n : ℕ) (bs rest : List ℕ) (xs : List A)
      → IsBytes bs
      → get_array c n bs ≡ some (xs, rest)
      → (bs ≡ put_array c xs ++ rest) × ((length xs ≡ n) × All P xs) × IsBytes rest
  unfolding put_array get_array
  back_array zero bs rest [] h r = let er : bs ≡ rest = cc in (er, (refl, tt), rw (← er) h)
  back_array zero bs rest (x ∷ xs) h r = cc
  back_array (suc n) bs rest xs h r =
      let (r1, got, e1) = bind_inv (c.get bs) _ r in
      let (r2, got', e2) = bind_inv (get_array c n r1.1) _ e1 in
      let ok = (lc.back bs r1.1 r1.0 h got).2 in
      back_cons n bs rest xs r1 r2 h got (back_array n r1.1 r2.1 r2.0 ok got') e2

  -- An array of `n` elements.
  pub array-IsLawful : (n : ℕ) → IsLawful (array n c) (λ xs. (length xs ≡ n) × All P xs) (n * k)
  unfolding array
  array-IsLawful n = record {
    size = λ xs h. size_array xs h.1 ∙ ap (λ (t : ℕ). t * k) h.0;
    forth = λ xs rest h. forth_array n xs rest h.0 h.1;
    back = λ bs rest xs h r. back_array n bs rest xs h r;
  }
