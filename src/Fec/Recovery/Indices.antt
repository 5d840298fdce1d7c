-- ===== src/Fec/Recovery/Indices.antt =====
-- harness/include/fec.h: the columns that are absent and the rows that are used, in Decoder::try_recover.
use low_latency_udp_fanout.Common.{
  ℕ, zero, suc, ◌+◌, ◌≤◌, ◌<◌, ◌≡◌, ◌≢◌, subst, arith, Bool, false, inl, inr, Bool-cases, List, [],
  ◌∷◌, ◌==◌, length, get_or, take,
}
use native.Mathlib.Decide.{dec_lt}
use low_latency_udp_fanout.Fec.Decoder.Recover.{absent_from, rows_from}

-- The numbers ascend, from `lo` on and below `hi`.
abbrev pub Ascending : ℕ → ℕ → List ℕ → Type 0
Ascending lo hi [] = Unit
Ascending lo hi (i ∷ is) = (lo ≤ i) × (i < hi) × Ascending (suc i) hi is

pub weaken :
    (lo lower hi : ℕ) (is : List ℕ) → lower ≤ lo → Ascending lo hi is → Ascending lower hi is
weaken lo lower hi [] h a = tt
weaken lo lower hi (i ∷ is) h (ge, lt, rest) = (omega arith, lt, rest)

pub absent_from-Ascending :
    (k lo : ℕ) (received : List Bool) → Ascending lo (lo + k) (absent_from k lo received)
unfolding absent_from
absent_from-Ascending zero lo received = tt
absent_from-Ascending (suc k) lo received =
    let e : suc lo + k ≡ lo + suc k = omega arith in
    let rest =
      subst (λ hi. Ascending (suc lo) hi (absent_from k (suc lo) received)) e
        (absent_from-Ascending k (suc lo) received) in
    elim (Bool-cases (get_or received lo false)) [
      | inl t ↦ rw t (weaken (suc lo) lo (lo + suc k) _ (omega arith) rest)
      | inr f ↦ rw f (omega arith, omega arith, rest)
    ]

pub rows_from-Ascending :
    (lo : ℕ) (parities : List (List ℕ))
    → Ascending lo (lo + length parities) (rows_from lo parities)
unfolding rows_from
rows_from-Ascending lo [] = tt
rows_from-Ascending lo (p ∷ ps) =
    let e : suc lo + length ps ≡ lo + suc (length ps) = omega arith in
    let rest =
      subst (λ hi. Ascending (suc lo) hi (rows_from (suc lo) ps)) e
        (rows_from-Ascending (suc lo) ps) in
    elim (Bool-cases (length p == 0)) [
      | inl t ↦ rw t (weaken (suc lo) lo (lo + suc (length ps)) _ (omega arith) rest)
      | inr f ↦ rw f (omega arith, omega arith, rest)
    ]

pub take-Ascending : (n lo hi : ℕ) (is : List ℕ) → Ascending lo hi is → Ascending lo hi (take n is)
take-Ascending zero lo hi is a = tt
take-Ascending (suc n) lo hi [] a = tt
take-Ascending (suc n) lo hi (i ∷ is) (ge, lt, rest) = (ge, lt, take-Ascending n (suc i) hi is rest)

pub get_or-Ascending :
    (lo hi : ℕ) (is : List ℕ) (r : ℕ)
    → Ascending lo hi is
    → r < length is
    → (lo ≤ get_or is r 0) × (get_or is r 0 < hi)
get_or-Ascending lo hi [] r a h = absurd (omega arith)
get_or-Ascending lo hi (i ∷ is) zero (ge, lt, rest) h = (ge, lt)
get_or-Ascending lo hi (i ∷ is) (suc r) (ge, lt, rest) h =
    let (more, less) = get_or-Ascending (suc i) hi is r rest (omega arith) in (omega arith, less)

pub get_or-lt : (lo hi : ℕ) (is : List ℕ) (r : ℕ) → 0 < hi → Ascending lo hi is → get_or is r 0 < hi
get_or-lt lo hi [] r h a = h
get_or-lt lo hi (i ∷ is) zero h (ge, lt, rest) = lt
get_or-lt lo hi (i ∷ is) (suc r) h (ge, lt, rest) = get_or-lt (suc i) hi is r h rest

ordered :
    (lo hi : ℕ) (is : List ℕ) (r q : ℕ)
    → Ascending lo hi is
    → r < q
    → q < length is
    → get_or is r 0 < get_or is q 0
ordered lo hi [] r q a h g = absurd (omega arith)
ordered lo hi (i ∷ is) zero zero a h g = absurd (omega arith)
ordered lo hi (i ∷ is) zero (suc q) (ge, lt, rest) h g =
    (get_or-Ascending (suc i) hi is q rest (omega arith)).0
ordered lo hi (i ∷ is) (suc r) zero a h g = absurd (omega arith)
ordered lo hi (i ∷ is) (suc r) (suc q) (ge, lt, rest) h g =
    ordered (suc i) hi is r q rest (omega arith) (omega arith)

pub distinct :
    (lo hi : ℕ) (is : List ℕ) (r q : ℕ)
    → Ascending lo hi is
    → r < length is
    → q < length is
    → r ≢ q
    → get_or is r 0 ≢ get_or is q 0
distinct lo hi is r q a hr hq ne e = elim (dec_lt r q) [
  | yes lt ↦ let less = ordered lo hi is r q a lt hq in omega arith
  | no ge ↦ let less = ordered lo hi is q r a (omega arith) hr in omega arith
]
