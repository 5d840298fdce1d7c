-- ===== src/Dedupe/Observe.antt =====
-- `observe` against its abstract description: a set of closed numbers.
use low_latency_udp_fanout.Common.{
  ℕ, ◌+◌, ◌-◌, ◌%◌, ◌≤◌, ◌<◌, ◌≡◌, refl, sym, ◌∙◌, ap, inl, inr, Bool, true, false, ◌||◌, ◌&&◌, ltb,
  leb, ◌==◌, arith, Bool-cases, leb→le, not_leb→lt, u64, sub64,
}
use low_latency_udp_fanout.Dedupe.{
  Window, ObserveResult, accept, duplicate, too_old, advanced, test, set, slide_to, slide_past,
  make_room, note_jump, note_depth,
}
use low_latency_udp_fanout.Dedupe.Shape.{test-set, set-IsShaped}
use low_latency_udp_fanout.Dedupe.Closed.{distinct_residues, closed, IsValid, Slid, slide-Slid}

-- The packet is passed on.
abbrev pub delivers : ObserveResult → Bool
delivers accept = true
delivers advanced = true
delivers duplicate = false
delivers too_old = false

-- Two windows that differ in their counters only.
pub record SameBits (w w' : Window) : Type 0 where
  pub size : w'.size ≡ w.size
  pub mask : w'.mask ≡ w.mask
  pub bits : w'.bits ≡ w.bits
  pub base : w'.base_seq ≡ w.base_seq
  pub init : w'.initialized ≡ w.initialized

module _ {w w' : Window} (b : SameBits w w') where
  pub test-SameBits : (t : ℕ) → test w' t ≡ test w t
  unfolding test
  test-SameBits t = rw (b.bits, b.mask)

  pub closed-SameBits : (t : ℕ) → closed w' t ≡ closed w t
  closed-SameBits t = ground (arith, b.size, b.base, test-SameBits t)

  pub IsValid-SameBits : {top : ℕ} → IsValid top w → IsValid top w'
  IsValid-SameBits v = record {
    shape = record {
      exponent = v.shape.exponent;
      size_pow = b.size ∙ v.shape.size_pow;
      one_word = rw b.size v.shape.one_word;
      mask_low = rw (b.mask, b.size) v.shape.mask_low;
      words = rw (b.bits, b.size) v.shape.words;
    };
    room = rw b.size v.room;
    base_le = rw b.base v.base_le;
    marked_lt = λ t lo hi m.
        v.marked_lt t (omega (arith, b.base)) (omega (arith, b.base, b.size))
          (sym (test-SameBits t) ∙ m);
  }

pub note_jump-SameBits : (w : Window) (seq : ℕ) → SameBits w (note_jump w seq)
unfolding note_jump
note_jump-SameBits w seq = ground arith

pub note_depth-SameBits : (w : Window) (seq : ℕ) → SameBits w (note_depth w seq)
unfolding note_depth
note_depth-SameBits w seq = ground arith

-- What `make_room` leaves.
pub record Roomy (top seq : ℕ) (w : Window) (r : ObserveResult × Window) : Type 0 where
  pub valid : IsValid top r.1
  pub same_size : r.1.size ≡ w.size
  pub init : r.1.initialized ≡ w.initialized
  pub base_le : r.1.base_seq ≤ seq
  pub inside : seq < r.1.base_seq + r.1.size
  pub passes : delivers r.0 ≡ true
  pub closes : (t : ℕ) → closed r.1 t ≡ (closed w t || ltb (t + w.size) (seq + 1))

slide_past-SameBits :
    (w : Window) (seq : ℕ) → SameBits (slide_to w (u64 (sub64 seq w.size + 1))) (slide_past w seq)
unfolding slide_past
slide_past-SameBits w seq = record {
  size = refl;
  mask = refl;
  bits = refl;
  base = refl;
  init = refl;
}

-- The number of rounds of the slide.
abbrev rounds : Window → ℕ → ℕ
rounds w seq = u64 (sub64 seq w.size + 1) - w.base_seq

rounds_lem :
    {top : ℕ} (w : Window) (seq : ℕ)
    → IsValid top w
    → w.base_seq + w.size ≤ seq
    → seq < top
    → w.base_seq + rounds w seq ≡ seq + 1 - w.size
rounds_lem w seq v h lt = omega (arith, v.room, v.shape.one_word)

slide_to-Slid :
    {top : ℕ} (w : Window) (seq : ℕ)
    → IsValid top w
    → w.base_seq + w.size ≤ seq
    → seq < top
    → Slid top (rounds w seq) w (slide_to w (u64 (sub64 seq w.size + 1)))
unfolding slide_to
slide_to-Slid w seq v h lt =
    slide-Slid (rounds w seq) w v (omega (arith, rounds_lem w seq v h lt, v.shape.one_word))

Roomy-of_Slid :
    {top : ℕ} (w : Window) (seq : ℕ) {m w' : Window}
    → IsValid top w
    → w.base_seq + w.size ≤ seq
    → seq < top
    → Slid top (rounds w seq) w m
    → SameBits m w'
    → Roomy top seq w (advanced, w')
Roomy-of_Slid w seq v h lt moved same = record {
  valid = IsValid-SameBits same moved.valid;
  same_size = same.size ∙ moved.same_size;
  init = same.init ∙ moved.init;
  base_le = omega (arith, same.base, moved.base, rounds_lem w seq v h lt, v.shape.one_word);
  inside =
      omega (arith, same.base, same.size, moved.base, moved.same_size, rounds_lem w seq v h lt);
  passes = refl;
  closes = λ t. ground (arith, closed-SameBits same t, moved.closes t, rounds_lem w seq v h lt);
}

pub make_room-Roomy :
    {top : ℕ} (w : Window) (seq : ℕ)
    → IsValid top w
    → w.base_seq ≤ seq
    → seq < top
    → Roomy top seq w (make_room w seq)
unfolding make_room
make_room-Roomy {top} w seq v le lt = elim (Bool-cases (leb (u64 (w.base_seq + w.size)) seq)) [
  | inl beyond ↦ rw (beyond, make_room) (past (omega (arith, v.room, leb→le _ _ beyond)))
  | inr within ↦ rw (within, make_room) (stay (omega (arith, v.room, not_leb→lt _ _ within)))
]
  where
    stay : seq < w.base_seq + w.size → Roomy top seq w (accept, w)
    stay h = record {
      valid = v;
      same_size = refl;
      init = refl;
      base_le = le;
      inside = h;
      passes = refl;
      closes = λ t. ground arith;
    }

    past : w.base_seq + w.size ≤ seq → Roomy top seq w (advanced, slide_past w seq)
    past h = Roomy-of_Slid w seq v h lt (slide_to-Slid w seq v h lt) (slide_past-SameBits w seq)

-- A new number in the window is marked, and nothing else is closed by it.
module _ {top : ℕ} (w : Window) (seq : ℕ) (v : IsValid top w) (le : w.base_seq ≤ seq)
    (inside : seq < w.base_seq + w.size) where
  test-set_inside :
      (t : ℕ)
      → w.base_seq ≤ t
      → t < w.base_seq + w.size
      → test (set w seq) t ≡ ((t == seq) || test w t)
  test-set_inside t lo hi = ground (
    arith,
    test-set w v.shape seq t,
    distinct_residues w.size w.base_seq seq t le inside lo hi,
    ap (λ (n : ℕ). n % w.size) {x = t} {y = seq},
  )

  pub closed-set : (t : ℕ) → closed (set w seq) t ≡ (closed w t || (t == seq))
  closed-set t = unfold_set (ground (arith, test-set_inside t))
    where
      unfold_set :
          (ltb t w.base_seq || (ltb t (w.base_seq + w.size) && test (set w seq) t))
            ≡ (closed w t || (t == seq))
          → closed (set w seq) t ≡ (closed w t || (t == seq))
      unfold_set h = unfold set in h

  pub set-IsValid : seq < top → IsValid top (set w seq)
  unfolding set
  set-IsValid lt = record {
    shape = set-IsShaped w seq v.shape;
    room = v.room;
    base_le = v.base_le;
    marked_lt = λ t lo hi m. ground (arith, v.marked_lt t lo hi, test-set_inside t lo hi, m);
  }
