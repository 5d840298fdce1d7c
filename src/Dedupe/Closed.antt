-- ===== src/Dedupe/Closed.antt =====
-- The numbers that a window will not deliver again, and how one slide or advance changes them.
use low_latency_udp_fanout.Common.{
  ℕ, zero, suc, ◌+◌, ◌%◌, ◌^◌, ◌≤◌, ◌<◌, ◌≡◌, ◌≢◌, refl, ◌∙◌, ap, Bool, true, false, not, ◌&&◌,
  ◌||◌, ltb, ◌==◌, arith,
}
use low_latency_udp_fanout.Common.Modular.{same_residue, next_residue}
use low_latency_udp_fanout.Dedupe.{Window, test, clear, slide_one, slide, advance_one}
use native.Mathlib.Decide.{ℕ_discrete}
use low_latency_udp_fanout.Dedupe.Shape.{IsShaped, test-clear, clear-IsShaped}

-- Below the base, or marked in the window.
abbrev pub closed : Window → ℕ → Bool
closed w t = ltb t w.base_seq || (ltb t (w.base_seq + w.size) && test w t)

-- `top` bounds the numbers that have arrived, so no 64-bit sum of the window wraps.
pub record IsValid (top : ℕ) (w : Window) : Type 0 where
  pub shape : IsShaped w
  pub room : top + w.size < 2 ^ 64
  pub base_le : w.base_seq ≤ top
  pub marked_lt : (t : ℕ) → w.base_seq ≤ t → t < w.base_seq + w.size → test w t ≡ true → t < top

-- In one window, a residue stands for one number.
pub distinct_residues :
    (m b s t : ℕ) → b ≤ s → s < b + m → b ≤ t → t < b + m → s ≢ t → (t % m == s % m) ≡ false
distinct_residues m b s t p q p' q' ne = ground (arith, same_residue m s t, same_residue m t s)

-- `w'` is `w` with its lowest number dropped and its bit cleared.
pub record Drops (w w' : Window) : Type 0 where
  pub shape' : IsShaped w'
  pub same_size : w'.size ≡ w.size
  pub next_base : w'.base_seq ≡ w.base_seq + 1
  pub cleared : (t : ℕ) → test w' t ≡ (not (t % w.size == w.base_seq % w.size) && test w t)

slide_one-Drops : (w : Window) → IsShaped w → w.base_seq + 1 < 2 ^ 64 → Drops w (slide_one w)
unfolding slide_one test
slide_one-Drops w v h = record {
  shape' = reshape (clear-IsShaped w w.base_seq v);
  same_size = unfold clear in refl;
  next_base = omega arith;
  cleared = λ t. test-clear w v w.base_seq t;
}
  where
    reshape : IsShaped (clear w w.base_seq) → IsShaped (slide_one w)
    reshape s = record {
      exponent = s.exponent;
      size_pow = s.size_pow;
      one_word = s.one_word;
      mask_low = s.mask_low;
      words = s.words;
    }

pub advance_one-Drops :
    (w : Window) → IsShaped w → w.base_seq + 1 < 2 ^ 64 → Drops w (advance_one w)
unfolding advance_one test
advance_one-Drops w v h = record {
  shape' = reshape (clear-IsShaped w w.base_seq v);
  same_size = unfold clear in refl;
  next_base = omega arith;
  cleared = λ t. test-clear w v w.base_seq t;
}
  where
    reshape : IsShaped (clear w w.base_seq) → IsShaped (advance_one w)
    reshape s = record {
      exponent = s.exponent;
      size_pow = s.size_pow;
      one_word = s.one_word;
      mask_low = s.mask_low;
      words = s.words;
    }

module _ {w w' : Window} (d : Drops w w') (pos : 0 < w.size) where
  -- Inside the rest of the window nothing changes, and the number that enters is not marked.
  pub test_kept : (t : ℕ) → w.base_seq < t → t < w.base_seq + w.size → test w' t ≡ test w t
  test_kept t lo hi = ground (
    arith,
    d.cleared t,
    distinct_residues w.size w.base_seq w.base_seq t (omega arith) (omega arith) (omega arith) hi
        (omega arith),
  )

  pub test_entered : test w' (w.base_seq + w.size) ≡ false
  test_entered = ground (arith, d.cleared (w.base_seq + w.size), next_residue w.size w.base_seq)

  closed-Drops : (t : ℕ) → closed w' t ≡ (closed w t || (t == w.base_seq))
  closed-Drops t = ground (
    arith,
    d.next_base,
    d.same_size,
    test_kept t,
    test_entered,
    ap (test w') {x = t} {y = w.base_seq + w.size},
  )

  IsValid-Drops : {top : ℕ} → IsValid top w → w.base_seq < top → IsValid top w'
  IsValid-Drops {top} v lt = record {
    shape = d.shape';
    room = rw d.same_size v.room;
    base_le = omega (arith, d.next_base);
    marked_lt = λ t lo hi m.
        old_mark t (omega (arith, d.next_base)) (omega (arith, d.next_base, d.same_size)) m;
  }
    where
      old_mark : (t : ℕ) → w.base_seq < t → t ≤ w.base_seq + w.size → test w' t ≡ true → t < top
      old_mark t lo hi m = elim (ℕ_discrete t (w.base_seq + w.size)) [
        | yes e ↦ cc (test_entered, ap (test w') e)
        | no ne ↦
            v.marked_lt t (omega arith) (omega arith) (ground (arith, test_kept t lo (omega arith)))
      ]

module _ {w : Window} {top : ℕ} (v : IsValid top w) where
  pub pos_size : 0 < w.size
  pos_size = omega (arith, v.shape.one_word)

  pub slide_one-IsValid : w.base_seq < top → IsValid top (slide_one w)
  slide_one-IsValid h =
      IsValid-Drops (slide_one-Drops w v.shape (omega (arith, v.room))) pos_size v h

  pub closed-slide_one :
      w.base_seq < top → (t : ℕ) → closed (slide_one w) t ≡ (closed w t || (t == w.base_seq))
  closed-slide_one h = closed-Drops (slide_one-Drops w v.shape (omega (arith, v.room))) pos_size

  pub advance_one-IsValid : w.base_seq < top → IsValid top (advance_one w)
  advance_one-IsValid h =
      IsValid-Drops (advance_one-Drops w v.shape (omega (arith, v.room))) pos_size v h

  pub closed-advance_one :
      w.base_seq < top → (t : ℕ) → closed (advance_one w) t ≡ (closed w t || (t == w.base_seq))
  closed-advance_one h = closed-Drops (advance_one-Drops w v.shape (omega (arith, v.room))) pos_size

  pub marked_base-lt : test w w.base_seq ≡ true → w.base_seq < top
  marked_base-lt m = v.marked_lt w.base_seq (omega arith) (omega (arith, v.shape.one_word)) m

pub base-slide_one :
    (w : Window) → w.base_seq + 1 < 2 ^ 64 → (slide_one w).base_seq ≡ w.base_seq + 1
unfolding slide_one
base-slide_one w h = omega arith

pub size-slide_one : (w : Window) → (slide_one w).size ≡ w.size
unfolding slide_one clear
size-slide_one w = refl

init-slide_one : (w : Window) → (slide_one w).initialized ≡ w.initialized
unfolding slide_one clear
init-slide_one w = refl

pub base-advance_one :
    (w : Window) → w.base_seq + 1 < 2 ^ 64 → (advance_one w).base_seq ≡ w.base_seq + 1
unfolding advance_one
base-advance_one w h = omega arith

pub size-advance_one : (w : Window) → (advance_one w).size ≡ w.size
unfolding advance_one clear
size-advance_one w = refl

-- What `n` rounds of `slide_to` leave.
pub record Slid (top n : ℕ) (w w' : Window) : Type 0 where
  pub valid : IsValid top w'
  pub base : w'.base_seq ≡ w.base_seq + n
  pub same_size : w'.size ≡ w.size
  pub init : w'.initialized ≡ w.initialized
  pub closes : (t : ℕ) → closed w' t ≡ (closed w t || ltb t (w.base_seq + n))

pub slide-Slid :
    {top : ℕ} (n : ℕ) (w : Window) → IsValid top w → w.base_seq + n ≤ top → Slid top n w (slide n w)
unfolding slide
slide-Slid zero w v h = record {
  valid = v;
  base = omega arith;
  same_size = refl;
  init = refl;
  closes = λ t. ground arith;
}
slide-Slid (suc n) w v h =
    let one = base-slide_one w (omega (arith, v.room)) in
    let rest =
      slide-Slid n (slide_one w) (slide_one-IsValid v (omega arith)) (omega (arith, one)) in
    record {
      valid = rest.valid;
      base = omega (arith, one, rest.base);
      same_size = rest.same_size ∙ size-slide_one w;
      init = rest.init ∙ init-slide_one w;
      closes = λ t. ground (arith, one, rest.closes t, closed-slide_one v (omega arith) t);
    }
