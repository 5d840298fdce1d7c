-- ===== src/Dedupe/Stream.antt =====
-- A whole stream of packets through one window.
use low_latency_udp_fanout.Common.{
  ℕ, zero, suc, ◌+◌, ◌-◌, ◌*◌, ◌/◌, ◌^◌, ◌≤◌, ◌<◌, min, ◌≡◌, refl, ap₂, ◌∙◌, ap, fun_ext, Bool,
  true, false, ◌||◌, List, [], ◌∷◌, some, ltb, ◌==◌, if◌then◌else◌, arith, All, length-replicate,
  bit_and, inl, inr, Bool-cases,
}
use low_latency_udp_fanout.Common.Bits.{two_pow_of_and_pred}
use low_latency_udp_fanout.Dedupe.{Window, observe, new_window, blank, start, test}
use low_latency_udp_fanout.Dedupe.Bitmap.{test_at-replicate}
use native.Mathlib.Nat.{pow-suc}
use low_latency_udp_fanout.Dedupe.Shape.{IsShaped}
use low_latency_udp_fanout.Dedupe.Closed.{closed, IsValid}
use low_latency_udp_fanout.Dedupe.Observe.{delivers}
use low_latency_udp_fanout.Dedupe.Refine.{observe-Observed, start_again}

-- The numbers that the receiver publishes, in order.
unfoldable pub deliveries : Window → List ℕ → List ℕ
deliveries w [] = []
deliveries w (seq ∷ seqs) =
    let (r, w') = observe w seq in
    if delivers r then seq ∷ deliveries w' seqs else deliveries w' seqs

-- The abstract filter, whose state is the set of closed numbers.
abbrev pub close_with : ℕ → (ℕ → Bool) → ℕ → ℕ → Bool
close_with size shut seq t = shut t || (t == seq) || ltb (t + size) (seq + 1)

pub filter_open : ℕ → (ℕ → Bool) → List ℕ → List ℕ
filter_open size shut [] = []
filter_open size shut (seq ∷ seqs) =
    let rest = filter_open size (close_with size shut seq) seqs in
    if shut seq then rest else seq ∷ rest

-- A window delivers exactly what the filter over its closed numbers lets pass.
pub deliveries-filter_open :
    {top : ℕ} (seqs : List ℕ) (w : Window)
    → IsValid top w
    → w.initialized ≡ true
    → All (λ seq. seq < top) seqs
    → deliveries w seqs ≡ filter_open w.size (closed w) seqs
unfolding deliveries filter_open
deliveries-filter_open [] w v init h = refl
deliveries-filter_open {top} (seq ∷ seqs) w v init h =
    let o = observe-Observed seq w v init h.0 in
    let ih = deliveries-filter_open seqs (observe w seq).1 o.valid (o.init ∙ init) h.1 in
    let shut : closed (observe w seq).1 ≡ close_with w.size (closed w) seq = fun_ext o.closes in
    rw (o.delivered, ih, o.same_size, shut) (ground arith)

abbrev pub count : ℕ → List ℕ → ℕ
count a [] = 0
count a (x ∷ xs) = if x == a then suc (count a xs) else count a xs

-- What is shut is not let through, and nothing is let through twice.
count-filter_open_shut :
    (size a : ℕ) (seqs : List ℕ) (shut : ℕ → Bool)
    → shut a ≡ true
    → count a (filter_open size shut seqs) ≡ 0
unfolding filter_open
count-filter_open_shut size a [] shut h = refl
count-filter_open_shut size a (seq ∷ seqs) shut h = ground (
  arith,
  count-filter_open_shut size a seqs (close_with size shut seq),
  ap shut {x = seq} {y = a},
)

count-filter_open-le :
    (size a : ℕ) (seqs : List ℕ) (shut : ℕ → Bool) → count a (filter_open size shut seqs) ≤ 1
unfolding filter_open
count-filter_open-le size a [] shut = omega arith
count-filter_open-le size a (seq ∷ seqs) shut = ground (
  arith,
  count-filter_open-le size a seqs (close_with size shut seq),
  count-filter_open_shut size a seqs (close_with size shut seq),
)

-- Numbers that span at most one window pass in any order, each once.
count-filter_open_near :
    (size base a : ℕ) (seqs : List ℕ) (shut : ℕ → Bool)
    → All (λ seq. seq < base + size) seqs
    → base ≤ a
    → shut a ≡ false
    → count a (filter_open size shut seqs) ≡ min (count a seqs) 1
unfolding filter_open
count-filter_open_near size base a [] shut h le unseen = omega arith
count-filter_open_near size base a (seq ∷ seqs) shut h le unseen = ground (
  arith,
  h.0,
  count-filter_open_near size base a seqs (close_with size shut seq) h.1 le,
  count-filter_open_shut size a seqs (close_with size shut seq),
  ap shut {x = seq} {y = a},
)

-- The constructor accepts powers of two from 64 on, and leaves every bit clear.
new_window_inv :
    (size : ℕ) {w : Window}
    → new_window size ≡ some w
    → (w ≡ blank size) × (64 ≤ size) × (bit_and size (size - 1) ≡ 0)
unfolding new_window
new_window_inv size e = ground arith

whole_words : (k : ℕ) → 64 ≤ 2 ^ k → 2 ^ k / 64 * 64 ≡ 2 ^ k
whole_words zero h = absurd (omega arith)
whole_words (suc zero) h = absurd (omega arith)
whole_words (suc (suc zero)) h = absurd (omega arith)
whole_words (suc (suc (suc zero))) h = absurd (omega arith)
whole_words (suc (suc (suc (suc zero)))) h = absurd (omega arith)
whole_words (suc (suc (suc (suc (suc zero))))) h = absurd (omega arith)
whole_words (suc (suc (suc (suc (suc (suc k)))))) h = omega (
  arith,
  pow-suc 2 (suc (suc (suc (suc (suc k))))),
  pow-suc 2 (suc (suc (suc (suc k)))),
  pow-suc 2 (suc (suc (suc k))),
  pow-suc 2 (suc (suc k)),
  pow-suc 2 (suc k),
  pow-suc 2 k,
)

blank-IsShaped : (size : ℕ) → 64 ≤ size → bit_and size (size - 1) ≡ 0 → IsShaped (blank size)
blank-IsShaped size h e = from_exponent (two_pow_of_and_pred size (omega arith) e)
  where
    from_exponent : (k : ℕ) × (size ≡ 2 ^ k) → IsShaped (blank size)
    from_exponent (k, p) = record {
      exponent = k;
      size_pow = p;
      one_word = h;
      mask_low = refl;
      words = rw (length-replicate {A = ℕ} (size / 64) 0, p) (whole_words k (rw (← p) h));
    }

blank-test :
    (size base : ℕ) (i : Bool) (t : ℕ)
    → test (record (blank size) { base_seq = base; initialized = i }) t ≡ false
unfolding test
blank-test size base i t = test_at-replicate (size / 64) (bit_and t (size - 1))

-- What the first packet finds: a window at its number, with everything below closed.
pub record Opened (size top first : ℕ) (w : Window) : Type 0 where
  pub same_size : w.size ≡ size
  pub valid : IsValid top w
  pub init : w.initialized ≡ true
  pub closes : (t : ℕ) → closed w t ≡ ltb t first

start-blank :
    (size top first : ℕ)
    → 64 ≤ size
    → bit_and size (size - 1) ≡ 0
    → first ≤ top
    → top + size < 2 ^ 64
    → Opened size top first (start (blank size) first)
unfolding start
start-blank size top first h e le room = record {
  valid = record {
    shape = reshape (blank-IsShaped size h e);
    room = room;
    base_le = le;
    marked_lt = λ t lo hi m. cc (m, blank-test size first true t);
  };
  init = refl;
  same_size = refl;
  closes = λ t. ground (arith, blank-test size first true t);
}
  where
    reshape :
        IsShaped (blank size)
        → IsShaped (record (blank size) { base_seq = first; initialized = true })
    reshape s = record {
      exponent = s.exponent;
      size_pow = s.size_pow;
      one_word = s.one_word;
      mask_low = s.mask_low;
      words = s.words;
    }

pub start-Opened :
    (size top first : ℕ) {w : Window}
    → new_window size ≡ some w
    → first ≤ top
    → top + size < 2 ^ 64
    → Opened size top first (start w first)
start-Opened size top first e le room =
    let (same, h, p) = new_window_inv size e in rw same (start-blank size top first h p le room)

-- The first packet of a new window is judged by the window that it opens.
deliveries_started :
    (w : Window) (seq : ℕ) (seqs : List ℕ)
    → (start w seq).initialized ≡ true
    → deliveries w (seq ∷ seqs) ≡ deliveries (start w seq) (seq ∷ seqs)
unfolding deliveries observe
deliveries_started w seq seqs h = rw (start_again (start w seq) seq h)

module _ (size top first : ℕ) (seqs : List ℕ) {w : Window} (made : new_window size ≡ some w)
    (room : top + size < 2 ^ 64) (known : All (λ seq. seq < top) (first ∷ seqs)) where
  -- A window made by the constructor delivers what passes the abstract filter that starts with
  -- everything below the first packet closed, if all numbers are below a bound that is more than a
  -- window below 2 ^ 64.
  pub deliveries-new_window :
      deliveries w (first ∷ seqs) ≡ filter_open size (λ t. ltb t first) (first ∷ seqs)
  deliveries-new_window =
      let o = start-Opened size top first made (omega arith) room in
      let shut : closed (start w first) ≡ (λ t. ltb t first) = fun_ext o.closes in
      deliveries_started w first seqs o.init
      ∙ deliveries-filter_open (first ∷ seqs) (start w first) o.valid o.init known
      ∙ ap₂ (λ n c. filter_open n c (first ∷ seqs)) o.same_size shut

  -- No sequence number is delivered twice, if all are below a bound that is more than a window
  -- below 2 ^ 64.
  pub deliveries_once : (a : ℕ) → count a (deliveries w (first ∷ seqs)) ≤ 1
  deliveries_once a =
      rw deliveries-new_window (count-filter_open-le size a (first ∷ seqs) (λ t. ltb t first))

  -- In a stream whose numbers are all below the first one plus a window, and below a bound that is
  -- more than a window below 2 ^ 64, every number of the stream from the first one upward is
  -- delivered exactly once, in any order and with any repetitions, and nothing else is delivered,
  -- so no number below the first one.
  pub deliveries_near :
      All (λ seq. seq < first + size) (first ∷ seqs)
      → (a : ℕ)
      → count a (deliveries w (first ∷ seqs))
        ≡ (if ltb a first then 0 else min (count a (first ∷ seqs)) 1)
  deliveries_near near a = elim (Bool-cases (ltb a first)) [
    | inl below ↦
        rw (below, deliveries-new_window)
          (count-filter_open_shut size a (first ∷ seqs) (λ t. ltb t first) below)
    | inr above ↦
        rw (above, deliveries-new_window)
          (count-filter_open_near size first a (first ∷ seqs) (λ t. ltb t first) near
            (ground (arith, above)) (ground arith))
  ]
