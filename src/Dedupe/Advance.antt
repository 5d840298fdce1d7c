-- ===== src/Dedupe/Advance.antt =====
-- The loop of `advance_contiguous`: what it leaves, and that it ends by its own test.
use low_latency_udp_fanout.Common.{
  ℕ, zero, suc, ◌+◌, ◌^◌, ◌≢◌, ◌≤◌, ◌<◌, ◌≡◌, refl, ◌∙◌, ap, inl, inr, true, false, arith,
  Bool-cases,
}
use native.Mathlib.Decide.{ℕ_discrete}
use low_latency_udp_fanout.Dedupe.{Window, test, clear, advance_one, advance, advance_contiguous}
use low_latency_udp_fanout.Dedupe.Closed.{
  closed, IsValid, marked_base-lt, advance_one-IsValid, size-advance_one, base-advance_one,
  closed-advance_one, advance_one-Drops, test_kept, test_entered, pos_size,
}

-- What the loop of `advance_contiguous` leaves: it closes nothing that was not closed.
pub record Advanced (top : ℕ) (w w' : Window) : Type 0 where
  pub valid : IsValid top w'
  pub same_size : w'.size ≡ w.size
  pub init : w'.initialized ≡ w.initialized
  pub closes : (t : ℕ) → closed w' t ≡ closed w t

init-advance_one : (w : Window) → (advance_one w).initialized ≡ w.initialized
unfolding advance_one clear
init-advance_one w = refl

pub advance-Advanced :
    {top : ℕ} (fuel : ℕ) (w : Window) → IsValid top w → Advanced top w (advance fuel w)
unfolding advance
advance-Advanced zero w v = record { valid = v; same_size = refl; init = refl; closes = λ t. refl }
advance-Advanced {top} (suc fuel) w v = elim (Bool-cases (test w w.base_seq)) [
  | inl m ↦
      let lt = marked_base-lt v m in
      let rest = advance-Advanced fuel (advance_one w) (advance_one-IsValid v lt) in
      rw (m, advance)
        (record {
          valid = rest.valid;
          same_size = rest.same_size ∙ size-advance_one w;
          init = rest.init ∙ init-advance_one w;
          closes = λ t.
              rest.closes t
              ∙ closed-advance_one v lt t
              ∙ (ground (arith, ap (test w) {x = t} {y = w.base_seq}, v.shape.one_word));
        })
  | inr m ↦
      rw (m, advance) (record { valid = v; same_size = refl; init = refl; closes = λ t. refl })
]

-- The numbers that entered since the base was `first` are not marked.
abbrev Entered : ℕ → Window → Type 0
Entered first w = (t : ℕ) → first + w.size ≤ t → t < w.base_seq + w.size → test w t ≡ false

Entered-advance_one :
    {top : ℕ} (first : ℕ) {w : Window}
    → IsValid top w
    → w.base_seq < first + w.size
    → Entered first w
    → Entered first (advance_one w)
Entered-advance_one {top} first {w} v below e t lo hi = elim (ℕ_discrete t (w.base_seq + w.size)) [
  | yes at_end ↦
      ap (test (advance_one w)) at_end
      ∙ test_entered (advance_one-Drops w v.shape no_wrap) (pos_size v)
  | no inside ↦
      test_kept (advance_one-Drops w v.shape no_wrap) (pos_size v) t
        (omega (arith, size-advance_one w)) (below_end inside)
      ∙ e t (omega (arith, size-advance_one w)) (below_end inside)
]
  where
    no_wrap : w.base_seq + 1 < 2 ^ 64
    no_wrap = omega (arith, v.room)

    below_end : t ≢ w.base_seq + w.size → t < w.base_seq + w.size
    below_end ne = omega (arith, base-advance_one w no_wrap, size-advance_one w)

advance_stops :
    {top : ℕ} (first fuel : ℕ) (w : Window)
    → IsValid top w
    → Entered first w
    → w.base_seq ≤ first + w.size
    → first + w.size < w.base_seq + fuel
    → let w' = advance fuel w in test w' w'.base_seq ≡ false
unfolding advance
advance_stops first zero w v e le lt = absurd (omega arith)
advance_stops first (suc fuel) w v e le lt = elim (Bool-cases (test w w.base_seq)) [
  | inl m ↦
      let one = base-advance_one w (omega (arith, v.room)) in
      rw (m, advance)
        (advance_stops first fuel (advance_one w) (advance_one-IsValid v (marked_base-lt v m))
          (Entered-advance_one first v (not_yet m) e)
          (omega (arith, one, size-advance_one w, not_yet m))
          (omega (arith, one, size-advance_one w)))
  | inr m ↦ rw (m, advance) m
]
  where
    not_yet : test w w.base_seq ≡ true → w.base_seq < first + w.size
    not_yet m = elim (ℕ_discrete w.base_seq (first + w.size)) [
      | yes end ↦ cc (m, e w.base_seq (omega arith) (omega (arith, v.shape.one_word)))
      | no inside ↦ omega arith
    ]

-- On a valid window the fuel of `advance_contiguous` is enough: its loop ends by its own test, the
-- bit at the new base is clear.
pub advance_contiguous_stops :
    {top : ℕ} (w : Window)
    → IsValid top w
    → test (advance_contiguous w) (advance_contiguous w).base_seq ≡ false
unfolding advance_contiguous
advance_contiguous_stops w v =
    advance_stops w.base_seq (suc w.size) w v (λ t lo hi. absurd (omega arith)) (omega arith)
      (omega arith)
