-- ===== src/Dedupe/Refine.antt =====
-- `observe` implements its abstract description: a set of closed numbers.
use low_latency_udp_fanout.Common.{
  ℕ, ◌+◌, ◌≤◌, ◌<◌, ◌≡◌, refl, ◌∙◌, ap, inl, inr, true, false, not, ◌||◌, ltb, ◌==◌, arith,
  Bool-cases, ltb→lt, not_ltb→le,
}
use low_latency_udp_fanout.Dedupe.{
  Window, ObserveResult, duplicate, too_old, test, set, note_jump, note_depth, start,
  advance_contiguous, admit, observe_new, observe_started, observe, count_accepted, count_duplicate,
  count_too_old,
}
use low_latency_udp_fanout.Dedupe.Closed.{closed, IsValid}
use low_latency_udp_fanout.Dedupe.Advance.{Advanced, advance-Advanced}
use low_latency_udp_fanout.Dedupe.Observe.{
  delivers, SameBits, closed-SameBits, IsValid-SameBits, note_jump-SameBits, note_depth-SameBits,
  Roomy, make_room-Roomy, closed-set, set-IsValid,
}

-- What a packet does to the closed numbers: it closes its own, and all a whole window below it.
-- It is delivered if its number was open.
pub record Observed (top seq : ℕ) (w : Window) (r : ObserveResult × Window) : Type 0 where
  pub valid : IsValid top r.1
  pub same_size : r.1.size ≡ w.size
  pub init : r.1.initialized ≡ w.initialized
  pub delivered : delivers r.0 ≡ not (closed w seq)
  pub closes : (t : ℕ) → closed r.1 t ≡ (closed w t || (t == seq) || ltb (t + w.size) (seq + 1))

count_accepted-SameBits : (w : Window) → SameBits w (count_accepted w)
count_accepted-SameBits w = record {
  size = refl;
  mask = refl;
  bits = refl;
  base = refl;
  init = refl;
}

count_duplicate-SameBits : (w : Window) → SameBits w (count_duplicate w)
count_duplicate-SameBits w = record {
  size = refl;
  mask = refl;
  bits = refl;
  base = refl;
  init = refl;
}

count_too_old-SameBits : (w : Window) → SameBits w (count_too_old w)
count_too_old-SameBits w = record {
  size = refl;
  mask = refl;
  bits = refl;
  base = refl;
  init = refl;
}

size-set :
    (w : Window) (seq : ℕ) → ((set w seq).size ≡ w.size) × ((set w seq).initialized ≡ w.initialized)
unfolding set
size-set w seq = (refl, refl)

module _ {top : ℕ} (seq : ℕ) (w : Window) {r : ObserveResult} {w1 : Window}
    (room : Roomy top seq w (r, w1)) (lt : seq < top) where
  duplicate_lem : test w1 seq ≡ true → Observed top seq w (duplicate, count_duplicate w1)
  duplicate_lem m = record {
    valid = IsValid-SameBits (count_duplicate-SameBits w1) room.valid;
    same_size = room.same_size;
    init = room.init;
    delivered = ground (
      arith,
      room.closes seq,
      room.base_le,
      room.inside,
      room.valid.shape.one_word,
      room.same_size,
    );
    closes = λ t. ground (
      arith,
      room.closes t,
      closed-SameBits (count_duplicate-SameBits w1) t,
      ap (closed w1) {x = t} {y = seq},
      room.inside,
    );
  }

  fresh_lem :
      test w1 seq ≡ false → Observed top seq w (r, advance_contiguous (count_accepted (set w1 seq)))
  unfolding advance_contiguous
  fresh_lem m = record {
    valid = done.valid;
    same_size = done.same_size ∙ (size-set w1 seq).0 ∙ room.same_size;
    init = done.init ∙ (size-set w1 seq).1 ∙ room.init;
    delivered =
        room.passes
        ∙ ground (
          arith,
          room.closes seq,
          room.base_le,
          room.inside,
          room.valid.shape.one_word,
          room.same_size,
        );
    closes = λ t. ground (
      arith,
      done.closes t,
      closed-SameBits marked t,
      closed-set w1 seq room.valid room.base_le room.inside t,
      room.closes t,
    );
  }
    where
      marked : SameBits (set w1 seq) (count_accepted (set w1 seq))
      marked = count_accepted-SameBits (set w1 seq)

      done :
          Advanced top
            (count_accepted (set w1 seq))
            (advance_contiguous (count_accepted (set w1 seq)))
      done =
          advance-Advanced _ _
            (IsValid-SameBits marked (set-IsValid w1 seq room.valid room.base_le room.inside lt))

  admit-Observed : Observed top seq w (admit r w1 seq)
  unfolding admit
  admit-Observed = elim (Bool-cases (test w1 seq)) [
    | inl m ↦ rw (m, admit) (duplicate_lem m)
    | inr m ↦ rw (m, admit) (fresh_lem m)
  ]

note_depth-Roomy :
    {top seq : ℕ} {w w1 : Window} {r : ObserveResult}
    → Roomy top seq w (r, w1)
    → Roomy top seq w (r, note_depth w1 seq)
note_depth-Roomy {top} {seq} {w} {w1} room = record {
  valid = IsValid-SameBits same room.valid;
  same_size = same.size ∙ room.same_size;
  init = same.init ∙ room.init;
  base_le = omega (arith, same.base, room.base_le);
  inside = omega (arith, same.base, same.size, room.inside);
  passes = room.passes;
  closes = λ t. closed-SameBits same t ∙ room.closes t;
}
  where
    same : SameBits w1 (note_depth w1 seq)
    same = note_depth-SameBits w1 seq

observe_new-Observed :
    {top : ℕ} (seq : ℕ) (w : Window)
    → IsValid top w
    → w.base_seq ≤ seq
    → seq < top
    → Observed top seq w (observe_new w seq)
unfolding observe_new
observe_new-Observed seq w v le lt =
    admit-Observed seq w (note_depth-Roomy (make_room-Roomy w seq v le lt)) lt

-- A number below the base is closed already, and changes nothing but a counter.
too_old-Observed :
    {top : ℕ} (seq : ℕ) (w : Window)
    → IsValid top w
    → seq < w.base_seq
    → Observed top seq w (too_old, count_too_old w)
too_old-Observed seq w v old = record {
  valid = IsValid-SameBits (count_too_old-SameBits w) v;
  same_size = refl;
  init = refl;
  delivered = ground arith;
  closes = λ t. ground (arith, closed-SameBits (count_too_old-SameBits w) t);
}

through_SameBits :
    {top seq : ℕ} {w w1 : Window} {r : ObserveResult × Window}
    → SameBits w w1
    → Observed top seq w1 r
    → Observed top seq w r
through_SameBits {seq = seq} same o = record {
  valid = o.valid;
  same_size = o.same_size ∙ same.size;
  init = o.init ∙ same.init;
  delivered = o.delivered ∙ ap not (closed-SameBits same seq);
  closes = λ t. ground (arith, o.closes t, closed-SameBits same t, same.size);
}

observe_started-Observed :
    {top : ℕ} (seq : ℕ) (w : Window)
    → IsValid top w
    → seq < top
    → Observed top seq w (observe_started w seq)
unfolding observe_started
observe_started-Observed {top} seq w v lt = through_SameBits same body
  where
    same : SameBits w (note_jump w seq)
    same = note_jump-SameBits w seq

    body : Observed top seq (note_jump w seq) (observe_started w seq)
    body = elim (Bool-cases (ltb seq (note_jump w seq).base_seq)) [
      | inl old ↦
          rw (old, observe_started)
            (too_old-Observed seq _ (IsValid-SameBits same v) (ltb→lt _ _ old))
      | inr new ↦
          rw (new, observe_started)
            (observe_new-Observed seq _ (IsValid-SameBits same v) (not_ltb→le _ _ new) lt)
    ]

pub start_again : (w : Window) (seq : ℕ) → w.initialized ≡ true → start w seq ≡ w
unfolding start
start_again w seq h = ground arith

-- On a valid window that has seen its first packet, for a number below a bound that is more than a
-- window below 2 ^ 64, `observe` keeps the window valid for that bound, delivers the packet exactly
-- if its number is open, and closes that number, every number a whole window or more below it, and
-- no other.
pub observe-Observed :
    {top : ℕ} (seq : ℕ) (w : Window)
    → IsValid top w
    → w.initialized ≡ true
    → seq < top
    → Observed top seq w (observe w seq)
unfolding observe
observe-Observed seq w v init lt = rw (start_again w seq init) (observe_started-Observed seq w v lt)
