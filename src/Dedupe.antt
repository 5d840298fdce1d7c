-- ===== src/Dedupe.antt =====
-- harness/include/dedupe_window.h: the sliding duplicate filter of one stream.
-- The words of `bits_` are kept as they are in the source, a list of 64-bit words.
pub mod Bitmap
pub mod Shape
pub mod Closed
pub mod Advance
pub mod Observe
pub mod Refine
pub mod Stream
mod Tests
use low_latency_udp_fanout.Common.{
  ℕ, zero, suc, ◌+◌, ◌-◌, ◌/◌, ◌^◌, Bool, true, false, not, ◌||◌, Option, none, some, List, bit_and,
  bit_or, ltb, leb, ◌==◌, if◌then◌else◌, get_or, set as set_elem, replicate, u64, sub64, ◌<<<◌,
  ◌>>>◌,
}

pub data ObserveResult : Type 0 where
  accept duplicate too_old advanced : ObserveResult

pub record Counters : Type 0 where
  pub accepted : ℕ
  pub duplicates : ℕ
  pub too_old : ℕ
  pub lost_confirmed : ℕ
  pub window_slides : ℕ
  pub max_reorder_depth : ℕ
  pub receiver_seq_jump_raw : ℕ

pub record Window : Type 0 where
  pub size : ℕ
  pub mask : ℕ
  pub bits : List ℕ
  pub base_seq : ℕ
  pub initialized : Bool
  pub counters : Counters

abbrev pub no_counts : Counters
no_counts = record {
  accepted = 0;
  duplicates = 0;
  too_old = 0;
  lost_confirmed = 0;
  window_slides = 0;
  max_reorder_depth = 0;
  receiver_seq_jump_raw = 0;
}

abbrev pub blank : ℕ → Window
blank size = record {
  size = size;
  mask = size - 1;
  bits = replicate (size / 64) 0;
  base_seq = 0;
  initialized = false;
  counters = no_counts;
}

-- The constructor; `none` is `std::abort()`.
pub new_window : ℕ → Option Window
new_window size =
    if size == 0 || not (bit_and size (size - 1) == 0) || ltb size 64
    then none
    else some (blank size)

-- The three accesses to `bits_`, at a position that is already masked.
abbrev pub bit_of : ℕ → ℕ
bit_of pos = 1 <<< bit_and pos 63

pub test_at : List ℕ → ℕ → Bool
test_at bits pos = not (bit_and (get_or bits (pos >>> 6) 0) (bit_of pos) == 0)

pub set_at : List ℕ → ℕ → List ℕ
set_at bits pos = set_elem bits (pos >>> 6) (bit_or (get_or bits (pos >>> 6) 0) (bit_of pos))

pub clear_at : List ℕ → ℕ → List ℕ
clear_at bits pos =
    set_elem bits (pos >>> 6) (bit_and (get_or bits (pos >>> 6) 0) (2 ^ 64 - 1 - bit_of pos))

pub test : Window → ℕ → Bool
test w seq = test_at w.bits (bit_and seq w.mask)

pub set : Window → ℕ → Window
set w seq = record w { bits = set_at w.bits (bit_and seq w.mask) }

pub clear : Window → ℕ → Window
clear w seq = record w { bits = clear_at w.bits (bit_and seq w.mask) }

abbrev count_lost : Counters → Counters
count_lost c = record c { lost_confirmed = u64 (c.lost_confirmed + 1) }

-- One round of the loop of `slide_to`.
pub slide_one : Window → Window
unfolding clear
slide_one w = record (clear w w.base_seq) {
  base_seq = u64 (w.base_seq + 1);
  counters = if test w w.base_seq then w.counters else count_lost w.counters;
}

pub slide : ℕ → Window → Window
slide zero w = w
slide (suc rounds) w = slide rounds (slide_one w)

-- `while (base_seq_ < next_base)`: `base_seq_` grows by one in each round, and stays below
-- `next_base` till the end, so it does not wrap and the rounds are the difference.
pub slide_to : Window → ℕ → Window
slide_to w next_base = slide (next_base - w.base_seq) w

pub advance_one : Window → Window
unfolding clear
advance_one w = record (clear w w.base_seq) { base_seq = u64 (w.base_seq + 1) }

-- The loop of `advance_contiguous`, on fuel.
pub advance : ℕ → Window → Window
advance zero w = w
advance (suc fuel) w = elim (test w w.base_seq) [ true ↦ advance fuel (advance_one w) | false ↦ w ]

-- A window has `size` bits, and each round clears one.
pub advance_contiguous : Window → Window
advance_contiguous w = advance (suc w.size) w

-- The first packet sets the base.
pub start : Window → ℕ → Window
start w seq = if w.initialized then w else record w { initialized = true; base_seq = seq }

pub note_jump : Window → ℕ → Window
note_jump w seq =
    if leb w.base_seq seq
    then (if ltb w.counters.receiver_seq_jump_raw (seq - w.base_seq)
        then record w {
          counters = record (w.counters) { receiver_seq_jump_raw = seq - w.base_seq };
        }
        else w)
    else w

-- Slides the window up to a sequence number beyond its end.
pub slide_past : Window → ℕ → Window
slide_past w seq =
    let moved = slide_to w (u64 (sub64 seq w.size + 1)) in
    record moved {
      counters = record (moved.counters) { window_slides = u64 (moved.counters.window_slides + 1) };
    }

pub make_room : Window → ℕ → ObserveResult × Window
make_room w seq =
    if leb (u64 (w.base_seq + w.size)) seq then (advanced, slide_past w seq) else (accept, w)

pub note_depth : Window → ℕ → Window
note_depth w seq =
    if ltb w.counters.max_reorder_depth (sub64 seq w.base_seq)
    then record w { counters = record (w.counters) { max_reorder_depth = sub64 seq w.base_seq } }
    else w

abbrev count_duplicate : Window → Window
count_duplicate w = record w {
  counters = record (w.counters) { duplicates = u64 (w.counters.duplicates + 1) };
}

abbrev count_accepted : Window → Window
count_accepted w = record w {
  counters = record (w.counters) { accepted = u64 (w.counters.accepted + 1) };
}

abbrev count_too_old : Window → Window
count_too_old w = record w {
  counters = record (w.counters) { too_old = u64 (w.counters.too_old + 1) };
}

-- The end of `observe`: a duplicate changes no bit, a new number is recorded.
pub admit : ObserveResult → Window → ℕ → ObserveResult × Window
admit result w seq =
    if test w seq
    then (duplicate, count_duplicate w)
    else (result, advance_contiguous (count_accepted (set w seq)))

-- `observe` of a packet that is not below the base.
pub observe_new : Window → ℕ → ObserveResult × Window
observe_new w seq = let (result, w') = make_room w seq in admit result (note_depth w' seq) seq

pub observe_started : Window → ℕ → ObserveResult × Window
observe_started w seq =
    let w' = note_jump w seq in
    if ltb seq w'.base_seq then (too_old, count_too_old w') else observe_new w' seq

pub observe : Window → ℕ → ObserveResult × Window
observe w seq = observe_started (start w seq) seq
