-- ===== src/Dedupe/Tests.antt =====
-- The duplicate window on concrete packets.
use low_latency_udp_fanout.Common.{ℕ, ◌≤◌, ◌≡◌, refl, false, List, [], ◌∷◌, some, none, ltb, arith}
use low_latency_udp_fanout.Dedupe.{
  advanced, blank, new_window, start, observe, observe_started, observe_new, note_jump, note_depth,
  make_room, slide_past, slide_to, slide, slide_one, admit, advance_contiguous, advance,
  advance_one, test, set, clear, test_at, set_at, clear_at,
}
use low_latency_udp_fanout.Dedupe.Closed.{IsValid}
use low_latency_udp_fanout.Dedupe.Refine.{Observed, observe-Observed}
use low_latency_udp_fanout.Dedupe.Advance.{advance_contiguous_stops}
use low_latency_udp_fanout.Dedupe.Stream.{
  deliveries, filter_open, deliveries-new_window, deliveries_once, deliveries_near, start-Opened,
  count,
}

abbrev packets : List ℕ
packets = 7 ∷ 5 ∷ 7 ∷ 6 ∷ 70 ∷ []

made_64 : new_window 64 ≡ some (blank 64)
unfolding new_window
made_64 = refl

not_a_power : new_window 96 ≡ none
unfolding new_window
not_a_power = refl

run_packets : deliveries (blank 64) (5 ∷ packets) ≡ 5 ∷ 7 ∷ 6 ∷ 70 ∷ []
unfolding deliveries observe observe_started start note_jump observe_new note_depth make_room
    slide_past slide_to slide slide_one admit advance_contiguous advance advance_one test set clear
    test_at set_at clear_at
run_packets = refl

first_verdict_after_gap : (observe (observe (blank 64) 1).1 66).0 ≡ advanced
unfolding observe observe_started start note_jump observe_new note_depth make_room slide_past
    slide_to slide slide_one admit advance_contiguous advance advance_one test set clear test_at
    set_at clear_at
first_verdict_after_gap = refl

deliveries-new_window_example :
    deliveries (blank 64) (5 ∷ packets) ≡ filter_open 64 (λ t. ltb t 5) (5 ∷ packets)
deliveries-new_window_example =
    deliveries-new_window 64 100 5 packets made_64 (omega arith) (omega arith)

deliveries_once_example : count 7 (deliveries (blank 64) (5 ∷ packets)) ≤ 1
deliveries_once_example = deliveries_once 64 100 5 packets made_64 (omega arith) (omega arith) 7

deliveries_near_example :
    (count 7 (deliveries (blank 64) (5 ∷ 7 ∷ 3 ∷ 7 ∷ 6 ∷ [])) ≡ 1)
    × (count 3 (deliveries (blank 64) (5 ∷ 7 ∷ 3 ∷ 7 ∷ 6 ∷ [])) ≡ 0)
deliveries_near_example = (
  deliveries_near 64 100 5 (7 ∷ 3 ∷ 7 ∷ 6 ∷ []) made_64 (omega arith) (omega arith) (omega arith) 7,
  deliveries_near 64 100 5 (7 ∷ 3 ∷ 7 ∷ 6 ∷ []) made_64 (omega arith) (omega arith) (omega arith) 3,
)

opened_at_5 : IsValid 100 (start (blank 64) 5)
opened_at_5 = (start-Opened 64 100 5 made_64 (omega arith) (omega arith)).valid

observe-Observed_example : Observed 100 9 (start (blank 64) 5) (observe (start (blank 64) 5) 9)
unfolding start
observe-Observed_example = observe-Observed 9 (start (blank 64) 5) opened_at_5 refl (omega arith)

advance_contiguous_stops_example :
    test
      (advance_contiguous (start (blank 64) 5))
      (advance_contiguous (start (blank 64) 5)).base_seq
    ≡ false
advance_contiguous_stops_example = advance_contiguous_stops (start (blank 64) 5) opened_at_5
