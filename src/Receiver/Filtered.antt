-- ===== src/Receiver/Filtered.antt =====
-- harness/src/receiver.cpp: what is published of a stream, through the decoder and the duplicate filter.
use low_latency_udp_fanout.Common.{
  ℕ, ◌+◌, ◌≡◌, refl, sym, ◌∙◌, ap, arith, Bool, true, false, not, ◌||◌, inl, inr, Bool-cases, List,
  [], ◌∷◌, ◌++◌, map, All, Option, none, some, ◌==◌, ==_iff, if◌then◌else◌, length, length-append,
  u64,
}
use mathlib.Core.List.{append-nil}
use low_latency_udp_fanout.Wire.Frame.{NativeLayout, decode}
use low_latency_udp_fanout.Multiplex.{Key}
use low_latency_udp_fanout.Dedupe.{Window, observe}
use low_latency_udp_fanout.Dedupe.Observe.{delivers}
use low_latency_udp_fanout.Dedupe.Stream.{deliveries}
use low_latency_udp_fanout.Fec.Decoder.{Decoder}
use low_latency_udp_fanout.Fec.Decoder.Receive.Keeps.{receive-keeps}
use low_latency_udp_fanout.Receiver.{
  Session, publish_filtered, publish_frame, receive_round, receive_all,
}

-- The filter after a list of numbers.
unfoldable pub observe_all : Window → List ℕ → Window
observe_all w [] = w
observe_all w (seq ∷ seqs) = observe_all (observe w seq).1 seqs

observe_all-append_one :
    (w : Window) (seqs : List ℕ) (seq : ℕ)
    → observe_all w (seqs ++ (seq ∷ [])) ≡ (observe (observe_all w seqs) seq).1
unfolding observe_all
observe_all-append_one w [] seq = refl
observe_all-append_one w (x ∷ seqs) seq = observe_all-append_one (observe w x).1 seqs seq

one_if : Bool → ℕ → List ℕ
one_if b seq = if b then seq ∷ [] else []

deliveries-append_one :
    (w : Window) (seqs : List ℕ) (seq : ℕ)
    → deliveries w (seqs ++ (seq ∷ []))
      ≡ deliveries w seqs ++ one_if (delivers (observe (observe_all w seqs) seq).0) seq
unfolding deliveries observe_all one_if
deliveries-append_one w [] seq = refl
deliveries-append_one w (x ∷ seqs) seq =
    by_first (deliveries-append_one (observe w x).1 seqs seq) (delivers (observe w x).0)
  where
    by_first :
        deliveries (observe w x).1 (seqs ++ (seq ∷ []))
          ≡ deliveries (observe w x).1 seqs
            ++ one_if (delivers (observe (observe_all (observe w x).1 seqs) seq).0) seq
        → (b : Bool)
        → (if b
            then x ∷ deliveries (observe w x).1 (seqs ++ (seq ∷ []))
            else deliveries (observe w x).1 (seqs ++ (seq ∷ [])))
          ≡ (if b then x ∷ deliveries (observe w x).1 seqs else deliveries (observe w x).1 seqs)
            ++ one_if (delivers (observe (observe_all (observe w x).1 seqs) seq).0) seq
    by_first ih true = ap (λ fs. x ∷ fs) ih
    by_first ih false = ih

module _ (native : NativeLayout) (key : Key) where
  -- A ring that keeps a log of what is published.
  abbrev pub Log : Type 0
  Log = List (native.Memory × ℕ)

  abbrev pub log_publish : native.Memory → ℕ → Log → Log
  log_publish frame len log = log ++ ((frame, len) ∷ [])

  abbrev pub number_of : native.Memory × ℕ → ℕ
  number_of p = (native.load_header p.0).seq_id

  -- Frames of the stream of the key.
  abbrev pub Belongs : native.Memory × ℕ → Type 0
  Belongs p =
      ((native.load_header p.0).stream_id ≡ key.stream)
      × ((native.load_header p.0).stream_epoch ≡ key.epoch)

  -- The log holds frames of the stream only, with the numbers that the filter `w` lets through of a list of numbers;
  -- the filter of the session has seen the same list, and the frames are counted.
  pub record IsFiltered (w : Window) (s : Session Log) : Type 0 where
    pub seqs : List ℕ
    pub window : s.dedupe ≡ observe_all w seqs
    pub output : map number_of s.ring ≡ deliveries w seqs
    pub counted : s.published ≡ u64 (length s.ring)
    pub own : All Belongs s.ring

  map-append_one :
      (log : Log) (p : native.Memory × ℕ)
      → map number_of (log ++ (p ∷ [])) ≡ map number_of log ++ (number_of p ∷ [])
  map-append_one [] p = refl
  map-append_one (q ∷ log) p = ap (λ ns. number_of q ∷ ns) (map-append_one log p)

  All-append_one :
      (log : Log) (p : native.Memory × ℕ)
      → All Belongs log
      → Belongs p
      → All Belongs (log ++ (p ∷ []))
  All-append_one [] p h own = (own, tt)
  All-append_one (q ∷ log) p (one, h) own = (one, All-append_one log p h own)

  module _ (w : Window) (frame : native.Memory) (len : ℕ) (recovered : Bool)
      (own : Belongs (frame, len)) (s : Session Log) (f : IsFiltered w s) where
    abbrev seq : ℕ
    seq = (native.load_header frame).seq_id

    abbrev seen : ℕ → Session Log
    seen late = record s { dedupe = (observe s.dedupe seq).1; late_too_old = late }

    next_window : (observe s.dedupe seq).1 ≡ observe_all w (f.seqs ++ (seq ∷ []))
    next_window = ap (λ v. (observe v seq).1) f.window ∙ sym (observe_all-append_one w f.seqs seq)

    next_output :
        deliveries w (f.seqs ++ (seq ∷ []))
        ≡ deliveries w f.seqs ++ one_if (delivers (observe s.dedupe seq).0) seq
    next_output =
        deliveries-append_one w f.seqs seq
        ∙ ap (λ v. deliveries w f.seqs ++ one_if (delivers (observe v seq).0) seq) (sym f.window)

    passed :
        (late : ℕ) (b : Bool)
        → delivers (observe s.dedupe seq).0 ≡ b
        → IsFiltered w (
            if b
            then record (seen late) {
              ring = log_publish frame len s.ring;
              published = u64 (s.published + 1);
            }
            else seen late)
    unfolding one_if
    passed late true e = record {
      seqs = f.seqs ++ (seq ∷ []);
      window = next_window;
      output =
          map-append_one s.ring (frame, len)
          ∙ ap (λ ns. ns ++ (seq ∷ [])) f.output
          ∙ sym (next_output ∙ ap (λ b. deliveries w f.seqs ++ one_if b seq) e);
      counted = omega (arith, f.counted, length-append s.ring ((frame, len) ∷ []));
      own = All-append_one s.ring (frame, len) f.own own;
    }
    passed late false e = record {
      seqs = f.seqs ++ (seq ∷ []);
      window = next_window;
      output =
          f.output
          ∙ sym (
              next_output
              ∙ ap (λ b. deliveries w f.seqs ++ one_if b seq) e
              ∙ append-nil (deliveries w f.seqs));
      counted = f.counted;
      own = f.own;
    }

    publish_filtered-IsFiltered :
        IsFiltered w (publish_filtered native log_publish key frame len recovered s)
    unfolding publish_filtered
    publish_filtered-IsFiltered = passed _ (delivers (observe s.dedupe seq).0) refl

  owned :
      (m : native.Memory) (len : ℕ)
      → (not ((native.load_header m).stream_id == key.stream)
          || not ((native.load_header m).stream_epoch == key.epoch))
        ≡ false
      → Belongs (m, len)
  owned m len e = ground (
    arith,
    e,
    ==_iff (native.load_header m).stream_id key.stream,
    ==_iff (native.load_header m).stream_epoch key.epoch,
  )

  decoded_keeps :
      (w : Window) (recovered : Bool) (s : Session Log) (o : Option (native.Memory × ℕ))
      → IsFiltered w s
      → IsFiltered w
          (elim o as (λ _. Bool × Session Log) [
            | none ↦ (false, s)
            | some (memory, len) ↦
                if not ((native.load_header memory).stream_id == key.stream)
                  || not ((native.load_header memory).stream_epoch == key.epoch)
                then (false, s)
                else (true, publish_filtered native log_publish key memory len recovered s)
          ]).1
  decoded_keeps w recovered s none f = f
  decoded_keeps w recovered s (some (m, len)) f =
      elim (Bool-cases (
        not ((native.load_header m).stream_id == key.stream)
        || not ((native.load_header m).stream_epoch == key.epoch))) [
          | inl other ↦ rw other f
          | inr same ↦
              rw same (publish_filtered-IsFiltered w m len recovered (owned m len same) s f)
        ]

  publish_frame-IsFiltered :
      (w : Window) (frame : List ℕ) (recovered : Bool) (reason : ℕ) (s : Session Log)
      → IsFiltered w s
      → IsFiltered w (publish_frame native log_publish key true frame recovered reason s).1
  unfolding publish_frame
  publish_frame-IsFiltered w frame recovered reason s f =
      decoded_keeps w recovered s (decode native frame) f

  receive_round-IsFiltered :
      (w : Window) (packets : List (List ℕ × ℕ)) (d : Decoder) (s : Session Log)
      → IsFiltered w s
      → IsFiltered w (receive_round native log_publish key true packets d s).1
  unfolding receive_round
  receive_round-IsFiltered w [] d s f = f
  receive_round-IsFiltered w (packet ∷ packets) d s f = receive_round-IsFiltered w packets _ _ (
      receive-keeps (publish_frame native log_publish key true) (IsFiltered w)
        (publish_frame-IsFiltered w) d packet.0 packet.1 s f)

  -- With the filter, over any rounds of the loop, at any times, that expire old generations and receive any datagrams of a
  -- stream, lost, repeated, out of order or malformed, and whatever the decoder recovers from them: if the log held
  -- frames of the stream only, numbered as the filter lets through of what it has seen, and counted, it does afterwards.
  pub receive_all-IsFiltered :
      (w : Window) (rounds : List (ℕ × List (List ℕ × ℕ))) (d : Decoder) (s : Session Log)
      → IsFiltered w s
      → IsFiltered w (receive_all native log_publish key true rounds d s).1
  unfolding receive_all
  receive_all-IsFiltered w [] d s f = f
  receive_all-IsFiltered w (round ∷ rounds) d s f =
      receive_all-IsFiltered w rounds _ _ (receive_round-IsFiltered w round.1 _ s f)
