-- ===== src/Consumer/Accounts.antt =====
-- harness/src/consumer.cpp: the counts of the read loop, in all and for each stream.
use low_latency_udp_fanout.Common.{
  ℕ, suc, ◌+◌, ◌^◌, ◌≤◌, ◌<◌, ◌≡◌, ◌≢◌, refl, ◌∙◌, ap, arith, List, [], ◌∷◌, ◌++◌, true, false, not,
  ◌||◌, inl, inr, Bool-cases, Option, none, some, ltb, leb, ◌==◌, length, length-append, u64,
}
use low_latency_udp_fanout.Message.{Header, validate_frame}
use low_latency_udp_fanout.Metrics.{Floats, Accumulator, no_records, record_latency}
use low_latency_udp_fanout.Multiplex.{Key, same_key, find}
use low_latency_udp_fanout.Consumer.{
  Config, Read, ok_frame, lapped, corrupt, nothing, Consumer, Outcome, running, stopped, failed,
  update, record_stream, take_frame, consume, consume_all,
}

module _ (floats : Floats) where
  abbrev Entries : Type 0
  Entries = List (Key × Accumulator floats)

  -- The records of all streams.
  unfoldable pub total : Entries → ℕ
  total [] = 0
  total (entry ∷ entries) = entry.1.received + total entries

  total-append_one :
      (entries : Entries) (entry : Key × Accumulator floats)
      → total (entries ++ (entry ∷ [])) ≡ total entries + entry.1.received
  unfolding total
  total-append_one [] entry = omega arith
  total-append_one (e ∷ entries) entry = omega (arith, total-append_one entries entry)

  counted_once :
      (a : Accumulator floats) (seq latency : ℕ)
      → (record_latency floats a seq latency).received ≡ u64 (a.received + 1)
  unfolding record_latency
  counted_once a seq latency = refl

  update_counts :
      (key : Key) (seq latency : ℕ) (entries : Entries) (a : Accumulator floats)
      → find entries key ≡ some a
      → total entries + 1 < 2 ^ 64
      → (total (update floats key seq latency entries) ≡ total entries + 1)
        × (length (update floats key seq latency entries) ≡ length entries)
  unfolding total update find
  update_counts key seq latency [] a found room = absurd (cc)
  update_counts key seq latency (entry ∷ entries) a found room =
      elim (Bool-cases (same_key entry.0 key)) [
        | inl same ↦ rw same (omega (arith, counted_once entry.1 seq latency), refl)
        | inr other ↦
            let further : find entries key ≡ some a = rw other at found in
            let (more, size) = update_counts key seq latency entries a further (omega arith) in
            rw other (omega (arith, more), ap suc size)
      ]

  -- After `n` reads.
  pub record IsCounted (cfg : Config) (n : ℕ) (c : Consumer floats) : Type 0 where
    pub by_stream : total c.stream_metrics ≡ c.received
    pub in_all : c.acc.received ≡ c.received
    pub reads : c.received + c.skipped ≤ n
    pub skips : c.skipped ≤ cfg.skip
    pub skipped_first : c.received ≢ 0 → c.skipped ≡ cfg.skip
    pub streams : length c.stream_metrics ≤ 256
    pub no_more : cfg.count ≢ 0 → c.received ≤ cfg.count

  -- A result that is no failure leaves everything counted.
  abbrev pub Ends : Config → ℕ → Outcome floats → Type 0
  Ends cfg n (running c) = IsCounted cfg n c
  Ends cfg n (stopped c) = IsCounted cfg n c
  Ends cfg n failed = Unit

  module _ (cfg : Config) (n : ℕ) (c : Consumer floats) (k : IsCounted cfg n c)
      (room : n + 1 < 2 ^ 64) where
    abbrev with_entries : ℕ → Entries → Consumer floats
    with_entries latency entries = record c {
      stream_metrics = entries;
      acc = record_latency floats c.acc (u64 (c.received + 1)) latency;
      received = u64 (c.received + 1);
      read_index = u64 (c.read_index + 1);
    }

    entries-IsCounted :
        (latency : ℕ) (entries : Entries)
        → c.skipped ≡ cfg.skip
        → (cfg.count ≢ 0 → c.received < cfg.count)
        → total entries ≡ total c.stream_metrics + 1
        → length entries ≤ 256
        → IsCounted cfg (suc n) (with_entries latency entries)
    entries-IsCounted latency entries done more sum size = record {
      by_stream = omega (arith, sum, k.by_stream, k.reads);
      in_all = counted_once c.acc (u64 (c.received + 1)) latency ∙ omega (arith, k.in_all);
      reads = omega (arith, k.reads);
      skips = k.skips;
      skipped_first = λ h. done;
      streams = size;
      no_more = λ h. omega (arith, more h, k.reads);
    }

    recorded :
        (key : Key) (seq latency : ℕ) (o : Option (Accumulator floats))
        → find c.stream_metrics key ≡ o
        → c.skipped ≡ cfg.skip
        → (cfg.count ≢ 0 → c.received < cfg.count)
        → Ends cfg (suc n) (elim (record_stream floats key seq latency c.stream_metrics) [
          | none ↦ failed
          | some entries ↦ running (with_entries latency entries)
        ])
    unfolding record_stream
    recorded key seq latency (some a) found done more =
        let (sum, size) =
          update_counts key seq latency c.stream_metrics a found
            (omega (arith, k.by_stream, k.reads)) in
        rw found (entries-IsCounted latency _ done more sum (omega (arith, size, k.streams)))
    recorded key seq latency none found done more =
        elim (Bool-cases (leb 256 (length c.stream_metrics))) [
          | inl full ↦ rw (found, full) tt
          | inr fits ↦
              let entry : Key × Accumulator floats =
                (key, record_latency floats (no_records floats) seq latency) in
              let one : entry.1.received ≡ 1 = counted_once (no_records floats) seq latency in
              rw (found, fits)
                (entries-IsCounted latency (c.stream_metrics ++ (entry ∷ [])) done more
                  (total-append_one c.stream_metrics entry
                    ∙ ap (λ t. total c.stream_metrics + t) one)
                  (ground (arith, fits, length-append c.stream_metrics (entry ∷ []))))
        ]

    frame_counted :
        (h : Header) (recv_ts : ℕ)
        → c.skipped ≡ cfg.skip
        → (cfg.count ≢ 0 → c.received < cfg.count)
        → Ends cfg (suc n) (take_frame floats h recv_ts c)
    unfolding take_frame
    frame_counted h recv_ts done more =
        recorded (record { stream = h.stream_id; epoch = h.stream_epoch }) h.seq_id _
          (find c.stream_metrics (record { stream = h.stream_id; epoch = h.stream_epoch })) refl
          done more

    other-IsCounted :
        (index events : ℕ)
        → IsCounted cfg (suc n) (record c { lapped_events = events; read_index = index })
    other-IsCounted index events = record {
      by_stream = k.by_stream;
      in_all = k.in_all;
      reads = omega (arith, k.reads);
      skips = k.skips;
      skipped_first = k.skipped_first;
      streams = k.streams;
      no_more = k.no_more;
    }

    skipped-IsCounted :
        c.skipped < cfg.skip
        → IsCounted cfg
            (suc n)
            (record c { skipped = u64 (c.skipped + 1); read_index = u64 (c.read_index + 1) })
    skipped-IsCounted lt = record {
      by_stream = k.by_stream;
      in_all = k.in_all;
      reads = omega (arith, k.reads);
      skips = omega (arith, k.reads);
      skipped_first = λ h. let done = k.skipped_first h in absurd (omega arith);
      streams = k.streams;
      no_more = k.no_more;
    }

    consume_counted :
        (r : Read)
        → (cfg.count ≢ 0 → c.received < cfg.count)
        → Ends cfg (suc n) (consume floats cfg r c)
    unfolding consume
    consume_counted (ok_frame h len recv_ts) more = elim (Bool-cases (not (validate_frame h len))) [
      | inl bad ↦ rw bad tt
      | inr good ↦ elim (Bool-cases (ltb c.skipped cfg.skip)) [
        | inl early ↦ rw (good, early) (skipped-IsCounted (ground (arith, early)))
        | inr late ↦ rw (good, late) (frame_counted h recv_ts (ground (arith, late, k.skips)) more)
      ]
    ]
    consume_counted (lapped resume) more = other-IsCounted resume (u64 (c.lapped_events + 1))
    consume_counted corrupt more = tt
    consume_counted (nothing true) more = other-IsCounted c.read_index c.lapped_events
    consume_counted (nothing false) more = other-IsCounted c.read_index c.lapped_events

  allow :
      (cfg : Config) (m n : ℕ) (c : Consumer floats) → m ≤ n → IsCounted cfg m c → IsCounted cfg n c
  allow cfg m n c le k = record {
    by_stream = k.by_stream;
    in_all = k.in_all;
    reads = omega (arith, k.reads);
    skips = k.skips;
    skipped_first = k.skipped_first;
    streams = k.streams;
    no_more = k.no_more;
  }

  more_reads : (cfg : Config) (m n : ℕ) (o : Outcome floats) → m ≤ n → Ends cfg m o → Ends cfg n o
  more_reads cfg m n failed le k = tt
  more_reads cfg m n (stopped c) le k = allow cfg m n c le k
  more_reads cfg m n (running c) le k = allow cfg m n c le k

  -- The loop, from a state that is counted after `n` reads, over fewer than 2 ^ 64 reads in all: if it does not fail, then
  -- what it received is what all streams together and the whole accumulator recorded, at most as many as were read less
  -- those skipped and at most the count that was asked for; nothing was received before everything to skip was skipped,
  -- and there are at most 256 streams.
  pub consume_all-IsCounted :
      (cfg : Config) (reads : List Read) (n : ℕ) (c : Consumer floats)
      → n + length reads < 2 ^ 64
      → IsCounted cfg n c
      → Ends cfg (n + length reads) (consume_all floats cfg reads c)
  unfolding consume_all
  consume_all-IsCounted cfg [] n c room k = more_reads cfg n (n + 0) (stopped c) (omega arith) k
  consume_all-IsCounted cfg (r ∷ reads) n c room k =
      elim (Bool-cases ((cfg.count == 0) || ltb c.received cfg.count)) [
        | inr full ↦ rw full (more_reads cfg n (n + suc (length reads)) (stopped c) (omega arith) k)
        | inl on ↦ rw on (
            go_on (consume floats cfg r c)
              (consume_counted cfg n c k (omega arith) r (λ some_count. ground (arith, on)))
              (λ c' k'. consume_all-IsCounted cfg reads (suc n) c' (omega arith) k'))
      ]
    where
      go_on :
          (o : Outcome floats)
          → Ends cfg (suc n) o
          → ((c' : Consumer floats)
              → IsCounted cfg (suc n) c'
              → Ends cfg (suc n + length reads) (consume_all floats cfg reads c'))
          → Ends cfg (n + suc (length reads)) (elim o [
            | running c' ↦ consume_all floats cfg reads c'
            | stopped c' ↦ stopped c'
            | failed ↦ failed
          ])
      go_on (running c') k' rest =
          more_reads cfg (suc n + length reads) (n + suc (length reads))
            (consume_all floats cfg reads c') (omega arith) (rest c' k')
      go_on (stopped c') k' rest =
          more_reads cfg (suc n) (n + suc (length reads)) (stopped c') (omega arith) k'
      go_on failed k' rest = tt
