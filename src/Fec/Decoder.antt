-- ===== src/Fec/Decoder.antt =====
-- harness/include/fec.h: Decoder. The callback `publish` is a function on a state of its own, with
-- the arguments frame, recovered and close_reason.
pub mod Recover
pub mod Receive
use low_latency_udp_fanout.Common.{
  ℕ, zero, suc, ◌+◌, ◌-◌, ◌%◌, List, [], ◌∷◌, Bool, true, false, not, ◌||◌, ◌&&◌, if◌then◌else◌,
  ltb, leb, ◌==◌, length, get_or, replicate, u64, ◌^◌,
}

pub record Counters : Type 0 where
  pub parity_received : ℕ
  pub recovered : ℕ
  pub unrecoverable_gens : ℕ
  pub recovered_by_k : ℕ
  pub recovered_by_timeout : ℕ
  pub recovered_by_flush : ℕ

pub record Generation : Type 0 where
  pub active : Bool
  pub seen_any : Bool
  pub parity_received : Bool
  pub recovered : Bool
  pub unrecoverable_counted : Bool
  pub gen_id : ℕ
  pub k : ℕ
  pub parity_count : ℕ
  pub close_reason : ℕ
  pub first_ns : ℕ
  pub blocks : List (List ℕ)
  pub parities : List (List ℕ)
  pub received : List Bool

pub record Decoder : Type 0 where
  pub gens : ℕ
  pub slots : List Generation
  pub counters : Counters
  pub recovery_events : ℕ
  pub recovery_k_events : ℕ
  pub recovery_timeout_events : ℕ
  pub recovery_flush_events : ℕ
  pub recovery_latencies : List ℕ
  pub recovery_by_k : List ℕ
  pub recovery_by_timeout : List ℕ
  pub recovery_by_flush : List ℕ

abbrev pub blank_generation : Generation
blank_generation = record {
  active = false;
  seen_any = false;
  parity_received = false;
  recovered = false;
  unrecoverable_counted = false;
  gen_id = 0;
  k = 0;
  parity_count = 0;
  close_reason = 0;
  first_ns = 0;
  blocks = [];
  parities = [];
  received = [];
}

unfoldable pub new_decoder : ℕ → Decoder
new_decoder gens =
    let count = if gens == 0 then 1 else gens in
    record {
      gens = count;
      slots = replicate count blank_generation;
      counters = record {
        parity_received = 0;
        recovered = 0;
        unrecoverable_gens = 0;
        recovered_by_k = 0;
        recovered_by_timeout = 0;
        recovered_by_flush = 0;
      };
      recovery_events = 0;
      recovery_k_events = 0;
      recovery_timeout_events = 0;
      recovery_flush_events = 0;
      recovery_latencies = [];
      recovery_by_k = [];
      recovery_by_timeout = [];
      recovery_by_flush = [];
    }

-- The loop of `finalize`: how many of the first `k` are missing, a short list counting as missing.
unfoldable pub missing_of : ℕ → List Bool → ℕ
missing_of zero received = 0
missing_of (suc k) [] = suc (missing_of k [])
missing_of (suc k) (true ∷ received) = missing_of k received
missing_of (suc k) (false ∷ received) = suc (missing_of k received)

unfoldable pub finalize : Generation → Counters → Generation × Counters
finalize gen counters =
    if not gen.active
      || not gen.parity_received
      || gen.recovered
      || gen.unrecoverable_counted
      || (gen.k == 0)
    then (gen, counters)
    else if ltb 0 (missing_of gen.k gen.received)
    then (
      record gen { unrecoverable_counted = true },
      record counters { unrecoverable_gens = u64 (counters.unrecoverable_gens + 1) },
    )
    else (gen, counters)

-- `slot`: the generation of `gen_id`, a new one if another was there, with the counters.
unfoldable pub open_slot : Generation → ℕ → ℕ → ℕ → Counters → Generation × Counters
open_slot gen gen_id k now_ns counters =
    if not gen.active || not (gen.gen_id == gen_id)
    then (
      record blank_generation { active = true; gen_id = gen_id; k = k; first_ns = now_ns },
      (finalize gen counters).1,
    )
    else (gen, counters)

-- `resize`, which only grows here.
abbrev pub grow : {A : Type 0} → ℕ → A → List A → List A
grow zero a xs = xs
grow (suc n) a [] = a ∷ grow n a []
grow (suc n) a (x ∷ xs) = x ∷ grow n a xs

unfoldable pub ensure : Generation → ℕ → Generation
ensure gen k =
    let k' = if (gen.k == 0) || ltb k gen.k then k else gen.k in
    if ltb (length gen.blocks) k'
    then record gen {
      k = k';
      blocks = grow k' [] gen.blocks;
      received = grow k' false gen.received;
    }
    else record gen { k = k' }

-- `expire`: the generations that are as old as `ttl_ns` are given up.
unfoldable pub expire_slots : ℕ → ℕ → List Generation → Counters → List Generation × Counters
expire_slots now_ns ttl_ns [] counters = ([], counters)
expire_slots now_ns ttl_ns (gen ∷ gens) counters =
    let old = gen.active && leb ttl_ns ((now_ns + 2 ^ 64 - gen.first_ns) % 2 ^ 64) in
    let counted = if old then (finalize gen counters).1 else counters in
    let (rest, counters') = expire_slots now_ns ttl_ns gens counted in
    ((if old then blank_generation else gen) ∷ rest, counters')

unfoldable pub expire : ℕ → ℕ → Decoder → Decoder
expire now_ns ttl_ns d =
    let (slots, counters) = expire_slots now_ns ttl_ns d.slots d.counters in
    record d { slots = slots; counters = counters }

-- `retire_all`.
unfoldable pub retire_slots : List Generation → Counters → List Generation × Counters
retire_slots [] counters = ([], counters)
retire_slots (gen ∷ gens) counters =
    let (gen', counters') = finalize gen counters in
    let (rest, counters'') = retire_slots gens counters' in (gen' ∷ rest, counters'')

unfoldable pub retire_all : Decoder → Decoder
retire_all d =
    let (slots, counters) = retire_slots d.slots d.counters in
    record d { slots = slots; counters = counters }

abbrev pub samples_for : ℕ → Decoder → List ℕ
samples_for reason d =
    if reason == 0
    then d.recovery_by_k
    else if reason == 1
    then d.recovery_by_timeout
    else d.recovery_by_flush
