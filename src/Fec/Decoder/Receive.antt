-- ===== src/Fec/Decoder/Receive.antt =====
-- harness/include/fec.h: Decoder::receive.
pub mod Keeps
pub mod Malformed
use low_latency_udp_fanout.Common.{
  ℕ, zero, suc, ◌+◌, ◌-◌, ◌%◌, List, [], ◌∷◌, Bool, true, false, not, ◌||◌, ◌&&◌, none, some,
  if◌then◌else◌, ltb, leb, ◌==◌, length, get_or, set, replicate, u64,
}
use low_latency_udp_fanout.Wire.Frame.{max_frame}
use low_latency_udp_fanout.Fec.Envelope.{
  Envelope, envelope, envelope_size, fec_magic, max_generation, protected_frame,
}
use low_latency_udp_fanout.Fec.Decoder.{Generation, Decoder, blank_generation, open_slot, ensure}
use low_latency_udp_fanout.Fec.Decoder.Recover.{try_recover}

abbrev pub slot_of : Decoder → ℕ → ℕ
slot_of d gen_id = gen_id % d.gens

abbrev pub generation_at : Decoder → ℕ → Generation
generation_at d gen_id = get_or d.slots (slot_of d gen_id) blank_generation

abbrev pub put_generation : Decoder → ℕ → Generation → Decoder
put_generation d gen_id gen = record d { slots = set d.slots (slot_of d gen_id) gen }

-- `slot`: the decoder with the generation of `gen_id` in its place.
unfoldable pub slot : Decoder → ℕ → ℕ → ℕ → Decoder
slot d gen_id k now_ns =
    let (gen, counters) = open_slot (generation_at d gen_id) gen_id k now_ns d.counters in
    put_generation (record d { counters = counters }) gen_id gen

-- What both kinds of datagram do to their generation.
abbrev pub touch : Generation → ℕ → Generation
touch gen now_ns = record gen {
  seen_any = true;
  first_ns = if gen.first_ns == 0 then now_ns else gen.first_ns;
}

-- No number from `k` on was received.
unfoldable pub none_beyond : ℕ → List Bool → Bool
none_beyond k [] = true
none_beyond zero (r ∷ received) = not r && none_beyond zero received
none_beyond (suc k) (r ∷ received) = none_beyond k received

-- A parity of another length is there.
unfoldable pub other_length : ℕ → List (List ℕ) → Bool
other_length len [] = false
other_length len (parity ∷ parities) =
    not (length parity == 0) && not (length parity == len) || other_length len parities

abbrev pub row_slots : List (List ℕ) → List (List ℕ)
row_slots parities = if length parities == 0 then replicate 16 [] else parities

module _ {S : Type 0} (publish : List ℕ → Bool → ℕ → S → Bool × S) where
  -- The end of both: recovery, and the generation put back.
  abbrev pub recover_at : Decoder → ℕ → Generation → ℕ → S → Bool × (Decoder × S)
  recover_at d gen_id gen now_ns s =
      let (result, (gen', (d', s'))) = try_recover publish gen now_ns d s in
      (result, (put_generation d' gen_id gen', s'))

  unfoldable pub store_data :
      Decoder → Envelope → List ℕ → Generation → ℕ → S → Bool × (Decoder × S)
  store_data d h payload gen now_ns s =
      let (accepted, s') = publish payload false gen.close_reason s in
      let stored = record gen {
        blocks = set gen.blocks h.index (protected_frame payload h.protected_len);
        received = set gen.received h.index true;
      } in
      if accepted
      then recover_at d h.gen_id stored now_ns s'
      else (false, (put_generation d h.gen_id gen, s'))

  unfoldable pub receive_data : Decoder → Envelope → List ℕ → ℕ → S → Bool × (Decoder × S)
  receive_data d h payload now_ns s =
      if (length payload == 0)
        || not (length payload == h.protected_len)
        || ltb max_frame h.protected_len
        || leb h.k h.index
      then (false, (d, s))
      else (let opened = slot d h.gen_id h.k now_ns in
          let gen = generation_at opened h.gen_id in
          let fitted = ensure gen h.k in
          if ltb h.k gen.k || not gen.parity_received && not (h.k == gen.k)
          then (false, (opened, s))
          else if leb fitted.k h.index
          then (false, (put_generation opened h.gen_id fitted, s))
          else store_data opened h payload (touch fitted now_ns) now_ns s)

  unfoldable pub store_parity :
      Decoder → Envelope → List ℕ → Generation → ℕ → S → Bool × (Decoder × S)
  store_parity d h payload gen now_ns s =
      let closed = record (touch gen now_ns) {
        close_reason = h.close_reason;
        parity_count = h.parity_count;
        parities = row_slots gen.parities;
      } in
      let stored = record closed {
        parities = set closed.parities (h.index - h.k) payload;
        parity_received = true;
      } in
      if other_length (length payload) closed.parities
      then (false, (put_generation d h.gen_id closed, s))
      else recover_at d h.gen_id stored now_ns s

  unfoldable pub receive_parity : Decoder → Envelope → List ℕ → ℕ → S → Bool × (Decoder × S)
  receive_parity d h payload now_ns s =
      if ltb 16 h.parity_count
        || ltb h.index h.k
        || leb (h.k + h.parity_count) h.index
        || not (h.protected_len == length payload)
        || ltb (length payload) 2
        || ltb (max_frame + 2) (length payload)
      then (false, (d, s))
      else (let counted = record d {
        counters = record (d.counters) { parity_received = u64 (d.counters.parity_received + 1) };
      } in
          let opened = slot counted h.gen_id h.k now_ns in
          let gen = generation_at opened h.gen_id in
          if (gen.parity_received
              && (not (gen.k == h.k)
                  || not (gen.parity_count == h.parity_count)
                  || not (gen.close_reason == h.close_reason)))
            || ltb gen.k h.k
            || not (none_beyond h.k gen.received)
          then (false, (opened, s))
          else store_parity opened h payload (ensure gen h.k) now_ns s)

  -- A datagram without an envelope is published as it is.
  unfoldable pub receive : Decoder → List ℕ → ℕ → S → Bool × (Decoder × S)
  receive d bytes now_ns s =
      let (plain, s') = publish bytes false 0 s in
      if ltb (length bytes) envelope_size then (plain, (d, s')) else elim (envelope.get bytes) [
        | none ↦ (plain, (d, s'))
        | some (h, payload) ↦
            if not (h.magic == fec_magic)
            then (plain, (d, s'))
            else if (h.k == 0) || ltb max_generation h.k || ltb 2 h.close_reason
            then (false, (d, s))
            else if h.parity_count == 0
            then receive_data d h payload now_ns s
            else receive_parity d h payload now_ns s
      ]
