-- ===== src/Fec/Decoder/Receive/Keeps.antt =====
-- harness/include/fec.h: what Decoder::receive does to the state of its callback.
use low_latency_udp_fanout.Common.{
  ℕ, ◌+◌, List, [], ◌∷◌, Bool, true, false, not, ◌||◌, ◌&&◌, Option, none, some, if◌then◌else◌, ltb,
  leb, ◌==◌, length, u64, take, drop,
}
use low_latency_udp_fanout.Wire.Frame.{max_frame}
use low_latency_udp_fanout.Fec.Envelope.{
  Envelope, envelope, envelope_size, fec_magic, max_generation, get_u16,
}
use low_latency_udp_fanout.Fec.Solve.{Row}
use low_latency_udp_fanout.Fec.Decoder.{Counters, Generation, Decoder, ensure}
use low_latency_udp_fanout.Fec.Decoder.Recover.{
  count_recovered, publish_recovered, finish_recovery, try_recover, absent_from, rows_from, solve,
}
use low_latency_udp_fanout.Fec.Decoder.Receive.{
  store_data, receive_data, store_parity, receive_parity, receive, slot, generation_at,
  put_generation, touch, none_beyond,
}

module _ {S : Type 0} (publish : List ℕ → Bool → ℕ → S → Bool × S) (Inv : S → Type 0)
    (keeps : (frame : List ℕ) (recovered : Bool) (reason : ℕ) (s : S)
      → Inv s
      → Inv (publish frame recovered reason s).1) where
  at_gen :
      {D : Type 0} (b : Bool) (x y : Bool × (Generation × (D × S)))
      → Inv x.1.1.1
      → Inv y.1.1.1
      → Inv (if b then x else y).1.1.1
  at_gen true x y h g = h
  at_gen false x y h g = g

  at_decoder :
      (b : Bool) (x y : Bool × (Decoder × S)) → Inv x.1.1 → Inv y.1.1 → Inv (if b then x else y).1.1
  at_decoder true x y h g = h
  at_decoder false x y h g = g

  publish_recovered_keeps :
      (is : List ℕ) (rows : List Row) (gen : Generation) (counters : Counters) (s : S)
      → Inv s
      → Inv (publish_recovered publish is rows gen counters s).1.1.1
  unfolding publish_recovered
  publish_recovered_keeps [] rows gen counters s h = h
  publish_recovered_keeps (i ∷ is) [] gen counters s h = h
  publish_recovered_keeps (i ∷ is) (row ∷ rows) gen counters s h =
      let after = keeps (take (get_u16 row.rhs) (drop 2 row.rhs)) true gen.close_reason s h in
      at_gen (publish (take (get_u16 row.rhs) (drop 2 row.rhs)) true gen.close_reason s).0 _ _
        (publish_recovered_keeps is rows _ (count_recovered gen.close_reason counters) _ after)
        after

  finish_recovery_keeps :
      (gen : Generation) (now_ns : ℕ) (is : List ℕ) (rows : List Row) (d : Decoder) (s : S)
      → Inv s
      → Inv (finish_recovery publish gen now_ns is rows d s).1.1.1
  unfolding finish_recovery
  finish_recovery_keeps gen now_ns is rows d s h =
      let after = publish_recovered_keeps is rows gen d.counters s h in
      at_gen (publish_recovered publish is rows gen d.counters s).0 _ _ after after

  solved_keeps :
      (o : Option (List Row)) (gen : Generation) (now_ns : ℕ) (is : List ℕ) (d : Decoder) (s : S)
      → Inv s
      → Inv
          (elim o as (λ _. Bool × (Generation × (Decoder × S))) [
            | none ↦ (false, (gen, (d, s)))
            | some solved ↦ finish_recovery publish gen now_ns is solved d s
          ]).1.1.1
  solved_keeps none gen now_ns is d s h = h
  solved_keeps (some rows) gen now_ns is d s h = finish_recovery_keeps gen now_ns is rows d s h

  try_recover_keeps :
      (gen : Generation) (now_ns : ℕ) (d : Decoder) (s : S)
      → Inv s
      → Inv (try_recover publish gen now_ns d s).1.1.1
  unfolding try_recover
  try_recover_keeps gen now_ns d s h = at_gen _ _ _ h (
      solved_keeps
        (solve gen (absent_from gen.k 0 gen.received)
          (take (length (absent_from gen.k 0 gen.received)) (rows_from 0 gen.parities)))
        gen now_ns _ d s h)

  store_data_keeps :
      (d : Decoder) (e : Envelope) (payload : List ℕ) (gen : Generation) (now_ns : ℕ) (s : S)
      → Inv s
      → Inv (store_data publish d e payload gen now_ns s).1.1
  unfolding store_data
  store_data_keeps d e payload gen now_ns s h =
      let after = keeps payload false gen.close_reason s h in
      at_decoder _ _ _ (try_recover_keeps _ now_ns d _ after) after

  receive_data_keeps :
      (d : Decoder) (e : Envelope) (payload : List ℕ) (now_ns : ℕ) (s : S)
      → Inv s
      → Inv (receive_data publish d e payload now_ns s).1.1
  unfolding receive_data
  receive_data_keeps d e payload now_ns s h =
      let opened : Decoder = slot d e.gen_id e.k now_ns in
      let gen : Generation = generation_at opened e.gen_id in
      let fitted : Generation = ensure gen e.k in
      let stored = store_data_keeps opened e payload (touch fitted now_ns) now_ns s h in
      let last : Bool × (Decoder × S) =
        store_data publish opened e payload (touch fitted now_ns) now_ns s in
      let inner : Bool × (Decoder × S) =
        if leb fitted.k e.index
        then (false, (put_generation opened e.gen_id fitted, s))
        else last in
      let middle : Bool × (Decoder × S) =
        if ltb e.k gen.k || not gen.parity_received && not (e.k == gen.k)
        then (false, (opened, s))
        else inner in
      at_decoder
        ((length payload == 0)
          || not (length payload == e.protected_len)
          || ltb max_frame e.protected_len
          || leb e.k e.index)
        (false, (d, s)) middle h
        (at_decoder (ltb e.k gen.k || not gen.parity_received && not (e.k == gen.k))
          (false, (opened, s)) inner h
          (at_decoder (leb fitted.k e.index) (false, (put_generation opened e.gen_id fitted, s))
            last h stored))

  store_parity_keeps :
      (d : Decoder) (e : Envelope) (payload : List ℕ) (gen : Generation) (now_ns : ℕ) (s : S)
      → Inv s
      → Inv (store_parity publish d e payload gen now_ns s).1.1
  unfolding store_parity
  store_parity_keeps d e payload gen now_ns s h =
      at_decoder _ _ _ h (try_recover_keeps _ now_ns d s h)

  receive_parity_keeps :
      (d : Decoder) (e : Envelope) (payload : List ℕ) (now_ns : ℕ) (s : S)
      → Inv s
      → Inv (receive_parity publish d e payload now_ns s).1.1
  unfolding receive_parity
  receive_parity_keeps d e payload now_ns s h =
      let counted : Decoder = record d {
        counters = record (d.counters) { parity_received = u64 (d.counters.parity_received + 1) };
      } in
      let opened : Decoder = slot counted e.gen_id e.k now_ns in
      let gen : Generation = generation_at opened e.gen_id in
      let bad : Bool =
        ltb 16 e.parity_count
        || ltb e.index e.k
        || leb (e.k + e.parity_count) e.index
        || not (e.protected_len == length payload)
        || ltb (length payload) 2
        || ltb (max_frame + 2) (length payload) in
      let conflict : Bool =
        (gen.parity_received
          && (not (gen.k == e.k)
              || not (gen.parity_count == e.parity_count)
              || not (gen.close_reason == e.close_reason)))
        || ltb gen.k e.k
        || not (none_beyond e.k gen.received) in
      let last : Bool × (Decoder × S) =
        store_parity publish opened e payload (ensure gen e.k) now_ns s in
      at_decoder bad (false, (d, s)) (if conflict then (false, (opened, s)) else last) h
        (at_decoder conflict (false, (opened, s)) last h
          (store_parity_keeps opened e payload (ensure gen e.k) now_ns s h))

  -- Whatever a callback keeps true of its own state, `receive` keeps true, for any datagram, any decoder and any time.
  pub receive-keeps :
      (d : Decoder) (bytes : List ℕ) (now_ns : ℕ) (s : S)
      → Inv s
      → Inv (receive publish d bytes now_ns s).1.1
  unfolding receive
  receive-keeps d bytes now_ns s h =
      at_decoder (ltb (length bytes) envelope_size) (plain.0, (d, plain.1))
        (enveloped (envelope.get bytes)) after (opened_keeps (envelope.get bytes))
    where
      plain : Bool × S
      plain = publish bytes false 0 s

      after : Inv plain.1
      after = keeps bytes false 0 s h

      by_kind : Envelope → List ℕ → Bool × (Decoder × S)
      by_kind e payload =
          if e.parity_count == 0
          then receive_data publish d e payload now_ns s
          else receive_parity publish d e payload now_ns s

      fec_part : Envelope → List ℕ → Bool × (Decoder × S)
      fec_part e payload =
          if (e.k == 0) || ltb max_generation e.k || ltb 2 e.close_reason
          then (false, (d, s))
          else by_kind e payload

      enveloped : Option (Envelope × List ℕ) → Bool × (Decoder × S)
      enveloped o = elim o [
        | none ↦ (plain.0, (d, plain.1))
        | some (e, payload) ↦
            if not (e.magic == fec_magic) then (plain.0, (d, plain.1)) else fec_part e payload
      ]

      opened_keeps : (o : Option (Envelope × List ℕ)) → Inv (enveloped o).1.1
      opened_keeps none = after
      opened_keeps (some (e, payload)) =
          at_decoder (not (e.magic == fec_magic)) (plain.0, (d, plain.1)) (fec_part e payload) after
            (at_decoder ((e.k == 0) || ltb max_generation e.k || ltb 2 e.close_reason)
              (false, (d, s)) (by_kind e payload) h
              (at_decoder (e.parity_count == 0) (receive_data publish d e payload now_ns s)
                (receive_parity publish d e payload now_ns s)
                (receive_data_keeps d e payload now_ns s h)
                (receive_parity_keeps d e payload now_ns s h)))
