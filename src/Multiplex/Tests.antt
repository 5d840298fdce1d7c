-- ===== src/Multiplex/Tests.antt =====
-- Two streams.
use low_latency_udp_fanout.Common.{ℕ, ◌≤◌, ◌≡◌, ◌↔◌, refl, List, [], ◌∷◌, none, some, length, arith}
use low_latency_udp_fanout.Multiplex.{Key, wrap, unwrap, get, find, same_key, key_less}
use low_latency_udp_fanout.Multiplex.Table.{now, after, get_for_ever}
use low_latency_udp_fanout.Multiplex.Envelope.{IsKey, unwrap_iff_wrap}

abbrev quotes : Key
quotes = record { stream = 258; epoch = 3 }

abbrev datagram : List ℕ
datagram =
    80 ∷ 70 ∷ 83 ∷ 51 ∷ 0 ∷ 0 ∷ 0 ∷ 0 ∷ 0 ∷ 0 ∷ 1 ∷ 2 ∷ 0 ∷ 0 ∷ 0 ∷ 0 ∷ 0 ∷ 0 ∷ 0 ∷ 3 ∷ 9 ∷ 8 ∷ []

unwrap_iff_wrap_example :
    (unwrap datagram ≡ some (quotes, 9 ∷ 8 ∷ []))
    ↔ ((datagram ≡ wrap quotes (9 ∷ 8 ∷ [])) × IsKey quotes)
unwrap_iff_wrap_example = unwrap_iff_wrap datagram quotes (9 ∷ 8 ∷ []) (ground arith)

abbrev trades : Key
trades = record { stream = 258; epoch = 4 }

-- A table of one: the second identity is rejected, and the first one keeps its stream.
abbrev one_stream : List (Key × ℕ)
one_stream = (quotes, 100) ∷ []

rejected : get 1 101 one_stream trades ≡ (none, one_stream)
unfolding get find same_key key_less
rejected = refl

first-stream : (get {Stream = ℕ} 1 100 [] quotes).0 ≡ some 100
unfolding get find
first-stream = refl

get_for_ever_example :
    (get {Stream = ℕ} 1 102
        (get {Stream = ℕ} 1 101 (get {Stream = ℕ} 1 100 [] quotes).1 trades).1
        quotes
      ≡ (some 100, (get {Stream = ℕ} 1 101 (get {Stream = ℕ} 1 100 [] quotes).1 trades).1))
    × (length (get {Stream = ℕ} 1 101 (get {Stream = ℕ} 1 100 [] quotes).1 trades).1 ≤ 1)
get_for_ever_example =
    get_for_ever {Stream = ℕ} 1 [] 100 102 quotes 100 (omega arith) first-stream
      (after 101 trades now)
