-- ===== src/Multiplex.antt =====
-- harness/include/multiplex.h: the identity of a stream on the wire, and the table of the streams.
pub mod Envelope
pub mod Table
mod Tests
use low_latency_udp_fanout.Common.{
  ℕ, ◌+◌, ◌≡◌, Bool, true, false, not, ◌||◌, ◌&&◌, List, [], ◌∷◌, ◌++◌, Option, none, some, ltb,
  leb, ◌==◌, if◌then◌else◌, length, drop,
}
use low_latency_udp_fanout.Wire.Codec.{Codec, ◌>>=◌, ◌⊗◌}
use low_latency_udp_fanout.Wire.Fields.{uint32, uint64}

-- "PFS3".
abbrev pub stream_magic : ℕ
stream_magic = 0x50465333

abbrev pub header_size : ℕ
header_size = 20

pub record Key : Type 0 where
  pub stream : ℕ
  pub epoch : ℕ

-- `operator<`.
unfoldable pub key_less : Key → Key → Bool
key_less a b = ltb a.stream b.stream || (a.stream == b.stream && ltb a.epoch b.epoch)

-- `io(tag, key.stream, key.epoch)`.
abbrev pub prefix : Codec (ℕ × (ℕ × ℕ))
prefix = uint32 ⊗ uint64 ⊗ uint64

unfoldable pub wrap : Key → List ℕ → List ℕ
wrap key frame = prefix.put (stream_magic, (key.stream, key.epoch)) ++ frame

-- `none` is false. The source may have written the key by then, which the receiver does not use.
unfoldable pub unwrap : List ℕ → Option (Key × List ℕ)
unwrap frame =
    if ltb (length frame) header_size
    then none
    else (prefix.get frame >>= λ r.
        if not (r.0.0 == stream_magic) || (r.0.1.0 == 0) || (r.0.1.1 == 0)
        then none
        else some (record { stream = r.0.1.0; epoch = r.0.1.1 }, drop header_size frame))

-- The map finds a key that is neither less nor greater.
unfoldable pub same_key : Key → Key → Bool
unfolding key_less
same_key a b = not (key_less a b) && not (key_less b a)

module _ {Stream : Type 0} where
  unfoldable pub find : List (Key × Stream) → Key → Option Stream
  find [] key = none
  find (entry ∷ values) key =
      let rest = find values key in if same_key entry.0 key then some entry.1 else rest

  -- `Streams::get`, with the stream that would be made; `none` is the null pointer.
  unfoldable pub get : ℕ → Stream → List (Key × Stream) → Key → Option Stream × List (Key × Stream)
  get limit made values key = elim (find values key) [
    | some stream ↦ (some stream, values)
    | none ↦
        if leb limit (length values)
        then (none, values)
        else (some made, values ++ ((key, made) ∷ []))
  ]
