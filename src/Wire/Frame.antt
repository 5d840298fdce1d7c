-- ===== src/Wire/Frame.antt =====
-- harness/include/wire.h: encode, encode_as, decode and decode_as.
pub mod Encode
pub mod Structs
pub mod RoundTrip
pub mod Tests
use low_latency_udp_fanout.Common.{
  ℕ, ◌+◌, ◌<◌, ◌≡◌, Bool, true, false, not, ◌||◌, List, [], ◌∷◌, ◌++◌, Option, none, some, ltb,
  ◌==◌, if◌then◌else◌, length, drop, u32,
}
use low_latency_udp_fanout.Message.{
  Header, Trade, Bbo, OrderBook, MessageType, trade_type, bbo_type, order_book_type, type_of,
  schema_version, sizeof_trade, sizeof_bbo, sizeof_order_book, validate_frame,
}
use low_latency_udp_fanout.Wire.Codec.{Codec, ◌>>=◌}
use low_latency_udp_fanout.Wire.Fields
use low_latency_udp_fanout.Wire.Fields.{uint32}

-- Protocol 3, "PUL3".
abbrev pub magic : ℕ
magic = 0x50554c33

abbrev pub max_frame : ℕ
max_frame = 1024

-- The memory of a native frame. Its layout is the compiler's: a buffer can be read as a header
-- and as each of the structs, and what a struct was copied into reads as that struct.
pub record NativeLayout : Type 1 where
  pub Memory : Type 0
  pub load_header : Memory → Header
  pub load_trade : Memory → Trade
  pub load_bbo : Memory → Bbo
  pub load_order_book : Memory → OrderBook
  pub store_trade : Trade → Memory
  pub store_bbo : Bbo → Memory
  pub store_order_book : OrderBook → Memory
  pub load-store_trade : (m : Trade) → load_trade (store_trade m) ≡ m
  pub load-store_bbo : (m : Bbo) → load_bbo (store_bbo m) ≡ m
  pub load-store_order_book : (m : OrderBook) → load_order_book (store_order_book m) ≡ m
  pub header-store_trade : (m : Trade) → load_header (store_trade m) ≡ m.header
  pub header-store_bbo : (m : Bbo) → load_header (store_bbo m) ≡ m.header
  pub header-store_order_book : (m : OrderBook) → load_header (store_order_book m) ≡ m.header

-- The assignment to `header.body_len`, for each struct.
abbrev pub with_body_len : ℕ → Header → Header
with_body_len n h = record h { body_len = n }

abbrev pub set_trade_len : ℕ → Trade → Trade
set_trade_len n m = record m { header = with_body_len n m.header }

abbrev pub set_bbo_len : ℕ → Bbo → Bbo
set_bbo_len n m = record m { header = with_body_len n m.header }

abbrev pub set_book_len : ℕ → OrderBook → OrderBook
set_book_len n m = record m { header = with_body_len n m.header }

-- `encode_as<T>`: one pass with length 0 finds the length, a second one writes it.
unfoldable pub encode_as : {T : Type 0} → Codec T → (ℕ → T → T) → T → List ℕ
encode_as c set_len m =
    let first = uint32.put magic ++ c.put (set_len 0 m) in
    uint32.put magic ++ c.put (set_len (u32 (length first)) m)

-- `decode_as<T>` reads behind the magic; all bytes must be used and the header must fit.
unfoldable pub decode_as :
    {T : Type 0} → Codec T → (ℕ → T → T) → (T → Header) → ℕ → List ℕ → Option (T × ℕ)
decode_as c set_len header_of size frame = c.get (drop 4 frame) >>= λ r.
    if not (length r.1 == 0)
      || not ((header_of r.0).body_len == length frame)
      || not ((header_of r.0).version == schema_version)
    then none
    else some (set_len size r.0, size)

module _ (native : NativeLayout) where
  open native use {
    Memory, load_header, load_trade, load_bbo, load_order_book, store_trade, store_bbo,
    store_order_book,
  }

  -- `none` is the exception "invalid native message". The switch cannot miss its cases.
  unfoldable pub encode : Memory → ℕ → Option (List ℕ)
  encode frame len =
      if not (validate_frame (load_header frame) len)
      then none
      else elim (type_of (load_header frame).type) [
        | some trade_type ↦ some (encode_as Fields.trade set_trade_len (load_trade frame))
        | some bbo_type ↦ some (encode_as Fields.bbo set_bbo_len (load_bbo frame))
        | some order_book_type ↦
            some (encode_as Fields.order_book set_book_len (load_order_book frame))
        | none ↦ none
      ]

  -- The switch of `decode`, with what is copied to `out` and `native_len`.
  unfoldable pub decode_body : ℕ → List ℕ → Option (Memory × ℕ)
  decode_body type frame = elim (type_of type) [
    | some trade_type ↦
        decode_as Fields.trade set_trade_len (λ m. m.header) sizeof_trade frame >>= λ r.
        some (store_trade r.0, r.1)
    | some bbo_type ↦ decode_as Fields.bbo set_bbo_len (λ m. m.header) sizeof_bbo frame >>= λ r.
        some (store_bbo r.0, r.1)
    | some order_book_type ↦
        decode_as Fields.order_book set_book_len (λ m. m.header) sizeof_order_book frame >>= λ r.
        some (store_order_book r.0, r.1)
    | none ↦ none
  ]

  -- `none` is the result false; a truncated frame is the caught length_error.
  unfoldable pub decode : List ℕ → Option (Memory × ℕ)
  unfolding decode_body
  decode frame =
      if ltb (length frame) 44 || ltb max_frame (length frame)
      then none
      else (uint32.get frame >>= λ t. Fields.header.get t.1 >>= λ h.
          if not (t.0 == magic)
            || not (h.0.version == schema_version)
            || not (h.0.body_len == length frame)
          then none
          else decode_body h.0.type frame)
