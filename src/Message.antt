-- ===== src/Message.antt =====
-- harness/include/message.h: the application messages and the check of a native frame.
-- A char, uint8_t, uint16_t, ... field is its number, a double the number of its IEEE 754 bits.
use low_latency_udp_fanout.Common.{
  ℕ, Bool, false, List, Option, none, some, ltb, ◌==◌, if◌then◌else◌, ◌||◌, not,
}
use low_latency_udp_fanout.Wire.Codec.{ℤ}

abbrev pub symbol_len : ℕ
symbol_len = 16

abbrev pub venue_len : ℕ
venue_len = 16

abbrev pub currency_len : ℕ
currency_len = 8

abbrev pub book_depth : ℕ
book_depth = 5

abbrev pub schema_version : ℕ
schema_version = 2

pub data MessageType : Type 0 where
  trade_type bbo_type order_book_type : MessageType

pub record Header : Type 0 where
  pub seq_id : ℕ
  pub send_ts_ns : ℕ
  pub type : ℕ
  pub version : ℕ
  pub body_len : ℕ
  pub stream_id : ℕ
  pub stream_epoch : ℕ

pub record Trade : Type 0 where
  pub header : Header
  pub symbol : List ℕ
  pub venue : List ℕ
  pub base_currency : List ℕ
  pub quote_currency : List ℕ
  pub trade_id : ℕ
  pub buyer_order_id : ℕ
  pub seller_order_id : ℕ
  pub exchange_ts_ns : ℕ
  pub match_engine_ts_ns : ℕ
  pub price : ℕ
  pub quantity : ℕ
  pub notional : ℕ
  pub price_ticks : ℤ
  pub quantity_lots : ℤ
  pub tick_direction : ℕ
  pub aggressor_side : ℕ
  pub is_block_trade : ℕ
  pub is_rpi : ℕ
  pub is_liquidation : ℕ
  pub flags : ℕ
  pub reserved : List ℕ

pub record Bbo : Type 0 where
  pub header : Header
  pub symbol : List ℕ
  pub venue : List ℕ
  pub update_id : ℕ
  pub exchange_ts_ns : ℕ
  pub match_engine_ts_ns : ℕ
  pub bid_price : ℕ
  pub bid_size : ℕ
  pub ask_price : ℕ
  pub ask_size : ℕ
  pub bid_price_ticks : ℤ
  pub ask_price_ticks : ℤ
  pub bid_size_lots : ℤ
  pub ask_size_lots : ℤ
  pub bid_order_count : ℕ
  pub ask_order_count : ℕ
  pub flags : ℕ
  pub reserved : List ℕ

pub record Level : Type 0 where
  pub price : ℕ
  pub size : ℕ
  pub price_ticks : ℤ
  pub size_lots : ℤ
  pub order_count : ℕ
  pub reserved : ℕ

pub record OrderBook : Type 0 where
  pub header : Header
  pub symbol : List ℕ
  pub venue : List ℕ
  pub update_id : ℕ
  pub prev_update_id : ℕ
  pub exchange_ts_ns : ℕ
  pub match_engine_ts_ns : ℕ
  pub bids : List Level
  pub asks : List Level
  pub checksum : ℕ
  pub is_snapshot : ℕ
  pub flags : ℕ
  pub reserved : List ℕ

-- The sizes of the aligned structs: 40 bytes of header, and 64-byte multiples.
abbrev pub sizeof_header : ℕ
sizeof_header = 40

abbrev pub sizeof_trade : ℕ
sizeof_trade = 256

abbrev pub sizeof_bbo : ℕ
sizeof_bbo = 192

abbrev pub sizeof_order_book : ℕ
sizeof_order_book = 576

abbrev pub max_native_frame : ℕ
max_native_frame = sizeof_order_book

-- `static_cast<Type>(n)`, as the switches read it.
abbrev pub type_of : ℕ → Option MessageType
type_of n =
    if n == 1
    then some trade_type
    else if n == 2
    then some bbo_type
    else if n == 3
    then some order_book_type
    else none

unfoldable pub expected_size : ℕ → ℕ
expected_size n = elim (type_of n) [
  | some trade_type ↦ sizeof_trade
  | some bbo_type ↦ sizeof_bbo
  | some order_book_type ↦ sizeof_order_book
  | none ↦ 0
]

-- The check of a buffer of `len` bytes; `header` is what its first 40 bytes read as.
unfoldable pub validate_frame : Header → ℕ → Bool
unfolding expected_size
validate_frame header len =
    if ltb len sizeof_header || ltb max_native_frame len
    then false
    else if not (header.version == schema_version) || not (header.body_len == len)
    then false
    else expected_size header.type == len
