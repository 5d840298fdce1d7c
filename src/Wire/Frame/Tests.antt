-- ===== src/Wire/Frame/Tests.antt =====
-- A best bid and offer, in a memory that is one of the three structs.
use low_latency_udp_fanout.Common.{ℕ, ◌≡◌, refl, true, List, [], replicate, arith}
use low_latency_udp_fanout.Message.{Header, Trade, Bbo, OrderBook, validate_frame, expected_size}
use low_latency_udp_fanout.Wire.Codec.{pos, negsuc}
use low_latency_udp_fanout.Wire.Fields.Laws.{FitsBbo}
use low_latency_udp_fanout.Wire.Frame.{NativeLayout}
use low_latency_udp_fanout.Wire.Frame.RoundTrip.{Carried, bbo_message, decode-encode}

pub data Struct : Type 0 where
  as_trade : Trade → Struct
  as_bbo : Bbo → Struct
  as_order_book : OrderBook → Struct

abbrev pub header : Header
header = record {
  seq_id = 41;
  send_ts_ns = 123456789;
  type = 2;
  version = 2;
  body_len = 192;
  stream_id = 7;
  stream_epoch = 3;
}

abbrev text : ℕ → List ℕ
text n = replicate n 65

abbrev pub bbo : Bbo
bbo = record {
  header = header;
  symbol = text 16;
  venue = text 16;
  update_id = 1;
  exchange_ts_ns = 2;
  match_engine_ts_ns = 3;
  bid_price = 4;
  bid_size = 5;
  ask_price = 6;
  ask_size = 7;
  bid_price_ticks = pos 8;
  ask_price_ticks = negsuc 9;
  bid_size_lots = pos 10;
  ask_size_lots = pos 11;
  bid_order_count = 12;
  ask_order_count = 13;
  flags = 1;
  reserved = text 23;
}

abbrev trade : Trade
trade = record {
  header = header;
  symbol = text 16;
  venue = text 16;
  base_currency = text 8;
  quote_currency = text 8;
  trade_id = 1;
  buyer_order_id = 2;
  seller_order_id = 3;
  exchange_ts_ns = 4;
  match_engine_ts_ns = 5;
  price = 6;
  quantity = 7;
  notional = 8;
  price_ticks = pos 9;
  quantity_lots = pos 10;
  tick_direction = 0;
  aggressor_side = 1;
  is_block_trade = 0;
  is_rpi = 0;
  is_liquidation = 0;
  flags = 0;
  reserved = text 19;
}

abbrev order_book : OrderBook
order_book = record {
  header = header;
  symbol = text 16;
  venue = text 16;
  update_id = 1;
  prev_update_id = 0;
  exchange_ts_ns = 2;
  match_engine_ts_ns = 3;
  bids = [];
  asks = [];
  checksum = 4;
  is_snapshot = 1;
  flags = 0;
  reserved = text 26;
}

abbrev load_header : Struct → Header
load_header (as_trade m) = m.header
load_header (as_bbo m) = m.header
load_header (as_order_book m) = m.header

abbrev load_trade : Struct → Trade
load_trade (as_trade m) = m
load_trade _ = trade

abbrev load_bbo : Struct → Bbo
load_bbo (as_bbo m) = m
load_bbo _ = bbo

abbrev load_order_book : Struct → OrderBook
load_order_book (as_order_book m) = m
load_order_book _ = order_book

abbrev pub structs : NativeLayout
structs = record {
  Memory = Struct;
  load_header = load_header;
  load_trade = load_trade;
  load_bbo = load_bbo;
  load_order_book = load_order_book;
  store_trade = as_trade;
  store_bbo = as_bbo;
  store_order_book = as_order_book;
  load-store_trade = λ m. refl;
  load-store_bbo = λ m. refl;
  load-store_order_book = λ m. refl;
  header-store_trade = λ m. refl;
  header-store_bbo = λ m. refl;
  header-store_order_book = λ m. refl;
}

bbo-Fits : FitsBbo bbo
bbo-Fits = ground arith

bbo_valid : validate_frame header 192 ≡ true
unfolding validate_frame expected_size
bbo_valid = refl

decode-encode_example : Carried structs (as_bbo bbo) 192 196
decode-encode_example = decode-encode structs 192 (bbo_message bbo bbo-Fits refl) bbo_valid
