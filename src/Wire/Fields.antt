-- ===== src/Wire/Fields.antt =====
-- harness/include/wire.h, the `fields` templates: the order of the fields of each struct, for
-- the Writer and the Reader at once.
pub mod Laws
use low_latency_udp_fanout.Common.{ℕ, List}
use low_latency_udp_fanout.Wire.Codec.{Codec, ℤ, unsigned, signed, array, ◌⊗◌, struct}
use low_latency_udp_fanout.Message.{
  Header, Trade, Bbo, Level, OrderBook, symbol_len, venue_len, currency_len, book_depth,
}

abbrev pub uint8 : Codec ℕ
uint8 = unsigned 1

abbrev pub uint16 : Codec ℕ
uint16 = unsigned 2

abbrev pub uint32 : Codec ℕ
uint32 = unsigned 4

abbrev pub uint64 : Codec ℕ
uint64 = unsigned 8

abbrev pub float64 : Codec ℕ
float64 = unsigned 8

abbrev pub chars : ℕ → Codec (List ℕ)
chars n = array n uint8

abbrev pub HeaderFields : Type 0
HeaderFields = ℕ × (ℕ × (ℕ × (ℕ × (ℕ × (ℕ × ℕ)))))

abbrev pub header_fields : Header → HeaderFields
header_fields m =
    (m.seq_id, (m.send_ts_ns, (m.type, (m.version, (m.body_len, (m.stream_id, m.stream_epoch))))))

abbrev pub build_header : HeaderFields → Header
build_header p = record {
  seq_id = p.0;
  send_ts_ns = p.1.0;
  type = p.1.1.0;
  version = p.1.1.1.0;
  body_len = p.1.1.1.1.0;
  stream_id = p.1.1.1.1.1.0;
  stream_epoch = p.1.1.1.1.1.1;
}

unfoldable pub header : Codec Header
header =
    struct (uint64 ⊗ uint64 ⊗ uint16 ⊗ uint16 ⊗ uint32 ⊗ uint64 ⊗ uint64) header_fields build_header

abbrev pub TradeFields : Type 0
TradeFields =
    Header
    × (List ℕ
        × (List ℕ
            × (List ℕ
                × (List ℕ
                    × (ℕ
                        × (ℕ
                            × (ℕ
                                × (ℕ
                                    × (ℕ
                                        × (ℕ
                                            × (ℕ
                                                × (ℕ
                                                    × (ℤ
                                                        × (ℤ
                                                            × (ℕ
                                                            × (ℕ
                                                            × (ℕ
                                                            × (ℕ
                                                            × (ℕ × (ℕ × (List ℕ)))))))))))))))))))))

abbrev pub trade_fields : Trade → TradeFields
trade_fields m = (
  m.header,
  (
    m.symbol,
    (
      m.venue,
      (
        m.base_currency,
        (
          m.quote_currency,
          (
            m.trade_id,
            (
              m.buyer_order_id,
              (
                m.seller_order_id,
                (
                  m.exchange_ts_ns,
                  (
                    m.match_engine_ts_ns,
                    (
                      m.price,
                      (
                        m.quantity,
                        (
                          m.notional,
                          (
                            m.price_ticks,
                            (
                              m.quantity_lots,
                              (
                                m.tick_direction,
                                (
                                  m.aggressor_side,
                                  (
                                    m.is_block_trade,
                                    (m.is_rpi, (m.is_liquidation, (m.flags, (m.reserved)))),
                                  ),
                                ),
                              ),
                            ),
                          ),
                        ),
                      ),
                    ),
                  ),
                ),
              ),
            ),
          ),
        ),
      ),
    ),
  ),
)

abbrev pub build_trade : TradeFields → Trade
build_trade p = record {
  header = p.0;
  symbol = p.1.0;
  venue = p.1.1.0;
  base_currency = p.1.1.1.0;
  quote_currency = p.1.1.1.1.0;
  trade_id = p.1.1.1.1.1.0;
  buyer_order_id = p.1.1.1.1.1.1.0;
  seller_order_id = p.1.1.1.1.1.1.1.0;
  exchange_ts_ns = p.1.1.1.1.1.1.1.1.0;
  match_engine_ts_ns = p.1.1.1.1.1.1.1.1.1.0;
  price = p.1.1.1.1.1.1.1.1.1.1.0;
  quantity = p.1.1.1.1.1.1.1.1.1.1.1.0;
  notional = p.1.1.1.1.1.1.1.1.1.1.1.1.0;
  price_ticks = p.1.1.1.1.1.1.1.1.1.1.1.1.1.0;
  quantity_lots = p.1.1.1.1.1.1.1.1.1.1.1.1.1.1.0;
  tick_direction = p.1.1.1.1.1.1.1.1.1.1.1.1.1.1.1.0;
  aggressor_side = p.1.1.1.1.1.1.1.1.1.1.1.1.1.1.1.1.0;
  is_block_trade = p.1.1.1.1.1.1.1.1.1.1.1.1.1.1.1.1.1.0;
  is_rpi = p.1.1.1.1.1.1.1.1.1.1.1.1.1.1.1.1.1.1.0;
  is_liquidation = p.1.1.1.1.1.1.1.1.1.1.1.1.1.1.1.1.1.1.1.0;
  flags = p.1.1.1.1.1.1.1.1.1.1.1.1.1.1.1.1.1.1.1.1.0;
  reserved = p.1.1.1.1.1.1.1.1.1.1.1.1.1.1.1.1.1.1.1.1.1;
}

unfoldable pub trade : Codec Trade
trade =
    struct
      (header
        ⊗ chars symbol_len
        ⊗ chars venue_len
        ⊗ chars currency_len
        ⊗ chars currency_len
        ⊗ uint64
        ⊗ uint64
        ⊗ uint64
        ⊗ uint64
        ⊗ uint64
        ⊗ float64
        ⊗ float64
        ⊗ float64
        ⊗ signed
        ⊗ signed
        ⊗ uint32
        ⊗ uint8
        ⊗ uint8
        ⊗ uint8
        ⊗ uint8
        ⊗ uint8
        ⊗ chars 19)
      trade_fields build_trade

abbrev pub BboFields : Type 0
BboFields =
    Header
    × (List ℕ
        × (List ℕ
            × (ℕ
                × (ℕ
                    × (ℕ
                        × (ℕ
                            × (ℕ
                                × (ℕ
                                    × (ℕ
                                        × (ℤ
                                            × (ℤ × (ℤ × (ℤ × (ℕ × (ℕ × (ℕ × (List ℕ)))))))))))))))))

abbrev pub bbo_fields : Bbo → BboFields
bbo_fields m = (
  m.header,
  (
    m.symbol,
    (
      m.venue,
      (
        m.update_id,
        (
          m.exchange_ts_ns,
          (
            m.match_engine_ts_ns,
            (
              m.bid_price,
              (
                m.bid_size,
                (
                  m.ask_price,
                  (
                    m.ask_size,
                    (
                      m.bid_price_ticks,
                      (
                        m.ask_price_ticks,
                        (
                          m.bid_size_lots,
                          (
                            m.ask_size_lots,
                            (m.bid_order_count, (m.ask_order_count, (m.flags, (m.reserved)))),
                          ),
                        ),
                      ),
                    ),
                  ),
                ),
              ),
            ),
          ),
        ),
      ),
    ),
  ),
)

abbrev pub build_bbo : BboFields → Bbo
build_bbo p = record {
  header = p.0;
  symbol = p.1.0;
  venue = p.1.1.0;
  update_id = p.1.1.1.0;
  exchange_ts_ns = p.1.1.1.1.0;
  match_engine_ts_ns = p.1.1.1.1.1.0;
  bid_price = p.1.1.1.1.1.1.0;
  bid_size = p.1.1.1.1.1.1.1.0;
  ask_price = p.1.1.1.1.1.1.1.1.0;
  ask_size = p.1.1.1.1.1.1.1.1.1.0;
  bid_price_ticks = p.1.1.1.1.1.1.1.1.1.1.0;
  ask_price_ticks = p.1.1.1.1.1.1.1.1.1.1.1.0;
  bid_size_lots = p.1.1.1.1.1.1.1.1.1.1.1.1.0;
  ask_size_lots = p.1.1.1.1.1.1.1.1.1.1.1.1.1.0;
  bid_order_count = p.1.1.1.1.1.1.1.1.1.1.1.1.1.1.0;
  ask_order_count = p.1.1.1.1.1.1.1.1.1.1.1.1.1.1.1.0;
  flags = p.1.1.1.1.1.1.1.1.1.1.1.1.1.1.1.1.0;
  reserved = p.1.1.1.1.1.1.1.1.1.1.1.1.1.1.1.1.1;
}

unfoldable pub bbo : Codec Bbo
bbo =
    struct
      (header
        ⊗ chars symbol_len
        ⊗ chars venue_len
        ⊗ uint64
        ⊗ uint64
        ⊗ uint64
        ⊗ float64
        ⊗ float64
        ⊗ float64
        ⊗ float64
        ⊗ signed
        ⊗ signed
        ⊗ signed
        ⊗ signed
        ⊗ uint32
        ⊗ uint32
        ⊗ uint8
        ⊗ chars 23)
      bbo_fields build_bbo

abbrev pub LevelFields : Type 0
LevelFields = ℕ × (ℕ × (ℤ × (ℤ × (ℕ × (ℕ)))))

abbrev pub level_fields : Level → LevelFields
level_fields m = (m.price, (m.size, (m.price_ticks, (m.size_lots, (m.order_count, (m.reserved))))))

abbrev pub build_level : LevelFields → Level
build_level p = record {
  price = p.0;
  size = p.1.0;
  price_ticks = p.1.1.0;
  size_lots = p.1.1.1.0;
  order_count = p.1.1.1.1.0;
  reserved = p.1.1.1.1.1;
}

unfoldable pub level : Codec Level
level = struct (float64 ⊗ float64 ⊗ signed ⊗ signed ⊗ uint32 ⊗ uint32) level_fields build_level

abbrev pub OrderBookFields : Type 0
OrderBookFields =
    Header
    × (List ℕ
        × (List ℕ
            × (ℕ × (ℕ × (ℕ × (ℕ × (List Level × (List Level × (ℕ × (ℕ × (ℕ × (List ℕ))))))))))))

abbrev pub order_book_fields : OrderBook → OrderBookFields
order_book_fields m = (
  m.header,
  (
    m.symbol,
    (
      m.venue,
      (
        m.update_id,
        (
          m.prev_update_id,
          (
            m.exchange_ts_ns,
            (
              m.match_engine_ts_ns,
              (m.bids, (m.asks, (m.checksum, (m.is_snapshot, (m.flags, (m.reserved)))))),
            ),
          ),
        ),
      ),
    ),
  ),
)

abbrev pub build_order_book : OrderBookFields → OrderBook
build_order_book p = record {
  header = p.0;
  symbol = p.1.0;
  venue = p.1.1.0;
  update_id = p.1.1.1.0;
  prev_update_id = p.1.1.1.1.0;
  exchange_ts_ns = p.1.1.1.1.1.0;
  match_engine_ts_ns = p.1.1.1.1.1.1.0;
  bids = p.1.1.1.1.1.1.1.0;
  asks = p.1.1.1.1.1.1.1.1.0;
  checksum = p.1.1.1.1.1.1.1.1.1.0;
  is_snapshot = p.1.1.1.1.1.1.1.1.1.1.0;
  flags = p.1.1.1.1.1.1.1.1.1.1.1.0;
  reserved = p.1.1.1.1.1.1.1.1.1.1.1.1;
}

unfoldable pub order_book : Codec OrderBook
order_book =
    struct
      (header
        ⊗ chars symbol_len
        ⊗ chars venue_len
        ⊗ uint64
        ⊗ uint64
        ⊗ uint64
        ⊗ uint64
        ⊗ array book_depth level
        ⊗ array book_depth level
        ⊗ uint32
        ⊗ uint8
        ⊗ uint8
        ⊗ chars 26)
      order_book_fields build_order_book
