-- ===== src/Wire/Fields/Laws.antt =====
-- The structs on the wire: their sizes, and that reading and writing are inverse.
use low_latency_udp_fanout.Common.{ℕ, ◌*◌, ◌^◌, ◌<◌, ◌≡◌, refl, List, length, All}
use low_latency_udp_fanout.Wire.Codec.{array}
use low_latency_udp_fanout.Wire.Codec.Laws.{
  IsLawful, unsigned-IsLawful, signed-IsLawful, IsInt64, pair-IsLawful, struct-IsLawful,
  array-IsLawful,
}
use low_latency_udp_fanout.Message.{
  Header, Trade, Bbo, Level, OrderBook, symbol_len, venue_len, currency_len, book_depth,
}
use low_latency_udp_fanout.Wire.Fields.{
  chars, header, header_fields, build_header, trade, trade_fields, build_trade, bbo, bbo_fields,
  build_bbo, level, level_fields, build_level, order_book, order_book_fields, build_order_book,
}

-- A char array of the declared length.
abbrev pub IsText : ℕ → List ℕ → Type 0
IsText n xs = (length xs ≡ n) × All (λ x. x < 256 ^ 1) xs

chars-IsLawful : (n : ℕ) → IsLawful (chars n) (IsText n) (n * 1)
chars-IsLawful n = array-IsLawful (unsigned-IsLawful 1) n

abbrev pub FitsHeader : Header → Type 0
FitsHeader m =
    (m.seq_id < 256 ^ 8)
    × ((m.send_ts_ns < 256 ^ 8)
        × ((m.type < 256 ^ 2)
            × ((m.version < 256 ^ 2)
                × ((m.body_len < 256 ^ 4)
                    × ((m.stream_id < 256 ^ 8) × (m.stream_epoch < 256 ^ 8))))))

pub header-IsLawful : IsLawful header FitsHeader 40
unfolding header
header-IsLawful =
    struct-IsLawful header_fields build_header
      (pair-IsLawful (unsigned-IsLawful 8) (
        pair-IsLawful (unsigned-IsLawful 8) (
          pair-IsLawful (unsigned-IsLawful 2) (
            pair-IsLawful (unsigned-IsLawful 2) (
              pair-IsLawful (unsigned-IsLawful 4)
                (pair-IsLawful (unsigned-IsLawful 8) (unsigned-IsLawful 8)))))))
      (λ b. refl) (λ a. refl)

abbrev pub FitsTrade : Trade → Type 0
FitsTrade m =
    FitsHeader m.header
    × (IsText symbol_len m.symbol
        × (IsText venue_len m.venue
            × (IsText currency_len m.base_currency
                × (IsText currency_len m.quote_currency
                    × ((m.trade_id < 256 ^ 8)
                        × ((m.buyer_order_id < 256 ^ 8)
                            × ((m.seller_order_id < 256 ^ 8)
                                × ((m.exchange_ts_ns < 256 ^ 8)
                                    × ((m.match_engine_ts_ns < 256 ^ 8)
                                        × ((m.price < 256 ^ 8)
                                            × ((m.quantity < 256 ^ 8)
                                                × ((m.notional < 256 ^ 8)
                                                    × (IsInt64 m.price_ticks
                                                        × (IsInt64 m.quantity_lots
                                                            × ((m.tick_direction < 256 ^ 4)
                                                            × ((m.aggressor_side < 256 ^ 1)
                                                            × ((m.is_block_trade < 256 ^ 1)
                                                            × ((m.is_rpi < 256 ^ 1)
                                                            × ((m.is_liquidation < 256 ^ 1)
                                                            × ((m.flags < 256 ^ 1)
                                                            × (IsText (19)
                                                            m.reserved)))))))))))))))))))))

pub trade-IsLawful : IsLawful trade FitsTrade 196
unfolding trade
trade-IsLawful =
    struct-IsLawful trade_fields build_trade
      (pair-IsLawful header-IsLawful (
        pair-IsLawful (chars-IsLawful symbol_len) (
          pair-IsLawful (chars-IsLawful venue_len) (
            pair-IsLawful (chars-IsLawful currency_len) (
              pair-IsLawful (chars-IsLawful currency_len) (
                pair-IsLawful (unsigned-IsLawful 8) (
                  pair-IsLawful (unsigned-IsLawful 8) (
                    pair-IsLawful (unsigned-IsLawful 8) (
                      pair-IsLawful (unsigned-IsLawful 8) (
                        pair-IsLawful (unsigned-IsLawful 8) (
                          pair-IsLawful (unsigned-IsLawful 8) (
                            pair-IsLawful (unsigned-IsLawful 8) (
                              pair-IsLawful (unsigned-IsLawful 8) (
                                pair-IsLawful signed-IsLawful (
                                  pair-IsLawful signed-IsLawful (
                                    pair-IsLawful (unsigned-IsLawful 4) (
                                      pair-IsLawful (unsigned-IsLawful 1) (
                                        pair-IsLawful (unsigned-IsLawful 1) (
                                          pair-IsLawful (unsigned-IsLawful 1) (
                                            pair-IsLawful (unsigned-IsLawful 1) (
                                              pair-IsLawful (unsigned-IsLawful 1)
                                                ((chars-IsLawful 19)))))))))))))))))))))))
      (λ b. refl) (λ a. refl)

abbrev pub FitsBbo : Bbo → Type 0
FitsBbo m =
    FitsHeader m.header
    × (IsText symbol_len m.symbol
        × (IsText venue_len m.venue
            × ((m.update_id < 256 ^ 8)
                × ((m.exchange_ts_ns < 256 ^ 8)
                    × ((m.match_engine_ts_ns < 256 ^ 8)
                        × ((m.bid_price < 256 ^ 8)
                            × ((m.bid_size < 256 ^ 8)
                                × ((m.ask_price < 256 ^ 8)
                                    × ((m.ask_size < 256 ^ 8)
                                        × (IsInt64 m.bid_price_ticks
                                            × (IsInt64 m.ask_price_ticks
                                                × (IsInt64 m.bid_size_lots
                                                    × (IsInt64 m.ask_size_lots
                                                        × ((m.bid_order_count < 256 ^ 4)
                                                            × ((m.ask_order_count < 256 ^ 4)
                                                            × ((m.flags < 256 ^ 1)
                                                            × (IsText (23)
                                                            m.reserved)))))))))))))))))

pub bbo-IsLawful : IsLawful bbo FitsBbo 192
unfolding bbo
bbo-IsLawful =
    struct-IsLawful bbo_fields build_bbo
      (pair-IsLawful header-IsLawful (
        pair-IsLawful (chars-IsLawful symbol_len) (
          pair-IsLawful (chars-IsLawful venue_len) (
            pair-IsLawful (unsigned-IsLawful 8) (
              pair-IsLawful (unsigned-IsLawful 8) (
                pair-IsLawful (unsigned-IsLawful 8) (
                  pair-IsLawful (unsigned-IsLawful 8) (
                    pair-IsLawful (unsigned-IsLawful 8) (
                      pair-IsLawful (unsigned-IsLawful 8) (
                        pair-IsLawful (unsigned-IsLawful 8) (
                          pair-IsLawful signed-IsLawful (
                            pair-IsLawful signed-IsLawful (
                              pair-IsLawful signed-IsLawful (
                                pair-IsLawful signed-IsLawful (
                                  pair-IsLawful (unsigned-IsLawful 4) (
                                    pair-IsLawful (unsigned-IsLawful 4) (
                                      pair-IsLawful (unsigned-IsLawful 1)
                                        ((chars-IsLawful 23)))))))))))))))))))
      (λ b. refl) (λ a. refl)

abbrev pub FitsLevel : Level → Type 0
FitsLevel m =
    (m.price < 256 ^ 8)
    × ((m.size < 256 ^ 8)
        × (IsInt64 m.price_ticks
            × (IsInt64 m.size_lots × ((m.order_count < 256 ^ 4) × ((m.reserved < 256 ^ 4))))))

pub level-IsLawful : IsLawful level FitsLevel 40
unfolding level
level-IsLawful =
    struct-IsLawful level_fields build_level
      (pair-IsLawful (unsigned-IsLawful 8) (
        pair-IsLawful (unsigned-IsLawful 8) (
          pair-IsLawful signed-IsLawful (
            pair-IsLawful signed-IsLawful
              (pair-IsLawful (unsigned-IsLawful 4) ((unsigned-IsLawful 4)))))))
      (λ b. refl) (λ a. refl)

levels-IsLawful :
    IsLawful (array book_depth level) (λ ls. (length ls ≡ book_depth) × All FitsLevel ls) 200
levels-IsLawful = array-IsLawful level-IsLawful book_depth

abbrev pub FitsOrderBook : OrderBook → Type 0
FitsOrderBook m =
    FitsHeader m.header
    × (IsText symbol_len m.symbol
        × (IsText venue_len m.venue
            × ((m.update_id < 256 ^ 8)
                × ((m.prev_update_id < 256 ^ 8)
                    × ((m.exchange_ts_ns < 256 ^ 8)
                        × ((m.match_engine_ts_ns < 256 ^ 8)
                            × (((length m.bids ≡ book_depth) × All FitsLevel m.bids)
                                × (((length m.asks ≡ book_depth) × All FitsLevel m.asks)
                                    × ((m.checksum < 256 ^ 4)
                                        × ((m.is_snapshot < 256 ^ 1)
                                            × ((m.flags < 256 ^ 1)
                                                × (IsText (26) m.reserved))))))))))))

pub order_book-IsLawful : IsLawful order_book FitsOrderBook 536
unfolding order_book
order_book-IsLawful =
    struct-IsLawful order_book_fields build_order_book
      (pair-IsLawful header-IsLawful (
        pair-IsLawful (chars-IsLawful symbol_len) (
          pair-IsLawful (chars-IsLawful venue_len) (
            pair-IsLawful (unsigned-IsLawful 8) (
              pair-IsLawful (unsigned-IsLawful 8) (
                pair-IsLawful (unsigned-IsLawful 8) (
                  pair-IsLawful (unsigned-IsLawful 8) (
                    pair-IsLawful levels-IsLawful (
                      pair-IsLawful levels-IsLawful (
                        pair-IsLawful (unsigned-IsLawful 4) (
                          pair-IsLawful (unsigned-IsLawful 1)
                            (pair-IsLawful (unsigned-IsLawful 1) ((chars-IsLawful 26))))))))))))))
      (λ b. refl) (λ a. refl)
