-- ===== src/Wire/Frame/Structs.antt =====
-- The three message structs as framed structs.
use low_latency_udp_fanout.Common.{ℕ, ◌^◌, ◌<◌, ◌≡◌, refl, List, ◌++◌, arith}
use low_latency_udp_fanout.Message.{Header, Trade, Bbo, OrderBook}
use low_latency_udp_fanout.Wire.Codec.{◌⊗◌, struct}
use low_latency_udp_fanout.Wire.Fields
use low_latency_udp_fanout.Wire.Fields.Laws.{
  FitsHeader, FitsTrade, FitsBbo, FitsOrderBook, trade-IsLawful, bbo-IsLawful, order_book-IsLawful,
}
use low_latency_udp_fanout.Wire.Frame.{with_body_len, set_trade_len, set_bbo_len, set_book_len}
use low_latency_udp_fanout.Wire.Frame.Encode.{IsFramed}

header_fits : (k : ℕ) (h : Header) → k < 256 ^ 4 → FitsHeader h → FitsHeader (with_body_len k h)
header_fits k h lt f = (f.0, (f.1.0, (f.1.1.0, (f.1.1.1.0, (lt, f.1.1.1.1.1)))))

trade_starts :
    (m : Trade) → (tail : List ℕ) × (Fields.trade.put m ≡ Fields.header.put m.header ++ tail)
unfolding Fields.trade struct ◌⊗◌
trade_starts m = (_, refl)

bbo_starts : (m : Bbo) → (tail : List ℕ) × (Fields.bbo.put m ≡ Fields.header.put m.header ++ tail)
unfolding Fields.bbo struct ◌⊗◌
bbo_starts m = (_, refl)

order_book_starts :
    (m : OrderBook)
    → (tail : List ℕ) × (Fields.order_book.put m ≡ Fields.header.put m.header ++ tail)
unfolding Fields.order_book struct ◌⊗◌
order_book_starts m = (_, refl)

pub trade-IsFramed : IsFramed Fields.trade FitsTrade 196 set_trade_len (λ m. m.header)
trade-IsFramed = record {
  lawful = trade-IsLawful;
  fits_datagram = omega arith;
  starts = trade_starts;
  header-set = λ k m. refl;
  fits-set = λ k m lt h. (header_fits k m.header lt h.0, h.1);
  set-set = λ j k m. refl;
  set_own = λ m. refl;
  fits-header = λ m h. h.0;
}

pub bbo-IsFramed : IsFramed Fields.bbo FitsBbo 192 set_bbo_len (λ m. m.header)
bbo-IsFramed = record {
  lawful = bbo-IsLawful;
  fits_datagram = omega arith;
  starts = bbo_starts;
  header-set = λ k m. refl;
  fits-set = λ k m lt h. (header_fits k m.header lt h.0, h.1);
  set-set = λ j k m. refl;
  set_own = λ m. refl;
  fits-header = λ m h. h.0;
}

pub order_book-IsFramed : IsFramed Fields.order_book FitsOrderBook 536 set_book_len (λ m. m.header)
order_book-IsFramed = record {
  lawful = order_book-IsLawful;
  fits_datagram = omega arith;
  starts = order_book_starts;
  header-set = λ k m. refl;
  fits-set = λ k m lt h. (header_fits k m.header lt h.0, h.1);
  set-set = λ j k m. refl;
  set_own = λ m. refl;
  fits-header = λ m h. h.0;
}
