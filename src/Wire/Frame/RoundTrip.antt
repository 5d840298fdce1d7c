-- ===== src/Wire/Frame/RoundTrip.antt =====
-- decode inverts encode on every valid native message.
use low_latency_udp_fanout.Common.{ℕ, ◌+◌, ◌≡◌, sym, ◌∙◌, ap, true, List, ◌++◌, some, length, arith}
use low_latency_udp_fanout.Message.{
  Header, Trade, Bbo, OrderBook, schema_version, validate_frame, expected_size,
}
use low_latency_udp_fanout.Wire.Codec.{Codec}
use low_latency_udp_fanout.Wire.Codec.Laws.{unsigned-IsLawful}
use low_latency_udp_fanout.Wire.Fields
use low_latency_udp_fanout.Wire.Fields.{uint32}
use low_latency_udp_fanout.Wire.Fields.Laws.{header-IsLawful, FitsTrade, FitsBbo, FitsOrderBook}
use low_latency_udp_fanout.Wire.Frame.{
  NativeLayout, magic, encode_as, decode_as, encode, decode, decode_body, set_trade_len,
  set_bbo_len, set_book_len,
}
use low_latency_udp_fanout.Wire.Frame.Encode.{
  IsFramed, tag, encode_as_lem, decode_as-framed, length-framed,
}
use low_latency_udp_fanout.Wire.Frame.Structs.{trade-IsFramed, bbo-IsFramed, order_book-IsFramed}

-- A native message in memory: a struct whose fields fit their types, with its own type number.
pub data IsMessage (native : NativeLayout) : native.Memory → ℕ → Type 0 where
  trade_message :
      (m : Trade) → FitsTrade m → m.header.type ≡ 1 → IsMessage native (native.store_trade m) 200
  bbo_message :
      (m : Bbo) → FitsBbo m → m.header.type ≡ 2 → IsMessage native (native.store_bbo m) 196
  order_book_message :
      (m : OrderBook)
      → FitsOrderBook m
      → m.header.type ≡ 3
      → IsMessage native (native.store_order_book m) 540

module _ (native : NativeLayout) {T : Type 0} {c : Codec T} {Fits : T → Type 0} {n : ℕ}
    {set_len : ℕ → T → T} {header_of : T → Header} (f : IsFramed c Fits n set_len header_of) where
  -- The checks of `decode` pass, and the switch is reached with the type of the message.
  decode-framed :
      (m : T)
      → Fits m
      → (header_of m).version ≡ schema_version
      → (header_of m).body_len ≡ n + 4
      → decode native (tag ++ c.put m) ≡ decode_body native (header_of m).type (tag ++ c.put m)
  unfolding decode
  decode-framed m h v l =
      let (tail, begins) = f.starts m in
      let read_header : Fields.header.get (c.put m) ≡ some (header_of m, tail) =
        ap Fields.header.get begins
        ∙ header-IsLawful.forth (header_of m) tail (f.fits-header m h) in
      rw
        (
          length-framed f m h,
          (unsigned-IsLawful 4).forth magic (c.put m) (omega arith),
          read_header,
          v,
          l,
        )
        (ground (arith, f.fits_datagram))

  -- What was encoded is read back with its native length.
  decode_as-encode_as :
      (size : ℕ) (m : T)
      → Fits m
      → (header_of m).version ≡ schema_version
      → (header_of m).body_len ≡ size
      → decode_as c set_len header_of size (encode_as c set_len m) ≡ some (m, size)
  decode_as-encode_as size m h v l =
      let sent : T = set_len (n + 4) m in
      let fits : Fits sent = f.fits-set (n + 4) m (omega (arith, f.fits_datagram)) h in
      let restored : set_len size sent ≡ m =
        f.set-set size (n + 4) m ∙ ap (λ k. set_len k m) (sym l) ∙ f.set_own m in
      rw (encode_as_lem f m h) (
        decode_as-framed f size sent fits (ap (λ h. h.version) (f.header-set (n + 4) m) ∙ v)
          (ap (λ h. h.body_len) (f.header-set (n + 4) m))
        ∙ ap (λ s. some (s, size)) restored)

  decode-encode_as :
      (m : T)
      → Fits m
      → (header_of m).version ≡ schema_version
      → (decode native (encode_as c set_len m)
          ≡ decode_body native (header_of m).type (encode_as c set_len m))
        × (length (encode_as c set_len m) ≡ n + 4)
  decode-encode_as m h v =
      let sent : T = set_len (n + 4) m in
      let fits : Fits sent = f.fits-set (n + 4) m (omega (arith, f.fits_datagram)) h in
      let same_type : (header_of sent).type ≡ (header_of m).type =
        ap (λ h. h.type) (f.header-set (n + 4) m) in
      rw (encode_as_lem f m h) (
        decode-framed sent fits (ap (λ h. h.version) (f.header-set (n + 4) m) ∙ v)
              (ap (λ h. h.body_len) (f.header-set (n + 4) m))
            ∙ ap (λ t. decode_body native t (tag ++ c.put sent)) same_type,
        length-framed f sent fits,
      )

pub validate_frame-inv :
    (h : Header) (len : ℕ)
    → validate_frame h len ≡ true
    → (h.version ≡ schema_version) × (h.body_len ≡ len) × (expected_size h.type ≡ len)
unfolding validate_frame
validate_frame-inv h len e = ground arith

-- What a round trip gives.
pub record Carried (native : NativeLayout) (mem : native.Memory) (len wire : ℕ) : Type 0 where
  pub frame : List ℕ
  pub encodes : encode native mem len ≡ some frame
  pub size : length frame ≡ wire
  pub decodes : decode native frame ≡ some (mem, len)

module _ (native : NativeLayout) (len : ℕ) where
  trade_encodes :
      (m : Trade)
      → m.header.type ≡ 1
      → validate_frame m.header len ≡ true
      → encode native (native.store_trade m) len ≡ some (encode_as Fields.trade set_trade_len m)
  unfolding encode
  trade_encodes m t v = simp (v, native.header-store_trade m, t, native.load-store_trade m)

  trade_body :
      (m : Trade) (frame : List ℕ)
      → m.header.type ≡ 1
      → decode_as Fields.trade set_trade_len (λ m. m.header) 256 frame ≡ some (m, 256)
      → decode_body native m.header.type frame ≡ some (native.store_trade m, 256)
  unfolding decode_body
  trade_body m frame t e = simp (t, e)

  trade-Carried :
      (m : Trade)
      → FitsTrade m
      → m.header.type ≡ 1
      → validate_frame (native.load_header (native.store_trade m)) len ≡ true
      → Carried native (native.store_trade m) len 200
  unfolding expected_size
  trade-Carried m h t v =
      let valid : validate_frame m.header len ≡ true = rw (native.header-store_trade m) at v in
      let (ver, body, size) = validate_frame-inv m.header len valid in
      let native_size : 256 ≡ len = rw t at size in
      let (reaches, wire) = decode-encode_as native trade-IsFramed m h ver in
      record {
        frame = encode_as Fields.trade set_trade_len m;
        encodes = trade_encodes m t valid;
        size = wire;
        decodes =
            reaches
            ∙ trade_body m _ t
                (decode_as-encode_as native trade-IsFramed 256 m h ver (body ∙ sym native_size))
            ∙ ap (λ k. some (native.store_trade m, k)) native_size;
      }

  bbo_encodes :
      (m : Bbo)
      → m.header.type ≡ 2
      → validate_frame m.header len ≡ true
      → encode native (native.store_bbo m) len ≡ some (encode_as Fields.bbo set_bbo_len m)
  unfolding encode
  bbo_encodes m t v = simp (v, native.header-store_bbo m, t, native.load-store_bbo m)

  bbo_body :
      (m : Bbo) (frame : List ℕ)
      → m.header.type ≡ 2
      → decode_as Fields.bbo set_bbo_len (λ m. m.header) 192 frame ≡ some (m, 192)
      → decode_body native m.header.type frame ≡ some (native.store_bbo m, 192)
  unfolding decode_body
  bbo_body m frame t e = simp (t, e)

  bbo-Carried :
      (m : Bbo)
      → FitsBbo m
      → m.header.type ≡ 2
      → validate_frame (native.load_header (native.store_bbo m)) len ≡ true
      → Carried native (native.store_bbo m) len 196
  unfolding expected_size
  bbo-Carried m h t v =
      let valid : validate_frame m.header len ≡ true = rw (native.header-store_bbo m) at v in
      let (ver, body, size) = validate_frame-inv m.header len valid in
      let native_size : 192 ≡ len = rw t at size in
      let (reaches, wire) = decode-encode_as native bbo-IsFramed m h ver in
      record {
        frame = encode_as Fields.bbo set_bbo_len m;
        encodes = bbo_encodes m t valid;
        size = wire;
        decodes =
            reaches
            ∙ bbo_body m _ t
                (decode_as-encode_as native bbo-IsFramed 192 m h ver (body ∙ sym native_size))
            ∙ ap (λ k. some (native.store_bbo m, k)) native_size;
      }

  order_book_encodes :
      (m : OrderBook)
      → m.header.type ≡ 3
      → validate_frame m.header len ≡ true
      → encode native (native.store_order_book m) len
        ≡ some (encode_as Fields.order_book set_book_len m)
  unfolding encode
  order_book_encodes m t v =
      simp (v, native.header-store_order_book m, t, native.load-store_order_book m)

  order_book_body :
      (m : OrderBook) (frame : List ℕ)
      → m.header.type ≡ 3
      → decode_as Fields.order_book set_book_len (λ m. m.header) 576 frame ≡ some (m, 576)
      → decode_body native m.header.type frame ≡ some (native.store_order_book m, 576)
  unfolding decode_body
  order_book_body m frame t e = simp (t, e)

  order_book-Carried :
      (m : OrderBook)
      → FitsOrderBook m
      → m.header.type ≡ 3
      → validate_frame (native.load_header (native.store_order_book m)) len ≡ true
      → Carried native (native.store_order_book m) len 540
  unfolding expected_size
  order_book-Carried m h t v =
      let valid : validate_frame m.header len ≡ true = rw (native.header-store_order_book m) at v in
      let (ver, body, size) = validate_frame-inv m.header len valid in
      let native_size : 576 ≡ len = rw t at size in
      let (reaches, wire) = decode-encode_as native order_book-IsFramed m h ver in
      record {
        frame = encode_as Fields.order_book set_book_len m;
        encodes = order_book_encodes m t valid;
        size = wire;
        decodes =
            reaches
            ∙ order_book_body m _ t (
                decode_as-encode_as native order_book-IsFramed 576 m h ver (body ∙ sym native_size))
            ∙ ap (λ k. some (native.store_order_book m, k)) native_size;
      }

-- Every valid native message is encoded, in 200, 196 or 540 bytes by its kind, and decoding the
-- frame gives the same message and length.
pub decode-encode :
    (native : NativeLayout) (len : ℕ) {mem : native.Memory} {wire : ℕ}
    → IsMessage native mem wire
    → validate_frame (native.load_header mem) len ≡ true
    → Carried native mem len wire
decode-encode native len (trade_message m h t) v = trade-Carried native len m h t v
decode-encode native len (bbo_message m h t) v = bbo-Carried native len m h t v
decode-encode native len (order_book_message m h t) v = order_book-Carried native len m h t v
