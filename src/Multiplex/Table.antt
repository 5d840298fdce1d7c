-- ===== src/Multiplex/Table.antt =====
-- The table of the streams never drops or replaces a stream, and stays within its limit.
use low_latency_udp_fanout.Common.{
  ℕ, ◌≤◌, ◌≡◌, refl, true, List, [], ◌∷◌, ◌++◌, none, some, length, length-append, arith,
}
use low_latency_udp_fanout.Multiplex.{Key, key_less, same_key, find, get}

same_key_refl : (key : Key) → same_key key key ≡ true
unfolding same_key key_less
same_key_refl key = ground arith

-- Any number of further calls of `get`, each with the stream that it would make.
pub data Later {Stream : Type 0} (limit : ℕ) (values : List (Key × Stream))
    : List (Key × Stream) → Type 0 where
  now : Later limit values values
  after :
      (made : Stream) (key : Key) {later : List (Key × Stream)}
      → Later limit values later
      → Later limit values (get limit made later key).1

module _ {Stream : Type 0} where
  find-append :
      (values others : List (Key × Stream)) (key : Key) (s : Stream)
      → find values key ≡ some s
      → find (values ++ others) key ≡ some s
  unfolding find
  find-append [] others key s e = absurd (ground arith)
  find-append (v ∷ values) others key s e = ground (arith, e, find-append values others key s)

  find-snoc :
      (values : List (Key × Stream)) (key : Key) (s : Stream)
      → find values key ≡ none
      → find (values ++ ((key, s) ∷ [])) key ≡ some s
  unfolding find
  find-snoc [] key s e = rw (same_key_refl key) refl
  find-snoc (v ∷ values) key s e = ground (arith, e, find-snoc values key s)

  -- A key that has a stream is given that stream, and the table stays as it is.
  get_found :
      (limit : ℕ) (made : Stream) (values : List (Key × Stream)) (key : Key) (s : Stream)
      → find values key ≡ some s
      → get limit made values key ≡ (some s, values)
  unfolding get
  get_found limit made values key s e = rw (e, get) refl

  get-find :
      (limit : ℕ) (made : Stream) (values : List (Key × Stream)) (key : Key) (s : Stream)
      → (get limit made values key).0 ≡ some s
      → find (get limit made values key).1 key ≡ some s
  unfolding get
  get-find limit made values key s e = ground (arith, e, find-snoc values key made)

  get_keeps :
      (limit : ℕ) (made : Stream) (values : List (Key × Stream)) (other key : Key) (s : Stream)
      → find values key ≡ some s
      → find (get limit made values other).1 key ≡ some s
  unfolding get
  get_keeps limit made values other key s e =
      ground (arith, e, find-append values ((other, made) ∷ []) key s e)

  length-get :
      (limit : ℕ) (made : Stream) (values : List (Key × Stream)) (key : Key)
      → length values ≤ limit
      → length (get limit made values key).1 ≤ limit
  unfolding get
  length-get limit made values key h = ground (arith, h, length-append values ((key, made) ∷ []))

  Later-find :
      {limit : ℕ} {values later : List (Key × Stream)} (key : Key) (s : Stream)
      → Later limit values later
      → find values key ≡ some s
      → find later key ≡ some s
  Later-find key s now e = e
  Later-find {limit} key s (after made other path) e =
      get_keeps limit made _ other key s (Later-find key s path e)

  Later-length :
      {limit : ℕ} {values later : List (Key × Stream)}
      → Later limit values later
      → length values ≤ limit
      → length later ≤ limit
  Later-length now h = h
  Later-length {limit} (after made other path) h =
      length-get limit made _ other (Later-length path h)

  -- In a table within its limit, a stream that `get` gave for a key is what every later call gives
  -- for it, whatever was asked for in between, and the table never exceeds its limit.
  pub get_for_ever :
      (limit : ℕ) (values : List (Key × Stream)) {later : List (Key × Stream)} (made again : Stream)
      (key : Key) (s : Stream)
      → length values ≤ limit
      → (get limit made values key).0 ≡ some s
      → Later limit (get limit made values key).1 later
      → (get limit again later key ≡ (some s, later)) × (length later ≤ limit)
  get_for_ever limit values {later} made again key s bounded e path = (
    get_found limit again later key s (Later-find key s path (get-find limit made values key s e)),
    Later-length path (length-get limit made values key bounded),
  )
