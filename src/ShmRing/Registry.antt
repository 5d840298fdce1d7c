-- ===== src/ShmRing/Registry.antt =====
-- The registry of the readers: what the producer concludes from a look at it.
use low_latency_udp_fanout.Common.{
  ℕ, zero, suc, ◌+◌, ◌-◌, ◌≤◌, ◌<◌, ◌≡◌, ◌≢◌, refl, sym, ap, ◌∙◌, Bool, true, false, List, [], ◌∷◌,
  some, length, get_or, set, arith, get_or-set_ne, length-set,
}
use low_latency_udp_fanout.ShmRing.{
  Ring, ReaderState, free_reader, FrameStatus, ok, empty, lapped, corrupt, returns, attach,
  register, detach, read, move_cursor, first_free, has_room, look,
}

abbrev pub reader_of : Ring → ℕ → ReaderState
reader_of ring r = get_or ring.readers r free_reader

look-room :
    (limit : ℕ) (rs : List ReaderState) (r : ℕ)
    → r < length rs
    → (get_or rs r free_reader).pid ≢ 0
    → (look limit rs).1 ≡ false
    → limit < (get_or rs r free_reader).cursor
unfolding look
look-room limit [] r lt live e = absurd (omega arith)
look-room limit (s ∷ rs) zero lt live e = ground arith
look-room limit (s ∷ rs) (suc r) lt live e = ground (arith, look-room limit rs r (omega arith) live)

pub has_room-room :
    (ring : Ring) (r : ℕ)
    → ring.backpressure ≡ true
    → r < length ring.readers
    → (reader_of ring r).pid ≢ 0
    → has_room ring ring.readers ≡ true
    → ring.write_index < (reader_of ring r).cursor + ring.slot_count
unfolding has_room
has_room-room ring r policy inside live e =
    ground (arith, look-room (ring.write_index - ring.slot_count) ring.readers r inside live)

first_free-free :
    (rs : List ReaderState) (s : ℕ) → first_free rs ≡ some s → (get_or rs s free_reader).pid ≡ 0
unfolding first_free
first_free-free [] s e = refl
first_free-free (r ∷ rs) zero e = ground (arith)
first_free-free (r ∷ rs) (suc s) e = ground (arith, first_free-free rs s)

-- An entry that is taken by `attach` was free.
pub attach-free :
    (aligned : Bool) (count sizeof_slot pid s : ℕ) (ring : Ring) {ring' : Ring}
    → attach aligned count sizeof_slot pid ring ≡ returns (s, ring')
    → (reader_of ring s).pid ≡ 0
unfolding attach
attach-free aligned count sizeof_slot pid s ring e = first_free-free ring.readers s (ground arith)

-- What the other processes do leaves the entry of `r` as it is.
pub record SameReader (r : ℕ) (ring ring' : Ring) : Type 0 where
  pub same_entry : reader_of ring' r ≡ reader_of ring r
  pub same_length : length ring'.readers ≡ length ring.readers
  pub same_policy : ring'.backpressure ≡ ring.backpressure

module _ {r : ℕ} where
  entry-SameReader :
      (s : ℕ) (e : ReaderState) (other : s ≢ r) (ring : Ring)
      → SameReader r ring (record ring { readers = set ring.readers s e })
  entry-SameReader s e other ring = record {
    same_entry = get_or-set_ne ring.readers s r e free_reader other;
    same_length = length-set ring.readers s e;
    same_policy = refl;
  }

  pub register-SameReader :
      (s pid : ℕ) → s ≢ r → (ring : Ring) → SameReader r ring (register ring s pid)
  register-SameReader s pid other ring = entry-SameReader s _ other ring

  pub detach-SameReader : (s : ℕ) → s ≢ r → (ring : Ring) → SameReader r ring (detach (some s) ring)
  unfolding detach
  detach-SameReader s other ring = entry-SameReader s _ other ring

  moved-SameReader :
      (s index : ℕ) (status : FrameStatus)
      → s ≢ r
      → (ring : Ring) → SameReader r ring (move_cursor (some s) index status ring)
  unfolding move_cursor
  moved-SameReader s index (ok bytes) other ring = entry-SameReader s _ other ring
  moved-SameReader s index (lapped resume) other ring = record {
    same_entry = refl;
    same_length = refl;
    same_policy = refl;
  }
  moved-SameReader s index empty other ring = record {
    same_entry = refl;
    same_length = refl;
    same_policy = refl;
  }
  moved-SameReader s index corrupt other ring = record {
    same_entry = refl;
    same_length = refl;
    same_policy = refl;
  }

  pub read-SameReader :
      (locked : Bool) (s index : ℕ)
      → s ≢ r
      → (ring : Ring) → SameReader r ring (read (some s) locked index ring).1
  unfolding read
  read-SameReader true s index other ring = moved-SameReader s index _ other ring
  read-SameReader false s index other ring = record {
    same_entry = refl;
    same_length = refl;
    same_policy = refl;
  }

pub first_free-inside : (rs : List ReaderState) (s : ℕ) → first_free rs ≡ some s → s < length rs
unfolding first_free
first_free-inside [] s e = absurd (ground arith)
first_free-inside (r ∷ rs) zero e = omega arith
first_free-inside (r ∷ rs) (suc s) e = ground (arith, first_free-inside rs s)

look-blocked :
    (limit : ℕ) (rs : List ReaderState) (r : ℕ)
    → r < length rs
    → (get_or rs r free_reader).pid ≢ 0
    → (get_or rs r free_reader).cursor ≤ limit
    → (look limit rs).1 ≡ true
unfolding look
look-blocked limit [] r lt live le = absurd (omega arith)
look-blocked limit (s ∷ rs) zero lt live le = ground arith
look-blocked limit (s ∷ rs) (suc r) lt live le =
    ground (arith, look-blocked limit rs r (omega arith) live le)

-- A full ring has no room while the entry of a reader is as far back as the oldest slot.
pub has_room-blocked :
    (ring : Ring) (r : ℕ)
    → ring.backpressure ≡ true
    → ring.slot_count ≤ ring.write_index
    → r < length ring.readers
    → (reader_of ring r).pid ≢ 0
    → (reader_of ring r).cursor ≤ ring.write_index - ring.slot_count
    → has_room ring ring.readers ≡ false
unfolding has_room
has_room-blocked ring r policy full inside live le =
    ground (arith, look-blocked (ring.write_index - ring.slot_count) ring.readers r inside live le)

pub attach-other :
    (aligned : Bool) (count sizeof_slot pid s r : ℕ) (ring : Ring) {ring' : Ring}
    → attach aligned count sizeof_slot pid ring ≡ returns (s, ring')
    → (reader_of ring r).pid ≢ 0
    → s ≢ r
attach-other aligned count sizeof_slot pid s r ring e live same = live (
    ap (λ k. (reader_of ring k).pid) (sym same)
    ∙ attach-free aligned count sizeof_slot pid s ring e)
