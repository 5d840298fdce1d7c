-- ===== src/Fec/Recovery/Frames.antt =====
-- harness/include/fec.h: generations that hold frames and parity rows of an encoder.
use low_latency_udp_fanout.Common.{
  ℕ, zero, suc, ◌+◌, ◌≤◌, ◌<◌, ◌≡◌, ◌≢◌, sym, ◌∙◌, ap, arith, true, false, ◌==◌, inl, inr,
  Bool-cases, List, [], ◌∷◌, length, get_or, take, All, length-replicate, get_or-replicate,
}
use low_latency_udp_fanout.Wire.Frame.{max_frame}
use low_latency_udp_fanout.Fec.Field.Xor.{◌⊕◌, zero-xor}
use low_latency_udp_fanout.Fec.Envelope.{protected_frame}
use low_latency_udp_fanout.Fec.Encoder.{parity_shard, zeros}
use low_latency_udp_fanout.Fec.Encoder.Valid.{IsFrame}
use low_latency_udp_fanout.Fec.Decoder.{Generation}
use low_latency_udp_fanout.Fec.Decoder.Recover.{absent_from, rows_from}
use low_latency_udp_fanout.Fec.Recovery.Parity.{
  across, term, length-parity_shard, get_or-parity_shard,
}
use low_latency_udp_fanout.Fec.Recovery.System.{Holds, IsParity}
use low_latency_udp_fanout.Fec.Recovery.Blocks.{
  length-protected_frame, get_or-protected_frame, protected_frame-lt,
}

-- A generation of the frames `frames`, of which some were received, with parity rows of the encoder.
pub record IsPartOf (max_len : ℕ) (frames : List (List ℕ)) (gen : Generation) : Type 0 where
  pub count : gen.k ≡ length frames
  pub count-le : length frames ≤ 128
  pub max_len-le : max_len ≤ max_frame
  pub all_frames : All (IsFrame max_len) frames
  pub received_below : (i : ℕ) → get_or gen.received i false ≡ true → i < length frames
  pub blocks_kept :
      (i : ℕ)
      → get_or gen.received i false ≡ true
      → get_or gen.blocks i [] ≡ protected_frame (get_or frames i []) (length (get_or frames i []))
  pub row_count : length gen.parities ≤ 16
  pub rows_kept :
      (row : ℕ)
      → length (get_or gen.parities row []) ≢ 0
      → get_or gen.parities row [] ≡ parity_shard row max_len 0 frames (zeros max_len)

pub nth-IsFrame :
    (max_len : ℕ) (frames : List (List ℕ)) (i : ℕ)
    → All (IsFrame max_len) frames
    → i < length frames
    → IsFrame max_len (get_or frames i [])
nth-IsFrame max_len [] i h lt = absurd (omega arith)
nth-IsFrame max_len (f ∷ frames) zero (one, h) lt = one
nth-IsFrame max_len (f ∷ frames) (suc i) (one, h) lt = nth-IsFrame max_len frames i h (omega arith)

nth_bytes :
    (max_len : ℕ) (frames : List (List ℕ)) (i : ℕ)
    → All (IsFrame max_len) frames
    → All (λ b. b < 256) (get_or frames i [])
nth_bytes max_len [] i h = tt
nth_bytes max_len (f ∷ frames) zero (one, h) = one.bytes
nth_bytes max_len (f ∷ frames) (suc i) (one, h) = nth_bytes max_len frames i h

-- The rows that are used are there.
rows_there :
    (there : ℕ → List ℕ) (lo : ℕ) (parities : List (List ℕ))
    → ((i : ℕ) → get_or parities i [] ≡ there (lo + i))
    → All (λ row. length (there row) ≢ 0) (rows_from lo parities)
unfolding rows_from
rows_there there lo [] h = tt
rows_there there lo (p ∷ ps) h =
    let here : lo + 0 ≡ lo = omega arith in
    let rest =
      rows_there there (suc lo) ps
        (λ i. let e : lo + suc i ≡ suc lo + i = omega arith in h (suc i) ∙ ap there e) in
    elim (Bool-cases (length p == 0)) [
      | inl t ↦ rw t rest
      | inr f ↦
          let one : length (there lo) ≢ 0 = λ e.
            let same : length p ≡ length (there lo) = ap length (h 0 ∙ ap there here) in
            ground arith in
          rw f (one, rest)
    ]

nth_taken :
    (P : ℕ → Type 0) (n : ℕ) (is : List ℕ) (r : ℕ)
    → All P is
    → r < length (take n is)
    → P (get_or (take n is) r 0)
nth_taken P zero is r h lt = absurd (omega arith)
nth_taken P (suc n) [] r h lt = absurd (omega arith)
nth_taken P (suc n) (i ∷ is) zero (one, h) lt = one
nth_taken P (suc n) (i ∷ is) (suc r) (one, h) lt = nth_taken P n is r h (omega arith)

module _ {max_len : ℕ} {frames : List (List ℕ)} {gen : Generation}
    (g : IsPartOf max_len frames gen) where
  abbrev pub frame : ℕ → List ℕ
  frame i = get_or frames i []

  abbrev pub content : ℕ → ℕ → ℕ
  content i t = get_or (protected_frame (frame i) max_len) t 0

  abbrev pub absent : List ℕ
  absent = absent_from gen.k 0 gen.received

  abbrev pub used : List ℕ
  used = take (length absent) (rows_from 0 gen.parities)

  pub holds : Holds (max_len + 2) content gen
  holds = record {
    k-le = omega (arith, g.count, g.count-le);
    bytes = λ i t. protected_frame-lt (frame i) max_len t (nth_bytes max_len frames i g.all_frames);
    fits = λ i there.
        let f = nth-IsFrame max_len frames i g.all_frames (g.received_below i there) in
        let same =
          ap length (g.blocks_kept i there)
          ∙ length-protected_frame (frame i) (length (frame i)) (omega arith) in
        omega (arith, same, f.within);
    blocks_hold = λ i t there.
        ap (λ b. get_or b t 0) (g.blocks_kept i there)
        ∙ get_or-protected_frame (frame i) (length (frame i)) max_len t;
  }

  parity :
      (row : ℕ) → length (get_or gen.parities row []) ≢ 0 → IsParity (max_len + 2) content gen row
  parity row there =
      let kept = g.rows_kept row there in
      let size : length (zeros max_len) ≡ max_len + 2 = length-replicate {A = ℕ} (max_len + 2) 0 in
      record {
        wide = ap length kept ∙ length-parity_shard row max_len 0 frames (zeros max_len) ∙ size;
        sums = λ t.
            ap (λ shard. get_or shard t 0) kept
            ∙ get_or-parity_shard row max_len 0 content frames (zeros max_len) t
                (λ i lt.
                  let f = nth-IsFrame max_len frames i g.all_frames lt in
                  omega (arith, size, f.within, length-protected_frame (frame i) max_len f.within))
                (λ i lt. let e : i ≡ 0 + i = omega arith in ap (λ c. content c t) e)
            ∙ ap (λ z. z ⊕ across (length frames) 0 (term content row t))
                (get_or-replicate {A = ℕ} (max_len + 2) t 0)
            ∙ zero-xor _
            ∙ ap (λ k. across k 0 (term content row t)) (sym g.count);
      }

  pub used_parity : (r : ℕ) → r < length used → IsParity (max_len + 2) content gen (get_or used r 0)
  used_parity r lt = parity (get_or used r 0) (
      nth_taken (λ row. length (get_or gen.parities row []) ≢ 0) (length absent)
        (rows_from 0 gen.parities) r
        (rows_there (λ i. get_or gen.parities i []) 0 gen.parities
          (λ i. let e : i ≡ 0 + i = omega arith in ap (λ c. get_or gen.parities c []) e))
        lt)
