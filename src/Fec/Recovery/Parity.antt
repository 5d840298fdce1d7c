-- ===== src/Fec/Recovery/Parity.antt =====
-- harness/include/fec.h: the entries of a parity shard, and of what is left of it once the received blocks are out.
use low_latency_udp_fanout.Common.{
  ℕ, zero, suc, ◌+◌, ◌≤◌, ◌<◌, ◌≡◌, refl, sym, ◌∙◌, ap, arith, Bool, true, false, ltb, inl, inr,
  Bool-cases, List, [], ◌∷◌, some, length, get_or,
}
use low_latency_udp_fanout.Fec.Field.{mul, coefficient}
use low_latency_udp_fanout.Fec.Field.Xor.{
  ◌⊕◌, xor-zero, xor_comm, xor_assoc, xor_self, eq_of_xor-zero,
}
use low_latency_udp_fanout.Fec.Envelope.{add_scaled, protected_frame}
use low_latency_udp_fanout.Fec.Encoder.{parity_shard}
use low_latency_udp_fanout.Fec.Decoder.Recover.{absent_from, subtract_received}
use low_latency_udp_fanout.Fec.Solve.Sum.{sum}
use low_latency_udp_fanout.Fec.Solve.Entry.{get_or-add_scaled, length-add_scaled}

-- The sum over the `k` columns from `c` on.
unfoldable pub across : ℕ → ℕ → (ℕ → ℕ) → ℕ
across zero c f = 0
across (suc k) c f = f c ⊕ across k (suc c) f

-- The sum over the columns of a list.
pub over : List ℕ → (ℕ → ℕ) → ℕ
over [] f = 0
over (i ∷ is) f = f i ⊕ over is f

sum_front : (n : ℕ) (f : ℕ → ℕ) → f 0 ⊕ sum n (λ j. f (suc j)) ≡ sum (suc n) f
unfolding sum
sum_front zero f = xor_comm (f 0) 0
sum_front (suc n) f = sym (xor_assoc (f 0) _ (f (suc n))) ∙ ap (λ t. t ⊕ f (suc n)) (sum_front n f)

pub over-sum : (is : List ℕ) (f : ℕ → ℕ) → over is f ≡ sum (length is) (λ j. f (get_or is j 0))
unfolding over sum
over-sum [] f = refl
over-sum (i ∷ is) f =
    ap (λ t. f i ⊕ t) (over-sum is f) ∙ sum_front (length is) (λ j. f (get_or (i ∷ is) j 0))

-- One column of a row, at byte `t` of the blocks.
abbrev pub term : (ℕ → ℕ → ℕ) → ℕ → ℕ → ℕ → ℕ
term content row t c = mul (coefficient row c) (content c t)

absent_there :
    (k c : ℕ) (received : List Bool)
    → get_or received c false ≡ true
    → absent_from (suc k) c received ≡ absent_from k (suc c) received
unfolding absent_from
absent_there k c received there = rw there refl

absent_gone :
    (k c : ℕ) (received : List Bool)
    → get_or received c false ≡ false
    → absent_from (suc k) c received ≡ c ∷ absent_from k (suc c) received
unfolding absent_from
absent_gone k c received gone = rw gone refl

module _ (width row : ℕ) (content : ℕ → ℕ → ℕ) where
  pub record IsLeft (k c : ℕ) (received : List Bool) (before after : List ℕ) : Type 0 where
    pub same_length : length after ≡ length before
    pub entries :
        (t : ℕ)
        → get_or after t 0 ⊕ over (absent_from k c received) (term content row t)
          ≡ get_or before t 0 ⊕ across k c (term content row t)

  -- What is left holds the absent columns.
  pub subtract_received_lem :
      (k c : ℕ) (received : List Bool) (blocks : List (List ℕ)) (rhs : List ℕ)
      → length rhs ≡ width
      → ((i : ℕ) → get_or received i false ≡ true → length (get_or blocks i []) ≤ width)
      → ((i t : ℕ) → get_or received i false ≡ true → get_or (get_or blocks i []) t 0 ≡ content i t)
      → (after : List ℕ) × (subtract_received k width row c received blocks rhs ≡ some after)
        × IsLeft k c received rhs after
  unfolding subtract_received over across absent_from
  subtract_received_lem zero c received blocks rhs e fit held =
      (rhs, refl, record { same_length = refl; entries = λ t. refl })
  subtract_received_lem (suc k) c received blocks rhs e fit held =
      elim (Bool-cases (get_or received c false)) [
        | inl there ↦
            let next : List ℕ = add_scaled (coefficient row c) (get_or blocks c []) rhs in
            let within : ltb width (length (get_or blocks c [])) ≡ false =
              ground (arith, fit c there) in
            let kept : length next ≡ length rhs =
              length-add_scaled (coefficient row c) (get_or blocks c []) rhs in
            let (after, run, left) =
              subtract_received_lem k (suc c) received blocks next (kept ∙ e) fit held in
            rw (there, within, subtract_received)
              (
                after,
                run,
                record {
                  same_length = left.same_length ∙ kept;
                  entries = λ t.
                      ap (λ is. get_or after t 0 ⊕ over is (term content row t))
                        (absent_there k c received there)
                      ∙ left.entries t
                      ∙ ap (λ p. p ⊕ across k (suc c) (term content row t))
                          (get_or-add_scaled (coefficient row c) (get_or blocks c []) rhs t
                              (omega (arith, fit c there))
                            ∙ ap (λ p. get_or rhs t 0 ⊕ mul (coefficient row c) p) (held c t there))
                      ∙ xor_assoc (get_or rhs t 0) (term content row t c) _;
                },
              )
        | inr gone ↦
            let (after, run, left) =
              subtract_received_lem k (suc c) received blocks rhs e fit held in
            rw (gone, subtract_received)
              (
                after,
                run,
                record {
                  same_length = left.same_length;
                  entries = λ t.
                      ap (λ is. get_or after t 0 ⊕ over is (term content row t))
                        (absent_gone k c received gone)
                      ∙ aside (get_or after t 0) (term content row t c) _
                      ∙ ap (λ p. term content row t c ⊕ p) (left.entries t)
                      ∙ sym (aside (get_or rhs t 0) (term content row t c) _);
                },
              )
      ]
    where
      aside : (a b c : ℕ) → a ⊕ (b ⊕ c) ≡ b ⊕ (a ⊕ c)
      aside a b c = sym (xor_assoc a b c) ∙ ap (λ p. p ⊕ c) (xor_comm a b) ∙ xor_assoc b a c

-- The shard of the encoder, with the frames from column `col` on.
pub length-parity_shard :
    (row max_len col : ℕ) (frames : List (List ℕ)) (acc : List ℕ)
    → length (parity_shard row max_len col frames acc) ≡ length acc
unfolding parity_shard
length-parity_shard row max_len col [] acc = refl
length-parity_shard row max_len col (frame ∷ frames) acc =
    length-parity_shard row max_len (suc col) frames _
    ∙ length-add_scaled _ (protected_frame frame max_len) acc

pub get_or-parity_shard :
    (row max_len col : ℕ) (content : ℕ → ℕ → ℕ) (frames : List (List ℕ)) (acc : List ℕ) (t : ℕ)
    → ((i : ℕ)
        → i < length frames
        → length (protected_frame (get_or frames i []) max_len) ≤ length acc)
    → ((i : ℕ)
        → i < length frames
        → get_or (protected_frame (get_or frames i []) max_len) t 0 ≡ content (col + i) t)
    → get_or (parity_shard row max_len col frames acc) t 0
      ≡ get_or acc t 0 ⊕ across (length frames) col (term content row t)
unfolding parity_shard across
get_or-parity_shard row max_len col content [] acc t fit held = sym (xor-zero _)
get_or-parity_shard row max_len col content (frame ∷ frames) acc t fit held =
    let block : List ℕ = protected_frame frame max_len in
    let kept = length-add_scaled (coefficient row col) block acc in
    let here : col + 0 ≡ col = omega arith in
    get_or-parity_shard row max_len (suc col) content frames
      (add_scaled (coefficient row col) block acc) t
      (λ i lt. omega (arith, kept, fit (suc i) (omega arith)))
      (λ i lt.
        let e : col + suc i ≡ suc col + i = omega arith in
        held (suc i) (omega arith) ∙ ap (λ c. content c t) e)
    ∙ ap (λ p. p ⊕ across (length frames) (suc col) (term content row t))
        (get_or-add_scaled (coefficient row col) block acc t (fit 0 (omega arith))
          ∙ ap (λ p. get_or acc t 0 ⊕ mul (coefficient row col) p)
              (held 0 (omega arith) ∙ ap (λ c. content c t) here))
    ∙ xor_assoc (get_or acc t 0) (term content row t col) _

-- The entries of what is left of a shard are the sums over the absent columns.
pub left_entry :
    (width row : ℕ) (content : ℕ → ℕ → ℕ) (k : ℕ) (received : List Bool) (shard after : List ℕ)
    (t : ℕ)
    → IsLeft width row content k 0 received shard after
    → get_or shard t 0 ≡ across k 0 (term content row t)
    → get_or after t 0
      ≡ sum
          (length (absent_from k 0 received))
          (λ j. term content row t (get_or (absent_from k 0 received) j 0))
left_entry width row content k received shard after t left e =
    eq_of_xor-zero _ _
      (left.entries t ∙ ap (λ p. p ⊕ across k 0 (term content row t)) e ∙ xor_self _)
    ∙ over-sum (absent_from k 0 received) (term content row t)
