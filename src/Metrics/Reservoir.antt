-- ===== src/Metrics/Reservoir.antt =====
-- What `sample` keeps.
use low_latency_udp_fanout.Common.{
  ℕ, zero, suc, ◌+◌, ◌%◌, ◌≤◌, ◌<◌, ◌≡◌, Bool, true, false, List, [], ◌∷◌, ◌++◌, ltb, if◌then◌else◌,
  length, get_or, set, min, All, arith, length-append, length-set,
}
use low_latency_udp_fanout.Metrics.{sample, sample_limit, mix}

pub length-sample :
    (values : List ℕ) (value seen : ℕ)
    → length values ≤ sample_limit
    → length (sample values value seen) ≡ min (length values + 1) sample_limit
unfolding sample
length-sample values value seen h =
    ground (arith, length-append values (value ∷ []), length-set values (mix seen % seen) value)

module _ {κ} (P : ℕ → Type κ) where
  All-snoc : (xs : List ℕ) (x : ℕ) → All P xs → P x → All P (xs ++ (x ∷ []))
  All-snoc [] x h p = (p, tt)
  All-snoc (y ∷ xs) x h p = (h.0, All-snoc xs x h.1 p)

  All-set : (xs : List ℕ) (i x : ℕ) → All P xs → P x → All P (set xs i x)
  All-set [] i x h p = h
  All-set (y ∷ xs) zero x h p = (p, h.1)
  All-set (y ∷ xs) (suc i) x h p = (h.0, All-set xs i x h.1 p)

  pub All-get_or : (xs : List ℕ) (i d : ℕ) → i < length xs → All P xs → P (get_or xs i d)
  All-get_or [] i d lt h = absurd (omega arith)
  All-get_or (x ∷ xs) zero d lt h = h.0
  All-get_or (x ∷ xs) (suc i) d lt h = All-get_or xs i d (omega arith) h.1

  pub All-weaken {κ'} :
      (Q : ℕ → Type κ') (xs : List ℕ) → ((x : ℕ) → P x → Q x) → All P xs → All Q xs
  All-weaken Q [] f h = tt
  All-weaken Q (x ∷ xs) f h = (f x h.0, All-weaken Q xs f h.1)

  pub All-sample :
      (values : List ℕ) (value seen : ℕ) → All P values → P value → All P (sample values value seen)
  unfolding sample
  All-sample values value seen h p =
      choose _ _ (ltb (length values) sample_limit) (All-snoc values value h p) (
        choose _ _ (ltb (mix seen % seen) (length values))
          (All-set values (mix seen % seen) value h p) h)
    where
      choose : (xs ys : List ℕ) (b : Bool) → All P xs → All P ys → All P (if b then xs else ys)
      choose xs ys b hx hy = elim b as (λ b. All P (if b then xs else ys)) [
        | true ↦ hx
        | false ↦ hy
      ]
