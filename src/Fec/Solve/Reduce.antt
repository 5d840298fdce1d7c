-- ===== src/Fec/Solve/Reduce.antt =====
-- harness/include/fec.h: a column step of the elimination of a Cauchy system, on matrices as functions.
use low_latency_udp_fanout.Common.{
  ℕ, suc, ◌≤◌, ◌<◌, ◌≡◌, ◌≢◌, sym, ◌∙◌, ap, ap₂, arith, true, false, ◌==◌, if◌then◌else◌, inl, inr,
  Bool-cases,
}
use native.Mathlib.Decide.{ℕ_discrete}
use low_latency_udp_fanout.Fec.Field.{mul, inverse_or_zero}
use low_latency_udp_fanout.Fec.Field.Xor.{◌⊕◌, xor-zero, xor_self, xor-lt, eq_of_xor-zero}
use low_latency_udp_fanout.Fec.Field.Linear.{xor-mul, mul-zero, zero-mul}
use low_latency_udp_fanout.Fec.Field.Laws.{mul-lt, mul_comm, mul_assoc, mul-inverse, mul-ne-zero}
use low_latency_udp_fanout.Fec.Solve.Sum.{sum, delta, sum_ext, sum-xor, sum-mul, mul-sum, sum-delta}
use low_latency_udp_fanout.Fec.Solve.Cauchy.{mul-one, schur}

-- A quotient of bytes that are not zero is not zero.
quotient-ne :
    (p q w : ℕ)
    → p < 256
    → q < 256
    → w < 256
    → p ≢ 0
    → q ≢ 0
    → w ≢ 0
    → mul p (mul q (inverse_or_zero w)) ≢ 0
quotient-ne p q w hp hq hw np nq nw =
    let (one, small) = mul-inverse w hw nw in
    let inverse-ne : inverse_or_zero w ≢ 0 =
      λ e. one_ne_zero (sym one ∙ ap (mul w) e ∙ mul-zero w) in
    mul-ne-zero p (mul q (inverse_or_zero w)) hp (mul-lt q _ hq) np
      (mul-ne-zero q (inverse_or_zero w) hq small nq inverse-ne)
  where
    one_ne_zero : ◌≡◌ {A = ℕ} 1 0 → ⊥
    one_ne_zero e = omega arith

-- The points of the rows and columns: all different.
pub record Points (n : ℕ) (x y : ℕ → ℕ) : Type 0 where
  pub x-lt : (r : ℕ) → x r < 256
  pub y-lt : (j : ℕ) → y j < 256
  pub rows_differ : (r q : ℕ) → r < n → q < n → r ≢ q → x r ≢ x q
  pub columns_differ : (j k : ℕ) → j < n → k < n → j ≢ k → y j ≢ y k
  pub apart : (r j : ℕ) → r < n → j < n → x r ≢ y j

-- One column, with the inverse `s` of the pivot, for cells and for right-hand sides.
abbrev pub step_cell : ℕ → ℕ → (ℕ → ℕ → ℕ) → ℕ → ℕ → ℕ
step_cell c s m r j = if r == c then mul (m c j) s else m r j ⊕ mul (m r c) (mul (m c j) s)

abbrev pub step_value : ℕ → ℕ → (ℕ → ℕ → ℕ) → (ℕ → ℕ → ℕ) → ℕ → ℕ → ℕ
step_value c s m b r t = if r == c then mul (b c t) s else b r t ⊕ mul (m r c) (mul (b c t) s)

-- Before column `c`: the columns below it are cleared, the rest is a Cauchy matrix up to factors,
-- and the data `d` solve the system.
pub record Reduced (n width : ℕ) (x y : ℕ → ℕ) (d : ℕ → ℕ → ℕ) (c : ℕ) (m b : ℕ → ℕ → ℕ)
    : Type 0 where
  pub u : ℕ → ℕ
  pub v : ℕ → ℕ
  pub u-lt : (r : ℕ) → u r < 256
  pub v-lt : (j : ℕ) → v j < 256
  pub u-ne : (r : ℕ) → c ≤ r → r < n → u r ≢ 0
  pub v-ne : (j : ℕ) → c ≤ j → j < n → v j ≢ 0
  pub cell-lt : (r j : ℕ) → m r j < 256
  pub cauchy : (r j : ℕ) → c ≤ r → r < n → c ≤ j → j < n → mul (m r j) (x r ⊕ y j) ≡ mul (u r) (v j)
  pub cleared : (r j : ℕ) → r < n → j < c → m r j ≡ delta r j
  pub solves : (r t : ℕ) → r < n → t < width → b r t ≡ sum n (λ j. mul (m r j) (d j t))

module _ {n width : ℕ} {x y : ℕ → ℕ} {d : ℕ → ℕ → ℕ} {c : ℕ} {m b : ℕ → ℕ → ℕ}
    (points : Points n x y) (d-lt : (j t : ℕ) → d j t < 256) (i : Reduced n width x y d c m b)
    (inside : c < n) where
  differ : (p q : ℕ) → p ≢ q → p ⊕ q ≢ 0
  differ p q ne e = ne (eq_of_xor-zero p q e)

  -- The pivot is never zero.
  pub pivot-ne : m c c ≢ 0
  pivot-ne e =
      mul-ne-zero (i.u c) (i.v c) (i.u-lt c) (i.v-lt c) (i.u-ne c (omega arith) inside)
        (i.v-ne c (omega arith) inside)
        (sym (i.cauchy c c (omega arith) inside (omega arith) inside)
          ∙ ap (λ t. mul t (x c ⊕ y c)) e
          ∙ zero-mul _)

  module _ (s : ℕ) (s-lt : s < 256) (pivot : mul (m c c) s ≡ 1) where
    next_cell-lt : (r j : ℕ) → step_cell c s m r j < 256
    next_cell-lt r j = elim (Bool-cases (r == c)) [
      | inl e ↦ rw e (mul-lt _ _ (i.cell-lt c j))
      | inr e ↦ rw e (xor-lt 8 _ _ (i.cell-lt r j) (mul-lt _ _ (i.cell-lt r c)))
    ]

    -- The pivot row of the step, and its column.
    pivot_row : (j : ℕ) → j < suc c → mul (m c j) s ≡ delta c j
    pivot_row j lj = elim (ℕ_discrete j c) [
      | yes e ↦
          let one : delta c j ≡ 1 = ground arith in ap (λ k. mul (m c k) s) e ∙ pivot ∙ sym one
      | no ne ↦
          let off : delta c j ≡ 0 = ground arith in
          ap (λ k. mul k s) (i.cleared c j inside (omega arith) ∙ off) ∙ zero-mul s ∙ sym off
    ]

    other_row :
        (r j : ℕ) → r < n → r ≢ c → j < suc c → m r j ⊕ mul (m r c) (mul (m c j) s) ≡ delta r j
    other_row r j lr ne lj = elim (ℕ_discrete j c) [
      | yes e ↦
          let off : delta r j ≡ 0 = ground arith in
          let one : delta c j ≡ 1 = ground arith in
          ap₂ (λ p q. p ⊕ q) (ap (m r) e)
            (ap (mul (m r c)) (pivot_row j lj ∙ one) ∙ mul-one (m r c) (i.cell-lt r c))
          ∙ xor_self (m r c)
          ∙ sym off
      | no other ↦
          let off : delta c j ≡ 0 = ground arith in
          ap (λ p. m r j ⊕ p) (ap (mul (m r c)) (pivot_row j lj ∙ off) ∙ mul-zero (m r c))
          ∙ xor-zero (m r j)
          ∙ i.cleared r j lr (omega arith)
    ]

    next_cleared : (r j : ℕ) → r < n → j < suc c → step_cell c s m r j ≡ delta r j
    next_cleared r j lr lj = elim (ℕ_discrete r c) [
      | yes e ↦
          let here : (r == c) ≡ true = ground arith in
          rw here (pivot_row j lj ∙ ap (λ k. delta k j) (sym e))
      | no ne ↦ let there : (r == c) ≡ false = ground arith in rw there (other_row r j lr ne lj)
    ]

    -- The pivot row, as a sum over the data.
    pivot_value : (t : ℕ) → t < width → mul (b c t) s ≡ sum n (λ j. mul (mul (m c j) s) (d j t))
    pivot_value t lt =
        ap (λ p. mul p s) (i.solves c t inside lt)
        ∙ sum-mul n (λ j. mul (m c j) (d j t)) s
        ∙ sum_ext n _ _ (λ j lj.
          mul_assoc (m c j) (d j t) s (i.cell-lt c j) (d-lt j t) s-lt
          ∙ ap (mul (m c j)) (mul_comm (d j t) s (d-lt j t) s-lt)
          ∙ sym (mul_assoc (m c j) s (d j t) (i.cell-lt c j) s-lt (d-lt j t)))

    other_value :
        (r t : ℕ)
        → r < n
        → t < width
        → b r t ⊕ mul (m r c) (mul (b c t) s)
          ≡ sum n (λ j. mul (m r j ⊕ mul (m r c) (mul (m c j) s)) (d j t))
    other_value r t lr lt =
        ap₂ (λ p q. p ⊕ q) (i.solves r t lr lt)
          (ap (mul (m r c)) (pivot_value t lt)
            ∙ mul-sum n (λ j. mul (mul (m c j) s) (d j t)) (m r c))
        ∙ sum-xor n _ _
        ∙ sum_ext n _ _ (λ j lj.
          ap (λ p. mul (m r j) (d j t) ⊕ p)
            (sym (
              mul_assoc (m r c) (mul (m c j) s) (d j t) (i.cell-lt r c)
                (mul-lt (m c j) s (i.cell-lt c j)) (d-lt j t)))
          ∙ sym (xor-mul (m r j) (mul (m r c) (mul (m c j) s)) (d j t)))

    next_solves :
        (r t : ℕ)
        → r < n
        → t < width
        → step_value c s m b r t ≡ sum n (λ j. mul (step_cell c s m r j) (d j t))
    next_solves r t lr lt = elim (ℕ_discrete r c) [
      | yes e ↦ let here : (r == c) ≡ true = ground arith in rw here (pivot_value t lt)
      | no ne ↦ let there : (r == c) ≡ false = ground arith in rw there (other_value r t lr lt)
    ]

    -- The factors after the step.
    over_pivot : ℕ → ℕ
    over_pivot r = mul (i.u r) (mul (x r ⊕ x c) (inverse_or_zero (x r ⊕ y c)))

    below_pivot : ℕ → ℕ
    below_pivot j = mul (i.v j) (mul (y j ⊕ y c) (inverse_or_zero (x c ⊕ y j)))

    sum-lt : (p q : ℕ) → p < 256 → q < 256 → p ⊕ q < 256
    sum-lt = xor-lt 8

    next_cauchy :
        (r j : ℕ)
        → suc c ≤ r
        → r < n
        → suc c ≤ j
        → j < n
        → mul (step_cell c s m r j) (x r ⊕ y j) ≡ mul (over_pivot r) (below_pivot j)
    unfolding over_pivot below_pivot
    next_cauchy r j cr lr cj lj =
        let there : (r == c) ≡ false = ground arith in
        let (b_eq, b-lt) =
          mul-inverse (x r ⊕ y c) (sum-lt _ _ (points.x-lt r) (points.y-lt c))
            (differ _ _ (points.apart r c lr inside)) in
        let (d_eq, e-lt) =
          mul-inverse (x c ⊕ y j) (sum-lt _ _ (points.x-lt c) (points.y-lt j))
            (differ _ _ (points.apart c j inside lj)) in
        rw there (
          schur (m r j) (m r c) (m c j) (m c c) s (inverse_or_zero (x r ⊕ y c))
            (inverse_or_zero (x c ⊕ y j)) (x r) (x c) (y j) (y c) (i.u r) (i.u c) (i.v j) (i.v c)
            (
              i.cell-lt r j,
              (
                i.cell-lt r c,
                (
                  i.cell-lt c j,
                  (
                    i.cell-lt c c,
                    (
                      s-lt,
                      (
                        b-lt,
                        (
                          e-lt,
                          (
                            points.x-lt r,
                            (
                              points.x-lt c,
                              (
                                points.y-lt j,
                                (points.y-lt c, (i.u-lt r, (i.u-lt c, (i.v-lt j, (i.v-lt c, tt))))),
                              ),
                            ),
                          ),
                        ),
                      ),
                    ),
                  ),
                ),
              ),
            )
            (i.cauchy r j (omega arith) lr (omega arith) lj)
            (i.cauchy r c (omega arith) lr (omega arith) inside)
            (i.cauchy c j (omega arith) inside (omega arith) lj)
            (i.cauchy c c (omega arith) inside (omega arith) inside) pivot b_eq d_eq)

    over_pivot-ne : (r : ℕ) → suc c ≤ r → r < n → over_pivot r ≢ 0
    unfolding over_pivot
    over_pivot-ne r cr lr =
        quotient-ne (i.u r) (x r ⊕ x c) (x r ⊕ y c) (i.u-lt r)
          (sum-lt _ _ (points.x-lt r) (points.x-lt c)) (sum-lt _ _ (points.x-lt r) (points.y-lt c))
          (i.u-ne r (omega arith) lr) (differ _ _ (points.rows_differ r c lr inside (omega arith)))
          (differ _ _ (points.apart r c lr inside))

    below_pivot-ne : (j : ℕ) → suc c ≤ j → j < n → below_pivot j ≢ 0
    unfolding below_pivot
    below_pivot-ne j cj lj =
        quotient-ne (i.v j) (y j ⊕ y c) (x c ⊕ y j) (i.v-lt j)
          (sum-lt _ _ (points.y-lt j) (points.y-lt c)) (sum-lt _ _ (points.x-lt c) (points.y-lt j))
          (i.v-ne j (omega arith) lj)
          (differ _ _ (points.columns_differ j c lj inside (omega arith)))
          (differ _ _ (points.apart c j inside lj))

    pub step-Reduced : Reduced n width x y d (suc c) (step_cell c s m) (step_value c s m b)
    unfolding over_pivot below_pivot
    step-Reduced = record {
      u = over_pivot;
      v = below_pivot;
      u-lt = λ r. mul-lt _ _ (i.u-lt r);
      v-lt = λ j. mul-lt _ _ (i.v-lt j);
      u-ne = over_pivot-ne;
      v-ne = below_pivot-ne;
      cell-lt = next_cell-lt;
      cauchy = next_cauchy;
      cleared = next_cleared;
      solves = next_solves;
    }

-- With every column cleared, the right-hand sides are the data.
pub solved :
    {n width : ℕ} {x y : ℕ → ℕ} {d : ℕ → ℕ → ℕ} {m b : ℕ → ℕ → ℕ}
    → ((j t : ℕ) → d j t < 256)
    → Reduced n width x y d n m b
    → (r t : ℕ) → r < n
    → t < width
    → b r t ≡ d r t
solved {n} {d = d} {m = m} d-lt i r t lr lt =
    i.solves r t lr lt
    ∙ sum_ext n _ _ (λ j lj. ap (λ p. mul p (d j t)) (i.cleared r j lr lj))
    ∙ sum-delta n (λ j. d j t) r lr (d-lt r t)
