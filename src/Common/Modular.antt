-- ===== src/Common/Modular.antt =====
-- Residues: two numbers less than `m` apart with one residue are one number.
use Prim.Native.Nat.{ℕ, ◌+◌, ◌*◌, ◌/◌, ◌%◌, ◌≤◌, ◌<◌}
use mathlib.Core.Path.{◌≡◌, ap}
use native.Mathlib.Nat.{div-add-mod, mul-le-mul_left, mul-add, mul-one}
use native.Mathlib.Decide.{ℕ_discrete, dec_lt}
use native.Mathlib.Omega.{arith}

quotient_gap : (m p q : ℕ) → p < q → m * p + m ≤ m * q
quotient_gap m p q h =
    omega (arith, mul-le-mul_left {m = p + 1} {n = q} m (omega arith), mul-add m p 1, mul-one m)

pub same_residue : (m s t : ℕ) → s ≤ t → t < s + m → s % m ≡ t % m → s ≡ t
same_residue m s t le lt e = elim (ℕ_discrete (s / m) (t / m)) [
  | yes q ↦ omega (arith, div-add-mod s m, div-add-mod t m, ap (λ (n : ℕ). m * n) q)
  | no q ↦ elim (dec_lt (s / m) (t / m)) [
    | yes up ↦
        absurd (omega (arith, div-add-mod s m, div-add-mod t m, quotient_gap m (s / m) (t / m) up))
    | no down ↦ absurd (
        omega
          (arith, div-add-mod s m, div-add-mod t m, quotient_gap m (t / m) (s / m) (omega arith)))
  ]
]

pub next_residue : (m s : ℕ) → (s + m) % m ≡ s % m
next_residue m s = grind arith
