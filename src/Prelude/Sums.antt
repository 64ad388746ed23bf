-- ===== src/Prelude/Sums.antt =====
-- Sums of signed numbers, and of numbers, over the ids below a bound.
use kahypar.Prelude.{ℕ, zero, suc, ◌+◌, ◌≤◌, ◌<◌, ◌≡◌, ◌≢◌, refl, arith}
use native.Mathlib.Decide.{ℕ_discrete}
use kahypar.Prelude.Int.{ℤ, pos, ◌+ℤ◌, ◌-ℤ◌, +ℤ_parts, -ℤ_parts, eq_of_parts}

unfoldable pub sum_ℤ : (ℕ → ℤ) → ℕ → ℤ
sum_ℤ f zero = pos 0
sum_ℤ f (suc n) = sum_ℤ f n +ℤ f n

unfoldable pub sum_ℕ : (ℕ → ℕ) → ℕ → ℕ
sum_ℕ f zero = 0
sum_ℕ f (suc n) = sum_ℕ f n + f n

pub sum_ℤ-cong : (f h : ℕ → ℤ) (n : ℕ) → ((i : ℕ) → i < n → h i ≡ f i) → sum_ℤ h n ≡ sum_ℤ f n
unfolding sum_ℤ
sum_ℤ-cong f h zero same = refl
sum_ℤ-cong f h (suc n) same =
    rw (sum_ℤ-cong f h n (λ i p. same i (omega arith)), same n (omega arith))

pub sum_ℕ-cong : (f h : ℕ → ℕ) (n : ℕ) → ((i : ℕ) → i < n → h i ≡ f i) → sum_ℕ h n ≡ sum_ℕ f n
unfolding sum_ℕ
sum_ℕ-cong f h zero same = refl
sum_ℕ-cong f h (suc n) same =
    rw (sum_ℕ-cong f h n (λ i p. same i (omega arith)), same n (omega arith))

-- The sum after one term has changed.
pub sum_ℤ-change :
    (f h : ℕ → ℤ) (u n : ℕ)
    → u < n
    → ((i : ℕ) → u ≢ i → h i ≡ f i)
    → sum_ℤ h n ≡ sum_ℤ f n -ℤ f u +ℤ h u
unfolding sum_ℤ
sum_ℤ-change f h u zero p same = absurd (omega arith)
sum_ℤ-change f h u (suc n) p same = elim (ℕ_discrete u n) [
  | yes e ↦
      rw (sum_ℤ-cong f h n (λ i q. same i (omega arith)), e)
        (eq_of_parts _ _ (omega (arith, +ℤ_parts, -ℤ_parts)))
  | no ne ↦
      rw (sum_ℤ-change f h u n (omega arith) same, same n ne)
        (eq_of_parts _ _ (omega (arith, +ℤ_parts, -ℤ_parts)))
]

pub sum_ℕ-change :
    (f h : ℕ → ℕ) (u n : ℕ)
    → u < n
    → ((i : ℕ) → u ≢ i → h i ≡ f i)
    → sum_ℕ h n + f u ≡ sum_ℕ f n + h u
unfolding sum_ℕ
sum_ℕ-change f h u zero p same = absurd (omega arith)
sum_ℕ-change f h u (suc n) p same = elim (ℕ_discrete u n) [
  | yes e ↦ rw (sum_ℕ-cong f h n (λ i q. same i (omega arith)), e) (omega arith)
  | no ne ↦ omega (arith, sum_ℕ-change f h u n (omega arith) same, same n ne)
]

-- Terms that vanish in `sum_ℤ-change`.
pub change_from_zero : (s x : ℤ) → s -ℤ pos 0 +ℤ x ≡ s +ℤ x
change_from_zero s x = eq_of_parts _ _ (omega (arith, +ℤ_parts, -ℤ_parts))

pub change_to_zero : (s x : ℤ) → s -ℤ x +ℤ pos 0 ≡ s -ℤ x
change_to_zero s x = eq_of_parts _ _ (omega (arith, +ℤ_parts, -ℤ_parts))

pub change_none : (s x : ℤ) → s -ℤ x +ℤ x ≡ s
change_none s x = eq_of_parts _ _ (omega (arith, +ℤ_parts, -ℤ_parts))

pub sum_ℕ-le : (f : ℕ → ℕ) (n : ℕ) → ((i : ℕ) → f i ≤ 1) → sum_ℕ f n ≤ n
unfolding sum_ℕ
sum_ℕ-le f zero h = omega arith
sum_ℕ-le f (suc n) h = omega (arith, sum_ℕ-le f n h, h n)

pub sum_ℕ-ge : (f : ℕ → ℕ) (u n : ℕ) → u < n → f u ≤ sum_ℕ f n
unfolding sum_ℕ
sum_ℕ-ge f u zero h = absurd (omega arith)
sum_ℕ-ge f u (suc n) h = elim (ℕ_discrete u n) [
  | yes e ↦ rw e (omega arith)
  | no ne ↦ omega (arith, sum_ℕ-ge f u n (omega arith))
]

pub sum_ℕ-add : (f h : ℕ → ℕ) (n : ℕ) → sum_ℕ (λ i. f i + h i) n ≡ sum_ℕ f n + sum_ℕ h n
unfolding sum_ℕ
sum_ℕ-add f h zero = refl
sum_ℕ-add f h (suc n) = omega (arith, sum_ℕ-add f h n)

pub sum_ℕ-zero : (n : ℕ) → sum_ℕ (λ i. 0) n ≡ 0
unfolding sum_ℕ
sum_ℕ-zero zero = refl
sum_ℕ-zero (suc n) = omega (arith, sum_ℕ-zero n)
