-- ===== src/Metrics/Sums.antt =====
-- Sums over nets when one term changes.
use kahypar.Prelude.{ℕ, ◌<◌, ◌≡◌, ◌≢◌, refl, ◌∙◌, ap, List, [], ◌∷◌, arith, count}
use native.Mathlib.Decide.{ℕ_discrete}
use kahypar.Prelude.Int.{ℤ, ◌+ℤ◌, ◌-ℤ◌, +ℤ_parts, -ℤ_parts, eq_of_parts}
use kahypar.Metrics.{sum_over}

pub sum_over-shift :
    (f : ℕ → ℤ) (es : List ℕ) (acc d : ℤ) → sum_over f es (acc +ℤ d) ≡ sum_over f es acc +ℤ d
unfolding sum_over
sum_over-shift f [] acc d = refl
sum_over-shift f (e ∷ es) acc d =
    ap (sum_over f es) (eq_of_parts (acc +ℤ d +ℤ f e) (acc +ℤ f e +ℤ d) (omega (arith, +ℤ_parts)))
    ∙ sum_over-shift f es (acc +ℤ f e) d

pub sum_over-cong :
    (f h : ℕ → ℤ) (es : List ℕ) (acc : ℤ)
    → ((e : ℕ) → h e ≡ f e)
    → sum_over h es acc ≡ sum_over f es acc
unfolding sum_over
sum_over-cong f h [] acc same = refl
sum_over-cong f h (e ∷ es) acc same = rw (same e) (sum_over-cong f h es (acc +ℤ f e) same)

pub sum_over-cong_on :
    (f h : ℕ → ℤ) (es : List ℕ) (acc : ℤ)
    → ((e : ℕ) → 0 < count e es → h e ≡ f e)
    → sum_over h es acc ≡ sum_over f es acc
unfolding sum_over count
sum_over-cong_on f h [] acc same = refl
sum_over-cong_on f h (e ∷ es) acc same =
    rw (same e (ground arith)) (sum_over-cong_on f h es (acc +ℤ f e) (λ x p. same x (ground arith)))

module _ (f h : ℕ → ℤ) (x : ℕ) (same : (e : ℕ) → x ≢ e → h e ≡ f e) where
  pub sum_over-none :
      (es : List ℕ) (acc : ℤ) → count x es ≡ 0 → sum_over h es acc ≡ sum_over f es acc
  unfolding sum_over count
  sum_over-none [] acc none = refl
  sum_over-none (e ∷ es) acc none =
      ap (λ t. sum_over h es (acc +ℤ t)) (same e (ground arith))
      ∙ sum_over-none es (acc +ℤ f e) (ground arith)

  -- A net that is listed once changes the sum by the change of its term.
  pub sum_over-one :
      (es : List ℕ) (acc : ℤ)
      → count x es ≡ 1
      → sum_over h es acc ≡ sum_over f es acc +ℤ (h x -ℤ f x)
  unfolding sum_over count
  sum_over-one [] acc once = absurd (omega arith)
  sum_over-one (e ∷ es) acc once = elim (ℕ_discrete x e) [
    | yes p ↦
        sum_over-none es (acc +ℤ h e) (ground arith)
        ∙ ap (sum_over f es) (
            eq_of_parts (acc +ℤ h e) (acc +ℤ f e +ℤ (h x -ℤ f x))
              (rw (ap h p, ap f p) (omega (arith, +ℤ_parts, -ℤ_parts))))
        ∙ sum_over-shift f es (acc +ℤ f e) (h x -ℤ f x)
    | no ne ↦
        ap (λ t. sum_over h es (acc +ℤ t)) (same e ne) ∙ sum_over-one es (acc +ℤ f e) (ground arith)
  ]
