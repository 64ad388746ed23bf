-- ===== src/Containers/SegmentTree/Folds.antt =====
-- The reference: an interval of the sequence, combined from left to right.
use kahypar.Prelude.{ℕ, zero, suc, ◌+◌, ◌-◌, ◌≤◌, ◌<◌, ◌≡◌, ◌∙◌, sym, ap, arith}
use kahypar.Prelude.Arrays.{Array}

module _ (S T : Type 0) (combine : T → T → T → T) (base : ℕ → Array S → T → T) (seq : Array S)
    (param : T) where
  -- The values at `i`, ..., `i + n`.
  unfoldable pub fold : ℕ → ℕ → T
  fold i zero = base i seq param
  fold i (suc n) = combine (base i seq param) (fold (suc i) n) param

  abbrev pub IsAssociative : Type 0
  IsAssociative =
      (x y z : T) → combine (combine x y param) z param ≡ combine x (combine y z param) param

  -- An interval splits anywhere.
  pub fold-split :
      IsAssociative
      → (i a b : ℕ) → fold i (a + suc b) ≡ combine (fold i a) (fold (i + suc a) b) param
  unfolding fold
  fold-split assoc i zero b =
      let e : 0 + suc b ≡ suc b = omega arith in
      let e' : i + 1 ≡ suc i = omega arith in
      ap (fold i) e ∙ ap (λ t. combine (base i seq param) (fold t b) param) (sym e')
  fold-split assoc i (suc a) b =
      let e : suc a + suc b ≡ suc (a + suc b) = omega arith in
      let e' : suc i + suc a ≡ i + suc (suc a) = omega arith in
      ap (fold i) e
      ∙ ap (λ t. combine (base i seq param) t param) (fold-split assoc (suc i) a b)
      ∙ ap (λ t. combine (base i seq param) (combine (fold (suc i) a) (fold t b) param) param) e'
      ∙ sym (assoc (base i seq param) (fold (suc i) a) (fold (i + suc (suc a)) b))

  -- The values at `i`, ..., `j`.
  abbrev pub range : ℕ → ℕ → T
  range i j = fold i (j - i)

  pub range-split :
      IsAssociative
      → (i m j : ℕ) → i ≤ m
      → m < j
      → range i j ≡ combine (range i m) (range (m + 1) j) param
  range-split assoc i m j h l =
      let e : j - i ≡ (m - i) + suc (j - (m + 1)) = omega arith in
      let e' : i + suc (m - i) ≡ m + 1 = omega arith in
      ap (fold i) e
      ∙ fold-split assoc i (m - i) (j - (m + 1))
      ∙ ap (λ t. combine (range i m) (fold t (j - (m + 1))) param) e'

  pub range-one : (i j : ℕ) → i ≡ j → range i j ≡ base i seq param
  unfolding fold
  range-one i j e = let z : j - i ≡ 0 = omega arith in ap (fold i) z
