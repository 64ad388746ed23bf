-- ===== src/Prelude/NatSet.antt =====
-- std::set of unsigned numbers, as a list without duplicates.
use kahypar.Prelude.{
  ℕ, ◌-◌, ◌≤◌, ◌<◌, ◌≡◌, Option, none, some, List, [], ◌∷◌, arith, ltb, ◌==◌, if◌then◌else◌, count,
}
use kahypar.Prelude.Vectors.{elem, elem-count}

unfoldable pub insert : ℕ → List ℕ → List ℕ
insert a xs = if elem a xs then xs else a ∷ xs

unfoldable pub erase : ℕ → List ℕ → List ℕ
erase a [] = []
erase a (x ∷ xs) = if x == a then xs else x ∷ erase a xs

-- *rbegin(): the largest element; `none` stands for a read of an empty set.
unfoldable pub largest : List ℕ → Option ℕ
largest [] = none
largest (x ∷ xs) = elim (largest xs) [ none ↦ some x | some y ↦ some (if ltb x y then y else x) ]

pub count-insert :
    (a x : ℕ) (xs : List ℕ)
    → count a (insert x xs)
      ≡ (if a == x then (if ltb 0 (count a xs) then count a xs else 1) else count a xs)
unfolding insert count
count-insert a x xs = ground (arith, elem-count x xs)

pub count-erase :
    (a x : ℕ) (xs : List ℕ) → count a (erase x xs) ≡ (if a == x then count a xs - 1 else count a xs)
unfolding erase count
count-erase a x [] = ground arith
count-erase a x (y ∷ ys) = ground (arith, count-erase a x ys)

-- `a` is at most the optional number.
abbrev pub Covers : Option ℕ → ℕ → Type 0
Covers none a = ⊥
Covers (some m) a = a ≤ m

-- The largest element bounds the others, and is one of them.
pub largest-Covers : (xs : List ℕ) (a : ℕ) → 0 < count a xs → Covers (largest xs) a
unfolding largest count
largest-Covers [] a h = absurd (omega arith)
largest-Covers (x ∷ xs) a h = ground (arith, largest-Covers xs a)

abbrev pub Occurs : List ℕ → Option ℕ → Type 0
Occurs xs none = Unit
Occurs xs (some m) = 0 < count m xs

pub largest-Occurs : (xs : List ℕ) → Occurs xs (largest xs)
unfolding largest count
largest-Occurs [] = tt
largest-Occurs (x ∷ xs) = ground (arith, largest-Occurs xs)
