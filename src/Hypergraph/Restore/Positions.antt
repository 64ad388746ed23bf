-- ===== src/Hypergraph/Restore/Positions.antt =====
-- Positions in the nets of a hypernode, and the slot that uncontract looks for.
use kahypar.Prelude.{
  ℕ, zero, suc, ◌+◌, ◌-◌, ◌≤◌, ◌<◌, ◌≡◌, ◌≢◌, refl, ◌∙◌, ap, ◌==◌, arith, count, length,
  if◌then◌else◌, List, [], ◌∷◌, drop,
}
use native.Mathlib.Decide.{ℕ_discrete}
use kahypar.Prelude.Arrays.{Array}
use kahypar.Prelude.Vectors.{
  get, back, pop_back, swap_at, count-pop_back, count-swap_at, get-swap_at, length-swap_at,
  length-pop_back,
}
use kahypar.Hypergraph.Uncontraction.{last_slot_of}

-- The entry at position `i` is exchanged with the last, which goes.
abbrev pub removed : List ℕ → ℕ → List ℕ
removed xs i = pop_back (swap_at xs i (length xs - 1))

pub count-removed :
    (a : ℕ) (xs : List ℕ) (i : ℕ)
    → i < length xs
    → count a (removed xs i) + (if a == get xs i then 1 else 0) ≡ count a xs
count-removed a xs i h =
    let l = length xs - 1 in
    let b : back (swap_at xs i l) ≡ get xs i =
      rw (length-swap_at xs i l) (get-swap_at xs i l l h (omega arith) ∙ ground arith) in
    let c = count-pop_back a (swap_at xs i l) (rw (length-swap_at xs i l) (omega arith)) in
    let d = count-swap_at xs i l a h (omega arith) in rw b at c ∙ d

pub length-removed : (xs : List ℕ) (i : ℕ) → length (removed xs i) ≡ length xs - 1
length-removed xs i =
    length-pop_back (swap_at xs i (length xs - 1))
    ∙ ap (λ (n : ℕ). n - 1) (length-swap_at xs i (length xs - 1))

pop_back-cons : (y : ℕ) (w : List ℕ) → 0 < length w → pop_back (y ∷ w) ≡ y ∷ pop_back w
unfolding pop_back
pop_back-cons y [] h = absurd (omega arith)
pop_back-cons y (z ∷ zs) h = refl

removed-cons :
    (y z : ℕ) (zs : List ℕ) (i : ℕ) → removed (y ∷ z ∷ zs) (suc i) ≡ y ∷ removed (z ∷ zs) i
unfolding swap_at
removed-cons y z zs i =
    let e : length (y ∷ z ∷ zs) - 1 ≡ suc (length zs) = omega arith in
    let e' : length (z ∷ zs) - 1 ≡ length zs = omega arith in
    rw (e, e')
      (pop_back-cons y (swap_at (z ∷ zs) i (length zs))
        (rw (length-swap_at (z ∷ zs) i (length zs)) (omega arith)))

-- What is left to visit loses the entry alone.
pub count-drop-removed :
    (a : ℕ) (xs : List ℕ) (i : ℕ)
    → i < length xs
    → count a (drop i (removed xs i)) + (if a == get xs i then 1 else 0) ≡ count a (drop i xs)
unfolding count
count-drop-removed a xs zero h = count-removed a xs zero h
count-drop-removed a [] (suc i) h = absurd (omega arith)
count-drop-removed a (y ∷ []) (suc i) h = absurd (omega arith)
count-drop-removed a (y ∷ z ∷ zs) (suc i) h =
    rw (removed-cons y z zs i) (count-drop-removed a (z ∷ zs) i (omega arith))

pub count-drop-suc :
    (a : ℕ) (xs : List ℕ) (i : ℕ)
    → i < length xs
    → (if a == get xs i then 1 else 0) + count a (drop (suc i) xs) ≡ count a (drop i xs)
unfolding count
count-drop-suc a [] i h = absurd (omega arith)
count-drop-suc a (x ∷ xs) zero h = refl
count-drop-suc a (x ∷ xs) (suc i) h = count-drop-suc a xs i (omega arith)

pub drop-all : (n : ℕ) (xs : List ℕ) → length xs ≤ n → drop n xs ≡ []
drop-all zero [] h = refl
drop-all zero (x ∷ xs) h = absurd (omega arith)
drop-all (suc n) [] h = refl
drop-all (suc n) (x ∷ xs) h = drop-all n xs (omega arith)

-- The search finds a slot of `u` where there is one.
pub last_slot_of_lem :
    (fuel : ℕ) (a : Array ℕ) (u i j : ℕ)
    → j ≤ i
    → i ≤ j + fuel
    → a j ≡ u
    → (j ≤ last_slot_of fuel a u i)
      × (last_slot_of fuel a u i ≤ i)
      × (a (last_slot_of fuel a u i) ≡ u)
unfolding last_slot_of
last_slot_of_lem zero a u i j low high at_j =
    let e : i ≡ j = omega arith in (omega arith, omega arith, ap a e ∙ at_j)
last_slot_of_lem (suc fuel) a u i j low high at_j = elim (ℕ_discrete (a i) u) [
  | yes e ↦ ground (arith, e)
  | no ne ↦
      let apart : i ≢ j = λ q. ne (ap a q ∙ at_j) in
      let rest = last_slot_of_lem fuel a u (i - 1) j (omega (arith, apart)) (omega arith) at_j in
      ground (arith, ne, rest)
]
