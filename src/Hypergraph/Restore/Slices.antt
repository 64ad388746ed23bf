-- ===== src/Hypergraph/Restore/Slices.antt =====
-- How often a hypernode stands in a range of the incidence array.
use kahypar.Prelude.{ℕ, zero, suc, ◌+◌, ◌≤◌, ◌<◌, ◌≡◌, ◌≢◌, refl, arith, ◌==◌, if◌then◌else◌, count}
use native.Mathlib.Decide.{ℕ_discrete}
use kahypar.Prelude.Arrays.{Array, update}
use kahypar.Containers.FlagArray.{FlagArray}
use kahypar.Hypergraph.State.{slice}

abbrev pub one_if : ℕ → ℕ → ℕ
one_if x y = if x == y then 1 else 0

module _ (F : FlagArray) (x : ℕ) where
  abbrev pub count_in : Array ℕ → ℕ → ℕ → ℕ
  count_in a i n = count x (slice F a i n)

  pub count_in-cong :
      (a b : Array ℕ) (i n : ℕ)
      → ((j : ℕ) → i ≤ j → j < i + n → b j ≡ a j)
      → count_in b i n ≡ count_in a i n
  unfolding slice count
  count_in-cong a b i zero same = refl
  count_in-cong a b i (suc n) same =
      rw
        (
          same i (omega arith) (omega arith),
          count_in-cong a b (i + 1) n (λ j l h. same j (omega arith) (omega arith)),
        )
        refl

  pub count_in-suc :
      (a : Array ℕ) (i n : ℕ)
      → count_in a i (n + 1) ≡ count_in a i n + (if x == a (i + n) then 1 else 0)
  unfolding slice count
  count_in-suc a i zero = let e : i + 0 ≡ i = omega arith in rw e (omega arith)
  count_in-suc a i (suc n) =
      let e : suc n + 1 ≡ suc (n + 1) = omega arith in
      let e' : i + suc n ≡ i + 1 + n = omega arith in
      rw (e, e') (omega (arith, count_in-suc a (i + 1) n))

  pub count_in-update :
      (a : Array ℕ) (p y i n : ℕ)
      → i ≤ p
      → p < i + n
      → count_in (update a p y) i n + (if x == a p then 1 else 0)
        ≡ count_in a i n + (if x == y then 1 else 0)
  unfolding slice count
  count_in-update a p y i zero l h = absurd (omega arith)
  count_in-update a p y i (suc n) l h = elim (ℕ_discrete i p) [
    | yes e ↦
        let rest = count_in-cong a (update a p y) (i + 1) n (λ j l h. ground (arith, l, e)) in
        ground (arith, rest, e)
    | no ne ↦
        let rest = count_in-update a p y (i + 1) n (omega arith) (omega arith) in
        let same : update a p y i ≡ a i = ground (arith, ne) in rw same (omega (arith, rest))
  ]

  -- No slot holds what is not counted, and a count has a slot.
  pub count_in-zero : (a : Array ℕ) (i n j : ℕ) → count_in a i n ≡ 0 → i ≤ j → j < i + n → a j ≢ x
  unfolding slice count
  count_in-zero a i zero j none l h e = absurd (omega arith)
  count_in-zero a i (suc n) j none l h e = elim (ℕ_discrete i j) [
    | yes eq ↦ ground (arith, none, e, eq)
    | no ne ↦ count_in-zero a (i + 1) n j (ground (arith, none)) (omega arith) (omega arith) e
  ]

  pub count_in-none :
      (a : Array ℕ) (i n : ℕ) → ((j : ℕ) → i ≤ j → j < i + n → a j ≢ x) → count_in a i n ≡ 0
  unfolding slice count
  count_in-none a i zero free = refl
  count_in-none a i (suc n) free =
      let first = free i (omega arith) (omega arith) in
      let rest = count_in-none a (i + 1) n (λ j l h. free j (omega arith) (omega arith)) in
      ground (arith, first, rest)

  pub slot_of :
      (a : Array ℕ) (i n : ℕ) → 0 < count_in a i n → (p : ℕ) × (i ≤ p) × (p < i + n) × (a p ≡ x)
  unfolding slice count
  slot_of a i zero h = absurd (omega arith)
  slot_of a i (suc n) h = elim (ℕ_discrete (a i) x) [
    | yes e ↦ (i, omega arith, omega arith, e)
    | no ne ↦
        let (p, l, h', e) = slot_of a (i + 1) n (ground (arith, ne, h)) in
        (p, omega arith, omega arith, e)
  ]

  -- Two slots count twice.
  pub slot_unique :
      (a : Array ℕ) (i n p q : ℕ)
      → count_in a i n ≤ 1
      → i ≤ p
      → p < i + n
      → i ≤ q
      → q < i + n
      → a p ≡ x
      → q ≢ p
      → a q ≢ x
  slot_unique a i n p q once lp hp lq hq e ne e' =
      let b = update a p (x + 1) in
      let gone = count_in-update a p (x + 1) i n lp hp in
      count_in-zero b i n q (ground (arith, gone, once, e)) lq hq (ground (arith, ne, e'))

  pub count_in-pos : (a : Array ℕ) (i n j : ℕ) → i ≤ j → j < i + n → a j ≡ x → 0 < count_in a i n
  count_in-pos a i n j l h e = elim (ℕ_discrete (count_in a i n) 0) [
    | yes none ↦ absurd (count_in-zero a i n j none l h e)
    | no ne ↦ omega (arith, ne)
  ]
