-- ===== src/Hypergraph/Cut/Shares.antt =====
-- The nets that count for a hypernode, when the connectivity of one net changes.
use kahypar.Prelude.{
  ℕ, zero, suc, ◌+◌, ◌≤◌, ◌≡◌, ◌≢◌, refl, ◌∙◌, ap, Bool, ◌&&◌, List, [], ◌∷◌, arith, ltb,
  if◌then◌else◌, count,
}
use native.Mathlib.Decide.{ℕ_discrete}
use kahypar.Containers.FlagArray.{FlagArray}
use kahypar.Hypergraph.State.{Hypergraph, pins, valid_ids, connectivity}
use kahypar.Hypergraph.Shape.{SameShape, pins-SameShape}
use kahypar.Hypergraph.Marks.CutNets.{cut_pin_count}

-- Loops over the same flags visit the same ids.
pub valid_ids-cong :
    (F : FlagArray) (v w : ℕ → Bool) (id n : ℕ)
    → ((i : ℕ) → w i ≡ v i)
    → valid_ids F w id n ≡ valid_ids F v id n
unfolding valid_ids
valid_ids-cong F v w id zero same = refl
valid_ids-cong F v w id (suc n) same = rw (same id, valid_ids-cong F v w (id + 1) n same)

-- A valid id of the range is visited once, any other id never.
pub count-valid_ids :
    (F : FlagArray) (v : ℕ → Bool) (i id n : ℕ)
    → count i (valid_ids F v id n)
      ≡ (if ltb i id then 0 else if ltb i (id + n) && v i then 1 else 0)
unfolding valid_ids count
count-valid_ids F v i id zero = ground arith
count-valid_ids F v i id (suc n) = ground (arith, count-valid_ids F v i (id + 1) n)

module _ (F : FlagArray) (u : ℕ) where
  -- How often `u` is a pin of the nets in a list.
  unfoldable pub pin_total : Hypergraph F → List ℕ → ℕ
  pin_total g [] = 0
  pin_total g (he ∷ hes) = count u (pins F g he) + pin_total g hes

  abbrev share : Hypergraph F → ℕ → ℕ
  share g x = if ltb 1 (connectivity F g x) then count u (pins F g x) else 0

  module _ (g h : Hypergraph F) (x : ℕ)
      (same : (y : ℕ) → x ≢ y → connectivity F h y ≡ connectivity F g y)
      (shape : SameShape F g h) where
    same_share : (y : ℕ) → x ≢ y → share h y ≡ share g y
    same_share y ne = rw (same y ne, pins-SameShape F shape y)

    cut_pin_count-none :
        (es : List ℕ) → count x es ≡ 0 → cut_pin_count F u h es ≡ cut_pin_count F u g es
    unfolding cut_pin_count count
    cut_pin_count-none [] none = refl
    cut_pin_count-none (e ∷ es) none =
        ap (λ (t : ℕ). t + cut_pin_count F u h es) (same_share e (ground arith))
        ∙ ap (λ (t : ℕ). share g e + t) (cut_pin_count-none es (ground arith))

    pub cut_pin_count-one :
        (es : List ℕ)
        → count x es ≡ 1
        → cut_pin_count F u h es + share g x ≡ cut_pin_count F u g es + share h x
    unfolding cut_pin_count count
    cut_pin_count-one [] once = absurd (omega arith)
    cut_pin_count-one (e ∷ es) once = elim (ℕ_discrete x e) [
      | yes p ↦ omega (arith, ap (share g) p, ap (share h) p, cut_pin_count-none es (ground arith))
      | no ne ↦ omega (arith, same_share e ne, cut_pin_count-one es (ground arith))
    ]

    pub same_total : (es : List ℕ) → pin_total h es ≡ pin_total g es
    unfolding pin_total
    same_total [] = refl
    same_total (e ∷ es) = rw (pins-SameShape F shape e, same_total es)

  pub cut_pin_count-le : (g : Hypergraph F) (es : List ℕ) → cut_pin_count F u g es ≤ pin_total g es
  unfolding cut_pin_count pin_total
  cut_pin_count-le g [] = omega arith
  cut_pin_count-le g (e ∷ es) = ground (arith, cut_pin_count-le g es)

  -- A net of the list is counted, or there is room for it.
  pub share-le :
      (g : Hypergraph F) (x : ℕ) (es : List ℕ)
      → count x es ≡ 1
      → share g x ≤ cut_pin_count F u g es
        × (cut_pin_count F u g es + count u (pins F g x) ≤ pin_total g es + share g x)
  unfolding cut_pin_count pin_total count
  share-le g x [] once = absurd (omega arith)
  share-le g x (e ∷ es) once = elim (ℕ_discrete x e) [
    | yes p ↦
        let c = cut_pin_count-le g es in
        let p' = ap (share g) p in
        let q = ap (λ e. count u (pins F g e)) p in (omega (arith, p'), omega (arith, p', q, c))
    | no ne ↦
        let rest = share-le g x es (ground arith) in (omega (arith, rest.0), ground (arith, rest.1))
  ]

  pub same_nets :
      (g h : Hypergraph F)
      → h.hyperedges ≡ g.hyperedges
      → h.incidence_array ≡ g.incidence_array
      → (es : List ℕ)
      → (cut_pin_count F u h es ≡ cut_pin_count F u g es) × (pin_total h es ≡ pin_total g es)
  unfolding cut_pin_count pin_total
  same_nets g h e i [] = (refl, refl)
  same_nets g h e i (x ∷ es) =
      let rest = same_nets g h e i es in (rw (rest.0, e, i), rw (rest.1, e, i))
