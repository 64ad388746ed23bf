-- ===== src/Refinement/Gains/Initial.antt =====
-- initializeGainCacheFor of kway_fm_km1_refiner.h: the gains of all moves of a hypernode at once.
use kahypar.Prelude.{
  ℕ, ◌≤◌, ◌<◌, ◌≡◌, refl, ◌∙◌, sym, ap, Bool, true, false, Option, none, some, List, [], ◌∷◌, ◌==◌,
  not, ltb, arith, if◌then◌else◌, count,
}
use mathlib.Core.Path.{subst}
use native.Mathlib.Decide.{ℕ_discrete}
use kahypar.Prelude.Int.{ℤ, pos, ◌+ℤ◌, ◌-ℤ◌, +ℤ_parts, -ℤ_parts, eq_of_parts}
use kahypar.Containers.FlagArray.{FlagArray}
use kahypar.Containers.SparseMap.{SparseMap, modify, clear}
use kahypar.Containers.SparseMap.Lookup.{
  IsValid, lookup, modify-IsValid, clear-IsValid, lookup-modify, lookup-clear,
}
use kahypar.Hypergraph.State.{Hypergraph, incident_edges, part_id, pin_count_in_part, edge_weight}
use kahypar.Hypergraph.Blocks.Counts.{IsLinked}
use kahypar.Metrics.{sum_over}
use kahypar.Refinement.Gains.{gain_induced_by_hypergraph, gain_induced_by_hyperedge}

-- for (part : connectivitySet(he)) _tmp_gains[part] += he_weight;
unfoldable pub add_weights : SparseMap ℤ → List ℕ → ℤ → SparseMap ℤ
add_weights tmp [] w = tmp
add_weights tmp (part ∷ parts) w = add_weights (modify (pos 0) (λ x. x +ℤ w) tmp part) parts w

module _ (F : FlagArray) where
  abbrev pub inner_weight : Hypergraph F → ℕ → ℕ → ℤ
  inner_weight g source_part he =
      if not (pin_count_in_part F g he source_part == 1) then edge_weight F g he else pos 0

  -- The loop over the nets: `_tmp_gains` and `internal`.
  unfoldable pub collect_gains : Hypergraph F → ℕ → List ℕ → SparseMap ℤ → ℤ → SparseMap ℤ × ℤ
  collect_gains g source_part [] tmp internal = (tmp, internal)
  collect_gains g source_part (he ∷ hes) tmp internal =
      collect_gains g source_part hes
        (add_weights tmp (g.connectivity_sets he).contained_parts (edge_weight F g he))
        (internal +ℤ inner_weight g source_part he)

-- An absent key counts as 0.
abbrev pub value_at : Option ℤ → ℤ
value_at none = pos 0
value_at (some x) = x

add_zero : (x : ℤ) → x +ℤ pos 0 ≡ x
add_zero x = eq_of_parts _ _ (omega (arith, +ℤ_parts))

add_weights-IsValid :
    (k : ℕ) (tmp : SparseMap ℤ) (parts : List ℕ) (w : ℤ)
    → IsValid k tmp
    → ((b : ℕ) → 0 < count b parts → b < k)
    → IsValid k (add_weights tmp parts w)
unfolding add_weights count
add_weights-IsValid k tmp [] w v below = v
add_weights-IsValid k tmp (p ∷ ps) w v below =
    add_weights-IsValid k (modify (pos 0) (λ x. x +ℤ w) tmp p) ps w
      (modify-IsValid k (pos 0) (λ x. x +ℤ w) tmp p v (below p (ground arith)))
      (λ b l. below b (ground (arith, l)))

-- Each block of the set gains the weight, where none is listed twice.
value-add_weights :
    (k : ℕ) (tmp : SparseMap ℤ) (parts : List ℕ) (w : ℤ) (b : ℕ)
    → IsValid k tmp
    → ((b : ℕ) → 0 < count b parts → b < k)
    → count b parts ≤ 1
    → value_at (lookup (add_weights tmp parts w) b)
      ≡ value_at (lookup tmp b) +ℤ (if ltb 0 (count b parts) then w else pos 0)
unfolding add_weights count
value-add_weights k tmp [] w b v below once = sym (add_zero (value_at (lookup tmp b)))
value-add_weights k tmp (p ∷ ps) w b v below once =
    let tmp' = modify (pos 0) (λ x. x +ℤ w) tmp p in
    let v' = modify-IsValid k (pos 0) (λ x. x +ℤ w) tmp p v (below p (ground arith)) in
    let rest =
      value-add_weights k tmp' ps w b v' (λ c l. below c (ground (arith, l)))
        (omega (arith, once)) in
    let m = lookup-modify k (pos 0) (λ x. x +ℤ w) tmp p b v in
    elim (ℕ_discrete p b) [
      | yes e ↦
          let here : value_at (lookup tmp' b) ≡ value_at (lookup tmp b) +ℤ w =
            subst (λ j. value_at (lookup tmp' j) ≡ value_at (lookup tmp j) +ℤ w) e
              (ground (arith, lookup-modify k (pos 0) (λ x. x +ℤ w) tmp p p v)) in
          let last : count b ps ≡ 0 = ground (arith, once, e) in
          ground (arith, rest, here, last, e, add_zero (value_at (lookup tmp b) +ℤ w))
      | no ne ↦
          let here : lookup tmp' b ≡ lookup tmp b = ground (arith, m, ne) in
          rest ∙ rw here (ground (arith, ne))
    ]

module _ (F : FlagArray) (g : Hypergraph F) (source b : ℕ) where
  abbrev outer_weight : ℕ → ℤ
  outer_weight he = if ltb 0 (pin_count_in_part F g he b) then edge_weight F g he else pos 0

  collected :
      (hes : List ℕ) (tmp : SparseMap ℤ) (internal : ℤ)
      → b < g.k
      → IsValid g.k tmp
      → ((he : ℕ) → 0 < count he hes → IsLinked F g he)
      → let r = collect_gains F g source hes tmp internal in
        (value_at (lookup r.0 b) ≡ sum_over outer_weight hes (value_at (lookup tmp b)))
        × (r.1 ≡ sum_over (inner_weight F g source) hes internal)
  unfolding collect_gains sum_over count
  collected [] tmp internal inside v linked = (refl, refl)
  collected (he ∷ hes) tmp internal inside v linked =
      let l = linked he (ground arith) in
      let parts = (g.connectivity_sets he).contained_parts in
      let below : (c : ℕ) → 0 < count c parts → c < g.k = λ c p. ground (arith, l.listed c) in
      let tmp' = add_weights tmp parts (edge_weight F g he) in
      let step =
        value-add_weights g.k tmp parts (edge_weight F g he) b v below
          (ground (arith, l.listed b)) in
      let rest =
        collected hes tmp' (internal +ℤ inner_weight F g source he) inside
          (add_weights-IsValid g.k tmp parts (edge_weight F g he) v below)
          (λ x p. linked x (ground (arith, p))) in
      let here : value_at (lookup tmp' b) ≡ value_at (lookup tmp b) +ℤ outer_weight he =
        ground (arith, step, l.listed b) in
      (rest.0 ∙ ap (sum_over outer_weight hes) here, rest.1)

-- The map stays valid.
pub collected-IsValid :
    (F : FlagArray) (g : Hypergraph F) (source : ℕ) (hes : List ℕ) (tmp : SparseMap ℤ)
    (internal : ℤ)
    → IsValid g.k tmp
    → ((he : ℕ) → 0 < count he hes → IsLinked F g he)
    → IsValid g.k (collect_gains F g source hes tmp internal).0
unfolding collect_gains count
collected-IsValid F g source [] tmp internal v linked = v
collected-IsValid F g source (he ∷ hes) tmp internal v linked =
    let l = linked he (ground arith) in
    let parts = (g.connectivity_sets he).contained_parts in
    collected-IsValid F g source hes (add_weights tmp parts (edge_weight F g he)) _
      (add_weights-IsValid g.k tmp parts (edge_weight F g he) v (λ c p. ground (arith, l.listed c)))
      (λ x p. linked x (ground (arith, p)))

sum_over-difference :
    (p q d : ℕ → ℤ) (es : List ℕ) (a b c : ℤ)
    → ((e : ℕ) → d e ≡ p e -ℤ q e)
    → c ≡ a -ℤ b
    → sum_over p es a -ℤ sum_over q es b ≡ sum_over d es c
unfolding sum_over
sum_over-difference p q d [] a b c same e = sym e
sum_over-difference p q d (x ∷ xs) a b c same e =
    sum_over-difference p q d xs (a +ℤ p x) (b +ℤ q x) (c +ℤ d x) same
      (rw (e, same x) (eq_of_parts _ _ (omega (arith, +ℤ_parts, -ℤ_parts))))

swap_tests :
    (w : ℤ) (x y : Bool)
    → (if x then w else pos 0) -ℤ (if y then w else pos 0)
      ≡ (if not y then w else pos 0) -ℤ (if not x then w else pos 0)
swap_tests w true true = eq_of_parts _ _ (omega (arith, -ℤ_parts))
swap_tests w true false = eq_of_parts _ _ (omega (arith, -ℤ_parts))
swap_tests w false true = eq_of_parts _ _ (omega (arith, -ℤ_parts))
swap_tests w false false = eq_of_parts _ _ (omega (arith, -ℤ_parts))

module _ (F : FlagArray) where
  -- One net: what it adds to the block that is entered, less what it holds in the block that is left.
  net_gain :
      (g : Hypergraph F) (source b he : ℕ)
      → gain_induced_by_hyperedge F g source b he
        ≡ outer_weight F g source b he -ℤ inner_weight F g source he
  unfolding gain_induced_by_hyperedge
  net_gain g source b he =
      let n = pin_count_in_part F g he b in
      let z : ltb 0 n ≡ not (n == 0) = ground arith in
      rw z (swap_tests (edge_weight F g he) (pin_count_in_part F g he source == 1) (n == 0))

  -- Where the connectivity sets of the nets of `hn` are exact and list blocks below k, `hn` is in a block, and
  -- the map of gains was made for k keys: after the loop of initializeGainCacheFor, for each block below
  -- k, the value collected at the block (0 where there is none) less the internal weight is the gain
  -- that the hypergraph induces for moving `hn` there.
  pub collect_gains-gain_induced_by_hypergraph :
      (g : Hypergraph F) (hn from b : ℕ) (tmp_gains : SparseMap ℤ)
      → part_id F g hn ≡ some from
      → b < g.k
      → ((he : ℕ) → 0 < count he (incident_edges F g hn) → IsLinked F g he)
      → let r = collect_gains F g from (incident_edges F g hn) (clear tmp_gains) (pos 0) in
        some (value_at (lookup r.0 b) -ℤ r.1) ≡ gain_induced_by_hypergraph F g hn b
  unfolding gain_induced_by_hypergraph
  collect_gains-gain_induced_by_hypergraph g hn from b tmp_gains old inside linked =
      let hes = incident_edges F g hn in
      let c =
        collected F g from b hes (clear tmp_gains) (pos 0) inside (clear-IsValid g.k tmp_gains)
          linked in
      let none_yet : value_at (lookup (clear tmp_gains) b) ≡ pos 0 =
        ap value_at (lookup-clear tmp_gains b) in
      let outer = c.0 ∙ ap (sum_over (outer_weight F g from b) hes) none_yet in
      rw (gain_induced_by_hypergraph, old)
        (ap some (
          rw (outer, c.1)
            (sum_over-difference (outer_weight F g from b) (inner_weight F g from)
              (gain_induced_by_hyperedge F g from b) hes (pos 0) (pos 0) (pos 0) (net_gain g from b)
              (eq_of_parts _ _ (omega (arith, -ℤ_parts))))))
