-- ===== src/Metrics/Relations.antt =====
-- How the objectives relate, and what the kept values do.
use kahypar.Prelude.{ℕ, suc, ◌-◌, ◌≡◌, ◌≢◌, refl, ◌∙◌, ap, List, [], ◌∷◌, arith}
use mathlib.Core.Option
use kahypar.Prelude.Int.{ℤ, pos, ◌+ℤ◌, ◌*ℤ◌, +ℤ_parts, eq_of_parts}
use kahypar.Containers.FlagArray.{FlagArray}
use kahypar.Hypergraph.State.{Hypergraph, edges, connectivity, edge_weight}
use kahypar.Options.Partitioning.{Mode, Objective}
use kahypar.Metrics.{
  Metrics, delta_update_metric, get_metric, sum_over, hyperedge_cut, soed, km1, cut_term, soed_term,
  km1_term,
}

-- n * w is one w and the rest.
pub mul-split : (n : ℕ) (w : ℤ) → pos (suc n) *ℤ w ≡ w +ℤ pos n *ℤ w
unfolding ◌*ℤ◌ ◌+ℤ◌
mul-split n w = ground arith

module _ (F : FlagArray) (g : Hypergraph F) where
  soed_term_lem : (he : ℕ) → soed_term F g he ≡ cut_term F g he +ℤ km1_term F g he
  unfolding ◌*ℤ◌ ◌+ℤ◌
  soed_term_lem he = ground (arith, mul-split (connectivity F g he - 1) (edge_weight F g he))

  sum_over-sum :
      (es : List ℕ) (a b : ℤ)
      → sum_over (soed_term F g) es (a +ℤ b)
        ≡ sum_over (cut_term F g) es a +ℤ sum_over (km1_term F g) es b
  unfolding sum_over
  sum_over-sum [] a b = refl
  sum_over-sum (e ∷ es) a b =
      let c = cut_term F g e in
      let m = km1_term F g e in
      ap (λ t. sum_over (soed_term F g) es (a +ℤ b +ℤ t)) (soed_term_lem e)
      ∙ ap (sum_over (soed_term F g) es)
          (eq_of_parts (a +ℤ b +ℤ (c +ℤ m)) (a +ℤ c +ℤ (b +ℤ m)) (omega (arith, +ℤ_parts)))
      ∙ sum_over-sum es (a +ℤ c) (b +ℤ m)

  -- The sum of external degrees is the cut and the connectivity metric together.
  pub soed-cut-km1 : soed F g ≡ hyperedge_cut F g +ℤ km1 F g
  unfolding soed hyperedge_cut km1
  soed-cut-km1 =
      ap (sum_over (soed_term F g) (edges F g))
        (eq_of_parts (pos 0) (pos 0 +ℤ pos 0) (omega (arith, +ℤ_parts)))
      ∙ sum_over-sum (edges F g) (pos 0) (pos 0)

-- In the two modes there are, a kept value that is read after a change by `delta` is the value before,
-- `delta` added, and the program exits in the one case where it does for the read alone.
pub get_metric-delta_update_metric :
    (m : Metrics) (delta : ℤ) (mode : Mode) (obj : Objective)
    → mode ≢ Mode.undefined
    → Option.bind (delta_update_metric m delta mode obj) (λ m'. get_metric m' mode obj)
      ≡ Option.map (λ x. x +ℤ delta) (get_metric m mode obj)
unfolding delta_update_metric get_metric Option.bind
get_metric-delta_update_metric m delta Mode.direct_kway Objective.cut known = refl
get_metric-delta_update_metric m delta Mode.direct_kway Objective.km1 known = refl
get_metric-delta_update_metric m delta Mode.direct_kway Objective.undefined known = refl
get_metric-delta_update_metric m delta Mode.recursive_bisection obj known = refl
get_metric-delta_update_metric m delta Mode.undefined obj known = absurd (known refl)
