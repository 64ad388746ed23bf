-- ===== src/Metrics.antt =====
-- partition/metrics.h: the objectives of a partition, and the values a refiner keeps of them.
--
-- Weights are integers without a bound. A call of exit is `none`.
use kahypar.Prelude.{ℕ, ◌-◌, Bool, Option, none, some, List, [], ◌∷◌, ltb, if◌then◌else◌}
use kahypar.Prelude.Int.{ℤ, pos, ◌+ℤ◌, ◌*ℤ◌, ◌==ℤ◌}
use kahypar.Containers.FlagArray.{FlagArray}
use kahypar.Hypergraph.State.{Hypergraph, edges, edge_weight, connectivity}
use kahypar.Options.Partitioning.{Mode, Objective}
pub mod Sums
pub mod Relations

-- The imbalance, a floating-point number that no member of the struct uses, is left out.
pub record Metrics : Type 0 where
  pub cut : ℤ
  pub km1 : ℤ

unfoldable pub update_metric : Metrics → ℤ → Mode → Objective → Option Metrics
update_metric m value Mode.direct_kway Objective.cut = some (record m { cut = value })
update_metric m value Mode.direct_kway Objective.km1 = some (record m { km1 = value })
update_metric m value Mode.direct_kway Objective.undefined = none
update_metric m value Mode.recursive_bisection objective = some (record m { cut = value })
update_metric m value Mode.undefined objective = some m

unfoldable pub delta_update_metric : Metrics → ℤ → Mode → Objective → Option Metrics
delta_update_metric m value Mode.direct_kway Objective.cut =
    some (record m { cut = m.cut +ℤ value })
delta_update_metric m value Mode.direct_kway Objective.km1 =
    some (record m { km1 = m.km1 +ℤ value })
delta_update_metric m value Mode.direct_kway Objective.undefined = none
delta_update_metric m value Mode.recursive_bisection objective =
    some (record m { cut = m.cut +ℤ value })
delta_update_metric m value Mode.undefined objective = some m

-- Without assertions an undefined mode reads the cut.
unfoldable pub get_metric : Metrics → Mode → Objective → Option ℤ
get_metric m Mode.direct_kway Objective.cut = some m.cut
get_metric m Mode.direct_kway Objective.km1 = some m.km1
get_metric m Mode.direct_kway Objective.undefined = none
get_metric m Mode.recursive_bisection objective = some m.cut
get_metric m Mode.undefined objective = some m.cut

-- The loops over nets: `acc` grows by `f he` for each.
unfoldable pub sum_over : (ℕ → ℤ) → List ℕ → ℤ → ℤ
sum_over f [] acc = acc
sum_over f (he ∷ hes) acc = sum_over f hes (acc +ℤ f he)

module _ (F : FlagArray) where
  abbrev pub cut_term : Hypergraph F → ℕ → ℤ
  cut_term g he = if ltb 1 (connectivity F g he) then edge_weight F g he else pos 0

  abbrev pub soed_term : Hypergraph F → ℕ → ℤ
  soed_term g he =
      if ltb 1 (connectivity F g he) then pos (connectivity F g he) *ℤ edge_weight F g he else pos 0

  -- max(connectivity - 1, 0) is the difference that stops at 0.
  abbrev pub km1_term : Hypergraph F → ℕ → ℤ
  km1_term g he = pos (connectivity F g he - 1) *ℤ edge_weight F g he

  unfoldable pub hyperedge_cut : Hypergraph F → ℤ
  hyperedge_cut g = sum_over (cut_term g) (edges F g) (pos 0)

  unfoldable pub soed : Hypergraph F → ℤ
  soed g = sum_over (soed_term g) (edges F g) (pos 0)

  unfoldable pub km1 : Hypergraph F → ℤ
  km1 g = sum_over (km1_term g) (edges F g) (pos 0)

  unfoldable pub objective : Hypergraph F → Objective → Option ℤ
  objective g Objective.cut = some (hyperedge_cut g)
  objective g Objective.km1 = some (km1 g)
  objective g Objective.undefined = none

  unfoldable pub check_metric : Hypergraph F → Metrics → Mode → Objective → Option Bool
  check_metric g m Mode.direct_kway Objective.cut = some (hyperedge_cut g ==ℤ m.cut)
  check_metric g m Mode.direct_kway Objective.km1 = some (km1 g ==ℤ m.km1)
  check_metric g m Mode.direct_kway Objective.undefined = none
  check_metric g m Mode.recursive_bisection obj = some (hyperedge_cut g ==ℤ m.cut)
  check_metric g m Mode.undefined obj = none

  unfoldable pub correct_metric : Hypergraph F → Objective → Option ℤ
  correct_metric g Objective.km1 = some (km1 g)
  correct_metric g Objective.cut = some (hyperedge_cut g)
  correct_metric g Objective.undefined = none
