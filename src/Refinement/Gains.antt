-- ===== src/Refinement/Gains.antt =====
-- The gain of a move as the refiners compute it from the hypergraph: kway_fm_km1_refiner.h,
-- kway_fm_cut_refiner.h and 2way_fm_refiner.h of partition/refinement. A hypernode without a block,
-- whose gain the source does not define, has none.
use kahypar.Prelude.{ℕ, ◌-◌, Bool, Option, none, some, List, ◌==◌, ◌&&◌, if◌then◌else◌}
use kahypar.Prelude.Int.{ℤ, pos, ◌+ℤ◌, ◌-ℤ◌}
use kahypar.Prelude.Words.{dec32}
use kahypar.Containers.FlagArray.{FlagArray}
use kahypar.Hypergraph.State.{
  Hypergraph, incident_edges, part_id, pin_count_in_part, connectivity, edge_size, edge_weight,
}
use kahypar.Metrics.{sum_over}
pub mod Loop
pub mod Km1
pub mod Cut
pub mod TwoWay
pub mod Initial
pub mod Entries

module _ (F : FlagArray) where
  -- The connectivity metric: one net, of a hypernode in block `from`.
  unfoldable pub gain_induced_by_hyperedge : Hypergraph F → ℕ → ℕ → ℕ → ℤ
  gain_induced_by_hyperedge g from target_part he =
      let gain = if pin_count_in_part F g he from == 1 then edge_weight F g he else pos 0 in
      gain -ℤ (if pin_count_in_part F g he target_part == 0 then edge_weight F g he else pos 0)

  unfoldable pub gain_induced_by_hypergraph : Hypergraph F → ℕ → ℕ → Option ℤ
  gain_induced_by_hypergraph g hn target_part = elim (part_id F g hn) [
    | none ↦ none
    | some from ↦
        some
          (sum_over (gain_induced_by_hyperedge g from target_part) (incident_edges F g hn) (pos 0))
  ]

  -- The cut: what the loop over the nets adds for one net.
  unfoldable pub cut_gain : Hypergraph F → ℕ → ℕ → ℕ → ℤ
  cut_gain g from target_part he =
      if connectivity F g he == 1
      then pos 0 -ℤ edge_weight F g he
      else if (pin_count_in_part F g he from == 1)
          && (pin_count_in_part F g he target_part == dec32 (edge_size F g he))
      then edge_weight F g he
      else pos 0

  unfoldable pub cut_gain_induced_by_hypergraph : Hypergraph F → ℕ → ℕ → Option ℤ
  cut_gain_induced_by_hypergraph g hn target_part = elim (part_id F g hn) [
    | none ↦ none
    | some from ↦ some (sum_over (cut_gain g from target_part) (incident_edges F g hn) (pos 0))
  ]

  -- partID(hn) ^ 1, for the blocks 0 and 1.
  unfoldable pub other_block : ℕ → ℕ
  other_block b = if b == 0 then 1 else 0

  -- Two blocks: what the loop adds for one net.
  unfoldable pub two_way_gain : Hypergraph F → ℕ → ℕ → ℤ
  two_way_gain g from he =
      let leave =
        if pin_count_in_part F g he (other_block from) == 0
        then pos 0 -ℤ edge_weight F g he
        else pos 0 in
      leave +ℤ (if pin_count_in_part F g he from == 1 then edge_weight F g he else pos 0)

  unfoldable pub compute_gain : Hypergraph F → ℕ → Option ℤ
  compute_gain g hn = elim (part_id F g hn) [
    | none ↦ none
    | some from ↦ some (sum_over (two_way_gain g from) (incident_edges F g hn) (pos 0))
  ]
