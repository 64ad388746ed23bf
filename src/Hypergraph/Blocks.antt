-- ===== src/Hypergraph/Blocks.antt =====
-- The members that assign hypernodes to blocks: part weights, pin counts, connectivity sets, and the
-- number of cut nets at each hypernode.
pub mod Counts
pub mod Pins
pub mod Assign
pub mod CutCounts
pub mod Moves
pub mod Weights
use kahypar.Prelude.{
  ℕ, ◌+◌, ◌-◌, Bool, true, false, not, ◌&&◌, Option, none, some, List, [], ◌∷◌, ltb, ◌==◌,
  if◌then◌else◌,
}
use kahypar.Prelude.Arrays.{Array, update}
use kahypar.Prelude.Vectors.{push_back}
use kahypar.Prelude.Int.{ℤ, ◌+ℤ◌, ◌-ℤ◌}
use kahypar.Prelude.Words.{inc32, dec32}
use kahypar.Containers.ConnectivitySet
use kahypar.Containers.FlagArray.{FlagArray}
use kahypar.Hypergraph.State.{
  Hypernode, Hyperedge, PartInfo, Hypergraph, hypernode, hyperedge, set_hypernode, set_hyperedge,
  incident_edges, pins, edge_size, node_weight, offset, pin_count_in_part,
}

module _ (F : FlagArray) where
  abbrev pub set_part_info : Hypergraph F → ℕ → PartInfo → Hypergraph F
  set_part_info g id p = record g { part_info = update g.part_info id p }

  -- updatePartInfo(u, id): the first assignment of a hypernode.
  unfoldable pub enter_part : Hypergraph F → ℕ → ℕ → Hypergraph F
  enter_part g u id =
      let p = g.part_info id in
      set_part_info (set_hypernode F g u (record (hypernode F g u) { part_id = some id })) id
        (record p { weight = p.weight +ℤ node_weight F g u; size = inc32 p.size })

  -- updatePartInfo(u, from, to)
  unfoldable pub move_part : Hypergraph F → ℕ → ℕ → ℕ → Hypergraph F
  move_part g u from to =
      let g₁ = set_hypernode F g u (record (hypernode F g u) { part_id = some to }) in
      let p = g₁.part_info from in
      let g₂ =
        set_part_info g₁ from
          (record p { weight = p.weight -ℤ node_weight F g u; size = dec32 p.size }) in
      let r = g₂.part_info to in
      set_part_info g₂ to (record r { weight = r.weight +ℤ node_weight F g u; size = inc32 r.size })

  unfoldable pub decrement_pin_count_in_part : Hypergraph F → ℕ → ℕ → Hypergraph F × Bool
  decrement_pin_count_in_part g he id =
      let i = offset F g he id in
      let g₁ = record g { pins_in_part = update g.pins_in_part i (dec32 (g.pins_in_part i)) } in
      let connectivity_decreased = g₁.pins_in_part i == 0 in
      let e = hyperedge F g he in
      (
        (if connectivity_decreased
            then set_hyperedge F
                (record g₁ {
                  connectivity_sets =
                      update g.connectivity_sets he
                        (ConnectivitySet.remove (g.connectivity_sets he) id);
                })
                he (record e { connectivity = e.connectivity - 1 })
            else g₁),
        connectivity_decreased,
      )

  unfoldable pub increment_pin_count_in_part : Hypergraph F → ℕ → ℕ → Hypergraph F × Bool
  increment_pin_count_in_part g he id =
      let i = offset F g he id in
      let g₁ = record g { pins_in_part = update g.pins_in_part i (inc32 (g.pins_in_part i)) } in
      let connectivity_increased = g₁.pins_in_part i == 1 in
      let e = hyperedge F g he in
      (
        (if connectivity_increased
            then set_hyperedge F
                (record g₁ {
                  connectivity_sets =
                      update g.connectivity_sets he
                        (ConnectivitySet.add (g.connectivity_sets he) id);
                })
                he (record e { connectivity = e.connectivity + 1 })
            else g₁),
        connectivity_increased,
      )

  -- for (he : incidentEdges(hn)) incrementPinCountInPart(he, id);
  unfoldable pub increment_all : Hypergraph F → List ℕ → ℕ → Hypergraph F
  increment_all g [] id = g
  increment_all g (he ∷ hes) id = increment_all (increment_pin_count_in_part g he id).0 hes id

  unfoldable pub set_node_part : Hypergraph F → ℕ → ℕ → Hypergraph F
  set_node_part g hn id = increment_all (enter_part g hn id) (incident_edges F g hn) id

  -- The net is no longer cut: each pin loses a cut net, and one that lost its last is noted.
  unfoldable pub uncut_pins : Hypergraph F → List ℕ → List ℕ → Hypergraph F × List ℕ
  uncut_pins g [] out = (g, out)
  uncut_pins g (pin ∷ ps) out =
      let x = hypernode F g pin in
      let n = dec32 x.num_incident_cut_hes in
      uncut_pins (set_hypernode F g pin (record x { num_incident_cut_hes = n })) ps
        (if n == 0 then push_back out pin else out)

  -- The net is newly cut.
  unfoldable pub cut_pins : Hypergraph F → List ℕ → Hypergraph F
  cut_pins g [] = g
  cut_pins g (pin ∷ ps) =
      let x = hypernode F g pin in
      cut_pins
        (set_hypernode F g pin (record x { num_incident_cut_hes = inc32 x.num_incident_cut_hes }))
        ps

  -- The body of the loop of changeNodePart, for one incident net.
  unfoldable pub change_net_part : Hypergraph F → ℕ → ℕ → ℕ → List ℕ → Hypergraph F × List ℕ
  change_net_part g he from to out =
      let (g₁, no_pins_left_in_source_part) = decrement_pin_count_in_part g he from in
      let (g₂, only_one_pin_in_to_part) = increment_pin_count_in_part g₁ he to in
      if no_pins_left_in_source_part && not only_one_pin_in_to_part
      then (if pin_count_in_part F g₂ he to == edge_size F g₂ he
          then uncut_pins g₂ (pins F g₂ he) out
          else (g₂, out))
      else if not no_pins_left_in_source_part
          && only_one_pin_in_to_part
          && (pin_count_in_part F g₂ he from == dec32 (edge_size F g₂ he))
      then (cut_pins g₂ (pins F g₂ he), out)
      else (g₂, out)

  unfoldable pub change_nets_part : Hypergraph F → List ℕ → ℕ → ℕ → List ℕ → Hypergraph F × List ℕ
  change_nets_part g [] from to out = (g, out)
  change_nets_part g (he ∷ hes) from to out =
      let (g', out') = change_net_part g he from to out in change_nets_part g' hes from to out'

  -- changeNodePart; `out` is non_border_hns_to_remove. The version without it drops the second result.
  unfoldable pub change_node_part : Hypergraph F → ℕ → ℕ → ℕ → List ℕ → Hypergraph F × List ℕ
  change_node_part g hn from to out =
      change_nets_part (move_part g hn from to) (incident_edges F g hn) from to out
