-- ===== src/Hypergraph/Removal.antt =====
-- removeNode, removeEdge and the two versions of restoreEdge.
use kahypar.Prelude.{
  ℕ, zero, suc, ◌+◌, ◌-◌, Bool, true, false, Option, none, some, List, [], ◌∷◌, ltb, ◌==◌,
  if◌then◌else◌, length,
}
use kahypar.Prelude.Arrays.{Array, update}
use kahypar.Prelude.Vectors.{push_back, pop_back, swap_at, find_from}
use kahypar.Prelude.Words.{inc32, dec32}
use kahypar.Containers.ConnectivitySet
use kahypar.Containers.FlagArray.{FlagArray}
use kahypar.Hypergraph.State.{
  Hypergraph, hypernode, hyperedge, set_hypernode, set_hyperedge, incident_edges,
  first_invalid_entry, part_id, pins, connectivity, offset, invalid_count,
}
use kahypar.Hypergraph.Blocks.{decrement_pin_count_in_part, increment_pin_count_in_part}

-- The first slot from `i` on that holds `x`; `fuel` is the number of slots after `i`.
unfoldable pub first_slot_of : ℕ → Array ℕ → ℕ → ℕ → ℕ
first_slot_of zero a x i = i
first_slot_of (suc fuel) a x i =
    let rest = first_slot_of fuel a x (i + 1) in if a i == x then i else rest

module _ (F : FlagArray) where
  abbrev pub less_pin : Hypergraph F → ℕ → Option ℕ → Hypergraph F
  less_pin g he none = g
  less_pin g he (some b) = (decrement_pin_count_in_part F g he b).0

  abbrev pub more_pin : Hypergraph F → ℕ → Option ℕ → Hypergraph F
  more_pin g he none = g
  more_pin g he (some b) = (increment_pin_count_in_part F g he b).0

  -- removeIncidence for the pins of a net.
  unfoldable pub remove_pin_from_hyperedge : Hypergraph F → ℕ → ℕ → Hypergraph F
  remove_pin_from_hyperedge g pin he =
      let e = hyperedge F g he in
      let a = g.incidence_array in
      let slot = first_slot_of (e.size - 1) a pin e.first in
      let last_entry = first_invalid_entry F g he - 1 in
      set_hyperedge F
        (record g { incidence_array = update (update a slot (a last_entry)) last_entry (a slot) })
        he (record e { size = dec32 e.size })

  unfoldable pub remove_pins : Hypergraph F → ℕ → List ℕ → Hypergraph F
  remove_pins g u [] = g
  remove_pins g u (e ∷ es) =
      let h = less_pin (remove_pin_from_hyperedge g u e) e (part_id F g u) in
      remove_pins (record h { current_num_pins = dec32 h.current_num_pins }) u es

  unfoldable pub remove_node : Hypergraph F → ℕ → Hypergraph F
  remove_node g u =
      let h = remove_pins g u (incident_edges F g u) in
      record (set_hypernode F h u (record (hypernode F h u) { valid = false })) {
        current_num_hypernodes = dec32 h.current_num_hypernodes;
      }

  -- removeIncidentEdgeFromHypernode
  unfoldable pub remove_incident_edge : ℕ → List ℕ → List ℕ
  remove_incident_edge he nets = pop_back (swap_at nets (find_from he nets 0) (length nets - 1))

  unfoldable pub leave_net : Hypergraph F → ℕ → List ℕ → Hypergraph F
  leave_net g he [] = g
  leave_net g he (pin ∷ ps) =
      let x = hypernode F g pin in
      let h =
        set_hypernode F g pin
          (record x { incident_nets = remove_incident_edge he x.incident_nets }) in
      leave_net (record h { current_num_pins = dec32 h.current_num_pins }) he ps

  -- for (part = 0; part < n; ++part) _pins_in_part[he * _k + part] = v
  unfoldable pub fill_pin_counts : ℕ → Hypergraph F → ℕ → ℕ → Hypergraph F
  fill_pin_counts zero g he v = g
  fill_pin_counts (suc n) g he v =
      let h = fill_pin_counts n g he v in
      record h { pins_in_part = update h.pins_in_part (offset F h he n) v }

  unfoldable pub invalidate_partition_pin_counts : Hypergraph F → ℕ → Hypergraph F
  invalidate_partition_pin_counts g he =
      let h = fill_pin_counts g.k g he invalid_count in
      set_hyperedge F
        (record h {
          connectivity_sets =
              update h.connectivity_sets he (ConnectivitySet.clear (h.connectivity_sets he));
        })
        he (record (hyperedge F h he) { connectivity = 0 })

  unfoldable pub reset_partition_pin_counts : Hypergraph F → ℕ → Hypergraph F
  reset_partition_pin_counts g he = fill_pin_counts g.k g he 0

  unfoldable pub remove_edge : Hypergraph F → ℕ → Hypergraph F
  remove_edge g he =
      let h = leave_net g he (pins F g he) in
      let h' =
        invalidate_partition_pin_counts
          (set_hyperedge F h he (record (hyperedge F h he) { valid = false })) he in
      record h' { current_num_hyperedges = dec32 h'.current_num_hyperedges }

  unfoldable pub enable_edge : Hypergraph F → ℕ → Hypergraph F
  enable_edge g e = record (set_hyperedge F g e (record (hyperedge F g e) { valid = true })) {
    current_num_hyperedges = inc32 g.current_num_hyperedges;
  }

  -- The loop of restoreEdge; for a parallel net, each pin gains a cut net too where the
  -- representative is cut.
  unfoldable pub join_net : Option ℕ → Hypergraph F → ℕ → List ℕ → Hypergraph F
  join_net old_representative g he [] = g
  join_net old_representative g he (pin ∷ ps) =
      let x = hypernode F g pin in
      let h =
        more_pin (set_hypernode F g pin (record x { incident_nets = push_back x.incident_nets he }))
          he x.part_id in
      let cut : Bool = elim old_representative [
        | none ↦ false
        | some r ↦ ltb 1 (connectivity F h r)
      ] in
      let y = hypernode F h pin in
      let n = y.num_incident_cut_hes in
      let h' =
        set_hypernode F h pin (record y { num_incident_cut_hes = if cut then inc32 n else n }) in
      join_net old_representative (record h' { current_num_pins = inc32 h'.current_num_pins }) he ps

  -- Both versions of restoreEdge, without and with the representative.
  unfoldable pub restore_edge : Option ℕ → Hypergraph F → ℕ → Hypergraph F
  restore_edge old_representative g he =
      let h = reset_partition_pin_counts (enable_edge g he) he in
      join_net old_representative h he (pins F h he)
