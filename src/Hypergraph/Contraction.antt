-- ===== src/Hypergraph/Contraction.antt =====
-- contract, and uncontract with the memento it returned. Nets contain each pin once, as the program
-- assumes throughout.
pub mod Slots
pub mod Nets
use kahypar.Prelude.{
  ℕ, zero, suc, ◌+◌, ◌-◌, ◌%◌, ◌^◌, Bool, true, false, not, ◌&&◌, Option, none, some, List, [], ◌∷◌,
  ltb, ◌==◌, if◌then◌else◌, length,
}
use kahypar.Prelude.Arrays.{Array, update}
use kahypar.Prelude.Vectors.{get, push_back, pop_back, swap_at}
use kahypar.Prelude.Int.{ℤ, ◌+ℤ◌, ◌-ℤ◌}
use kahypar.Prelude.Words.{inc32, dec32}
use kahypar.Containers.SparseSet
use kahypar.Containers.FlagArray.{FlagArray}
use kahypar.Hypergraph.State.{
  Hypernode, Hyperedge, Memento, PartInfo, Hypergraph, hypernode, hyperedge, set_hypernode,
  set_hyperedge, incident_edges, first_invalid_entry, edge_size, part_id, connectivity,
  is_fixed_vertex, fixed_vertex_part_id_of,
}
use kahypar.Hypergraph.Blocks.{
  decrement_pin_count_in_part, increment_pin_count_in_part, set_part_info,
}

-- std::swap(a[i], a[j])
abbrev pub swap_slots : Array ℕ → ℕ → ℕ → Array ℕ
swap_slots a i j = update (update a i (a j)) j (a i)

-- The loop over the slots of one net: `v` goes to the last slot, which is looked at again when it is
-- swapped in, and the slot of `u` is remembered. Each round either advances or removes a `v` from
-- `pin_iter`; the fuel bounds both.
unfoldable pub scan_pins : ℕ → Array ℕ → ℕ → ℕ → ℕ → ℕ → ℕ → Array ℕ × ℕ
scan_pins zero a u v pin_iter last_pin_slot slot_of_u = (a, slot_of_u)
scan_pins (suc fuel) a u v pin_iter last_pin_slot slot_of_u =
    let again =
      scan_pins fuel (swap_slots a pin_iter last_pin_slot) u v pin_iter last_pin_slot slot_of_u in
    let found = scan_pins fuel a u v (pin_iter + 1) last_pin_slot pin_iter in
    let next = scan_pins fuel a u v (pin_iter + 1) last_pin_slot slot_of_u in
    if pin_iter == last_pin_slot
    then (a, slot_of_u)
    else if a pin_iter == v
    then again
    else if a pin_iter == u
    then found
    else next

-- math::hash of the kahypar-resources submodule is the parameter `hash`.
module _ (F : FlagArray) (hash : ℕ → ℕ) where
  -- size_t arithmetic
  abbrev pub size_t_mod : ℕ
  size_t_mod = 2 ^ 64

  abbrev pub sub_hash : ℕ → ℕ → ℕ
  sub_hash h x = (h + size_t_mod - hash x % size_t_mod) % size_t_mod

  abbrev pub add_hash : ℕ → ℕ → ℕ
  add_hash h x = (h + hash x) % size_t_mod

  abbrev pub pin_count_down : Hypergraph F → ℕ → Option ℕ → Hypergraph F
  pin_count_down g he none = g
  pin_count_down g he (some b) = (decrement_pin_count_in_part F g he b).0

  abbrev pub set_incident_nets : Hypergraph F → ℕ → List ℕ → Hypergraph F
  set_incident_nets g u nets =
      set_hypernode F g u (record (hypernode F g u) { incident_nets = nets })

  -- connectHyperedgeToRepresentative
  unfoldable pub connect_hyperedge_to_representative : Hypergraph F → ℕ → ℕ → Hypergraph F
  connect_hyperedge_to_representative g e u =
      set_incident_nets
        (record g { incidence_array = update g.incidence_array (first_invalid_entry F g e - 1) u })
        u (push_back (incident_edges F g u) e)

  -- The body of the loop of contract, for one net of `v`.
  unfoldable pub contract_net : Hypergraph F → ℕ → ℕ → ℕ → Hypergraph F
  contract_net g u v he =
      let e = hyperedge F g he in
      let last_pin_slot = first_invalid_entry F g he - 1 in
      let (pins, slot_of_u) =
        scan_pins (e.size + e.size) g.incidence_array u v e.first last_pin_slot last_pin_slot in
      let h = record g { incidence_array = pins } in
      if not (slot_of_u == last_pin_slot)
      then (let h₁ =
            pin_count_down
              (set_hyperedge F h he (record e { size = dec32 e.size; hash = sub_hash e.hash v })) he
              (part_id F g v) in
          record h₁ { current_num_pins = dec32 h₁.current_num_pins })
      else connect_hyperedge_to_representative
          (set_hyperedge F h he (record e { hash = add_hash (sub_hash e.hash v) u })) he u

  unfoldable pub contract_nets : Hypergraph F → ℕ → ℕ → List ℕ → Hypergraph F
  contract_nets g u v [] = g
  contract_nets g u v (he ∷ hes) = contract_nets (contract_net g u v he) u v hes

  -- The fixed vertices after `v` joined the weight of `u`.
  unfoldable pub contract_fixed : Hypergraph F → ℕ → ℕ → Hypergraph F
  contract_fixed g u v = elim (fixed_vertex_part_id_of F g u) [
    | none ↦ g
    | some b ↦
        if not (is_fixed_vertex F g v)
        then (let p = g.part_info b in
            record (set_part_info F g b (record p {
              fixed_vertex_weight = p.fixed_vertex_weight +ℤ (hypernode F g v).weight;
            })) {
              fixed_vertex_total_weight = g.fixed_vertex_total_weight +ℤ (hypernode F g v).weight;
            })
        else record g {
          fixed_vertices = elim g.fixed_vertices [
            | none ↦ none
            | some s ↦ some (SparseSet.remove s v)
          ];
        }
  ]

  unfoldable pub contract : Hypergraph F → ℕ → ℕ → Hypergraph F × Memento
  contract g u v =
      let x = hypernode F g u in
      let g₁ = set_hypernode F g u (record x { weight = x.weight +ℤ (hypernode F g v).weight }) in
      let g₂ = contract_fixed g₁ u v in
      let g₃ = contract_nets g₂ u v (incident_edges F g₂ v) in
      let g₄ = set_hypernode F g₃ v (record (hypernode F g₃ v) { valid = false }) in
      (
        record g₄ { current_num_hypernodes = dec32 g₄.current_num_hypernodes },
        record { u = u; v = v },
      )
