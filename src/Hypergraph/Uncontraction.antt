-- ===== src/Hypergraph/Uncontraction.antt =====
-- uncontract(memento): the default version, which undoes the contraction that the memento remembers.
--
-- restoreMemento gives `v` the block of `u`, and nothing below changes a block: partID(u) is read
-- once, and passed on as `block` to where the code reads partID(u) or partID(v).
use kahypar.Prelude.{
  ℕ, zero, suc, ◌+◌, ◌-◌, true, not, ◌&&◌, Option, none, some, List, [], ◌∷◌, ltb, ◌==◌,
  if◌then◌else◌, length,
}
use kahypar.Prelude.Arrays.{Array, update}
use kahypar.Prelude.Vectors.{get, pop_back, swap_at}
use kahypar.Prelude.Int.{◌-ℤ◌}
use kahypar.Prelude.Words.{inc32, dec32}
use kahypar.Containers.SparseSet
use kahypar.Containers.FlagArray.{FlagArray}
use kahypar.Hypergraph.State.{
  Memento, Hypergraph, hypernode, hyperedge, set_hypernode, set_hyperedge, incident_edges,
  first_invalid_entry, part_id, connectivity, is_fixed_vertex, fixed_vertex_part_id_of,
}
use kahypar.Hypergraph.Blocks.{increment_pin_count_in_part, set_part_info}

-- The search from slot `i` down for `u`; `fuel` is the number of slots below `i`.
unfoldable pub last_slot_of : ℕ → Array ℕ → ℕ → ℕ → ℕ
last_slot_of zero a u i = i
last_slot_of (suc fuel) a u i =
    let rest = last_slot_of fuel a u (i - 1) in if a i == u then i else rest

module _ (F : FlagArray) where
  abbrev pub set_incident_nets : Hypergraph F → ℕ → List ℕ → Hypergraph F
  set_incident_nets g u nets =
      set_hypernode F g u (record (hypernode F g u) { incident_nets = nets })

  -- The fixed vertices after `v` left the weight of `u`.
  unfoldable pub restore_fixed : Hypergraph F → ℕ → ℕ → Hypergraph F
  restore_fixed g u v = elim (fixed_vertex_part_id_of F g u) [
    | none ↦ g
    | some b ↦
        if not (is_fixed_vertex F g v)
        then (let p = g.part_info b in
            record (set_part_info F g b (record p {
              fixed_vertex_weight = p.fixed_vertex_weight -ℤ (hypernode F g v).weight;
            })) {
              fixed_vertex_total_weight = g.fixed_vertex_total_weight -ℤ (hypernode F g v).weight;
            })
        else record g {
          fixed_vertices = elim g.fixed_vertices [
            | none ↦ none
            | some s ↦ some (SparseSet.add s v)
          ];
        }
  ]

  -- ++_part_info[partID(u)].size
  abbrev pub grow_part : Hypergraph F → ℕ → Hypergraph F
  grow_part g block =
      let p = g.part_info block in set_part_info F g block (record p { size = inc32 p.size })

  -- `block` is partID(u), which `v` takes over.
  unfoldable pub restore_memento : Hypergraph F → Memento → ℕ → Hypergraph F
  restore_memento g m block =
      let g₁ =
        set_hypernode F g m.v
          (record (hypernode F g m.v) { valid = true; part_id = part_id F g m.u }) in
      let g₂ = record g₁ { current_num_hypernodes = inc32 g₁.current_num_hypernodes } in
      restore_fixed (grow_part g₂ block) m.u m.v

  unfoldable pub set_flags : F.Flags → List ℕ → F.Flags
  set_flags flags [] = flags
  set_flags flags (he ∷ hes) = set_flags (F.set flags he true) hes

  unfoldable pub mark_incident_nets_of : Hypergraph F → ℕ → Hypergraph F
  mark_incident_nets_of g v = record g {
    hes_not_containing_u = set_flags (F.reset g.hes_not_containing_u) (incident_edges F g v);
  }

  unfoldable pub reset_reused_pin_slot : Hypergraph F → ℕ → Memento → Hypergraph F
  reset_reused_pin_slot g he m =
      let e = hyperedge F g he in
      let slot = last_slot_of (e.size - 1) g.incidence_array m.u (first_invalid_entry F g he - 1) in
      record g { incidence_array = update g.incidence_array slot m.v }

  abbrev pub more_cut : Hypergraph F → ℕ → Hypergraph F
  more_cut g u =
      let x = hypernode F g u in
      set_hypernode F g u (record x { num_incident_cut_hes = inc32 x.num_incident_cut_hes })

  abbrev pub less_cut : Hypergraph F → ℕ → Hypergraph F
  less_cut g u =
      let x = hypernode F g u in
      set_hypernode F g u (record x { num_incident_cut_hes = dec32 x.num_incident_cut_hes })

  -- Undo case 1 of contract: `v` was cut off the end of net `he`. `block` is partID(v).
  unfoldable pub restore_pin : Hypergraph F → ℕ → Memento → ℕ → Hypergraph F
  restore_pin g he m block =
      let e = hyperedge F g he in
      let g₁ =
        (increment_pin_count_in_part F (set_hyperedge F g he (record e { size = inc32 e.size })) he
          block).0 in
      let g₂ = if ltb 1 (connectivity F g₁ he) then more_cut g₁ m.v else g₁ in
      record g₂ { current_num_pins = inc32 g₂.current_num_pins }

  -- Undo case 2 of contract: the slot of `v` in net `he` was given to `u`, whose nets it ends.
  unfoldable pub restore_slot : Hypergraph F → ℕ → ℕ → Memento → Hypergraph F
  restore_slot g it he m =
      let nets = incident_edges F g m.u in
      let g₁ = set_incident_nets g m.u (pop_back (swap_at nets it (length nets - 1))) in
      let g₂ = reset_reused_pin_slot g₁ he m in
      if ltb 1 (connectivity F g₂ he) then more_cut (less_cut g₂ m.u) m.v else g₂

  -- The loop over the nets of `u`; `n` of them, from position `it` on, are left.
  unfoldable pub uncontract_nets : ℕ → Hypergraph F → Memento → ℕ → ℕ → Hypergraph F
  uncontract_nets zero g m block it = g
  uncontract_nets (suc n) g m block it =
      let he = get (incident_edges F g m.u) it in
      let unchanged = uncontract_nets n g m block (it + 1) in
      let pin = uncontract_nets n (restore_pin g he m block) m block (it + 1) in
      let slot = uncontract_nets n (restore_slot g it he m) m block it in
      if F.test g.hes_not_containing_u he
      then (if ltb (first_invalid_entry F g he) (hyperedge F g (he + 1)).first
            && (g.incidence_array (first_invalid_entry F g he) == m.v)
          then pin
          else slot)
      else unchanged

  unfoldable pub uncontract_into : Hypergraph F → Memento → ℕ → Hypergraph F
  uncontract_into g m block =
      let g₁ = mark_incident_nets_of (restore_memento g m block) m.v in
      let g₂ = uncontract_nets (length (incident_edges F g₁ m.u)) g₁ m block 0 in
      let x = hypernode F g₂ m.u in
      set_hypernode F g₂ m.u (record x { weight = x.weight -ℤ (hypernode F g₂ m.v).weight })

  -- The code writes through partID(u) without a test: `none` is the write outside of _part_info that
  -- it makes where `u` has no block.
  unfoldable pub uncontract : Hypergraph F → Memento → Option (Hypergraph F)
  uncontract g m = elim (part_id F g m.u) [
    | none ↦ none
    | some block ↦ some (uncontract_into g m block)
  ]
