-- ===== src/Hypergraph/Restore/Memento.antt =====
-- What uncontract does before its loop: the contracted hypernode is enabled, and its nets are flagged.
use kahypar.Prelude.{
  ℕ, ◌≡◌, refl, ◌∙◌, ap, arith, count, ltb, if◌then◌else◌, true, List, [], ◌∷◌, Option-cases, inl,
  inr,
}
use kahypar.Containers.FlagArray.{FlagArray}
use kahypar.Hypergraph.State.{
  Hypergraph, Memento, hypernode, set_hypernode, incident_edges, part_id, fixed_vertex_part_id_of,
}
use kahypar.Hypergraph.Contraction.Slots.{if-cases}
use kahypar.Hypergraph.Uncontraction.{
  restore_fixed, grow_part, restore_memento, set_flags, mark_incident_nets_of,
}
use kahypar.Hypergraph.Restore.Contraction.{IsKept, IsKept-refl}

module _ (F : FlagArray) where
  IsKept-trans : {f g h : Hypergraph F} → IsKept F f g → IsKept F g h → IsKept F f h
  IsKept-trans s t = record {
    nets = t.nets ∙ s.nets;
    order = t.order ∙ s.order;
    hypernodes_same = t.hypernodes_same ∙ s.hypernodes_same;
    hyperedges_same = t.hyperedges_same ∙ s.hyperedges_same;
    slots_same = t.slots_same ∙ s.slots_same;
  }

  restore_fixed-IsKept : (g : Hypergraph F) (u v : ℕ) → IsKept F g (restore_fixed F g u v)
  unfolding restore_fixed
  restore_fixed-IsKept g u v = elim (Option-cases (fixed_vertex_part_id_of F g u)) [
    | inl e ↦ rw (restore_fixed, e) (IsKept-refl F g)
    | inr (b, e) ↦
        rw (restore_fixed, e)
          (if-cases (IsKept F g) _ _ _
            (λ _. record {
              nets = refl;
              order = refl;
              hypernodes_same = refl;
              hyperedges_same = refl;
              slots_same = refl;
            })
            (λ _. record {
              nets = refl;
              order = refl;
              hypernodes_same = refl;
              hyperedges_same = refl;
              slots_same = refl;
            }))
  ]

  grow_part-IsKept : (g : Hypergraph F) (block : ℕ) → IsKept F g (grow_part F g block)
  grow_part-IsKept g block = record {
    nets = refl;
    order = refl;
    hypernodes_same = refl;
    hyperedges_same = refl;
    slots_same = refl;
  }

  test-set_flags :
      (flags : F.Flags) (hes : List ℕ) (e : ℕ)
      → F.test (set_flags F flags hes) e ≡ (if ltb 0 (count e hes) then true else F.test flags e)
  unfolding set_flags count
  test-set_flags flags [] e = ground arith
  test-set_flags flags (x ∷ hes) e =
      ground (arith, test-set_flags (F.set flags x true) hes e, F.test-set flags x true e)

  module _ (g : Hypergraph F) (u v : ℕ) where
    abbrev m : Memento
    m = record { u = u; v = v }

    abbrev pub with_v : Hypergraph F
    with_v =
        set_hypernode F g v (record (hypernode F g v) { valid = true; part_id = part_id F g u })

    module _ (block : ℕ) where
      -- The hypergraph that the loop starts from.
      abbrev pub flagged_start : Hypergraph F
      flagged_start = mark_incident_nets_of F (restore_memento F g m block) v

      pub start-IsKept : IsKept F with_v flagged_start
      unfolding restore_memento mark_incident_nets_of
      start-IsKept =
          let g₂ = record with_v { current_num_hypernodes = _ } in
          let a = grow_part-IsKept g₂ block in
          let b = restore_fixed-IsKept (grow_part F g₂ block) u v in
          let c = IsKept-trans a b in
          record {
            nets = c.nets;
            order = c.order;
            hypernodes_same = c.hypernodes_same;
            hyperedges_same = c.hyperedges_same;
            slots_same = c.slots_same;
          }

      before_flags : IsKept F with_v (restore_memento F g m block)
      unfolding restore_memento
      before_flags =
          let g₂ = record with_v { current_num_hypernodes = _ } in
          let c =
            IsKept-trans (grow_part-IsKept g₂ block)
              (restore_fixed-IsKept (grow_part F g₂ block) u v) in
          record {
            nets = c.nets;
            order = c.order;
            hypernodes_same = c.hypernodes_same;
            hyperedges_same = c.hyperedges_same;
            slots_same = c.slots_same;
          }

      -- The nets of `v` are flagged.
      pub start_flags :
          (e : ℕ)
          → F.test flagged_start.hes_not_containing_u e ≡ ltb 0 (count e (incident_edges F g v))
      unfolding mark_incident_nets_of
      start_flags e =
          let h = restore_memento F g m block in
          let k = ap (λ xs. (xs v).incident_nets) before_flags.hypernodes_same in
          let same : incident_edges F h v ≡ incident_edges F g v = k ∙ ground arith in
          test-set_flags (F.reset h.hes_not_containing_u) (incident_edges F h v) e
          ∙ ground (arith, same, F.test-reset h.hes_not_containing_u e)
