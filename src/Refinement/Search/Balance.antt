-- ===== src/Refinement/Search/Balance.antt =====
-- Feasible moves and the weights of blocks.
use kahypar.Prelude.{ℕ, ◌<◌, ◌≡◌, ◌∙◌, sym, ap, true, [], arith}
use native.Mathlib.Decide.{ℕ_discrete}
use kahypar.Prelude.Int.{ℤ, pos, ◌≤ℤ◌, +ℤ_parts, -ℤ_parts}
use kahypar.Prelude.Sums.{sum_ℕ-ge}
use kahypar.Containers.FlagArray.{FlagArray}
use kahypar.Hypergraph.State.{Hypergraph, hypernode, node_weight, incident_edges}
use kahypar.Hypergraph.Blocks.{move_part, change_node_part}
use kahypar.Hypergraph.Blocks.Moves.{change_nets_part-SameShape}
use kahypar.Hypergraph.Blocks.Weights.{size_in}
use kahypar.Hypergraph.Partition.{IsRelabelled, same_part_weight, same_part_size}
use kahypar.Hypergraph.Partition.Step.{
  IsSearchable, IsMove, change_node_part-IsSearchable, change_node_part-IsRelabelled,
}
use kahypar.Refinement.Search.{move_is_feasible}

module _ (F : FlagArray) (max_part_weights : ℕ → ℤ) where
  pub record IsBalanced (g : Hypergraph F) : Type 0 where
    pub light : (b : ℕ) → b < g.k → (g.part_info b).weight ≤ℤ max_part_weights b
    pub nonempty : (b : ℕ) → b < g.k → 0 < (g.part_info b).size

  pub IsBalanced-same :
      (f g h : Hypergraph F) (part : ℕ → _)
      → IsRelabelled F f g part
      → IsRelabelled F f h part
      → IsSearchable F g
      → IsSearchable F h
      → IsBalanced g
      → IsBalanced h
  IsBalanced-same f g h part s t p q b =
      let k : h.k ≡ g.k = t.blocks ∙ sym (s.blocks) in
      record {
        light = λ i l.
            rw (same_part_weight F f g h part s t p.weighed q.weighed i (rw k at l))
              (b.light i (rw k at l));
        nonempty = λ i l.
            rw (same_part_size F f g h part s t p.weighed q.weighed i (rw k at l))
              (b.nonempty i (rw k at l));
      }

  -- Where every block is within its maximum weight and none is empty, pin counts, connectivity sets, block
  -- weights and sizes are exact, enabled hypernodes and enabled nets list each other, each net once, pins
  -- of enabled nets have blocks, blocks are below k, and net sizes and the number of hypernodes are below
  -- 2^32: a move that moveIsFeasible allows, of an enabled hypernode of non-negative weight to another
  -- block below k, leaves every block within its maximum weight and none empty.
  pub feasible_move-IsBalanced :
      (g : Hypergraph F) (hn from to : ℕ)
      → IsSearchable F g
      → IsMove F g hn from to
      → pos 0 ≤ℤ node_weight F g hn
      → move_is_feasible F max_part_weights g hn from to ≡ true
      → IsBalanced g
      → IsBalanced (change_node_part F g hn from to []).0
  unfolding change_node_part move_part move_is_feasible
  feasible_move-IsBalanced g hn from to s m heavy ok b =
      let g₁ = move_part F g hn from to in
      let h = (change_node_part F g hn from to []).0 in
      let t = change_nets_part-SameShape F 0 from to m.apart (incident_edges F g hn) g₁ [] in
      let r = change_node_part-IsRelabelled F g hn from to [] m in
      let q = change_node_part-IsSearchable F g hn from to [] s m in
      record {
        light = λ i l.
            let e = ap (λ info. (info i).weight) t.info in
            ground (
              arith,
              e,
              b.light i (rw (r.blocks) at l),
              +ℤ_parts (g.part_info to).weight (node_weight F g hn),
              -ℤ_parts (g.part_info from).weight (node_weight F g hn),
            );
        nonempty = λ i l. elim (ℕ_discrete to i) [
          | yes here ↦
              let v = λ (u : ℕ). size_in (hypernode F h u) i in
              let e : v hn ≡ 1 = ground (arith, r.block hn, r.enabled hn, m.live) in
              omega (
                arith,
                q.weighed.sizes i l,
                e,
                sum_ℕ-ge v hn h.num_hypernodes (rw (r.order) (m.inside)),
              )
          | no ne ↦
              let e = ap (λ info. (info i).size) t.info in
              ground (arith, e, ne, b.nonempty i (rw (r.blocks) at l))
        ];
      }
