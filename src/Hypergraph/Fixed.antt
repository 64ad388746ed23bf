-- ===== src/Hypergraph/Fixed.antt =====
-- Fixed vertices, and the reset of everything that a partition left: setFixedVertex,
-- resetFixedVertices, resetPartitioning, setPartition, reset, resetEdgeHashes.
pub mod Fresh
pub mod Loop
use kahypar.Prelude.{
  ℕ, zero, suc, ◌+◌, ◌*◌, ◌%◌, ◌^◌, Option, none, some, List, [], ◌∷◌, if◌then◌else◌,
}
use kahypar.Prelude.Arrays.{Array, update, fill}
use kahypar.Prelude.Int.{ℤ, pos, ◌+ℤ◌}
use kahypar.Containers.SparseSet
use kahypar.Containers.SparseSet.{SparseSet}
use kahypar.Containers.ConnectivitySet
use kahypar.Containers.FlagArray.{FlagArray}
use kahypar.Hypergraph.State.{
  Hypernode, Hyperedge, PartInfo, Hypergraph, hypernode, hyperedge, set_hypernode, set_hyperedge,
  pins, nodes, edges, node_weight, fixed_vertex_part_id_of, edge_hash_seed,
}
use kahypar.Hypergraph.Blocks.{set_part_info, set_node_part}

module _ (F : FlagArray) where
  abbrev pub fix_weight : Hypergraph F → ℕ → ℤ → Hypergraph F
  fix_weight g id w =
      let p = g.part_info id in
      set_part_info F g id (record p { fixed_vertex_weight = p.fixed_vertex_weight +ℤ w })

  -- The set of fixed vertices with their blocks, made when there is none yet.
  unfoldable pub fixed_or_new : Hypergraph F → SparseSet × Array (Option ℕ)
  fixed_or_new g = elim g.fixed_vertices [
    | none ↦ (SparseSet.create g.num_hypernodes, fill g.num_hypernodes none g.fixed_vertex_part_id)
    | some s ↦ (s, g.fixed_vertex_part_id)
  ]

  unfoldable pub set_fixed_vertex : Hypergraph F → ℕ → ℕ → Hypergraph F
  set_fixed_vertex g hn id =
      let (s, ids) = fixed_or_new g in
      record (fix_weight g id (node_weight F g hn)) {
        fixed_vertices = some (SparseSet.add s hn);
        fixed_vertex_part_id = update ids hn (some id);
        fixed_vertex_total_weight = g.fixed_vertex_total_weight +ℤ node_weight F g hn;
      }

  -- for (part : _part_info) part.fixed_vertex_weight = 0, for the first `n` blocks.
  unfoldable pub clear_fixed_weights : ℕ → Array PartInfo → Array PartInfo
  clear_fixed_weights zero info = info
  clear_fixed_weights (suc n) info =
      let rest = clear_fixed_weights n info in
      update rest n (record (rest n) { fixed_vertex_weight = pos 0 })

  unfoldable pub reset_fixed_vertices : Hypergraph F → Hypergraph F
  reset_fixed_vertices g = record g {
    fixed_vertices = none;
    part_info = clear_fixed_weights g.k g.part_info;
    fixed_vertex_total_weight = pos 0;
  }

  unfoldable pub unassign_nodes : ℕ → Hypergraph F → Hypergraph F
  unassign_nodes zero g = g
  unassign_nodes (suc n) g =
      let h = unassign_nodes n g in
      set_hypernode F h n (record (hypernode F h n) { part_id = none; num_incident_cut_hes = 0 })

  unfoldable pub disconnect_edges : ℕ → Hypergraph F → Hypergraph F
  disconnect_edges zero g = g
  disconnect_edges (suc n) g =
      let h = disconnect_edges n g in
      set_hyperedge F
        (record h {
          connectivity_sets =
              update h.connectivity_sets n (ConnectivitySet.clear (h.connectivity_sets n));
        })
        n (record (hyperedge F h n) { connectivity = 0 })

  -- _part_info[fixedVertexPartID(hn)].fixed_vertex_weight += nodeWeight(hn), for a fixed vertex.
  abbrev pub weigh_one : Hypergraph F → Option ℕ → ℤ → Hypergraph F
  weigh_one g none w = g
  weigh_one g (some b) w = fix_weight g b w

  unfoldable pub weigh_fixed : Hypergraph F → List ℕ → Hypergraph F
  weigh_fixed g [] = g
  weigh_fixed g (hn ∷ hns) =
      weigh_fixed (weigh_one g (fixed_vertex_part_id_of F g hn) (node_weight F g hn)) hns

  abbrev pub no_part : PartInfo
  no_part = record { weight = pos 0; fixed_vertex_weight = pos 0; size = 0 }

  unfoldable pub reset_partitioning : Hypergraph F → Hypergraph F
  reset_partitioning g =
      let g₁ = unassign_nodes g.num_hypernodes g in
      let g₂ = record g₁ {
        part_info = fill g₁.k no_part g₁.part_info;
        pins_in_part = fill (g₁.num_hyperedges * g₁.k) 0 g₁.pins_in_part;
      } in
      let g₃ = disconnect_edges g₂.num_hyperedges g₂ in
      weigh_fixed g₃ (elim g₃.fixed_vertices [ none ↦ [] | some s ↦ SparseSet.values s ])

  unfoldable pub set_node_parts : Hypergraph F → Array ℕ → List ℕ → Hypergraph F
  set_node_parts g partition [] = g
  set_node_parts g partition (u ∷ us) =
      set_node_parts (set_node_part F g u (partition u)) partition us

  module _ (hash : ℕ → ℕ) where
    unfoldable pub edge_hash : List ℕ → ℕ → ℕ
    edge_hash [] h = h
    edge_hash (pin ∷ ps) h = edge_hash ps ((h + hash pin) % 2 ^ 64)

    unfoldable pub hash_edges : Hypergraph F → List ℕ → Hypergraph F
    hash_edges g [] = g
    hash_edges g (he ∷ hes) =
        hash_edges
          (set_hyperedge F g he
            (record (hyperedge F g he) { hash = edge_hash (pins F g he) edge_hash_seed }))
          hes

    abbrev pub reset_edge_hashes : Hypergraph F → Hypergraph F
    reset_edge_hashes g = hash_edges g (edges F g)

    -- The first `n` ids.
    unfoldable pub first_ids : ℕ → ℕ → List ℕ
    first_ids i zero = []
    first_ids i (suc n) = i ∷ first_ids (i + 1) n

    unfoldable pub reset : Hypergraph F → Hypergraph F
    reset g =
        let h = reset_partitioning g in
        hash_edges (record h { communities = fill h.num_hypernodes 0 h.communities })
          (first_ids 0 h.num_hyperedges)

    unfoldable pub set_partition : Hypergraph F → Array ℕ → Hypergraph F
    set_partition g partition = let h = reset g in set_node_parts h partition (nodes F h)
