-- ===== src/Hypergraph/State.antt =====
-- The state of GenericHypergraph and the members that only read it, or write one field.
--
-- Ids are numbers; a block is `some b`, and kInvalidPartition is `none`. Weights are signed. Vectors
-- whose length never changes after construction are arrays.
use kahypar.Prelude.{
  ℕ, zero, suc, ◌+◌, ◌*◌, Bool, true, false, not, ◌||◌, Option, none, some, List, [], ◌∷◌, ltb,
  ◌==◌, if◌then◌else◌, length,
}
use kahypar.Prelude.Arrays.{Array, update}
use kahypar.Prelude.Int.{ℤ, ◌+ℤ◌, ◌-ℤ◌}
use kahypar.Containers.SparseSet.{SparseSet}
use kahypar.Containers.ConnectivitySet.{ConnectivitySet}
use kahypar.Containers.FlagArray.{FlagArray}

-- Vertex with AdditionalHypernodeData.
pub record Hypernode : Type 0 where
  pub incident_nets : List ℕ
  pub weight : ℤ
  pub valid : Bool
  pub part_id : Option ℕ
  pub num_incident_cut_hes : ℕ
  pub state : ℕ

-- HyperEdge with AdditionalHyperedgeData. `first` is `_begin`.
pub record Hyperedge : Type 0 where
  pub first : ℕ
  pub size : ℕ
  pub weight : ℤ
  pub valid : Bool
  pub connectivity : ℕ
  pub hash : ℕ

pub record PartInfo : Type 0 where
  pub weight : ℤ
  pub fixed_vertex_weight : ℤ
  pub size : ℕ

pub record Memento : Type 0 where
  pub u : ℕ
  pub v : ℕ

-- numeric_limits<HypernodeID>::max(), and the seed of the net fingerprints.
abbrev pub invalid_count : ℕ
invalid_count = 4294967295

abbrev pub edge_hash_seed : ℕ
edge_hash_seed = 42

module _ (F : FlagArray) where
  pub record Hypergraph : Type 0 where
    pub num_hypernodes : ℕ
    pub num_hyperedges : ℕ
    pub num_pins : ℕ
    pub total_weight : ℤ
    pub fixed_vertex_total_weight : ℤ
    pub k : ℕ
    pub current_num_hypernodes : ℕ
    pub current_num_hyperedges : ℕ
    pub current_num_pins : ℕ
    pub threshold_active : ℕ
    pub threshold_marked : ℕ
    pub hypernodes : Array Hypernode
    pub hyperedges : Array Hyperedge
    pub incidence_array : Array ℕ
    pub communities : Array ℕ
    pub fixed_vertices : Option SparseSet
    pub fixed_vertex_part_id : Array (Option ℕ)
    pub part_info : Array PartInfo
    pub pins_in_part : Array ℕ
    pub connectivity_sets : Array ConnectivitySet
    pub hes_not_containing_u : F.Flags

  abbrev pub hypernode : Hypergraph → ℕ → Hypernode
  hypernode g u = g.hypernodes u

  abbrev pub hyperedge : Hypergraph → ℕ → Hyperedge
  hyperedge g e = g.hyperedges e

  abbrev pub set_hypernode : Hypergraph → ℕ → Hypernode → Hypergraph
  set_hypernode g u x = record g { hypernodes = update g.hypernodes u x }

  abbrev pub set_hyperedge : Hypergraph → ℕ → Hyperedge → Hypergraph
  set_hyperedge g e x = record g { hyperedges = update g.hyperedges e x }

  -- _begin + _size
  abbrev pub first_invalid_entry : Hypergraph → ℕ → ℕ
  first_invalid_entry g e = (hyperedge g e).first + (hyperedge g e).size

  abbrev pub incident_edges : Hypergraph → ℕ → List ℕ
  incident_edges g u = (hypernode g u).incident_nets

  -- `n` entries of the incidence array from position `i` on.
  unfoldable pub slice : Array ℕ → ℕ → ℕ → List ℕ
  slice a i zero = []
  slice a i (suc n) = a i ∷ slice a (i + 1) n

  abbrev pub pins : Hypergraph → ℕ → List ℕ
  pins g e = slice g.incidence_array (hyperedge g e).first (hyperedge g e).size

  -- The valid ids from `id` on, among `n`: what a loop over nodes() or edges() visits.
  unfoldable pub valid_ids : (ℕ → Bool) → ℕ → ℕ → List ℕ
  valid_ids valid id zero = []
  valid_ids valid id (suc n) =
      let rest = valid_ids valid (id + 1) n in if valid id then id ∷ rest else rest

  abbrev pub nodes : Hypergraph → List ℕ
  nodes g = valid_ids (λ u. (hypernode g u).valid) 0 g.num_hypernodes

  abbrev pub edges : Hypergraph → List ℕ
  edges g = valid_ids (λ e. (hyperedge g e).valid) 0 g.num_hyperedges

  abbrev pub node_degree : Hypergraph → ℕ → ℕ
  node_degree g u = length (hypernode g u).incident_nets

  abbrev pub edge_size : Hypergraph → ℕ → ℕ
  edge_size g e = (hyperedge g e).size

  abbrev pub node_weight : Hypergraph → ℕ → ℤ
  node_weight g u = (hypernode g u).weight

  abbrev pub edge_weight : Hypergraph → ℕ → ℤ
  edge_weight g e = (hyperedge g e).weight

  abbrev pub part_id : Hypergraph → ℕ → Option ℕ
  part_id g u = (hypernode g u).part_id

  abbrev pub connectivity : Hypergraph → ℕ → ℕ
  connectivity g e = (hyperedge g e).connectivity

  -- static_cast<size_t>(he) * _k + id
  abbrev pub offset : Hypergraph → ℕ → ℕ → ℕ
  offset g he id = he * g.k + id

  abbrev pub pin_count_in_part : Hypergraph → ℕ → ℕ → ℕ
  pin_count_in_part g he id = g.pins_in_part (offset g he id)

  unfoldable pub has_pins_in_other_blocks : Hypergraph → ℕ → ℕ → ℕ → Bool
  has_pins_in_other_blocks g he b₀ b₁ =
      ltb (pin_count_in_part g he b₀ + pin_count_in_part g he b₁) (edge_size g he)

  unfoldable pub fixed_vertex_part_id_of : Hypergraph → ℕ → Option ℕ
  fixed_vertex_part_id_of g u = elim g.fixed_vertices [
    | none ↦ none
    | some s ↦ g.fixed_vertex_part_id u
  ]

  unfoldable pub is_fixed_vertex : Hypergraph → ℕ → Bool
  unfolding fixed_vertex_part_id_of
  is_fixed_vertex g u = elim (fixed_vertex_part_id_of g u) [ none ↦ false | some b ↦ true ]

  -- numIncidentCutHEs: the nets of `hn` that connect several blocks, counted afresh.
  unfoldable pub count_cut : Hypergraph → List ℕ → ℕ
  count_cut g [] = 0
  count_cut g (he ∷ hes) = (if ltb 1 (connectivity g he) then 1 else 0) + count_cut g hes

  abbrev pub num_incident_cut_hes : Hypergraph → ℕ → ℕ
  num_incident_cut_hes g hn = count_cut g (incident_edges g hn)

  unfoldable pub is_border_node : Hypergraph → ℕ → Bool
  is_border_node g hn = ltb 0 (hypernode g hn).num_incident_cut_hes

  -- isBorderNodeInternal
  unfoldable pub some_cut : Hypergraph → List ℕ → Bool
  some_cut g [] = false
  some_cut g (he ∷ hes) = ltb 1 (connectivity g he) || some_cut g hes

  unfoldable pub is_modified : Hypergraph → Bool
  is_modified g =
      not (g.current_num_pins == g.num_pins)
      || not (g.current_num_hypernodes == g.num_hypernodes)
      || not (g.current_num_hyperedges == g.num_hyperedges)

  unfoldable pub set_node_weight : Hypergraph → ℕ → ℤ → Hypergraph
  set_node_weight g u weight =
      set_hypernode (record g { total_weight = g.total_weight -ℤ (hypernode g u).weight +ℤ weight })
        u (record (hypernode g u) { weight = weight })

  unfoldable pub set_edge_weight : Hypergraph → ℕ → ℤ → Hypergraph
  set_edge_weight g e weight = set_hyperedge g e (record (hyperedge g e) { weight = weight })
