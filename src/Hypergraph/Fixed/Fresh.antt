-- ===== src/Hypergraph/Fixed/Fresh.antt =====
-- The hypergraph after resetPartitioning.
use kahypar.Prelude.{
  ℕ, zero, suc, ◌+◌, ◌*◌, ◌<◌, ◌≡◌, refl, ◌∙◌, sym, ap, ◌&&◌, Option, none, some, List, [], ◌∷◌,
  arith, ltb, if◌then◌else◌, count, length,
}
use mathlib.Core.Path.{subst}
use kahypar.Prelude.Int.{ℤ}
use kahypar.Prelude.Arrays.{fill, fill_lem}
use kahypar.Containers.SparseSet
use kahypar.Containers.ConnectivitySet
use kahypar.Containers.ConnectivitySet.{ConnectivitySet}
use kahypar.Containers.FlagArray.{FlagArray}
use kahypar.Hypergraph.State.{
  Hypergraph, hypernode, hyperedge, pins, part_id, slice, connectivity, pin_count_in_part,
  fixed_vertex_part_id_of,
}
use kahypar.Hypergraph.Blocks.Pins.{count_block}
use kahypar.Hypergraph.Blocks.Counts.{offset-lt}
use kahypar.Hypergraph.Blocks.Assign.{IsCounted, IsPartitioned}
use kahypar.Hypergraph.Fixed.{
  weigh_one, unassign_nodes, disconnect_edges, weigh_fixed, reset_partitioning, no_part,
}

count_block-none :
    (part : ℕ → Option ℕ) (ps : List ℕ) (i : ℕ)
    → ((u : ℕ) → 0 < count u ps → part u ≡ none)
    → count_block part ps i ≡ 0
unfolding count_block count
count_block-none part [] i h = refl
count_block-none part (p ∷ ps) i h =
    ground (arith, h p (ground arith), count_block-none part ps i (λ u q. h u (ground arith)))

unlisted : (i k n : ℕ) → (i < k → n ≡ 0) → count i [] ≡ (if ltb i k && ltb 0 n then 1 else 0)
unfolding count
unlisted i k n h = ground (arith, h)

module _ (F : FlagArray) where
  -- `h` has the nets of `g`, with their pins, counts and connectivity.
  record SameNets (g h : Hypergraph F) : Type 0 where
    blocks : h.k ≡ g.k
    order : h.num_hypernodes ≡ g.num_hypernodes
    nets : h.num_hyperedges ≡ g.num_hyperedges
    incidence : h.incidence_array ≡ g.incidence_array
    counts : h.pins_in_part ≡ g.pins_in_part
    sets : h.connectivity_sets ≡ g.connectivity_sets
    edges : h.hyperedges ≡ g.hyperedges

  SameNets-refl : (g : Hypergraph F) → SameNets g g
  SameNets-refl g = record {
    blocks = refl;
    order = refl;
    nets = refl;
    incidence = refl;
    counts = refl;
    sets = refl;
    edges = refl;
  }

  pins-SameNets : (g h : Hypergraph F) (he : ℕ) → SameNets g h → pins F h he ≡ pins F g he
  pins-SameNets g h he s =
      ap (λ a. slice F a (hyperedge F h he).first (hyperedge F h he).size) s.incidence
      ∙ ap (λ x. slice F g.incidence_array (x he).first (x he).size) s.edges

  unassign_nodes-SameNets : (n : ℕ) (g : Hypergraph F) → SameNets g (unassign_nodes F n g)
  unfolding unassign_nodes
  unassign_nodes-SameNets zero g = SameNets-refl g
  unassign_nodes-SameNets (suc n) g =
      let s = unassign_nodes-SameNets n g in
      record {
        blocks = s.blocks;
        order = s.order;
        nets = s.nets;
        incidence = s.incidence;
        counts = s.counts;
        sets = s.sets;
        edges = s.edges;
      }

  unassign_nodes_lem :
      (n : ℕ) (g : Hypergraph F) (u : ℕ) → u < n → part_id F (unassign_nodes F n g) u ≡ none
  unfolding unassign_nodes
  unassign_nodes_lem zero g u h = absurd (omega arith)
  unassign_nodes_lem (suc n) g u h = ground (arith, unassign_nodes_lem n g u)

  weigh_one-SameNets :
      (g h : Hypergraph F) (b : Option ℕ) (w : ℤ)
      → SameNets (weigh_one F g b w) h × (h.hypernodes ≡ (weigh_one F g b w).hypernodes)
      → SameNets g h × (h.hypernodes ≡ g.hypernodes)
  weigh_one-SameNets g h none w s = s
  weigh_one-SameNets g h (some b) w s = (
    record {
      blocks = s.0.blocks;
      order = s.0.order;
      nets = s.0.nets;
      incidence = s.0.incidence;
      counts = s.0.counts;
      sets = s.0.sets;
      edges = s.0.edges;
    },
    s.1,
  )

  -- The last loop of resetPartitioning writes block weights only.
  weigh_fixed-SameNets :
      (hns : List ℕ) (g : Hypergraph F)
      → SameNets g (weigh_fixed F g hns) × ((weigh_fixed F g hns).hypernodes ≡ g.hypernodes)
  unfolding weigh_fixed
  weigh_fixed-SameNets [] g = (SameNets-refl g, refl)
  weigh_fixed-SameNets (hn ∷ hns) g =
      weigh_one-SameNets g _ (fixed_vertex_part_id_of F g hn) (hypernode F g hn).weight
        (weigh_fixed-SameNets hns _)

  -- The first `n` nets connect no block; all else is as before.
  record IsDisconnected (n : ℕ) (g h : Hypergraph F) : Type 0 where
    blocks : h.k ≡ g.k
    nets : h.num_hyperedges ≡ g.num_hyperedges
    incidence : h.incidence_array ≡ g.incidence_array
    counts : h.pins_in_part ≡ g.pins_in_part
    nodes : h.hypernodes ≡ g.hypernodes
    first : (e : ℕ) → (hyperedge F h e).first ≡ (hyperedge F g e).first
    size : (e : ℕ) → (hyperedge F h e).size ≡ (hyperedge F g e).size
    live : (e : ℕ) → (hyperedge F h e).valid ≡ (hyperedge F g e).valid
    cleared : (e : ℕ) → e < n → connectivity F h e ≡ 0
    emptied : (e : ℕ) → e < n → (h.connectivity_sets e).contained_parts ≡ []

  disconnect_edges-IsDisconnected :
      (n : ℕ) (g : Hypergraph F) → IsDisconnected n g (disconnect_edges F n g)
  unfolding disconnect_edges ConnectivitySet.clear
  disconnect_edges-IsDisconnected zero g = record {
    blocks = refl;
    nets = refl;
    incidence = refl;
    counts = refl;
    nodes = refl;
    first = λ e. refl;
    size = λ e. refl;
    live = λ e. refl;
    cleared = λ e h. absurd (omega arith);
    emptied = λ e h. absurd (omega arith);
  }
  disconnect_edges-IsDisconnected (suc n) g =
      let s = disconnect_edges-IsDisconnected n g in
      record {
        blocks = s.blocks;
        nets = s.nets;
        incidence = s.incidence;
        counts = s.counts;
        nodes = s.nodes;
        first = λ e. ground (arith, s.first e, s.first n);
        size = λ e. ground (arith, s.size e, s.size n);
        live = λ e. ground (arith, s.live e, s.live n);
        cleared = λ e h. ground (arith, s.cleared e);
        emptied = λ e h. ground (arith, s.emptied e);
      }

  -- Nets without counts and hypernodes without blocks are counted; `g`, `d` and `r` are the
  -- hypergraph before the loop over the nets, after it, and at the end.
  fresh-IsCounted :
      (g d r : Hypergraph F) (he : ℕ)
      → IsDisconnected g.num_hyperedges g d
      → SameNets d r
      → r.hypernodes ≡ d.hypernodes
      → he < g.num_hyperedges
      → ((j : ℕ) → j < g.num_hyperedges * g.k → g.pins_in_part j ≡ 0)
      → ((u : ℕ) → 0 < count u (pins F g he) → part_id F g u ≡ none)
      → IsCounted F r he
  fresh-IsCounted g d r he s t same inside zeroed free =
      let counts : r.pins_in_part ≡ g.pins_in_part = t.counts ∙ s.counts in
      let blocks : r.k ≡ g.k = t.blocks ∙ s.blocks in
      let none_left : (i : ℕ) → i < r.k → pin_count_in_part F r he i ≡ 0 = λ i q.
        ap (λ a. a (he * r.k + i)) counts
        ∙ zeroed (he * r.k + i) (ground (arith, blocks, offset-lt g.k he i g.num_hyperedges)) in
      let same_pins : pins F r he ≡ pins F g he =
        ap (λ a. slice F a (hyperedge F r he).first (hyperedge F r he).size)
          (t.incidence ∙ s.incidence)
        ∙ ap (λ x. slice F g.incidence_array (x he).first (x he).size) t.edges
        ∙ ap (λ n. slice F g.incidence_array n (hyperedge F d he).size) (s.first he)
        ∙ ap (slice F g.incidence_array (hyperedge F g he).first) (s.size he) in
      let fresh : (u : ℕ) → 0 < count u (pins F r he) → part_id F r u ≡ none =
        λ u q. ap (λ x. (x u).part_id) (same ∙ s.nodes) ∙ free u (rw same_pins at q) in
      let none_listed : (r.connectivity_sets he).contained_parts ≡ [] =
        ap (λ x. (x he).contained_parts) t.sets ∙ s.emptied he inside in
      record {
        counted = λ i q. none_left i q ∙ sym (count_block-none (part_id F r) (pins F r he) i fresh);
        linked = record {
          listed = λ i.
              ap (count i) none_listed ∙ unlisted i r.k (pin_count_in_part F r he i) (none_left i);
          sized =
              ap (λ x. (x he).connectivity) t.edges
              ∙ s.cleared he inside
              ∙ sym (ap length none_listed);
        };
      }

  -- Where every pin is one of the hypernodes, resetPartitioning leaves every enabled net with exact pin counts
  -- and an exact connectivity set.
  pub reset_partitioning-IsPartitioned :
      (g : Hypergraph F)
      → ((he u : ℕ) → 0 < count u (pins F g he) → u < g.num_hypernodes)
      → IsPartitioned F (reset_partitioning F g)
  unfolding reset_partitioning
  reset_partitioning-IsPartitioned g within he inside live =
      let g₁ = unassign_nodes F g.num_hypernodes g in
      let s₁ = unassign_nodes-SameNets g.num_hypernodes g in
      let n = g₁.num_hyperedges * g₁.k in
      let g₂ : Hypergraph F = record g₁ {
        part_info = fill g₁.k (no_part F) g₁.part_info;
        pins_in_part = fill n 0 g₁.pins_in_part;
      } in
      let s₂ = disconnect_edges-IsDisconnected g₂.num_hyperedges g₂ in
      let g₃ = disconnect_edges F g₂.num_hyperedges g₂ in
      let hns : List ℕ = elim g₃.fixed_vertices [ none ↦ [] | some s ↦ SparseSet.values s ] in
      let s₃ = weigh_fixed-SameNets hns g₃ in
      fresh-IsCounted g₂ g₃ (weigh_fixed F g₃ hns) he s₂ s₃.0 s₃.1
        (rw (s₃.0.nets ∙ s₂.nets) at inside) (λ j q. ground (arith, fill_lem n 0 g₁.pins_in_part j))
        (λ u q.
          unassign_nodes_lem g.num_hypernodes g u
            (within he u (subst (λ ps. 0 < count u ps) (pins-SameNets g g₁ he s₁) q)))
