-- ===== src/Hypergraph/Partition.antt =====
-- Hypergraphs that differ in the blocks of their hypernodes alone: what a partition determines.
pub mod Step
use kahypar.Prelude.{
  ℕ, ◌<◌, ◌≡◌, refl, ◌∙◌, sym, ap, true, Option, some, arith, if◌then◌else◌, length, count,
}
use kahypar.Prelude.Arrays.{update}
use kahypar.Prelude.Sums.{sum_ℕ, sum_ℤ-cong, sum_ℕ-cong}
use kahypar.Prelude.Int.{ℤ, pos}
use kahypar.Containers.FlagArray.{FlagArray}
use kahypar.Hypergraph.State.{
  Hypergraph, hypernode, hyperedge, incident_edges, part_id, pins, edges, pin_count_in_part,
  connectivity, edge_weight,
}
use kahypar.Hypergraph.Blocks.Pins.{count_block, count_block-cong}
use kahypar.Hypergraph.Blocks.Counts.{IsLinked}
use kahypar.Hypergraph.Blocks.Assign.{IsCounted, IsPartitioned}
use kahypar.Hypergraph.Blocks.Weights.{IsWeighed, weight_in, size_in}
use kahypar.Hypergraph.Cut.Shares.{valid_ids-cong, count-valid_ids}
use kahypar.Hypergraph.Cut.Spread.{length-sum}
use kahypar.Metrics.{km1, km1_term, hyperedge_cut, cut_term}
use kahypar.Metrics.Sums.{sum_over-cong_on}

module _ (F : FlagArray) where
  -- `h` has the hypernodes and nets of `g`, and the blocks of `part`.
  pub record IsRelabelled (g h : Hypergraph F) (part : ℕ → Option ℕ) : Type 0 where
    pub blocks : h.k ≡ g.k
    pub order : h.num_hypernodes ≡ g.num_hypernodes
    pub nets : h.num_hyperedges ≡ g.num_hyperedges
    pub pins_same : (e : ℕ) → pins F h e ≡ pins F g e
    pub size : (e : ℕ) → (hyperedge F h e).size ≡ (hyperedge F g e).size
    pub live : (e : ℕ) → (hyperedge F h e).valid ≡ (hyperedge F g e).valid
    pub heavy : (e : ℕ) → edge_weight F h e ≡ edge_weight F g e
    pub enabled : (u : ℕ) → (hypernode F h u).valid ≡ (hypernode F g u).valid
    pub weight : (u : ℕ) → (hypernode F h u).weight ≡ (hypernode F g u).weight
    pub incident : (u : ℕ) → incident_edges F h u ≡ incident_edges F g u
    pub block : (u : ℕ) → part_id F h u ≡ part u

  pub IsRelabelled-refl : (g : Hypergraph F) → IsRelabelled g g (part_id F g)
  IsRelabelled-refl g = record {
    blocks = refl;
    order = refl;
    nets = refl;
    pins_same = λ e. refl;
    size = λ e. refl;
    live = λ e. refl;
    heavy = λ e. refl;
    enabled = λ u. refl;
    weight = λ u. refl;
    incident = λ u. refl;
    block = λ u. refl;
  }

  pub IsRelabelled-trans :
      {f g h : Hypergraph F} {p q r : ℕ → Option ℕ}
      → IsRelabelled f g p
      → IsRelabelled g h q
      → ((u : ℕ) → q u ≡ r u)
      → IsRelabelled f h r
  IsRelabelled-trans s t e = record {
    blocks = t.blocks ∙ s.blocks;
    order = t.order ∙ s.order;
    nets = t.nets ∙ s.nets;
    pins_same = λ e. t.pins_same e ∙ s.pins_same e;
    size = λ e. t.size e ∙ s.size e;
    live = λ e. t.live e ∙ s.live e;
    heavy = λ e. t.heavy e ∙ s.heavy e;
    enabled = λ u. t.enabled u ∙ s.enabled u;
    weight = λ u. t.weight u ∙ s.weight u;
    incident = λ u. t.incident u ∙ s.incident u;
    block = λ u. t.block u ∙ e u;
  }

  -- Two hypergraphs with the nets of `f` and the same blocks.
  module _ (f g h : Hypergraph F) (part : ℕ → Option ℕ) (s : IsRelabelled f g part)
      (t : IsRelabelled f h part) where
    same_part : (u : ℕ) → part_id F h u ≡ part_id F g u
    same_part u = t.block u ∙ sym (s.block u)

    same_count :
        (e i : ℕ)
        → i < g.k
        → IsCounted F g e
        → IsCounted F h e
        → pin_count_in_part F h e i ≡ pin_count_in_part F g e i
    same_count e i q c d =
        d.counted i (rw (t.blocks, sym (s.blocks)) q)
        ∙ count_block-cong (part_id F g) (part_id F h) (pins F h e) i same_part
        ∙ ap (λ ps. count_block (part_id F g) ps i) (t.pins_same e ∙ sym (s.pins_same e))
        ∙ sym (c.counted i q)

    same_connectivity :
        (e : ℕ) → IsCounted F g e → IsCounted F h e → connectivity F h e ≡ connectivity F g e
    same_connectivity e c d =
        let k : h.k ≡ g.k = t.blocks ∙ sym (s.blocks) in
        let xs = (g.connectivity_sets e).contained_parts in
        let ys = (h.connectivity_sets e).contained_parts in
        let below = length-sum g.k xs (λ i p. ground (arith, c.linked.listed i)) in
        let below' = length-sum g.k ys (λ i p. ground (arith, d.linked.listed i, k)) in
        let terms =
          sum_ℕ-cong (λ i. count i xs) (λ i. count i ys) g.k
            (λ i q.
              ground (arith, c.linked.listed i, d.linked.listed i, k, same_count e i q c d)) in
        d.linked.sized ∙ below' ∙ terms ∙ sym below ∙ sym (c.linked.sized)

    module _ (p : IsPartitioned F g) (q : IsPartitioned F h) where
      same_edges : edges F h ≡ edges F g
      same_edges =
          let n : h.num_hyperedges ≡ g.num_hyperedges = t.nets ∙ sym (s.nets) in
          rw n (
            valid_ids-cong F (λ e. (hyperedge F g e).valid) (λ e. (hyperedge F h e).valid) 0
              g.num_hyperedges (λ e. t.live e ∙ sym (s.live e)))

      enabled_net :
          (e : ℕ)
          → 0 < count e (edges F g)
          → (e < g.num_hyperedges) × ((hyperedge F g e).valid ≡ true)
      enabled_net e c =
          let l = count-valid_ids F (λ e. (hyperedge F g e).valid) e 0 g.num_hyperedges in
          (ground (arith, l), ground (arith, l))

      edge_connectivity :
          (e : ℕ) → 0 < count e (edges F g) → connectivity F h e ≡ connectivity F g e
      edge_connectivity e c =
          let l = enabled_net e c in
          same_connectivity e (p e l.0 l.1)
            (q e (rw (t.nets, sym (s.nets)) (l.0)) (t.live e ∙ sym (s.live e) ∙ l.1))

      same_weight : (e : ℕ) → edge_weight F h e ≡ edge_weight F g e
      same_weight e = t.heavy e ∙ sym (s.heavy e)

      pub same_km1 : km1 F h ≡ km1 F g
      unfolding km1
      same_km1 = rw same_edges (
          sum_over-cong_on (km1_term F g) (km1_term F h) (edges F g) (pos 0)
            (λ e c. rw (edge_connectivity e c, same_weight e) refl))

      pub same_cut : hyperedge_cut F h ≡ hyperedge_cut F g
      unfolding hyperedge_cut
      same_cut = rw same_edges (
          sum_over-cong_on (cut_term F g) (cut_term F h) (edges F g) (pos 0)
            (λ e c. rw (edge_connectivity e c, same_weight e) refl))

    pub same_part_weight :
        IsWeighed F g
        → IsWeighed F h
        → (b : ℕ) → b < g.k
        → (h.part_info b).weight ≡ (g.part_info b).weight
    same_part_weight w v b q =
        v.weights b (rw (t.blocks, sym (s.blocks)) q)
        ∙ rw (t.order, sym (s.order))
            (sum_ℤ-cong (λ u. weight_in (hypernode F g u) b) (λ u. weight_in (hypernode F h u) b)
              g.num_hypernodes
              (λ u l. rw (t.enabled u, t.weight u, same_part u, s.enabled u, s.weight u) refl))
        ∙ sym (w.weights b q)

    pub same_part_size :
        IsWeighed F g
        → IsWeighed F h
        → (b : ℕ) → b < g.k
        → (h.part_info b).size ≡ (g.part_info b).size
    same_part_size w v b q =
        v.sizes b (rw (t.blocks, sym (s.blocks)) q)
        ∙ rw (t.order, sym (s.order))
            (sum_ℕ-cong (λ u. size_in (hypernode F g u) b) (λ u. size_in (hypernode F h u) b)
              g.num_hypernodes (λ u l. rw (t.enabled u, same_part u, s.enabled u) refl))
        ∙ sym (w.sizes b q)
