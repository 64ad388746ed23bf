-- ===== src/Hypergraph/Partition/Step.antt =====
-- What local search relies on in a hypergraph with blocks, and a move of one hypernode.
use kahypar.Prelude.{
  ℕ, ◌≤◌, ◌<◌, ◌≡◌, ◌≢◌, refl, ◌∙◌, sym, true, Option, some, List, [], ◌∷◌, arith, count,
}
use native.Mathlib.Decide.{ℕ_discrete}
use kahypar.Prelude.Arrays.{update}
use kahypar.Prelude.Words.{u32_mod}
use kahypar.Containers.FlagArray.{FlagArray}
use kahypar.Hypergraph.State.{
  Hypergraph, hypernode, hyperedge, incident_edges, part_id, pins, edge_weight,
}
use kahypar.Hypergraph.Shape.{pins-SameShape}
use kahypar.Hypergraph.Blocks.{move_part, change_net_part, change_nets_part, change_node_part}
use kahypar.Hypergraph.Blocks.Assign.{IsPartitioned, IsIncident}
use kahypar.Hypergraph.Blocks.Moves.{
  change_net_part-SameShape, change_nets_part-SameShape, change_node_part-IsPartitioned,
}
use kahypar.Hypergraph.Blocks.Weights.{IsWeighed, change_node_part-IsWeighed}
use kahypar.Hypergraph.Cut.Connectivity.{edge_weight-change_net_part}
use kahypar.Hypergraph.Cut.Movable.{IsMovable}
use kahypar.Hypergraph.Partition.{IsRelabelled}

module _ (F : FlagArray) where
  -- Every pin of an enabled net has a block, pin counts, connectivity sets and block weights are exact,
  -- and enabled hypernodes and enabled nets list each other once.
  pub record IsSearchable (g : Hypergraph F) : Type 0 where
    pub partitioned : IsPartitioned F g
    pub weighed : IsWeighed F g
    pub incident : (u : ℕ) → (hypernode F g u).valid ≡ true → IsIncident F g u
    pub enabled :
        (u he : ℕ)
        → (hypernode F g u).valid ≡ true
        → 0 < count he (incident_edges F g u)
        → (he < g.num_hyperedges) × ((hyperedge F g he).valid ≡ true)
    pub once : (u he : ℕ) → (hypernode F g u).valid ≡ true → count he (incident_edges F g u) ≤ 1
    pub assigned :
        (he v : ℕ)
        → he < g.num_hyperedges
        → (hyperedge F g he).valid ≡ true
        → 0 < count v (pins F g he)
        → (b : ℕ) × (part_id F g v ≡ some b) × (b < g.k)
    pub bounded : (u b : ℕ) → part_id F g u ≡ some b → b < g.k
    pub small : (he : ℕ) → (hyperedge F g he).size < u32_mod
    pub few : g.num_hypernodes < u32_mod

  -- A move of an enabled hypernode to another block.
  pub record IsMove (g : Hypergraph F) (hn from to : ℕ) : Type 0 where
    pub inside : hn < g.num_hypernodes
    pub live : (hypernode F g hn).valid ≡ true
    pub old : part_id F g hn ≡ some from
    pub apart : from ≢ to
    pub from_inside : from < g.k
    pub to_inside : to < g.k

  pub IsMovable-of :
      (g : Hypergraph F) (hn from to : ℕ)
      → IsSearchable g
      → IsMove g hn from to
      → IsMovable F g hn from to
  IsMovable-of g hn from to s m = record {
    partitioned = s.partitioned;
    incident = s.incident hn m.live;
    enabled = λ he c. s.enabled hn he m.live c;
    assigned = λ he c v p. let l = s.enabled hn he m.live c in s.assigned he v l.0 l.1 p;
    old = m.old;
    apart = m.apart;
    from_inside = m.from_inside;
    to_inside = m.to_inside;
    small = s.small;
  }

  module _ (from to : ℕ) (apart : from ≢ to) where
    edge_weight-change_nets_part :
        (hes : List ℕ) (g : Hypergraph F) (out : List ℕ)
        → from < g.k
        → to < g.k
        → (e : ℕ) → edge_weight F (change_nets_part F g hes from to out).0 e ≡ edge_weight F g e
    unfolding change_nets_part
    edge_weight-change_nets_part [] g out hf ht e = refl
    edge_weight-change_nets_part (x ∷ xs) g out hf ht e =
        let g' = (change_net_part F g x from to out).0 in
        let s = (change_net_part-SameShape F x from to apart g x out).blocks in
        edge_weight-change_nets_part xs g' (change_net_part F g x from to out).1 (rw s hf) (rw s ht)
          e
        ∙ edge_weight-change_net_part F from to apart g x out hf ht e

  -- changeNodePart changes the block of the hypernode alone.
  pub change_node_part-IsRelabelled :
      (g : Hypergraph F) (hn from to : ℕ) (out : List ℕ)
      → IsMove g hn from to
      → IsRelabelled F g (change_node_part F g hn from to out).0 (update (part_id F g) hn (some to))
  unfolding change_node_part move_part
  change_node_part-IsRelabelled g hn from to out m =
      let g₁ = move_part F g hn from to in
      let hes = incident_edges F g hn in
      let s = change_nets_part-SameShape F 0 from to m.apart hes g₁ out in
      record {
        blocks = s.blocks;
        order = s.order;
        nets = s.nets;
        pins_same = pins-SameShape F s;
        size = s.size;
        live = s.live;
        heavy = edge_weight-change_nets_part from to m.apart hes g₁ out m.from_inside m.to_inside;
        enabled = λ u. s.enabled u ∙ ground arith;
        weight = λ u. s.weight u ∙ ground arith;
        incident = λ u. s.incident u ∙ ground arith;
        block = λ u. s.part u ∙ ground arith;
      }

  -- Searchable hypergraphs stay searchable with other blocks, where counts and weights are exact.
  pub IsSearchable-of :
      (g h : Hypergraph F) (part : ℕ → Option ℕ)
      → IsSearchable g
      → IsRelabelled F g h part
      → IsPartitioned F h
      → IsWeighed F h
      → ((u : ℕ)
          → (b : ℕ) × (part_id F g u ≡ some b) × (b < g.k)
          → (b : ℕ) × (part u ≡ some b) × (b < g.k))
      → ((u b : ℕ) → part u ≡ some b → b < g.k)
      → IsSearchable h
  IsSearchable-of g h part s r p w blocks bounds = record {
    partitioned = p;
    weighed = w;
    incident = λ u live he inside net.
        rw (r.incident u, r.pins_same he)
          (s.incident u (sym (r.enabled u) ∙ live) he (rw (r.nets) at inside)
            (sym (r.live he) ∙ net));
    enabled = λ u he live c.
        let l = s.enabled u he (sym (r.enabled u) ∙ live) (rw (r.incident u) at c) in
        (rw (r.nets) (l.0), r.live he ∙ l.1);
    once = λ u he live. rw (r.incident u) (s.once u he (sym (r.enabled u) ∙ live));
    assigned = λ he v inside net c.
        let (b, e, q) = blocks v (
          s.assigned he v (rw (r.nets) at inside) (sym (r.live he) ∙ net)
            (rw (r.pins_same he) at c)) in
        (b, r.block v ∙ e, rw (r.blocks) q);
    bounded = λ u b e. rw (r.blocks) (bounds u b (sym (r.block u) ∙ e));
    small = λ he. rw (r.size he) (s.small he);
    few = rw (r.order) (s.few);
  }

  pub change_node_part-IsSearchable :
      (g : Hypergraph F) (hn from to : ℕ) (out : List ℕ)
      → IsSearchable g
      → IsMove g hn from to
      → IsSearchable (change_node_part F g hn from to out).0
  change_node_part-IsSearchable g hn from to out s m =
      IsSearchable-of g (change_node_part F g hn from to out).0 (update (part_id F g) hn (some to))
        s (change_node_part-IsRelabelled g hn from to out m)
        (change_node_part-IsPartitioned F g hn from to out s.partitioned (s.incident hn m.live)
          m.old m.apart m.from_inside m.to_inside s.small)
        (change_node_part-IsWeighed F g hn from to out s.weighed m.inside m.live s.few m.old
          m.apart)
        (λ u b. elim (ℕ_discrete hn u) [
          | yes e ↦ (to, ground arith, m.to_inside)
          | no ne ↦ (b.0, ground (arith, b.1), b.2)
        ])
        (λ u b e. ground (arith, s.bounded u b, m.to_inside, e))
