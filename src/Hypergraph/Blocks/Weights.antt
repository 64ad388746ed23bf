-- ===== src/Hypergraph/Blocks/Weights.antt =====
-- The weight and size of each block: what setNodePart and changeNodePart do to `_part_info`.
use kahypar.Prelude.{
  ℕ, ◌+◌, ◌<◌, ◌≤◌, ◌≡◌, ◌≢◌, ◌∙◌, sym, ap, true, ◌&&◌, none, some, List, arith, if◌then◌else◌,
}
use kahypar.Prelude.Sums.{
  sum_ℤ, sum_ℕ, sum_ℤ-change, sum_ℕ-change, sum_ℤ-cong, sum_ℕ-cong, change_from_zero,
  change_to_zero, change_none, sum_ℕ-le,
}
use kahypar.Prelude.Words.{u32_mod, inc32_lem, dec32_lem}
use kahypar.Prelude.Int.{ℤ, pos, ◌+ℤ◌, ◌-ℤ◌}
use kahypar.Containers.FlagArray.{FlagArray}
use kahypar.Hypergraph.State.{
  Hypernode, Hypergraph, hypernode, incident_edges, part_id, node_weight,
}
use kahypar.Hypergraph.Shape.{SameShape}
use kahypar.Hypergraph.Blocks.{
  enter_part, move_part, increment_all, set_node_part, change_nets_part, change_node_part,
}
use kahypar.Hypergraph.Blocks.Assign.{increment_all-SameShape}
use kahypar.Hypergraph.Blocks.Moves.{change_nets_part-SameShape}
use kahypar.Hypergraph.Blocks.Pins.{in_block}

-- What a hypernode adds to the weight and the size of block `b`.
abbrev pub weight_in : Hypernode → ℕ → ℤ
weight_in x b = if x.valid && in_block x.part_id b then x.weight else pos 0

abbrev pub size_in : Hypernode → ℕ → ℕ
size_in x b = if x.valid && in_block x.part_id b then 1 else 0

module _ (F : FlagArray) where
  -- Each block's weight and size are those of the enabled hypernodes in it.
  pub record IsWeighed (g : Hypergraph F) : Type 0 where
    pub weights :
        (b : ℕ)
        → b < g.k
        → (g.part_info b).weight ≡ sum_ℤ (λ u. weight_in (hypernode F g u) b) g.num_hypernodes
    pub sizes :
        (b : ℕ)
        → b < g.k
        → (g.part_info b).size ≡ sum_ℕ (λ u. size_in (hypernode F g u) b) g.num_hypernodes

  module _ (g : Hypergraph F) (hn : ℕ) (inside : hn < g.num_hypernodes)
      (live : (hypernode F g hn).valid ≡ true) (small : g.num_hypernodes < u32_mod)
      (w : IsWeighed g) where
    -- The sums after a change of `hn` alone.
    weight_change :
        (g' : Hypergraph F) (b : ℕ)
        → ((i : ℕ) → hn ≢ i → hypernode F g' i ≡ hypernode F g i)
        → sum_ℤ (λ u. weight_in (hypernode F g' u) b) g.num_hypernodes
          ≡ sum_ℤ (λ u. weight_in (hypernode F g u) b) g.num_hypernodes
            -ℤ weight_in (hypernode F g hn) b
            +ℤ weight_in (hypernode F g' hn) b
    weight_change g' b same =
        sum_ℤ-change (λ u. weight_in (hypernode F g u) b) (λ u. weight_in (hypernode F g' u) b) hn
          g.num_hypernodes inside (λ i ne. rw (same i ne))

    size_change :
        (g' : Hypergraph F) (b : ℕ)
        → ((i : ℕ) → hn ≢ i → hypernode F g' i ≡ hypernode F g i)
        → sum_ℕ (λ u. size_in (hypernode F g' u) b) g.num_hypernodes + size_in (hypernode F g hn) b
          ≡ sum_ℕ (λ u. size_in (hypernode F g u) b) g.num_hypernodes
            + size_in (hypernode F g' hn) b
    size_change g' b same =
        sum_ℕ-change (λ u. size_in (hypernode F g u) b) (λ u. size_in (hypernode F g' u) b) hn
          g.num_hypernodes inside (λ i ne. rw (same i ne))

    -- A block never has more hypernodes than there are.
    size_bound :
        (g' : Hypergraph F) (b : ℕ)
        → sum_ℕ (λ u. size_in (hypernode F g' u) b) g.num_hypernodes ≤ g.num_hypernodes
    size_bound g' b =
        sum_ℕ-le (λ u. size_in (hypernode F g' u) b) g.num_hypernodes (λ i. ground arith)

    enter_part-IsWeighed :
        (id : ℕ) → part_id F g hn ≡ none → id < g.k → IsWeighed (enter_part F g hn id)
    unfolding enter_part
    enter_part-IsWeighed id new h =
        let g' = enter_part F g hn id in
        record {
          weights = λ b p.
              let s = sum_ℤ (λ u. weight_in (hypernode F g u) b) g.num_hypernodes in
              ground (
                arith,
                w.weights b p,
                weight_change g' b (λ i ne. ground arith),
                change_from_zero s (node_weight F g hn),
                change_none s (pos 0),
              );
          sizes = λ b p. ground (
            arith,
            w.sizes b p,
            size_change g' b (λ i ne. ground arith),
            size_bound g' b,
            inc32_lem (g.part_info b).size,
          );
        }

    move_part-IsWeighed :
        (from to : ℕ)
        → part_id F g hn ≡ some from
        → from ≢ to
        → IsWeighed (move_part F g hn from to)
    unfolding move_part
    move_part-IsWeighed from to old apart =
        let g' = move_part F g hn from to in
        record {
          weights = λ b p.
              let s = sum_ℤ (λ u. weight_in (hypernode F g u) b) g.num_hypernodes in
              ground (
                arith,
                w.weights b p,
                weight_change g' b (λ i ne. ground arith),
                change_from_zero s (node_weight F g hn),
                change_to_zero s (node_weight F g hn),
                change_none s (pos 0),
              );
          sizes = λ b p. ground (
            arith,
            w.sizes b p,
            size_change g' b (λ i ne. ground arith),
            size_bound g' b,
            size_bound g b,
            inc32_lem (g.part_info b).size,
            dec32_lem (g.part_info b).size,
          );
        }

  -- Nothing but hypernodes and blocks is weighed.
  IsWeighed-SameShape : (g h : Hypergraph F) → SameShape F g h → IsWeighed g → IsWeighed h
  IsWeighed-SameShape g h s w = record {
    weights = λ b p.
        ap (λ info. (info b).weight) s.info
        ∙ w.weights b (rw s.blocks at p)
        ∙ sum_ℤ-cong (λ u. weight_in (hypernode F h u) b) (λ u. weight_in (hypernode F g u) b)
            g.num_hypernodes (λ i q. rw (s.enabled i, s.part i, s.weight i))
        ∙ ap (sum_ℤ (λ u. weight_in (hypernode F h u) b)) (sym s.order);
    sizes = λ b p.
        ap (λ info. (info b).size) s.info
        ∙ w.sizes b (rw s.blocks at p)
        ∙ sum_ℕ-cong (λ u. size_in (hypernode F h u) b) (λ u. size_in (hypernode F g u) b)
            g.num_hypernodes (λ i q. rw (s.enabled i, s.part i))
        ∙ ap (sum_ℕ (λ u. size_in (hypernode F h u) b)) (sym s.order);
  }

  -- Where every block's weight and size are those of its enabled hypernodes, assigning an enabled hypernode
  -- without a block to a block below k keeps them so; there are fewer than 2 ^ 32 hypernodes.
  pub set_node_part-IsWeighed :
      (g : Hypergraph F) (hn id : ℕ)
      → IsWeighed g
      → hn < g.num_hypernodes
      → (hypernode F g hn).valid ≡ true
      → g.num_hypernodes < u32_mod
      → part_id F g hn ≡ none
      → id < g.k
      → IsWeighed (set_node_part F g hn id)
  unfolding set_node_part
  set_node_part-IsWeighed g hn id w inside live small new h =
      let g₁ = enter_part F g hn id in
      let hes = incident_edges F g hn in
      IsWeighed-SameShape g₁ (increment_all F g₁ hes id) (increment_all-SameShape F 0 id hes g₁)
        (enter_part-IsWeighed g hn inside live small w id new h)

  -- Where every block's weight and size are those of its enabled hypernodes, moving an enabled hypernode
  -- to another block keeps them so; there are fewer than 2 ^ 32 hypernodes.
  pub change_node_part-IsWeighed :
      (g : Hypergraph F) (hn from to : ℕ) (out : List ℕ)
      → IsWeighed g
      → hn < g.num_hypernodes
      → (hypernode F g hn).valid ≡ true
      → g.num_hypernodes < u32_mod
      → part_id F g hn ≡ some from
      → from ≢ to
      → IsWeighed (change_node_part F g hn from to out).0
  unfolding change_node_part
  change_node_part-IsWeighed g hn from to out w inside live small old apart =
      let g₁ = move_part F g hn from to in
      let hes = incident_edges F g hn in
      IsWeighed-SameShape g₁ (change_nets_part F g₁ hes from to out).0
        (change_nets_part-SameShape F 0 from to apart hes g₁ out)
        (move_part-IsWeighed g hn inside live small w from to old apart)
