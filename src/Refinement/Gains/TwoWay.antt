-- ===== src/Refinement/Gains/TwoWay.antt =====
-- The gain of the two-way refiner and that of the k-way refiner for the cut, with two blocks.
use kahypar.Prelude.{
  ℕ, zero, suc, ◌+◌, ◌-◌, ◌≤◌, ◌<◌, ◌≡◌, ap, ◌&&◌, some, arith, ltb, ◌==◌, if◌then◌else◌, count,
}
use kahypar.Prelude.Int.{ℤ, pos, ◌+ℤ◌, ◌-ℤ◌}
use kahypar.Containers.FlagArray.{FlagArray}
use kahypar.Hypergraph.State.{
  Hypergraph, incident_edges, pin_count_in_part, connectivity, edge_weight, edge_size,
}
use kahypar.Hypergraph.Blocks.{move_part}
use kahypar.Hypergraph.Cut.Step.{cut_lem}
use kahypar.Hypergraph.Cut.Movable.{IsMovable}
use kahypar.Prelude.Words.{dec32, dec32_lem}
use kahypar.Prelude.Sums.{sum_ℕ}
use kahypar.Hypergraph.Cut.Movable.{movable-IsReady}
use kahypar.Hypergraph.Blocks.Counts.{IsLinked}
use kahypar.Hypergraph.Cut.Connectivity.{connectivity_pos}
use kahypar.Metrics.Sums.{sum_over-cong_on}
use kahypar.Refinement.Gains.{
  cut_gain, cut_gain_induced_by_hypergraph, two_way_gain, compute_gain, other_block,
}

-- One net of weight `w` whose `f` and `t` pins in the two blocks are all there are.
two_way_step :
    (w : ℤ) (c f t s d : ℕ)
    → 0 < c
    → 0 < f
    → f + t ≡ s
    → 2 ≤ s
    → d ≡ s - 1
    → ltb 1 c ≡ ltb f s
    → (if t == 0 then pos 0 -ℤ w else pos 0) +ℤ (if f == 1 then w else pos 0)
      ≡ (if c == 1 then pos 0 -ℤ w else if (f == 1) && (t == d) then w else pos 0)
unfolding ◌-ℤ◌ ◌+ℤ◌
two_way_step w c f t s d hc hf sum big hd e = ground arith

-- The counts of two blocks.
both_blocks :
    (F : FlagArray) (p : ℕ → ℕ) (k b : ℕ) → k ≡ 2 → b < k → sum_ℕ p k ≡ p b + p (other_block F b)
unfolding sum_ℕ other_block
both_blocks F p k zero two h = rw two (omega arith)
both_blocks F p k (suc zero) two h = rw two (omega arith)
both_blocks F p k (suc (suc b)) two h = absurd (omega arith)

module _ (F : FlagArray) where
  -- Where a move of `hn` from block `from` to the other one of two has what it asks for (exact pin counts
  -- and connectivity sets, the nets of `hn` enabled, with `hn` listed as often as it is a pin of them and
  -- no pin without a block, `hn` in block `from`, both blocks below k and different, net sizes below
  -- 2 ^ 32), and the nets of `hn` have two pins or more: the gain that the two-way refiner computes is
  -- the gain that the k-way refiner for the cut computes for that move.
  pub compute_gain-cut_gain :
      (g : Hypergraph F) (hn from : ℕ)
      → g.k ≡ 2
      → IsMovable F g hn from (other_block F from)
      → ((he : ℕ) → 0 < count he (incident_edges F g hn) → 2 ≤ edge_size F g he)
      → compute_gain F g hn ≡ cut_gain_induced_by_hypergraph F g hn (other_block F from)
  unfolding compute_gain cut_gain_induced_by_hypergraph move_part two_way_gain cut_gain
  compute_gain-cut_gain g hn from two m big =
      let to = other_block F from in
      rw (compute_gain, cut_gain_induced_by_hypergraph, m.old)
        (ap some (
          sum_over-cong_on (cut_gain F g from to) (two_way_gain F g from) (incident_edges F g hn)
            (pos 0)
            (λ y q.
              let r = movable-IsReady F g hn from to m y q in
              let some_pin : 0 < pin_count_in_part F g y from = omega (arith, r.enough, q) in
              let l : IsLinked F g y = record {
                listed = r.linked.listed;
                sized = r.linked.sized;
              } in
              two_way_step (edge_weight F g y) (connectivity F g y) (pin_count_in_part F g y from)
                (pin_count_in_part F g y to) (edge_size F g y) (dec32 (edge_size F g y))
                (connectivity_pos F g y from m.from_inside some_pin l) some_pin
                (omega (
                  arith,
                  r.full,
                  both_blocks F (λ i. pin_count_in_part F g y i) g.k from two m.from_inside,
                ))
                (big y q) (ground (arith, dec32_lem (edge_size F g y), big y q, r.room))
                (cut_lem F g y from m.from_inside some_pin l r.full))))
