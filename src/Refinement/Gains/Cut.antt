-- ===== src/Refinement/Gains/Cut.antt =====
-- The gain of the k-way refiner for the cut, and the cut after a move.
use kahypar.Prelude.{
  ℕ, ◌+◌, ◌-◌, ◌≤◌, ◌<◌, ◌≡◌, ◌≢◌, refl, ◌∙◌, ◌&&◌, some, List, arith, ltb, ◌==◌, if◌then◌else◌,
  count,
}
use mathlib.Core.Option
use kahypar.Prelude.Int.{ℤ, pos, ◌-ℤ◌}
use kahypar.Containers.FlagArray.{FlagArray}
use kahypar.Hypergraph.State.{
  Hypergraph, incident_edges, pin_count_in_part, connectivity, edge_weight, edge_size,
}
use kahypar.Hypergraph.Blocks.{change_net_part, change_node_part, move_part}
use kahypar.Hypergraph.Cut.Step.{
  f_small, IsLinked-after, full_after, to_after, cut_lem, connectivity-change_net_part,
}
use kahypar.Hypergraph.Cut.Connectivity.{
  edge_weight-change_net_part, pin_count_there, connectivity_before,
}
use kahypar.Hypergraph.Cut.Movable.{IsMovable}
use kahypar.Prelude.Words.{dec32, dec32_lem}
use kahypar.Hypergraph.Blocks.Moves.{change_net_part-SameShape}
use kahypar.Metrics.{hyperedge_cut, cut_term}
use kahypar.Refinement.Gains.{cut_gain, cut_gain_induced_by_hypergraph}
use kahypar.Refinement.Gains.Loop.{IsGain, sum_over-change_node_part}

-- One net of weight `w` and size `s`, of connectivity `c` before and `c'` after, with `f` and `t` pins
-- in the two blocks.
cut_step :
    (w : ℤ) (c c' f t s d : ℕ)
    → 0 < c
    → 0 < f
    → f + t ≤ s
    → 2 ≤ s
    → d ≡ s - 1
    → ltb 1 c ≡ ltb f s
    → ltb 1 c' ≡ ltb (t + 1) s
    → (if ltb 1 c' then w else pos 0)
      ≡ (if ltb 1 c then w else pos 0)
        -ℤ (if c == 1 then pos 0 -ℤ w else if (f == 1) && (t == d) then w else pos 0)
unfolding ◌-ℤ◌
cut_step w c c' f t s d hc hf sum big hd e e' = ground arith

module _ (F : FlagArray) (from to : ℕ) (apart : from ≢ to) where
  cut-IsGain : IsGain F from to apart 2 (cut_term F) (λ g. cut_gain F g from to)
  unfolding cut_gain move_part
  cut-IsGain = record {
    here = λ g x out hf ht r big.
        let h = (change_net_part F g x from to out).0 in
        let s = change_net_part-SameShape F x from to apart g x out in
        let f = f_small F from to apart g x out hf ht 0 r in
        let up = to_after F from to apart g x out hf ht 0 r in
        let before = cut_lem F g x from hf (omega (arith, r.enough)) r.linked r.full in
        let after =
          cut_lem F h x to (rw s.blocks ht) (omega (arith, up))
            (IsLinked-after F from to apart g x out hf ht 0 r)
            (full_after F from to apart g x out hf ht 0 r) in
        rw (edge_weight-change_net_part F from to apart g x out hf ht x) (
          cut_step (edge_weight F g x) (connectivity F g x) (connectivity F h x)
            (pin_count_in_part F g x from) (pin_count_in_part F g x to) (edge_size F g x)
            (dec32 (edge_size F g x)) (connectivity_before F from to apart g x out hf ht 0 r)
            (omega (arith, r.enough)) f big
            (ground (arith, dec32_lem (edge_size F g x), big, r.room)) before
            (after ∙ ground (arith, up, s.size x)));
    term_there = λ g x out hf ht y ne.
        rw
          (
            connectivity-change_net_part F from to apart g x out hf ht y ne,
            edge_weight-change_net_part F from to apart g x out hf ht y,
          )
          refl;
    gain_there = λ g x out hf ht y ne.
        let s = change_net_part-SameShape F x from to apart g x out in
        rw
          (
            pin_count_there F from to apart g x out hf ht y ne from hf,
            pin_count_there F from to apart g x out hf ht y ne to ht,
            connectivity-change_net_part F from to apart g x out hf ht y ne,
            s.size y,
            edge_weight-change_net_part F from to apart g x out hf ht y,
          )
          refl;
    term_move = λ g hn y. refl;
    gain_move = λ g hn y. refl;
  }

  -- Where a move of `hn` from block `from` to `to` has what it asks for (exact pin counts and connectivity
  -- sets, the nets of `hn` enabled, with `hn` listed as often as it is a pin of them and no pin without
  -- a block below k, `hn` in block `from`, both blocks below k and different, net sizes below 2 ^ 32),
  -- `hn` lists no net twice and its nets have two pins or more: changeNodePart(hn, from, to) lowers the cut
  -- by the gain that the k-way refiner for the cut computes for the move before it.
  pub hyperedge_cut-change_node_part :
      (g : Hypergraph F) (hn : ℕ) (out : List ℕ)
      → IsMovable F g hn from to
      → ((he : ℕ) → count he (incident_edges F g hn) ≤ 1)
      → ((he : ℕ) → 0 < count he (incident_edges F g hn) → 2 ≤ edge_size F g he)
      → some (hyperedge_cut F (change_node_part F g hn from to out).0)
        ≡ Option.map (λ gain. hyperedge_cut F g -ℤ gain) (cut_gain_induced_by_hypergraph F g hn to)
  unfolding hyperedge_cut cut_gain_induced_by_hypergraph
  hyperedge_cut-change_node_part g hn out m once big =
      rw
        (sum_over-change_node_part F from to apart 2 (cut_term F) (λ g. cut_gain F g from to)
          cut-IsGain g hn out m once big)
        (rw (cut_gain_induced_by_hypergraph, m.old) refl)
