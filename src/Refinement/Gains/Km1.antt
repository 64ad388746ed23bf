-- ===== src/Refinement/Gains/Km1.antt =====
-- The gain of the k-way refiner for the connectivity metric, and that metric after a move.
use kahypar.Prelude.{
  ℕ, suc, ◌+◌, ◌-◌, ◌≤◌, ◌≡◌, ◌≢◌, refl, Bool, true, false, some, List, arith, ◌==◌, if◌then◌else◌,
  count,
}
use mathlib.Core.Option
use kahypar.Prelude.Int.{ℤ, pos, ◌-ℤ◌, ◌*ℤ◌, +ℤ_parts, -ℤ_parts, eq_of_parts}
use kahypar.Containers.FlagArray.{FlagArray}
use kahypar.Hypergraph.State.{
  Hypergraph, incident_edges, pin_count_in_part, connectivity, edge_weight,
}
use kahypar.Hypergraph.Blocks.{change_net_part, change_node_part, move_part}
use kahypar.Hypergraph.Cut.Step.{connectivity-change_net_part}
use kahypar.Hypergraph.Cut.Connectivity.{
  edge_weight-change_net_part, pin_count_there, connectivity_before, connectivity_behind,
  connectivity_after,
}
use kahypar.Hypergraph.Cut.Movable.{IsMovable}
use kahypar.Metrics.{km1, km1_term}
use kahypar.Metrics.Relations.{mul-split}
use kahypar.Refinement.Gains.{gain_induced_by_hyperedge, gain_induced_by_hypergraph}
use kahypar.Refinement.Gains.Loop.{IsGain, sum_over-change_node_part}

-- One net of weight `w` loses a block (`a`), gets one (`b`), or both.
km1_step :
    (w : ℤ) (n n' : ℕ) (a b : Bool)
    → n' + (if a then 1 else 0) ≡ n + (if b then 1 else 0)
    → pos n' *ℤ w ≡ pos n *ℤ w -ℤ ((if a then w else pos 0) -ℤ (if b then w else pos 0))
km1_step w n n' true true e =
    let same : n' ≡ n = omega arith in rw same (eq_of_parts _ _ (omega (arith, -ℤ_parts)))
km1_step w n n' true false e =
    let less : n ≡ suc n' = omega arith in
    rw (less, mul-split n' w) (eq_of_parts _ _ (omega (arith, +ℤ_parts, -ℤ_parts)))
km1_step w n n' false true e =
    let more : n' ≡ suc n = omega arith in
    rw (more, mul-split n w) (eq_of_parts _ _ (omega (arith, +ℤ_parts, -ℤ_parts)))
km1_step w n n' false false e =
    let same : n' ≡ n = omega arith in rw same (eq_of_parts _ _ (omega (arith, -ℤ_parts)))

module _ (F : FlagArray) (from to : ℕ) (apart : from ≢ to) where
  km1-IsGain : IsGain F from to apart 0 (km1_term F) (λ g. gain_induced_by_hyperedge F g from to)
  unfolding gain_induced_by_hyperedge move_part
  km1-IsGain = record {
    here = λ g x out hf ht r big. rw (edge_weight-change_net_part F from to apart g x out hf ht x) (
        km1_step (edge_weight F g x) (connectivity F g x - 1)
          (connectivity F (change_net_part F g x from to out).0 x - 1)
          (pin_count_in_part F g x from == 1) (pin_count_in_part F g x to == 0)
          (omega (
            arith,
            connectivity_before F from to apart g x out hf ht 0 r,
            connectivity_behind F from to apart g x out hf ht 0 r,
            connectivity_after F from to apart g x out hf ht 0 r,
          )));
    term_there = λ g x out hf ht y ne.
        rw
          (
            connectivity-change_net_part F from to apart g x out hf ht y ne,
            edge_weight-change_net_part F from to apart g x out hf ht y,
          )
          refl;
    gain_there = λ g x out hf ht y ne.
        rw
          (
            pin_count_there F from to apart g x out hf ht y ne from hf,
            pin_count_there F from to apart g x out hf ht y ne to ht,
            edge_weight-change_net_part F from to apart g x out hf ht y,
          )
          refl;
    term_move = λ g hn y. refl;
    gain_move = λ g hn y. refl;
  }

  -- Where a move of `hn` from block `from` to `to` has what it asks for (exact pin counts and connectivity
  -- sets, the nets of `hn` enabled, with `hn` listed as often as it is a pin of them and no pin without
  -- a block below k, `hn` in block `from`, both blocks below k and different, net sizes below 2 ^ 32),
  -- and `hn` lists no net twice: changeNodePart(hn, from, to) lowers the connectivity metric by the gain
  -- that the k-way refiner for that metric computes for the move before it.
  pub km1-change_node_part :
      (g : Hypergraph F) (hn : ℕ) (out : List ℕ)
      → IsMovable F g hn from to
      → ((he : ℕ) → count he (incident_edges F g hn) ≤ 1)
      → some (km1 F (change_node_part F g hn from to out).0)
        ≡ Option.map (λ gain. km1 F g -ℤ gain) (gain_induced_by_hypergraph F g hn to)
  unfolding km1 gain_induced_by_hypergraph
  km1-change_node_part g hn out m once =
      rw
        (sum_over-change_node_part F from to apart 0 (km1_term F)
          (λ g. gain_induced_by_hyperedge F g from to) km1-IsGain g hn out m once
          (λ he p. omega arith))
        (rw (gain_induced_by_hypergraph, m.old) refl)
