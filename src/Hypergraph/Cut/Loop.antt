-- ===== src/Hypergraph/Cut/Loop.antt =====
-- changeNodePart, and the number of cut nets of every hypernode.
use kahypar.Prelude.{
  ℕ, suc, ◌<◌, ◌≡◌, ◌≢◌, refl, ap, List, [], ◌∷◌, arith, ltb, if◌then◌else◌, count,
}
use mathlib.Core.Path.{subst}
use native.Mathlib.Decide.{ℕ_discrete}
use kahypar.Prelude.Words.{u32_mod}
use kahypar.Containers.FlagArray.{FlagArray}
use kahypar.Hypergraph.State.{Hypergraph, incident_edges, edges, connectivity}
use kahypar.Hypergraph.Shape.{pins-SameShape}
use kahypar.Hypergraph.Blocks.{change_net_part, change_nets_part, change_node_part, move_part}
use kahypar.Hypergraph.Blocks.Moves.{change_net_part-SameShape}
use kahypar.Hypergraph.Marks.CutNets.{cut_nets, cut_pin_count}
use kahypar.Hypergraph.Cut.Step.{
  IsReady, connectivity-change_net_part, other-IsReady, moved-IsReady,
}
use kahypar.Hypergraph.Cut.Shares.{
  pin_total, cut_pin_count-le, share-le, same_nets, cut_pin_count-one, same_total,
}
use kahypar.Hypergraph.Cut.Movable.{IsMovable, movable-IsReady, movable-listed, movable-edges}
use kahypar.Hypergraph.Cut.CutNets.{cut_nets-change_net_part}

module _ (F : FlagArray) (u : ℕ) where
  module _ (from to : ℕ) (apart : from ≢ to) (es : List ℕ) where
    -- The loop over the nets keeps the cut count of `u` exact.
    cut_nets-change_nets_part :
        (hes : List ℕ) (g : Hypergraph F) (out : List ℕ)
        → from < g.k
        → to < g.k
        → ((y : ℕ) → 0 < count y hes → IsReady F g from (count y hes) y)
        → ((y : ℕ) → 0 < count y hes → count y es ≡ 1)
        → pin_total F u g es < u32_mod
        → cut_nets F u g ≡ cut_pin_count F u g es
        → let h = (change_nets_part F g hes from to out).0 in
          cut_nets F u h ≡ cut_pin_count F u h es
    unfolding change_nets_part count
    cut_nets-change_nets_part [] g out hf ht ready listed small exact = exact
    cut_nets-change_nets_part (x ∷ xs) g out hf ht ready listed small exact =
        let g' = (change_net_part F g x from to out).0 in
        let out' = (change_net_part F g x from to out).1 in
        let s = change_net_part-SameShape F x from to apart g x out in
        let r : IsReady F g from (suc (count x xs)) x =
          subst (λ n. IsReady F g from n x) (ground arith) (ready x (ground arith)) in
        let once = listed x (ground arith) in
        let near = share-le F u g x es once in
        let same = connectivity-change_net_part F from to apart g x out hf ht in
        let step =
          cut_nets-change_net_part F from to apart g x out hf ht (count x xs) r u
            (omega (arith, exact, cut_pin_count-le F u g es, small))
            (λ e. ground (arith, near.1, exact, small)) (λ e. ground (arith, near.0, exact)) in
        let exact' : cut_nets F u g' ≡ cut_pin_count F u g' es = omega (
          arith,
          step,
          exact,
          cut_pin_count-one F u g g' x same s es once,
          ap (λ ps. if ltb 1 (connectivity F g' x) then count u ps else 0) (pins-SameShape F s x),
        ) in
        cut_nets-change_nets_part xs g' out' (rw s.blocks hf) (rw s.blocks ht)
          (λ y p. elim (ℕ_discrete x y) [
            | yes e ↦
                subst (λ z. IsReady F g' from (count z xs) z) e
                  (moved-IsReady F from to apart g x out hf ht (count x xs) r)
            | no ne ↦
                other-IsReady F from to apart g x out hf ht (count y xs) y ne
                  (subst (λ n. IsReady F g from n y) (ground arith) (ready y (ground arith)))
          ])
          (λ y p. listed y (ground arith)) (omega (arith, same_total F u g g' x same s es, small))
          exact'

  -- Where a move of `hn` from block `from` to `to` has what it asks for (exact pin counts and connectivity
  -- sets, the nets of `hn` enabled, with `hn` listed as often as it is a pin of them and no pin without
  -- a block below k, `hn` in block `from`, both blocks below k and different, net sizes below 2 ^ 32),
  -- and `u` is a pin of enabled nets less than 2 ^ 32 times: when the cut count of `u` is the number
  -- of times it is a pin of an enabled net that connects several blocks, it is so again after
  -- changeNodePart(hn, from, to).
  pub change_node_part-cut_nets :
      (g : Hypergraph F) (hn from to : ℕ) (out : List ℕ)
      → IsMovable F g hn from to
      → pin_total F u g (edges F g) < u32_mod
      → cut_nets F u g ≡ cut_pin_count F u g (edges F g)
      → let h = (change_node_part F g hn from to out).0 in
        cut_nets F u h ≡ cut_pin_count F u h (edges F h)
  unfolding change_node_part move_part
  change_node_part-cut_nets g hn from to out m room exact =
      let g₁ = move_part F g hn from to in
      let es = edges F g in
      let same = same_nets F u g g₁ refl refl es in
      let cut_same : cut_nets F u g₁ ≡ cut_nets F u g = ground arith in
      rw (movable-edges F g hn from to m out) (
        cut_nets-change_nets_part from to m.apart es (incident_edges F g hn) g₁ out m.from_inside
          m.to_inside (movable-IsReady F g hn from to m) (movable-listed F g hn from to m)
          (omega (arith, same.1, room)) (omega (arith, same.0, exact, cut_same)))
