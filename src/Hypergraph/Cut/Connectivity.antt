-- ===== src/Hypergraph/Cut/Connectivity.antt =====
-- One step of the loop of changeNodePart: the connectivity and the weight of the net.
use kahypar.Prelude.{
  ℕ, suc, ◌+◌, ◌≤◌, ◌<◌, ◌≡◌, ◌≢◌, ◌∙◌, ap, List, [], ◌∷◌, arith, ◌==◌, if◌then◌else◌, length,
  count,
}
use kahypar.Containers.FlagArray.{FlagArray}
use kahypar.Hypergraph.State.{Hypergraph, pin_count_in_part, connectivity}
use kahypar.Hypergraph.Blocks.{
  change_net_part, increment_pin_count_in_part, decrement_pin_count_in_part,
}
use kahypar.Hypergraph.Blocks.Counts.{IsLinked, increment-true, decrement-true, decrement-pin_count}
use kahypar.Hypergraph.Blocks.Moves.{
  change_net_part-pin_count, change_net_part-SameShape, change_net_part-SameCounts,
}
use kahypar.Hypergraph.State.{edge_weight}
use kahypar.Hypergraph.Cut.Step.{IsReady, f_small, IsLinked-after, to_after}

count-le-length : (i : ℕ) (xs : List ℕ) → count i xs ≤ length xs
unfolding count
count-le-length i [] = omega arith
count-le-length i (x ∷ xs) = ground (arith, count-le-length i xs)

pub connectivity_pos :
    (F : FlagArray) (g : Hypergraph F) (he b : ℕ)
    → b < g.k
    → 0 < pin_count_in_part F g he b
    → IsLinked F g he
    → 0 < connectivity F g he
connectivity_pos F g he b inside some_pin l =
    ground (arith, count-le-length b (g.connectivity_sets he).contained_parts, l.listed b, l.sized)

module _ (F : FlagArray) (from to : ℕ) (apart : from ≢ to) (g : Hypergraph F) (x : ℕ) (out : List ℕ)
    (hf : from < g.k) (ht : to < g.k) where
  abbrev moved : Hypergraph F
  moved = (change_net_part F g x from to out).0

  pub edge_weight-change_net_part : (y : ℕ) → edge_weight F moved y ≡ edge_weight F g y
  unfolding increment_pin_count_in_part decrement_pin_count_in_part
  edge_weight-change_net_part y =
      let s = change_net_part-SameCounts F g x from to out in
      ap (λ e. (e y).weight) s.edges_same ∙ ground arith

  pub pin_count_there :
      (y : ℕ)
      → x ≢ y
      → (i : ℕ) → i < g.k
      → pin_count_in_part F moved y i ≡ pin_count_in_part F g y i
  pin_count_there y other i h =
      ground (arith, change_net_part-pin_count F y from to apart g x out i hf ht h)

  module _ (n : ℕ) (r : IsReady F g from (suc n) x) where
    -- Before and after, some block is connected.
    pub connectivity_before : 0 < connectivity F g x
    connectivity_before = connectivity_pos F g x from hf (omega (arith, r.enough)) r.linked

    pub connectivity_behind : 0 < connectivity F moved x
    connectivity_behind =
        let s = change_net_part-SameShape F x from to apart g x out in
        connectivity_pos F moved x to (rw s.blocks ht)
          (omega (arith, to_after F from to apart g x out hf ht n r))
          (IsLinked-after F from to apart g x out hf ht n r)

    -- One block less when the last pin leaves, one more when a first pin enters.
    pub connectivity_after :
        connectivity F moved x + (if pin_count_in_part F g x from == 1 then 1 else 0)
        ≡ connectivity F g x + (if pin_count_in_part F g x to == 0 then 1 else 0)
    unfolding increment_pin_count_in_part decrement_pin_count_in_part
    connectivity_after =
        let s = change_net_part-SameCounts F g x from to out in
        let f = f_small F from to apart g x out hf ht n r in
        let g₁ = (decrement_pin_count_in_part F g x from).0 in
        let t₁ : pin_count_in_part F g₁ x to ≡ pin_count_in_part F g x to =
          ground (arith, decrement-pin_count F g x from hf x to ht) in
        let d = decrement-true F g x from (omega (arith, r.enough)) (omega (arith, f, r.room)) in
        let up = increment-true F g₁ x to (omega (arith, t₁, f, r.room, r.enough)) in
        ground (arith, ap (λ e. (e x).connectivity) s.edges_same, connectivity_before, d, up, t₁)
