-- ===== src/Hypergraph/Blocks/Moves.antt =====
-- changeNodePart: pin counts and connectivity sets.
use kahypar.Prelude.{
  ℕ, ◌+◌, ◌≤◌, ◌<◌, ◌≡◌, ◌≢◌, ◌∙◌, sym, Bool, true, false, some, List, [], ◌∷◌, arith, ◌==◌,
  if◌then◌else◌, count,
}
use kahypar.Prelude.Words.{u32_mod, inc32, dec32, inc32_lem, dec32_lem}
use kahypar.Containers.FlagArray.{FlagArray}
use kahypar.Hypergraph.State.{
  Hypergraph, hyperedge, incident_edges, pins, part_id, pin_count_in_part,
}
use kahypar.Hypergraph.Shape.{SameShape, SameShape-refl, SameShape-trans, length-slice}
use kahypar.Hypergraph.Blocks.{
  increment_pin_count_in_part, decrement_pin_count_in_part, change_net_part, change_nets_part,
  change_node_part, move_part,
}
use kahypar.Hypergraph.Blocks.Counts.{
  IsLinked, increment-SameShape, decrement-SameShape, increment-pin_count, decrement-pin_count,
  increment-IsLinked, decrement-IsLinked,
}
use kahypar.Hypergraph.Blocks.Pins.{count_block-move, count_block-le-length, count-le-count_block}
use kahypar.Hypergraph.Blocks.CutCounts.{
  SameCounts, SameCounts-refl, uncut_pins-SameCounts, cut_pins-SameCounts,
}
use kahypar.Hypergraph.Blocks.Assign.{IsPartitioned, IsIncident, IsCounted-of}

module _ (F : FlagArray) where
  SameCounts-if :
      (b : Bool) (g : Hypergraph F) (x y : Hypergraph F × List ℕ)
      → SameCounts F g x.0
      → SameCounts F g y.0
      → SameCounts F g (if b then x else y).0
  SameCounts-if true g x y s t = s
  SameCounts-if false g x y s t = t

  -- Pin counts and connectivity after one net are those of its decrement and increment.
  pub change_net_part-SameCounts :
      (g : Hypergraph F) (he from to : ℕ) (out : List ℕ)
      → let g₁ = (decrement_pin_count_in_part F g he from).0 in
        SameCounts F
          (increment_pin_count_in_part F g₁ he to).0
          (change_net_part F g he from to out).0
  unfolding change_net_part
  change_net_part-SameCounts g he from to out =
      let g₁ = (decrement_pin_count_in_part F g he from).0 in
      let g₂ = (increment_pin_count_in_part F g₁ he to).0 in
      SameCounts-if _ g₂ _ _
        (SameCounts-if _ g₂ _ _ (uncut_pins-SameCounts F (pins F g₂ he) g₂ out)
          (SameCounts-refl F g₂))
        (SameCounts-if _ g₂ _ _ (cut_pins-SameCounts F (pins F g₂ he) g₂) (SameCounts-refl F g₂))

  IsLinked-SameCounts :
      {g h : Hypergraph F} (he : ℕ) → SameCounts F g h → IsLinked F g he → IsLinked F h he
  IsLinked-SameCounts he s l = record {
    listed = λ i. rw (s.sets, s.counts, s.shape.blocks) (l.listed i);
    sized = rw (s.sets, s.edges_same) l.sized;
  }

  pin_count-SameCounts :
      {g h : Hypergraph F}
      → SameCounts F g h
      → (he i : ℕ) → pin_count_in_part F h he i ≡ pin_count_in_part F g he i
  pin_count-SameCounts s he i = rw (s.counts, s.shape.blocks)

  module _ (he from to : ℕ) (apart : from ≢ to) where
    -- The pin counts of `he` after the loop's step for net `x`.
    pub change_net_part-pin_count :
        (g : Hypergraph F) (x : ℕ) (out : List ℕ) (i : ℕ)
        → from < g.k
        → to < g.k
        → i < g.k
        → pin_count_in_part F (change_net_part F g x from to out).0 he i ≡ (
            if x == he
            then (if from == i
                then dec32 (pin_count_in_part F g he i)
                else if to == i
                then inc32 (pin_count_in_part F g he i)
                else pin_count_in_part F g he i)
            else pin_count_in_part F g he i)
    change_net_part-pin_count g x out i hf ht hi =
        let g₁ = (decrement_pin_count_in_part F g x from).0 in
        let s₁ = decrement-SameShape F g x from in
        let s₂ = increment-SameShape F g₁ x to in
        let s = change_net_part-SameCounts g x from to out in
        ground (
          arith,
          pin_count-SameCounts s he i,
          decrement-pin_count F g x from hf he i hi,
          increment-pin_count F g₁ x to (rw s₁.blocks ht) he i (rw s₁.blocks hi),
        )

    pub change_net_part-IsLinked :
        (g : Hypergraph F) (x : ℕ) (out : List ℕ)
        → from < g.k
        → to < g.k
        → IsLinked F g he
        → (x ≡ he → 0 < pin_count_in_part F g he from)
        → (x ≡ he → pin_count_in_part F g he from < u32_mod)
        → (x ≡ he → pin_count_in_part F g he to + 1 < u32_mod)
        → IsLinked F (change_net_part F g x from to out).0 he
    change_net_part-IsLinked g x out hf ht l some_pin small room =
        let g₁ = (decrement_pin_count_in_part F g x from).0 in
        let s₁ = decrement-SameShape F g x from in
        IsLinked-SameCounts he (change_net_part-SameCounts g x from to out) (
          increment-IsLinked F g₁ x to (rw s₁.blocks ht) he
            (decrement-IsLinked F g x from hf he l (λ e. rw e (some_pin e)) (λ e. rw e (small e)))
            (λ e. rw e (ground (arith, decrement-pin_count F g x from hf he to ht, room e))))

    pub change_net_part-SameShape :
        (g : Hypergraph F) (x : ℕ) (out : List ℕ)
        → SameShape F g (change_net_part F g x from to out).0
    change_net_part-SameShape g x out = SameShape-trans F (decrement-SameShape F g x from) (
        SameShape-trans F (increment-SameShape F (decrement_pin_count_in_part F g x from).0 x to)
          (change_net_part-SameCounts g x from to out).shape)

    pub change_nets_part-SameShape :
        (hes : List ℕ) (g : Hypergraph F) (out : List ℕ)
        → SameShape F g (change_nets_part F g hes from to out).0
    unfolding change_nets_part
    change_nets_part-SameShape [] g out = SameShape-refl F g
    change_nets_part-SameShape (x ∷ xs) g out =
        SameShape-trans F (change_net_part-SameShape g x out) (
          change_nets_part-SameShape xs (change_net_part F g x from to out).0
            (change_net_part F g x from to out).1)

    -- The loop's effect on a net: as many pins move from one block to the other as `he` is listed.
    pub change_nets_part-counts :
        (hes : List ℕ) (g : Hypergraph F) (out : List ℕ)
        → from < g.k
        → to < g.k
        → IsLinked F g he
        → count he hes ≤ pin_count_in_part F g he from
        → pin_count_in_part F g he from < u32_mod
        → pin_count_in_part F g he to + count he hes < u32_mod
        → IsLinked F (change_nets_part F g hes from to out).0 he
          × ((i : ℕ)
              → i < g.k
              → pin_count_in_part F (change_nets_part F g hes from to out).0 he i
                  + (if i == from then count he hes else 0)
                ≡ pin_count_in_part F g he i + (if i == to then count he hes else 0))
    unfolding change_nets_part count
    change_nets_part-counts [] g out hf ht l enough small room = (l, λ i h. ground arith)
    change_nets_part-counts (x ∷ xs) g out hf ht l enough small room =
        let g' = (change_net_part F g x from to out).0 in
        let out' = (change_net_part F g x from to out).1 in
        let s = change_net_part-SameShape g x out in
        let at_from = change_net_part-pin_count g x out from hf ht hf in
        let at_to = change_net_part-pin_count g x out to hf ht ht in
        let down = dec32_lem (pin_count_in_part F g he from) in
        let up = inc32_lem (pin_count_in_part F g he to) in
        let rest =
          change_nets_part-counts xs g' out' (rw s.blocks hf) (rw s.blocks ht)
            (change_net_part-IsLinked g x out hf ht l (λ e. ground arith) (λ e. small)
              (λ e. ground arith))
            (ground (arith, at_from, down)) (ground (arith, at_from, down))
            (ground (arith, at_to, up)) in
        (
          rest.0,
          λ i h. ground (
            arith,
            rest.1 i (rw s.blocks h),
            change_net_part-pin_count g x out i hf ht h,
            down,
            up,
          ),
        )

  -- Where every enabled net has exact pin counts and an exact connectivity set, `hn` is listed at its enabled
  -- nets as often as it is a pin of them and is in block `from`, both blocks are below k and differ, and net
  -- sizes fit 32 bits: changeNodePart(hn, from, to) leaves every enabled net with exact pin counts and an
  -- exact connectivity set.
  pub change_node_part-IsPartitioned :
      (g : Hypergraph F) (hn from to : ℕ) (out : List ℕ)
      → IsPartitioned F g
      → IsIncident F g hn
      → part_id F g hn ≡ some from
      → from ≢ to
      → from < g.k
      → to < g.k
      → ((he : ℕ) → (hyperedge F g he).size < u32_mod)
      → IsPartitioned F (change_node_part F g hn from to out).0
  unfolding change_node_part move_part
  change_node_part-IsPartitioned g hn from to out p inc old apart hf ht small he inside live =
      let hes = incident_edges F g hn in
      let g₁ = move_part F g hn from to in
      let s = change_nets_part-SameShape he from to apart hes g₁ out in
      let inside' : he < g.num_hyperedges = rw s.nets at inside in
      let live' : (hyperedge F g he).valid ≡ true = sym (s.live he) ∙ live in
      let c = p he inside' live' in
      let ps = pins F g he in
      let listed = inc he inside' live' in
      let move = λ (i : ℕ).
        count_block-move (part_id F g) (part_id F g₁) hn from to ps i old (ground arith)
          (λ q ne. ground arith) in
      let size =
        length-slice F g.incidence_array (hyperedge F g he).first (hyperedge F g he).size in
      let l : IsLinked F g₁ he = record { listed = c.linked.listed; sized = c.linked.sized } in
      let done =
        change_nets_part-counts he from to apart hes g₁ out hf ht l
          (ground
            (arith, c.counted from, listed, count-le-count_block (part_id F g) hn from ps old))
          (ground
            (arith, c.counted from, count_block-le-length (part_id F g) ps from, size, small he))
          (ground (
            arith,
            c.counted to,
            move to,
            listed,
            count_block-le-length (part_id F g₁) ps to,
            size,
            small he,
          )) in
      IsCounted-of F g₁ (change_nets_part F g₁ hes from to out).0 he s done.0
        (λ i q. ground (arith, done.1 i q, c.counted i q, move i, listed))
