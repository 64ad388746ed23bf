-- ===== src/Hypergraph/Blocks/Assign.antt =====
-- setNodePart: pin counts and connectivity sets.
use kahypar.Prelude.{
  ℕ, ◌+◌, ◌<◌, ◌≡◌, ◌∙◌, sym, true, none, List, [], ◌∷◌, arith, ◌==◌, if◌then◌else◌, count, ap,
}
use kahypar.Prelude.Words.{u32_mod, inc32_lem}
use kahypar.Containers.FlagArray.{FlagArray}
use kahypar.Hypergraph.State.{
  Hypergraph, hyperedge, incident_edges, pins, part_id, pin_count_in_part,
}
use kahypar.Hypergraph.Shape.{
  SameShape, SameShape-refl, SameShape-trans, pins-SameShape, length-slice,
}
use kahypar.Hypergraph.Blocks.{
  increment_pin_count_in_part, increment_all, enter_part, set_node_part,
}
use kahypar.Hypergraph.Blocks.Counts.{
  IsLinked, increment-SameShape, increment-pin_count, increment-IsLinked,
}
use kahypar.Hypergraph.Blocks.Pins.{
  count_block, count_block-enter, count_block-le-length, count_block-cong,
}

module _ (F : FlagArray) where
  -- The stored pin counts of net `he` are those of its pins, and its connectivity set is in step.
  pub record IsCounted (g : Hypergraph F) (he : ℕ) : Type 0 where
    pub counted :
        (i : ℕ) → i < g.k → pin_count_in_part F g he i ≡ count_block (part_id F g) (pins F g he) i
    pub linked : IsLinked F g he

  -- Every enabled net is counted.
  abbrev pub IsPartitioned : Hypergraph F → Type 0
  IsPartitioned g =
      (he : ℕ) → he < g.num_hyperedges → (hyperedge F g he).valid ≡ true → IsCounted g he

  -- `hn` is listed at its nets as often as it is a pin of them.
  abbrev pub IsIncident : Hypergraph F → ℕ → Type 0
  IsIncident g hn =
      (he : ℕ)
      → he < g.num_hyperedges
      → (hyperedge F g he).valid ≡ true
      → count he (incident_edges F g hn) ≡ count hn (pins F g he)

  module _ (he id : ℕ) where
    pub increment_all-SameShape :
        (hes : List ℕ) (g : Hypergraph F) → SameShape F g (increment_all F g hes id)
    unfolding increment_all
    increment_all-SameShape [] g = SameShape-refl F g
    increment_all-SameShape (x ∷ xs) g =
        SameShape-trans F (increment-SameShape F g x id)
          (increment_all-SameShape xs (increment_pin_count_in_part F g x id).0)

    pub increment_all-pin_count :
        (g : Hypergraph F) (hes : List ℕ) (i : ℕ)
        → id < g.k
        → i < g.k
        → (i ≡ id → pin_count_in_part F g he i + count he hes < u32_mod)
        → pin_count_in_part F (increment_all F g hes id) he i
          ≡ pin_count_in_part F g he i + (if i == id then count he hes else 0)
    unfolding increment_all count
    increment_all-pin_count g [] i h h' small = ground arith
    increment_all-pin_count g (x ∷ xs) i h h' small =
        let g' = (increment_pin_count_in_part F g x id).0 in
        ground (
          arith,
          increment_all-pin_count g' xs i,
          increment-pin_count F g x id h he i h',
          (increment-SameShape F g x id).blocks,
          inc32_lem (pin_count_in_part F g he i),
        )

    pub increment_all-IsLinked :
        (g : Hypergraph F) (hes : List ℕ)
        → id < g.k
        → IsLinked F g he
        → pin_count_in_part F g he id + count he hes < u32_mod
        → IsLinked F (increment_all F g hes id) he
    unfolding increment_all count
    increment_all-IsLinked g [] h l small = l
    increment_all-IsLinked g (x ∷ xs) h l small =
        let g' = (increment_pin_count_in_part F g x id).0 in
        increment_all-IsLinked g' xs (rw ((increment-SameShape F g x id).blocks) h)
          (increment-IsLinked F g x id h he l (λ e. ground arith))
          (ground (
            arith,
            increment-pin_count F g x id h he id h,
            inc32_lem (pin_count_in_part F g he id),
          ))

  -- Counted nets stay counted where the shape and the counts fit.
  pub IsCounted-of :
      (g h : Hypergraph F) (he : ℕ)
      → SameShape F g h
      → IsLinked F h he
      → ((i : ℕ) → i < g.k → pin_count_in_part F h he i ≡ count_block (part_id F g) (pins F g he) i)
      → IsCounted h he
  IsCounted-of g h he s l c = record {
    counted = λ i p.
        c i (rw s.blocks at p)
        ∙ sym (count_block-cong (part_id F g) (part_id F h) (pins F g he) i s.part)
        ∙ ap (λ ps. count_block (part_id F h) ps i) (sym (pins-SameShape F s he));
    linked = l;
  }

  -- Where every enabled net has exact pin counts and an exact connectivity set, `hn` is listed at its enabled
  -- nets as often as it is a pin of them, `hn` has no block, `id` is below k, and net sizes fit 32 bits:
  -- setNodePart(hn, id) leaves every enabled net with exact pin counts and an exact connectivity set.
  pub set_node_part-IsPartitioned :
      (g : Hypergraph F) (hn id : ℕ)
      → IsPartitioned g
      → IsIncident g hn
      → part_id F g hn ≡ none
      → id < g.k
      → ((he : ℕ) → (hyperedge F g he).size < u32_mod)
      → IsPartitioned (set_node_part F g hn id)
  unfolding set_node_part enter_part
  set_node_part-IsPartitioned g hn id p inc new h small he inside live =
      let hes = incident_edges F g hn in
      let g₁ = enter_part F g hn id in
      let s = increment_all-SameShape he id hes g₁ in
      let inside' : he < g.num_hyperedges = rw s.nets at inside in
      let live' : (hyperedge F g he).valid ≡ true = sym (s.live he) ∙ live in
      let c = p he inside' live' in
      let ps = pins F g he in
      let enter = λ (i : ℕ).
        count_block-enter (part_id F g) (part_id F g₁) hn id ps i new (ground arith)
          (λ q ne. ground arith) in
      let room : pin_count_in_part F g he id + count he hes < u32_mod = ground (
        arith,
        c.counted id,
        enter id,
        inc he inside' live',
        small he,
        count_block-le-length (part_id F g₁) ps id,
        length-slice F g.incidence_array (hyperedge F g he).first (hyperedge F g he).size,
      ) in
      let l : IsLinked F g₁ he = record { listed = c.linked.listed; sized = c.linked.sized } in
      IsCounted-of g₁ (increment_all F g₁ hes id) he s
        (increment_all-IsLinked he id g₁ hes h l room)
        (λ i q. ground (
          arith,
          increment_all-pin_count he id g₁ hes i h q (λ e. rw e room),
          c.counted i,
          enter i,
          inc he inside' live',
        ))
