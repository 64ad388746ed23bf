-- ===== src/Hypergraph/Fixed/Loop.antt =====
-- The loop of setPartition.
use kahypar.Prelude.{ℕ, ◌≤◌, ◌<◌, ◌≡◌, ◌≢◌, ◌∙◌, sym, ap, none, List, [], ◌∷◌, arith, count}
use kahypar.Prelude.Arrays.{Array}
use kahypar.Prelude.Words.{u32_mod}
use kahypar.Containers.FlagArray.{FlagArray}
use kahypar.Hypergraph.State.{Hypergraph, hyperedge, incident_edges, part_id}
use kahypar.Hypergraph.Shape.{pins-SameShape}
use kahypar.Hypergraph.Blocks.{enter_part, set_node_part}
use kahypar.Hypergraph.Blocks.Assign.{
  IsPartitioned, IsIncident, increment_all-SameShape, set_node_part-IsPartitioned,
}
use kahypar.Hypergraph.Fixed.{set_node_parts}

module _ (F : FlagArray) where
  -- A hypernode that setNodePart can assign: it has no block, and its nets list it as a pin.
  pub record IsAssignable (g : Hypergraph F) (u : ℕ) : Type 0 where
    pub free : part_id F g u ≡ none
    pub incident : IsIncident F g u

  -- Assigning one hypernode leaves the others assignable.
  set_node_part-IsAssignable :
      (g : Hypergraph F) (u id w : ℕ)
      → u ≢ w
      → IsAssignable g w
      → IsAssignable (set_node_part F g u id) w
  unfolding set_node_part enter_part
  set_node_part-IsAssignable g u id w apart a =
      let g₁ = enter_part F g u id in
      let s = increment_all-SameShape F 0 id (incident_edges F g u) g₁ in
      let same : incident_edges F g₁ w ≡ incident_edges F g w = ground arith in
      let unassigned : part_id F g₁ w ≡ part_id F g w = ground arith in
      record {
        free = s.part w ∙ unassigned ∙ a.free;
        incident = λ he inside live.
            ap (count he) (s.incident w ∙ same)
            ∙ a.incident he (rw s.nets at inside) (sym (s.live he) ∙ live)
            ∙ ap (count w) (sym (pins-SameShape F s he));
      }

  -- Where every enabled net has exact pin counts and an exact connectivity set, the listed
  -- hypernodes have no block, are listed once, and at their enabled nets as often as they are pins
  -- of them, the partition has no block but those below k, and net sizes fit 32 bits: the loop of
  -- setPartition leaves every enabled net with exact pin counts and an exact connectivity set.
  pub set_node_parts-IsPartitioned :
      (us : List ℕ) (g : Hypergraph F) (partition : Array ℕ)
      → IsPartitioned F g
      → ((u : ℕ) → 0 < count u us → IsAssignable g u)
      → ((u : ℕ) → count u us ≤ 1)
      → ((u : ℕ) → partition u < g.k)
      → ((he : ℕ) → (hyperedge F g he).size < u32_mod)
      → IsPartitioned F (set_node_parts F g partition us)
  unfolding set_node_parts count set_node_part enter_part
  set_node_parts-IsPartitioned [] g partition p a once blocks small = p
  set_node_parts-IsPartitioned (u ∷ us) g partition p a once blocks small =
      let g' = set_node_part F g u (partition u) in
      let s =
        increment_all-SameShape F 0 (partition u) (incident_edges F g u)
          (enter_part F g u (partition u)) in
      let here = a u (ground arith) in
      set_node_parts-IsPartitioned us g' partition
        (set_node_part-IsPartitioned F g u (partition u) p here.incident here.free (blocks u) small)
        (λ w h.
          set_node_part-IsAssignable g u (partition u) w (λ e. ground (arith, once u, e))
            (a w (ground arith)))
        (λ w. ground (arith, once w)) (λ w. rw s.blocks (blocks w))
        (λ he. rw (s.size he) (small he))
