-- ===== src/Hypergraph/Blocks/CutCounts.antt =====
-- What the loops of changeNodePart over the pins of one net write.
use kahypar.Prelude.{ℕ, ◌≡◌, refl, List, [], ◌∷◌}
use kahypar.Containers.FlagArray.{FlagArray}
use kahypar.Hypergraph.State.{Hypergraph, hypernode, set_hypernode}
use kahypar.Hypergraph.Shape.{SameShape, SameShape-refl, SameShape-trans, cut_count-SameShape}
use kahypar.Hypergraph.Blocks.{uncut_pins, cut_pins}

module _ (F : FlagArray) where
  -- `h` differs from `g` in the cut counts of hypernodes at most.
  pub record SameCounts (g h : Hypergraph F) : Type 0 where
    pub shape : SameShape F g h
    pub counts : h.pins_in_part ≡ g.pins_in_part
    pub sets : h.connectivity_sets ≡ g.connectivity_sets
    pub edges_same : h.hyperedges ≡ g.hyperedges

  pub SameCounts-refl : (g : Hypergraph F) → SameCounts g g
  SameCounts-refl g = record {
    shape = SameShape-refl F g;
    counts = refl;
    sets = refl;
    edges_same = refl;
  }

  pub cut_count-SameCounts :
      (g h : Hypergraph F) (u n : ℕ)
      → SameCounts (set_hypernode F g u (record (hypernode F g u) { num_incident_cut_hes = n })) h
      → SameCounts g h
  cut_count-SameCounts g h u n s = record {
    shape = SameShape-trans F (cut_count-SameShape F g u n) s.shape;
    counts = s.counts;
    sets = s.sets;
    edges_same = s.edges_same;
  }

  pub uncut_pins-SameCounts :
      (ps : List ℕ) (g : Hypergraph F) (out : List ℕ) → SameCounts g (uncut_pins F g ps out).0
  unfolding uncut_pins
  uncut_pins-SameCounts [] g out = SameCounts-refl g
  uncut_pins-SameCounts (p ∷ ps) g out = cut_count-SameCounts g _ p _ (uncut_pins-SameCounts ps _ _)

  pub cut_pins-SameCounts : (ps : List ℕ) (g : Hypergraph F) → SameCounts g (cut_pins F g ps)
  unfolding cut_pins
  cut_pins-SameCounts [] g = SameCounts-refl g
  cut_pins-SameCounts (p ∷ ps) g = cut_count-SameCounts g _ p _ (cut_pins-SameCounts ps _)
