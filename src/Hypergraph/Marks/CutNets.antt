-- ===== src/Hypergraph/Marks/CutNets.antt =====
-- initializeNumCutHyperedges, and the cut nets at each hypernode.
use kahypar.Prelude.{
  ℕ, zero, suc, ◌+◌, ◌%◌, ◌<◌, ◌≡◌, refl, ◌∙◌, List, [], ◌∷◌, arith, ltb, if◌then◌else◌, count, ap,
}
use kahypar.Prelude.Words.{u32_mod, inc32}
use kahypar.Containers.FlagArray.{FlagArray}
use kahypar.Hypergraph.State.{Hypergraph, hypernode, set_hypernode, pins, edges, connectivity}
use kahypar.Hypergraph.Shape.{SameShape-trans, pins-SameShape, cut_count-SameShape}
use kahypar.Hypergraph.Blocks.{cut_pins}
use kahypar.Hypergraph.Blocks.CutCounts.{SameCounts, SameCounts-refl, cut_pins-SameCounts}
use kahypar.Hypergraph.Marks.{clear_cut_counts, count_cut_edges, initialize_num_cut_hyperedges}

module _ (F : FlagArray) (u : ℕ) where
  -- How often `u` is a pin of the cut nets in a list of nets.
  unfoldable pub cut_pin_count : Hypergraph F → List ℕ → ℕ
  cut_pin_count g [] = 0
  cut_pin_count g (he ∷ hes) =
      (if ltb 1 (connectivity F g he) then count u (pins F g he) else 0) + cut_pin_count g hes

  abbrev pub cut_nets : Hypergraph F → ℕ
  cut_nets g = (hypernode F g u).num_incident_cut_hes

  pub cut_pins-cut_nets :
      (ps : List ℕ) (g : Hypergraph F)
      → cut_nets g < u32_mod
      → cut_nets (cut_pins F g ps) ≡ (cut_nets g + count u ps) % u32_mod
  unfolding cut_pins count inc32
  cut_pins-cut_nets [] g small = ground arith
  cut_pins-cut_nets (p ∷ ps) g small =
      let x = hypernode F g p in
      ground (
        arith,
        cut_pins-cut_nets ps (
            set_hypernode F g p (record x { num_incident_cut_hes = inc32 x.num_incident_cut_hes })),
      )

  cut_pin_count-SameCounts :
      {g h : Hypergraph F} (hes : List ℕ)
      → SameCounts F g h
      → cut_pin_count h hes ≡ cut_pin_count g hes
  unfolding cut_pin_count
  cut_pin_count-SameCounts [] s = refl
  cut_pin_count-SameCounts (he ∷ hes) s =
      rw (pins-SameShape F s.shape he, cut_pin_count-SameCounts hes s, s.edges_same)

  count_cut_edges-cut_nets :
      (hes : List ℕ) (g : Hypergraph F)
      → cut_nets g < u32_mod
      → cut_nets (count_cut_edges F g hes) ≡ (cut_nets g + cut_pin_count g hes) % u32_mod
  unfolding count_cut_edges cut_pin_count
  count_cut_edges-cut_nets [] g small = ground arith
  count_cut_edges-cut_nets (he ∷ hes) g small =
      let h = cut_pins F g (pins F g he) in
      ground (
        arith,
        cut_pins-cut_nets (pins F g he) g,
        count_cut_edges-cut_nets hes h,
        count_cut_edges-cut_nets hes g,
        cut_pin_count-SameCounts hes (cut_pins-SameCounts F (pins F g he) g),
      )

  clear_cut_counts-SameCounts : (n : ℕ) (g : Hypergraph F) → SameCounts F g (clear_cut_counts F n g)
  unfolding clear_cut_counts
  clear_cut_counts-SameCounts zero g = SameCounts-refl F g
  clear_cut_counts-SameCounts (suc n) g =
      let s = clear_cut_counts-SameCounts n g in
      record {
        shape = SameShape-trans F s.shape (cut_count-SameShape F (clear_cut_counts F n g) n 0);
        counts = s.counts;
        sets = s.sets;
        edges_same = s.edges_same;
      }

  clear_cut_counts_lem :
      (n : ℕ) (g : Hypergraph F)
      → cut_nets (clear_cut_counts F n g) ≡ (if ltb u n then 0 else cut_nets g)
  unfolding clear_cut_counts
  clear_cut_counts_lem zero g = ground arith
  clear_cut_counts_lem (suc n) g = ground (arith, clear_cut_counts_lem n g)

  -- A hypernode's cut count becomes the number of times it is a pin of an enabled net that connects
  -- several blocks, modulo 2 ^ 32.
  pub initialize_num_cut_hyperedges_lem :
      (g : Hypergraph F)
      → u < g.num_hypernodes
      → (hypernode F (initialize_num_cut_hyperedges F g) u).num_incident_cut_hes
        ≡ cut_pin_count g (edges F g) % u32_mod
  unfolding initialize_num_cut_hyperedges
  initialize_num_cut_hyperedges_lem g inside =
      let h = clear_cut_counts F g.num_hypernodes g in
      let s = clear_cut_counts-SameCounts g.num_hypernodes g in
      let same : edges F h ≡ edges F g = rw (s.edges_same, s.shape.nets) in
      let zeroed : cut_nets h ≡ 0 = ground (arith, clear_cut_counts_lem g.num_hypernodes g) in
      count_cut_edges-cut_nets (edges F h) h (ground arith)
      ∙ ground (arith, zeroed, ap (cut_pin_count h) same, cut_pin_count-SameCounts (edges F g) s)
