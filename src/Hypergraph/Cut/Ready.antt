-- ===== src/Hypergraph/Cut/Ready.antt =====
-- What one step of the loop of changeNodePart asks of a net, and when the net is cut.
use kahypar.Prelude.{ℕ, ◌≤◌, ◌<◌, ◌≡◌, ◌∙◌, ap, ltb}
use kahypar.Prelude.Sums.{sum_ℕ}
use kahypar.Prelude.Words.{u32_mod}
use kahypar.Containers.FlagArray.{FlagArray}
use kahypar.Hypergraph.State.{Hypergraph, edge_size, pin_count_in_part, connectivity}
use kahypar.Hypergraph.Blocks.Counts.{IsLinked}
use kahypar.Hypergraph.Cut.Spread.{spread_lem}

module _ (F : FlagArray) where
  -- A net whose connectivity set is in step, whose pins are all in blocks, and that has `n` pins left
  -- to leave block `from`.
  pub record IsReady (g : Hypergraph F) (from n he : ℕ) : Type 0 where
    pub linked : IsLinked F g he
    pub full : sum_ℕ (λ i. pin_count_in_part F g he i) g.k ≡ edge_size F g he
    pub room : edge_size F g he < u32_mod
    pub enough : n ≤ pin_count_in_part F g he from

  -- Cut exactly when block `b`, which has a pin, has not all pins.
  pub cut_lem :
      (g : Hypergraph F) (he b : ℕ)
      → b < g.k
      → 0 < pin_count_in_part F g he b
      → IsLinked F g he
      → sum_ℕ (λ i. pin_count_in_part F g he i) g.k ≡ edge_size F g he
      → ltb 1 (connectivity F g he) ≡ ltb (pin_count_in_part F g he b) (edge_size F g he)
  cut_lem g he b inside some_pin l full =
      ap (ltb 1) l.sized
      ∙ spread_lem (λ i. pin_count_in_part F g he i) g.k b (g.connectivity_sets he).contained_parts
          inside some_pin l.listed
      ∙ ap (ltb (pin_count_in_part F g he b)) full
