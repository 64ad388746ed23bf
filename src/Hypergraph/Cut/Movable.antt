-- ===== src/Hypergraph/Cut/Movable.antt =====
-- What changeNodePart(hn, from, to) asks for, and what its loop over the nets finds.
use kahypar.Prelude.{ℕ, ◌<◌, ◌≡◌, ◌≢◌, ◌∙◌, true, some, List, arith, count}
use kahypar.Prelude.Words.{u32_mod}
use kahypar.Containers.FlagArray.{FlagArray}
use kahypar.Hypergraph.State.{
  Hypergraph, hyperedge, incident_edges, pins, edges, part_id, pin_count_in_part,
}
use kahypar.Hypergraph.Shape.{length-slice}
use kahypar.Hypergraph.Blocks.{change_nets_part, move_part}
use kahypar.Hypergraph.Blocks.Moves.{change_nets_part-SameShape}
use kahypar.Hypergraph.Blocks.Assign.{IsPartitioned, IsIncident, IsCounted}
use kahypar.Hypergraph.Blocks.Pins.{count_block, count-le-count_block}
use kahypar.Prelude.Sums.{sum_ℕ-cong}
use kahypar.Hypergraph.Cut.Spread.{sum-count_block}
use kahypar.Hypergraph.Cut.Step.{IsReady}
use kahypar.Hypergraph.Cut.Shares.{valid_ids-cong, count-valid_ids}

module _ (F : FlagArray) where
  -- An enabled net whose pins all have blocks can lose the pin `hn`.
  IsReady-net :
      (g : Hypergraph F) (he from hn : ℕ)
      → IsCounted F g he
      → ((v : ℕ) → 0 < count v (pins F g he) → (b : ℕ) × (part_id F g v ≡ some b) × (b < g.k))
      → part_id F g hn ≡ some from
      → from < g.k
      → count he (incident_edges F g hn) ≡ count hn (pins F g he)
      → (hyperedge F g he).size < u32_mod
      → IsReady F g from (count he (incident_edges F g hn)) he
  IsReady-net g he from hn c blocks old hf listed small =
      let part = part_id F g in
      let ps = pins F g he in
      record {
        linked = c.linked;
        full =
            sum_ℕ-cong (count_block part ps) (λ i. pin_count_in_part F g he i) g.k c.counted
            ∙ sum-count_block part g.k ps blocks
            ∙ length-slice F g.incidence_array (hyperedge F g he).first (hyperedge F g he).size;
        room = small;
        enough = omega (arith, listed, count-le-count_block part hn from ps old, c.counted from hf);
      }

  -- The state that a move of `hn` asks for.
  pub record IsMovable (g : Hypergraph F) (hn from to : ℕ) : Type 0 where
    pub partitioned : IsPartitioned F g
    pub incident : IsIncident F g hn
    pub enabled :
        (he : ℕ)
        → 0 < count he (incident_edges F g hn)
        → (he < g.num_hyperedges) × ((hyperedge F g he).valid ≡ true)
    pub assigned :
        (he : ℕ)
        → 0 < count he (incident_edges F g hn)
        → (v : ℕ) → 0 < count v (pins F g he)
        → (b : ℕ) × (part_id F g v ≡ some b) × (b < g.k)
    pub old : part_id F g hn ≡ some from
    pub apart : from ≢ to
    pub from_inside : from < g.k
    pub to_inside : to < g.k
    pub small : (he : ℕ) → (hyperedge F g he).size < u32_mod

  module _ (g : Hypergraph F) (hn from to : ℕ) (m : IsMovable g hn from to) where
    abbrev hes : List ℕ
    hes = incident_edges F g hn

    pub movable-IsReady :
        (y : ℕ) → 0 < count y hes → IsReady F (move_part F g hn from to) from (count y hes) y
    unfolding move_part
    movable-IsReady y q =
        let live = m.enabled y q in
        let r =
          IsReady-net g y from hn (m.partitioned y live.0 live.1) (m.assigned y q) m.old
            m.from_inside (m.incident y live.0 live.1) (m.small y) in
        record {
          linked = record { listed = r.linked.listed; sized = r.linked.sized };
          full = r.full;
          room = r.room;
          enough = r.enough;
        }

    -- The nets of `hn` are among those that the loops over all nets visit, each once.
    pub movable-listed : (y : ℕ) → 0 < count y hes → count y (edges F g) ≡ 1
    movable-listed y q = ground (
      arith,
      count-valid_ids F (λ e. (hyperedge F g e).valid) y 0 g.num_hyperedges,
      m.enabled y q,
    )

    -- The nets visited are the same after the move.
    pub movable-edges :
        (out : List ℕ)
        → edges F (change_nets_part F (move_part F g hn from to) hes from to out).0 ≡ edges F g
    unfolding move_part
    movable-edges out =
        let s = change_nets_part-SameShape F 0 from to m.apart hes (move_part F g hn from to) out in
        let h = (change_nets_part F (move_part F g hn from to) hes from to out).0 in
        rw s.nets (
          valid_ids-cong F (λ e. (hyperedge F g e).valid) (λ e. (hyperedge F h e).valid) 0
            g.num_hyperedges s.live)
