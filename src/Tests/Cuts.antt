-- ===== src/Tests/Cuts.antt =====
-- A move that cuts a net, on the sample hypergraph.
use kahypar.Prelude.{ℕ, zero, suc, ◌<◌, ◌≡◌, refl, true, some, [], arith, count}
use kahypar.Containers.FlagArray.{plain_flags}
use kahypar.Hypergraph.State.{hyperedge, incident_edges, pins, part_id, slice, valid_ids, edges}
use kahypar.Hypergraph.Blocks.{change_node_part}
use kahypar.Hypergraph.Marks.CutNets.{cut_nets, cut_pin_count}
use kahypar.Hypergraph.Cut.Shares.{pin_total}
use kahypar.Hypergraph.Cut.Movable.{IsMovable}
use kahypar.Hypergraph.Cut.Loop.{change_node_part-cut_nets}
use kahypar.Tests.Blocks.{sample, sample-IsPartitioned, sample-incident, sample-small}

only_net : (he : ℕ) → 0 < count he (incident_edges plain_flags sample 0) → 0 ≡ he
unfolding count
only_net he h = ground arith

sample-live : (he : ℕ) → 0 ≡ he → (he < 2) × ((hyperedge plain_flags sample he).valid ≡ true)
sample-live zero e = (omega arith, refl)
sample-live (suc he) e = absurd (omega arith)

sample-blocks :
    (he : ℕ)
    → 0 ≡ he
    → (v : ℕ) → 0 < count v (pins plain_flags sample he)
    → (b : ℕ) × (part_id plain_flags sample v ≡ some b) × (b < 2)
unfolding slice count
sample-blocks zero e zero h = (0, refl, omega arith)
sample-blocks zero e (suc zero) h = (0, refl, omega arith)
sample-blocks zero e (suc (suc v)) h = absurd (ground arith)
sample-blocks (suc he) e v h = absurd (omega arith)

pub sample-IsMovable : IsMovable plain_flags sample 0 0 1
sample-IsMovable = record {
  partitioned = sample-IsPartitioned;
  incident = λ he h live. sample-incident 0 he (omega arith) h;
  enabled = λ he h. sample-live he (only_net he h);
  assigned = λ he h. sample-blocks he (only_net he h);
  old = refl;
  apart = ground arith;
  from_inside = omega arith;
  to_inside = omega arith;
  small = sample-small;
}

change_node_part-cut_nets_example :
    let h = (change_node_part plain_flags sample 0 0 1 []).0 in
    cut_nets plain_flags 1 h ≡ cut_pin_count plain_flags 1 h (edges plain_flags h)
unfolding cut_pin_count pin_total slice valid_ids count
change_node_part-cut_nets_example =
    change_node_part-cut_nets plain_flags 1 sample 0 0 1 [] sample-IsMovable (omega arith) refl
