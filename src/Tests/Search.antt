-- ===== src/Tests/Search.antt =====
-- Local search on four hypernodes, the nets {0, 1} and {1, 2}, and two blocks: moving hypernode 1 to the
-- block of its neighbours.
use kahypar.Prelude.{
  ℕ, zero, suc, ◌≤◌, ◌<◌, ◌≡◌, refl, true, some, List, [], ◌∷◌, arith, count, ltb, if◌then◌else◌,
}
use kahypar.Prelude.Int.{pos, ◌+ℤ◌}
use kahypar.Prelude.Sums.{sum_ℤ, sum_ℕ}
use kahypar.Containers.FlagArray.{plain_flags}
use kahypar.Hypergraph.State.{
  Hyperedge, Hypergraph, hypernode, hyperedge, pins, slice, part_id, incident_edges,
}
use kahypar.Hypergraph.Blocks.Pins.{count_block}
use kahypar.Hypergraph.Blocks.Counts.{IsLinked}
use kahypar.Hypergraph.Blocks.Weights.{weight_in, size_in}
use kahypar.Hypergraph.Partition.Step.{IsSearchable}
use kahypar.Tests.Blocks.{sample}

abbrev nets_of : ℕ → List ℕ
nets_of zero = 0 ∷ []
nets_of (suc zero) = 0 ∷ 1 ∷ []
nets_of (suc (suc zero)) = 1 ∷ []
nets_of (suc (suc (suc u))) = []

abbrev block_of : ℕ → ℕ
block_of zero = 0
block_of (suc zero) = 1
block_of (suc (suc zero)) = 0
block_of (suc (suc (suc u))) = 1

block_below : (u : ℕ) → block_of u < 2
block_below zero = omega arith
block_below (suc zero) = omega arith
block_below (suc (suc zero)) = omega arith
block_below (suc (suc (suc u))) = omega arith

abbrev net : ℕ → Hyperedge
net e = record {
  first = if ltb e 1 then 0 else if ltb e 2 then 2 else 4;
  size = if ltb e 2 then 2 else 0;
  weight = pos 1;
  valid = ltb e 2;
  connectivity = 2;
  hash = 42;
}

abbrev pub searched : Hypergraph plain_flags
searched = record sample {
  num_hypernodes = 4;
  total_weight = pos 4;
  current_num_hypernodes = 4;
  hypernodes = λ u. record {
    incident_nets = nets_of u;
    weight = pos 1;
    valid = true;
    part_id = some (block_of u);
    num_incident_cut_hes = 1;
    state = 0;
  };
  hyperedges = net;
  part_info = λ b. record { weight = pos 2; fixed_vertex_weight = pos 0; size = 2 };
  pins_in_part = λ i. 1;
  connectivity_sets = λ e. record { contained_parts = 0 ∷ 1 ∷ [] };
}

searched-counted :
    (he i : ℕ)
    → he < 2
    → i < 2
    → 1 ≡ count_block (part_id plain_flags searched) (pins plain_flags searched he) i
unfolding slice count_block
searched-counted zero zero h q = refl
searched-counted zero (suc zero) h q = refl
searched-counted (suc zero) zero h q = refl
searched-counted (suc zero) (suc zero) h q = refl
searched-counted (suc (suc he)) i h q = absurd (omega arith)
searched-counted he (suc (suc i)) h q = absurd (omega arith)

pub searched-IsLinked : (he : ℕ) → IsLinked plain_flags searched he
unfolding count
searched-IsLinked he = record { listed = λ i. ground arith; sized = refl }

pub searched-incident :
    (u he : ℕ)
    → he < 2
    → count he (incident_edges plain_flags searched u) ≡ count u (pins plain_flags searched he)
unfolding slice count
searched-incident zero zero q = refl
searched-incident zero (suc zero) q = refl
searched-incident (suc zero) zero q = refl
searched-incident (suc zero) (suc zero) q = refl
searched-incident (suc (suc zero)) zero q = refl
searched-incident (suc (suc zero)) (suc zero) q = refl
searched-incident (suc (suc (suc u))) zero q = ground arith
searched-incident (suc (suc (suc u))) (suc zero) q = ground arith
searched-incident u (suc (suc he)) q = absurd (omega arith)

pub searched-enabled :
    (u he : ℕ)
    → 0 < count he (incident_edges plain_flags searched u)
    → (he < 2) × ((hyperedge plain_flags searched he).valid ≡ true)
unfolding count
searched-enabled zero he h = (ground arith, ground arith)
searched-enabled (suc zero) he h = (ground arith, ground arith)
searched-enabled (suc (suc zero)) he h = (ground arith, ground arith)
searched-enabled (suc (suc (suc u))) he h = absurd (omega arith)

pub searched-once : (u he : ℕ) → count he (incident_edges plain_flags searched u) ≤ 1
unfolding count
searched-once zero he = ground arith
searched-once (suc zero) he = ground arith
searched-once (suc (suc zero)) he = ground arith
searched-once (suc (suc (suc u))) he = ground arith

searched-weights :
    (b : ℕ) → b < 2 → pos 2 ≡ sum_ℤ (λ u. weight_in (hypernode plain_flags searched u) b) 4
unfolding sum_ℤ ◌+ℤ◌
searched-weights zero q = refl
searched-weights (suc zero) q = refl
searched-weights (suc (suc b)) q = absurd (omega arith)

searched-sizes : (b : ℕ) → b < 2 → 2 ≡ sum_ℕ (λ u. size_in (hypernode plain_flags searched u) b) 4
unfolding sum_ℕ
searched-sizes zero q = refl
searched-sizes (suc zero) q = refl
searched-sizes (suc (suc b)) q = absurd (omega arith)

pub searched-IsSearchable : IsSearchable plain_flags searched
searched-IsSearchable = record {
  partitioned = λ he h live. record {
    counted = λ i q. searched-counted he i h q;
    linked = searched-IsLinked he;
  };
  weighed = record { weights = searched-weights; sizes = searched-sizes };
  incident = λ u live he h net. searched-incident u he h;
  enabled = λ u he live. searched-enabled u he;
  once = λ u he live. searched-once u he;
  assigned = λ he v h live c. (block_of v, refl, block_below v);
  bounded = λ u b e. ground (arith, block_below u);
  small = λ he. ground arith;
  few = omega arith;
}
