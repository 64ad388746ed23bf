-- ===== src/Tests/Blocks.antt =====
-- A hypergraph of three hypernodes, the nets {0, 1} and {1, 2}, and two blocks.
use kahypar.Prelude.{
  ℕ, zero, suc, ◌<◌, ◌≡◌, refl, true, false, Option, none, some, List, [], ◌∷◌, arith, count,
}
use kahypar.Prelude.Int.{pos, ◌+ℤ◌}
use kahypar.Prelude.Words.{u32_mod}
use kahypar.Prelude.Sums.{sum_ℤ, sum_ℕ}
use kahypar.Containers.FlagArray.{plain_flags}
use kahypar.Hypergraph.State.{
  Hyperedge, PartInfo, Hypergraph, hypernode, hyperedge, pins, slice, part_id, incident_edges,
  pin_count_in_part,
}
use kahypar.Hypergraph.Blocks.{set_node_part, change_node_part}
use kahypar.Hypergraph.Blocks.Pins.{count_block}
use kahypar.Hypergraph.Blocks.Counts.{IsLinked}
use kahypar.Hypergraph.Blocks.Assign.{IsPartitioned, set_node_part-IsPartitioned}
use kahypar.Hypergraph.Blocks.Moves.{change_node_part-IsPartitioned}
use kahypar.Hypergraph.Blocks.Weights.{
  IsWeighed, weight_in, size_in, set_node_part-IsWeighed, change_node_part-IsWeighed,
}

abbrev nets_of : ℕ → List ℕ
nets_of zero = 0 ∷ []
nets_of (suc zero) = 0 ∷ 1 ∷ []
nets_of (suc (suc zero)) = 1 ∷ []
nets_of (suc (suc (suc u))) = []

-- Hypernode 0 is in block 0, 1 too; hypernode 2 has no block yet.
abbrev block_of : ℕ → Option ℕ
block_of zero = some 0
block_of (suc zero) = some 0
block_of (suc (suc u)) = none

abbrev net : ℕ → Hyperedge
net zero = record { first = 0; size = 2; weight = pos 1; valid = true; connectivity = 1; hash = 42 }
net (suc zero) = record {
  first = 2;
  size = 2;
  weight = pos 1;
  valid = true;
  connectivity = 1;
  hash = 42;
}
net (suc (suc e)) = record {
  first = 4;
  size = 0;
  weight = pos 1;
  valid = false;
  connectivity = 0;
  hash = 42;
}

abbrev pub pin : ℕ → ℕ
pin zero = 0
pin (suc zero) = 1
pin (suc (suc zero)) = 1
pin (suc (suc (suc i))) = 2

abbrev pin_count : ℕ → ℕ
pin_count zero = 2
pin_count (suc zero) = 0
pin_count (suc (suc zero)) = 1
pin_count (suc (suc (suc i))) = 0

abbrev part : ℕ → PartInfo
part zero = record { weight = pos 2; fixed_vertex_weight = pos 0; size = 2 }
part (suc b) = record { weight = pos 0; fixed_vertex_weight = pos 0; size = 0 }

abbrev pub sample : Hypergraph plain_flags
sample = record {
  num_hypernodes = 3;
  num_hyperedges = 2;
  num_pins = 4;
  total_weight = pos 3;
  fixed_vertex_total_weight = pos 0;
  k = 2;
  current_num_hypernodes = 3;
  current_num_hyperedges = 2;
  current_num_pins = 4;
  threshold_active = 1;
  threshold_marked = 2;
  hypernodes = λ u. record {
    incident_nets = nets_of u;
    weight = pos 1;
    valid = true;
    part_id = block_of u;
    num_incident_cut_hes = 0;
    state = 0;
  };
  hyperedges = net;
  incidence_array = pin;
  communities = λ u. 0;
  fixed_vertices = none;
  fixed_vertex_part_id = λ u. none;
  part_info = part;
  pins_in_part = pin_count;
  connectivity_sets = λ e. record { contained_parts = 0 ∷ [] };
  hes_not_containing_u = λ e. false;
}

sample-counted :
    (he i : ℕ)
    → he < 2
    → i < 2
    → pin_count_in_part plain_flags sample he i
      ≡ count_block (part_id plain_flags sample) (pins plain_flags sample he) i
unfolding slice count_block
sample-counted zero zero h q = refl
sample-counted zero (suc zero) h q = refl
sample-counted (suc zero) zero h q = refl
sample-counted (suc zero) (suc zero) h q = refl
sample-counted (suc (suc he)) i h q = absurd (omega arith)
sample-counted he (suc (suc i)) h q = absurd (omega arith)

sample-IsLinked : (he : ℕ) → he < 2 → IsLinked plain_flags sample he
unfolding count
sample-IsLinked zero h = record { listed = λ i. ground arith; sized = refl }
sample-IsLinked (suc zero) h = record { listed = λ i. ground arith; sized = refl }
sample-IsLinked (suc (suc he)) h = absurd (omega arith)

pub sample-IsPartitioned : IsPartitioned plain_flags sample
sample-IsPartitioned he h live = record {
  counted = λ i q. sample-counted he i h q;
  linked = sample-IsLinked he h;
}

pub sample-incident :
    (u he : ℕ)
    → u < 3
    → he < 2
    → count he (incident_edges plain_flags sample u) ≡ count u (pins plain_flags sample he)
unfolding slice count
sample-incident zero zero p q = refl
sample-incident zero (suc zero) p q = refl
sample-incident (suc zero) zero p q = refl
sample-incident (suc zero) (suc zero) p q = refl
sample-incident (suc (suc zero)) zero p q = refl
sample-incident (suc (suc zero)) (suc zero) p q = refl
sample-incident (suc (suc (suc u))) he p q = absurd (omega arith)
sample-incident u (suc (suc he)) p q = absurd (omega arith)

pub sample-small : (he : ℕ) → (hyperedge plain_flags sample he).size < u32_mod
sample-small zero = omega arith
sample-small (suc zero) = omega arith
sample-small (suc (suc he)) = omega arith

sample-weights :
    (b : ℕ) → b < 2 → (part b).weight ≡ sum_ℤ (λ u. weight_in (hypernode plain_flags sample u) b) 3
unfolding sum_ℤ ◌+ℤ◌
sample-weights zero q = refl
sample-weights (suc zero) q = refl
sample-weights (suc (suc b)) q = absurd (omega arith)

sample-sizes :
    (b : ℕ) → b < 2 → (part b).size ≡ sum_ℕ (λ u. size_in (hypernode plain_flags sample u) b) 3
unfolding sum_ℕ
sample-sizes zero q = refl
sample-sizes (suc zero) q = refl
sample-sizes (suc (suc b)) q = absurd (omega arith)

sample-IsWeighed : IsWeighed plain_flags sample
sample-IsWeighed = record { weights = sample-weights; sizes = sample-sizes }

set_node_part-IsPartitioned_example :
    IsPartitioned plain_flags (set_node_part plain_flags sample 2 1)
set_node_part-IsPartitioned_example =
    set_node_part-IsPartitioned plain_flags sample 2 1 sample-IsPartitioned
      (λ he h live. sample-incident 2 he (omega arith) h) refl (omega arith) sample-small

change_node_part-IsPartitioned_example :
    IsPartitioned plain_flags (change_node_part plain_flags sample 1 0 1 []).0
change_node_part-IsPartitioned_example =
    change_node_part-IsPartitioned plain_flags sample 1 0 1 [] sample-IsPartitioned
      (λ he h live. sample-incident 1 he (omega arith) h) refl (ground arith) (omega arith)
      (omega arith) sample-small

set_node_part-IsWeighed_example : IsWeighed plain_flags (set_node_part plain_flags sample 2 1)
set_node_part-IsWeighed_example =
    set_node_part-IsWeighed plain_flags sample 2 1 sample-IsWeighed (omega arith) refl (omega arith)
      refl (omega arith)

change_node_part-IsWeighed_example :
    IsWeighed plain_flags (change_node_part plain_flags sample 1 0 1 []).0
change_node_part-IsWeighed_example =
    change_node_part-IsWeighed plain_flags sample 1 0 1 [] sample-IsWeighed (omega arith) refl
      (omega arith) refl (ground arith)
