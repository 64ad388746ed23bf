-- ===== src/Tests/Nets.antt =====
-- The reset, one step of a contraction, and the marks, on the hypergraph of Tests.Blocks.
use kahypar.Prelude.{
  [], ◌∷◌, ℕ, zero, suc, ◌%◌, ◌≤◌, ◌<◌, ◌≡◌, ◌≢◌, ◌⊎◌, refl, true, false, arith, count,
}
use kahypar.Prelude.Words.{u32_mod}
use kahypar.Containers.FlagArray.{plain_flags}
use kahypar.Hypergraph.State.{Hypergraph, hypernode, pins, slice, edges}
use kahypar.Hypergraph.Blocks.Assign.{IsPartitioned}
use kahypar.Hypergraph.Fixed.{reset_partitioning, set_node_parts}
use kahypar.Hypergraph.Fixed.Fresh.{reset_partitioning-IsPartitioned}
use kahypar.Hypergraph.Contraction.{contract_net}
use kahypar.Hypergraph.Contraction.Nets.{moved_slots, IsReplaced, IsCutOff, contract_net_lem}
use kahypar.Hypergraph.Marks.{
  IsMarking, active, marked, reset_hypernode_state, initialize_num_cut_hyperedges,
  reset_hypernode_state-fresh, reset_hypernode_state_wraps,
}
use kahypar.Hypergraph.Marks.CutNets.{cut_pin_count, initialize_num_cut_hyperedges_lem}
use kahypar.Hypergraph.Fixed.Loop.{IsAssignable, set_node_parts-IsPartitioned}
use kahypar.Tests.Blocks.{sample, pin, sample-IsPartitioned, sample-incident, sample-small}

sample-within : (he u : ℕ) → 0 < count u (pins plain_flags sample he) → u < 3
unfolding slice count
sample-within zero u h = ground arith
sample-within (suc zero) u h = ground arith
sample-within (suc (suc he)) u h = absurd (omega arith)

reset_partitioning-IsPartitioned_example :
    IsPartitioned plain_flags (reset_partitioning plain_flags sample)
reset_partitioning-IsPartitioned_example =
    reset_partitioning-IsPartitioned plain_flags sample sample-within

once-pin : (j : ℕ) → 0 ≤ j → j < 2 → j ≢ 1 → pin j ≢ 1
once-pin zero l h ne e = absurd (omega (arith, e))
once-pin (suc zero) l h ne e = ne refl
once-pin (suc (suc j)) l h ne e = omega arith

contract_net_lem_example :
    (((j : ℕ) → 0 ≤ j → j < 1 → moved_slots plain_flags (λ x. x) sample 0 1 0 1 j ≢ 0)
      × IsReplaced plain_flags
          (λ x. x)
          sample
          0
          1
          0
          1
          (contract_net plain_flags (λ x. x) sample 0 1 0))
    ⊎ (((j : ℕ) × (0 ≤ j) × (j < 1) × (moved_slots plain_flags (λ x. x) sample 0 1 0 1 j ≡ 0))
        × IsCutOff plain_flags
            (λ x. x)
            sample
            0
            1
            0
            1
            (contract_net plain_flags (λ x. x) sample 0 1 0))
contract_net_lem_example =
    contract_net_lem plain_flags (λ x. x) sample 0 1 0 1 (ground arith) (omega arith) (omega arith)
      (omega arith) refl once-pin

initialize_num_cut_hyperedges_lem_example :
    (hypernode plain_flags
      (initialize_num_cut_hyperedges plain_flags sample)
      1).num_incident_cut_hes
    ≡ cut_pin_count plain_flags 1 sample (edges plain_flags sample) % u32_mod
initialize_num_cut_hyperedges_lem_example =
    initialize_num_cut_hyperedges_lem plain_flags 1 sample (omega arith)

sample-IsMarking : IsMarking plain_flags sample
sample-IsMarking = record {
  next = omega arith;
  even = omega arith;
  bound = omega arith;
  past = λ u. omega arith;
}

reset_hypernode_state-fresh_example :
    IsMarking plain_flags (reset_hypernode_state plain_flags sample)
    × ((u : ℕ)
        → (active plain_flags (reset_hypernode_state plain_flags sample) u ≡ false)
          × (marked plain_flags (reset_hypernode_state plain_flags sample) u ≡ false))
reset_hypernode_state-fresh_example =
    reset_hypernode_state-fresh plain_flags sample sample-IsMarking (omega arith)

-- After 2147483646 resets.
abbrev worn : Hypergraph plain_flags
worn = record sample { threshold_active = 4294967293; threshold_marked = 4294967294 }

worn-IsMarking : IsMarking plain_flags worn
worn-IsMarking = record {
  next = omega arith;
  even = omega arith;
  bound = omega arith;
  past = λ u. omega arith;
}

reset_hypernode_state_wraps_example :
    (active plain_flags worn 0 ≡ false)
    × (marked plain_flags worn 0 ≡ false)
    × (marked plain_flags (reset_hypernode_state plain_flags worn) 0 ≡ true)
reset_hypernode_state_wraps_example =
    reset_hypernode_state_wraps plain_flags worn 0 worn-IsMarking (omega arith) refl

two-IsAssignable : (u : ℕ) → 0 < count u (2 ∷ []) → IsAssignable plain_flags sample u
unfolding count
two-IsAssignable zero h = absurd (omega arith)
two-IsAssignable (suc zero) h = absurd (omega arith)
two-IsAssignable (suc (suc zero)) h = record {
  free = refl;
  incident = λ he inside live. sample-incident 2 he (omega arith) inside;
}
two-IsAssignable (suc (suc (suc u))) h = absurd (ground arith)

once-two : (u : ℕ) → count u (2 ∷ []) ≤ 1
unfolding count
once-two u = ground arith

set_node_parts-IsPartitioned_example :
    IsPartitioned plain_flags (set_node_parts plain_flags sample (λ u. 1) (2 ∷ []))
set_node_parts-IsPartitioned_example =
    set_node_parts-IsPartitioned plain_flags (2 ∷ []) sample (λ u. 1) sample-IsPartitioned
      two-IsAssignable once-two (λ u. omega arith) sample-small
