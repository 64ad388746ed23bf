-- ===== src/Options/RoundTrip.antt =====
-- The options of the configuration as words: printing after reading, and reading after printing.
use kahypar.Prelude.{true, false}
use kahypar.Options.Partitioning.{
  Mode, print_mode, mode_from_string, InitialPartitioningTechnique,
  print_initial_partitioning_technique, initial_partitioning_technique_from_string,
  InitialPartitionerAlgorithm, print_initial_partitioner_algorithm,
  initial_partitioning_algorithm_from_string, BinPackingAlgorithm, print_bin_packing_algorithm,
  bin_packing_algorithm_from_string,
}
use kahypar.Options.Coarsening.{
  RatingFunction, print_rating_function, rating_function_from_string, HeavyNodePenaltyPolicy,
  print_heavy_node_penalty_policy, heavy_node_penalty_from_string, AcceptancePolicy,
  print_acceptance_policy, acceptance_criterion_from_string, print_rating_partition_policy,
  rating_partition_policy_from_string, FixVertexContractionAcceptancePolicy,
  print_fix_vertex_contraction_acceptance_policy, fixed_vertex_acceptance_criterion_from_string,
  CoarseningAlgorithm, print_coarsening_algorithm, coarsening_algorithm_from_string,
  LouvainEdgeWeight, print_louvain_edge_weight, edge_weight_from_string,
}
use kahypar.Options.Refinement.{
  RefinementAlgorithm, print_refinement_algorithm, refinement_algorithm_from_string,
  RefinementStoppingRule, print_refinement_stopping_rule, stopping_rule_from_string,
  FlowExecutionMode, print_flow_execution_mode, flow_execution_policy_from_string,
}
use kahypar.Options.Evolution.{
  EvoReplaceStrategy, print_evo_replace_strategy, replace_strategy_from_string, EvoCombineStrategy,
  print_evo_combine_strategy, combine_strategy_from_string, EvoMutateStrategy,
  print_evo_mutate_strategy, mutate_strategy_from_string,
}
use kahypar.Options.Spelling.{ReadsBack, PrintsBack}
use kahypar.Options.Reading.{
  read_mode, read_bin_packing_algorithm, read_rating_function, read_heavy_node_penalty_policy,
  read_acceptance_policy, read_rating_partition_policy,
  read_fix_vertex_contraction_acceptance_policy, read_coarsening_algorithm,
  read_louvain_edge_weight, read_refinement_algorithm, read_refinement_stopping_rule,
  read_flow_execution_mode, read_initial_partitioning_technique, read_initial_partitioner_algorithm,
  read_evo_replace_strategy, read_evo_combine_strategy, read_evo_mutate_strategy,
}
use kahypar.Options.Printing.{
  spell_mode, spell_bin_packing_algorithm, spell_rating_function, spell_heavy_node_penalty_policy,
  spell_acceptance_policy, spell_rating_partition_policy,
  spell_fix_vertex_contraction_acceptance_policy, spell_coarsening_algorithm,
  spell_louvain_edge_weight, spell_refinement_algorithm, spell_refinement_stopping_rule,
  spell_flow_execution_mode,
}

-- Every option of these twelve kinds but UNDEFINED is read back from the word that is printed for it,
-- and UNDEFINED is refused.
options_read_back :
    ReadsBack print_mode mode_from_string (λ e. elim e [ Mode.undefined ↦ true | _ ↦ false ])
    × ReadsBack print_bin_packing_algorithm bin_packing_algorithm_from_string
        (λ e. elim e [ BinPackingAlgorithm.undefined ↦ true | _ ↦ false ])
    × ReadsBack print_rating_function rating_function_from_string
        (λ e. elim e [ RatingFunction.undefined ↦ true | _ ↦ false ])
    × ReadsBack print_heavy_node_penalty_policy heavy_node_penalty_from_string
        (λ e. elim e [ HeavyNodePenaltyPolicy.undefined ↦ true | _ ↦ false ])
    × ReadsBack print_acceptance_policy acceptance_criterion_from_string
        (λ e. elim e [ AcceptancePolicy.undefined ↦ true | _ ↦ false ])
    × ReadsBack print_rating_partition_policy rating_partition_policy_from_string (λ e. false)
    × ReadsBack print_fix_vertex_contraction_acceptance_policy
        fixed_vertex_acceptance_criterion_from_string
        (λ e. elim e [ FixVertexContractionAcceptancePolicy.undefined ↦ true | _ ↦ false ])
    × ReadsBack print_coarsening_algorithm coarsening_algorithm_from_string
        (λ e. elim e [ CoarseningAlgorithm.undefined ↦ true | _ ↦ false ])
    × ReadsBack print_louvain_edge_weight edge_weight_from_string
        (λ e. elim e [ LouvainEdgeWeight.undefined ↦ true | _ ↦ false ])
    × ReadsBack print_refinement_algorithm refinement_algorithm_from_string
        (λ e. elim e [ RefinementAlgorithm.undefined ↦ true | _ ↦ false ])
    × ReadsBack print_refinement_stopping_rule stopping_rule_from_string
        (λ e. elim e [ RefinementStoppingRule.undefined ↦ true | _ ↦ false ])
    × ReadsBack print_flow_execution_mode flow_execution_policy_from_string
        (λ e. elim e [ FlowExecutionMode.undefined ↦ true | _ ↦ false ])
options_read_back = (
  read_mode, read_bin_packing_algorithm, read_rating_function, read_heavy_node_penalty_policy,
  read_acceptance_policy, read_rating_partition_policy,
  read_fix_vertex_contraction_acceptance_policy, read_coarsening_algorithm,
  read_louvain_edge_weight, read_refinement_algorithm, read_refinement_stopping_rule,
  read_flow_execution_mode,
)

-- A word that is accepted for an option of these twelve kinds is the word printed for the option.
options_print_back :
    PrintsBack print_mode mode_from_string
    × PrintsBack print_bin_packing_algorithm bin_packing_algorithm_from_string
    × PrintsBack print_rating_function rating_function_from_string
    × PrintsBack print_heavy_node_penalty_policy heavy_node_penalty_from_string
    × PrintsBack print_acceptance_policy acceptance_criterion_from_string
    × PrintsBack print_rating_partition_policy rating_partition_policy_from_string
    × PrintsBack print_fix_vertex_contraction_acceptance_policy
        fixed_vertex_acceptance_criterion_from_string
    × PrintsBack print_coarsening_algorithm coarsening_algorithm_from_string
    × PrintsBack print_louvain_edge_weight edge_weight_from_string
    × PrintsBack print_refinement_algorithm refinement_algorithm_from_string
    × PrintsBack print_refinement_stopping_rule stopping_rule_from_string
    × PrintsBack print_flow_execution_mode flow_execution_policy_from_string
options_print_back = (
  spell_mode, spell_bin_packing_algorithm, spell_rating_function, spell_heavy_node_penalty_policy,
  spell_acceptance_policy, spell_rating_partition_policy,
  spell_fix_vertex_contraction_acceptance_policy, spell_coarsening_algorithm,
  spell_louvain_edge_weight, spell_refinement_algorithm, spell_refinement_stopping_rule,
  spell_flow_execution_mode,
)

-- Of these five kinds the options that the statement lists as refused cannot be read back from the
-- word printed for them, and all others can.
options_lost :
    ReadsBack print_initial_partitioning_technique initial_partitioning_technique_from_string (λ e.
      elim e [
        | InitialPartitioningTechnique.multilevel ↦ true
        | InitialPartitioningTechnique.undefined ↦ true
        | _ ↦ false
      ])
    × ReadsBack print_initial_partitioner_algorithm initial_partitioning_algorithm_from_string (λ e.
      elim e [
        | InitialPartitionerAlgorithm.greedy_sequential_maxpin ↦ true
        | InitialPartitionerAlgorithm.greedy_sequential_maxnet ↦ true
        | InitialPartitionerAlgorithm.bin_packing ↦ true
        | InitialPartitionerAlgorithm.undefined ↦ true
        | _ ↦ false
      ])
    × ReadsBack print_evo_replace_strategy replace_strategy_from_string
        (λ e. elim e [ EvoReplaceStrategy.strong_diverse ↦ true | _ ↦ false ])
    × ReadsBack print_evo_combine_strategy combine_strategy_from_string (λ e. elim e [
      | EvoCombineStrategy.edge_frequency ↦ true
      | EvoCombineStrategy.undefined ↦ true
      | _ ↦ false
    ])
    × ReadsBack print_evo_mutate_strategy mutate_strategy_from_string (λ e. elim e [
      | EvoMutateStrategy.new_initial_partitioning_vcycle ↦ true
      | EvoMutateStrategy.undefined ↦ true
      | _ ↦ false
    ])
options_lost = (
  read_initial_partitioning_technique, read_initial_partitioner_algorithm,
  read_evo_replace_strategy, read_evo_combine_strategy, read_evo_mutate_strategy,
)
