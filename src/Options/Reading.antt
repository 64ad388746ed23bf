-- ===== src/Options/Reading.antt =====
-- Each option against the word printed for it, read back.
use kahypar.Prelude.{refl, true, false}
use kahypar.Options.Partitioning.{
  Mode, print_mode, mode_from_string, InitialPartitioningTechnique,
  print_initial_partitioning_technique, initial_partitioning_technique_from_string,
  InitialPartitionerAlgorithm, print_initial_partitioner_algorithm,
  initial_partitioning_algorithm_from_string, BinPackingAlgorithm, print_bin_packing_algorithm,
  bin_packing_algorithm_from_string,
}
use kahypar.Options.Coarsening.{
  RatingFunction, print_rating_function, rating_function_from_string, HeavyNodePenaltyPolicy,
  print_heavy_node_penalty_policy, heavy_node_penalty_from_string, AcceptancePolicy,
  print_acceptance_policy, acceptance_criterion_from_string, RatingPartitionPolicy,
  print_rating_partition_policy, rating_partition_policy_from_string,
  FixVertexContractionAcceptancePolicy, print_fix_vertex_contraction_acceptance_policy,
  fixed_vertex_acceptance_criterion_from_string, CoarseningAlgorithm, print_coarsening_algorithm,
  coarsening_algorithm_from_string, LouvainEdgeWeight, print_louvain_edge_weight,
  edge_weight_from_string,
}
use kahypar.Options.Refinement.{
  RefinementAlgorithm, print_refinement_algorithm, refinement_algorithm_from_string,
  RefinementStoppingRule, print_refinement_stopping_rule, stopping_rule_from_string,
  FlowExecutionMode, print_flow_execution_mode, flow_execution_policy_from_string,
}
use kahypar.Options.Evolution.{
  EvoReplaceStrategy, print_evo_replace_strategy, replace_strategy_from_string, EvoCombineStrategy,
  print_evo_combine_strategy, combine_strategy_from_string, EvoMutateStrategy,
  print_evo_mutate_strategy, mutate_strategy_from_string,
}
use kahypar.Options.Spelling.{ReadsBack}

pub read_mode :
    ReadsBack print_mode mode_from_string (λ e. elim e [ Mode.undefined ↦ true | _ ↦ false ])
unfolding print_mode mode_from_string
read_mode Mode.recursive_bisection = refl
read_mode Mode.direct_kway = refl
read_mode Mode.undefined = refl

pub read_bin_packing_algorithm :
    ReadsBack print_bin_packing_algorithm bin_packing_algorithm_from_string
      (λ e. elim e [ BinPackingAlgorithm.undefined ↦ true | _ ↦ false ])
unfolding print_bin_packing_algorithm bin_packing_algorithm_from_string
read_bin_packing_algorithm BinPackingAlgorithm.worst_fit = refl
read_bin_packing_algorithm BinPackingAlgorithm.first_fit = refl
read_bin_packing_algorithm BinPackingAlgorithm.undefined = refl

pub read_rating_function :
    ReadsBack print_rating_function rating_function_from_string
      (λ e. elim e [ RatingFunction.undefined ↦ true | _ ↦ false ])
unfolding print_rating_function rating_function_from_string
read_rating_function RatingFunction.heavy_edge = refl
read_rating_function RatingFunction.edge_frequency = refl
read_rating_function RatingFunction.undefined = refl

pub read_heavy_node_penalty_policy :
    ReadsBack print_heavy_node_penalty_policy heavy_node_penalty_from_string
      (λ e. elim e [ HeavyNodePenaltyPolicy.undefined ↦ true | _ ↦ false ])
unfolding print_heavy_node_penalty_policy heavy_node_penalty_from_string
read_heavy_node_penalty_policy HeavyNodePenaltyPolicy.no_penalty = refl
read_heavy_node_penalty_policy HeavyNodePenaltyPolicy.multiplicative_penalty = refl
read_heavy_node_penalty_policy HeavyNodePenaltyPolicy.edge_frequency_penalty = refl
read_heavy_node_penalty_policy HeavyNodePenaltyPolicy.undefined = refl

pub read_acceptance_policy :
    ReadsBack print_acceptance_policy acceptance_criterion_from_string
      (λ e. elim e [ AcceptancePolicy.undefined ↦ true | _ ↦ false ])
unfolding print_acceptance_policy acceptance_criterion_from_string
read_acceptance_policy AcceptancePolicy.best = refl
read_acceptance_policy AcceptancePolicy.best_prefer_unmatched = refl
read_acceptance_policy AcceptancePolicy.undefined = refl

pub read_rating_partition_policy :
    ReadsBack print_rating_partition_policy rating_partition_policy_from_string (λ e. false)
unfolding print_rating_partition_policy rating_partition_policy_from_string
read_rating_partition_policy RatingPartitionPolicy.normal = refl
read_rating_partition_policy RatingPartitionPolicy.evolutionary = refl

pub read_fix_vertex_contraction_acceptance_policy :
    ReadsBack print_fix_vertex_contraction_acceptance_policy
      fixed_vertex_acceptance_criterion_from_string
      (λ e. elim e [ FixVertexContractionAcceptancePolicy.undefined ↦ true | _ ↦ false ])
unfolding print_fix_vertex_contraction_acceptance_policy
    fixed_vertex_acceptance_criterion_from_string
read_fix_vertex_contraction_acceptance_policy
      FixVertexContractionAcceptancePolicy.free_vertex_only =
    refl
read_fix_vertex_contraction_acceptance_policy
      FixVertexContractionAcceptancePolicy.fixed_vertex_allowed =
    refl
read_fix_vertex_contraction_acceptance_policy
      FixVertexContractionAcceptancePolicy.equivalent_vertices =
    refl
read_fix_vertex_contraction_acceptance_policy FixVertexContractionAcceptancePolicy.undefined = refl

pub read_coarsening_algorithm :
    ReadsBack print_coarsening_algorithm coarsening_algorithm_from_string
      (λ e. elim e [ CoarseningAlgorithm.undefined ↦ true | _ ↦ false ])
unfolding print_coarsening_algorithm coarsening_algorithm_from_string
read_coarsening_algorithm CoarseningAlgorithm.heavy_full = refl
read_coarsening_algorithm CoarseningAlgorithm.heavy_lazy = refl
read_coarsening_algorithm CoarseningAlgorithm.ml_style = refl
read_coarsening_algorithm CoarseningAlgorithm.do_nothing = refl
read_coarsening_algorithm CoarseningAlgorithm.undefined = refl

pub read_louvain_edge_weight :
    ReadsBack print_louvain_edge_weight edge_weight_from_string
      (λ e. elim e [ LouvainEdgeWeight.undefined ↦ true | _ ↦ false ])
unfolding print_louvain_edge_weight edge_weight_from_string
read_louvain_edge_weight LouvainEdgeWeight.hybrid = refl
read_louvain_edge_weight LouvainEdgeWeight.uniform = refl
read_louvain_edge_weight LouvainEdgeWeight.non_uniform = refl
read_louvain_edge_weight LouvainEdgeWeight.degree = refl
read_louvain_edge_weight LouvainEdgeWeight.undefined = refl

pub read_refinement_algorithm :
    ReadsBack print_refinement_algorithm refinement_algorithm_from_string
      (λ e. elim e [ RefinementAlgorithm.undefined ↦ true | _ ↦ false ])
unfolding print_refinement_algorithm refinement_algorithm_from_string
read_refinement_algorithm RefinementAlgorithm.twoway_fm = refl
read_refinement_algorithm RefinementAlgorithm.kway_fm = refl
read_refinement_algorithm RefinementAlgorithm.kway_fm_km1 = refl
read_refinement_algorithm RefinementAlgorithm.twoway_fm_hyperflow_cutter = refl
read_refinement_algorithm RefinementAlgorithm.twoway_hyperflow_cutter = refl
read_refinement_algorithm RefinementAlgorithm.kway_hyperflow_cutter = refl
read_refinement_algorithm RefinementAlgorithm.kway_fm_hyperflow_cutter = refl
read_refinement_algorithm RefinementAlgorithm.kway_fm_hyperflow_cutter_km1 = refl
read_refinement_algorithm RefinementAlgorithm.do_nothing = refl
read_refinement_algorithm RefinementAlgorithm.undefined = refl

pub read_refinement_stopping_rule :
    ReadsBack print_refinement_stopping_rule stopping_rule_from_string
      (λ e. elim e [ RefinementStoppingRule.undefined ↦ true | _ ↦ false ])
unfolding print_refinement_stopping_rule stopping_rule_from_string
read_refinement_stopping_rule RefinementStoppingRule.simple = refl
read_refinement_stopping_rule RefinementStoppingRule.adaptive_opt = refl
read_refinement_stopping_rule RefinementStoppingRule.undefined = refl

pub read_flow_execution_mode :
    ReadsBack print_flow_execution_mode flow_execution_policy_from_string
      (λ e. elim e [ FlowExecutionMode.undefined ↦ true | _ ↦ false ])
unfolding print_flow_execution_mode flow_execution_policy_from_string
read_flow_execution_mode FlowExecutionMode.constant = refl
read_flow_execution_mode FlowExecutionMode.multilevel = refl
read_flow_execution_mode FlowExecutionMode.exponential = refl
read_flow_execution_mode FlowExecutionMode.undefined = refl

pub read_initial_partitioning_technique :
    ReadsBack print_initial_partitioning_technique initial_partitioning_technique_from_string (λ e.
      elim e [
        | InitialPartitioningTechnique.multilevel ↦ true
        | InitialPartitioningTechnique.undefined ↦ true
        | _ ↦ false
      ])
unfolding print_initial_partitioning_technique initial_partitioning_technique_from_string
read_initial_partitioning_technique InitialPartitioningTechnique.multilevel = refl
read_initial_partitioning_technique InitialPartitioningTechnique.flat = refl
read_initial_partitioning_technique InitialPartitioningTechnique.undefined = refl

pub read_initial_partitioner_algorithm :
    ReadsBack print_initial_partitioner_algorithm initial_partitioning_algorithm_from_string (λ e.
      elim e [
        | InitialPartitionerAlgorithm.greedy_sequential_maxpin ↦ true
        | InitialPartitionerAlgorithm.greedy_sequential_maxnet ↦ true
        | InitialPartitionerAlgorithm.bin_packing ↦ true
        | InitialPartitionerAlgorithm.undefined ↦ true
        | _ ↦ false
      ])
unfolding print_initial_partitioner_algorithm initial_partitioning_algorithm_from_string
read_initial_partitioner_algorithm InitialPartitionerAlgorithm.greedy_sequential = refl
read_initial_partitioner_algorithm InitialPartitionerAlgorithm.greedy_global = refl
read_initial_partitioner_algorithm InitialPartitionerAlgorithm.greedy_round = refl
read_initial_partitioner_algorithm InitialPartitionerAlgorithm.greedy_sequential_maxpin = refl
read_initial_partitioner_algorithm InitialPartitionerAlgorithm.greedy_global_maxpin = refl
read_initial_partitioner_algorithm InitialPartitionerAlgorithm.greedy_round_maxpin = refl
read_initial_partitioner_algorithm InitialPartitionerAlgorithm.greedy_sequential_maxnet = refl
read_initial_partitioner_algorithm InitialPartitionerAlgorithm.greedy_global_maxnet = refl
read_initial_partitioner_algorithm InitialPartitionerAlgorithm.greedy_round_maxnet = refl
read_initial_partitioner_algorithm InitialPartitionerAlgorithm.bfs = refl
read_initial_partitioner_algorithm InitialPartitionerAlgorithm.random = refl
read_initial_partitioner_algorithm InitialPartitionerAlgorithm.lp = refl
read_initial_partitioner_algorithm InitialPartitionerAlgorithm.bin_packing = refl
read_initial_partitioner_algorithm InitialPartitionerAlgorithm.pool = refl
read_initial_partitioner_algorithm InitialPartitionerAlgorithm.undefined = refl

pub read_evo_replace_strategy :
    ReadsBack print_evo_replace_strategy replace_strategy_from_string
      (λ e. elim e [ EvoReplaceStrategy.strong_diverse ↦ true | _ ↦ false ])
unfolding print_evo_replace_strategy replace_strategy_from_string
read_evo_replace_strategy EvoReplaceStrategy.worst = refl
read_evo_replace_strategy EvoReplaceStrategy.diverse = refl
read_evo_replace_strategy EvoReplaceStrategy.strong_diverse = refl

pub read_evo_combine_strategy :
    ReadsBack print_evo_combine_strategy combine_strategy_from_string (λ e. elim e [
      | EvoCombineStrategy.edge_frequency ↦ true
      | EvoCombineStrategy.undefined ↦ true
      | _ ↦ false
    ])
unfolding print_evo_combine_strategy combine_strategy_from_string
read_evo_combine_strategy EvoCombineStrategy.basic = refl
read_evo_combine_strategy EvoCombineStrategy.edge_frequency = refl
read_evo_combine_strategy EvoCombineStrategy.undefined = refl

pub read_evo_mutate_strategy : ReadsBack print_evo_mutate_strategy mutate_strategy_from_string (λ e.
    elim e [
      | EvoMutateStrategy.new_initial_partitioning_vcycle ↦ true
      | EvoMutateStrategy.undefined ↦ true
      | _ ↦ false
    ])
unfolding print_evo_mutate_strategy mutate_strategy_from_string
read_evo_mutate_strategy EvoMutateStrategy.new_initial_partitioning_vcycle = refl
read_evo_mutate_strategy EvoMutateStrategy.vcycle = refl
read_evo_mutate_strategy EvoMutateStrategy.undefined = refl
