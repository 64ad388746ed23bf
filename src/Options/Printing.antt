-- ===== src/Options/Printing.antt =====
-- Each accepted word against the word printed for its option.
use text.Mathlib.TextEquality.{eq_iff}
use kahypar.Prelude.{arith}
use kahypar.Options.Partitioning.{
  print_mode, mode_from_string, print_bin_packing_algorithm, bin_packing_algorithm_from_string,
}
use kahypar.Options.Coarsening.{
  print_rating_function, rating_function_from_string, print_heavy_node_penalty_policy,
  heavy_node_penalty_from_string, print_acceptance_policy, acceptance_criterion_from_string,
  print_rating_partition_policy, rating_partition_policy_from_string,
  print_fix_vertex_contraction_acceptance_policy, fixed_vertex_acceptance_criterion_from_string,
  print_coarsening_algorithm, coarsening_algorithm_from_string, print_louvain_edge_weight,
  edge_weight_from_string,
}
use kahypar.Options.Refinement.{
  print_refinement_algorithm, refinement_algorithm_from_string, print_refinement_stopping_rule,
  stopping_rule_from_string, print_flow_execution_mode, flow_execution_policy_from_string,
}
use kahypar.Options.Spelling.{PrintsBack}

pub spell_mode : PrintsBack print_mode mode_from_string
unfolding print_mode mode_from_string
spell_mode word = ground (arith, eq_iff word "recursive", eq_iff word "direct")

pub spell_bin_packing_algorithm :
    PrintsBack print_bin_packing_algorithm bin_packing_algorithm_from_string
unfolding print_bin_packing_algorithm bin_packing_algorithm_from_string
spell_bin_packing_algorithm word = ground (arith, eq_iff word "worst_fit", eq_iff word "first_fit")

pub spell_rating_function : PrintsBack print_rating_function rating_function_from_string
unfolding print_rating_function rating_function_from_string
spell_rating_function word = ground (arith, eq_iff word "heavy_edge", eq_iff word "edge_frequency")

pub spell_heavy_node_penalty_policy :
    PrintsBack print_heavy_node_penalty_policy heavy_node_penalty_from_string
unfolding print_heavy_node_penalty_policy heavy_node_penalty_from_string
spell_heavy_node_penalty_policy word = ground (
  arith,
  eq_iff word "multiplicative",
  eq_iff word "no_penalty",
  eq_iff word "edge_frequency_penalty",
)

pub spell_acceptance_policy : PrintsBack print_acceptance_policy acceptance_criterion_from_string
unfolding print_acceptance_policy acceptance_criterion_from_string
spell_acceptance_policy word =
    ground (arith, eq_iff word "best", eq_iff word "best_prefer_unmatched")

pub spell_rating_partition_policy :
    PrintsBack print_rating_partition_policy rating_partition_policy_from_string
unfolding print_rating_partition_policy rating_partition_policy_from_string
spell_rating_partition_policy word =
    ground (arith, eq_iff word "normal", eq_iff word "evolutionary")

pub spell_fix_vertex_contraction_acceptance_policy :
    PrintsBack print_fix_vertex_contraction_acceptance_policy
      fixed_vertex_acceptance_criterion_from_string
unfolding print_fix_vertex_contraction_acceptance_policy
    fixed_vertex_acceptance_criterion_from_string
spell_fix_vertex_contraction_acceptance_policy word = ground (
  arith,
  eq_iff word "free_vertex_only",
  eq_iff word "fixed_vertex_allowed",
  eq_iff word "equivalent_vertices",
)

pub spell_coarsening_algorithm :
    PrintsBack print_coarsening_algorithm coarsening_algorithm_from_string
unfolding print_coarsening_algorithm coarsening_algorithm_from_string
spell_coarsening_algorithm word = ground (
  arith,
  eq_iff word "heavy_full",
  eq_iff word "heavy_lazy",
  eq_iff word "ml_style",
  eq_iff word "do_nothing",
)

pub spell_louvain_edge_weight : PrintsBack print_louvain_edge_weight edge_weight_from_string
unfolding print_louvain_edge_weight edge_weight_from_string
spell_louvain_edge_weight word = ground (
  arith,
  eq_iff word "hybrid",
  eq_iff word "uniform",
  eq_iff word "non_uniform",
  eq_iff word "degree",
)

pub spell_refinement_algorithm :
    PrintsBack print_refinement_algorithm refinement_algorithm_from_string
unfolding print_refinement_algorithm refinement_algorithm_from_string
spell_refinement_algorithm word = ground (
  arith,
  eq_iff word "twoway_fm",
  eq_iff word "kway_fm",
  eq_iff word "kway_fm_km1",
  eq_iff word "twoway_hyperflow_cutter",
  eq_iff word "kway_hyperflow_cutter",
  eq_iff word "kway_fm_hyperflow_cutter",
  eq_iff word "twoway_fm_hyperflow_cutter",
  eq_iff word "kway_fm_hyperflow_cutter_km1",
  eq_iff word "do_nothing",
)

pub spell_refinement_stopping_rule :
    PrintsBack print_refinement_stopping_rule stopping_rule_from_string
unfolding print_refinement_stopping_rule stopping_rule_from_string
spell_refinement_stopping_rule word =
    ground (arith, eq_iff word "simple", eq_iff word "adaptive_opt")

pub spell_flow_execution_mode :
    PrintsBack print_flow_execution_mode flow_execution_policy_from_string
unfolding print_flow_execution_mode flow_execution_policy_from_string
spell_flow_execution_mode word =
    ground (arith, eq_iff word "constant", eq_iff word "multilevel", eq_iff word "exponential")
