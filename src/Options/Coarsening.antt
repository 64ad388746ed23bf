-- ===== src/Options/Coarsening.antt =====
-- kahypar/partition/context_enum_classes.h: the options of coarsening and community detection, how they are printed and
-- how the command line spells them. `none` stands for the exit on an unknown word.
use Prim.Native.String.{String}
use text.Mathlib.Text.{◌==◌}
use kahypar.Prelude.{Option, none, some, if◌then◌else◌}

pub data RatingFunction : Type 0 where
  heavy_edge edge_frequency undefined : RatingFunction

unfoldable pub print_rating_function : RatingFunction → String
print_rating_function RatingFunction.heavy_edge = "heavy_edge"
print_rating_function RatingFunction.edge_frequency = "edge_frequency"
print_rating_function RatingFunction.undefined = "UNDEFINED"

unfoldable pub rating_function_from_string : String → Option RatingFunction
rating_function_from_string word =
    if word == "heavy_edge"
    then some RatingFunction.heavy_edge
    else if word == "edge_frequency"
    then some RatingFunction.edge_frequency
    else none

pub data CommunityPolicy : Type 0 where
  use_communities ignore_communities undefined : CommunityPolicy

unfoldable pub print_community_policy : CommunityPolicy → String
print_community_policy CommunityPolicy.use_communities = "true"
print_community_policy CommunityPolicy.ignore_communities = "false"
print_community_policy CommunityPolicy.undefined = "UNDEFINED"

pub data HeavyNodePenaltyPolicy : Type 0 where
  no_penalty multiplicative_penalty edge_frequency_penalty undefined : HeavyNodePenaltyPolicy

unfoldable pub print_heavy_node_penalty_policy : HeavyNodePenaltyPolicy → String
print_heavy_node_penalty_policy HeavyNodePenaltyPolicy.multiplicative_penalty = "multiplicative"
print_heavy_node_penalty_policy HeavyNodePenaltyPolicy.no_penalty = "no_penalty"
print_heavy_node_penalty_policy HeavyNodePenaltyPolicy.edge_frequency_penalty =
    "edge_frequency_penalty"
print_heavy_node_penalty_policy HeavyNodePenaltyPolicy.undefined = "UNDEFINED"

unfoldable pub heavy_node_penalty_from_string : String → Option HeavyNodePenaltyPolicy
heavy_node_penalty_from_string word =
    if word == "multiplicative"
    then some HeavyNodePenaltyPolicy.multiplicative_penalty
    else if word == "no_penalty"
    then some HeavyNodePenaltyPolicy.no_penalty
    else if word == "edge_frequency_penalty"
    then some HeavyNodePenaltyPolicy.edge_frequency_penalty
    else none

pub data AcceptancePolicy : Type 0 where
  best best_prefer_unmatched undefined : AcceptancePolicy

unfoldable pub print_acceptance_policy : AcceptancePolicy → String
print_acceptance_policy AcceptancePolicy.best = "best"
print_acceptance_policy AcceptancePolicy.best_prefer_unmatched = "best_prefer_unmatched"
print_acceptance_policy AcceptancePolicy.undefined = "UNDEFINED"

unfoldable pub acceptance_criterion_from_string : String → Option AcceptancePolicy
acceptance_criterion_from_string word =
    if word == "best"
    then some AcceptancePolicy.best
    else if word == "best_prefer_unmatched"
    then some AcceptancePolicy.best_prefer_unmatched
    else none

pub data RatingPartitionPolicy : Type 0 where
  normal evolutionary : RatingPartitionPolicy

unfoldable pub print_rating_partition_policy : RatingPartitionPolicy → String
print_rating_partition_policy RatingPartitionPolicy.normal = "normal"
print_rating_partition_policy RatingPartitionPolicy.evolutionary = "evolutionary"

unfoldable pub rating_partition_policy_from_string : String → Option RatingPartitionPolicy
rating_partition_policy_from_string word =
    if word == "normal"
    then some RatingPartitionPolicy.normal
    else if word == "evolutionary"
    then some RatingPartitionPolicy.evolutionary
    else none

pub data FixVertexContractionAcceptancePolicy : Type 0 where
  free_vertex_only fixed_vertex_allowed equivalent_vertices undefined :
      FixVertexContractionAcceptancePolicy

unfoldable pub print_fix_vertex_contraction_acceptance_policy :
    FixVertexContractionAcceptancePolicy → String
print_fix_vertex_contraction_acceptance_policy
      FixVertexContractionAcceptancePolicy.free_vertex_only =
    "free_vertex_only"
print_fix_vertex_contraction_acceptance_policy
      FixVertexContractionAcceptancePolicy.fixed_vertex_allowed =
    "fixed_vertex_allowed"
print_fix_vertex_contraction_acceptance_policy
      FixVertexContractionAcceptancePolicy.equivalent_vertices =
    "equivalent_vertices"
print_fix_vertex_contraction_acceptance_policy FixVertexContractionAcceptancePolicy.undefined =
    "UNDEFINED"

unfoldable pub fixed_vertex_acceptance_criterion_from_string :
    String → Option FixVertexContractionAcceptancePolicy
fixed_vertex_acceptance_criterion_from_string word =
    if word == "free_vertex_only"
    then some FixVertexContractionAcceptancePolicy.free_vertex_only
    else if word == "fixed_vertex_allowed"
    then some FixVertexContractionAcceptancePolicy.fixed_vertex_allowed
    else if word == "equivalent_vertices"
    then some FixVertexContractionAcceptancePolicy.equivalent_vertices
    else none

pub data CoarseningAlgorithm : Type 0 where
  heavy_full heavy_lazy ml_style do_nothing undefined : CoarseningAlgorithm

unfoldable pub print_coarsening_algorithm : CoarseningAlgorithm → String
print_coarsening_algorithm CoarseningAlgorithm.heavy_full = "heavy_full"
print_coarsening_algorithm CoarseningAlgorithm.heavy_lazy = "heavy_lazy"
print_coarsening_algorithm CoarseningAlgorithm.ml_style = "ml_style"
print_coarsening_algorithm CoarseningAlgorithm.do_nothing = "do_nothing"
print_coarsening_algorithm CoarseningAlgorithm.undefined = "UNDEFINED"

unfoldable pub coarsening_algorithm_from_string : String → Option CoarseningAlgorithm
coarsening_algorithm_from_string word =
    if word == "heavy_full"
    then some CoarseningAlgorithm.heavy_full
    else if word == "heavy_lazy"
    then some CoarseningAlgorithm.heavy_lazy
    else if word == "ml_style"
    then some CoarseningAlgorithm.ml_style
    else if word == "do_nothing"
    then some CoarseningAlgorithm.do_nothing
    else none

pub data LouvainEdgeWeight : Type 0 where
  hybrid uniform non_uniform degree undefined : LouvainEdgeWeight

unfoldable pub print_louvain_edge_weight : LouvainEdgeWeight → String
print_louvain_edge_weight LouvainEdgeWeight.hybrid = "hybrid"
print_louvain_edge_weight LouvainEdgeWeight.uniform = "uniform"
print_louvain_edge_weight LouvainEdgeWeight.non_uniform = "non_uniform"
print_louvain_edge_weight LouvainEdgeWeight.degree = "degree"
print_louvain_edge_weight LouvainEdgeWeight.undefined = "UNDEFINED"

unfoldable pub edge_weight_from_string : String → Option LouvainEdgeWeight
edge_weight_from_string word =
    if word == "hybrid"
    then some LouvainEdgeWeight.hybrid
    else if word == "uniform"
    then some LouvainEdgeWeight.uniform
    else if word == "non_uniform"
    then some LouvainEdgeWeight.non_uniform
    else if word == "degree"
    then some LouvainEdgeWeight.degree
    else none
