-- ===== src/Options/Refinement.antt =====
-- kahypar/partition/context_enum_classes.h: the options of refinement, how they are printed and
-- how the command line spells them. `none` stands for the exit on an unknown word.
use Prim.Native.String.{String}
use text.Mathlib.Text.{◌==◌}
use kahypar.Prelude.{Option, none, some, if◌then◌else◌}

pub data RefinementAlgorithm : Type 0 where
  twoway_fm kway_fm kway_fm_km1 twoway_fm_hyperflow_cutter twoway_hyperflow_cutter
        kway_hyperflow_cutter kway_fm_hyperflow_cutter kway_fm_hyperflow_cutter_km1 do_nothing
        undefined :
      RefinementAlgorithm

unfoldable pub print_refinement_algorithm : RefinementAlgorithm → String
print_refinement_algorithm RefinementAlgorithm.twoway_fm = "twoway_fm"
print_refinement_algorithm RefinementAlgorithm.kway_fm = "kway_fm"
print_refinement_algorithm RefinementAlgorithm.kway_fm_km1 = "kway_fm_km1"
print_refinement_algorithm RefinementAlgorithm.twoway_hyperflow_cutter = "twoway_hyperflow_cutter"
print_refinement_algorithm RefinementAlgorithm.twoway_fm_hyperflow_cutter =
    "twoway_fm_hyperflow_cutter"
print_refinement_algorithm RefinementAlgorithm.kway_hyperflow_cutter = "kway_hyperflow_cutter"
print_refinement_algorithm RefinementAlgorithm.kway_fm_hyperflow_cutter = "kway_fm_hyperflow_cutter"
print_refinement_algorithm RefinementAlgorithm.kway_fm_hyperflow_cutter_km1 =
    "kway_fm_hyperflow_cutter_km1"
print_refinement_algorithm RefinementAlgorithm.do_nothing = "do_nothing"
print_refinement_algorithm RefinementAlgorithm.undefined = "UNDEFINED"

unfoldable pub refinement_algorithm_from_string : String → Option RefinementAlgorithm
refinement_algorithm_from_string word =
    if word == "twoway_fm"
    then some RefinementAlgorithm.twoway_fm
    else if word == "kway_fm"
    then some RefinementAlgorithm.kway_fm
    else if word == "kway_fm_km1"
    then some RefinementAlgorithm.kway_fm_km1
    else if word == "twoway_hyperflow_cutter"
    then some RefinementAlgorithm.twoway_hyperflow_cutter
    else if word == "kway_hyperflow_cutter"
    then some RefinementAlgorithm.kway_hyperflow_cutter
    else if word == "kway_fm_hyperflow_cutter"
    then some RefinementAlgorithm.kway_fm_hyperflow_cutter
    else if word == "twoway_fm_hyperflow_cutter"
    then some RefinementAlgorithm.twoway_fm_hyperflow_cutter
    else if word == "kway_fm_hyperflow_cutter_km1"
    then some RefinementAlgorithm.kway_fm_hyperflow_cutter_km1
    else if word == "do_nothing"
    then some RefinementAlgorithm.do_nothing
    else none

pub data RefinementStoppingRule : Type 0 where
  simple adaptive_opt undefined : RefinementStoppingRule

unfoldable pub print_refinement_stopping_rule : RefinementStoppingRule → String
print_refinement_stopping_rule RefinementStoppingRule.simple = "simple"
print_refinement_stopping_rule RefinementStoppingRule.adaptive_opt = "adaptive_opt"
print_refinement_stopping_rule RefinementStoppingRule.undefined = "UNDEFINED"

unfoldable pub stopping_rule_from_string : String → Option RefinementStoppingRule
stopping_rule_from_string word =
    if word == "simple"
    then some RefinementStoppingRule.simple
    else if word == "adaptive_opt"
    then some RefinementStoppingRule.adaptive_opt
    else none

pub data FlowExecutionMode : Type 0 where
  constant multilevel exponential undefined : FlowExecutionMode

unfoldable pub print_flow_execution_mode : FlowExecutionMode → String
print_flow_execution_mode FlowExecutionMode.constant = "constant"
print_flow_execution_mode FlowExecutionMode.multilevel = "multilevel"
print_flow_execution_mode FlowExecutionMode.exponential = "exponential"
print_flow_execution_mode FlowExecutionMode.undefined = "UNDEFINED"

unfoldable pub flow_execution_policy_from_string : String → Option FlowExecutionMode
flow_execution_policy_from_string word =
    if word == "constant"
    then some FlowExecutionMode.constant
    else if word == "multilevel"
    then some FlowExecutionMode.multilevel
    else if word == "exponential"
    then some FlowExecutionMode.exponential
    else none

pub data FlowHypergraphSizeConstraint : Type 0 where
  part_weight_fraction max_part_weight_fraction
        scaled_max_part_weight_fraction_minus_opposite_side :
      FlowHypergraphSizeConstraint
