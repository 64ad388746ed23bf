-- ===== src/Options/Evolution.antt =====
-- kahypar/partition/context_enum_classes.h: the options of the evolutionary algorithm, how they are printed and
-- how the command line spells them. `none` stands for the exit on an unknown word.
use Prim.Native.String.{String}
use text.Mathlib.Text.{◌==◌}
use kahypar.Prelude.{Option, none, some, if◌then◌else◌}

pub data EvoReplaceStrategy : Type 0 where
  worst diverse strong_diverse : EvoReplaceStrategy

unfoldable pub print_evo_replace_strategy : EvoReplaceStrategy → String
print_evo_replace_strategy EvoReplaceStrategy.worst = "worst"
print_evo_replace_strategy EvoReplaceStrategy.diverse = "diverse"
print_evo_replace_strategy EvoReplaceStrategy.strong_diverse = "strong_diverse"

unfoldable pub replace_strategy_from_string : String → Option EvoReplaceStrategy
replace_strategy_from_string word =
    if word == "worst"
    then some EvoReplaceStrategy.worst
    else if word == "diverse"
    then some EvoReplaceStrategy.diverse
    else if word == "strong-diverse"
    then some EvoReplaceStrategy.strong_diverse
    else none

pub data EvoCombineStrategy : Type 0 where
  basic edge_frequency undefined : EvoCombineStrategy

unfoldable pub print_evo_combine_strategy : EvoCombineStrategy → String
print_evo_combine_strategy EvoCombineStrategy.basic = "basic"
print_evo_combine_strategy EvoCombineStrategy.edge_frequency = "edge_frequency"
print_evo_combine_strategy EvoCombineStrategy.undefined = "-"

unfoldable pub combine_strategy_from_string : String → Option EvoCombineStrategy
combine_strategy_from_string word =
    if word == "basic"
    then some EvoCombineStrategy.basic
    else if word == "edge-frequency"
    then some EvoCombineStrategy.edge_frequency
    else none

pub data EvoMutateStrategy : Type 0 where
  new_initial_partitioning_vcycle vcycle undefined : EvoMutateStrategy

unfoldable pub print_evo_mutate_strategy : EvoMutateStrategy → String
print_evo_mutate_strategy EvoMutateStrategy.new_initial_partitioning_vcycle =
    "new_initial_partitioning_vcycle"
print_evo_mutate_strategy EvoMutateStrategy.vcycle = "vcycle"
print_evo_mutate_strategy EvoMutateStrategy.undefined = "-"

unfoldable pub mutate_strategy_from_string : String → Option EvoMutateStrategy
mutate_strategy_from_string word =
    if word == "new-initial-partitioning-vcycle"
    then some EvoMutateStrategy.new_initial_partitioning_vcycle
    else if word == "vcycle"
    then some EvoMutateStrategy.vcycle
    else none

pub data EvoDecision : Type 0 where
  normal mutation combine : EvoDecision

unfoldable pub print_evo_decision : EvoDecision → String
print_evo_decision EvoDecision.normal = "normal"
print_evo_decision EvoDecision.mutation = "mutation"
print_evo_decision EvoDecision.combine = "combine"
