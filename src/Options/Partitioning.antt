-- ===== src/Options/Partitioning.antt =====
-- kahypar/partition/context_enum_classes.h: the options of the mode of the partitioner and of the initial partitioning, how they are printed and
-- how the command line spells them. `none` stands for the exit on an unknown word.
use Prim.Native.String.{String}
use text.Mathlib.Text.{◌==◌}
use kahypar.Prelude.{Option, none, some, if◌then◌else◌}

pub data ContextType : Type 0 where
  main initial_partitioning : ContextType

unfoldable pub print_context_type : ContextType → String
print_context_type ContextType.main = "main"
print_context_type ContextType.initial_partitioning = "ip"

pub data Mode : Type 0 where
  recursive_bisection direct_kway undefined : Mode

unfoldable pub print_mode : Mode → String
print_mode Mode.recursive_bisection = "recursive"
print_mode Mode.direct_kway = "direct"
print_mode Mode.undefined = "UNDEFINED"

unfoldable pub mode_from_string : String → Option Mode
mode_from_string word =
    if word == "recursive"
    then some Mode.recursive_bisection
    else if word == "direct"
    then some Mode.direct_kway
    else none

pub data Objective : Type 0 where
  cut km1 undefined : Objective

unfoldable pub print_objective : Objective → String
print_objective Objective.cut = "cut"
print_objective Objective.km1 = "km1"
print_objective Objective.undefined = "UNDEFINED"

pub data InitialPartitioningTechnique : Type 0 where
  multilevel flat undefined : InitialPartitioningTechnique

unfoldable pub print_initial_partitioning_technique : InitialPartitioningTechnique → String
print_initial_partitioning_technique InitialPartitioningTechnique.flat = "flat"
print_initial_partitioning_technique InitialPartitioningTechnique.multilevel = "multilevel"
print_initial_partitioning_technique InitialPartitioningTechnique.undefined = "UNDEFINED"

unfoldable pub initial_partitioning_technique_from_string :
    String → Option InitialPartitioningTechnique
initial_partitioning_technique_from_string word =
    if word == "flat"
    then some InitialPartitioningTechnique.flat
    else if word == "multi"
    then some InitialPartitioningTechnique.multilevel
    else none

pub data InitialPartitionerAlgorithm : Type 0 where
  greedy_sequential greedy_global greedy_round greedy_sequential_maxpin greedy_global_maxpin
        greedy_round_maxpin greedy_sequential_maxnet greedy_global_maxnet greedy_round_maxnet bfs
        random lp bin_packing pool undefined :
      InitialPartitionerAlgorithm

unfoldable pub print_initial_partitioner_algorithm : InitialPartitionerAlgorithm → String
print_initial_partitioner_algorithm InitialPartitionerAlgorithm.greedy_sequential =
    "greedy_sequential"
print_initial_partitioner_algorithm InitialPartitionerAlgorithm.greedy_global = "greedy_global"
print_initial_partitioner_algorithm InitialPartitionerAlgorithm.greedy_round = "greedy_round"
print_initial_partitioner_algorithm InitialPartitionerAlgorithm.greedy_sequential_maxpin =
    "greedy_maxpin"
print_initial_partitioner_algorithm InitialPartitionerAlgorithm.greedy_global_maxpin =
    "greedy_global_maxpin"
print_initial_partitioner_algorithm InitialPartitionerAlgorithm.greedy_round_maxpin =
    "greedy_round_maxpin"
print_initial_partitioner_algorithm InitialPartitionerAlgorithm.greedy_sequential_maxnet =
    "greedy_maxnet"
print_initial_partitioner_algorithm InitialPartitionerAlgorithm.greedy_global_maxnet =
    "greedy_global_maxnet"
print_initial_partitioner_algorithm InitialPartitionerAlgorithm.greedy_round_maxnet =
    "greedy_round_maxnet"
print_initial_partitioner_algorithm InitialPartitionerAlgorithm.bfs = "bfs"
print_initial_partitioner_algorithm InitialPartitionerAlgorithm.random = "random"
print_initial_partitioner_algorithm InitialPartitionerAlgorithm.lp = "lp"
print_initial_partitioner_algorithm InitialPartitionerAlgorithm.bin_packing = "bin_packing"
print_initial_partitioner_algorithm InitialPartitionerAlgorithm.pool = "pool"
print_initial_partitioner_algorithm InitialPartitionerAlgorithm.undefined = "UNDEFINED"

unfoldable pub initial_partitioning_algorithm_from_string :
    String → Option InitialPartitionerAlgorithm
initial_partitioning_algorithm_from_string word =
    if word == "greedy_sequential"
    then some InitialPartitionerAlgorithm.greedy_sequential
    else if word == "greedy_global"
    then some InitialPartitionerAlgorithm.greedy_global
    else if word == "greedy_round"
    then some InitialPartitionerAlgorithm.greedy_round
    else if word == "greedy_sequential_maxpin"
    then some InitialPartitionerAlgorithm.greedy_sequential_maxpin
    else if word == "greedy_global_maxpin"
    then some InitialPartitionerAlgorithm.greedy_global_maxpin
    else if word == "greedy_round_maxpin"
    then some InitialPartitionerAlgorithm.greedy_round_maxpin
    else if word == "greedy_sequential_maxnet"
    then some InitialPartitionerAlgorithm.greedy_sequential_maxnet
    else if word == "greedy_global_maxnet"
    then some InitialPartitionerAlgorithm.greedy_global_maxnet
    else if word == "greedy_round_maxnet"
    then some InitialPartitionerAlgorithm.greedy_round_maxnet
    else if word == "lp"
    then some InitialPartitionerAlgorithm.lp
    else if word == "bfs"
    then some InitialPartitionerAlgorithm.bfs
    else if word == "random"
    then some InitialPartitionerAlgorithm.random
    else if word == "pool"
    then some InitialPartitionerAlgorithm.pool
    else none

pub data BinPackingAlgorithm : Type 0 where
  worst_fit first_fit undefined : BinPackingAlgorithm

unfoldable pub print_bin_packing_algorithm : BinPackingAlgorithm → String
print_bin_packing_algorithm BinPackingAlgorithm.worst_fit = "worst_fit"
print_bin_packing_algorithm BinPackingAlgorithm.first_fit = "first_fit"
print_bin_packing_algorithm BinPackingAlgorithm.undefined = "UNDEFINED"

unfoldable pub bin_packing_algorithm_from_string : String → Option BinPackingAlgorithm
bin_packing_algorithm_from_string word =
    if word == "worst_fit"
    then some BinPackingAlgorithm.worst_fit
    else if word == "first_fit"
    then some BinPackingAlgorithm.first_fit
    else none
