-- ===== src/Tests/Gains.antt =====
-- A move and its gain, on the sample hypergraph.
use kahypar.Prelude.{ℕ, zero, suc, ◌≤◌, ◌<◌, ◌≡◌, refl, none, some, [], arith, count}
use mathlib.Core.Option
use kahypar.Prelude.Arrays.{fill}
use kahypar.Prelude.Int.{ℤ, pos, negsuc, ◌+ℤ◌, ◌-ℤ◌}
use kahypar.Containers.FlagArray.{plain_flags}
use kahypar.Hypergraph.State.{incident_edges, edge_size}
use kahypar.Hypergraph.Blocks.{change_node_part}
use kahypar.Options.Partitioning.{Mode, Objective}
use kahypar.Metrics.{Metrics, delta_update_metric, get_metric, hyperedge_cut, soed, km1, sum_over}
use kahypar.Metrics.Relations.{soed-cut-km1, get_metric-delta_update_metric}
use kahypar.Refinement.Gains.{
  gain_induced_by_hypergraph, gain_induced_by_hyperedge, cut_gain_induced_by_hypergraph,
  compute_gain, other_block,
}
use kahypar.Refinement.Gains.Km1.{km1-change_node_part}
use kahypar.Refinement.Gains.Cut.{hyperedge_cut-change_node_part}
use kahypar.Refinement.Gains.TwoWay.{compute_gain-cut_gain}
use kahypar.Refinement.Gains.Initial.{collect_gains, add_weights}
use kahypar.Refinement.Gains.Entries.{initialize_gain_cache_for, initialize_gain_cache_for_lem}
use kahypar.Refinement.GainCache.{KwayGainCache, element_of}
use kahypar.Refinement.GainCache.Elements
use kahypar.Containers.SparseMap
use kahypar.Tests.Blocks.{sample}
use kahypar.Tests.Search.{searched, searched-IsLinked}
use kahypar.Tests.Cuts.{sample-IsMovable}

sample_once : (he : ℕ) → count he (incident_edges plain_flags sample 0) ≤ 1
unfolding count
sample_once he = ground arith

sample_big :
    (he : ℕ)
    → 0 < count he (incident_edges plain_flags sample 0)
    → 2 ≤ edge_size plain_flags sample he
unfolding count
sample_big zero h = omega arith
sample_big (suc he) h = absurd (ground arith)

km1-change_node_part_example :
    some (km1 plain_flags (change_node_part plain_flags sample 0 0 1 []).0)
    ≡ Option.map
        (λ gain. km1 plain_flags sample -ℤ gain)
        (gain_induced_by_hypergraph plain_flags sample 0 1)
km1-change_node_part_example =
    km1-change_node_part plain_flags 0 1 sample-IsMovable.apart sample 0 [] sample-IsMovable
      sample_once

hyperedge_cut-change_node_part_example :
    some (hyperedge_cut plain_flags (change_node_part plain_flags sample 0 0 1 []).0)
    ≡ Option.map
        (λ gain. hyperedge_cut plain_flags sample -ℤ gain)
        (cut_gain_induced_by_hypergraph plain_flags sample 0 1)
hyperedge_cut-change_node_part_example =
    hyperedge_cut-change_node_part plain_flags 0 1 sample-IsMovable.apart sample 0 []
      sample-IsMovable sample_once sample_big

compute_gain-cut_gain_example :
    compute_gain plain_flags sample 0
    ≡ cut_gain_induced_by_hypergraph plain_flags sample 0 (other_block plain_flags 0)
unfolding other_block
compute_gain-cut_gain_example =
    compute_gain-cut_gain plain_flags sample 0 0 refl sample-IsMovable sample_big

soed-cut-km1_example :
    soed plain_flags sample ≡ hyperedge_cut plain_flags sample +ℤ km1 plain_flags sample
soed-cut-km1_example = soed-cut-km1 plain_flags sample

abbrev kept : Metrics
kept = record { cut = pos 7; km1 = pos 9 }

get_metric-delta_update_metric_example :
    Option.bind
      (delta_update_metric kept (negsuc 2) Mode.direct_kway Objective.km1)
      (λ m. get_metric m Mode.direct_kway Objective.km1)
    ≡ Option.map (λ x. x +ℤ negsuc 2) (get_metric kept Mode.direct_kway Objective.km1)
get_metric-delta_update_metric_example =
    get_metric-delta_update_metric kept (negsuc 2) Mode.direct_kway Objective.km1 (ground arith)

-- The only net of hypernode 0 becomes cut.
sample_gain : gain_induced_by_hypergraph plain_flags sample 0 1 ≡ some (negsuc 0)
unfolding gain_induced_by_hypergraph gain_induced_by_hyperedge sum_over ◌+ℤ◌ ◌-ℤ◌
sample_gain = refl

abbrev no_gains : SparseMap.SparseMap ℤ
no_gains = SparseMap.create (record { key = 0; value = pos 0 }) 2 (pos 0)

abbrev empty_cache : KwayGainCache
empty_cache = record { cache = λ u. none; deltas = [] }

initialize_gain_cache_for_lem_example :
    (cache' : KwayGainCache) × (initialize_gain_cache_for plain_flags searched no_gains empty_cache
        1
      ≡ some cache')
    × (Elements.lookup (element_of cache' 1) 0
        ≡ gain_induced_by_hypergraph plain_flags searched 1 0)
unfolding collect_gains SparseMap.clear SparseMap.contains add_weights SparseMap.modify
    SparseMap.index_of SparseMap.create fill
initialize_gain_cache_for_lem_example =
    initialize_gain_cache_for_lem plain_flags searched 1 1 0 no_gains empty_cache refl
      (ground arith) (omega arith) (λ he l. searched-IsLinked he) refl
