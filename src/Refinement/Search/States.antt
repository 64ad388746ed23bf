-- ===== src/Refinement/Search/States.antt =====
-- The states of hypernodes that a search leaves, which are no part of the partition.
use mathlib.Core.Path.{subst, fun_ext}
use native.Mathlib.Decide.{ℕ_discrete}
use kahypar.Prelude.{ℕ, ◌≡◌, refl, ap, Option, ◌==◌, arith, if◌then◌else◌}
use kahypar.Containers.FlagArray.{FlagArray}
use kahypar.Hypergraph.State.{Hypergraph, hypernode, part_id}
use kahypar.Hypergraph.Marks.{mark}
use kahypar.Hypergraph.Partition.{IsRelabelled, IsRelabelled-trans}
use kahypar.Hypergraph.Partition.Step.{IsSearchable, IsSearchable-of}
use kahypar.Refinement.Search.{with_states}
use kahypar.Refinement.Search.Rollback.{IsAfter}

module _ (F : FlagArray) where
  -- The states of hypernodes are no part of a partition.
  with_states-IsRelabelled :
      (g : Hypergraph F) (states : ℕ → ℕ) → IsRelabelled F g (with_states F g states) (part_id F g)
  with_states-IsRelabelled g states = record {
    blocks = refl;
    order = refl;
    nets = refl;
    pins_same = λ e. refl;
    size = λ e. refl;
    live = λ e. refl;
    heavy = λ e. refl;
    enabled = λ u. refl;
    weight = λ u. refl;
    incident = λ u. refl;
    block = λ u. refl;
  }

  with_states-IsSearchable :
      (g : Hypergraph F) (states : ℕ → ℕ)
      → IsSearchable F g
      → IsSearchable F (with_states F g states)
  with_states-IsSearchable g states s =
      IsSearchable-of F g (with_states F g states) (part_id F g) s
        (with_states-IsRelabelled g states)
        (λ he inside live.
          let c = s.partitioned he inside live in
          record {
            counted = c.counted;
            linked = record { listed = c.linked.listed; sized = c.linked.sized };
          })
        (record { weights = s.weighed.weights; sizes = s.weighed.sizes }) (λ u b. b) s.bounded

  pub mark_lem :
      (g : Hypergraph F) (hn : ℕ)
      → with_states F g (λ u. if hn == u then g.threshold_marked else (hypernode F g u).state)
        ≡ mark F g hn
  unfolding mark
  mark_lem g hn =
      ap (λ xs. record g { hypernodes = xs })
        (fun_ext (λ u. elim (ℕ_discrete hn u) [
          | yes e ↦ ground (arith, ap g.hypernodes e)
          | no ne ↦ ground (arith, ne)
        ]))

  module _ (g₀ : Hypergraph F) where
    pub with_states-IsAfter :
        (part : ℕ → Option ℕ) (g : Hypergraph F) (states : ℕ → ℕ)
        → IsAfter F g₀ part g
        → IsAfter F g₀ part (with_states F g states)
    with_states-IsAfter part g states a = record {
      relabelled =
          IsRelabelled-trans F a.relabelled (with_states-IsRelabelled g states) a.relabelled.block;
      searchable = with_states-IsSearchable g states a.searchable;
    }

    pub mark-IsAfter :
        (part : ℕ → Option ℕ) (g : Hypergraph F) (hn : ℕ)
        → IsAfter F g₀ part g
        → IsAfter F g₀ part (mark F g hn)
    mark-IsAfter part g hn a =
        subst (IsAfter F g₀ part) (mark_lem g hn) (with_states-IsAfter part g _ a)
