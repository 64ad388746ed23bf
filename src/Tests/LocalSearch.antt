-- ===== src/Tests/LocalSearch.antt =====
-- Local search with one choice, on the hypergraph of Search.
use mathlib.Core.Path.{subst}
use kahypar.Prelude.{ℕ, zero, suc, ◌-◌, ◌≡◌, refl, some, List, [], ◌∷◌, arith, ltb, leb}
use kahypar.Prelude.Int.{pos, pos_part, ◌≤ℤ◌, ◌+ℤ◌, ◌-ℤ◌}
use kahypar.Prelude.Words.{dec32}
use kahypar.Containers.FlagArray.{plain_flags}
use kahypar.Hypergraph.State.{Hypergraph, part_id, node_weight}
use kahypar.Hypergraph.Blocks.Assign.{IsPartitioned}
use kahypar.Hypergraph.Partition.Step.{IsMove}
use kahypar.Metrics.{km1, sum_over}
use kahypar.Refinement.Gains.{gain_induced_by_hypergraph, gain_induced_by_hyperedge}
use kahypar.Refinement.Search.{
  SearchContext, Choice, Refined, RollbackInfo, rollback, search_step, search_start, refine,
  move_is_feasible,
}
use kahypar.Refinement.Search.Rollback.{IsLegal, IsLegalMove, IsAfter, rollback-restores}
use kahypar.Refinement.Search.Balance.{IsBalanced, feasible_move-IsBalanced}
use kahypar.Refinement.Search.Step.{AllChoices}
use kahypar.Refinement.Search.Refine.{refine-km1, refine-IsBalanced}
use kahypar.Hypergraph.Blocks.{change_node_part}
use kahypar.Hypergraph.Partition.Step.{change_node_part-IsRelabelled, change_node_part-IsSearchable}
use kahypar.Tests.Search.{searched, searched-IsSearchable}

abbrev weights : SearchContext ℕ
weights = record {
  epsilon = 3;
  max_part_weights = λ b. pos 3;
  perfect_balance_part_weights = λ b. pos 2;
  quotient = λ w p. pos_part w;
  minus_one = λ x. x - 1;
  less = ltb;
  at_most = leb;
}

abbrev choices : List Choice
choices = record { hn = 1; gain = pos 2; to_part = 0; states = λ u. 7 } ∷ []

choices-AllChoices :
    AllChoices plain_flags weights
      (search_start plain_flags weights searched (km1 plain_flags searched) 0)
      choices
unfolding gain_induced_by_hypergraph gain_induced_by_hyperedge sum_over ◌+ℤ◌ ◌-ℤ◌ search_step
choices-AllChoices = ((omega arith, refl, omega arith, ground arith, refl), tt)

searched-heavy : (u : ℕ) → pos 0 ≤ℤ node_weight plain_flags searched u
searched-heavy u = omega arith

searched-IsBalanced : IsBalanced plain_flags weights.max_part_weights searched
searched-IsBalanced = record { light = λ b h. omega arith; nonempty = λ b h. omega arith }

refine-km1_example :
    (r : Refined plain_flags weights) × (refine plain_flags weights searched
        (km1 plain_flags searched)
        0
        choices
      ≡ some r)
    × (r.km1 ≡ km1 plain_flags r.graph)
    × (r.km1 ≤ℤ km1 plain_flags searched)
    × IsPartitioned plain_flags r.graph
refine-km1_example =
    refine-km1 plain_flags weights searched searched-heavy choices 0 searched-IsSearchable
      choices-AllChoices

refine-IsBalanced_example :
    (r : Refined plain_flags weights) × (refine plain_flags weights searched
        (km1 plain_flags searched)
        0
        choices
      ≡ some r)
    × IsBalanced plain_flags weights.max_part_weights r.graph
refine-IsBalanced_example =
    refine-IsBalanced plain_flags weights searched searched-heavy choices 0 searched-IsSearchable
      choices-AllChoices searched-IsBalanced

searched-IsMove : IsMove plain_flags searched 1 1 0
searched-IsMove = record {
  inside = omega arith;
  live = refl;
  old = refl;
  apart = ground arith;
  from_inside = omega arith;
  to_inside = omega arith;
}

feasible_move-IsBalanced_example :
    IsBalanced plain_flags weights.max_part_weights
      (change_node_part plain_flags searched 1 1 0 []).0
unfolding move_is_feasible ◌+ℤ◌ dec32
feasible_move-IsBalanced_example =
    feasible_move-IsBalanced plain_flags weights.max_part_weights searched 1 1 0
      searched-IsSearchable searched-IsMove (searched-heavy 1) refl searched-IsBalanced

abbrev moves : List RollbackInfo
moves = record { hn = 1; from_part = 1; to_part = 0 } ∷ []

moves-IsLegal : IsLegal plain_flags searched moves
moves-IsLegal zero x e =
    let same : record { hn = 1; from_part = 1; to_part = 0 } ≡ x = ground arith in
    subst (IsLegalMove plain_flags searched (part_id plain_flags searched)) same (record {
      inside = omega arith;
      live = refl;
      old = refl;
      apart = ground arith;
      from_inside = omega arith;
      to_inside = omega arith;
    })
moves-IsLegal (suc n) x e = absurd (ground arith)

abbrev moved : Hypergraph plain_flags
moved = (change_node_part plain_flags searched 1 1 0 []).0

rollback-restores_example :
    (h' : Hypergraph plain_flags) × (rollback plain_flags moves 1 0 moved ≡ some h')
    × IsAfter plain_flags searched (part_id plain_flags searched) h'
rollback-restores_example =
    rollback-restores plain_flags searched moves 1 0 moved moves-IsLegal (omega arith) (omega arith)
      (record {
        relabelled = change_node_part-IsRelabelled plain_flags searched 1 1 0 [] searched-IsMove;
        searchable =
            change_node_part-IsSearchable plain_flags searched 1 1 0 [] searched-IsSearchable
              searched-IsMove;
      })
