-- ===== src/Refinement/Search.antt =====
-- Local search: the moves that FMRefinerBase of partition/refinement/fm_refiner_base.h makes and takes
-- back, and the loop of refineImpl in kway_fm_km1_refiner.h.
--
-- Of refineImpl this is the side of the partition: what the loop does to the hypergraph, the objective
-- and the list of moves, whatever choices the priority queue makes and whenever the stopping policy
-- ends it. The queue, the gain cache and the update of the neighbours' gains are not modelled here.
-- Indices into the vector of moves are one above the source's, whose first value is -1.
pub mod Rollback
pub mod Balance
pub mod States
pub mod Run
pub mod Step
pub mod Refine
use kahypar.Prelude.{
  ℕ, zero, suc, ◌+◌, ◌-◌, Bool, true, false, not, ◌&&◌, ◌||◌, Option, none, some, List, [], ◌∷◌,
  ◌++◌, ◌==◌, if◌then◌else◌, length, get_elem?,
}
use kahypar.Prelude.Int.{ℤ, ◌+ℤ◌, ◌-ℤ◌, ltb_ℤ, leb_ℤ}
use kahypar.Prelude.Words.{dec32}
use kahypar.Containers.FlagArray.{FlagArray}
use kahypar.Hypergraph.State.{Hypergraph, hypernode, part_id, node_weight}
use kahypar.Hypergraph.Blocks.{change_node_part}
use kahypar.Hypergraph.Marks.{mark}

pub record RollbackInfo : Type 0 where
  pub hn : ℕ
  pub from_part : ℕ
  pub to_part : ℕ

-- What the search reads of the context, and the arithmetic of double, which is not looked into.
pub record SearchContext (D : Type 0) : Type 0 where
  pub epsilon : D
  pub max_part_weights : ℕ → ℤ
  pub perfect_balance_part_weights : ℕ → ℤ
  -- weight / static_cast<double>(weight), and x - 1.0
  pub quotient : ℤ → ℤ → D
  pub minus_one : D → D
  pub less : D → D → Bool
  pub at_most : D → D → Bool

-- What one round takes from the queue: a hypernode, its gain and its new block. `states` are the
-- states of hypernodes at the end of the round, in which the neighbours that the round adds to the
-- queue and takes from it are active or not.
pub record Choice : Type 0 where
  pub hn : ℕ
  pub gain : ℤ
  pub to_part : ℕ
  pub states : ℕ → ℕ

module _ (F : FlagArray) where
  -- The loop of rollback; reading before the first move or past the last is `none`.
  unfoldable pub rollback : List RollbackInfo → ℕ → ℕ → Hypergraph F → Option (Hypergraph F)
  rollback performed_moves zero min_cut_index g = if 0 == min_cut_index then some g else none
  rollback performed_moves (suc last) min_cut_index g = elim (suc last == min_cut_index) [
    | true ↦ some g
    | false ↦ elim (get_elem? performed_moves last) [
      | none ↦ none
      | some x ↦
          rollback performed_moves last min_cut_index
            (change_node_part F g x.hn x.to_part x.from_part []).0
    ]
  ]

  unfoldable pub move_is_feasible : (ℕ → ℤ) → Hypergraph F → ℕ → ℕ → ℕ → Bool
  move_is_feasible max_part_weights g max_gain_node from_part to_part =
      leb_ℤ ((g.part_info to_part).weight +ℤ node_weight F g max_gain_node)
        (max_part_weights to_part)
      && not (dec32 (g.part_info from_part).size == 0)

  abbrev pub with_states : Hypergraph F → (ℕ → ℕ) → Hypergraph F
  with_states g states = record g {
    hypernodes = λ u. record (hypernode F g u) { state = states u };
  }

  -- The variables of refineImpl.
  pub record SearchState (D : Type 0) : Type 0 where
    pub graph : Hypergraph F
    pub current_km1 : ℤ
    pub best_km1 : ℤ
    pub current_imbalance : D
    pub best_imbalance : D
    pub min_cut_index : ℕ
    pub touched_hns_since_last_improvement : ℕ
    pub performed_moves : List RollbackInfo

  module _ {D : Type 0} (context : SearchContext D) where
    -- The largest balance of the blocks up to `i`, with std::max.
    unfoldable pub max_balance : Hypergraph F → ℕ → D
    max_balance g zero =
        context.quotient (g.part_info 0).weight (context.perfect_balance_part_weights 0)
    max_balance g (suc i) =
        let balance_i =
          context.quotient (g.part_info (suc i)).weight
            (context.perfect_balance_part_weights (suc i)) in
        let max = max_balance g i in if context.less max balance_i then balance_i else max

    -- metrics::imbalance
    unfoldable pub imbalance : Hypergraph F → D
    imbalance g = context.minus_one (max_balance g (g.k - 1))

    -- improvementFound of CutDecreasedOrInfeasibleImbalanceDecreased
    unfoldable pub improvement_found : ℤ → ℤ → D → D → Bool
    improvement_found best_cut initial_cut best_imbalance initial_imbalance =
        ltb_ℤ best_cut initial_cut
        || (context.less context.epsilon initial_imbalance
            && context.less best_imbalance initial_imbalance)

    -- The partition is the best so far.
    unfoldable pub note_best : SearchState D → SearchState D
    note_best s = record s {
      best_km1 = s.current_km1;
      best_imbalance = s.current_imbalance;
      min_cut_index = length s.performed_moves + 1;
      touched_hns_since_last_improvement = 0;
    }

    unfoldable pub improved : SearchState D → Bool
    improved s =
        let improved_km1_within_balance =
          context.at_most s.current_imbalance context.epsilon && ltb_ℤ s.current_km1 s.best_km1 in
        let improved_balance_less_equal_km1 =
          context.less s.current_imbalance s.best_imbalance && leb_ℤ s.current_km1 s.best_km1 in
        improved_km1_within_balance || improved_balance_less_equal_km1

    abbrev pub note_move : RollbackInfo → SearchState D → SearchState D
    note_move x s = record s { performed_moves = s.performed_moves ++ (x ∷ []) }

    -- The move is feasible: it is made.
    unfoldable pub make_move : SearchState D → Choice → ℕ → SearchState D
    make_move s c from_part =
        let g = (change_node_part F s.graph c.hn from_part c.to_part []).0 in
        let s' = record s {
          graph = with_states g c.states;
          current_km1 = s.current_km1 -ℤ c.gain;
          current_imbalance = imbalance g;
        } in
        note_move (record { hn = c.hn; from_part = from_part; to_part = c.to_part })
          (if improved s' then note_best s' else s')

    unfoldable pub skip_move : SearchState D → Choice → SearchState D
    skip_move s c = record s { graph = with_states s.graph c.states }

    -- The body of the loop; a hypernode without a block, for which the source reads out of bounds, is
    -- `none`.
    unfoldable pub search_step : SearchState D → Choice → Option (SearchState D)
    search_step s c = elim (part_id F s.graph c.hn) [
      | none ↦ none
      | some from_part ↦
          let s' = record s {
            graph = mark F s.graph c.hn;
            touched_hns_since_last_improvement = s.touched_hns_since_last_improvement + 1;
          } in
          some (
            if move_is_feasible context.max_part_weights s'.graph c.hn from_part c.to_part
            then make_move s' c from_part
            else skip_move s' c)
    ]

    -- The loop, over what the queue gives until it is empty or the stopping policy ends the search.
    unfoldable pub search : SearchState D → List Choice → Option (SearchState D)
    search s [] = some s
    search s (c ∷ choices) = elim (search_step s c) [ none ↦ none | some s' ↦ search s' choices ]

    -- What refineImpl leaves: the hypergraph, the metrics, and whether they improved.
    pub record Refined : Type 0 where
      pub graph : Hypergraph F
      pub km1 : ℤ
      pub imbalance : D
      pub improved : Bool

    abbrev pub search_start : Hypergraph F → ℤ → D → SearchState D
    search_start g km1 imbalance = record {
      graph = g;
      current_km1 = km1;
      best_km1 = km1;
      current_imbalance = imbalance;
      best_imbalance = imbalance;
      min_cut_index = 0;
      touched_hns_since_last_improvement = 0;
      performed_moves = [];
    }

    unfoldable pub finish : ℤ → D → SearchState D → Option Refined
    finish initial_km1 initial_imbalance s =
        elim (rollback s.performed_moves (length s.performed_moves) s.min_cut_index s.graph) [
          | none ↦ none
          | some g ↦ some (record {
            graph = g;
            km1 = s.best_km1;
            imbalance = s.best_imbalance;
            improved = improvement_found s.best_km1 initial_km1 s.best_imbalance initial_imbalance;
          })
        ]

    -- refineImpl from the loop on.
    unfoldable pub refine : Hypergraph F → ℤ → D → List Choice → Option Refined
    refine g best_km1 best_imbalance choices =
        elim (search (search_start g best_km1 best_imbalance) choices) [
          | none ↦ none
          | some s ↦ finish best_km1 best_imbalance s
        ]
