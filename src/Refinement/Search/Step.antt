-- ===== src/Refinement/Search/Step.antt =====
-- One round of the search: the move taken from the queue is made or skipped.
use mathlib.Core.Path.{subst}
use kahypar.Prelude.{ℕ, ◌+◌, ◌<◌, ◌≡◌, ◌≢◌, refl, ◌∙◌, sym, true, none, some, List, [], ◌∷◌, arith}
use kahypar.Prelude.Int.{pos, ◌≤ℤ◌, ◌-ℤ◌}
use kahypar.Containers.FlagArray.{FlagArray}
use kahypar.Hypergraph.State.{Hypergraph, hypernode, part_id, node_weight}
use kahypar.Hypergraph.Blocks.{change_node_part}
use kahypar.Hypergraph.Marks.{mark}
use kahypar.Hypergraph.Partition.{IsRelabelled-trans}
use kahypar.Hypergraph.Partition.Step.{
  IsMove, IsMovable-of, change_node_part-IsRelabelled, change_node_part-IsSearchable,
}
use kahypar.Hypergraph.Contraction.Slots.{if-cases}
use kahypar.Metrics.{km1}
use kahypar.Refinement.Gains.{gain_induced_by_hypergraph, gain_induced_by_hyperedge}
use kahypar.Refinement.Gains.Km1.{km1-change_node_part}
use kahypar.Refinement.Search.{
  RollbackInfo, SearchContext, Choice, imbalance, SearchState, with_states, move_is_feasible,
  make_move, skip_move, note_move, improved, search_step,
}
use kahypar.Refinement.Search.Balance.{feasible_move-IsBalanced}
use kahypar.Refinement.Search.States.{with_states-IsAfter, mark-IsAfter, mark_lem}
use kahypar.Refinement.Search.Run.{IsRun, IsMade, blocks_now, note_move-IsRun, note_best-IsRun}

module _ (F : FlagArray) {D : Type 0} (context : SearchContext D) where
  -- A choice that the search may be given: an enabled hypernode, another block for it, and the gain that
  -- the hypergraph induces, as an assertion of the source demands.
  abbrev pub IsChoice : Hypergraph F → Choice → Type 0
  IsChoice g c =
      (c.hn < g.num_hypernodes)
      × ((hypernode F g c.hn).valid ≡ true)
      × (c.to_part < g.k)
      × (part_id F g c.hn ≢ some c.to_part)
      × (some c.gain ≡ gain_induced_by_hypergraph F g c.hn c.to_part)

  -- Each choice may be given when its turn comes.
  abbrev pub AllChoices : SearchState F D → List Choice → Type 0
  AllChoices s [] = Unit
  AllChoices s (c ∷ choices) =
      IsChoice s.graph c
      × elim (search_step F context s c) [ none ↦ Unit | some s' ↦ AllChoices s' choices ]

  pub gain_mark :
      (g : Hypergraph F) (hn to : ℕ)
      → gain_induced_by_hypergraph F (mark F g hn) hn to ≡ gain_induced_by_hypergraph F g hn to
  unfolding gain_induced_by_hypergraph gain_induced_by_hyperedge
  gain_mark g hn to =
      subst (λ h. gain_induced_by_hypergraph F h hn to ≡ gain_induced_by_hypergraph F g hn to)
        (mark_lem F g hn) refl

  module _ (g₀ : Hypergraph F) (heavy : (u : ℕ) → pos 0 ≤ℤ node_weight F g₀ u) where
    abbrev pub marked_state : SearchState F D → ℕ → SearchState F D
    marked_state s hn = record s {
      graph = mark F s.graph hn;
      touched_hns_since_last_improvement = s.touched_hns_since_last_improvement + 1;
    }

    pub marked-IsRun :
        (s : SearchState F D) (hn : ℕ)
        → IsRun F context g₀ s
        → IsRun F context g₀ (marked_state s hn)
    unfolding km1 mark
    marked-IsRun s hn r = record {
      legal = r.legal;
      now = mark-IsAfter F g₀ (blocks_now F context g₀ s) s.graph hn r.now;
      current = r.current;
      behind = r.behind;
      best = r.best;
      bounded = r.bounded;
      balanced = λ b. let c = r.balanced b in record { light = c.light; nonempty = c.nonempty };
      best_balanced = r.best_balanced;
    }

    pub skip_move-IsRun :
        (s : SearchState F D) (c : Choice)
        → IsRun F context g₀ s
        → IsRun F context g₀ (skip_move F context s c)
    unfolding km1 skip_move
    skip_move-IsRun s c r = record {
      legal = r.legal;
      now = with_states-IsAfter F g₀ (blocks_now F context g₀ s) s.graph _ r.now;
      current = r.current;
      behind = r.behind;
      best = r.best;
      bounded = r.bounded;
      balanced = λ b. let c = r.balanced b in record { light = c.light; nonempty = c.nonempty };
      best_balanced = r.best_balanced;
    }

    module _ (s : SearchState F D) (c : Choice) (from : ℕ) (r : IsRun F context g₀ s)
        (m : IsMove F s.graph c.hn from c.to_part)
        (right : some c.gain ≡ gain_induced_by_hypergraph F s.graph c.hn c.to_part)
        (ok : move_is_feasible F context.max_part_weights s.graph c.hn from c.to_part ≡ true) where
      abbrev moved_graph : Hypergraph F
      moved_graph = (change_node_part F s.graph c.hn from c.to_part []).0

      abbrev moved_state : SearchState F D
      moved_state = record s {
        graph = with_states F moved_graph c.states;
        current_km1 = s.current_km1 -ℤ c.gain;
        current_imbalance = imbalance F context moved_graph;
      }

      moved_km1 : s.current_km1 -ℤ c.gain ≡ km1 F moved_graph
      moved_km1 =
          let e =
            km1-change_node_part F from c.to_part m.apart s.graph c.hn []
              (IsMovable-of F s.graph c.hn from c.to_part r.now.searchable m)
              (λ he. r.now.searchable.once c.hn he m.live) in
          ground (arith, e, right, r.current)

      moved-IsMade :
          IsMade F context g₀
            (record { hn = c.hn; from_part = from; to_part = c.to_part })
            moved_state
      unfolding km1
      moved-IsMade =
          let t = r.now.relabelled in
          record {
            legal = r.legal;
            step = record {
              inside = rw (t.order) at m.inside;
              live = sym (t.enabled c.hn) ∙ m.live;
              old = sym (t.block c.hn) ∙ m.old;
              apart = m.apart;
              from_inside = rw (t.blocks) at m.from_inside;
              to_inside = rw (t.blocks) at m.to_inside;
            };
            now = with_states-IsAfter F g₀ _ moved_graph _ (record {
              relabelled =
                  IsRelabelled-trans F t
                    (change_node_part-IsRelabelled F s.graph c.hn from c.to_part [] m)
                    (λ u. ground (arith, t.block u));
              searchable =
                  change_node_part-IsSearchable F s.graph c.hn from c.to_part [] r.now.searchable m;
            });
            current = moved_km1;
            balanced = λ b.
                let d =
                  feasible_move-IsBalanced F context.max_part_weights s.graph c.hn from c.to_part
                    r.now.searchable m (rw (t.weight c.hn) (heavy c.hn)) ok (r.balanced b) in
                record { light = d.light; nonempty = d.nonempty };
            behind = r.behind;
            best = r.best;
            bounded = r.bounded;
            best_balanced = r.best_balanced;
          }

      improved_lem :
          (t : SearchState F D) → improved F context t ≡ true → t.current_km1 ≤ℤ t.best_km1
      unfolding improved
      improved_lem t e = ground arith

      pub make_move-IsRun : IsRun F context g₀ (make_move F context s c from)
      unfolding make_move
      make_move-IsRun =
          let x : RollbackInfo = record { hn = c.hn; from_part = from; to_part = c.to_part } in
          let t = moved_state in
          if-cases (λ t. IsRun F context g₀ (note_move F context x t)) (improved F context t) _ _
            (λ e. note_best-IsRun F context g₀ x t moved-IsMade (improved_lem t e))
            (λ e. note_move-IsRun F context g₀ x t moved-IsMade)
