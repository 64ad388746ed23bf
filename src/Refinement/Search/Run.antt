-- ===== src/Refinement/Search/Run.antt =====
-- What the loop of the search keeps.
use mathlib.Core.Path.{subst}
use kahypar.Prelude.{
  ℕ, ◌+◌, ◌≤◌, ◌≡◌, refl, ◌∙◌, sym, ap, inl, inr, Option, some, List, [], ◌∷◌, ◌++◌, arith, length,
  take, length-append,
}
use kahypar.Prelude.Arrays.{update}
use kahypar.Prelude.Int.{◌≤ℤ◌}
use kahypar.Containers.FlagArray.{FlagArray}
use kahypar.Hypergraph.State.{Hypergraph, part_id}
use kahypar.Hypergraph.Partition.{IsRelabelled-refl, same_km1}
use kahypar.Hypergraph.Partition.Step.{IsSearchable}
use kahypar.Metrics.{km1}
use kahypar.Refinement.Search.{
  RollbackInfo, SearchContext, SearchState, note_best, note_move, search_start,
}
use kahypar.Refinement.Search.Rollback.{
  replay, replay-append, blocks_after, IsLegal, IsLegalMove, IsAfter, take-append, take-all,
  get_elem?-append,
}
use kahypar.Refinement.Search.Balance.{IsBalanced, IsBalanced-same}

module _ (F : FlagArray) {D : Type 0} (context : SearchContext D) (g₀ : Hypergraph F) where
  abbrev pub blocks_now : SearchState F D → ℕ → Option ℕ
  blocks_now s = replay (part_id F g₀) s.performed_moves

  -- The objective is known, now and at the best index, and is never above the first.
  pub record IsRun (s : SearchState F D) : Type 0 where
    pub legal : IsLegal F g₀ s.performed_moves
    pub now : IsAfter F g₀ (blocks_now s) s.graph
    pub current : s.current_km1 ≡ km1 F s.graph
    pub behind : s.min_cut_index ≤ length s.performed_moves
    pub best :
        (h : Hypergraph F)
        → IsAfter F g₀ (blocks_after F g₀ s.performed_moves s.min_cut_index) h
        → km1 F h ≡ s.best_km1
    pub bounded : s.best_km1 ≤ℤ km1 F g₀
    pub balanced :
        IsBalanced F context.max_part_weights g₀ → IsBalanced F context.max_part_weights s.graph
    pub best_balanced :
        IsBalanced F context.max_part_weights g₀
        → (h : Hypergraph F) → IsAfter F g₀ (blocks_after F g₀ s.performed_moves s.min_cut_index) h
        → IsBalanced F context.max_part_weights h

  pub start-IsRun :
      (imbalance : D) → IsSearchable F g₀ → IsRun (search_start F context g₀ (km1 F g₀) imbalance)
  start-IsRun imbalance s = record {
    legal = λ n x e. absurd (ground arith);
    now = record { relabelled = IsRelabelled-refl F g₀; searchable = s };
    current = refl;
    behind = omega arith;
    best = λ h a.
        same_km1 F g₀ g₀ h (part_id F g₀) (IsRelabelled-refl F g₀) a.relabelled s.partitioned
          a.searchable.partitioned;
    bounded = omega arith;
    balanced = λ b. b;
    best_balanced = λ b h a.
        IsBalanced-same F context.max_part_weights g₀ g₀ h (part_id F g₀) (IsRelabelled-refl F g₀)
          a.relabelled s a.searchable b;
  }

  -- A state whose last move is not noted yet.
  pub record IsMade (x : RollbackInfo) (s : SearchState F D) : Type 0 where
    pub legal : IsLegal F g₀ s.performed_moves
    pub step : IsLegalMove F g₀ (blocks_now s) x
    pub now : IsAfter F g₀ (update (blocks_now s) x.hn (some x.to_part)) s.graph
    pub current : s.current_km1 ≡ km1 F s.graph
    pub balanced :
        IsBalanced F context.max_part_weights g₀ → IsBalanced F context.max_part_weights s.graph
    pub behind : s.min_cut_index ≤ length s.performed_moves
    pub best :
        (h : Hypergraph F)
        → IsAfter F g₀ (blocks_after F g₀ s.performed_moves s.min_cut_index) h
        → km1 F h ≡ s.best_km1
    pub bounded : s.best_km1 ≤ℤ km1 F g₀
    pub best_balanced :
        IsBalanced F context.max_part_weights g₀
        → (h : Hypergraph F) → IsAfter F g₀ (blocks_after F g₀ s.performed_moves s.min_cut_index) h
        → IsBalanced F context.max_part_weights h

  module _ (moves : List RollbackInfo) (x : RollbackInfo) where
    IsLegal-more :
        IsLegal F g₀ moves
        → IsLegalMove F g₀ (replay (part_id F g₀) moves) x
        → IsLegal F g₀ (moves ++ (x ∷ []))
    IsLegal-more l m n y e = elim (get_elem?-append n moves x y e) [
      | inl p ↦
          subst (λ ms. IsLegalMove F g₀ (replay (part_id F g₀) ms) y)
            (sym (take-append n moves (x ∷ []) (omega (arith, p.0)))) (l n y (p.1))
      | inr p ↦
          let same : take n (moves ++ (x ∷ [])) ≡ moves =
            take-append n moves (x ∷ []) (omega (arith, p.0))
            ∙ ap (λ j. take j moves) (p.0)
            ∙ take-all moves in
          subst (λ ms. IsLegalMove F g₀ (replay (part_id F g₀) ms) y) (sym same)
            (subst (IsLegalMove F g₀ (replay (part_id F g₀) moves)) (p.1) m)
    ]

    -- The blocks with the new move, and all the moves before it.
    blocks_more :
        blocks_after F g₀ (moves ++ (x ∷ [])) (length moves + 1)
        ≡ update (replay (part_id F g₀) moves) x.hn (some x.to_part)
    blocks_more =
        let all : length (moves ++ (x ∷ [])) ≡ length moves + 1 = length-append moves (x ∷ []) in
        rw (sym all, take-all (moves ++ (x ∷ []))) (replay-append (part_id F g₀) moves (x ∷ []))

  module _ (x : RollbackInfo) (s : SearchState F D) (m : IsMade x s) where
    abbrev part' : ℕ → Option ℕ
    part' = update (blocks_now s) x.hn (some x.to_part)

    now_more : IsAfter F g₀ (blocks_now (note_move F context x s)) s.graph
    now_more =
        subst (λ p. IsAfter F g₀ p s.graph)
          (sym (replay-append (part_id F g₀) s.performed_moves (x ∷ []))) m.now

    longer : length (s.performed_moves ++ (x ∷ [])) ≡ length s.performed_moves + 1
    longer = length-append s.performed_moves (x ∷ [])

    pub note_move-IsRun : IsRun (note_move F context x s)
    note_move-IsRun =
        let old = take-append s.min_cut_index s.performed_moves (x ∷ []) m.behind in
        record {
          legal = IsLegal-more s.performed_moves x m.legal m.step;
          now = now_more;
          current = m.current;
          behind = omega (arith, longer, m.behind);
          best = λ h a. m.best h (rw old at a);
          bounded = m.bounded;
          balanced = m.balanced;
          best_balanced = λ b h a. m.best_balanced b h (rw old at a);
        }

    pub note_best-IsRun :
        s.current_km1 ≤ℤ s.best_km1 → IsRun (note_move F context x (note_best F context s))
    unfolding note_best
    note_best-IsRun less =
        let all = blocks_more s.performed_moves x in
        record {
          legal = IsLegal-more s.performed_moves x m.legal m.step;
          now = now_more;
          current = m.current;
          behind = omega (arith, longer);
          best = λ h a.
              same_km1 F g₀ s.graph h part' m.now.relabelled (rw all at a).relabelled
                m.now.searchable.partitioned a.searchable.partitioned
              ∙ sym (m.current);
          bounded = omega (arith, less, m.bounded);
          balanced = m.balanced;
          best_balanced = λ b h a.
              IsBalanced-same F context.max_part_weights g₀ s.graph h part' m.now.relabelled
                (rw all at a).relabelled m.now.searchable a.searchable (m.balanced b);
        }
