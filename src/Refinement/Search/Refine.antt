-- ===== src/Refinement/Search/Refine.antt =====
-- What the search for a better connectivity metric returns.
use kahypar.Prelude.{
  ℕ, ◌≡◌, refl, ◌∙◌, sym, ap, inl, inr, Option-cases, some, List, [], ◌∷◌, arith, if◌then◌else◌,
  length,
}
use kahypar.Prelude.Int.{ℤ, pos, ◌≤ℤ◌}
use kahypar.Containers.FlagArray.{FlagArray}
use kahypar.Hypergraph.State.{Hypergraph, part_id, node_weight}
use kahypar.Hypergraph.Blocks.Assign.{IsPartitioned}
use kahypar.Hypergraph.Marks.{mark}
use kahypar.Hypergraph.Partition.Step.{IsSearchable, IsMove}
use kahypar.Hypergraph.Contraction.Slots.{if-cases}
use kahypar.Metrics.{km1}
use kahypar.Refinement.Gains.{gain_induced_by_hypergraph}
use kahypar.Refinement.Search.{
  SearchContext, Choice, SearchState, Refined, move_is_feasible, make_move, skip_move, search_step,
  search, search_start, finish, refine, improvement_found,
}
use kahypar.Refinement.Search.Rollback.{take-all, rollback-restores}
use kahypar.Refinement.Search.Balance.{IsBalanced}
use kahypar.Refinement.Search.Run.{IsRun, start-IsRun}
use kahypar.Refinement.Search.Step.{
  IsChoice, AllChoices, gain_mark, marked_state, marked-IsRun, skip_move-IsRun, make_move-IsRun,
}

module _ (F : FlagArray) {D : Type 0} (context : SearchContext D) (g₀ : Hypergraph F)
    (heavy : (u : ℕ) → pos 0 ≤ℤ node_weight F g₀ u) where
  has_block :
      (g : Hypergraph F) (hn to : ℕ) (gain : ℤ)
      → some gain ≡ gain_induced_by_hypergraph F g hn to
      → (from : ℕ) × (part_id F g hn ≡ some from)
  unfolding gain_induced_by_hypergraph
  has_block g hn to gain e = elim (Option-cases (part_id F g hn)) [
    | inl n ↦ absurd (ground (arith, n))
    | inr p ↦ p
  ]

  -- The result of a round, for a hypernode in block `from`.
  abbrev round : SearchState F D → Choice → ℕ → SearchState F D
  round s c from =
      let t = marked_state F context g₀ heavy s c.hn in
      if move_is_feasible F context.max_part_weights t.graph c.hn from c.to_part
      then make_move F context t c from
      else skip_move F context t c

  search_step_lem :
      (s : SearchState F D) (c : Choice) (from : ℕ)
      → part_id F s.graph c.hn ≡ some from
      → search_step F context s c ≡ some (round s c from)
  unfolding search_step
  search_step_lem s c from old = rw (search_step, old) refl

  step-IsRun :
      (s : SearchState F D) (c : Choice)
      → IsRun F context g₀ s
      → IsChoice F context s.graph c
      → (s' : SearchState F D) × (search_step F context s c ≡ some s') × IsRun F context g₀ s'
  unfolding mark
  step-IsRun s c r (inside, live, to_inside, new, right) =
      let (from, old) = has_block s.graph c.hn c.to_part c.gain right in
      let t = marked_state F context g₀ heavy s c.hn in
      let r' = marked-IsRun F context g₀ heavy s c.hn r in
      let m : IsMove F t.graph c.hn from c.to_part = record {
        inside = inside;
        live = ground (arith, live);
        old = ground (arith, old);
        apart = λ p. new (old ∙ ap some p);
        from_inside = r.now.searchable.bounded c.hn from old;
        to_inside = to_inside;
      } in
      (
        round s c from,
        search_step_lem s c from old,
        if-cases (IsRun F context g₀)
            (move_is_feasible F context.max_part_weights t.graph c.hn from c.to_part) _ _
            (λ ok.
              make_move-IsRun F context g₀ heavy t c from r' m
                (right ∙ sym (gain_mark F context s.graph c.hn c.to_part)) ok)
            (λ no. skip_move-IsRun F context g₀ heavy t c r'),
      )

  search-IsRun :
      (choices : List Choice) (s : SearchState F D)
      → IsRun F context g₀ s
      → AllChoices F context s choices
      → (s' : SearchState F D) × (search F context s choices ≡ some s') × IsRun F context g₀ s'
  unfolding search
  search-IsRun [] s r h = (s, refl, r)
  search-IsRun (c ∷ choices) s r h =
      let (s', e, r') = step-IsRun s c r h.0 in
      let (s'', e', r'') = search-IsRun choices s' r' (rw e at h.1) in (s'', rw (search, e) e', r'')

  -- What refineImpl returns: the metric of the hypergraph that it leaves, never above the first.
  pub record IsRefined (r : Refined F context) : Type 0 where
    pub right : r.km1 ≡ km1 F r.graph
    pub bounded : r.km1 ≤ℤ km1 F g₀
    pub searchable : IsSearchable F r.graph
    pub balanced :
        IsBalanced F context.max_part_weights g₀ → IsBalanced F context.max_part_weights r.graph

  finish-IsRefined :
      (s : SearchState F D) (initial_km1 : ℤ) (initial_imbalance : D)
      → IsRun F context g₀ s
      → (r : Refined F context) × (finish F context initial_km1 initial_imbalance s ≡ some r)
        × IsRefined r
  unfolding finish
  finish-IsRefined s initial_km1 initial_imbalance r =
      let (g, e, a) =
        rollback-restores F g₀ s.performed_moves (length s.performed_moves) s.min_cut_index s.graph
          r.legal r.behind (omega arith) (rw (take-all s.performed_moves) (r.now)) in
      (
        record {
          graph = g;
          km1 = s.best_km1;
          imbalance = s.best_imbalance;
          improved =
              improvement_found F context s.best_km1 initial_km1 s.best_imbalance initial_imbalance;
        },
        rw (finish, e) refl,
        record {
          right = sym (r.best g a);
          bounded = r.bounded;
          searchable = a.searchable;
          balanced = λ b. r.best_balanced b g a;
        },
      )

  module _ (choices : List Choice) (imbalance : D) (start : IsSearchable F g₀)
      (h : AllChoices F context (search_start F context g₀ (km1 F g₀) imbalance) choices) where
    refine-IsRefined :
        (r : Refined F context) × (refine F context g₀ (km1 F g₀) imbalance choices ≡ some r)
        × IsRefined r
    unfolding refine
    refine-IsRefined =
        let (s, e, r) =
          search-IsRun choices (search_start F context g₀ (km1 F g₀) imbalance)
            (start-IsRun F context g₀ imbalance start) h in
        let (t, e', r') = finish-IsRefined s (km1 F g₀) imbalance r in (t, rw (refine, e) e', r')

    -- Where pin counts, connectivity sets, block weights and sizes are exact, enabled hypernodes and enabled
    -- nets list each other, each net once, pins of enabled nets have blocks, blocks are below k, net sizes
    -- and the number of hypernodes are below 2^32, weights are not negative, and each choice is, when its
    -- turn comes, of an enabled hypernode with another block below k and the gain that the hypergraph
    -- induces: the search over these choices,
    -- started with the connectivity metric of the hypergraph, gives a result: a hypergraph with exact pin
    -- counts and connectivity sets whose connectivity metric is the one returned, and is at most the first.
    pub refine-km1 :
        (r : Refined F context) × (refine F context g₀ (km1 F g₀) imbalance choices ≡ some r)
        × (r.km1 ≡ km1 F r.graph)
        × (r.km1 ≤ℤ km1 F g₀)
        × IsPartitioned F r.graph
    refine-km1 =
        let (r, e, d) = refine-IsRefined in (r, e, d.right, d.bounded, d.searchable.partitioned)

    -- Under the conditions of `refine-km1`, and where every block is within its maximum weight and none is empty:
    -- the search gives a result, a hypergraph in which every block is within its maximum weight and none
    -- is empty.
    pub refine-IsBalanced :
        IsBalanced F context.max_part_weights g₀
        → (r : Refined F context) × (refine F context g₀ (km1 F g₀) imbalance choices ≡ some r)
          × IsBalanced F context.max_part_weights r.graph
    refine-IsBalanced b = let (r, e, d) = refine-IsRefined in (r, e, d.balanced b)
