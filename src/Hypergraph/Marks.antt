-- ===== src/Hypergraph/Marks.antt =====
-- The marks that local search leaves on hypernodes, and the cut counts it starts from: active, marked,
-- mark, activate, deactivate, resetHypernodeState, initializeNumCutHyperedges.
pub mod CutNets
use kahypar.Prelude.{
  ℕ, zero, suc, ◌+◌, ◌-◌, ◌*◌, ◌%◌, ◌≤◌, ◌<◌, ◌≡◌, refl, Bool, true, false, List, [], ◌∷◌, arith,
  ltb, ◌==◌, if◌then◌else◌, count,
}
use kahypar.Prelude.Arrays.{Array, update}
use kahypar.Prelude.Words.{u32_mod, inc32, dec32}
use kahypar.Containers.FlagArray.{FlagArray}
use kahypar.Hypergraph.State.{
  Hypernode, Hypergraph, hypernode, hyperedge, set_hypernode, pins, edges, connectivity, slice,
}
use kahypar.Hypergraph.Blocks.{cut_pins}

module _ (F : FlagArray) where
  unfoldable pub active : Hypergraph F → ℕ → Bool
  active g u = (hypernode F g u).state == g.threshold_active

  unfoldable pub marked : Hypergraph F → ℕ → Bool
  marked g u = (hypernode F g u).state == g.threshold_marked

  abbrev pub set_state : Hypergraph F → ℕ → ℕ → Hypergraph F
  set_state g u s = set_hypernode F g u (record (hypernode F g u) { state = s })

  -- mark and markRebalanced
  unfoldable pub mark : Hypergraph F → ℕ → Hypergraph F
  mark g u = set_state g u g.threshold_marked

  unfoldable pub activate : Hypergraph F → ℕ → Hypergraph F
  activate g u = set_state g u g.threshold_active

  unfoldable pub deactivate : Hypergraph F → ℕ → Hypergraph F
  deactivate g u = set_state g u (dec32 (hypernode F g u).state)

  -- for (hn = 0; hn < n; ++hn) hypernode(hn).state = 0
  unfoldable pub clear_states : ℕ → Hypergraph F → Hypergraph F
  clear_states zero g = g
  clear_states (suc n) g = let h = clear_states n g in set_state h n 0

  unfoldable pub reset_hypernode_state : Hypergraph F → Hypergraph F
  reset_hypernode_state g =
      let h =
        if g.threshold_marked == u32_mod - 1
        then record (clear_states g.num_hypernodes g) {
          threshold_active = u32_mod - 2;
          threshold_marked = u32_mod - 1;
        }
        else g in
      record h {
        threshold_active = (h.threshold_active + 2) % u32_mod;
        threshold_marked = (h.threshold_marked + 2) % u32_mod;
      }

  -- for (hn = 0; hn < n; ++hn) _hypernodes[hn].num_incident_cut_hes = 0
  unfoldable pub clear_cut_counts : ℕ → Hypergraph F → Hypergraph F
  clear_cut_counts zero g = g
  clear_cut_counts (suc n) g =
      let h = clear_cut_counts n g in
      set_hypernode F h n (record (hypernode F h n) { num_incident_cut_hes = 0 })

  unfoldable pub count_cut_edges : Hypergraph F → List ℕ → Hypergraph F
  count_cut_edges g [] = g
  count_cut_edges g (he ∷ hes) =
      count_cut_edges (if ltb 1 (connectivity F g he) then cut_pins F g (pins F g he) else g) hes

  unfoldable pub initialize_num_cut_hyperedges : Hypergraph F → Hypergraph F
  initialize_num_cut_hyperedges g =
      let h = clear_cut_counts g.num_hypernodes g in count_cut_edges h (edges F h)

  -- The first `n` hypernodes without their state, the others as they were.
  clear_states_lem :
      (n : ℕ) (g : Hypergraph F) (u : ℕ)
      → (clear_states n g).num_hypernodes ≡ g.num_hypernodes
        × ((hypernode F (clear_states n g) u).state
            ≡ (if ltb u n then 0 else (hypernode F g u).state))
  unfolding clear_states
  clear_states_lem zero g u = (refl, ground arith)
  clear_states_lem (suc n) g u =
      ((clear_states_lem n g u).0, ground (arith, (clear_states_lem n g u).1))

  -- What every state of the program satisfies: `_threshold_marked` is the even number after
  -- `_threshold_active`, and no hypernode has a later state.
  pub record IsMarking (g : Hypergraph F) : Type 0 where
    pub next : g.threshold_marked ≡ g.threshold_active + 1
    pub even : g.threshold_marked % 2 ≡ 0
    pub bound : g.threshold_marked < u32_mod
    pub past : (u : ℕ) → (hypernode F g u).state ≤ g.threshold_marked

  -- Where the marked threshold is even, 1 above the active one and no state is above it, and it is below
  -- 2 ^ 32 - 2: the reset keeps these, and no hypernode is active or marked any more.
  pub reset_hypernode_state-fresh :
      (g : Hypergraph F)
      → IsMarking g
      → g.threshold_marked + 2 < u32_mod
      → IsMarking (reset_hypernode_state g)
        × ((u : ℕ)
            → (active (reset_hypernode_state g) u ≡ false)
              × (marked (reset_hypernode_state g) u ≡ false))
  unfolding reset_hypernode_state active marked
  reset_hypernode_state-fresh g m room = (
    record {
      next = ground (arith, m.next, m.even);
      even = ground (arith, m.next, m.even);
      bound = ground (arith, m.next, m.even);
      past = λ u. ground (arith, m.next, m.even, m.past u);
    },
    λ u. (ground (arith, m.next, m.even, m.past u), ground (arith, m.next, m.even, m.past u)),
  )

  -- Where the marked threshold is even, 1 above the active one, no state is above it, and it is 2 ^ 32 - 2: the
  -- reset does not see the overflow, and a hypernode of state 0, neither active nor marked before the reset,
  -- is marked after it.
  pub reset_hypernode_state_wraps :
      (g : Hypergraph F) (u : ℕ)
      → IsMarking g
      → u32_mod ≤ g.threshold_marked + 2
      → (hypernode F g u).state ≡ 0
      → (active g u ≡ false) × (marked g u ≡ false) × (marked (reset_hypernode_state g) u ≡ true)
  unfolding reset_hypernode_state marked active
  reset_hypernode_state_wraps g u m full new = (
    ground (arith, m.next, m.even, m.bound),
    ground (arith, m.next, m.even, m.bound),
    ground (arith, m.next, m.even, m.bound),
  )
