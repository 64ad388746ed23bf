-- ===== src/Refinement/Gains/Loop.antt =====
-- A sum over all nets after changeNodePart, net by net.
use kahypar.Prelude.{ℕ, ◌≤◌, ◌<◌, ◌≡◌, ◌≢◌, refl, List, [], ◌∷◌, arith, count}
use mathlib.Core.Path.{subst}
use native.Mathlib.Decide.{ℕ_discrete}
use kahypar.Prelude.Int.{ℤ, pos, ◌-ℤ◌, +ℤ_parts, -ℤ_parts, eq_of_parts}
use kahypar.Containers.FlagArray.{FlagArray}
use kahypar.Hypergraph.State.{Hypergraph, incident_edges, edges, edge_size}
use kahypar.Hypergraph.Blocks.{change_net_part, change_nets_part, change_node_part, move_part}
use kahypar.Hypergraph.Blocks.Moves.{change_net_part-SameShape}
use kahypar.Hypergraph.Cut.Step.{IsReady, other-IsReady}
use kahypar.Hypergraph.Cut.Movable.{IsMovable, movable-IsReady, movable-listed, movable-edges}
use kahypar.Metrics.{sum_over}
use kahypar.Metrics.Sums.{sum_over-shift, sum_over-cong, sum_over-none, sum_over-one}

module _ (F : FlagArray) (from to : ℕ) (apart : from ≢ to) where
  -- The step for a net of at least `least` pins lowers its term by the gain, and leaves terms and gains of other nets alone.
  pub record IsGain (least : ℕ) (term gain : Hypergraph F → ℕ → ℤ) : Type 0 where
    pub here :
        (g : Hypergraph F) (x : ℕ) (out : List ℕ)
        → from < g.k
        → to < g.k
        → IsReady F g from 1 x
        → least ≤ edge_size F g x
        → term (change_net_part F g x from to out).0 x ≡ term g x -ℤ gain g x
    pub term_there :
        (g : Hypergraph F) (x : ℕ) (out : List ℕ)
        → from < g.k
        → to < g.k
        → (y : ℕ) → x ≢ y
        → term (change_net_part F g x from to out).0 y ≡ term g y
    pub gain_there :
        (g : Hypergraph F) (x : ℕ) (out : List ℕ)
        → from < g.k
        → to < g.k
        → (y : ℕ) → x ≢ y
        → gain (change_net_part F g x from to out).0 y ≡ gain g y
    pub term_move : (g : Hypergraph F) (hn y : ℕ) → term (move_part F g hn from to) y ≡ term g y
    pub gain_move : (g : Hypergraph F) (hn y : ℕ) → gain (move_part F g hn from to) y ≡ gain g y

  module _ (least : ℕ) (term gain : Hypergraph F → ℕ → ℤ) (r : IsGain least term gain) where
    sum_over-change_nets_part :
        (es hes : List ℕ) (g : Hypergraph F) (out : List ℕ)
        → from < g.k
        → to < g.k
        → ((y : ℕ) → 0 < count y hes → IsReady F g from (count y hes) y)
        → ((y : ℕ) → 0 < count y hes → count y es ≡ 1)
        → ((y : ℕ) → count y hes ≤ 1)
        → ((y : ℕ) → 0 < count y hes → least ≤ edge_size F g y)
        → let h = (change_nets_part F g hes from to out).0 in
          sum_over (term h) es (pos 0)
          ≡ sum_over (term g) es (pos 0) -ℤ sum_over (gain g) hes (pos 0)
    unfolding change_nets_part count sum_over
    sum_over-change_nets_part es [] g out hf ht ready listed once big =
        eq_of_parts _ _ (omega (arith, -ℤ_parts))
    sum_over-change_nets_part es (x ∷ xs) g out hf ht ready listed once big =
        let g' = (change_net_part F g x from to out).0 in
        let out' = (change_net_part F g x from to out).1 in
        let s = change_net_part-SameShape F x from to apart g x out in
        let last : count x xs ≡ 0 = ground (arith, once x) in
        let now : IsReady F g from 1 x =
          subst (λ n. IsReady F g from n x) (ground arith) (ready x (ground arith)) in
        let rest =
          sum_over-change_nets_part es xs g' out' (rw s.blocks hf) (rw s.blocks ht)
            (λ y p. elim (ℕ_discrete x y) [
              | yes e ↦ absurd (ground (arith, e, last, p))
              | no ne ↦
                  other-IsReady F from to apart g x out hf ht (count y xs) y ne
                    (subst (λ n. IsReady F g from n y) (ground arith) (ready y (ground arith)))
            ])
            (λ y p. listed y (ground arith)) (λ y. ground (arith, once y))
            (λ y p. omega (arith, s.size y, big y (ground arith))) in
        let here = r.here g x out hf ht now (big x (ground arith)) in
        let terms =
          sum_over-one (term g) (term g') x (r.term_there g x out hf ht) es (pos 0)
            (listed x (ground arith)) in
        let gains =
          sum_over-none (gain g) (gain g') x (r.gain_there g x out hf ht) xs (pos 0) last in
        let first = sum_over-shift (gain g) xs (pos 0) (gain g x) in
        rw (rest, terms, gains, first, here) (eq_of_parts _ _ (omega (arith, +ℤ_parts, -ℤ_parts)))

    -- The sum over all nets falls by the sum of the gains at the nets of `hn`.
    pub sum_over-change_node_part :
        (g : Hypergraph F) (hn : ℕ) (out : List ℕ)
        → IsMovable F g hn from to
        → ((he : ℕ) → count he (incident_edges F g hn) ≤ 1)
        → ((he : ℕ) → 0 < count he (incident_edges F g hn) → least ≤ edge_size F g he)
        → let h = (change_node_part F g hn from to out).0 in
          sum_over (term h) (edges F h) (pos 0)
          ≡ sum_over (term g) (edges F g) (pos 0)
            -ℤ sum_over (gain g) (incident_edges F g hn) (pos 0)
    unfolding change_node_part move_part
    sum_over-change_node_part g hn out m once big =
        let g₁ = move_part F g hn from to in
        let hes = incident_edges F g hn in
        let es = edges F g in
        let step =
          sum_over-change_nets_part es hes g₁ out (m.from_inside) (m.to_inside)
            (movable-IsReady F g hn from to m) (movable-listed F g hn from to m) once big in
        rw
          (
            movable-edges F g hn from to m out,
            step,
            sum_over-cong (term g) (term g₁) es (pos 0) (r.term_move g hn),
            sum_over-cong (gain g) (gain g₁) hes (pos 0) (r.gain_move g hn),
          )
          refl
