-- ===== src/Hypergraph/Restore/Contracted.antt =====
-- What contract does to one net, as far as uncontract can tell.
use kahypar.Prelude.{
  ℕ, ◌+◌, ◌-◌, ◌≤◌, ◌<◌, ◌≡◌, ◌≢◌, ◌∙◌, sym, ap, ◌==◌, arith, count, ◌⊎◌, inl, inr, if◌then◌else◌,
}
use native.Mathlib.Decide.{ℕ_discrete}
use kahypar.Prelude.Arrays.{Array, update}
use kahypar.Prelude.Vectors.{count-push_back}
use kahypar.Prelude.Words.{u32_mod}
use kahypar.Containers.FlagArray.{FlagArray}
use kahypar.Hypergraph.State.{Hypergraph, incident_edges, edge_size, first_invalid_entry}
use kahypar.Hypergraph.Contraction.{swap_slots, contract_net}
use kahypar.Hypergraph.Contraction.Nets.{contract_net_lem, moved_slots, IsReplaced, IsCutOff}
use kahypar.Hypergraph.Restore.Slices.{
  count_in, count_in-cong, count_in-suc, count_in-update, slot_of, slot_unique, count_in-pos,
  count_in-none, one_if,
}
use kahypar.Hypergraph.Restore.Structure.{first, pin_count}

-- An exchange of two slots of a range keeps its counts.
count_in-swap :
    (F : FlagArray) (x : ℕ) (a : Array ℕ) (p l i n : ℕ)
    → i ≤ p
    → p < i + n
    → i ≤ l
    → l < i + n
    → count_in F x (swap_slots a p l) i n ≡ count_in F x a i n
count_in-swap F x a p l i n hp hp' hl hl' =
    let b = update a p (a l) in
    let same : b l ≡ a l = ground arith in
    omega (
      arith,
      count_in-update F x a p (a l) i n hp hp',
      count_in-update F x b l (a p) i n hl hl',
      ap (one_if x) same,
    )

module _ (F : FlagArray) (u v : ℕ) where
  -- `u` and `v` were pins of `e`: `v` is past the end.
  pub record IsCut (g h : Hypergraph F) (e : ℕ) : Type 0 where
    pub both : 0 < pin_count F g e u
    pub big : 0 < edge_size F g e
    pub size : edge_size F h e ≡ edge_size F g e - 1
    pub last : h.incidence_array (first F g e + (edge_size F g e - 1)) ≡ v
    pub pins :
        (x : ℕ)
        → count_in F x h.incidence_array (first F g e) (edge_size F g e - 1)
            + (if x == v then 1 else 0)
          ≡ pin_count F g e x
    pub beyond :
        (i : ℕ)
        → first_invalid_entry F g e ≤ i
        → i < first F g (e + 1)
        → h.incidence_array i ≡ g.incidence_array i
    pub listed : count e (incident_edges F h u) ≡ count e (incident_edges F g u)

  -- `v` was a pin of `e`, and `u` was not: it is now.
  pub record IsGiven (g h : Hypergraph F) (e : ℕ) : Type 0 where
    pub only : pin_count F g e u ≡ 0
    pub size : edge_size F h e ≡ edge_size F g e
    pub pins :
        (x : ℕ)
        → count_in F x h.incidence_array (first F g e) (edge_size F g e) + (if x == v then 1 else 0)
          ≡ pin_count F g e x + (if x == u then 1 else 0)
    pub beyond :
        (i : ℕ)
        → first_invalid_entry F g e ≤ i
        → i < first F g (e + 1)
        → h.incidence_array i ≡ g.incidence_array i
    pub listed : count e (incident_edges F h u) ≡ count e (incident_edges F g u) + 1

  abbrev pub IsContracted : Hypergraph F → Hypergraph F → ℕ → Type 0
  IsContracted g h e = IsCut g h e ⊎ IsGiven g h e

  -- One net, which holds `v` once.
  module _ (hash : ℕ → ℕ) (g : Hypergraph F) (e : ℕ) (apart : u ≢ v) (once : pin_count F g e v ≡ 1)
      (small : edge_size F g e < u32_mod) where
    abbrev l : ℕ
    l = first_invalid_entry F g e - 1

    abbrev done : Hypergraph F
    done = contract_net F hash g u v e

    module _ (p : ℕ) (low : first F g e ≤ p) (high : p < first_invalid_entry F g e)
        (at_p : g.incidence_array p ≡ v) where
      abbrev moved : Array ℕ
      moved = moved_slots F hash g u v e p

      moved_count : (x : ℕ) → count_in F x moved (first F g e) (edge_size F g e) ≡ pin_count F g e x
      moved_count x =
          count_in-swap F x g.incidence_array p l (first F g e) (edge_size F g e) low high
            (omega arith) (omega arith)

      moved_last : moved l ≡ v
      moved_last = ground (arith, at_p)

      moved_short :
          (x : ℕ)
          → count_in F x moved (first F g e) (edge_size F g e - 1) + (if x == v then 1 else 0)
            ≡ pin_count F g e x
      moved_short x =
          let z : edge_size F g e - 1 + 1 ≡ edge_size F g e = omega arith in
          let z' : first F g e + (edge_size F g e - 1) ≡ l = omega arith in
          let s = rw z at (count_in-suc F x moved (first F g e) (edge_size F g e - 1)) in
          let t = ap (λ j. one_if x (moved j)) z' in
          let t' = ap (one_if x) moved_last in omega (arith, s, t, t', moved_count x)

      done-IsCut :
          (j : ℕ)
          → first F g e ≤ j
          → j < l
          → moved j ≡ u
          → IsCutOff F hash g u v e p done
          → IsCut g done e
      done-IsCut j lj hj at_j c =
          let a = done.incidence_array in
          record {
            both =
                rw (sym (moved_count u))
                  (count_in-pos F u moved (first F g e) (edge_size F g e) j lj (omega arith) at_j);
            big = omega arith;
            size = c.size;
            last = c.slots _ ∙ ap moved (omega arith) ∙ moved_last;
            pins = λ x.
                let s =
                  count_in-cong F x moved a (first F g e) (edge_size F g e - 1)
                    (λ i _ _. c.slots i) in
                rw s (moved_short x);
            beyond = λ i li hi. c.slots i ∙ ground arith;
            listed = ap (count e) c.nets;
          }

      done-IsGiven :
          ((j : ℕ) → first F g e ≤ j → j < l → moved j ≢ u)
          → IsReplaced F hash g u v e p done
          → IsGiven g done e
      done-IsGiven free r =
          let a = done.incidence_array in
          record {
            only = rw (sym (moved_count u)) (
                count_in-none F u moved (first F g e) (edge_size F g e) (λ j lj hj.
                  elim (ℕ_discrete l j) [
                    | yes q ↦ λ t. apart (sym t ∙ ap moved (sym q) ∙ moved_last)
                    | no ne ↦ free j lj (omega (arith, ne))
                  ]));
            size = r.size;
            pins = λ x.
                let s =
                  count_in-cong F x (update moved l u) a (first F g e) (edge_size F g e)
                    (λ i _ _. r.slots i) in
                let t =
                  count_in-update F x moved l u (first F g e) (edge_size F g e) (omega arith)
                    (omega arith) in
                let t' = ap (one_if x) moved_last in omega (arith, s, t, t', moved_count x);
            beyond = λ i li hi. r.slots i ∙ ground arith;
            listed =
                ap (count e) r.nets ∙ count-push_back e (incident_edges F g u) e ∙ ground arith;
          }

    -- Nothing is written outside the range of the net, nor to the nets of other ids.
    pub contract_net-elsewhere :
        ((i : ℕ)
          → (first F g e ≤ i → first_invalid_entry F g e ≤ i)
          → done.incidence_array i ≡ g.incidence_array i)
        × ((e' : ℕ) → e ≢ e' → count e' (incident_edges F done u) ≡ count e' (incident_edges F g u))
    contract_net-elsewhere =
        let (p, low, high, at_p) =
          slot_of F v g.incidence_array (first F g e) (edge_size F g e) (omega (arith, once)) in
        elim (contract_net_lem F hash g u v e p apart low high small at_p (λ j lj hj ne.
          slot_unique F v g.incidence_array (first F g e) (edge_size F g e) p j
            (omega (arith, once)) low high lj hj at_p ne)) [
              | inl r ↦ (
                λ i out. r.1.slots i ∙ ground (arith, out),
                λ e' ne.
                    ap (count e') r.1.nets
                    ∙ count-push_back e' (incident_edges F g u) e
                    ∙ ground (arith, ne),
              )
              | inr c ↦
                  (λ i out. c.1.slots i ∙ ground (arith, out), λ e' ne. ap (count e') c.1.nets)
            ]

    pub contract_net-IsContracted : IsContracted g done e
    contract_net-IsContracted =
        let (p, low, high, at_p) =
          slot_of F v g.incidence_array (first F g e) (edge_size F g e) (omega (arith, once)) in
        elim (contract_net_lem F hash g u v e p apart low high small at_p (λ j lj hj ne.
          slot_unique F v g.incidence_array (first F g e) (edge_size F g e) p j
            (omega (arith, once)) low high lj hj at_p ne)) [
              | inl r ↦ inr (done-IsGiven p low high at_p (r.0) (r.1))
              | inr c ↦ inl (done-IsCut p low high at_p (c.0.0) (c.0.1) (c.0.2) (c.0.3) (c.1))
            ]
