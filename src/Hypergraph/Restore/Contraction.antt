-- ===== src/Hypergraph/Restore/Contraction.antt =====
-- The whole of contract, as far as uncontract can tell.
use kahypar.Prelude.{
  ℕ, ◌≤◌, ◌<◌, ◌≡◌, ◌≢◌, refl, ◌∙◌, ap, ◌==◌, arith, count, inl, inr, if◌then◌else◌, true, false,
  Option-cases,
}
use native.Mathlib.Decide.{ℕ_discrete}
use kahypar.Prelude.Int.{◌+ℤ◌}
use kahypar.Containers.FlagArray.{FlagArray}
use kahypar.Hypergraph.State.{
  Hypergraph, hypernode, hyperedge, set_hypernode, incident_edges, edge_size,
  fixed_vertex_part_id_of,
}
use kahypar.Hypergraph.Contraction.{contract, contract_fixed, contract_nets}
use kahypar.Hypergraph.Contraction.Slots.{if-cases}
use kahypar.Hypergraph.Restore.Structure.{first, IsFormed}
use kahypar.Hypergraph.Restore.Frames.{IsSameNet}
use kahypar.Hypergraph.Restore.Contracted.{IsContracted}
use kahypar.Hypergraph.Restore.Contract.{IsReady, IsDone, contract_nets-IsDone, IsContracted-before}

module _ (F : FlagArray) where
  -- Hypernodes, nets and slots are untouched.
  pub record IsKept (g h : Hypergraph F) : Type 0 where
    pub nets : h.num_hyperedges ≡ g.num_hyperedges
    pub order : h.num_hypernodes ≡ g.num_hypernodes
    pub hypernodes_same : h.hypernodes ≡ g.hypernodes
    pub hyperedges_same : h.hyperedges ≡ g.hyperedges
    pub slots_same : h.incidence_array ≡ g.incidence_array

  pub IsKept-refl : (g : Hypergraph F) → IsKept g g
  IsKept-refl g = record {
    nets = refl;
    order = refl;
    hypernodes_same = refl;
    hyperedges_same = refl;
    slots_same = refl;
  }

  contract_fixed-IsKept :
      (hash : ℕ → ℕ) (g : Hypergraph F) (u v : ℕ) → IsKept g (contract_fixed F hash g u v)
  unfolding contract_fixed
  contract_fixed-IsKept hash g u v = elim (Option-cases (fixed_vertex_part_id_of F g u)) [
    | inl e ↦ rw (contract_fixed, e) (IsKept-refl g)
    | inr (b, e) ↦
        rw (contract_fixed, e)
          (if-cases (IsKept g) _ _ _
            (λ _. record {
              nets = refl;
              order = refl;
              hypernodes_same = refl;
              hyperedges_same = refl;
              slots_same = refl;
            })
            (λ _. record {
              nets = refl;
              order = refl;
              hypernodes_same = refl;
              hyperedges_same = refl;
              slots_same = refl;
            }))
  ]

  -- The effect of contract.
  pub record IsContraction (u v : ℕ) (g h : Hypergraph F) : Type 0 where
    pub nets : h.num_hyperedges ≡ g.num_hyperedges
    pub order : h.num_hypernodes ≡ g.num_hypernodes
    pub firsts : (e : ℕ) → first F h e ≡ first F g e
    pub live : (e : ℕ) → (hyperedge F h e).valid ≡ (hyperedge F g e).valid
    pub enabled :
        (x : ℕ) → (hypernode F h x).valid ≡ (if v == x then false else (hypernode F g x).valid)
    pub weight :
        (x : ℕ)
        → (hypernode F h x).weight ≡ (
            if u == x
            then (hypernode F g u).weight +ℤ (hypernode F g v).weight
            else (hypernode F g x).weight)
    pub others : (x : ℕ) → u ≢ x → incident_edges F h x ≡ incident_edges F g x
    pub same :
        (e : ℕ) → e < g.num_hyperedges → count e (incident_edges F g v) ≡ 0 → IsSameNet F u g h e
    pub changed : (e : ℕ) → 0 < count e (incident_edges F g v) → IsContracted F u v g h e
    pub size_there :
        (e : ℕ) → count e (incident_edges F g v) ≡ 0 → edge_size F h e ≡ edge_size F g e
    pub listed_there :
        (e : ℕ)
        → count e (incident_edges F g v) ≡ 0
        → count e (incident_edges F h u) ≡ count e (incident_edges F g u)

  module _ (hash : ℕ → ℕ) (g : Hypergraph F) (u v : ℕ) (apart : u ≢ v) (w : IsFormed F g)
      (live_v : (hypernode F g v).valid ≡ true) where
    abbrev g₁ : Hypergraph F
    g₁ =
        set_hypernode F g u (record (hypernode F g u) {
          weight = (hypernode F g u).weight +ℤ (hypernode F g v).weight;
        })

    abbrev g₂ : Hypergraph F
    g₂ = contract_fixed F hash g₁ u v

    kept : IsKept g₁ g₂
    kept = contract_fixed-IsKept hash g₁ u v

    nets_of_v : incident_edges F g₂ v ≡ incident_edges F g v
    nets_of_v = ap (λ xs. (xs v).incident_nets) kept.hypernodes_same ∙ ground (arith, apart)

    ready : IsReady F u v g₂ (incident_edges F g v)
    ready = record {
      ordered = λ e inside. rw (kept.hyperedges_same) (w.ordered e (rw (kept.nets) at inside));
      each = λ e l.
          let net = w.listed e v live_v l in
          let c = w.incident e v net live_v in
          (
            rw (kept.nets) (net.0),
            rw (kept.hyperedges_same, kept.slots_same) (ground (arith, c, l, w.once e v net)),
            rw (kept.hyperedges_same) (omega (arith, w.small e)),
          );
    }

    before : (e : ℕ) → IsSameNet F u g g₂ e
    before e =
        let k = ap (λ xs. count e (xs u).incident_nets) kept.hypernodes_same in
        record {
          size = ap (λ es. (es e).size) kept.hyperedges_same;
          slots = λ i l h. ap (λ a. a i) kept.slots_same;
          listed = k ∙ ground arith;
        }

    pub nets-once : (e : ℕ) → count e (incident_edges F g v) ≤ 1
    nets-once e = elim (ℕ_discrete (count e (incident_edges F g v)) 0) [
      | yes none ↦ omega (arith, none)
      | no some_net ↦
          let net = w.listed e v live_v (omega (arith, some_net)) in
          omega (arith, w.incident e v net live_v, w.once e v net)
    ]

    abbrev g₃ : Hypergraph F
    g₃ = contract_nets F hash g₂ u v (incident_edges F g₂ v)

    -- Disabling `v` changes no net.
    after :
        (e : ℕ)
        → count e (incident_edges F (contract F hash g u v).0 u) ≡ count e (incident_edges F g₃ u)
    unfolding contract
    after e = ground (arith, apart)

    finished :
        (e : ℕ) → IsContracted F u v g g₃ e → IsContracted F u v g (contract F hash g u v).0 e
    unfolding contract
    finished e c = elim c [
      | inl c ↦ inl (record {
        both = c.both;
        big = c.big;
        size = c.size;
        last = c.last;
        pins = c.pins;
        beyond = c.beyond;
        listed = after e ∙ c.listed;
      })
      | inr c ↦ inr (record {
        only = c.only;
        size = c.size;
        pins = c.pins;
        beyond = c.beyond;
        listed = after e ∙ c.listed;
      })
    ]

    pub contract-IsContraction : IsContraction u v g (contract F hash g u v).0
    unfolding contract
    contract-IsContraction =
        let hes = incident_edges F g v in
        let d : IsDone F u v g₂ (contract_nets F hash g₂ u v (incident_edges F g₂ v)) hes =
          rw nets_of_v (contract_nets-IsDone F u v hash apart hes g₂ ready nets-once) in
        let f = d.frame in
        record {
          nets = f.nets ∙ kept.nets;
          order = f.order ∙ kept.order;
          firsts = λ e. f.firsts e ∙ ap (λ es. (es e).first) kept.hyperedges_same;
          live = λ e. f.live e ∙ ap (λ es. (es e).valid) kept.hyperedges_same;
          enabled = λ x.
              let k = ap (λ xs. (xs x).valid) kept.hypernodes_same in
              ground (arith, f.enabled x, k);
          weight = λ x.
              let k = ap (λ xs. (xs x).weight) kept.hypernodes_same in
              ground (arith, f.weight x, k);
          others = λ x ne.
              let k = ap (λ xs. (xs x).incident_nets) kept.hypernodes_same in
              ground (arith, f.others x ne, k, ne);
          same = λ e inside none.
              let s = d.same e (rw (kept.nets) inside) none in
              let b = before e in
              record {
                size = s.size ∙ b.size;
                slots = λ i l h.
                    s.slots i (rw (kept.hyperedges_same) l) (rw (kept.hyperedges_same) h)
                    ∙ b.slots i l h;
                listed = after e ∙ s.listed ∙ b.listed;
              };
          changed = λ e l.
              let net = w.listed e v live_v l in
              finished e (
                IsContracted-before F u v g g₂ (contract_nets F hash g₂ u v (incident_edges F g₂ v))
                  e (λ j. ap (λ es. (es j).first) kept.hyperedges_same) (before e)
                  (w.ordered e net.0) (d.changed e l));
          size_there = λ e none. d.size_there e none ∙ ap (λ es. (es e).size) kept.hyperedges_same;
          listed_there = λ e none. after e ∙ d.listed_there e none ∙ (before e).listed;
        }
