-- ===== src/Hypergraph/Restore/Frames.antt =====
-- What the steps of contract and uncontract leave alone.
use kahypar.Prelude.{ℕ, ◌+◌, ◌-◌, ◌≤◌, ◌<◌, ◌≡◌, ◌≢◌, refl, ◌∙◌, not, ◌==◌, arith, count}
use kahypar.Prelude.Words.{dec32}
use kahypar.Containers.FlagArray.{FlagArray}
use kahypar.Hypergraph.State.{
  Hypergraph, hypernode, hyperedge, incident_edges, edge_size, first_invalid_entry, part_id,
  set_hyperedge,
}
use kahypar.Hypergraph.Shape.{SameShape}
use kahypar.Hypergraph.Contraction.{
  scan_pins, contract_net, connect_hyperedge_to_representative, sub_hash,
}
use kahypar.Hypergraph.Contraction.Slots.{if-cases}
use kahypar.Hypergraph.Contraction.Nets.{pin_count_down-SameShape}
use kahypar.Hypergraph.Restore.Structure.{first}

module _ (F : FlagArray) (u : ℕ) where
  -- A step that may change sizes, slots and the nets of `u`.
  pub record IsNetStep (g h : Hypergraph F) : Type 0 where
    pub nets : h.num_hyperedges ≡ g.num_hyperedges
    pub order : h.num_hypernodes ≡ g.num_hypernodes
    pub firsts : (e : ℕ) → first F h e ≡ first F g e
    pub live : (e : ℕ) → (hyperedge F h e).valid ≡ (hyperedge F g e).valid
    pub enabled : (x : ℕ) → (hypernode F h x).valid ≡ (hypernode F g x).valid
    pub weight : (x : ℕ) → (hypernode F h x).weight ≡ (hypernode F g x).weight
    pub part : (x : ℕ) → part_id F h x ≡ part_id F g x
    pub others : (x : ℕ) → u ≢ x → incident_edges F h x ≡ incident_edges F g x

  pub IsNetStep-refl : (g : Hypergraph F) → IsNetStep g g
  IsNetStep-refl g = record {
    nets = refl;
    order = refl;
    firsts = λ e. refl;
    live = λ e. refl;
    enabled = λ x. refl;
    weight = λ x. refl;
    part = λ x. refl;
    others = λ x ne. refl;
  }

  pub IsNetStep-trans : {f g h : Hypergraph F} → IsNetStep f g → IsNetStep g h → IsNetStep f h
  IsNetStep-trans s t = record {
    nets = t.nets ∙ s.nets;
    order = t.order ∙ s.order;
    firsts = λ e. t.firsts e ∙ s.firsts e;
    live = λ e. t.live e ∙ s.live e;
    enabled = λ x. t.enabled x ∙ s.enabled x;
    weight = λ x. t.weight x ∙ s.weight x;
    part = λ x. t.part x ∙ s.part x;
    others = λ x ne. t.others x ne ∙ s.others x ne;
  }

  pub IsNetStep-SameShape : {g h : Hypergraph F} → SameShape F g h → IsNetStep g h
  IsNetStep-SameShape s = record {
    nets = s.nets;
    order = s.order;
    firsts = s.first;
    live = s.live;
    enabled = s.enabled;
    weight = s.weight;
    part = s.part;
    others = λ x ne. s.incident x;
  }

  -- Net `e` is as before.
  pub record IsSameNet (g h : Hypergraph F) (e : ℕ) : Type 0 where
    pub size : edge_size F h e ≡ edge_size F g e
    pub slots :
        (i : ℕ)
        → first F g e ≤ i
        → i < first F g (e + 1)
        → h.incidence_array i ≡ g.incidence_array i
    pub listed : count e (incident_edges F h u) ≡ count e (incident_edges F g u)

  pub IsSameNet-refl : (g : Hypergraph F) (e : ℕ) → IsSameNet g g e
  IsSameNet-refl g e = record { size = refl; slots = λ i l h. refl; listed = refl }

  pub IsSameNet-trans :
      {f g h : Hypergraph F} (e : ℕ)
      → IsNetStep f g
      → IsSameNet f g e
      → IsSameNet g h e
      → IsSameNet f h e
  IsSameNet-trans e n s t = record {
    size = t.size ∙ s.size;
    slots = λ i l h. t.slots i (rw (n.firsts e) l) (rw (n.firsts (e + 1)) h) ∙ s.slots i l h;
    listed = t.listed ∙ s.listed;
  }

  module _ (hash : ℕ → ℕ) (g : Hypergraph F) (v he : ℕ) where
    pub contract_net-IsNetStep : IsNetStep g (contract_net F hash g u v he)
    unfolding contract_net connect_hyperedge_to_representative
    contract_net-IsNetStep =
        let e = hyperedge F g he in
        let last = first_invalid_entry F g he - 1 in
        let r = scan_pins (e.size + e.size) g.incidence_array u v e.first last last in
        let h = record g { incidence_array = r.0 } in
        if-cases (IsNetStep g) (not (r.1 == last)) _ _
          (λ ne.
            let d =
              pin_count_down-SameShape F hash
                (set_hyperedge F h he
                  (record e { size = dec32 e.size; hash = sub_hash F hash e.hash v }))
                he (part_id F g v) in
            record {
              nets = d.nets;
              order = d.order;
              firsts = λ x. d.first x ∙ ground arith;
              live = λ x. d.live x ∙ ground arith;
              enabled = d.enabled;
              weight = d.weight;
              part = d.part;
              others = λ x ne. d.incident x;
            })
          (λ eq. record {
            nets = refl;
            order = refl;
            firsts = λ x. ground arith;
            live = λ x. ground arith;
            enabled = λ x. ground arith;
            weight = λ x. ground arith;
            part = λ x. ground arith;
            others = λ x ne. ground (arith, ne);
          })

    pub contract_net-size :
        (e : ℕ) → he ≢ e → edge_size F (contract_net F hash g u v he) e ≡ edge_size F g e
    unfolding contract_net connect_hyperedge_to_representative
    contract_net-size x ne =
        let e = hyperedge F g he in
        let last = first_invalid_entry F g he - 1 in
        let r = scan_pins (e.size + e.size) g.incidence_array u v e.first last last in
        let h = record g { incidence_array = r.0 } in
        if-cases (λ k. edge_size F k x ≡ edge_size F g x) (not (r.1 == last)) _ _
          (λ no.
            let d =
              pin_count_down-SameShape F hash
                (set_hyperedge F h he
                  (record e { size = dec32 e.size; hash = sub_hash F hash e.hash v }))
                he (part_id F g v) in
            d.size x ∙ ground (arith, ne))
          (λ eq. ground (arith, ne))
