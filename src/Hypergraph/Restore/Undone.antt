-- ===== src/Hypergraph/Restore/Undone.antt =====
-- What the two undo steps of uncontract do to one net.
use kahypar.Prelude.{
  ℕ, ◌+◌, ◌-◌, ◌≤◌, ◌<◌, ◌≡◌, ◌≢◌, refl, ◌∙◌, arith, count, if◌then◌else◌, List, ltb,
}
use kahypar.Prelude.Arrays.{update}
use kahypar.Prelude.Words.{inc32}
use kahypar.Containers.FlagArray.{FlagArray}
use kahypar.Hypergraph.State.{
  Hypergraph, Memento, hyperedge, set_hyperedge, incident_edges, edge_size, first_invalid_entry,
  connectivity,
}
use kahypar.Hypergraph.Shape.{SameShape, SameShape-refl, SameShape-trans, cut_count-SameShape}
use kahypar.Hypergraph.Blocks.{increment_pin_count_in_part}
use kahypar.Hypergraph.Blocks.Counts.{increment-SameShape}
use kahypar.Hypergraph.Contraction.Slots.{if-cases}
use kahypar.Hypergraph.Uncontraction.{
  set_incident_nets, reset_reused_pin_slot, more_cut, less_cut, restore_pin, restore_slot,
  last_slot_of,
}
use kahypar.Hypergraph.Restore.Slices.{slot_of}
use kahypar.Hypergraph.Restore.Structure.{first, pin_count}
use kahypar.Hypergraph.Restore.Frames.{IsNetStep}
use kahypar.Hypergraph.Restore.Positions.{removed, last_slot_of_lem}

module _ (F : FlagArray) where
  -- The shape, and the flags of the nets.
  pub record IsSameAll (g h : Hypergraph F) : Type 0 where
    pub shape : SameShape F g h
    pub flags : h.hes_not_containing_u ≡ g.hes_not_containing_u

  IsSameAll-trans : {f g h : Hypergraph F} → IsSameAll f g → IsSameAll g h → IsSameAll f h
  IsSameAll-trans s t = record {
    shape = SameShape-trans F s.shape t.shape;
    flags = t.flags ∙ s.flags;
  }

  increment-IsSameAll :
      (g : Hypergraph F) (he b : ℕ) → IsSameAll g (increment_pin_count_in_part F g he b).0
  unfolding increment_pin_count_in_part
  increment-IsSameAll g he b = record {
    shape = increment-SameShape F g he b;
    flags =
        if-cases (λ (h : Hypergraph F). h.hes_not_containing_u ≡ g.hes_not_containing_u) _ _ _
          (λ _. refl) (λ _. refl);
  }

  pins-IsSameAll : (g : Hypergraph F) (n : ℕ) → IsSameAll g (record g { current_num_pins = n })
  pins-IsSameAll g n = record {
    shape = record {
      blocks = refl;
      order = refl;
      nets = refl;
      incidence = refl;
      first = λ e. refl;
      size = λ e. refl;
      live = λ e. refl;
      part = λ u. refl;
      incident = λ u. refl;
      enabled = λ u. refl;
      weight = λ u. refl;
      info = refl;
    };
    flags = refl;
  }

  more_cut-IsSameAll : (g : Hypergraph F) (u : ℕ) → IsSameAll g (more_cut F g u)
  more_cut-IsSameAll g u = record { shape = cut_count-SameShape F g u _; flags = refl }

  less_cut-IsSameAll : (g : Hypergraph F) (u : ℕ) → IsSameAll g (less_cut F g u)
  less_cut-IsSameAll g u = record { shape = cut_count-SameShape F g u _; flags = refl }

  restore_pin-IsSameAll :
      (g : Hypergraph F) (he : ℕ) (m : Memento) (block : ℕ)
      → IsSameAll
          (set_hyperedge F g he (record (hyperedge F g he) { size = inc32 (edge_size F g he) }))
          (restore_pin F g he m block)
  unfolding restore_pin
  restore_pin-IsSameAll g he m block =
      let g₀ =
        set_hyperedge F g he (record (hyperedge F g he) { size = inc32 (edge_size F g he) }) in
      let g₁ = (increment_pin_count_in_part F g₀ he block).0 in
      let g₂ = if ltb 1 (connectivity F g₁ he) then more_cut F g₁ m.v else g₁ in
      let s : IsSameAll g₁ g₂ =
        if-cases (IsSameAll g₁) (ltb 1 (connectivity F g₁ he)) _ _ (λ _. more_cut-IsSameAll g₁ m.v)
          (λ _. record { shape = SameShape-refl F g₁; flags = refl }) in
      IsSameAll-trans (increment-IsSameAll g₀ he block) (IsSameAll-trans s (pins-IsSameAll g₂ _))

  abbrev pub slot_given : Hypergraph F → ℕ → ℕ → Memento → Hypergraph F
  slot_given g it he m =
      reset_reused_pin_slot F (set_incident_nets F g m.u (removed (incident_edges F g m.u) it)) he m

  restore_slot-IsSameAll :
      (g : Hypergraph F) (it he : ℕ) (m : Memento)
      → IsSameAll (slot_given g it he m) (restore_slot F g it he m)
  unfolding restore_slot
  restore_slot-IsSameAll g it he m =
      let g₂ = slot_given g it he m in
      if-cases (IsSameAll g₂) _ _ _
        (λ _.
          IsSameAll-trans (less_cut-IsSameAll g₂ m.u) (more_cut-IsSameAll (less_cut F g₂ m.u) m.v))
        (λ _. record { shape = SameShape-refl F g₂; flags = refl })

  -- The slot past the end of the net holds `v`: the test between the two cases.
  abbrev pub IsCutOff : Hypergraph F → ℕ → ℕ → Type 0
  IsCutOff g v e =
      (first_invalid_entry F g e < first F g (e + 1))
      × (g.incidence_array (first_invalid_entry F g e) ≡ v)

  pub record IsPinBack (u v : ℕ) (g h : Hypergraph F) (e : ℕ) : Type 0 where
    pub cond : IsCutOff g v e
    pub size : edge_size F h e ≡ inc32 (edge_size F g e)
    pub slots :
        (i : ℕ)
        → first F g e ≤ i
        → i < first F g (e + 1)
        → h.incidence_array i ≡ g.incidence_array i
    pub listed : count e (incident_edges F h u) ≡ count e (incident_edges F g u)

  pub record IsSlotBack (u v : ℕ) (g h : Hypergraph F) (e : ℕ) : Type 0 where
    pub cond :
        first_invalid_entry F g e < first F g (e + 1)
        → g.incidence_array (first_invalid_entry F g e) ≢ v
    pub size : edge_size F h e ≡ edge_size F g e
    pub slot : ℕ
    pub low : first F g e ≤ slot
    pub high : slot < first_invalid_entry F g e
    pub held : g.incidence_array slot ≡ u
    pub slots :
        (i : ℕ)
        → first F g e ≤ i
        → i < first F g (e + 1)
        → h.incidence_array i ≡ update g.incidence_array slot v i
    pub listed : count e (incident_edges F h u) + 1 ≡ count e (incident_edges F g u)

  -- What a step does beside.
  pub record IsBeside (u : ℕ) (g h : Hypergraph F) (he : ℕ) (nets : List ℕ) : Type 0 where
    pub frame : IsNetStep F u g h
    pub flags : h.hes_not_containing_u ≡ g.hes_not_containing_u
    pub list : incident_edges F h u ≡ nets
    pub sizes : (e : ℕ) → he ≢ e → edge_size F h e ≡ edge_size F g e

  module _ (g : Hypergraph F) (he it u v : ℕ) where
    abbrev m : Memento
    m = record { u = u; v = v }

    module _ (block : ℕ) where
      pub restore_pin-IsBeside : IsBeside u g (restore_pin F g he m block) he (incident_edges F g u)
      restore_pin-IsBeside =
          let s = (restore_pin-IsSameAll g he m block).shape in
          record {
            frame = record {
              nets = s.nets;
              order = s.order;
              firsts = λ e. s.first e ∙ ground arith;
              live = λ e. s.live e ∙ ground arith;
              enabled = s.enabled;
              weight = s.weight;
              part = s.part;
              others = λ x ne. s.incident x;
            };
            flags = (restore_pin-IsSameAll g he m block).flags;
            list = s.incident u;
            sizes = λ e ne. s.size e ∙ ground (arith, ne);
          }

      pub restore_pin-slots : (restore_pin F g he m block).incidence_array ≡ g.incidence_array
      restore_pin-slots = (restore_pin-IsSameAll g he m block).shape.incidence

      pub restore_pin-size : edge_size F (restore_pin F g he m block) he ≡ inc32 (edge_size F g he)
      restore_pin-size = (restore_pin-IsSameAll g he m block).shape.size he ∙ ground arith

    pub restore_slot-IsBeside :
        IsBeside u g (restore_slot F g it he m) he (removed (incident_edges F g u) it)
    unfolding reset_reused_pin_slot
    restore_slot-IsBeside =
        let s = (restore_slot-IsSameAll g it he m).shape in
        record {
          frame = record {
            nets = s.nets;
            order = s.order;
            firsts = s.first;
            live = s.live;
            enabled = λ x. s.enabled x ∙ ground arith;
            weight = λ x. s.weight x ∙ ground arith;
            part = λ x. s.part x ∙ ground arith;
            others = λ x ne. s.incident x ∙ ground (arith, ne);
          };
          flags = (restore_slot-IsSameAll g it he m).flags;
          list = s.incident u ∙ ground arith;
          sizes = λ e ne. s.size e;
        }

    pub restore_slot-size : edge_size F (restore_slot F g it he m) he ≡ edge_size F g he
    unfolding reset_reused_pin_slot
    restore_slot-size = (restore_slot-IsSameAll g it he m).shape.size he

    -- The slot that is given back held `u`.
    pub restore_slot-slots :
        0 < pin_count F g he u
        → (p : ℕ) × (first F g he ≤ p)
          × (p < first_invalid_entry F g he)
          × (g.incidence_array p ≡ u)
          × ((restore_slot F g it he m).incidence_array ≡ update g.incidence_array p v)
    unfolding reset_reused_pin_slot
    restore_slot-slots some_pin =
        let (j, low, high, at_j) =
          slot_of F u g.incidence_array (first F g he) (edge_size F g he) some_pin in
        let l =
          last_slot_of_lem (edge_size F g he - 1) g.incidence_array u
            (first_invalid_entry F g he - 1) j (omega arith) (omega arith) at_j in
        (
          last_slot_of (edge_size F g he - 1) g.incidence_array u (first_invalid_entry F g he - 1),
          omega (arith, l.0),
          omega (arith, l.1),
          l.2,
          (restore_slot-IsSameAll g it he m).shape.incidence,
        )
