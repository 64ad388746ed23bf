-- ===== src/Hypergraph/Restore/Loop.antt =====
-- The loop of uncontract: each round moves on, restores a pin or gives a slot back.
use mathlib.Core.Path.{subst}
use kahypar.Prelude.{
  ℕ, zero, suc, ◌+◌, ◌≤◌, ◌<◌, ◌≡◌, ◌≢◌, refl, ◌∙◌, sym, ap, ◌==◌, arith, count, inl, inr, ◌&&◌,
  if◌then◌else◌, true, false, ltb, length, Bool-cases, Bool,
}
use kahypar.Prelude.Words.{inc32_lem}
use kahypar.Prelude.Vectors.{get}
use kahypar.Containers.FlagArray.{FlagArray}
use kahypar.Hypergraph.State.{
  Hypergraph, Memento, hyperedge, incident_edges, edge_size, first_invalid_entry,
}
use kahypar.Hypergraph.Uncontraction.{restore_pin, restore_slot, uncontract_nets}
use kahypar.Hypergraph.Restore.Structure.{first, ranges_apart}
use kahypar.Hypergraph.Restore.Frames.{IsNetStep-refl, IsSameNet, IsSameNet-refl}
use kahypar.Hypergraph.Restore.Positions.{
  removed, count-removed, length-removed, count-drop-removed, count-drop-suc, drop-all,
}
use kahypar.Hypergraph.Restore.Undone.{
  IsBeside, restore_pin-IsBeside, restore_pin-slots, restore_pin-size, restore_slot-IsBeside,
  restore_slot-size, restore_slot-slots,
}
use kahypar.Hypergraph.Restore.Uncontract.{IsBack, flagged, left, IsOpen, IsClosed, round-IsClosed}

module _ (F : FlagArray) (u v block : ℕ) where
  abbrev m : Memento
  m = record { u = u; v = v }

  -- The test between the two cases of a net that `v` was in.
  abbrev cut_off : Hypergraph F → ℕ → Bool
  cut_off g he =
      ltb (first_invalid_entry F g he) (hyperedge F g (he + 1)).first
      && (g.incidence_array (first_invalid_entry F g he) == v)

  round_none : (g : Hypergraph F) (it : ℕ) → uncontract_nets F zero g m block it ≡ g
  unfolding uncontract_nets
  round_none g it = refl

  round_plain :
      (g : Hypergraph F) (n it : ℕ)
      → flagged F u v g (get (incident_edges F g u) it) ≡ false
      → uncontract_nets F (suc n) g m block it ≡ uncontract_nets F n g m block (it + 1)
  unfolding uncontract_nets
  round_plain g n it e = rw (uncontract_nets, e) refl

  round_pin :
      (g : Hypergraph F) (n it : ℕ)
      → let he = get (incident_edges F g u) it in
        flagged F u v g he ≡ true
        → cut_off g he ≡ true
        → uncontract_nets F (suc n) g m block it
          ≡ uncontract_nets F n (restore_pin F g he m block) m block (it + 1)
  unfolding uncontract_nets
  round_pin g n it e c = rw (uncontract_nets, e, c) refl

  round_slot :
      (g : Hypergraph F) (n it : ℕ)
      → let he = get (incident_edges F g u) it in
        flagged F u v g he ≡ true
        → cut_off g he ≡ false
        → uncontract_nets F (suc n) g m block it
          ≡ uncontract_nets F n (restore_slot F g it he m) m block it
  unfolding uncontract_nets
  round_slot g n it e c = rw (uncontract_nets, e, c) refl

  module _ (g : Hypergraph F) (n it : ℕ) (o : IsOpen F u v g (suc n) it) where
    abbrev he : ℕ
    he = get (incident_edges F g u) it

    within : it < length (incident_edges F g u)
    within = omega (arith, o.all)

    he-left : 0 < left F u v g it he
    he-left = ground (arith, count-drop-suc he (incident_edges F g u) it within)

    inside : he < g.num_hyperedges
    inside = o.inside he he-left

    left_suc : (e : ℕ) → left F u v g (it + 1) e + (if e == he then 1 else 0) ≡ left F u v g it e
    left_suc e =
        let z : it + 1 ≡ suc it = omega arith in
        rw z (omega (arith, count-drop-suc e (incident_edges F g u) it within))

    plain-IsBeside : IsBeside F u g g he (incident_edges F g u)
    plain-IsBeside = record {
      frame = IsNetStep-refl F u g;
      flags = refl;
      list = refl;
      sizes = λ e ne. refl;
    }

    module _ (t : flagged F u v g he ≡ true) (c : cut_off g he ≡ true) where
      abbrev with_pin : Hypergraph F
      with_pin = restore_pin F g he m block

      pin-IsBeside : IsBeside F u g with_pin he (incident_edges F g u)
      pin-IsBeside = restore_pin-IsBeside F g he it u v block

      pin_others : (e : ℕ) → e < g.num_hyperedges → he ≢ e → IsSameNet F u g with_pin e
      pin_others e q ne = record {
        size = pin-IsBeside.sizes e ne;
        slots = λ i l h. ap (λ a. a i) (restore_pin-slots F g he it u v block);
        listed = ap (count e) pin-IsBeside.list;
      }

      pin-IsBack : IsBack F u v g with_pin he
      pin-IsBack = inl (record {
        cond = (ground (arith, c), ground (arith, c));
        size = restore_pin-size F g he it u v block;
        slots = λ i l h. ap (λ a. a i) (restore_pin-slots F g he it u v block);
        listed = ap (count he) pin-IsBeside.list;
      })

      pin_room : first_invalid_entry F with_pin he ≤ first F g (he + 1)
      pin_room =
          let s = restore_pin-size F g he it u v block in
          let f = pin-IsBeside.frame.firsts he in
          let i = inc32_lem (edge_size F g he) (o.small he he-left) in
          rw f (ground (arith, s, i, c))

      pin_left :
          (e : ℕ) → left F u v with_pin (it + 1) e + (if e == he then 1 else 0) ≡ left F u v g it e
      pin_left e = rw (pin-IsBeside.list) (left_suc e)

    module _ (t : flagged F u v g he ≡ true) (c : cut_off g he ≡ false) where
      abbrev with_slot : Hypergraph F
      with_slot = restore_slot F g it he m

      slot-IsBeside : IsBeside F u g with_slot he (removed (incident_edges F g u) it)
      slot-IsBeside = restore_slot-IsBeside F g he it u v

      slot_others : (e : ℕ) → e < g.num_hyperedges → he ≢ e → IsSameNet F u g with_slot e
      slot_others e q ne =
          let (p, low, high, at_p, written) =
            restore_slot-slots F g he it u v (o.pinned he he-left) in
          let r = count-removed e (incident_edges F g u) it within in
          record {
            size = slot-IsBeside.sizes e ne;
            slots = λ i l h.
                let apart : p ≢ i = λ eq. absurd (
                  omega (
                    arith,
                    eq,
                    high,
                    o.ordered he inside,
                    ranges_apart F g o.ordered e he i q inside (λ z. ne (sym z)) l h
                        (omega (arith, low, eq)),
                  )) in
                ap (λ a. a i) written ∙ ground (arith, apart);
            listed = ap (count e) slot-IsBeside.list ∙ ground (arith, r, ne);
          }

      slot-IsBack : IsBack F u v g with_slot he
      slot-IsBack =
          let (p, low, high, at_p, written) =
            restore_slot-slots F g he it u v (o.pinned he he-left) in
          let r = count-removed he (incident_edges F g u) it within in
          inr (record {
            cond = λ l q. absurd (ground (arith, c, l, q));
            size = restore_slot-size F g he it u v;
            slot = p;
            low = low;
            high = high;
            held = at_p;
            slots = λ i l h. ap (λ a. a i) written;
            listed = ap (λ xs. count he xs + 1) slot-IsBeside.list ∙ ground (arith, r);
          })

      slot_room : first_invalid_entry F with_slot he ≤ first F g (he + 1)
      slot_room =
          rw (slot-IsBeside.frame.firsts he, restore_slot-size F g he it u v) (o.ordered he inside)

      slot_left :
          (e : ℕ) → left F u v with_slot it e + (if e == he then 1 else 0) ≡ left F u v g it e
      slot_left e = rw (slot-IsBeside.list) (count-drop-removed e (incident_edges F g u) it within)

      slot_kept :
          (e : ℕ)
          → he ≢ e
          → count e (removed (incident_edges F g u) it) ≡ count e (incident_edges F g u)
      slot_kept e ne = ground (arith, count-removed e (incident_edges F g u) it within, ne)

      slot_all : length (removed (incident_edges F g u) it) ≡ it + n
      slot_all = omega (arith, length-removed (incident_edges F g u) it, o.all)

  -- The loop restores each net of `u` that it still visits and that `v` was in, and leaves the others.
  pub uncontract_nets-IsClosed :
      (n it : ℕ) (g : Hypergraph F)
      → IsOpen F u v g n it
      → IsClosed F u v g (uncontract_nets F n g m block it) it
  unfolding count
  uncontract_nets-IsClosed zero it g o =
      let none = drop-all it (incident_edges F g u) (omega (arith, o.all)) in
      let z : (e : ℕ) → left F u v g it e ≡ 0 = λ e. rw none refl in
      subst (λ h. IsClosed F u v g h it) (sym (round_none g it))
        (record {
          frame = IsNetStep-refl F u g;
          rest = λ e q l. IsSameNet-refl F u g e;
          unflagged = λ e q t. IsSameNet-refl F u g e;
          back = λ e l t. absurd (omega (arith, z e, l));
          size_there = λ e l. refl;
          listed_there = λ e l. refl;
        })
  uncontract_nets-IsClosed (suc n) it g o = elim (Bool-cases (flagged F u v g (he g n it o))) [
    | inr t ↦
        subst (λ h. IsClosed F u v g h it) (sym (round_plain g n it t))
          (round-IsClosed F u v g g (he g n it o) (incident_edges F g u) n it (it + 1) o
            (inside g n it o) (plain-IsBeside g n it o) (λ e q ne. IsSameNet-refl F u g e)
            (λ f. absurd (ground (arith, t, f))) (λ f. IsSameNet-refl F u g _) (left_suc g n it o)
            (λ e ne. refl) (o.ordered _ (inside g n it o)) (omega (arith, o.all)) _
            (uncontract_nets-IsClosed n (it + 1) g))
    | inl t ↦ elim (Bool-cases (cut_off g (he g n it o))) [
      | inl c ↦
          subst (λ h. IsClosed F u v g h it) (sym (round_pin g n it t c))
            (round-IsClosed F u v g (with_pin g n it o t c) (he g n it o) (incident_edges F g u) n
              it (it + 1) o (inside g n it o) (pin-IsBeside g n it o t c) (pin_others g n it o t c)
              (λ _. pin-IsBack g n it o t c) (λ f. absurd (ground (arith, t, f)))
              (pin_left g n it o t c) (λ e ne. refl) (pin_room g n it o t c) (omega (arith, o.all))
              _ (uncontract_nets-IsClosed n (it + 1) (with_pin g n it o t c)))
      | inr c ↦
          subst (λ h. IsClosed F u v g h it) (sym (round_slot g n it t c))
            (round-IsClosed F u v g (with_slot g n it o t c) (he g n it o)
              (removed (incident_edges F g u) it) n it it o (inside g n it o)
              (slot-IsBeside g n it o t c) (slot_others g n it o t c)
              (λ _. slot-IsBack g n it o t c) (λ f. absurd (ground (arith, t, f)))
              (slot_left g n it o t c) (slot_kept g n it o t c) (slot_room g n it o t c)
              (slot_all g n it o t c) _ (uncontract_nets-IsClosed n it (with_slot g n it o t c)))
    ]
  ]
