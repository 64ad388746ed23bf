-- ===== src/Hypergraph/Restore/Restored.antt =====
-- uncontract, and each net that contract changed.
use kahypar.Prelude.{
  ℕ, ◌+◌, ◌-◌, ◌≤◌, ◌<◌, ◌≡◌, ◌≢◌, refl, ◌∙◌, sym, ap, arith, count, inl, inr, true, false, length,
}
use native.Mathlib.Decide.{ℕ_discrete}
use kahypar.Containers.FlagArray.{FlagArray}
use kahypar.Hypergraph.State.{Hypergraph, hypernode, incident_edges, edge_size, first_invalid_entry}
use kahypar.Hypergraph.Restore.Slices.{count_in, count_in-cong, one_if}
use kahypar.Hypergraph.Restore.Structure.{first, pin_count, IsNet, IsFormed, IsLike}
use kahypar.Hypergraph.Restore.Contracted.{IsCut, IsGiven}
use kahypar.Hypergraph.Restore.Contract.{pin_count-same}
use kahypar.Hypergraph.Restore.Contraction.{IsContraction}
use kahypar.Prelude.Arrays.{update}
use kahypar.Prelude.Words.{inc32_lem}
use kahypar.Hypergraph.Uncontraction.{uncontract_nets}
use kahypar.Hypergraph.Restore.Slices.{count_in-suc, count_in-update}
use kahypar.Hypergraph.Restore.Undone.{IsPinBack, IsSlotBack}
use kahypar.Hypergraph.Restore.Uncontract.{IsClosed}
use kahypar.Hypergraph.Restore.Loop.{uncontract_nets-IsClosed}
use kahypar.Hypergraph.Restore.Start.{
  start, start_first, start_size, start_nets, start_incident, start_flagged, start_pins,
  start_beyond, same_pins, cut_pins, given_pins, start-IsOpen,
}

module _ (F : FlagArray) (u v : ℕ) (g c h : Hypergraph F) (apart : u ≢ v) (w : IsFormed F g)
    (live_u : (hypernode F g u).valid ≡ true) (live_v : (hypernode F g v).valid ≡ true)
    (k : IsContraction F u v g c) (like : IsLike F c h) (block : ℕ) where
  abbrev pub s : Hypergraph F
  s = start F u v g c h apart w live_u live_v k like block

  abbrev pub r : Hypergraph F
  r = uncontract_nets F (length (incident_edges F s u)) s (record { u = u; v = v }) block 0

  pub done : IsClosed F u v s r 0
  done =
      uncontract_nets-IsClosed F u v block (length (incident_edges F s u)) 0 s
        (start-IsOpen F u v g c h apart w live_u live_v k like block)

  abbrev pub of_v : ℕ → ℕ
  of_v e = count e (incident_edges F g v)

  -- Net `e` as the loop leaves it.
  pub record IsRestored (e : ℕ) : Type 0 where
    pub size : edge_size F r e ≡ edge_size F g e
    pub listed : count e (incident_edges F r u) ≡ count e (incident_edges F g u)
    pub pins : (x : ℕ) → pin_count F r e x ≡ pin_count F g e x
    pub beyond :
        (i : ℕ)
        → first_invalid_entry F g e ≤ i
        → i < first F g (e + 1)
        → r.incidence_array i ≡ g.incidence_array i

  abbrev pub first_s : (e : ℕ) → first F s e ≡ first F g e
  first_s = start_first F u v g c h apart w live_u live_v k like block

  abbrev pub size_s : (e : ℕ) → edge_size F s e ≡ edge_size F c e
  size_s = start_size F u v g c h apart w live_u live_v k like block

  abbrev pub listed_s : (e x : ℕ) → count e (incident_edges F s x) ≡ count e (incident_edges F c x)
  listed_s = start_incident F u v g c h apart w live_u live_v k like block

  pub first_r : (e : ℕ) → first F r e ≡ first F g e
  first_r e = done.frame.firsts e ∙ first_s e

  module _ (e : ℕ) (n : IsNet F g e) where
    abbrev beyond_s :
        (i : ℕ)
        → first_invalid_entry F c e ≤ i
        → i < first F g (e + 1)
        → s.incidence_array i ≡ c.incidence_array i
    beyond_s i l q = start_beyond F u v g c h apart w live_u live_v k like block e i n l q

    abbrev pins_s : (x : ℕ) → pin_count F s e x ≡ pin_count F c e x
    pins_s x = start_pins F u v g c h apart w live_u live_v k like block e x n

    room : first_invalid_entry F g e ≤ first F g (e + 1)
    room = w.ordered e n.0

    -- A net that `v` was not in.
    same-IsRestored : of_v e ≡ 0 → IsRestored e
    same-IsRestored none =
        let t : F.test s.hes_not_containing_u e ≡ false =
          start_flagged F u v g c h apart w live_u live_v k like block e ∙ ground (arith, none) in
        let d =
          done.unflagged e (rw (start_nets F u v g c h apart w live_u live_v k like block) (n.0))
            t in
        let z = k.same e n.0 none in
        record {
          size = d.size ∙ size_s e ∙ z.size;
          listed = d.listed ∙ listed_s e u ∙ z.listed;
          pins = λ x.
              pin_count-same F u v s r e x done.frame.firsts d
                (rw (first_s e, first_s (e + 1)) (omega (arith, size_s e, z.size, room)))
              ∙ pins_s x
              ∙ same_pins F u v g c h apart w live_u live_v k like block e x n none;
          beyond = λ i l q.
              d.slots i (rw (first_s e) (omega (arith, l))) (rw (first_s (e + 1)) q)
              ∙ beyond_s i (rw (k.firsts e, z.size) l) q
              ∙ z.slots i (omega (arith, l)) q;
        }

    -- A net that lost `v` as its last pin.
    pin-IsRestored : IsCut F u v g c e → IsPinBack F u v s r e → IsRestored e
    pin-IsRestored d b =
        let f = first F g e in
        let n' = edge_size F g e - 1 in
        let size_cut : edge_size F s e ≡ n' = size_s e ∙ d.size in
        let up = inc32_lem (edge_size F s e) (omega (arith, size_cut, w.small e)) in
        let size_r : edge_size F r e ≡ edge_size F g e =
          omega (arith, b.size, size_cut, d.big, up) in
        let longer : edge_size F r e ≡ n' + 1 = omega (arith, size_r, d.big) in
        let slots : (i : ℕ)
            → f ≤ i
            → i < first F g (e + 1)
            → r.incidence_array i ≡ s.incidence_array i =
          λ i l q. b.slots i (rw (first_s e) l) (rw (first_s (e + 1)) q) in
        let last : r.incidence_array (f + n') ≡ v =
          slots (f + n') (omega arith) (omega (arith, room, d.big))
          ∙ beyond_s (f + n') (omega (arith, k.firsts e, d.size)) (omega (arith, room, d.big))
          ∙ d.last in
        record {
          size = size_r;
          listed = b.listed ∙ listed_s e u ∙ d.listed;
          pins = λ x.
              let all : pin_count F r e x ≡ count_in F x r.incidence_array f (n' + 1) =
                rw (first_r e, longer) refl in
              let start_part : pin_count F s e x ≡ count_in F x s.incidence_array f n' =
                rw (first_s e, size_cut) refl in
              let short =
                count_in-cong F x s.incidence_array r.incidence_array f n'
                  (λ i l q. slots i l (omega (arith, q, room, d.big))) in
              omega (
                arith,
                all,
                count_in-suc F x r.incidence_array f n',
                ap (one_if x) last,
                short,
                start_part,
                pins_s x,
                cut_pins F u v g c h apart w live_u live_v k like block e x d,
              );
          beyond = λ i l q.
              slots i (omega (arith, l)) q
              ∙ beyond_s i (omega (arith, k.firsts e, d.size, l)) q
              ∙ d.beyond i l q;
        }

    -- A net in which `u` took the slot of `v`.
    slot-IsRestored : IsGiven F u v g c e → IsSlotBack F u v s r e → IsRestored e
    slot-IsRestored d b =
        let f = first F g e in
        let size_given : edge_size F s e ≡ edge_size F g e = size_s e ∙ d.size in
        let size_r : edge_size F r e ≡ edge_size F g e = b.size ∙ size_given in
        let a = update s.incidence_array b.slot v in
        let slots : (i : ℕ) → f ≤ i → i < first F g (e + 1) → r.incidence_array i ≡ a i =
          λ i l q. b.slots i (rw (first_s e) l) (rw (first_s (e + 1)) q) in
        let low : f ≤ b.slot = rw (first_s e) at b.low in
        let high : b.slot < first_invalid_entry F g e = rw (first_s e, size_given) at b.high in
        record {
          size = size_r;
          listed = omega (arith, b.listed, listed_s e u, d.listed);
          pins = λ x.
              let all : pin_count F r e x ≡ count_in F x r.incidence_array f (edge_size F g e) =
                rw (first_r e, size_r) refl in
              let start_part : pin_count F s e x
                  ≡ count_in F x s.incidence_array f (edge_size F g e) =
                rw (first_s e, size_given) refl in
              let written =
                count_in-cong F x a r.incidence_array f (edge_size F g e)
                  (λ i l q. slots i l (omega (arith, q, room))) in
              omega (
                arith,
                all,
                written,
                count_in-update F x s.incidence_array b.slot v f (edge_size F g e) low high,
                ap (one_if x) b.held,
                start_part,
                pins_s x,
                given_pins F u v g c h apart w live_u live_v k like block e x d,
              );
          beyond = λ i l q.
              slots i (omega (arith, l)) q
              ∙ ground (arith, high, l)
              ∙ beyond_s i (omega (arith, k.firsts e, d.size, l)) q
              ∙ d.beyond i l q;
        }

    -- Which of the two cases it is shows in the slot past the pins.
    no_slot : IsCut F u v g c e → IsSlotBack F u v s r e → ⊥
    no_slot d b =
        let at : first_invalid_entry F s e ≡ first F g e + (edge_size F g e - 1) =
          omega (arith, first_s e, size_s e, d.size) in
        b.cond (omega (arith, at, first_s (e + 1), room, d.big)) (
          ap s.incidence_array at
          ∙ beyond_s (first F g e + (edge_size F g e - 1)) (omega (arith, k.firsts e, d.size))
              (omega (arith, room, d.big))
          ∙ d.last)

    no_pin : IsGiven F u v g c e → IsPinBack F u v s r e → ⊥
    no_pin d b =
        let at : first_invalid_entry F s e ≡ first_invalid_entry F g e =
          omega (arith, first_s e, size_s e, d.size) in
        let below : first_invalid_entry F g e < first F g (e + 1) =
          omega (arith, at, first_s (e + 1), b.cond.0) in
        let here : g.incidence_array (first_invalid_entry F g e) ≡ v =
          sym (d.beyond (first_invalid_entry F g e) (omega arith) below)
          ∙ sym (beyond_s (first_invalid_entry F g e) (omega (arith, k.firsts e, d.size)) below)
          ∙ ap s.incidence_array (sym at)
          ∙ b.cond.1 in
        let off = w.beyond e (first_invalid_entry F g e) n (omega arith) below in
        absurd (ground (arith, off, ap (λ x. (hypernode F g x).valid) here, live_v))

    pub net-IsRestored : IsRestored e
    net-IsRestored = elim (ℕ_discrete (of_v e) 0) [
      | yes none ↦ same-IsRestored none
      | no some_net ↦
          let l : 0 < of_v e = omega (arith, some_net) in
          let i = w.incident e u n live_u in
          let t : F.test s.hes_not_containing_u e ≡ true =
            start_flagged F u v g c h apart w live_u live_v k like block e ∙ ground (arith, l) in
          elim (k.changed e l) [
            | inl d ↦ elim (done.back e (omega (arith, listed_s e u, d.listed, i, d.both)) t) [
              | inl b ↦ pin-IsRestored d b
              | inr b ↦ absurd (no_slot d b)
            ]
            | inr d ↦ elim (done.back e (omega (arith, listed_s e u, d.listed)) t) [
              | inl b ↦ absurd (no_pin d b)
              | inr b ↦ slot-IsRestored d b
            ]
          ]
    ]
