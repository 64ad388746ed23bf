-- ===== src/Hypergraph/Restore/Kept.antt =====
-- The structure of the hypergraph after a contraction.
use mathlib.Core.Path.{subst}
use kahypar.Prelude.{
  ℕ, ◌+◌, ◌-◌, ◌≤◌, ◌<◌, ◌≡◌, ◌≢◌, ◌∙◌, sym, ap, ◌==◌, arith, count, inl, inr, if◌then◌else◌, true,
  false,
}
use native.Mathlib.Decide.{ℕ_discrete}
use kahypar.Containers.FlagArray.{FlagArray}
use kahypar.Hypergraph.State.{Hypergraph, hypernode, incident_edges, edge_size, first_invalid_entry}
use kahypar.Hypergraph.Restore.Structure.{first, pin_count, IsNet, IsFormed, IsLike-refl}
use kahypar.Hypergraph.Restore.Contraction.{IsContraction, nets-once}
use kahypar.Hypergraph.Restore.Start.{same_pins, cut_pins, given_pins, size_le, listed_u}

module _ (F : FlagArray) (u v : ℕ) (g c : Hypergraph F) (apart : u ≢ v) (w : IsFormed F g)
    (live_u : (hypernode F g u).valid ≡ true) (live_v : (hypernode F g v).valid ≡ true)
    (k : IsContraction F u v g c) where
  abbrev of_v : ℕ → ℕ
  of_v e = count e (incident_edges F g v)

  -- The pins of a net: `v` leaves, and `u` may come.
  record IsChange (e : ℕ) : Type 0 where
    gain : ℕ
    pins :
        (x : ℕ)
        → pin_count F c e x + (if x == v then of_v e else 0)
          ≡ pin_count F g e x + (if x == u then gain else 0)
    listed : count e (incident_edges F c u) ≡ count e (incident_edges F g u) + gain
    only : gain + pin_count F g e u ≤ 1
    beyond :
        (i : ℕ)
        → first_invalid_entry F c e ≤ i
        → i < first F g (e + 1)
        → (hypernode F c (c.incidence_array i)).valid ≡ false

  change : (e : ℕ) → IsNet F g e → IsChange e
  change e n = elim (ℕ_discrete (of_v e) 0) [
    | yes no_net ↦
        let z = k.same e n.0 no_net in
        record {
          gain = 0;
          pins = λ x. ground (
            arith,
            same_pins F u v g c c apart w live_u live_v k (IsLike-refl F c) 0 e x n no_net,
            no_net,
          );
          listed = omega (arith, z.listed);
          only = omega (arith, w.once e u n);
          beyond = λ i l q.
              let l' : first_invalid_entry F g e ≤ i = rw (k.firsts e, z.size) at l in
              let off = w.beyond e i n l' q in
              let at = ap (λ x. (hypernode F g x).valid) (z.slots i (omega (arith, l')) q) in
              ground (arith, k.enabled (c.incidence_array i), at, off);
        }
    | no some_net ↦
        let l : 0 < of_v e = omega (arith, some_net) in
        let one = nets-once F (λ x. x) g u v apart w live_v e in
        elim (k.changed e l) [
          | inl d ↦ record {
            gain = 0;
            pins = λ x. ground (
              arith,
              cut_pins F u v g c c apart w live_u live_v k (IsLike-refl F c) 0 e x d,
              one,
              l,
            );
            listed = omega (arith, d.listed);
            only = omega (arith, w.once e u n);
            beyond = λ i m q. elim (ℕ_discrete i (first F g e + (edge_size F g e - 1))) [
              | yes here ↦
                  ground (arith, k.enabled (c.incidence_array i), ap c.incidence_array here, d.last)
              | no there ↦
                  let m' : first_invalid_entry F g e ≤ i =
                    omega (arith, m, k.firsts e, d.size, d.big, there) in
                  let off = w.beyond e i n m' q in
                  let at = ap (λ x. (hypernode F g x).valid) (d.beyond i m' q) in
                  ground (arith, k.enabled (c.incidence_array i), at, off)
            ];
          }
          | inr d ↦ record {
            gain = 1;
            pins = λ x. ground (
              arith,
              given_pins F u v g c c apart w live_u live_v k (IsLike-refl F c) 0 e x d,
              one,
              l,
            );
            listed = d.listed;
            only = omega (arith, d.only);
            beyond = λ i m q.
                let m' : first_invalid_entry F g e ≤ i = rw (k.firsts e, d.size) at m in
                let off = w.beyond e i n m' q in
                let at = ap (λ x. (hypernode F g x).valid) (d.beyond i m' q) in
                ground (arith, k.enabled (c.incidence_array i), at, off);
          }
        ]
  ]

  old-IsNet : (e : ℕ) → IsNet F c e → IsNet F g e
  old-IsNet e n = (rw (k.nets) at n.0, sym (k.live e) ∙ n.1)

  -- `v` is in no net any more.
  v_gone : (e : ℕ) → IsNet F g e → pin_count F c e v ≡ 0
  v_gone e n = let d = change e n in ground (arith, d.pins v, w.incident e v n live_v, apart)

  -- Contracting keeps the structure well formed.
  pub contraction-IsFormed : IsFormed F c
  contraction-IsFormed = record {
    ordered = λ e inside.
        rw (k.firsts e, k.firsts (e + 1))
          (omega (
            arith,
            size_le F u v g c c apart w live_u live_v k (IsLike-refl F c) 0 e,
            w.ordered e (rw (k.nets) at inside),
          ));
    once = λ e x n.
        let n' = old-IsNet e n in
        let d = change e n' in ground (arith, d.pins x, d.only, w.once e x n');
    pins_enabled = λ e x n l.
        let n' = old-IsNet e n in
        let d = change e n' in
        ground (arith, d.pins x, k.enabled x, v_gone e n', w.pins_enabled e x n', l, live_u);
    beyond = λ e i n l q. (change e (old-IsNet e n)).beyond i l (rw (k.firsts (e + 1)) at q);
    incident = λ e x n live.
        let n' = old-IsNet e n in
        let d = change e n' in
        elim (ℕ_discrete u x) [
          | yes q ↦
              subst (λ y. count e (incident_edges F c y) ≡ pin_count F c e y) q
                (ground (arith, d.listed, d.pins u, w.incident e u n' live_u, apart))
          | no ne ↦
              let other : v ≢ x = λ q. absurd (ground (arith, k.enabled x, live, q)) in
              let live' : (hypernode F g x).valid ≡ true = ground (arith, k.enabled x, live) in
              ap (count e) (k.others x ne)
              ∙ ground (arith, d.pins x, w.incident e x n' live', ne, other)
        ];
    listed = λ e x live l.
        let n : IsNet F g e = elim (ℕ_discrete u x) [
          | yes q ↦
              (listed_u F u v g c c apart w live_u live_v k (IsLike-refl F c) 0 e
                (subst (λ y. 0 < count e (incident_edges F c y)) (sym q) l)).0
          | no ne ↦ w.listed e x (ground (arith, k.enabled x, live)) (rw (k.others x ne) at l)
        ] in
        (rw (k.nets) (n.0), k.live e ∙ n.1);
    small = λ e.
        omega (arith, size_le F u v g c c apart w live_u live_v k (IsLike-refl F c) 0 e, w.small e);
  }
