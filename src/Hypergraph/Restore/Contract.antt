-- ===== src/Hypergraph/Restore/Contract.antt =====
-- What the loop of contract does, net by net.
use kahypar.Prelude.{
  ℕ, ◌+◌, ◌-◌, ◌≤◌, ◌<◌, ◌≡◌, ◌≢◌, refl, ◌∙◌, sym, ap, ◌==◌, arith, count, inl, inr, if◌then◌else◌,
  List, [], ◌∷◌,
}
use mathlib.Core.Path.{subst}
use native.Mathlib.Decide.{ℕ_discrete}
use kahypar.Prelude.Words.{u32_mod}
use kahypar.Containers.FlagArray.{FlagArray}
use kahypar.Hypergraph.State.{Hypergraph, incident_edges, edge_size, first_invalid_entry}
use kahypar.Hypergraph.Contraction.{contract_net, contract_nets}
use kahypar.Hypergraph.Restore.Slices.{count_in-cong}
use kahypar.Hypergraph.Restore.Structure.{first, pin_count, ranges_apart}
use kahypar.Hypergraph.Restore.Frames.{
  IsNetStep, IsNetStep-refl, IsNetStep-trans, IsSameNet, IsSameNet-refl, IsSameNet-trans,
  contract_net-IsNetStep, contract_net-size,
}
use kahypar.Hypergraph.Restore.Contracted.{
  IsContracted, contract_net-IsContracted, contract_net-elsewhere,
}

module _ (F : FlagArray) (u v : ℕ) where
  pub pin_count-same :
      (f g : Hypergraph F) (e x : ℕ)
      → ((j : ℕ) → first F g j ≡ first F f j)
      → IsSameNet F u f g e
      → first_invalid_entry F f e ≤ first F f (e + 1)
      → pin_count F g e x ≡ pin_count F f e x
  pin_count-same f g e x n s room =
      rw (n e, s.size)
        (count_in-cong F x f.incidence_array g.incidence_array (first F f e) (edge_size F f e)
          (λ j l h. s.slots j l (omega (arith, h, room))))

  pub IsContracted-before :
      (f g h : Hypergraph F) (e : ℕ)
      → ((j : ℕ) → first F g j ≡ first F f j)
      → IsSameNet F u f g e
      → first_invalid_entry F f e ≤ first F f (e + 1)
      → IsContracted F u v g h e
      → IsContracted F u v f h e
  IsContracted-before f g h e n s room c =
      let same = λ (x : ℕ). pin_count-same f g e x n s room in
      let kept = λ (x : ℕ).
        count_in-cong F x f.incidence_array g.incidence_array (first F f e) (edge_size F f e)
          (λ j l h. s.slots j l (omega (arith, h, room))) in
      elim c [
        | inl c ↦ inl (record {
          both = rw (same u) at c.both;
          big = rw (s.size) at c.big;
          size = rw (s.size) at c.size;
          last = rw (n e, s.size) at c.last;
          pins = λ x. rw (n e, s.size) at (c.pins x) ∙ kept x;
          beyond = λ i l h.
              c.beyond i (rw (n e, s.size) l) (rw (n (e + 1)) h) ∙ s.slots i (omega (arith, l)) h;
          listed = c.listed ∙ s.listed;
        })
        | inr c ↦ inr (record {
          only = sym (same u) ∙ c.only;
          size = c.size ∙ s.size;
          pins = λ x.
              rw (n e, s.size) at (c.pins x)
              ∙ ap (λ (t : ℕ). t + (if x == u then 1 else 0)) (kept x);
          beyond = λ i l h.
              c.beyond i (rw (n e, s.size) l) (rw (n (e + 1)) h) ∙ s.slots i (omega (arith, l)) h;
          listed = c.listed ∙ ap (λ (t : ℕ). t + 1) s.listed;
        })
      ]

  IsContracted-after :
      (f g h : Hypergraph F) (e : ℕ)
      → IsNetStep F u f g
      → IsSameNet F u g h e
      → first_invalid_entry F f e ≤ first F f (e + 1)
      → IsContracted F u v f g e
      → IsContracted F u v f h e
  IsContracted-after f g h e n s room c =
      let slots : (i : ℕ)
          → first F f e ≤ i
          → i < first F f (e + 1)
          → h.incidence_array i ≡ g.incidence_array i =
        λ i l q. s.slots i (rw (n.firsts e) l) (rw (n.firsts (e + 1)) q) in
      elim c [
        | inl c ↦ inl (record {
          both = c.both;
          big = c.big;
          size = s.size ∙ c.size;
          last = slots _ (omega arith) (omega (arith, c.big, room)) ∙ c.last;
          pins = λ x.
              let t =
                count_in-cong F x g.incidence_array h.incidence_array (first F f e)
                  (edge_size F f e - 1) (λ j l q. slots j l (omega (arith, q, room))) in
              rw t (c.pins x);
          beyond = λ i l q. slots i (omega (arith, l)) q ∙ c.beyond i l q;
          listed = s.listed ∙ c.listed;
        })
        | inr c ↦ inr (record {
          only = c.only;
          size = s.size ∙ c.size;
          pins = λ x.
              let t =
                count_in-cong F x g.incidence_array h.incidence_array (first F f e)
                  (edge_size F f e) (λ j l q. slots j l (omega (arith, q, room))) in
              rw t (c.pins x);
          beyond = λ i l q. slots i (omega (arith, l)) q ∙ c.beyond i l q;
          listed = s.listed ∙ c.listed;
        })
      ]

  -- The nets that the loop still visits hold `v` once.
  pub record IsReady (g : Hypergraph F) (hes : List ℕ) : Type 0 where
    pub ordered : (e : ℕ) → e < g.num_hyperedges → first_invalid_entry F g e ≤ first F g (e + 1)
    pub each :
        (e : ℕ)
        → 0 < count e hes
        → (e < g.num_hyperedges) × (pin_count F g e v ≡ 1) × (edge_size F g e < u32_mod)

  pub record IsDone (g h : Hypergraph F) (hes : List ℕ) : Type 0 where
    pub frame : IsNetStep F u g h
    pub same : (e : ℕ) → e < g.num_hyperedges → count e hes ≡ 0 → IsSameNet F u g h e
    pub changed : (e : ℕ) → 0 < count e hes → IsContracted F u v g h e
    pub size_there : (e : ℕ) → count e hes ≡ 0 → edge_size F h e ≡ edge_size F g e
    pub listed_there :
        (e : ℕ) → count e hes ≡ 0 → count e (incident_edges F h u) ≡ count e (incident_edges F g u)

  module _ (hash : ℕ → ℕ) (apart : u ≢ v) where
    step_same :
        (g : Hypergraph F) (x : ℕ) (hes : List ℕ)
        → IsReady g (x ∷ hes)
        → (e : ℕ) → e < g.num_hyperedges
        → x ≢ e
        → IsSameNet F u g (contract_net F hash g u v x) e
    unfolding count
    step_same g x hes r e inside ne =
        let here = r.each x (ground arith) in
        let out = contract_net-elsewhere F u v hash g x apart (here.1) (here.2) in
        record {
          size = contract_net-size F u hash g v x e ne;
          slots = λ i l h. out.0 i (λ low. omega (
            arith,
            r.ordered x here.0,
            ranges_apart F g r.ordered e x i inside here.0 (λ q. ne (sym q)) l h low,
          ));
          listed = out.1 e ne;
        }

    step-IsReady :
        (g : Hypergraph F) (x : ℕ) (hes : List ℕ)
        → IsReady g (x ∷ hes)
        → ((e : ℕ) → count e (x ∷ hes) ≤ 1)
        → IsReady (contract_net F hash g u v x) hes
    unfolding count
    step-IsReady g x hes r once =
        let g' = contract_net F hash g u v x in
        let n = contract_net-IsNetStep F u hash g v x in
        let here = r.each x (ground arith) in
        let c = contract_net-IsContracted F u v hash g x apart (here.1) (here.2) in
        let shorter : edge_size F g' x ≤ edge_size F g x = elim c [
          | inl c ↦ omega (arith, c.size)
          | inr c ↦ omega (arith, c.size)
        ] in
        let at_x : first_invalid_entry F g' x ≤ first F g' (x + 1) =
          rw (n.firsts x, n.firsts (x + 1)) (omega (arith, shorter, r.ordered x here.0)) in
        record {
          ordered = λ e inside.
              let inside' : e < g.num_hyperedges = rw (n.nets) at inside in
              elim (ℕ_discrete x e) [
                | yes q ↦ subst (λ j. first_invalid_entry F g' j ≤ first F g' (j + 1)) q at_x
                | no ne ↦
                    rw (n.firsts e, n.firsts (e + 1), contract_net-size F u hash g v x e ne)
                      (r.ordered e inside')
              ];
          each = λ e l.
              let ne : x ≢ e = λ q. absurd (ground (arith, once e, q, l)) in
              let old = r.each e (ground (arith, l)) in
              (
                rw (n.nets) (old.0),
                pin_count-same g g' e v n.firsts (step_same g x hes r e old.0 ne)
                      (r.ordered e old.0)
                    ∙ old.1,
                rw (contract_net-size F u hash g v x e ne) (old.2),
              );
        }

    -- The loop leaves a net that it does not visit as it was, and contracts the others.
    pub contract_nets-IsDone :
        (hes : List ℕ) (g : Hypergraph F)
        → IsReady g hes
        → ((e : ℕ) → count e hes ≤ 1)
        → IsDone g (contract_nets F hash g u v hes) hes
    unfolding contract_nets count
    contract_nets-IsDone [] g r once = record {
      frame = IsNetStep-refl F u g;
      same = λ e inside none. IsSameNet-refl F u g e;
      changed = λ e l. absurd (omega arith);
      size_there = λ e none. refl;
      listed_there = λ e none. refl;
    }
    contract_nets-IsDone (x ∷ hes) g r once =
        let g' = contract_net F hash g u v x in
        let h = contract_nets F hash g' u v hes in
        let n = contract_net-IsNetStep F u hash g v x in
        let here = r.each x (ground arith) in
        let c = contract_net-IsContracted F u v hash g x apart (here.1) (here.2) in
        let d =
          contract_nets-IsDone hes g' (step-IsReady g x hes r once) (λ e. omega (arith, once e)) in
        record {
          frame = IsNetStep-trans F u n d.frame;
          same = λ e inside none.
              IsSameNet-trans F u e n (step_same g x hes r e inside (λ q. ground (arith, q, none)))
                (d.same e (rw (n.nets) inside) (omega (arith, none)));
          changed = λ e l. elim (ℕ_discrete x e) [
            | yes q ↦
                subst (λ j. IsContracted F u v g h j) q
                  (IsContracted-after g g' h x n
                    (d.same x (rw (n.nets) (here.0)) (ground (arith, once x))) (r.ordered x here.0)
                    c)
            | no ne ↦
                let old = r.each e l in
                IsContracted-before g g' h e n.firsts (step_same g x hes r e old.0 ne)
                  (r.ordered e old.0) (d.changed e (ground (arith, l, ne)))
          ];
          size_there = λ e none.
              d.size_there e (omega (arith, none))
              ∙ contract_net-size F u hash g v x e (λ q. ground (arith, q, none));
          listed_there = λ e none.
              let out = contract_net-elsewhere F u v hash g x apart (here.1) (here.2) in
              d.listed_there e (omega (arith, none)) ∙ out.1 e (λ q. ground (arith, q, none));
        }
