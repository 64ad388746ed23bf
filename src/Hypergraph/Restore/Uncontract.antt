-- ===== src/Hypergraph/Restore/Uncontract.antt =====
-- What the loop of uncontract does, net by net.
use mathlib.Core.Path.{subst}
use kahypar.Prelude.{
  ℕ, suc, ◌+◌, ◌≤◌, ◌<◌, ◌≡◌, ◌≢◌, ◌∙◌, sym, ap, ◌==◌, arith, count, ◌⊎◌, inl, inr, if◌then◌else◌,
  true, false, List, length, drop, Bool,
}
use native.Mathlib.Decide.{ℕ_discrete}
use kahypar.Prelude.Words.{u32_mod, inc32}
use kahypar.Containers.FlagArray.{FlagArray}
use kahypar.Hypergraph.State.{Hypergraph, incident_edges, edge_size, first_invalid_entry}
use kahypar.Hypergraph.Restore.Structure.{first, pin_count}
use kahypar.Hypergraph.Restore.Contract.{pin_count-same}
use kahypar.Hypergraph.Restore.Frames.{IsNetStep, IsNetStep-trans, IsSameNet, IsSameNet-trans}
use kahypar.Hypergraph.Restore.Undone.{IsPinBack, IsSlotBack, IsBeside}

module _ (F : FlagArray) (u v : ℕ) where
  abbrev pub IsBack : Hypergraph F → Hypergraph F → ℕ → Type 0
  IsBack g h e = IsPinBack F u v g h e ⊎ IsSlotBack F u v g h e

  abbrev pub flagged : Hypergraph F → ℕ → Bool
  flagged g e = F.test g.hes_not_containing_u e

  abbrev pub left : Hypergraph F → ℕ → ℕ → ℕ
  left g it e = count e (drop it (incident_edges F g u))

  -- What the loop relies on: `n` nets are left from position `it` on.
  pub record IsOpen (g : Hypergraph F) (n it : ℕ) : Type 0 where
    pub all : length (incident_edges F g u) ≡ it + n
    pub ordered : (e : ℕ) → e < g.num_hyperedges → first_invalid_entry F g e ≤ first F g (e + 1)
    pub once : (e : ℕ) → left g it e ≤ 1
    pub inside : (e : ℕ) → 0 < left g it e → e < g.num_hyperedges
    pub small : (e : ℕ) → 0 < left g it e → edge_size F g e + 1 < u32_mod
    pub pinned : (e : ℕ) → 0 < left g it e → 0 < pin_count F g e u

  pub record IsClosed (g h : Hypergraph F) (it : ℕ) : Type 0 where
    pub frame : IsNetStep F u g h
    pub rest : (e : ℕ) → e < g.num_hyperedges → left g it e ≡ 0 → IsSameNet F u g h e
    pub unflagged :
        (e : ℕ)
        → e < g.num_hyperedges
        → F.test g.hes_not_containing_u e ≡ false
        → IsSameNet F u g h e
    pub back : (e : ℕ) → 0 < left g it e → F.test g.hes_not_containing_u e ≡ true → IsBack g h e
    pub size_there : (e : ℕ) → left g it e ≡ 0 → edge_size F h e ≡ edge_size F g e
    pub listed_there :
        (e : ℕ) → left g it e ≡ 0 → count e (incident_edges F h u) ≡ count e (incident_edges F g u)

  module _ (f g h : Hypergraph F) (e : ℕ) (n : IsNetStep F u f g) where
    back_before :
        IsSameNet F u f g e
        → first_invalid_entry F f e ≤ first F f (e + 1)
        → IsBack g h e
        → IsBack f h e
    back_before s room b = elim b [
      | inl b ↦ inl (record {
        cond =
            let c = rw (n.firsts e, n.firsts (e + 1), s.size) at b.cond in
            (c.0, sym (s.slots _ (omega arith) (c.0)) ∙ c.1);
        size = b.size ∙ ap inc32 s.size;
        slots = λ i l q. b.slots i (rw (n.firsts e) l) (rw (n.firsts (e + 1)) q) ∙ s.slots i l q;
        listed = b.listed ∙ s.listed;
      })
      | inr b ↦
          let high = rw (n.firsts e, s.size) at b.high in
          let low = rw (n.firsts e) at b.low in
          inr (record {
            cond = λ l q.
                let c = rw (n.firsts e, n.firsts (e + 1), s.size) at b.cond in
                c l (s.slots _ (omega arith) l ∙ q);
            size = b.size ∙ s.size;
            slot = b.slot;
            low = low;
            high = high;
            held = sym (s.slots b.slot low (omega (arith, high, room))) ∙ b.held;
            slots = λ i l q.
                b.slots i (rw (n.firsts e) l) (rw (n.firsts (e + 1)) q)
                ∙ ground (arith, s.slots i l q);
            listed = b.listed ∙ s.listed;
          })
    ]

    back_after : IsSameNet F u g h e → IsBack f g e → IsBack f h e
    back_after s b =
        let slots : (i : ℕ)
            → first F f e ≤ i
            → i < first F f (e + 1)
            → h.incidence_array i ≡ g.incidence_array i =
          λ i l q. s.slots i (rw (n.firsts e) l) (rw (n.firsts (e + 1)) q) in
        elim b [
          | inl b ↦ inl (record {
            cond = b.cond;
            size = s.size ∙ b.size;
            slots = λ i l q. slots i l q ∙ b.slots i l q;
            listed = s.listed ∙ b.listed;
          })
          | inr b ↦ inr (record {
            cond = b.cond;
            size = s.size ∙ b.size;
            slot = b.slot;
            low = b.low;
            high = b.high;
            held = b.held;
            slots = λ i l q. slots i l q ∙ b.slots i l q;
            listed = ap (λ (t : ℕ). t + 1) s.listed ∙ b.listed;
          })
        ]

  module _ (g g' : Hypergraph F) (he : ℕ) (nets : List ℕ) (n it it' : ℕ) (o : IsOpen g (suc n) it)
      (inside : he < g.num_hyperedges) (b : IsBeside F u g g' he nets)
      (others : (e : ℕ) → e < g.num_hyperedges → he ≢ e → IsSameNet F u g g' e)
      (now : flagged g he ≡ true → IsBack g g' he)
      (plain : flagged g he ≡ false → IsSameNet F u g g' he)
      (less : (e : ℕ) → left g' it' e + (if e == he then 1 else 0) ≡ left g it e)
      (keep : (e : ℕ) → he ≢ e → count e nets ≡ count e (incident_edges F g u))
      (room : first_invalid_entry F g' he ≤ first F g (he + 1)) (all : length nets ≡ it' + n) where
    here_once : left g' it' he ≡ 0
    here_once = ground (arith, less he, o.once he)

    still : (e : ℕ) → 0 < left g' it' e → (he ≢ e) × (0 < left g it e)
    still e l = (λ q. absurd (ground (arith, here_once, q, l)), omega (arith, less e, l))

    next-IsOpen : IsOpen g' n it'
    next-IsOpen = record {
      all = ap length b.list ∙ all;
      ordered = λ e q.
          let q' : e < g.num_hyperedges = rw (b.frame.nets) at q in
          elim (ℕ_discrete he e) [
            | yes eq ↦
                subst (λ j. first_invalid_entry F g' j ≤ first F g' (j + 1)) eq
                  (rw (b.frame.firsts (he + 1)) room)
            | no ne ↦ rw (b.frame.firsts e, b.frame.firsts (e + 1), b.sizes e ne) (o.ordered e q')
          ];
      once = λ e. omega (arith, less e, o.once e);
      inside = λ e l. rw (b.frame.nets) (o.inside e (still e l).1);
      small = λ e l. let s = still e l in rw (b.sizes e s.0) (o.small e s.1);
      pinned = λ e l.
          let s = still e l in
          let q = o.inside e s.1 in
          rw (pin_count-same F u v g g' e u b.frame.firsts (others e q s.0) (o.ordered e q))
            (o.pinned e s.1);
    }

    next-IsClosed : (h : Hypergraph F) → IsClosed g' h it' → IsClosed g h it
    next-IsClosed h c = record {
      frame = IsNetStep-trans F u b.frame c.frame;
      rest = λ e q none.
          let ne : he ≢ e = λ eq. absurd (ground (arith, less e, none, eq)) in
          IsSameNet-trans F u e b.frame (others e q ne)
            (c.rest e (rw (b.frame.nets) q) (omega (arith, less e, none)));
      unflagged = λ e q t.
          let t' : flagged g' e ≡ false = rw (b.flags) t in
          elim (ℕ_discrete he e) [
            | yes eq ↦
                IsSameNet-trans F u e b.frame
                  (subst (λ j. IsSameNet F u g g' j) eq (plain (ap (flagged g) eq ∙ t)))
                  (c.unflagged e (rw (b.frame.nets) q) t')
            | no ne ↦
                IsSameNet-trans F u e b.frame (others e q ne)
                  (c.unflagged e (rw (b.frame.nets) q) t')
          ];
      back = λ e l t. elim (ℕ_discrete he e) [
        | yes eq ↦
            subst (λ j. IsBack g h j) eq
              (back_after g g' h he b.frame (c.rest he (rw (b.frame.nets) inside) here_once)
                (now (ap (flagged g) eq ∙ t)))
        | no ne ↦
            let q = o.inside e l in
            back_before g g' h e b.frame (others e q ne) (o.ordered e q)
              (c.back e (ground (arith, less e, l, ne)) (rw (b.flags) t))
      ];
      size_there = λ e none.
          let ne : he ≢ e = λ eq. absurd (ground (arith, less e, none, eq)) in
          c.size_there e (omega (arith, less e, none)) ∙ b.sizes e ne;
      listed_there = λ e none.
          let ne : he ≢ e = λ eq. absurd (ground (arith, less e, none, eq)) in
          c.listed_there e (omega (arith, less e, none)) ∙ ap (count e) b.list ∙ keep e ne;
    }

    -- A round, and the rest of the loop.
    pub round-IsClosed :
        (h : Hypergraph F) → (IsOpen g' n it' → IsClosed g' h it') → IsClosed g h it
    round-IsClosed h loop = next-IsClosed h (loop next-IsOpen)
