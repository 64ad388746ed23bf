-- ===== src/Hypergraph/Restore/Start.antt =====
-- The hypergraph that the loop of uncontract starts from, against the one before the contraction.
use kahypar.Prelude.{ℕ, ◌+◌, ◌≤◌, ◌<◌, ◌≡◌, ◌≢◌, ◌∙◌, ap, arith, count, inl, inr, true, ltb, length}
use native.Mathlib.Decide.{ℕ_discrete}
use kahypar.Containers.FlagArray.{FlagArray}
use kahypar.Hypergraph.State.{Hypergraph, hypernode, incident_edges, edge_size, first_invalid_entry}
use kahypar.Hypergraph.Restore.Slices.{one_if}
use kahypar.Hypergraph.Restore.Structure.{first, pin_count, IsNet, IsFormed, IsLike}
use kahypar.Hypergraph.Restore.Contracted.{IsCut, IsGiven}
use kahypar.Hypergraph.Restore.Contract.{pin_count-same}
use kahypar.Hypergraph.Restore.Contraction.{IsContraction}
use kahypar.Hypergraph.Restore.Uncontract.{IsOpen}
use kahypar.Hypergraph.Restore.Memento.{flagged_start, start-IsKept, start_flags}

module _ (F : FlagArray) (u v : ℕ) (g c h : Hypergraph F) (apart : u ≢ v) (w : IsFormed F g)
    (live_u : (hypernode F g u).valid ≡ true) (live_v : (hypernode F g v).valid ≡ true)
    (k : IsContraction F u v g c) (like : IsLike F c h) (block : ℕ) where
  abbrev pub start : Hypergraph F
  start = flagged_start F h u v block

  abbrev of_v : ℕ → ℕ
  of_v e = count e (incident_edges F g v)

  -- The nets and slots of `start` are those of `h`.
  pub start_first : (e : ℕ) → first F start e ≡ first F g e
  start_first e =
      ap (λ es. (es e).first) (start-IsKept F h u v block).hyperedges_same
      ∙ like.firsts e
      ∙ k.firsts e

  pub start_size : (e : ℕ) → edge_size F start e ≡ edge_size F c e
  start_size e = ap (λ es. (es e).size) (start-IsKept F h u v block).hyperedges_same ∙ like.size e

  pub start_nets : start.num_hyperedges ≡ g.num_hyperedges
  start_nets = (start-IsKept F h u v block).nets ∙ like.nets ∙ k.nets

  pub start_slots : (i : ℕ) → start.incidence_array i ≡ h.incidence_array i
  start_slots i = ap (λ a. a i) (start-IsKept F h u v block).slots_same

  pub start_incident :
      (e x : ℕ) → count e (incident_edges F start x) ≡ count e (incident_edges F c x)
  start_incident e x =
      let s = ap (λ xs. (xs x).incident_nets) (start-IsKept F h u v block).hypernodes_same in
      ap (count e) s ∙ ground arith ∙ like.incident e x

  pub start_flagged : (e : ℕ) → F.test start.hes_not_containing_u e ≡ ltb 0 (of_v e)
  start_flagged e =
      start_flags F h u v block e ∙ ap (ltb 0) (like.incident e v ∙ ap (count e) (k.others v apart))

  pub is_net : (e : ℕ) → 0 < of_v e → IsNet F g e
  is_net e l = w.listed e v live_v l

  still-IsNet : (e : ℕ) → IsNet F g e → IsNet F c e
  still-IsNet e n = (rw (k.nets) (n.0), k.live e ∙ n.1)

  -- The pins that the net has after the contraction.
  pub start_pins : (e x : ℕ) → IsNet F g e → pin_count F start e x ≡ pin_count F c e x
  start_pins e x n =
      let s = start-IsKept F h u v block in
      rw (s.hyperedges_same, s.slots_same) (like.pins e x (still-IsNet e n))

  pub start_beyond :
      (e i : ℕ)
      → IsNet F g e
      → first_invalid_entry F c e ≤ i
      → i < first F g (e + 1)
      → start.incidence_array i ≡ c.incidence_array i
  start_beyond e i n l q =
      start_slots i ∙ like.beyond e i (still-IsNet e n) l (rw (k.firsts (e + 1)) q)

  pub same_pins : (e x : ℕ) → IsNet F g e → of_v e ≡ 0 → pin_count F c e x ≡ pin_count F g e x
  same_pins e x n none = pin_count-same F u v g c e x k.firsts (k.same e n.0 none) (w.ordered e n.0)

  pub cut_pins :
      (e x : ℕ) → (d : IsCut F u v g c e) → pin_count F c e x + one_if x v ≡ pin_count F g e x
  cut_pins e x d = rw (k.firsts e, d.size) (d.pins x)

  pub given_pins :
      (e x : ℕ)
      → (d : IsGiven F u v g c e) → pin_count F c e x + one_if x v ≡ pin_count F g e x + one_if x u
  given_pins e x d = rw (k.firsts e, d.size) (d.pins x)

  pub size_le : (e : ℕ) → edge_size F c e ≤ edge_size F g e
  size_le e = elim (ℕ_discrete (of_v e) 0) [
    | yes none ↦ omega (arith, k.size_there e none)
    | no some_net ↦ elim (k.changed e (omega (arith, some_net))) [
      | inl d ↦ omega (arith, d.size)
      | inr d ↦ omega (arith, d.size)
    ]
  ]

  -- A net listed at `u` after the contraction.
  pub listed_u :
      (e : ℕ)
      → 0 < count e (incident_edges F c u)
      → IsNet F g e × (0 < pin_count F c e u) × (count e (incident_edges F c u) ≤ 1)
  listed_u e l = elim (ℕ_discrete (of_v e) 0) [
    | yes none ↦
        let t = k.listed_there e none in
        let n = w.listed e u live_u (omega (arith, t, l)) in
        let i = w.incident e u n live_u in
        (n, omega (arith, same_pins e u n none, i, t, l), omega (arith, t, i, w.once e u n))
    | no some_net ↦
        let n = is_net e (omega (arith, some_net)) in
        let i = w.incident e u n live_u in
        elim (k.changed e (omega (arith, some_net))) [
          | inl d ↦ (
            n,
            ground (arith, cut_pins e u d, d.both, apart),
            omega (arith, d.listed, i, w.once e u n),
          )
          | inr d ↦ (n, ground (arith, given_pins e u d, apart), omega (arith, d.listed, i, d.only))
        ]
  ]

  pub start-IsOpen : IsOpen F u v start (length (incident_edges F start u)) 0
  start-IsOpen = record {
    all = omega arith;
    ordered = λ e inside.
        let inside' : e < g.num_hyperedges = rw start_nets at inside in
        rw (start_first e, start_first (e + 1))
          (omega (arith, start_size e, size_le e, w.ordered e inside'));
    once = λ e. elim (ℕ_discrete (count e (incident_edges F c u)) 0) [
      | yes none ↦ omega (arith, start_incident e u, none)
      | no some_net ↦ omega (arith, start_incident e u, (listed_u e (omega (arith, some_net))).2)
    ];
    inside = λ e l. rw start_nets ((listed_u e (rw (start_incident e u) at l)).0.0);
    small = λ e l. omega (arith, start_size e, size_le e, w.small e);
    pinned =
        λ e l. let (n, p, o) = listed_u e (rw (start_incident e u) at l) in rw (start_pins e u n) p;
  }
