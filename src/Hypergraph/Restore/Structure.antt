-- ===== src/Hypergraph/Restore/Structure.antt =====
-- The structure of the hypergraph: what contract asks of it, and when two are alike.
use kahypar.Prelude.{
  ℕ, zero, suc, ◌+◌, ◌-◌, ◌≤◌, inl, inr, ltb, ltb→lt, Bool-cases, ◌<◌, ◌≡◌, ◌≢◌, refl, true, false,
  arith, count,
}
use kahypar.Prelude.Words.{u32_mod}
use kahypar.Containers.FlagArray.{FlagArray}
use kahypar.Hypergraph.State.{
  Hypergraph, hypernode, hyperedge, incident_edges, edge_size, first_invalid_entry,
}
use kahypar.Hypergraph.Restore.Slices.{count_in}

module _ (F : FlagArray) where
  abbrev pub first : Hypergraph F → ℕ → ℕ
  first g e = (hyperedge F g e).first

  -- An enabled net.
  abbrev pub IsNet : Hypergraph F → ℕ → Type 0
  IsNet g e = (e < g.num_hyperedges) × ((hyperedge F g e).valid ≡ true)

  -- How often `x` is a pin of net `e`.
  abbrev pub pin_count : Hypergraph F → ℕ → ℕ → ℕ
  pin_count g e x = count_in F x g.incidence_array (first g e) (edge_size F g e)

  -- Nets have disjoint ranges of slots; an enabled net has enabled pins, each once, and past them only
  -- hypernodes that were cut off; it is listed at its pins; sizes have
  -- room in 32 bits.
  pub record IsFormed (g : Hypergraph F) : Type 0 where
    pub ordered : (e : ℕ) → e < g.num_hyperedges → first_invalid_entry F g e ≤ first g (e + 1)
    pub once : (e x : ℕ) → IsNet g e → pin_count g e x ≤ 1
    pub pins_enabled : (e x : ℕ) → IsNet g e → 0 < pin_count g e x → (hypernode F g x).valid ≡ true
    pub beyond :
        (e i : ℕ)
        → IsNet g e
        → first_invalid_entry F g e ≤ i
        → i < first g (e + 1)
        → (hypernode F g (g.incidence_array i)).valid ≡ false
    pub incident :
        (e x : ℕ)
        → IsNet g e
        → (hypernode F g x).valid ≡ true
        → count e (incident_edges F g x) ≡ pin_count g e x
    pub listed :
        (e x : ℕ) → (hypernode F g x).valid ≡ true → 0 < count e (incident_edges F g x) → IsNet g e
    pub small : (e : ℕ) → edge_size F g e + 1 < u32_mod

  -- The same nets, hypernodes and incidences, up to the order of the pins of a net and of the nets of
  -- a hypernode; the slots past the pins are the same.
  pub record IsLike (g h : Hypergraph F) : Type 0 where
    pub nets : h.num_hyperedges ≡ g.num_hyperedges
    pub order : h.num_hypernodes ≡ g.num_hypernodes
    pub firsts : (e : ℕ) → first h e ≡ first g e
    pub size : (e : ℕ) → edge_size F h e ≡ edge_size F g e
    pub live : (e : ℕ) → (hyperedge F h e).valid ≡ (hyperedge F g e).valid
    pub enabled : (x : ℕ) → (hypernode F h x).valid ≡ (hypernode F g x).valid
    pub weight : (x : ℕ) → (hypernode F h x).weight ≡ (hypernode F g x).weight
    pub incident : (e x : ℕ) → count e (incident_edges F h x) ≡ count e (incident_edges F g x)
    pub pins : (e x : ℕ) → IsNet g e → pin_count h e x ≡ pin_count g e x
    pub beyond :
        (e i : ℕ)
        → IsNet g e
        → first_invalid_entry F g e ≤ i
        → i < first g (e + 1)
        → h.incidence_array i ≡ g.incidence_array i

  pub IsLike-refl : (g : Hypergraph F) → IsLike g g
  IsLike-refl g = record {
    nets = refl;
    order = refl;
    firsts = λ e. refl;
    size = λ e. refl;
    live = λ e. refl;
    enabled = λ x. refl;
    weight = λ x. refl;
    incident = λ e x. refl;
    pins = λ e x n. refl;
    beyond = λ e i n l h. refl;
  }

  -- The ranges of the nets are in the order of the nets.
  module _ (g : Hypergraph F)
      (ordered : (e : ℕ) → e < g.num_hyperedges → first_invalid_entry F g e ≤ first g (e + 1)) where
    first_mono : (d e : ℕ) → e + d < g.num_hyperedges → first g (e + 1) ≤ first g (e + d + 1)
    first_mono zero e h = let z : e + 0 ≡ e = omega arith in rw z (omega arith)
    first_mono (suc d) e h =
        let z : e + suc d ≡ e + d + 1 = omega arith in
        rw z (omega (arith, first_mono d e (omega arith), ordered (e + d + 1) (rw z at h)))

    range_before :
        (i e e' : ℕ) → e < g.num_hyperedges → e' < e → first g e ≤ i → first g (e' + 1) ≤ i
    range_before i e e' h l low =
        let z : e' + (e - e' - 1) + 1 ≡ e = omega arith in
        let m = first_mono (e - e' - 1) e' (omega arith) in omega (arith, rw z at m)

    -- A slot belongs to one net.
    pub ranges_apart :
        (e e' i : ℕ)
        → e < g.num_hyperedges
        → e' < g.num_hyperedges
        → e ≢ e'
        → first g e ≤ i
        → i < first g (e + 1)
        → first g e' ≤ i
        → first g (e' + 1) ≤ i
    ranges_apart e e' i h h' ne low high low' = elim (Bool-cases (ltb e e')) [
      | inl l ↦
          let b = range_before i e' e h' (ltb→lt e e' l) low' in absurd (omega (arith, b, high))
      | inr l ↦ range_before i e e' h (ground (arith, ne, l)) low
    ]
