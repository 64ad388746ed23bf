-- ===== src/Hypergraph/Shape.antt =====
-- What the block assignment never touches: the structure of the hypergraph.
use kahypar.Prelude.{
  ℕ, zero, suc, ◌+◌, ap, length, ◌≡◌, refl, ◌∙◌, Bool, true, false, if◌then◌else◌, arith,
}
use kahypar.Prelude.Arrays.{Array}
use kahypar.Containers.ConnectivitySet.{ConnectivitySet}
use kahypar.Containers.FlagArray.{FlagArray}
use kahypar.Hypergraph.State.{
  Hypergraph, hypernode, hyperedge, set_hypernode, set_hyperedge, pins, slice,
}

pub length-slice : (F : FlagArray) (a : Array ℕ) (i n : ℕ) → length (slice F a i n) ≡ n
unfolding slice
length-slice F a i zero = refl
length-slice F a i (suc n) = ap suc (length-slice F a (i + 1) n)

module _ (F : FlagArray) where
  -- `h` has the nodes, nets and blocks of `g`; pin counts, connectivity and cut counts may differ.
  pub record SameShape (g h : Hypergraph F) : Type 0 where
    pub blocks : h.k ≡ g.k
    pub order : h.num_hypernodes ≡ g.num_hypernodes
    pub nets : h.num_hyperedges ≡ g.num_hyperedges
    pub incidence : h.incidence_array ≡ g.incidence_array
    pub first : (e : ℕ) → (hyperedge F h e).first ≡ (hyperedge F g e).first
    pub size : (e : ℕ) → (hyperedge F h e).size ≡ (hyperedge F g e).size
    pub live : (e : ℕ) → (hyperedge F h e).valid ≡ (hyperedge F g e).valid
    pub part : (u : ℕ) → (hypernode F h u).part_id ≡ (hypernode F g u).part_id
    pub enabled : (u : ℕ) → (hypernode F h u).valid ≡ (hypernode F g u).valid
    pub weight : (u : ℕ) → (hypernode F h u).weight ≡ (hypernode F g u).weight
    pub incident : (u : ℕ) → (hypernode F h u).incident_nets ≡ (hypernode F g u).incident_nets
    pub info : h.part_info ≡ g.part_info

  pub SameShape-refl : (g : Hypergraph F) → SameShape g g
  SameShape-refl g = record {
    blocks = refl;
    order = refl;
    nets = refl;
    incidence = refl;
    first = λ e. refl;
    size = λ e. refl;
    live = λ e. refl;
    part = λ u. refl;
    incident = λ u. refl;
    enabled = λ u. refl;
    weight = λ u. refl;
    info = refl;
  }

  pub SameShape-trans : {f g h : Hypergraph F} → SameShape f g → SameShape g h → SameShape f h
  SameShape-trans s t = record {
    blocks = t.blocks ∙ s.blocks;
    order = t.order ∙ s.order;
    nets = t.nets ∙ s.nets;
    incidence = t.incidence ∙ s.incidence;
    first = λ e. t.first e ∙ s.first e;
    size = λ e. t.size e ∙ s.size e;
    live = λ e. t.live e ∙ s.live e;
    part = λ u. t.part u ∙ s.part u;
    incident = λ u. t.incident u ∙ s.incident u;
    enabled = λ u. t.enabled u ∙ s.enabled u;
    weight = λ u. t.weight u ∙ s.weight u;
    info = t.info ∙ s.info;
  }

  pub pins-SameShape : {g h : Hypergraph F} → SameShape g h → (e : ℕ) → pins F h e ≡ pins F g e
  pins-SameShape s e = rw (s.incidence, s.first e, s.size e)

  pub SameShape-if :
      (b : Bool) {g x y : Hypergraph F}
      → SameShape g x
      → SameShape g y
      → SameShape g (if b then x else y)
  SameShape-if true s t = s
  SameShape-if false s t = t

  -- Pin counts, connectivity sets and the connectivity of one net are no part of the shape.
  pub counts-SameShape :
      (g : Hypergraph F) (counts : Array ℕ) (sets : Array ConnectivitySet) (he c : ℕ)
      → SameShape g (
          set_hyperedge F
            (record g { pins_in_part = counts; connectivity_sets = sets })
            he
            (record (hyperedge F g he) { connectivity = c }))
  counts-SameShape g counts sets he c = record {
    blocks = refl;
    order = refl;
    nets = refl;
    incidence = refl;
    first = λ e. ground arith;
    size = λ e. ground arith;
    live = λ e. ground arith;
    part = λ u. refl;
    incident = λ u. refl;
    enabled = λ u. refl;
    weight = λ u. refl;
    info = refl;
  }

  pub pins_in_part-SameShape :
      (g : Hypergraph F) (counts : Array ℕ) → SameShape g (record g { pins_in_part = counts })
  pins_in_part-SameShape g counts = record {
    blocks = refl;
    order = refl;
    nets = refl;
    incidence = refl;
    first = λ e. refl;
    size = λ e. refl;
    live = λ e. refl;
    part = λ u. refl;
    incident = λ u. refl;
    enabled = λ u. refl;
    weight = λ u. refl;
    info = refl;
  }

  -- Neither is the number of cut nets of a hypernode.
  pub cut_count-SameShape :
      (g : Hypergraph F) (u n : ℕ)
      → SameShape g (set_hypernode F g u (record (hypernode F g u) { num_incident_cut_hes = n }))
  cut_count-SameShape g u n = record {
    blocks = refl;
    order = refl;
    nets = refl;
    incidence = refl;
    first = λ e. refl;
    size = λ e. refl;
    live = λ e. refl;
    part = λ v. ground arith;
    incident = λ v. ground arith;
    enabled = λ v. ground arith;
    weight = λ v. ground arith;
    info = refl;
  }
