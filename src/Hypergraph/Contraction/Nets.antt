-- ===== src/Hypergraph/Contraction/Nets.antt =====
-- What contract does to the pins of one net, and to the nets of the representative.
use kahypar.Prelude.{
  ℕ, ◌+◌, ◌-◌, ◌≤◌, ◌<◌, ◌≡◌, ◌≢◌, ap, not, ◌∙◌, ◌⊎◌, inl, inr, Option, none, some, arith, ◌==◌,
  if◌then◌else◌,
}
use kahypar.Prelude.Arrays.{Array}
use kahypar.Prelude.Vectors.{push_back}
use kahypar.Prelude.Words.{u32_mod, dec32, dec32_lem}
use kahypar.Containers.FlagArray.{FlagArray}
use kahypar.Hypergraph.State.{
  Hypergraph, hyperedge, set_hyperedge, part_id, incident_edges, edge_size, first_invalid_entry,
}
use kahypar.Hypergraph.Shape.{SameShape, SameShape-refl}
use kahypar.Hypergraph.Blocks.Counts.{decrement-SameShape}
use kahypar.Hypergraph.Contraction.{
  swap_slots, scan_pins, pin_count_down, sub_hash, connect_hyperedge_to_representative,
  contract_net,
}
use kahypar.Hypergraph.Contraction.Slots.{if-cases, scan_pins_lem}

module _ (F : FlagArray) (hash : ℕ → ℕ) where
  pub pin_count_down-SameShape :
      (g : Hypergraph F) (he : ℕ) (b : Option ℕ) → SameShape F g (pin_count_down F hash g he b)
  pin_count_down-SameShape g he none = SameShape-refl F g
  pin_count_down-SameShape g he (some b) = decrement-SameShape F g he b

  module _ (g : Hypergraph F) (u v he : ℕ) where
    -- The slots of `he` with `v` at the end.
    abbrev pub moved_slots : ℕ → Array ℕ
    moved_slots p = swap_slots g.incidence_array p (first_invalid_entry F g he - 1)

    -- `u` was a pin: the net loses its last pin.
    pub record IsCutOff (p : ℕ) (g' : Hypergraph F) : Type 0 where
      pub size : edge_size F g' he ≡ edge_size F g he - 1
      pub slots : (j : ℕ) → g'.incidence_array j ≡ moved_slots p j
      pub nets : incident_edges F g' u ≡ incident_edges F g u

    -- `u` was no pin: it takes the last slot, and the net joins the nets of `u`.
    pub record IsReplaced (p : ℕ) (g' : Hypergraph F) : Type 0 where
      pub size : edge_size F g' he ≡ edge_size F g he
      pub slots :
          (j : ℕ)
          → g'.incidence_array j
            ≡ (if (first_invalid_entry F g he - 1) == j then u else moved_slots p j)
      pub nets : incident_edges F g' u ≡ push_back (incident_edges F g u) he

    -- Contracting `v` into `u` in a net of fewer than 2 ^ 32 pins that holds `v` in slot `p` alone: `v` is first
    -- exchanged with the last pin. Where no other slot holds `u`, `u` takes the last slot and the net joins
    -- the nets of `u`; or some other slot holds `u`, the net loses its last pin and the nets of `u` stay.
    -- Nothing else is written to the
    -- incidence array.
    pub contract_net_lem :
        (p : ℕ)
        → u ≢ v
        → (hyperedge F g he).first ≤ p
        → p < first_invalid_entry F g he
        → edge_size F g he < u32_mod
        → g.incidence_array p ≡ v
        → ((j : ℕ)
            → (hyperedge F g he).first ≤ j
            → j < first_invalid_entry F g he
            → j ≢ p
            → g.incidence_array j ≢ v)
        → (((j : ℕ)
              → (hyperedge F g he).first ≤ j
              → j < first_invalid_entry F g he - 1
              → moved_slots p j ≢ u)
            × IsReplaced p (contract_net F hash g u v he))
          ⊎ (((j : ℕ) × ((hyperedge F g he).first ≤ j)
                × (j < first_invalid_entry F g he - 1)
                × (moved_slots p j ≡ u))
              × IsCutOff p (contract_net F hash g u v he))
    unfolding contract_net connect_hyperedge_to_representative
    contract_net_lem p apart low high small at_p once =
        let first = (hyperedge F g he).first in
        let last = first_invalid_entry F g he - 1 in
        let size = edge_size F g he in
        let s =
          scan_pins_lem u v apart (size + size) g.incidence_array p first last last low
            (omega arith) (omega arith) at_p (λ j q r. once j q (omega arith)) in
        let e = hyperedge F g he in
        let r = scan_pins (size + size) g.incidence_array u v first last last in
        let h = record g { incidence_array = r.0 } in
        let P = λ (g' : Hypergraph F).
          (((j : ℕ) → first ≤ j → j < last → moved_slots p j ≢ u) × IsReplaced p g')
          ⊎ (((j : ℕ) × (first ≤ j) × (j < last) × (moved_slots p j ≡ u)) × IsCutOff p g') in
        if-cases P (not (r.1 == last)) _ _
          (λ ne.
            let d =
              pin_count_down-SameShape
                (set_hyperedge F h he
                  (record e { size = dec32 e.size; hash = sub_hash F hash e.hash v }))
                he (part_id F g v) in
            inr (
              elim s.found [
                | inl n ↦ absurd (ground (arith, n.0, ne))
                | inr f ↦ (r.1, f.0, f.1, f.2)
              ],
              record {
                size = d.size he ∙ ground (arith, dec32_lem e.size);
                slots = λ j. ap (λ a. a j) d.incidence ∙ s.array j;
                nets = d.incident u;
              },
            ))
          (λ eq. inl (
            elim s.found [ inl n ↦ n.1 | inr f ↦ absurd (ground arith) ],
            record {
              size = ground arith;
              slots = λ j. ground (arith, s.array j);
              nets = ground arith;
            },
          ))
