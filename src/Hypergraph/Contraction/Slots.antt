-- ===== src/Hypergraph/Contraction/Slots.antt =====
-- What the loop of contract does to the slots of one net.
use kahypar.Prelude.{
  ℕ, zero, suc, ◌+◌, ◌≤◌, ◌<◌, ◌≡◌, ◌≢◌, refl, sym, ◌⊎◌, inl, inr, Bool, true, false, arith, ◌==◌,
  if◌then◌else◌,
}
use kahypar.Prelude.Arrays.{Array}
use kahypar.Hypergraph.Contraction.{swap_slots, scan_pins}

pub if-cases {ℓ ℓ'} :
    {A : Type ℓ} (P : A → Type ℓ') (b : Bool) (x y : A)
    → (b ≡ true → P x)
    → (b ≡ false → P y)
    → P (if b then x else y)
if-cases P true x y s t = s refl
if-cases P false x y s t = t refl

module _ (u v : ℕ) (apart : u ≢ v) where
  -- The result of the loop from slot `i` on: the array, and `slot` where no slot holds `u`, or a slot
  -- that does, and is not the last.
  pub record IsScanned (a' : Array ℕ) (i last slot : ℕ) (r : Array ℕ × ℕ) : Type 0 where
    pub array : (j : ℕ) → r.0 j ≡ a' j
    pub found :
        ((r.1 ≡ slot) × ((j : ℕ) → i ≤ j → j < last → a' j ≢ u))
        ⊎ ((i ≤ r.1) × (r.1 < last) × (a' r.1 ≡ u))

  -- One slot earlier, which held neither `u` nor `v`, or `u`.
  scan_next :
      (a' : Array ℕ) (i last slot : ℕ) (r : Array ℕ × ℕ)
      → a' i ≢ u
      → IsScanned a' (i + 1) last slot r
      → IsScanned a' i last slot r
  scan_next a' i last slot r other s = record {
    array = s.array;
    found = elim s.found [
      | inl n ↦ inl (n.0, λ j p q e. n.1 j (ground arith) q e)
      | inr f ↦ inr (omega arith, f.1, f.2)
    ];
  }

  scan_here :
      (a' : Array ℕ) (i last slot : ℕ) (r : Array ℕ × ℕ)
      → i < last
      → a' i ≡ u
      → IsScanned a' (i + 1) last i r
      → IsScanned a' i last slot r
  scan_here a' i last slot r h here s = record {
    array = s.array;
    found = elim s.found [
      | inl n ↦ inr (omega arith, omega arith, rw (n.0) here)
      | inr f ↦ inr (omega arith, f.1, f.2)
    ];
  }

  -- The loop once `v` is in the last slot.
  scan_after :
      (fuel : ℕ) (a : Array ℕ) (i last slot : ℕ)
      → i ≤ last
      → last < i + fuel
      → ((j : ℕ) → i ≤ j → j < last → a j ≢ v)
      → IsScanned a i last slot (scan_pins fuel a u v i last slot)
  unfolding scan_pins
  scan_after zero a i last slot h enough once = absurd (omega arith)
  scan_after (suc fuel) a i last slot h enough once =
      let P = IsScanned a i last slot in
      if-cases P (i == last) _ _
        (λ e. record { array = λ j. refl; found = inl (refl, λ j p q. ground arith) })
        (λ ne.
          if-cases P (a i == v) _ _
            (λ e. absurd (once i (omega arith) (ground arith) (ground arith)))
            (λ nv.
              if-cases P (a i == u) _ _
                (λ e. scan_here a i last slot _ (ground arith) (ground arith) (
                  scan_after fuel a (i + 1) last i (ground arith) (omega arith)
                    (λ j p q. once j (omega arith) q)))
                (λ nu. scan_next a i last slot _ (ground arith) (
                  scan_after fuel a (i + 1) last slot (ground arith) (omega arith)
                    (λ j p q. once j (omega arith) q)))))

  -- The loop where slot `p` holds `v`, and no other does.
  pub scan_pins_lem :
      (fuel : ℕ) (a : Array ℕ) (p i last slot : ℕ)
      → i ≤ p
      → p ≤ last
      → last + 1 < i + fuel
      → a p ≡ v
      → ((j : ℕ) → i ≤ j → j ≤ last → j ≢ p → a j ≢ v)
      → IsScanned (swap_slots a p last) i last slot (scan_pins fuel a u v i last slot)
  unfolding scan_pins
  scan_pins_lem zero a p i last slot h h' enough at_p once = absurd (omega arith)
  scan_pins_lem (suc fuel) a p i last slot h h' enough at_p once =
      let P = IsScanned (swap_slots a p last) i last slot in
      if-cases P (i == last) _ _
        (λ e. record { array = λ j. ground arith; found = inl (refl, λ j r q. ground arith) })
        (λ ne.
          if-cases P (a i == v) _ _
            (λ e.
              let here : i ≡ p = ground (arith, once i) in
              rw (sym here) (
                scan_after fuel (swap_slots a i last) i last slot (omega arith) (omega arith)
                  (λ j r q. ground (arith, once j (omega arith), once last (omega arith)))))
            (λ nv.
              if-cases P (a i == u) _ _
                (λ e. scan_here (swap_slots a p last) i last slot _ (ground arith) (ground arith) (
                  scan_pins_lem fuel a p (i + 1) last i (ground arith) h' (omega arith) at_p
                    (λ j r q. once j (omega arith) q)))
                (λ nu. scan_next (swap_slots a p last) i last slot _ (ground arith) (
                  scan_pins_lem fuel a p (i + 1) last slot (ground arith) h' (omega arith) at_p
                    (λ j r q. once j (omega arith) q)))))
