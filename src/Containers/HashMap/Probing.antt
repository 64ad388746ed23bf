-- ===== src/Containers/HashMap/Probing.antt =====
-- Linear probing: what a scan finds before and after a slot is filled.
use kahypar.Prelude.{
  ℕ, zero, suc, ◌+◌, ◌≤◌, ◌<◌, ◌≡◌, ◌≢◌, Bool, ◌||◌, Option, some, arith, ◌==◌, Bool-cases, inl,
  inr,
}
use native.Mathlib.Decide.{ℕ_discrete}
use kahypar.Prelude.Arrays.{Array}
use kahypar.Containers.HashMap.{scan}

module _ (V : Type 0) (hash : ℕ → ℕ) (cached : Bool) (max_key : ℕ) (fresh : V) where
  abbrev pub probe : Array ℕ → ℕ → ℕ → ℕ → Option ℕ
  probe keys key pos n = scan V hash cached max_key fresh keys key pos n

  -- What is found is in range, and is empty or has the key.
  pub scan-found :
      (keys : Array ℕ) (key pos n q : ℕ)
      → probe keys key pos n ≡ some q
      → (pos ≤ q) × (q < pos + n) × ((keys q ≢ key) → keys q ≡ max_key)
  unfolding scan
  scan-found keys key pos zero q h = absurd (ground (arith, h))
  scan-found keys key pos (suc n) q h =
      elim (Bool-cases ((keys pos == max_key) || (keys pos == key))) [
        | inl e ↦ ground (arith, e, h)
        | inr e ↦ ground (arith, e, h, scan-found keys key (pos + 1) n q)
      ]

  -- No slot before it is empty or has the key.
  pub scan-before :
      (keys : Array ℕ) (key pos n q r : ℕ)
      → probe keys key pos n ≡ some q
      → pos ≤ r
      → r < q
      → (keys r ≢ max_key) × (keys r ≢ key)
  unfolding scan
  scan-before keys key pos zero q r h low high = absurd (ground (arith, h))
  scan-before keys key pos (suc n) q r h low high =
      elim (Bool-cases ((keys pos == max_key) || (keys pos == key))) [
        | inl e ↦ ground (arith, e, h)
        | inr e ↦ elim (ℕ_discrete pos r) [
          | yes eq ↦ (λ x. ground (arith, e, eq, x), λ x. ground (arith, e, eq, x))
          | no ne ↦ scan-before keys key (pos + 1) n q r (ground (arith, e, h)) (omega arith) high
        ]
      ]

  -- A stored key that nothing hides is found.
  pub scan-reaches :
      (keys : Array ℕ) (key pos n q : ℕ)
      → pos ≤ q
      → q < pos + n
      → keys q ≡ key
      → ((r : ℕ) → pos ≤ r → r < q → (keys r ≢ max_key) × (keys r ≢ key))
      → probe keys key pos n ≡ some q
  unfolding scan
  scan-reaches keys key pos zero q low high here free = absurd (omega arith)
  scan-reaches keys key pos (suc n) q low high here free = elim (ℕ_discrete pos q) [
    | yes eq ↦ ground (arith, eq, here)
    | no ne ↦
        let (a, b) = free pos (omega arith) (omega arith) in
        ground (
          arith,
          a,
          b,
          scan-reaches keys key (pos + 1) n q (omega arith) (omega arith) here
              (λ r l h. free r (omega arith) h),
        )
  ]
