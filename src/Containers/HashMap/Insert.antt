-- ===== src/Containers/HashMap/Insert.antt =====
-- Insertion, and the keys that IsReached speaks of.
use kahypar.Prelude.{
  ℕ, ◌-◌, ◌≤◌, ◌<◌, ◌≡◌, ◌≢◌, refl, ◌∙◌, sym, ap, Bool, true, false, ◌&&◌, ◌||◌, Option, none, some,
  arith, ◌==◌, if◌then◌else◌, Bool-cases, inl, inr,
}
use mathlib.Core.Option
use mathlib.Core.Path.{subst}
use native.Mathlib.Decide.{ℕ_discrete}
use kahypar.Containers.HashMap.{HashMap, start, find_position, fill_slot}
use kahypar.Containers.HashMap.Probing.{probe, scan-found, scan-before, scan-reaches}

module _ (V : Type 0) (hash : ℕ → ℕ) (cached : Bool) (max_key : ℕ) (fresh : V) where
  -- The keys that mark slots.
  abbrev pub is_special : ℕ → Bool
  is_special key = (key == max_key) || (key == max_key - 1)

  abbrev pub first : HashMap V → ℕ → ℕ
  first m key = start V hash cached max_key fresh m key

  abbrev pub search : HashMap V → ℕ → Option ℕ
  search m key = probe V hash cached max_key fresh m.keys key (first m key) (m.slots - first m key)

  -- Every stored key is the first match of its scan, and the position that is kept is the one that a
  -- scan for its key finds.
  pub record IsValid (m : HashMap V) : Type 0 where
    pub probed :
        (p : ℕ)
        → p < m.slots
        → is_special (m.keys p) ≡ false
        → (first m (m.keys p) ≤ p)
          × ((r : ℕ)
              → first m (m.keys p) ≤ r
              → r < p
              → (m.keys r ≢ max_key) × (m.keys r ≢ m.keys p))
    pub kept : cached ≡ true → m.last_key ≢ max_key → search m m.last_key ≡ some m.last_position

  -- The value of a key that a scan finds.
  abbrev value_at : HashMap V → ℕ → Option ℕ → Option V
  value_at m key o = elim o [
    | none ↦ none
    | some p ↦ if m.keys p == key then some (m.values p) else none
  ]

  unfoldable pub lookup : HashMap V → ℕ → Option V
  lookup m key = value_at m key (search m key)

  -- Slot `p` is the first match of a scan for `x`.
  abbrev IsReached : HashMap V → ℕ → ℕ → Type 0
  IsReached m p x =
      (first m x ≤ p) × ((r : ℕ) → first m x ≤ r → r < p → (m.keys r ≢ max_key) × (m.keys r ≢ x))

  module _ (m : HashMap V) (v : IsValid m) where
    -- A slot with a key gives the key its value.
    pub stored :
        (p key : ℕ)
        → p < m.slots
        → m.keys p ≡ key
        → is_special key ≡ false
        → lookup m key ≡ some (m.values p)
    unfolding lookup
    stored p key inside here plain =
        let (low, free) = v.probed p inside (rw here plain) in
        let found : search m key ≡ some p =
          scan-reaches V hash cached max_key fresh m.keys key (first m key) (m.slots - first m key)
            p (rw here at low) (omega (arith, rw here at low)) here (rw here at free) in
        rw (lookup, found) (ground (arith, here))

    -- And a value comes from such a slot.
    pub origin :
        (key : ℕ) (w : V)
        → lookup m key ≡ some w
        → (p : ℕ) × (p < m.slots) × (m.keys p ≡ key) × (m.values p ≡ w)
    unfolding lookup
    origin key w h = go (search m key) refl h
      where
        go :
            (o : Option ℕ)
            → search m key ≡ o
            → value_at m key o ≡ some w
            → (p : ℕ) × (p < m.slots) × (m.keys p ≡ key) × (m.values p ≡ w)
        go none e h = absurd (ground (arith, h))
        go (some p) e h =
            let (low, high, other) =
              scan-found V hash cached max_key fresh m.keys key (first m key)
                (m.slots - first m key) p e in
            (p, omega arith, ground (arith, h), ground (arith, h))

    abbrev pub touched : ℕ → ℕ → HashMap V
    touched key pos = if cached then record m { last_key = key; last_position = pos } else m

    touched_same : (key : ℕ) → key ≡ m.last_key → touched key m.last_position ≡ m
    touched_same key k =
        subst
          (λ (t : ℕ).
            (if cached then record m { last_key = t; last_position = m.last_position } else m) ≡ m)
          (sym k) (go cached)
      where
        go :
            (b : Bool)
            → (if b then record m { last_key = m.last_key; last_position = m.last_position } else m)
              ≡ m
        go true = refl
        go false = refl

    pub find_position_lem :
        (key : ℕ)
        → key ≢ max_key
        → find_position V hash cached max_key fresh m key
          ≡ Option.map (λ pos. (touched key pos, pos)) (search m key)
    unfolding find_position
    find_position_lem key plain = elim (Bool-cases (cached && (key == m.last_key))) [
      | inl e ↦
          let k : key ≡ m.last_key = ground (arith, e) in
          let at : search m key ≡ some m.last_position =
            ap (search m) k ∙ v.kept (ground (arith, e)) (λ z. plain (k ∙ z)) in
          rw (find_position, e)
            (rw at (ap (λ t. some (t, m.last_position)) (sym (touched_same key k))))
      | inr e ↦ rw (find_position, e) refl
    ]

    -- Keeping the position found changes nothing else.
    pub record IsTouched (key pos : ℕ) (t : HashMap V) : Type 0 where
      pub valid : IsValid t
      pub found : search t key ≡ some pos
      pub keys_same : t.keys ≡ m.keys
      pub values_same : (x : ℕ) → lookup t x ≡ lookup m x
      pub kept : cached ≡ true → (t.last_key ≡ key) × (t.last_position ≡ pos)

    pub touched-IsTouched :
        (key pos : ℕ) → search m key ≡ some pos → IsTouched key pos (touched key pos)
    unfolding lookup
    touched-IsTouched key pos at = go cached refl
      where
        go :
            (b : Bool)
            → cached ≡ b
            → IsTouched key pos (if b then record m { last_key = key; last_position = pos } else m)
        go true e = record {
          valid = record { probed = v.probed; kept = λ c plain. at };
          found = at;
          keys_same = refl;
          values_same = λ x. refl;
          kept = λ c. (refl, refl);
        }
        go false e = record {
          valid = v;
          found = at;
          keys_same = refl;
          values_same = λ x. refl;
          kept = λ c. absurd (ground (arith, c, e));
        }

    -- The slot that a scan finds empty takes the key.
    pub fill_slot-IsValid :
        (key pos : ℕ) (value : V)
        → is_special key ≡ false
        → search m key ≡ some pos
        → m.keys pos ≡ max_key
        → (cached ≡ true → (m.last_key ≡ key) × (m.last_position ≡ pos))
        → IsValid (fill_slot V hash cached max_key fresh m pos key value)
    fill_slot-IsValid key pos value plain found empty kept =
        let (low, high, other) =
          scan-found V hash cached max_key fresh m.keys key (first m key) (m.slots - first m key)
            pos found in
        let h = fill_slot V hash cached max_key fresh m pos key value in
        let before = λ (r : ℕ) (l : first m key ≤ r) (b : r < pos).
          scan-before V hash cached max_key fresh m.keys key (first m key) (m.slots - first m key)
            pos r found l b in
        let there : h.keys pos ≡ key = ground arith in
        let same : (r : ℕ) → pos ≢ r → h.keys r ≡ m.keys r = λ r ne. ground arith in
        let clear : (r : ℕ) → first m key ≤ r → r < pos → (h.keys r ≢ max_key) × (h.keys r ≢ key) =
          λ r l b. rw (same r (ground (arith, b))) (before r l b) in
        record {
          probed = λ p inside usual. elim (ℕ_discrete pos p) [
            | yes eq ↦
                subst (IsReached h p) (sym (ap h.keys (sym eq) ∙ there))
                  (omega (arith, low, eq), λ r l b. clear r l (omega (arith, b, eq)))
            | no ne ↦
                let (lo, free) = v.probed p inside (ap is_special (sym (same p ne)) ∙ usual) in
                subst (IsReached h p) (sym (same p ne)) (
                  lo,
                  λ r l b. elim (ℕ_discrete pos r) [
                    | yes er ↦ absurd ((free r l b).0 (ap m.keys (sym er) ∙ empty))
                    | no nr ↦ rw (same r nr) (free r l b)
                  ],
                )
          ];
          kept = λ c usual.
              let (lk, lp) = kept c in
              ap (search h) lk
              ∙ scan-reaches V hash cached max_key fresh h.keys key (first m key)
                  (m.slots - first m key) pos low high there clear
              ∙ ap some (sym lp);
        }
