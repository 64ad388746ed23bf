-- ===== src/Containers/HashMap/Lookup.antt =====
-- What a map holds after an insertion.
use kahypar.Prelude.{
  ℕ, ◌-◌, ◌<◌, ◌≡◌, ◌≢◌, refl, ◌∙◌, sym, ap, Bool, false, Option, none, some, arith, ◌==◌,
  if◌then◌else◌, Bool-cases, inl, inr,
}
use mathlib.Core.Option
use mathlib.Core.Path.{subst}
use native.Mathlib.Decide.{ℕ_discrete}
use kahypar.Containers.HashMap.{HashMap, fill_slot, insert_impl}
use kahypar.Containers.HashMap.Probing.{scan-found}
use kahypar.Containers.HashMap.Insert.{
  is_special, IsValid, lookup, search, stored, origin, touched, IsTouched, touched-IsTouched,
  find_position_lem, fill_slot-IsValid,
}

map_twice :
    {A B C : Type 0} (f : B → C) (g : A → B) (o : Option A)
    → Option.map f (Option.map g o) ≡ Option.map (λ x. f (g x)) o
map_twice f g none = refl
map_twice f g (some x) = refl

module _ (V : Type 0) (hash : ℕ → ℕ) (cached : Bool) (max_key : ℕ) (fresh : V) where
  abbrev get : HashMap V → ℕ → Option V
  get m x = lookup V hash cached max_key fresh m x

  abbrev Valid : HashMap V → Type 0
  Valid m = IsValid V hash cached max_key fresh m

  -- A value that is there stays; else it is the new one.
  abbrev pub or_new : Option V → V → Option V
  or_new o value = elim o [ none ↦ some value | some w ↦ some w ]

  module _ (m : HashMap V) (v : Valid m) (key pos : ℕ) (value : V)
      (plain : is_special V hash cached max_key fresh key ≡ false) (inside : pos < m.slots)
      (free : m.keys pos ≡ max_key)
      (w : Valid (fill_slot V hash cached max_key fresh m pos key value)) where
    abbrev filled : HashMap V
    filled = fill_slot V hash cached max_key fresh m pos key value

    get-filled_here : get filled key ≡ some value
    get-filled_here =
        stored V hash cached max_key fresh filled w pos key inside (ground arith) plain
        ∙ ground arith

    unchanged : (p : ℕ) → pos ≢ p → filled.keys p ≡ m.keys p
    unchanged p ne = ground (arith, ne)

    get-filled_there :
        (x : ℕ)
        → is_special V hash cached max_key fresh x ≡ false
        → key ≢ x
        → get filled x ≡ get m x
    get-filled_there x usual ne = go (get m x) (get filled x) refl refl
      where
        go : (a b : Option V) → get m x ≡ a → get filled x ≡ b → b ≡ a
        go none none e e' = refl
        go none (some y) e e' =
            let (p, low, at, z) = origin V hash cached max_key fresh filled w x y e' in
            let own : filled.keys pos ≡ key = ground arith in
            let ne' : pos ≢ p = λ s. ne (sym own ∙ ap filled.keys s ∙ at) in
            let old : m.keys p ≡ x = sym (unchanged p ne') ∙ at in
            absurd (ground (arith, e, stored V hash cached max_key fresh m v p x low old usual))
        go (some y) b e e' =
            let (p, low, at, z) = origin V hash cached max_key fresh m v x y e in
            let ne' : pos ≢ p = λ s.
              let special : x ≡ max_key = sym at ∙ ap m.keys (sym s) ∙ free in
              ground (arith, usual, special) in
            let kept : filled.keys p ≡ x = unchanged p ne' ∙ at in
            let worth : filled.values p ≡ m.values p = ground (arith, ne') in
            sym e'
            ∙ stored V hash cached max_key fresh filled w p x low kept usual
            ∙ ap some (worth ∙ z)

  -- A slot of a stored key.
  get-present :
      (m : HashMap V) (v : Valid m) (key pos : ℕ)
      → is_special V hash cached max_key fresh key ≡ false
      → search V hash cached max_key fresh m key ≡ some pos
      → m.keys pos ≢ max_key
      → get m key ≡ some (m.values pos)
  unfolding lookup
  get-present m v key pos plain found full =
      let other = scan-found V hash cached max_key fresh m.keys key _ _ pos found in
      rw (lookup, found) (ground (arith, other, full))

  get-absent :
      (m : HashMap V) (key pos : ℕ)
      → is_special V hash cached max_key fresh key ≡ false
      → search V hash cached max_key fresh m key ≡ some pos
      → m.keys pos ≡ max_key
      → get m key ≡ none
  unfolding lookup
  get-absent m key pos plain found free = rw (lookup, found) (ground (arith, free, plain))

  -- The map after the scan has found `pos`.
  abbrev outcome : (m : HashMap V) → Valid m → ℕ → V → ℕ → HashMap V
  outcome m v key value pos =
      let t = touched V hash cached max_key fresh m v key pos in
      if t.keys pos == max_key then fill_slot V hash cached max_key fresh t pos key value else t

  -- insert_impl on a key that marks no slot, by what the scan finds.
  insert_impl_lem :
      (m : HashMap V) (v : Valid m) (key : ℕ) (value : V)
      → is_special V hash cached max_key fresh key ≡ false
      → insert_impl V hash cached max_key fresh m key value
        ≡ Option.map (outcome m v key value) (search V hash cached max_key fresh m key)
  unfolding insert_impl
  insert_impl_lem m v key value plain =
      let a : (key == max_key) ≡ false = ground (arith, plain) in
      let b : (key == max_key - 1) ≡ false = ground (arith, plain) in
      rw (insert_impl, a, b)
        (rw (find_position_lem V hash cached max_key fresh m v key (ground (arith, a)))
          (map_twice _ _ (search V hash cached max_key fresh m key)))

  -- What an insertion does.
  abbrev Inserted : HashMap V → ℕ → V → HashMap V → Type 0
  Inserted m key value h =
      Valid h
      × ((x : ℕ)
          → is_special V hash cached max_key fresh x ≡ false
          → get h x ≡ (if key == x then or_new (get m x) value else get m x))

  -- The two outcomes, on the map `t` that remembers the position found.
  inserted :
      (m : HashMap V) (v : Valid m) (key pos : ℕ) (value : V) (t : HashMap V)
      → is_special V hash cached max_key fresh key ≡ false
      → search V hash cached max_key fresh m key ≡ some pos
      → IsTouched V hash cached max_key fresh m v key pos t
      → Inserted m key value (
          if t.keys pos == max_key
          then fill_slot V hash cached max_key fresh t pos key value
          else t)
  inserted m v key pos value t plain found r = elim (Bool-cases (t.keys pos == max_key)) [
    | inl e ↦
        let free : t.keys pos ≡ max_key = ground (arith, e) in
        let (low, high, other) =
          scan-found V hash cached max_key fresh t.keys key _ _ pos r.found in
        let w =
          fill_slot-IsValid V hash cached max_key fresh t r.valid key pos value plain r.found free
            r.kept in
        let new : get m key ≡ none =
          sym (r.values_same key) ∙ get-absent t key pos plain r.found free in
        rw e (
          w,
          λ x usual. elim (ℕ_discrete key x) [
            | yes eq ↦
                ground (
                  arith,
                  eq,
                  new,
                  get-filled_here t r.valid key pos value plain (omega arith) free w,
                )
            | no ne ↦ ground (
              arith,
              ne,
              get-filled_there t r.valid key pos value plain (omega arith) free w x usual ne,
              r.values_same x,
            )
          ],
        )
    | inr e ↦
        let present = get-present t r.valid key pos plain r.found (ground (arith, e)) in
        rw e (
          r.valid,
          λ x usual. elim (ℕ_discrete key x) [
            | yes eq ↦ ground (arith, eq, present, r.values_same x, r.values_same key)
            | no ne ↦ ground (arith, ne, r.values_same x)
          ],
        )
  ]

  -- Where every stored key is the first match of its scan and the position kept is that of the key kept:
  -- an insertion of a key that marks no slot, if it does not overflow the table, leaves the map so, keeps
  -- the values of all keys that mark no slot, and gives the value inserted to its key if that had none.
  pub lookup-insert_impl :
      (m h : HashMap V) (key : ℕ) (value : V)
      → IsValid V hash cached max_key fresh m
      → is_special V hash cached max_key fresh key ≡ false
      → insert_impl V hash cached max_key fresh m key value ≡ some h
      → IsValid V hash cached max_key fresh h
        × ((x : ℕ)
            → is_special V hash cached max_key fresh x ≡ false
            → lookup V hash cached max_key fresh h x ≡ (
                if key == x
                then or_new (lookup V hash cached max_key fresh m x) value
                else lookup V hash cached max_key fresh m x))
  lookup-insert_impl m h key value v plain done =
      go (search V hash cached max_key fresh m key) refl
        (sym (insert_impl_lem m v key value plain) ∙ done)
    where
      go :
          (o : Option ℕ)
          → search V hash cached max_key fresh m key ≡ o
          → Option.map (outcome m v key value) o ≡ some h
          → Inserted m key value h
      go none e eq = absurd (ground (arith, eq))
      go (some pos) e eq = subst (Inserted m key value) (Option.some-injective _ h eq) (
          inserted m v key pos value (touched V hash cached max_key fresh m v key pos) plain e
            (touched-IsTouched V hash cached max_key fresh m v key pos e))
