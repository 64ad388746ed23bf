-- ===== src/Refinement/GainCache/Lookup.antt =====
-- The gains of all hypernodes, and what one round of rollbackDelta undoes.
use kahypar.Prelude.{
  ℕ, ◌≡◌, ◌≢◌, refl, true, false, Option, none, some, arith, ◌==◌, if◌then◌else◌, Bool-cases, inl,
  inr,
}
use mathlib.Core.Path.{subst}
use native.Mathlib.Decide.{ℕ_discrete}
use kahypar.Prelude.Arrays.{Array, update}
use kahypar.Prelude.Int.{ℤ, ◌+ℤ◌}
use kahypar.Refinement.GainCache.{
  CacheElement, RollbackAction, RollbackElement, contains, update_gain, roll_back_element,
}
use kahypar.Refinement.GainCache.Elements.{
  IsValid, lookup, update_gain-IsValid, lookup-update_gain, relist-IsValid, lookup-relist,
  remove-IsValid, lookup-remove, contains_lem,
}

abbrev pub Cache : Type 0
Cache = Array (Option CacheElement)

-- The gain of a part that is there, none for a hypernode without an element.
unfoldable pub gain_of : Cache → ℕ → ℕ → Option ℤ
gain_of cache hn part = elim (cache hn) as (λ t. Option ℤ) [ none ↦ none | some c ↦ lookup c part ]

abbrev pub IsSound : Cache → Type 0
IsSound cache = (hn : ℕ) (c : CacheElement) → cache hn ≡ some c → IsValid c

-- `b` has the gains of `a`, and an element wherever `a` has one.
pub record IsLike (a b : Cache) : Type 0 where
  pub gains : (hn part : ℕ) → gain_of b hn part ≡ gain_of a hn part
  pub allocated :
      (hn : ℕ) (c : CacheElement) → a hn ≡ some c → (c' : CacheElement) × (b hn ≡ some c')
  pub sound : IsSound b

pub gain_of-element :
    (cache : Cache) (hn part : ℕ) (c : CacheElement)
    → cache hn ≡ some c
    → gain_of cache hn part ≡ lookup c part
unfolding gain_of
gain_of-element cache hn part c e = rw (gain_of, e) refl

-- A gain is in an element.
pub element_of-gain :
    (cache : Cache) (hn part : ℕ) (x : ℤ)
    → gain_of cache hn part ≡ some x
    → (c : CacheElement) × (cache hn ≡ some c) × (lookup c part ≡ some x)
unfolding gain_of
element_of-gain cache hn part x h = go (cache hn) h
  where
    go :
        (o : Option CacheElement)
        → elim o as (λ t. Option ℤ) [ none ↦ none | some c ↦ lookup c part ] ≡ some x
        → (c : CacheElement) × (o ≡ some c) × (lookup c part ≡ some x)
    go none h = absurd (ground (arith, h))
    go (some c) h = (c, refl, h)

pub gain_of-update :
    (cache : Cache) (u hn part : ℕ) (c : CacheElement)
    → gain_of (update cache u (some c)) hn part
      ≡ (if u == hn then lookup c part else gain_of cache hn part)
unfolding gain_of
gain_of-update cache u hn part c = elim (Bool-cases (u == hn)) [
  | inl e ↦ rw (gain_of, e) refl
  | inr e ↦ rw (gain_of, e) refl
]

pub update-IsSound :
    (cache : Cache) (u : ℕ) (c : CacheElement)
    → ((hn : ℕ) → u ≢ hn → (x : CacheElement) → cache hn ≡ some x → IsValid x)
    → IsValid c
    → IsSound (update cache u (some c))
update-IsSound cache u c s v hn x h = elim (ℕ_discrete u hn) [
  | yes eq ↦ let same : c ≡ x = ground (arith, eq, h) in subst IsValid same v
  | no ne ↦ s hn ne x (ground (arith, ne, h))
]

-- A change of one element, taken back there.
pub IsLike-undone :
    (a b : Cache) (u : ℕ) (c e : CacheElement)
    → IsLike (update a u (some c)) b
    → IsValid e
    → ((q : ℕ) → lookup e q ≡ gain_of a u q)
    → IsLike a (update b u (some e))
IsLike-undone a b u c e like v same = record {
  gains = λ hn part. elim (ℕ_discrete u hn) [
    | yes eq ↦ ground (arith, gain_of-update b u hn part e, same part, eq)
    | no ne ↦
        ground (
          arith,
          gain_of-update b u hn part e,
          like.gains hn part,
          gain_of-update a u hn part c,
          ne,
        )
  ];
  allocated = λ hn x h. elim (ℕ_discrete u hn) [
    | yes eq ↦ (e, ground (arith, eq))
    | no ne ↦
        let (y, h') = like.allocated hn x (ground (arith, ne, h)) in (y, ground (arith, ne, h'))
  ];
  sound = update-IsSound b u e (λ hn ne x h. like.sound hn x h) v;
}

-- One round on an element whose gains are known, `f` before the change and others after it.
module _ (c : CacheElement) (v : IsValid c) (hn part : ℕ) (delta : ℤ) (f : ℕ → Option ℤ) where
  abbrev round : RollbackAction → RollbackElement
  round action = record { hn = hn; part = part; delta = delta; action = action }

  pub undo_remove :
      f part ≡ some delta
      → ((q : ℕ) → lookup c q ≡ (if part == q then none else f q))
      → IsValid (roll_back_element c (round RollbackAction.do_add))
        × ((q : ℕ) → lookup (roll_back_element c (round RollbackAction.do_add)) q ≡ f q)
  unfolding roll_back_element
  undo_remove before after =
      let out : lookup c part ≡ none = ground (arith, after part) in
      let gone : contains c part ≡ false = ground (arith, contains_lem c v part, out) in
      rw (roll_back_element, gone)
        (
          relist-IsValid c v part delta out,
          λ q. ground (arith, lookup-relist c v part delta q, after q, before),
        )

  pub undo_add :
      (x : ℤ)
      → f part ≡ none
      → ((q : ℕ) → lookup c q ≡ (if part == q then some x else f q))
      → IsValid (roll_back_element c (round RollbackAction.do_remove))
        × ((q : ℕ) → lookup (roll_back_element c (round RollbackAction.do_remove)) q ≡ f q)
  unfolding roll_back_element
  undo_add x before after =
      let here : lookup c part ≡ some x = ground (arith, after part) in
      let there : contains c part ≡ true = ground (arith, contains_lem c v part, here) in
      let c' = update_gain c part delta in
      let v' = update_gain-IsValid c v part x delta here in
      let here' : lookup c' part ≡ some (x +ℤ delta) =
        ground (arith, lookup-update_gain c v part x delta part here) in
      rw (roll_back_element, there)
        (
          remove-IsValid c' v' part (x +ℤ delta) here',
          λ q. ground (
            arith,
            lookup-remove c' v' part (x +ℤ delta) q here',
            lookup-update_gain c v part x delta q here,
            after q,
            before,
          ),
        )

  pub undo_update :
      (x y : ℤ)
      → f part ≡ some x
      → y +ℤ delta ≡ x
      → ((q : ℕ) → lookup c q ≡ (if part == q then some y else f q))
      → IsValid (roll_back_element c (round RollbackAction.do_nothing))
        × ((q : ℕ) → lookup (roll_back_element c (round RollbackAction.do_nothing)) q ≡ f q)
  unfolding roll_back_element
  undo_update x y before back after =
      let here : lookup c part ≡ some y = ground (arith, after part) in
      let there : contains c part ≡ true = ground (arith, contains_lem c v part, here) in
      rw (roll_back_element, there)
        (
          update_gain-IsValid c v part y delta here,
          λ q. ground (arith, lookup-update_gain c v part y delta q here, after q, before, back),
        )
