-- ===== src/Refinement/GainCache/Elements.antt =====
-- The gains of one hypernode: which parts have one after each member.
use kahypar.Prelude.{
  ℕ, ◌-◌, ◌<◌, ◌≡◌, refl, Bool, true, false, Option, none, some, arith, ◌==◌, if◌then◌else◌,
}
use kahypar.Prelude.Int.{ℤ, ◌+ℤ◌}
use kahypar.Refinement.GainCache.{
  Element, CacheElement, not_cached, fresh_cache_element, add, add_to_active_parts, remove,
  update_gain, set, contains,
}

-- Stored places and listed parts point at each other, and a part that is not there has no gain.
pub record IsValid (c : CacheElement) : Type 0 where
  pub back : (p i : ℕ) → (c.sparse p).index ≡ some i → (i < c.size) × (c.dense i ≡ p)
  pub front : (i : ℕ) → i < c.size → (c.sparse (c.dense i)).index ≡ some i
  pub absent : (p : ℕ) → (c.sparse p).index ≡ none → (c.sparse p).gain ≡ not_cached

abbrev lookup_in : Element → Option ℤ
lookup_in e = elim e.index [ none ↦ none | some i ↦ some e.gain ]

-- The gain of a part that is there.
unfoldable pub lookup : CacheElement → ℕ → Option ℤ
lookup c p = lookup_in (c.sparse p)

pub fresh-IsValid : IsValid fresh_cache_element
fresh-IsValid = record {
  back = λ p i e. absurd (ground (arith, e));
  front = λ i h. absurd (omega arith);
  absent = λ p e. refl;
}

place_of :
    (o : Option ℕ) (x g : ℤ)
    → elim o as (λ t. Option ℤ) [ none ↦ none | some i ↦ some x ] ≡ some g
    → (i : ℕ) × (o ≡ some i) × (x ≡ g)
place_of none x g h = absurd (ground (arith, h))
place_of (some i) x g h = (i, refl, ground (arith, h))

contains_element :
    (o : Option ℕ) (x : ℤ)
    → elim o as (λ t. Bool) [ none ↦ false | some i ↦ true ]
      ≡ elim (elim o as (λ t. Option ℤ) [ none ↦ none | some i ↦ some x ]) as (λ t. Bool) [
        | none ↦ false
        | some g ↦ true
      ]
contains_element none x = refl
contains_element (some i) x = refl

module _ (c : CacheElement) (v : IsValid c) (p : ℕ) where
  no_index : lookup c p ≡ none → (c.sparse p).index ≡ none
  unfolding lookup
  no_index h = ground (arith, h)

  has_index :
      (g : ℤ)
      → lookup c p ≡ some g
      → (i : ℕ) × ((c.sparse p).index ≡ some i) × ((c.sparse p).gain ≡ g)
  unfolding lookup
  has_index g h = place_of (c.sparse p).index (c.sparse p).gain g h

  pub add-IsValid : (g : ℤ) → lookup c p ≡ none → IsValid (add c p g)
  unfolding add lookup
  add-IsValid g out = record {
    back = λ q i e. (ground (arith, v.back q i), ground (arith, v.back q i));
    front = λ i h. ground (arith, v.front i, v.back (c.dense i) i, no_index out);
    absent = λ q e. ground (arith, v.absent q);
  }

  pub lookup-add : (g : ℤ) (q : ℕ) → lookup (add c p g) q ≡ (if p == q then some g else lookup c q)
  unfolding add lookup
  lookup-add g q = ground arith

  -- Gains are changed in place.
  pub update_gain-IsValid : (g d : ℤ) → lookup c p ≡ some g → IsValid (update_gain c p d)
  unfolding update_gain
  update_gain-IsValid g d here =
      let (place, at, value) = has_index g here in
      record {
        back = λ q i e. (ground (arith, v.back q i), ground (arith, v.back q i));
        front = λ i h. ground (arith, v.front i);
        absent = λ q e. ground (arith, v.absent q, at);
      }

  pub lookup-update_gain :
      (g d : ℤ) (q : ℕ)
      → lookup c p ≡ some g
      → lookup (update_gain c p d) q ≡ (if p == q then some (g +ℤ d) else lookup c q)
  unfolding update_gain lookup
  lookup-update_gain g d q here =
      let (place, at, value) = has_index g here in ground (arith, at, value)

  -- A gain that is set and then listed again.
  pub relist-IsValid : (g : ℤ) → lookup c p ≡ none → IsValid (add_to_active_parts (set c p g) p)
  unfolding add_to_active_parts set lookup
  relist-IsValid g out = record {
    back = λ q i e. (ground (arith, v.back q i), ground (arith, v.back q i));
    front = λ i h. ground (arith, v.front i, v.back (c.dense i) i, no_index out);
    absent = λ q e. ground (arith, v.absent q);
  }

  pub lookup-relist :
      (g : ℤ) (q : ℕ)
      → lookup (add_to_active_parts (set c p g) p) q ≡ (if p == q then some g else lookup c q)
  unfolding add_to_active_parts set lookup
  lookup-relist g q = ground arith

  remove_at :
      (i : ℕ)
      → (c.sparse p).index ≡ some i
      → IsValid (remove c p)
        × ((q : ℕ) → lookup (remove c p) q ≡ (if p == q then none else lookup c q))
  unfolding remove lookup
  remove_at i at =
      let last = c.dense (c.size - 1) in
      let (inside, here) = v.back p i at in
      let moved = v.front (c.size - 1) (omega (arith, inside)) in
      rw (remove, at)
        (
          record {
            back = λ q j e. (
              ground (arith, v.back q j, at, inside, here, moved),
              ground (arith, v.back q j, at, inside, here, moved),
            );
            front = λ j h.
                ground (arith, v.front j, v.front i, v.back (c.dense j) j, at, inside, here, moved);
            absent = λ q e. ground (arith, v.absent q, at, moved);
          },
          λ q. ground (arith, at, moved),
        )

  pub remove-IsValid : (g : ℤ) → lookup c p ≡ some g → IsValid (remove c p)
  remove-IsValid g here = let (place, at, value) = has_index g here in (remove_at place at).0

  pub lookup-remove :
      (g : ℤ) (q : ℕ)
      → lookup c p ≡ some g
      → lookup (remove c p) q ≡ (if p == q then none else lookup c q)
  lookup-remove g q here = let (place, at, value) = has_index g here in (remove_at place at).1 q

  pub contains_lem : contains c p ≡ elim (lookup c p) [ none ↦ false | some g ↦ true ]
  unfolding contains lookup
  contains_lem = contains_element (c.sparse p).index (c.sparse p).gain

  -- What update and gain see of a part.
  pub gain-present : (g : ℤ) → lookup c p ≡ some g → (c.sparse p).gain ≡ g
  gain-present g here = let (place, at, value) = has_index g here in value

  pub gain-absent : lookup c p ≡ none → (c.sparse p).gain ≡ not_cached
  gain-absent out = v.absent p (no_index out)
