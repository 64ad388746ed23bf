-- ===== src/Refinement/GainCache/Series.antt =====
-- A series of changes to a k-way gain cache, and its rollback.
use kahypar.Prelude.{
  ℕ, ◌≡◌, ◌≢◌, refl, ◌∙◌, sym, ap, Bool, true, false, Option, none, some, List, [], ◌∷◌, arith,
  ◌==◌, if◌then◌else◌,
}
use mathlib.Core.Option
use kahypar.Prelude.Arrays.{update}
use kahypar.Prelude.Int.{ℤ, pos, ◌+ℤ◌, ◌-ℤ◌, +ℤ_parts, -ℤ_parts, eq_of_parts}
use kahypar.Refinement.GainCache.{
  CacheElement, RollbackAction, KwayGainCache, fresh_cache_element, not_cached, add, update_gain,
  gain, remove_entry, add_entry, element_of, update_from_and_to_part_of_moved,
  update_existing_entry, roll_back, rollback_delta,
}
use kahypar.Refinement.GainCache.Elements.{
  IsValid, lookup, fresh-IsValid, lookup-add, update_gain-IsValid, lookup-update_gain,
}
use kahypar.Refinement.GainCache.Lookup.{
  update-IsSound, gain_of-update, gain_of, IsSound, gain_of-element, element_of-gain, undo_update,
}
use kahypar.Refinement.GainCache.Rollback.{
  IsStep, IsStep-refl, IsStep-trans, remove_entry_lem, added_lem, IsUndo-one,
}

abbrev or_fresh : Option CacheElement → CacheElement
or_fresh o = elim o [ none ↦ fresh_cache_element | some c ↦ c ]

abbrev gain_in : Option CacheElement → ℕ → Option ℤ
gain_in o q = elim o [ none ↦ none | some c ↦ lookup c q ]

or_fresh-IsValid :
    (o : Option CacheElement)
    → ((c : CacheElement) → o ≡ some c → IsValid c)
    → IsValid (or_fresh o) × ((q : ℕ) → lookup (or_fresh o) q ≡ gain_in o q)
unfolding lookup
or_fresh-IsValid none v = (fresh-IsValid, λ q. refl)
or_fresh-IsValid (some c) v = (v c refl, λ q. refl)

add_entry_lem :
    (g : KwayGainCache) (hn part : ℕ) (value : ℤ)
    → IsSound g.cache
    → gain_of g.cache hn part ≡ none
    → IsStep g (add_entry g hn part value)
unfolding add_entry element_of gain_of
add_entry_lem g hn part value s out =
    let (v, look) = or_fresh-IsValid (g.cache hn) (s hn) in
    added_lem g hn part value (not_cached -ℤ value) (element_of g hn) s v look out

update_existing_entry_lem :
    (g : KwayGainCache) (hn part : ℕ) (delta x : ℤ)
    → IsSound g.cache
    → gain_of g.cache hn part ≡ some x
    → (h : KwayGainCache) × (update_existing_entry g hn part delta ≡ some h) × IsStep g h
unfolding update_existing_entry
update_existing_entry_lem g hn part delta x s here =
    let (c, at, look) = element_of-gain g.cache hn part x here in
    let v = s hn c at in
    let c' = update_gain c part delta in
    let back : x +ℤ delta +ℤ (pos 0 -ℤ delta) ≡ x =
      eq_of_parts _ _ (omega (arith, +ℤ_parts, -ℤ_parts)) in
    (
      record {
        cache = update g.cache hn (some c');
        deltas =
            record {
              hn = hn;
              part = part;
              delta = pos 0 -ℤ delta;
              action = RollbackAction.do_nothing;
            }
            ∷ g.deltas;
      },
      rw (update_existing_entry, at) refl,
      record {
        sound =
            update-IsSound g.cache hn c' (λ y ne. s y) (update_gain-IsValid c v part x delta look);
        undo = IsUndo-one g.cache _ g.deltas c' (λ e ve same.
            undo_update e ve hn part (pos 0 -ℤ delta) (gain_of g.cache hn) x (x +ℤ delta) here back
              (λ q.
                same q
                ∙ lookup-update_gain c v part x delta q look
                ∙ ap (λ t. if part == q then some (x +ℤ delta) else t)
                    (sym (gain_of-element g.cache hn q c at))));
      },
    )

move_lem :
    (g : KwayGainCache) (hn from to : ℕ) (remains : Bool) (x : ℤ)
    → IsSound g.cache
    → gain_of g.cache hn to ≡ some x
    → (remains ≡ true → (from ≢ to) × (gain_of g.cache hn from ≡ none))
    → (h : KwayGainCache) × (update_from_and_to_part_of_moved g hn from to remains ≡ some h)
      × IsStep g h
unfolding update_from_and_to_part_of_moved Option.bind
move_lem g hn from to false x s here free =
    let (c, at, look) = element_of-gain g.cache hn to x here in
    let (h, e, step) = remove_entry_lem g hn to x s here in (h, rw (Option.bind, at) e, step)
move_lem g hn from to true x s here free =
    let (c, at, look) = element_of-gain g.cache hn to x here in
    let (apart, out) = free refl in
    let delta = gain c from +ℤ gain c to in
    let value = pos 0 -ℤ gain c to in
    let g' : KwayGainCache = record {
      cache = update g.cache hn (some (add c from value));
      deltas =
          record { hn = hn; part = from; delta = delta; action = RollbackAction.do_remove }
          ∷ g.deltas;
    } in
    let first : IsStep g g' =
      added_lem g hn from value delta c s (s hn c at) (λ q. sym (gain_of-element g.cache hn q c at))
        out in
    let here' : gain_of g'.cache hn to ≡ some x = ground (
      arith,
      gain_of-update g.cache hn hn to (add c from value),
      lookup-add c (s hn c at) from value to,
      look,
      apart,
    ) in
    let (h, e, second) = remove_entry_lem g' hn to x first.sound here' in
    (h, rw (Option.bind, at) e, IsStep-trans g g' h first second)

-- The calls of an FM pass between two rollbacks.
pub data Change : Type 0 where
  remove_entry_due_to_decrease : ℕ → ℕ → Change
  add_entry_due_to_increase : ℕ → ℕ → ℤ → Change
  update_entry : ℕ → ℕ → ℤ → Change
  update_moved : ℕ → ℕ → ℕ → Bool → Change

unfoldable pub apply : Change → KwayGainCache → Option KwayGainCache
apply (Change.remove_entry_due_to_decrease hn part) g = remove_entry g hn part
apply (Change.add_entry_due_to_increase hn part value) g = some (add_entry g hn part value)
apply (Change.update_entry hn part delta) g = update_existing_entry g hn part delta
apply (Change.update_moved hn from to remains) g =
    update_from_and_to_part_of_moved g hn from to remains

unfoldable pub run : List Change → KwayGainCache → Option KwayGainCache
run [] g = some g
run (x ∷ xs) g = Option.bind (apply x g) (run xs)

-- What the members assert about the entries they change.
unfoldable pub IsAllowed : Change → KwayGainCache → Type 0
IsAllowed (Change.remove_entry_due_to_decrease hn part) g =
    (x : ℤ) × (gain_of g.cache hn part ≡ some x)
IsAllowed (Change.add_entry_due_to_increase hn part value) g = gain_of g.cache hn part ≡ none
IsAllowed (Change.update_entry hn part delta) g = (x : ℤ) × (gain_of g.cache hn part ≡ some x)
IsAllowed (Change.update_moved hn from to remains) g =
    (x : ℤ) × (gain_of g.cache hn to ≡ some x)
    × (remains ≡ true → (from ≢ to) × (gain_of g.cache hn from ≡ none))

unfoldable pub IsAllowedSeries : List Change → KwayGainCache → Type 0
IsAllowedSeries [] g = g ≡ g
IsAllowedSeries (x ∷ xs) g =
    IsAllowed x g × ((h : KwayGainCache) → apply x g ≡ some h → IsAllowedSeries xs h)

apply_lem :
    (x : Change) (g : KwayGainCache)
    → IsSound g.cache
    → IsAllowed x g
    → (h : KwayGainCache) × (apply x g ≡ some h) × IsStep g h
unfolding apply IsAllowed
apply_lem (Change.remove_entry_due_to_decrease hn part) g s (x, here) =
    remove_entry_lem g hn part x s here
apply_lem (Change.add_entry_due_to_increase hn part value) g s out =
    (add_entry g hn part value, refl, add_entry_lem g hn part value s out)
apply_lem (Change.update_entry hn part delta) g s (x, here) =
    update_existing_entry_lem g hn part delta x s here
apply_lem (Change.update_moved hn from to remains) g s (x, here, free) =
    move_lem g hn from to remains x s here free

run_lem :
    (xs : List Change) (g : KwayGainCache)
    → IsSound g.cache
    → IsAllowedSeries xs g
    → (h : KwayGainCache) × (run xs g ≡ some h) × IsStep g h
unfolding run IsAllowedSeries Option.bind
run_lem [] g s a = (g, refl, IsStep-refl g s)
run_lem (x ∷ xs) g s (now, later) =
    let (h, e, first) = apply_lem x g s now in
    let (f, e', rest) = run_lem xs h first.sound (later h e) in
    (f, rw (Option.bind, e) e', IsStep-trans g h f first rest)

-- From a cache whose elements are valid and that has no record to roll back: any series of changes, each
-- to an entry as its member asserts, runs through, rollbackDelta then finds an element for every
-- record, and afterwards every hypernode has the same parts with the same gains as before the series.
pub rollback_delta-run :
    (xs : List Change) (g : KwayGainCache)
    → IsSound g.cache
    → g.deltas ≡ []
    → IsAllowedSeries xs g
    → (h : KwayGainCache) × (Option.bind (run xs g) rollback_delta ≡ some h)
      × (h.deltas ≡ [])
      × ((hn part : ℕ) → gain_of h.cache hn part ≡ gain_of g.cache hn part)
unfolding Option.bind rollback_delta roll_back
rollback_delta-run xs g s none_yet a =
    let (f, e, step) = run_lem xs g s a in
    let (cache, back, like) =
      step.undo f.cache
        (record { gains = λ hn part. refl; allocated = λ hn c at. (c, at); sound = step.sound }) in
    let done : roll_back f.cache f.deltas ≡ some cache = back ∙ ap (roll_back cache) none_yet in
    (
      record { cache = cache; deltas = [] },
      rw (Option.bind, e) (rw (rollback_delta, done) refl),
      refl,
      like.gains,
    )
