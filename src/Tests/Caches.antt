-- ===== src/Tests/Caches.antt =====
-- A gain cache where every hypernode could move to block 1.
use kahypar.Prelude.{ℕ, ◌≡◌, refl, true, none, some, List, [], ◌∷◌, arith}
use mathlib.Core.Option
use mathlib.Core.Path.{subst}
use kahypar.Prelude.Int.{pos}
use kahypar.Refinement.GainCache.{
  KwayGainCache, CacheElement, fresh_cache_element, add, rollback_delta, remove_entry, remove,
  update_from_and_to_part_of_moved,
}
use kahypar.Refinement.GainCache.Elements.{IsValid, lookup, fresh-IsValid, add-IsValid}
use kahypar.Refinement.GainCache.Lookup.{gain_of, IsSound}
use kahypar.Refinement.GainCache.Series.{
  Change, run, apply, IsAllowed, IsAllowedSeries, rollback_delta-run,
}

abbrev one_gain : CacheElement
one_gain = add fresh_cache_element 1 (pos 5)

one_gain-IsValid : IsValid one_gain
unfolding lookup
one_gain-IsValid = add-IsValid fresh_cache_element fresh-IsValid 1 (pos 5) refl

abbrev filled : KwayGainCache
filled = record { cache = λ hn. some one_gain; deltas = [] }

filled-IsSound : IsSound filled.cache
filled-IsSound hn c e = subst IsValid (Option.some-injective one_gain c e) one_gain-IsValid

-- Hypernode 0 moves from block 0 to 1, then is next to block 2.
abbrev changes : List Change
changes = Change.update_moved 0 0 1 true ∷ Change.add_entry_due_to_increase 0 2 (pos 7) ∷ []

changes-IsAllowedSeries : IsAllowedSeries changes filled
unfolding IsAllowedSeries IsAllowed apply gain_of lookup update_from_and_to_part_of_moved
    remove_entry add remove Option.bind
changes-IsAllowedSeries = (
  (pos 5, refl, λ e. (ground arith, refl)),
  λ h e. (
    subst (λ (k : KwayGainCache). gain_of k.cache 0 2 ≡ none) (Option.some-injective _ h e) refl,
    λ h' e'. refl,
  ),
)

rollback_delta-run_example :
    (h : KwayGainCache) × (Option.bind (run changes filled) rollback_delta ≡ some h)
    × (h.deltas ≡ [])
    × ((hn part : ℕ) → gain_of h.cache hn part ≡ gain_of filled.cache hn part)
rollback_delta-run_example =
    rollback_delta-run changes filled filled-IsSound refl changes-IsAllowedSeries
