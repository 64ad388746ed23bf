-- ===== src/Refinement/GainCache.antt =====
-- partition/refinement/gain_cache_element.h and kway_fm_gain_cache.h: CacheElement, KwayGainCache.
--
-- Gains are integers without a bound: where the program's arithmetic on kNotCached leaves the range of
-- its 32-bit type, the value is undefined there. kInvalidPart is `none`, and so is a null pointer. The
-- newest entry of _deltas stands first.
use kahypar.Prelude.{
  ℕ, zero, suc, ◌+◌, ◌-◌, Bool, true, false, Option, none, some, List, [], ◌∷◌, if◌then◌else◌,
}
use kahypar.Prelude.Arrays.{Array, update, fill}
use kahypar.Prelude.Int.{ℤ, pos, ◌+ℤ◌, ◌-ℤ◌}
use mathlib.Core.Option
pub mod Elements
pub mod Lookup
pub mod Rollback
pub mod Series

-- numeric_limits<HyperedgeWeight>::max()
abbrev pub not_cached : ℤ
not_cached = pos 2147483647

pub record Element : Type 0 where
  pub index : Option ℕ
  pub gain : ℤ

abbrev pub fresh_element : Element
fresh_element = record { index = none; gain = not_cached }

pub record CacheElement : Type 0 where
  pub size : ℕ
  pub dense : Array ℕ
  pub sparse : Array Element

abbrev pub fresh_cache_element : CacheElement
fresh_cache_element = record { size = 0; dense = λ i. 2147483647; sparse = λ p. fresh_element }

unfoldable pub add : CacheElement → ℕ → ℤ → CacheElement
add c part gain = record {
  size = c.size + 1;
  dense = update c.dense c.size part;
  sparse = update c.sparse part (record { index = some c.size; gain = gain });
}

unfoldable pub add_to_active_parts : CacheElement → ℕ → CacheElement
add_to_active_parts c part = record {
  size = c.size + 1;
  dense = update c.dense c.size part;
  sparse = update c.sparse part (record (c.sparse part) { index = some c.size });
}

-- The place of a part that is not there does not exist: nothing changes.
unfoldable pub remove : CacheElement → ℕ → CacheElement
remove c part = elim (c.sparse part).index [
  | none ↦ c
  | some index ↦
      let e = c.dense (c.size - 1) in
      record {
        size = c.size - 1;
        dense = update c.dense index e;
        sparse =
            update (update c.sparse e (record (c.sparse e) { index = some index })) part
              fresh_element;
      }
]

abbrev pub gain : CacheElement → ℕ → ℤ
gain c part = (c.sparse part).gain

unfoldable pub update_gain : CacheElement → ℕ → ℤ → CacheElement
update_gain c part delta = record c {
  sparse = update c.sparse part (record (c.sparse part) { gain = (c.sparse part).gain +ℤ delta });
}

unfoldable pub set : CacheElement → ℕ → ℤ → CacheElement
set c part gain = record c {
  sparse = update c.sparse part (record (c.sparse part) { gain = gain });
}

unfoldable pub contains : CacheElement → ℕ → Bool
contains c part = elim (c.sparse part).index [ none ↦ false | some index ↦ true ]

-- For a cache element of `k` parts.
unfoldable pub clear : ℕ → CacheElement → CacheElement
clear k c = record c { size = 0; sparse = fill k fresh_element c.sparse }

pub data RollbackAction : Type 0 where
  do_remove do_add do_nothing : RollbackAction

pub record RollbackElement : Type 0 where
  pub hn : ℕ
  pub part : ℕ
  pub delta : ℤ
  pub action : RollbackAction

pub record KwayGainCache : Type 0 where
  pub cache : Array (Option CacheElement)
  pub deltas : List RollbackElement

abbrev pub set_element : KwayGainCache → ℕ → CacheElement → KwayGainCache
set_element g hn c = record g { cache = update g.cache hn (some c) }

abbrev pub emplace : KwayGainCache → ℕ → ℕ → ℤ → RollbackAction → KwayGainCache
emplace g hn part delta action = record g {
  deltas = record { hn = hn; part = part; delta = delta; action = action } ∷ g.deltas;
}

unfoldable pub entry_exists : KwayGainCache → ℕ → ℕ → Bool
entry_exists g hn part = elim (g.cache hn) [ none ↦ false | some c ↦ contains c part ]

unfoldable pub entry : KwayGainCache → ℕ → ℕ → Option ℤ
entry g hn part = Option.map (λ c. gain c part) (g.cache hn)

-- A member that reads through a null pointer has no result.
unfoldable pub remove_entry : KwayGainCache → ℕ → ℕ → Option KwayGainCache
remove_entry g hn part =
    Option.map
      (λ c. set_element (emplace g hn part (gain c part) RollbackAction.do_add) hn (remove c part))
      (g.cache hn)

-- The element of `hn`, allocated where there is none.
unfoldable pub element_of : KwayGainCache → ℕ → CacheElement
element_of g hn = elim (g.cache hn) [ none ↦ fresh_cache_element | some c ↦ c ]

unfoldable pub add_entry : KwayGainCache → ℕ → ℕ → ℤ → KwayGainCache
add_entry g hn part value =
    emplace (set_element g hn (add (element_of g hn) part value)) hn part (not_cached -ℤ value)
      RollbackAction.do_remove

unfoldable pub initialize_entry : KwayGainCache → ℕ → ℕ → ℤ → KwayGainCache
initialize_entry g hn part value = set_element g hn (add (element_of g hn) part value)

unfoldable pub update_from_and_to_part_of_moved :
    KwayGainCache → ℕ → ℕ → ℕ → Bool → Option KwayGainCache
update_from_and_to_part_of_moved g hn from to remains = Option.bind (g.cache hn) (λ c.
    let to_gain = gain c to in
    let g' =
      if remains
      then set_element (emplace g hn from (gain c from +ℤ to_gain) RollbackAction.do_remove) hn
          (add c from (pos 0 -ℤ to_gain))
      else g in
    remove_entry g' hn to)

unfoldable pub update_existing_entry : KwayGainCache → ℕ → ℕ → ℤ → Option KwayGainCache
update_existing_entry g hn part delta =
    Option.map
      (λ c.
        emplace (set_element g hn (update_gain c part delta)) hn part (pos 0 -ℤ delta)
          RollbackAction.do_nothing)
      (g.cache hn)

unfoldable pub update_entry_if_it_exists : KwayGainCache → ℕ → ℕ → ℤ → Option KwayGainCache
update_entry_if_it_exists g hn part delta =
    if entry_exists g hn part then update_existing_entry g hn part delta else some g

-- clear(hn), and clear().
unfoldable pub clear_entries : ℕ → KwayGainCache → ℕ → KwayGainCache
clear_entries k g hn = elim (g.cache hn) [ none ↦ g | some c ↦ set_element g hn (clear k c) ]

unfoldable pub clear_all : ℕ → KwayGainCache → KwayGainCache
clear_all zero g = g
clear_all (suc n) g =
    let g' = clear_all n g in
    elim (g'.cache n) [ none ↦ g' | some c ↦ set_element g' n fresh_cache_element ]

-- One round of rollbackDelta, on the element of its hypernode.
unfoldable pub roll_back_element : CacheElement → RollbackElement → CacheElement
roll_back_element c r = elim (contains c r.part) [
  | true ↦
      let c' = update_gain c r.part r.delta in
      elim r.action [ do_remove ↦ remove c' r.part | do_add ↦ c' | do_nothing ↦ c' ]
  | false ↦
      let c' = set c r.part r.delta in
      elim r.action [ do_remove ↦ c' | do_add ↦ add_to_active_parts c' r.part | do_nothing ↦ c' ]
]

unfoldable pub roll_back :
    Array (Option CacheElement) → List RollbackElement → Option (Array (Option CacheElement))
roll_back cache [] = some cache
roll_back cache (r ∷ rs) =
    Option.bind (cache r.hn) (λ c. roll_back (update cache r.hn (some (roll_back_element c r))) rs)

unfoldable pub rollback_delta : KwayGainCache → Option KwayGainCache
rollback_delta g =
    Option.map (λ cache. record { cache = cache; deltas = [] }) (roll_back g.cache g.deltas)

unfoldable pub reset_delta : KwayGainCache → KwayGainCache
reset_delta g = record g { deltas = [] }
