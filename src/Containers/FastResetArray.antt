-- ===== src/Containers/FastResetArray.antt =====
-- kahypar/datastructure/fast_reset_array.h: an array that remembers which entries were written, so
-- that a reset touches only these. Its values are the signed gains of the local searches.
pub mod Reset
use kahypar.Prelude.{ℕ, List, [], ◌∷◌, if◌then◌else◌}
use kahypar.Prelude.Arrays.{Array, update as write}
use kahypar.Prelude.Vectors.{push_back}
use kahypar.Prelude.Int.{ℤ, ◌+ℤ◌, ◌==ℤ◌}
use mathlib.Core.List.{reverse}

pub record FastResetArray : Type 0 where
  pub initial_value : ℤ
  pub used_entries : List ℕ
  pub entries : Array ℤ

unfoldable pub create : ℤ → FastResetArray
create initial_value = record {
  initial_value = initial_value;
  used_entries = [];
  entries = λ i. initial_value;
}

abbrev pub get : FastResetArray → ℕ → ℤ
get a index = a.entries index

-- What `set` and `update` do before they write.
unfoldable pub note_use : FastResetArray → ℕ → FastResetArray
note_use a index =
    if a.entries index ==ℤ a.initial_value
    then record a { used_entries = push_back a.used_entries index }
    else a

unfoldable pub set : FastResetArray → ℕ → ℤ → FastResetArray
unfolding note_use
set a index value = let a' = note_use a index in record a' { entries = write a.entries index value }

unfoldable pub unchecked_set : FastResetArray → ℕ → ℤ → FastResetArray
unchecked_set a index value = record a { entries = write a.entries index value }

unfoldable pub update : FastResetArray → ℕ → ℤ → FastResetArray
unfolding note_use
update a index delta =
    let a' = note_use a index in
    record a' { entries = write a.entries index (a.entries index +ℤ delta) }

-- The loop of the plain `resetUsedEntries`, over the used entries from last to first.
unfoldable pub reset_loop : ℤ → List ℕ → Array ℤ → Array ℤ
reset_loop initial [] entries = entries
reset_loop initial (i ∷ is) entries = reset_loop initial is (write entries i initial)

unfoldable pub reset_used_entries : FastResetArray → FastResetArray
reset_used_entries a = record a {
  entries = reset_loop a.initial_value (reverse a.used_entries) a.entries;
  used_entries = [];
}

-- The loop of `resetUsedEntries(container)`: each entry is added to the container's, unless that
-- holds the largest value of its type, which marks it as invalid.
unfoldable pub flush_loop : ℤ → ℤ → List ℕ → Array ℤ → Array ℤ → Array ℤ × Array ℤ
flush_loop limit initial [] container entries = (container, entries)
flush_loop limit initial (i ∷ is) container entries =
    flush_loop limit initial is
      (if container i ==ℤ limit then container else write container i (container i +ℤ entries i))
      (write entries i initial)

unfoldable pub flush_used_entries : ℤ → FastResetArray → Array ℤ → FastResetArray × Array ℤ
flush_used_entries limit a container =
    let (container', entries') =
      flush_loop limit a.initial_value (reverse a.used_entries) container a.entries in
    (record a { entries = entries'; used_entries = [] }, container')
