-- ===== src/Containers/ConnectivitySet.antt =====
-- kahypar/datastructure/connectivity_sets.h: ConnectivitySet, the blocks that a net touches, as a
-- vector without duplicates.
pub mod Members
use kahypar.Prelude.{ℕ, Bool, List, [], ◌-◌, ltb, if◌then◌else◌, length}
use kahypar.Prelude.Vectors.{push_back, pop_back, swap_at, find_from}

pub record ConnectivitySet : Type 0 where
  pub contained_parts : List ℕ

unfoldable pub contains : ConnectivitySet → ℕ → Bool
contains s value = ltb (find_from value s.contained_parts 0) (length s.contained_parts)

unfoldable pub add : ConnectivitySet → ℕ → ConnectivitySet
add s value = record { contained_parts = push_back s.contained_parts value }

unfoldable pub remove : ConnectivitySet → ℕ → ConnectivitySet
remove s value =
    let it = find_from value s.contained_parts 0 in
    let parts =
      (if ltb it (length s.contained_parts)
        then swap_at s.contained_parts it (length s.contained_parts - 1)
        else s.contained_parts) in
    record { contained_parts = pop_back parts }

unfoldable pub clear : ConnectivitySet → ConnectivitySet
clear s = record { contained_parts = [] }

unfoldable pub size : ConnectivitySet → ℕ
size s = length s.contained_parts
