-- ===== src/Containers/SparseSet.antt =====
-- kahypar/datastructure/sparse_set.h: SparseSetBase and SparseSet.
--
-- One allocation of 2k values holds both arrays, as in the code: `_sparse` is its first half, and
-- `_dense` points k values further. ValueType is a 32-bit unsigned integer (HypernodeID).
pub mod Bounds
pub mod Members
pub mod Refine
use kahypar.Prelude.{
  ℕ, zero, suc, ◌+◌, ◌-◌, ◌*◌, ◌%◌, ◌^◌, ◌≤◌, ◌<◌, ◌≡◌, Bool, List, [], ◌∷◌, ◌&&◌, ltb, ◌==◌,
  if◌then◌else◌,
}
use kahypar.Prelude.Arrays.{Array, update, fill}

-- std::numeric_limits<ValueType>::max()
abbrev pub max_value : ℕ
max_value = 2 ^ 32 - 1

-- `capacity` is the distance from `_sparse` to `_dense`.
pub record SparseSet : Type 0 where
  pub capacity : ℕ
  pub size : ℕ
  pub cells : Array ℕ

abbrev pub sparse : SparseSet → ℕ → ℕ
sparse s v = s.cells v

abbrev pub dense : SparseSet → ℕ → ℕ
dense s i = s.cells (s.capacity + i)

abbrev pub set_sparse : SparseSet → ℕ → ℕ → SparseSet
set_sparse s v x = record s { cells = update s.cells v x }

abbrev pub set_dense : SparseSet → ℕ → ℕ → SparseSet
set_dense s i x = record s { cells = update s.cells (s.capacity + i) x }

-- The constructor. `make_unique` zeroes the memory, and the loop's bound `2 * k` is computed in
-- ValueType, so it wraps.
unfoldable pub create : ℕ → SparseSet
create k = record { capacity = k; size = 0; cells = fill ((2 * k) % 2 ^ 32) max_value (λ i. 0) }

unfoldable pub contains : SparseSet → ℕ → Bool
contains s value = let index = sparse s value in ltb index s.size && (dense s index == value)

unfoldable pub add : SparseSet → ℕ → SparseSet
add s value =
    let index = sparse s value in
    if ltb index s.size && (dense s index == value)
    then s
    else (let s' = set_dense (set_sparse s value s.size) s.size value in
        record s' { size = s.size + 1 })

unfoldable pub remove : SparseSet → ℕ → SparseSet
remove s value =
    let index = sparse s value in
    if ltb index s.size && (dense s index == value)
    then (let e = dense s (s.size - 1) in
        set_sparse (set_dense (record s { size = s.size - 1 }) index e) e index)
    else s

unfoldable pub clear : SparseSet → SparseSet
clear s = record s { size = 0 }

-- `n` values of `_dense` from place `i` on.
unfoldable pub values_from : SparseSet → ℕ → ℕ → List ℕ
values_from s i zero = []
values_from s i (suc n) = dense s i ∷ values_from s (i + 1) n

-- What a loop from `begin()` to `end()` visits.
abbrev pub values : SparseSet → List ℕ
values s = values_from s 0 s.size
