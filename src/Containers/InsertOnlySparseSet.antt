-- ===== src/Containers/InsertOnlySparseSet.antt =====
-- kahypar/datastructure/sparse_set.h: InsertOnlySparseSet, which marks its members with a threshold
-- that grows at each clear. Memory and value type are those of SparseSet.
pub mod Bounds
pub mod Members
use kahypar.Prelude.{ℕ, zero, suc, ◌+◌, ◌*◌, ◌%◌, ◌^◌, Bool, List, [], ◌∷◌, ◌==◌, if◌then◌else◌}
use kahypar.Prelude.Arrays.{Array, update, fill}
use kahypar.Containers.SparseSet.{max_value}

pub record InsertOnlySparseSet : Type 0 where
  pub capacity : ℕ
  pub size : ℕ
  pub threshold : ℕ
  pub cells : Array ℕ

abbrev pub sparse : InsertOnlySparseSet → ℕ → ℕ
sparse s v = s.cells v

abbrev pub dense : InsertOnlySparseSet → ℕ → ℕ
dense s i = s.cells (s.capacity + i)

unfoldable pub create : ℕ → InsertOnlySparseSet
create k = record {
  capacity = k;
  size = 0;
  threshold = 0;
  cells = fill ((2 * k) % 2 ^ 32) max_value (λ i. 0);
}

unfoldable pub contains : InsertOnlySparseSet → ℕ → Bool
contains s value = sparse s value == s.threshold

unfoldable pub add : InsertOnlySparseSet → ℕ → InsertOnlySparseSet
add s value = if sparse s value == s.threshold then s else record s {
  cells = update (update s.cells value s.threshold) (s.capacity + s.size) value;
  size = s.size + 1;
}

-- Where the threshold would reach the mark of an unused value, the marks are wiped and it starts
-- again at 0. `_dense - _sparse.get()` is the capacity.
unfoldable pub clear : InsertOnlySparseSet → InsertOnlySparseSet
clear s =
    if (s.threshold + 1) % 2 ^ 32 == max_value
    then record s { size = 0; threshold = 0; cells = fill s.capacity max_value s.cells }
    else record s { size = 0; threshold = (s.threshold + 1) % 2 ^ 32 }

-- `n` values of `_dense` from place `i` on.
unfoldable pub values_from : InsertOnlySparseSet → ℕ → ℕ → List ℕ
values_from s i zero = []
values_from s i (suc n) = dense s i ∷ values_from s (i + 1) n

-- What a loop from `begin()` to `end()` visits.
abbrev pub values : InsertOnlySparseSet → List ℕ
values s = values_from s 0 s.size
