-- ===== src/Containers/SparseSet/Bounds.antt =====
-- The representation invariant of SparseSet, and the operations.
use kahypar.Prelude.{ℕ, ◌-◌, ◌≤◌, ◌<◌, ◌≡◌, arith, false}
use kahypar.Prelude.Pigeonhole.{pigeonhole}
use kahypar.Containers.SparseSet.{SparseSet, sparse, dense, create, contains, add, remove, clear}

-- The first `size` places of `_dense` hold values below the capacity, and `_sparse` sends each back
-- to its place.
pub record IsValid (s : SparseSet) : Type 0 where
  pub below : (i : ℕ) → i < s.size → dense s i < s.capacity
  pub back : (i : ℕ) → i < s.size → sparse s (dense s i) ≡ i

-- The places hold distinct values, so there are no more of them than the capacity.
pub size-le-capacity : (s : SparseSet) → IsValid s → s.size ≤ s.capacity
size-le-capacity s v =
    pigeonhole s.size s.capacity (dense s)
      (record { below = v.below; distinct = λ i j p q e. ground (arith, v.back i p, v.back j q) })

pub add-IsValid :
    (s : SparseSet) (value : ℕ) → IsValid s → value < s.capacity → IsValid (add s value)
unfolding add
add-IsValid s value v h = record {
  below = λ i p. ground (arith, v.below i, v.below (sparse s value));
  back = λ i p. ground (arith, v.below i, v.back i, v.back (sparse s value));
}

pub remove-IsValid :
    (s : SparseSet) (value : ℕ) → IsValid s → value < s.capacity → IsValid (remove s value)
unfolding remove
remove-IsValid s value v h = record {
  below = λ i p. ground (arith, v.below i, v.below (sparse s value), v.below (s.size - 1));
  back = λ i p. ground (
    arith,
    v.below i,
    v.back i,
    v.back (sparse s value),
    v.below (sparse s value),
    v.below (s.size - 1),
    v.back (s.size - 1),
  );
}

-- A new value finds a free place: the write to `_dense` stays inside the allocation.
pub size-lt-capacity :
    (s : SparseSet) (value : ℕ)
    → IsValid s
    → value < s.capacity
    → contains s value ≡ false
    → s.size < s.capacity
unfolding contains add
size-lt-capacity s value v h new =
    ground (arith, size-le-capacity (add s value) (add-IsValid s value v h))

pub clear-IsValid : (s : SparseSet) → IsValid (clear s)
unfolding clear
clear-IsValid s = record { below = λ i p. absurd (omega arith); back = λ i p. absurd (omega arith) }

pub create-IsValid : (k : ℕ) → IsValid (create k)
unfolding create
create-IsValid k = record {
  below = λ i p. absurd (omega arith);
  back = λ i p. absurd (omega arith);
}
