-- ===== src/Containers/InsertOnlySparseSet/Bounds.antt =====
-- The representation invariant of InsertOnlySparseSet, and the operations.
use kahypar.Prelude.{ℕ, ◌+◌, ◌*◌, ◌^◌, ◌≤◌, ◌<◌, ◌≡◌, ◌⊎◌, arith, false, inl, inr, Bool-cases}
use kahypar.Prelude.Arrays.{fill_lem}
use kahypar.Prelude.Pigeonhole.{pigeonhole}
use kahypar.Containers.SparseSet.{max_value}
use kahypar.Containers.InsertOnlySparseSet.{
  InsertOnlySparseSet, sparse, dense, create, contains, add, clear,
}

-- Marks are unused or at most the threshold, which stays below the mark of an unused value. The
-- first `size` places of `_dense` hold distinct values below the capacity, all marked.
pub record IsValid (s : InsertOnlySparseSet) : Type 0 where
  pub threshold_below : s.threshold < max_value
  pub marks : (v : ℕ) → v < s.capacity → (sparse s v ≡ max_value) ⊎ (sparse s v ≤ s.threshold)
  pub below : (i : ℕ) → i < s.size → dense s i < s.capacity
  pub marked : (i : ℕ) → i < s.size → sparse s (dense s i) ≡ s.threshold
  pub distinct : (i j : ℕ) → i < s.size → j < s.size → dense s i ≡ dense s j → i ≡ j

pub size-le-capacity : (s : InsertOnlySparseSet) → IsValid s → s.size ≤ s.capacity
size-le-capacity s v =
    pigeonhole s.size s.capacity (dense s) (record { below = v.below; distinct = v.distinct })

-- The loop of the constructor wipes all marks as long as `2 * k` does not wrap.
pub create-IsValid : (k : ℕ) → k < 2 ^ 31 → IsValid (create k)
unfolding create
create-IsValid k h = record {
  threshold_below = omega arith;
  marks = λ v p. ground (arith, fill_lem (2 * k) max_value (λ i. 0) v);
  below = λ i p. absurd (omega arith);
  marked = λ i p. absurd (omega arith);
  distinct = λ i j p. absurd (omega arith);
}

pub add-IsValid :
    (s : InsertOnlySparseSet) (value : ℕ) → IsValid s → value < s.capacity → IsValid (add s value)
unfolding add
add-IsValid s value v h = record {
  threshold_below = ground (arith, v.threshold_below);
  marks = λ w p. ground (arith, v.marks w);
  below = λ i p. ground (arith, v.below i);
  marked = λ i p. ground (arith, v.below i, v.marked i);
  distinct =
      λ i j p q e. ground (arith, v.below i, v.below j, v.marked i, v.marked j, v.distinct i j);
}

pub clear-IsValid : (s : InsertOnlySparseSet) → IsValid s → IsValid (clear s)
unfolding clear
clear-IsValid s v = record {
  threshold_below = ground (arith, v.threshold_below);
  marks =
      λ w p. ground (arith, v.marks w, v.threshold_below, fill_lem s.capacity max_value s.cells w);
  below = λ i p. absurd (ground arith);
  marked = λ i p. absurd (ground arith);
  distinct = λ i j p. absurd (ground arith);
}

size-lt-capacity :
    (s : InsertOnlySparseSet) (value : ℕ)
    → IsValid s
    → value < s.capacity
    → contains s value ≡ false
    → s.size < s.capacity
unfolding contains add
size-lt-capacity s value v h new =
    ground (arith, size-le-capacity (add s value) (add-IsValid s value v h))

-- Adding a value below the capacity to a valid set writes no cell past the allocation, which has two
-- cells for each value of the capacity.
pub cells-add :
    (s : InsertOnlySparseSet) (value : ℕ) (i : ℕ)
    → IsValid s
    → value < s.capacity
    → s.capacity + s.capacity ≤ i
    → (add s value).cells i ≡ s.cells i
unfolding add contains
cells-add s value i v h past = elim (Bool-cases (contains s value)) [
  | inl e ↦ ground (arith, e)
  | inr e ↦ ground (arith, e, size-lt-capacity s value v h e)
]
