-- ===== src/Containers/SparseSet/Members.antt =====
-- SparseSet against its abstract view, a set of values: what each operation does to membership.
use kahypar.Prelude.{
  ℕ, zero, suc, ◌+◌, ◌-◌, ◌<◌, ◌≡◌, arith, true, false, if◌then◌else◌, ◌==◌, leb, ◌&&◌, count,
}
use kahypar.Containers.SparseSet.{
  SparseSet, sparse, create, contains, add, remove, clear, values_from, values,
}
use kahypar.Containers.SparseSet.Bounds.{IsValid}

pub contains-add :
    (s : SparseSet) (value w : ℕ)
    → IsValid s
    → value < s.capacity
    → w < s.capacity
    → contains (add s value) w ≡ (if value == w then true else contains s w)
unfolding contains add
contains-add s value w v h hw = ground (arith, v.below (sparse s w), v.back (sparse s w))

pub contains-remove :
    (s : SparseSet) (value w : ℕ)
    → IsValid s
    → value < s.capacity
    → w < s.capacity
    → contains (remove s value) w ≡ (if value == w then false else contains s w)
unfolding contains remove
contains-remove s value w v h hw = ground (
  arith,
  v.below (sparse s w),
  v.back (sparse s w),
  v.below (s.size - 1),
  v.back (s.size - 1),
  v.back (sparse s value),
)

-- Neither a new set nor a cleared one holds anything.
pub contains-clear : (s : SparseSet) (w : ℕ) → contains (clear s) w ≡ false
unfolding contains clear
contains-clear s w = ground arith

pub contains-create : (k w : ℕ) → contains (create k) w ≡ false
unfolding contains create
contains-create k w = ground arith

count-values_from :
    (s : SparseSet) (w i n : ℕ)
    → IsValid s
    → w < s.capacity
    → i + n ≡ s.size
    → count w (values_from s i n) ≡ (if contains s w && leb i (sparse s w) then 1 else 0)
unfolding contains values_from count
count-values_from s w i zero v h e = ground arith
count-values_from s w i (suc n) v h e =
    ground (arith, count-values_from s w (i + 1) n v h, v.back i, v.below i)

-- In a valid set, the values that a loop from `begin()` to `end()` visits contain a value below the
-- capacity once if the set contains it, and else never.
pub count-values :
    (s : SparseSet) (w : ℕ)
    → IsValid s
    → w < s.capacity
    → count w (values s) ≡ (if contains s w then 1 else 0)
count-values s w v h = ground (arith, count-values_from s w 0 s.size v h)

pub size-add :
    (s : SparseSet) (value : ℕ)
    → (add s value).size ≡ (if contains s value then s.size else s.size + 1)
unfolding add contains
size-add s value = ground arith

pub size-remove :
    (s : SparseSet) (value : ℕ)
    → (remove s value).size ≡ (if contains s value then s.size - 1 else s.size)
unfolding remove contains
size-remove s value = ground arith
