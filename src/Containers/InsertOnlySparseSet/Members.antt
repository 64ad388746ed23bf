-- ===== src/Containers/InsertOnlySparseSet/Members.antt =====
-- InsertOnlySparseSet against its abstract view, a set of values that can only grow or be cleared.
use kahypar.Prelude.{ℕ, ◌*◌, ◌^◌, ◌<◌, ◌≡◌, arith, true, false, if◌then◌else◌, ◌==◌}
use kahypar.Prelude.Arrays.{fill_lem}
use kahypar.Containers.SparseSet.{max_value}
use kahypar.Containers.InsertOnlySparseSet.{InsertOnlySparseSet, create, contains, add, clear}
use kahypar.Containers.InsertOnlySparseSet.Bounds.{IsValid}

pub contains-add :
    (s : InsertOnlySparseSet) (value w : ℕ)
    → IsValid s
    → value < s.capacity
    → w < s.capacity
    → contains (add s value) w ≡ (if value == w then true else contains s w)
unfolding contains add
contains-add s value w v h hw = ground arith

-- After a clear, a valid set contains no value below its capacity, also where the threshold wraps.
pub contains-clear :
    (s : InsertOnlySparseSet) (w : ℕ) → IsValid s → w < s.capacity → contains (clear s) w ≡ false
unfolding contains clear
contains-clear s w v h =
    ground (arith, v.marks w, v.threshold_below, fill_lem s.capacity max_value s.cells w)

pub contains-create : (k w : ℕ) → k < 2 ^ 31 → w < k → contains (create k) w ≡ false
unfolding contains create
contains-create k w h p = ground (arith, fill_lem (2 * k) max_value (λ i. 0) w)
