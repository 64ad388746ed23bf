-- ===== src/Containers/SparseSet/Refine.antt =====
-- SparseSet as a whole: sequences of operations against a plain set of values.
use kahypar.Prelude.{
  ℕ, ◌<◌, ◌≡◌, refl, Bool, true, false, List, [], ◌∷◌, arith, ◌==◌, if◌then◌else◌,
}
use kahypar.Containers.SparseSet.{SparseSet, contains, add, remove, clear}
use kahypar.Containers.SparseSet.Bounds.{IsValid, add-IsValid, remove-IsValid, clear-IsValid}
use kahypar.Containers.SparseSet.Members.{contains-add, contains-remove, contains-clear}

-- What a client can ask of the set.
pub data Op : Type 0 where
  insert : ℕ → Op
  erase : ℕ → Op
  reset : Op

unfoldable pub apply : SparseSet → Op → SparseSet
apply s (insert v) = add s v
apply s (erase v) = remove s v
apply s reset = clear s

unfoldable pub run : SparseSet → List Op → SparseSet
run s [] = s
run s (op ∷ ops) = run (apply s op) ops

-- The abstract set is its membership test.
abbrev pub model_apply : (ℕ → Bool) → Op → ℕ → Bool
model_apply m (insert v) w = if v == w then true else m w
model_apply m (erase v) w = if v == w then false else m w
model_apply m reset w = false

abbrev pub model_run : (ℕ → Bool) → List Op → ℕ → Bool
model_run m [] = m
model_run m (op ∷ ops) = model_run (model_apply m op) ops

abbrev pub InRange : ℕ → Op → Type 0
InRange k (insert v) = v < k
InRange k (erase v) = v < k
InRange k reset = Unit

abbrev pub AllInRange : ℕ → List Op → Type 0
AllInRange k [] = Unit
AllInRange k (op ∷ ops) = InRange k op × AllInRange k ops

apply-IsValid : (s : SparseSet) (op : Op) → IsValid s → InRange s.capacity op → IsValid (apply s op)
unfolding apply
apply-IsValid s (insert x) v h = add-IsValid s x v h
apply-IsValid s (erase x) v h = remove-IsValid s x v h
apply-IsValid s reset v h = clear-IsValid s

capacity-apply : (s : SparseSet) (op : Op) → (apply s op).capacity ≡ s.capacity
unfolding apply add remove clear
capacity-apply s (insert x) = ground arith
capacity-apply s (erase x) = ground arith
capacity-apply s reset = refl

contains-apply :
    (s : SparseSet) (op : Op) (m : ℕ → Bool) (w : ℕ)
    → IsValid s
    → InRange s.capacity op
    → w < s.capacity
    → contains s w ≡ m w
    → contains (apply s op) w ≡ model_apply m op w
unfolding apply
contains-apply s (insert x) m w v h p e = ground (arith, contains-add s x w v h p)
contains-apply s (erase x) m w v h p e = ground (arith, contains-remove s x w v h p)
contains-apply s reset m w v h p e = contains-clear s w

-- From a valid set that agrees with a membership test below its capacity, any sequence of insertions and
-- removals of values below the capacity, and of clears, ends in a set that agrees with the test's own run.
pub run_refines :
    (ops : List Op) (s : SparseSet) (m : ℕ → Bool)
    → IsValid s
    → AllInRange s.capacity ops
    → ((w : ℕ) → w < s.capacity → contains s w ≡ m w)
    → (w : ℕ) → w < s.capacity
    → contains (run s ops) w ≡ model_run m ops w
unfolding run
run_refines [] s m v h e w p = e w p
run_refines (op ∷ ops) s m v h e w p =
    run_refines ops (apply s op) (model_apply m op) (apply-IsValid s op v h.0)
      (rw (capacity-apply s op) h.1)
      (λ x q. let q' = rw (capacity-apply s op) at q in contains-apply s op m x v h.0 q' (e x q')) w
      (rw (capacity-apply s op) p)
