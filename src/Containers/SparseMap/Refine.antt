-- ===== src/Containers/SparseMap/Refine.antt =====
-- SparseMap as a whole: sequences of operations against a finite map.
use kahypar.Prelude.{ℕ, ◌<◌, ◌≡◌, Option, none, some, List, [], ◌∷◌, arith, ◌==◌, if◌then◌else◌}
use kahypar.Containers.SparseMap.{SparseMap, add, remove, clear, modify}
use kahypar.Containers.SparseMap.Lookup.{
  IsValid, lookup, add-IsValid, remove-IsValid, modify-IsValid, clear-IsValid, lookup-add,
  lookup-remove, lookup-modify, lookup-clear,
}

-- What a client can ask of the map; `change f key` is map[key] = f(map[key]).
pub data Op (V : Type 0) : Type 0 where
  insert : ℕ → V → Op V
  erase : ℕ → Op V
  change : (V → V) → ℕ → Op V
  reset : Op V

module _ {V : Type 0} (fresh : V) where
  unfoldable pub apply : SparseMap V → Op V → SparseMap V
  apply m (insert key value) = add m key value
  apply m (erase key) = remove m key
  apply m (change f key) = modify fresh f m key
  apply m reset = clear m

  unfoldable pub run : SparseMap V → List (Op V) → SparseMap V
  run m [] = m
  run m (op ∷ ops) = run (apply m op) ops

  -- The value at a key, or the value of a fresh entry.
  abbrev pub value_or : Option V → V
  value_or none = fresh
  value_or (some v) = v

  abbrev pub keep_or : Option V → V → Option V
  keep_or none v = some v
  keep_or (some w) v = some w

  -- The abstract map: an entry that is there is not overwritten by an insertion.
  abbrev pub model_apply : (ℕ → Option V) → Op V → ℕ → Option V
  model_apply p (insert key value) j = if key == j then keep_or (p key) value else p j
  model_apply p (erase key) j = if key == j then none else p j
  model_apply p (change f key) j = if key == j then some (f (value_or (p key))) else p j
  model_apply p reset j = none

  abbrev pub model_run : (ℕ → Option V) → List (Op V) → ℕ → Option V
  model_run p [] = p
  model_run p (op ∷ ops) = model_run (model_apply p op) ops

  abbrev pub InRange : ℕ → Op V → Type 0
  InRange k (insert key value) = key < k
  InRange k (erase key) = key < k
  InRange k (change f key) = key < k
  InRange k reset = Unit

  abbrev pub AllInRange : ℕ → List (Op V) → Type 0
  AllInRange k [] = Unit
  AllInRange k (op ∷ ops) = InRange k op × AllInRange k ops

  apply-IsValid :
      (k : ℕ) (m : SparseMap V) (op : Op V) → IsValid k m → InRange k op → IsValid k (apply m op)
  unfolding apply
  apply-IsValid k m (insert key value) v h = add-IsValid k m key value v h
  apply-IsValid k m (erase key) v h = remove-IsValid k m key v
  apply-IsValid k m (change f key) v h = modify-IsValid k fresh f m key v h
  apply-IsValid k m reset v h = clear-IsValid k m

  lookup-apply :
      (k : ℕ) (m : SparseMap V) (op : Op V) (p : ℕ → Option V) (j : ℕ)
      → IsValid k m
      → InRange k op
      → j < k
      → ((i : ℕ) → i < k → lookup m i ≡ p i)
      → lookup (apply m op) j ≡ model_apply p op j
  unfolding apply
  lookup-apply k m (insert key value) p j v h l e =
      ground (arith, lookup-add k m key value j v, e key h, e j l)
  lookup-apply k m (erase key) p j v h l e = ground (arith, lookup-remove k m key j v, e j l)
  lookup-apply k m (change f key) p j v h l e =
      ground (arith, lookup-modify k fresh f m key j v, e key h, e j l)
  lookup-apply k m reset p j v h l e = lookup-clear m j

  -- From a valid map whose lookups below its capacity are those of a partial function, any sequence of
  -- insertions, changes and removals of keys below the capacity, and of clears, ends in a map whose
  -- lookups below the capacity are those of the partial function after the same operations, where an
  -- insertion keeps a value that is there.
  pub run-lookup :
      (k : ℕ) (ops : List (Op V)) (m : SparseMap V) (p : ℕ → Option V)
      → IsValid k m
      → AllInRange k ops
      → ((i : ℕ) → i < k → lookup m i ≡ p i)
      → (j : ℕ) → j < k
      → lookup (run m ops) j ≡ model_run p ops j
  unfolding run
  run-lookup k [] m p v h e j l = e j l
  run-lookup k (op ∷ ops) m p v h e j l =
      run-lookup k ops (apply m op) (model_apply p op) (apply-IsValid k m op v h.0) h.1
        (λ i q. lookup-apply k m op p i v h.0 q e) j l
