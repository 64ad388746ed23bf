-- ===== src/Containers/SparseMap/Lookup.antt =====
-- SparseMap against its abstract view, a finite map: what each operation does to a lookup.
use kahypar.Prelude.{ℕ, ◌-◌, ◌≤◌, ◌<◌, ◌≡◌, Option, none, some, arith, ◌==◌, if◌then◌else◌}
use kahypar.Prelude.Pigeonhole.{pigeonhole}
use kahypar.Containers.SparseMap.{
  MapElement, SparseMap, create, contains, add, remove, clear, get, modify,
}

module _ {V : Type 0} where
  -- The first `size` elements have distinct keys below the capacity, and `_sparse` sends each key to
  -- its element.
  pub record IsValid (capacity : ℕ) (m : SparseMap V) : Type 0 where
    pub below : (i : ℕ) → i < m.size → (m.dense i).key < capacity
    pub back : (i : ℕ) → i < m.size → m.sparse (m.dense i).key ≡ i

  -- What a client can read: the value of a key that is there.
  abbrev pub lookup : SparseMap V → ℕ → Option V
  lookup m key = if contains m key then some (get m key) else none

  pub add-IsValid :
      (capacity : ℕ) (m : SparseMap V) (key : ℕ) (value : V)
      → IsValid capacity m
      → key < capacity
      → IsValid capacity (add m key value)
  unfolding add
  add-IsValid capacity m key value v h = record {
    below = λ i p. ground (arith, v.below i);
    back = λ i p. ground (arith, v.back i, v.back (m.sparse key));
  }

  pub remove-IsValid :
      (capacity : ℕ) (m : SparseMap V) (key : ℕ)
      → IsValid capacity m
      → IsValid capacity (remove m key)
  unfolding remove
  remove-IsValid capacity m key v = record {
    below = λ i p. ground (arith, v.below i, v.below (m.size - 1));
    back = λ i p. ground (arith, v.back i, v.back (m.sparse key), v.back (m.size - 1));
  }

  pub clear-IsValid : (capacity : ℕ) (m : SparseMap V) → IsValid capacity (clear m)
  unfolding clear
  clear-IsValid capacity m = record {
    below = λ i p. absurd (omega arith);
    back = λ i p. absurd (omega arith);
  }

  pub create-IsValid :
      (capacity : ℕ) (zeroed : MapElement V) (value : V)
      → IsValid capacity (create zeroed capacity value)
  unfolding create
  create-IsValid capacity zeroed value = record {
    below = λ i p. absurd (omega arith);
    back = λ i p. absurd (omega arith);
  }

  pub modify-IsValid :
      (capacity : ℕ) (fresh : V) (f : V → V) (m : SparseMap V) (key : ℕ)
      → IsValid capacity m
      → key < capacity
      → IsValid capacity (modify fresh f m key)
  unfolding modify
  modify-IsValid capacity fresh f m key v h = record {
    below = λ i p. ground (arith, v.below i, v.below (m.sparse key));
    back = λ i p. ground (arith, v.back i, v.back (m.sparse key));
  }

  pub size-le-capacity : (capacity : ℕ) (m : SparseMap V) → IsValid capacity m → m.size ≤ capacity
  size-le-capacity capacity m v =
      pigeonhole m.size capacity (λ i. (m.dense i).key)
        (record { below = v.below; distinct = λ i j p q e. ground (arith, v.back i p, v.back j q) })

  pub lookup-clear : (m : SparseMap V) (j : ℕ) → lookup (clear m) j ≡ none
  unfolding contains clear
  lookup-clear m j = ground arith

  -- In a valid map, m[key] = f(m[key]) applies `f` to the value of the key, or to Value() where the key is
  -- new, and changes no other lookup.
  pub lookup-modify :
      (capacity : ℕ) (fresh : V) (f : V → V) (m : SparseMap V) (key j : ℕ)
      → IsValid capacity m
      → lookup (modify fresh f m key) j
        ≡ (if key == j then some (f (if contains m key then get m key else fresh)) else lookup m j)
  unfolding contains get modify
  lookup-modify capacity fresh f m key j v =
      ground (arith, v.back (m.sparse j), v.back (m.sparse key))

  -- In a valid map, adding a key gives it the value where the key is new, and changes no lookup else.
  pub lookup-add :
      (capacity : ℕ) (m : SparseMap V) (key : ℕ) (value : V) (j : ℕ)
      → IsValid capacity m
      → lookup (add m key value) j
        ≡ (if contains m key then lookup m j else if key == j then some value else lookup m j)
  unfolding contains get add
  lookup-add capacity m key value j v = ground (arith, v.back (m.sparse j))

  -- In a valid map, removing a key leaves no value at it, and changes no other lookup.
  pub lookup-remove :
      (capacity : ℕ) (m : SparseMap V) (key j : ℕ)
      → IsValid capacity m
      → lookup (remove m key) j ≡ (if key == j then none else lookup m j)
  unfolding contains get remove
  lookup-remove capacity m key j v =
      ground (arith, v.back (m.sparse j), v.back (m.sparse key), v.back (m.size - 1))
