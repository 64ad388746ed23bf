-- ===== src/Containers/SparseMap.antt =====
-- kahypar/datastructure/sparse_map.h: SparseMapBase and SparseMap, generic in the values.
--
-- `_sparse` holds size_t positions and `_dense` key-value pairs. The two share one allocation but
-- have different types. The model keeps two arrays: a key at or past the capacity would read the other
-- one in the code, and is outside of the model.
pub mod Lookup
pub mod Refine
use kahypar.Prelude.{
  ℕ, zero, suc, ◌+◌, ◌-◌, ◌^◌, Bool, List, [], ◌∷◌, ◌&&◌, ltb, ◌==◌, if◌then◌else◌,
}
use kahypar.Prelude.Arrays.{Array, update, fill}

-- std::numeric_limits<size_t>::max() and std::numeric_limits<Key>::max()
abbrev pub max_size_t : ℕ
max_size_t = 2 ^ 64 - 1

abbrev pub max_key : ℕ
max_key = 2 ^ 32 - 1

pub record MapElement (V : Type 0) : Type 0 where
  pub key : ℕ
  pub value : V

pub record SparseMap (V : Type 0) : Type 0 where
  pub size : ℕ
  pub sparse : Array ℕ
  pub dense : Array (MapElement V)

module _ {V : Type 0} where
  -- The constructor; `zeroed` stands for the element that the zeroed memory spells.
  unfoldable pub create : MapElement V → ℕ → V → SparseMap V
  create zeroed max_size initial_value = record {
    size = 0;
    sparse = fill max_size max_size_t (λ i. 0);
    dense = fill max_size (record { key = max_key; value = initial_value }) (λ i. zeroed);
  }

  unfoldable pub contains : SparseMap V → ℕ → Bool
  contains m key = let index = m.sparse key in ltb index m.size && ((m.dense index).key == key)

  unfoldable pub add : SparseMap V → ℕ → V → SparseMap V
  add m key value =
      let index = m.sparse key in
      if ltb index m.size && ((m.dense index).key == key) then m else record m {
        dense = update m.dense m.size (record { key = key; value = value });
        sparse = update m.sparse key m.size;
        size = m.size + 1;
      }

  unfoldable pub remove : SparseMap V → ℕ → SparseMap V
  remove m key =
      let index = m.sparse key in
      if ltb index m.size && ((m.dense index).key == key)
      then (let dense' =
            update (update m.dense index (m.dense (m.size - 1))) (m.size - 1) (m.dense index) in
          record m {
            dense = dense';
            sparse = update m.sparse (dense' index).key index;
            size = m.size - 1;
          })
      else m

  unfoldable pub clear : SparseMap V → SparseMap V
  clear m = record m { size = 0 }

  -- `get`, which asserts that the key is there.
  unfoldable pub get : SparseMap V → ℕ → V
  get m key = (m.dense (m.sparse key)).value

  -- `operator[]` hands out a reference: `fresh` is the default value Value(), and the second
  -- result is the place of `_dense` that the reference means.
  unfoldable pub index_of : V → SparseMap V → ℕ → SparseMap V × ℕ
  unfolding contains
  index_of fresh m key =
      let index = m.sparse key in
      if contains m key then (m, index) else (
        record m {
          dense = update m.dense m.size (record { key = key; value = fresh });
          sparse = update m.sparse key m.size;
          size = m.size + 1;
        },
        m.size,
      )

  -- m[key] = f(m[key])
  unfoldable pub modify : V → (V → V) → SparseMap V → ℕ → SparseMap V
  unfolding index_of
  modify fresh f m key =
      let (m', place) = index_of fresh m key in
      record m' {
        dense =
            update m'.dense place
              (record { key = (m'.dense place).key; value = f (m'.dense place).value });
      }
