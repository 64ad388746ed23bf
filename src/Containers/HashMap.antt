-- ===== src/Containers/HashMap.antt =====
-- datastructure/hash_table.h: HashMap, a table with linear probing.
--
-- The template's parameters are parameters here: the hash function, whether the last position found is
-- kept (`cached`), the largest key, which marks empty slots, and the value of a fresh slot. `slots`, the
-- length of _ht, is computed in floating point by the source and is given. Positions fit 32 bits. The
-- program's exit on overflow is `none`.
use kahypar.Prelude.{
  ℕ, zero, suc, ◌+◌, ◌-◌, ◌*◌, ◌%◌, Bool, true, false, not, ◌&&◌, ◌||◌, Option, none, some, ltb,
  ◌==◌, if◌then◌else◌,
}
use mathlib.Core.Option
use kahypar.Prelude.Arrays.{Array, update}
pub mod Probing
pub mod Insert
pub mod Lookup

pub record HashMap (V : Type 0) : Type 0 where
  pub empty_element_key : Bool
  pub deleted_element_key : Bool
  pub empty_value : V
  pub deleted_value : V
  pub ht_size : ℕ
  pub max_size : ℕ
  pub slots : ℕ
  pub keys : Array ℕ
  pub values : Array V
  pub num_poses : ℕ
  pub poses : Array ℕ
  pub pos_in_position : Array ℕ
  pub last_key : ℕ
  pub last_position : ℕ

module _ (V : Type 0) (hash : ℕ → ℕ) (cached : Bool) (max_key : ℕ) (fresh : V) where
  abbrev pub empty_key : ℕ
  empty_key = max_key

  abbrev pub deleted_key : ℕ
  deleted_key = max_key - 1

  unfoldable pub create : (max_size size_factor slots : ℕ) → HashMap V
  create max_size size_factor slots = record {
    empty_element_key = false;
    deleted_element_key = false;
    empty_value = fresh;
    deleted_value = fresh;
    ht_size = max_size * size_factor;
    max_size = max_size;
    slots = slots;
    keys = λ p. empty_key;
    values = λ p. fresh;
    num_poses = 0;
    poses = λ i. 0;
    pos_in_position = λ p. 0;
    last_key = empty_key;
    last_position = 0;
  }

  unfoldable pub reserve : HashMap V → (max_size size_factor slots : ℕ) → HashMap V
  reserve m max_size size_factor slots = record m {
    ht_size = max_size * size_factor;
    max_size = max_size;
    slots = slots;
    keys = λ p. if ltb p m.slots then m.keys p else empty_key;
    values = λ p. if ltb p m.slots then m.values p else fresh;
  }

  unfoldable pub size : HashMap V → ℕ
  size m =
      m.num_poses
      + (if m.empty_element_key then 1 else 0)
      + (if m.deleted_element_key then 1 else 0)

  -- The loop of findPosition: `n` slots from `pos` on.
  unfoldable pub scan : Array ℕ → ℕ → ℕ → ℕ → Option ℕ
  scan keys key pos zero = none
  scan keys key pos (suc n) =
      let rest = scan keys key (pos + 1) n in
      if (keys pos == empty_key) || (keys pos == key) then some pos else rest

  abbrev pub start : HashMap V → ℕ → ℕ
  start m key = hash key % m.ht_size

  unfoldable pub find_position : HashMap V → ℕ → Option (HashMap V × ℕ)
  find_position m key =
      if cached && (key == m.last_key)
      then some (m, m.last_position)
      else Option.map
          (λ pos. ((if cached then record m { last_key = key; last_position = pos } else m), pos))
          (scan m.keys key (start m key) (m.slots - start m key))

  abbrev pub fill_slot : HashMap V → ℕ → ℕ → V → HashMap V
  fill_slot m pos key value = record m {
    keys = update m.keys pos key;
    values = update m.values pos value;
    num_poses = m.num_poses + 1;
    poses = update m.poses m.num_poses pos;
    pos_in_position = update m.pos_in_position pos m.num_poses;
  }

  unfoldable pub insert_impl : HashMap V → ℕ → V → Option (HashMap V)
  insert_impl m key value =
      if key == empty_key
      then (if m.empty_element_key
          then some m
          else some (record m { empty_element_key = true; empty_value = value }))
      else if key == deleted_key
      then (if m.deleted_element_key
          then some m
          else some (record m { deleted_element_key = true; deleted_value = value }))
      else Option.map
          (λ found.
            if found.0.keys found.1 == empty_key
            then fill_slot found.0 found.1 key value
            else found.0)
          (find_position m key)

  -- operator[]: the map and the value that the reference names.
  unfoldable pub index : HashMap V → ℕ → Option (HashMap V × V)
  index m key =
      if key == empty_key
      then (if m.empty_element_key
          then some (m, m.empty_value)
          else some (record m { empty_element_key = true; empty_value = fresh }, fresh))
      else if key == deleted_key
      then (if m.deleted_element_key
          then some (m, m.deleted_value)
          else some (record m { deleted_element_key = true; deleted_value = fresh }, fresh))
      else Option.map
          (λ found.
            if found.0.keys found.1 == empty_key
            then (fill_slot found.0 found.1 key fresh, fresh)
            else (found.0, found.0.values found.1))
          (find_position m key)

  unfoldable pub contains : HashMap V → ℕ → Option (HashMap V × Bool)
  contains m key =
      if key == empty_key
      then some (m, m.empty_element_key)
      else if key == deleted_key
      then some (m, m.deleted_element_key)
      else Option.map (λ found. (found.0, not (found.0.keys found.1 == empty_key)))
          (find_position m key)

  abbrev pub erase_slot : HashMap V → ℕ → HashMap V
  erase_slot m pos =
      let pos_of_deleted = m.pos_in_position pos in
      let back = m.poses (m.num_poses - 1) in
      record m {
        keys = update m.keys pos deleted_key;
        pos_in_position = update m.pos_in_position back pos_of_deleted;
        poses = update m.poses pos_of_deleted back;
        num_poses = m.num_poses - 1;
      }

  unfoldable pub erase : HashMap V → ℕ → Option (HashMap V)
  erase m key =
      if key == empty_key
      then some (record m { empty_element_key = false })
      else if key == deleted_key
      then some (record m { deleted_element_key = false })
      else Option.map
          (λ found.
            if found.0.keys found.1 == empty_key then found.0 else erase_slot found.0 found.1)
          (find_position m key)

  unfoldable pub empty_slots : ℕ → HashMap V → Array ℕ
  empty_slots zero m = m.keys
  empty_slots (suc n) m = update (empty_slots n m) (m.poses n) empty_key

  unfoldable pub clear : HashMap V → HashMap V
  clear m = record m {
    keys = empty_slots m.num_poses m;
    num_poses = 0;
    last_key = empty_key;
    last_position = 0;
    empty_element_key = false;
    deleted_element_key = false;
  }
