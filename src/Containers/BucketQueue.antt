-- ===== src/Containers/BucketQueue.antt =====
-- kahypar/datastructure/bucket_queue.h: EnhancedBucketQueue, the priority queue of the FM local
-- searches. Elements of one key lie in one bucket; `_index` lists the buckets that are in use.
--
-- KeyType is int. A key's address is key + _key_range, and `_valid` and `_buckets` have the places from
-- 0 to 2 * _key_range. The arrays of the model have no end: a bound on keys is a condition of each theorem
-- that needs it. kInvalidAddress, the least int, lies below every address: it is `none`.
pub mod Bounds
pub mod Steps
pub mod Insert
pub mod Remove
pub mod Leave
pub mod Update
pub mod Order
use kahypar.Prelude.{
  ℕ, ◌+◌, ◌-◌, ◌≤◌, Bool, true, false, Option, none, some, List, [], ltb, ◌==◌, if◌then◌else◌,
  length,
}
use kahypar.Prelude.Arrays.{Array, update}
use kahypar.Prelude.Vectors.{get, back, push_back, pop_back, swap_at}
use kahypar.Prelude.NatSet.{insert, erase, largest}
use kahypar.Prelude.Int.{ℤ, pos, pos_part, neg_part, sub_ℕ, ◌+ℤ◌, ◌-ℤ◌}
use kahypar.Containers.FlagArray.{FlagArray}

-- What `_repository` knows of an element: its place in its bucket, and its key.
pub record Entry : Type 0 where
  pub place : ℕ
  pub key : ℤ

-- key + _key_range
abbrev pub address : ℕ → ℤ → ℕ
address range key = pos_part key + range - neg_part key

module _ (F : FlagArray) where
  pub record BucketQueue : Type 0 where
    pub num_elements : ℕ
    pub key_range : ℕ
    pub max_address : Option ℕ
    pub index : List ℕ
    pub repository : Array Entry
    pub contained : F.Flags
    pub valid : F.Flags
    pub buckets : Array (List ℕ)

  unfoldable pub create : ℕ → ℕ → BucketQueue
  create max_size max_gain = record {
    num_elements = 0;
    key_range = max_gain;
    max_address = none;
    index = [];
    repository = λ i. record { place = 0; key = pos 0 };
    contained = F.create max_size;
    valid = F.create (max_gain + max_gain + 1);
    buckets = λ a. [];
  }

  unfoldable pub empty : BucketQueue → Bool
  empty q = q.num_elements == 0

  unfoldable pub contains : BucketQueue → ℕ → Bool
  contains q id = F.test q.contained id

  unfoldable pub get_key : BucketQueue → ℕ → ℤ
  get_key q id = (q.repository id).key

  -- if (!_valid[address]) { _index.insert(address); _buckets[address].clear(); _valid.set(address, true); }
  unfoldable pub open_bucket : BucketQueue → ℕ → BucketQueue
  open_bucket q a = if F.test q.valid a then q else record q {
    index = insert a q.index;
    buckets = update q.buckets a [];
    valid = F.set q.valid a true;
  }

  -- if (address > _max_address) { _max_address = address; }
  unfoldable pub raise_max : BucketQueue → ℕ → BucketQueue
  raise_max q a = record q {
    max_address = elim q.max_address [ none ↦ some a | some m ↦ some (if ltb m a then a else m) ];
  }

  -- _buckets[address].push_back(id); _repository[id] = { _buckets[address].size() - 1, key };
  unfoldable pub append : BucketQueue → ℕ → ℕ → ℤ → BucketQueue
  append q a id key =
      let b = push_back (q.buckets a) id in
      record q {
        buckets = update q.buckets a b;
        repository = update q.repository id (record { place = length b - 1; key = key });
      }

  unfoldable pub push : BucketQueue → ℕ → ℤ → BucketQueue
  push q id key =
      let a = address q.key_range key in
      let q' = append (raise_max (open_bucket q a) a) a id key in
      record q' { contained = F.set q'.contained id true; num_elements = q'.num_elements + 1 }

  unfoldable pub clear : BucketQueue → BucketQueue
  clear q = record q {
    num_elements = 0;
    max_address = none;
    index = [];
    contained = F.reset q.contained;
    valid = F.reset q.valid;
  }

  -- topKey() and top() are only called on a queue that is not empty: `none` is their fault.
  unfoldable pub top_key : BucketQueue → Option ℤ
  top_key q = elim q.max_address [ none ↦ none | some m ↦ some (sub_ℕ m q.key_range) ]

  unfoldable pub top : BucketQueue → Option ℕ
  top q = elim q.max_address [ none ↦ none | some m ↦ some (back (q.buckets m)) ]

  unfoldable pub update_max_address : BucketQueue → BucketQueue
  update_max_address q = record q {
    max_address = if ltb 0 q.num_elements then largest q.index else none;
  }

  -- _index.erase(address); _valid.set(address, false);
  unfoldable pub close_bucket : BucketQueue → ℕ → BucketQueue
  close_bucket q a = record q { index = erase a q.index; valid = F.set q.valid a false }

  -- address == _max_address
  unfoldable pub is_max : BucketQueue → ℕ → Bool
  is_max q a = elim q.max_address [ none ↦ false | some m ↦ a == m ]

  unfoldable pub pop_at : BucketQueue → ℕ → BucketQueue
  pop_at q m =
      let b = pop_back (q.buckets m) in
      let q' = record q {
        contained = F.set q.contained (back (q.buckets m)) false;
        buckets = update q.buckets m b;
        num_elements = q.num_elements - 1;
      } in
      if length b == 0 then update_max_address (close_bucket q' m) else q'

  unfoldable pub pop : BucketQueue → BucketQueue
  pop q = elim q.max_address [ none ↦ q | some m ↦ pop_at q m ]

  unfoldable pub swap_element_with_last_element : BucketQueue → ℕ → ℕ → BucketQueue
  swap_element_with_last_element q a place =
      let b = q.buckets a in
      record q {
        repository =
            update q.repository (back b)
              (record { place = place; key = (q.repository (back b)).key });
        buckets = update q.buckets a (swap_at b place (length b - 1));
      }

  -- _buckets[address].pop_back()
  unfoldable pub drop_last : BucketQueue → ℕ → BucketQueue
  drop_last q a = record q { buckets = update q.buckets a (pop_back (q.buckets a)) }

  unfoldable pub invalidate_bucket : BucketQueue → ℕ → BucketQueue
  invalidate_bucket q a = close_bucket (drop_last q a) a

  unfoldable pub remove : BucketQueue → ℕ → BucketQueue
  remove q id =
      let e = q.repository id in
      let a = address q.key_range e.key in
      let q₁ = record q { num_elements = q.num_elements - 1 } in
      let q₂ =
        (if ltb 1 (length (q.buckets a))
          then drop_last (swap_element_with_last_element q₁ a e.place) a
          else (let q₃ = invalidate_bucket q₁ a in
              if is_max q₃ a then update_max_address q₃ else q₃)) in
      record q₂ { contained = F.set q₂.contained id false }

  -- The second half of updateKeyInternal, up to the two lines that append.
  unfoldable pub leave_bucket : BucketQueue → ℕ → ℕ → BucketQueue
  leave_bucket q old_address place =
      if ltb 1 (length (q.buckets old_address))
      then drop_last (swap_element_with_last_element q old_address place) old_address
      else (let q' = invalidate_bucket q old_address in
          if is_max q' old_address then record q' { max_address = largest q'.index } else q')

  unfoldable pub update_key_internal : BucketQueue → ℕ → ℕ → ℕ → ℤ → ℤ → BucketQueue
  update_key_internal q id place new_address old_key new_key =
      let old_address = address q.key_range old_key in
      let q₁ = raise_max (open_bucket q new_address) new_address in
      append (leave_bucket q₁ old_address place) new_address id new_key

  unfoldable pub update_key : BucketQueue → ℕ → ℤ → BucketQueue
  update_key q id new_key =
      let e = q.repository id in
      update_key_internal q id e.place (address q.key_range new_key) e.key new_key

  unfoldable pub update_key_by : BucketQueue → ℕ → ℤ → BucketQueue
  update_key_by q id key_delta =
      let e = q.repository id in
      let new_key = e.key +ℤ key_delta in
      update_key_internal q id e.place (address q.key_range new_key) e.key new_key

  unfoldable pub decrease_key_by : BucketQueue → ℕ → ℤ → BucketQueue
  decrease_key_by q id key_delta =
      let e = q.repository id in
      let new_key = e.key -ℤ key_delta in
      update_key_internal q id e.place (address q.key_range new_key) e.key new_key
