-- ===== src/Containers/BucketQueue/Bounds.antt =====
-- The representation invariant of the bucket queue.
use kahypar.Prelude.{
  ℕ, ◌+◌, ◌≤◌, ◌<◌, ◌≡◌, refl, arith, Bool, true, some, List, [], ◌∷◌, if◌then◌else◌, length, count,
}
use kahypar.Prelude.Arrays.{Array, update}
use kahypar.Prelude.Vectors.{get, elem-count}
use kahypar.Prelude.NatSet.{Covers, insert, erase}
use kahypar.Prelude.Int.{neg_part}
use kahypar.Containers.FlagArray.{FlagArray}
use kahypar.Containers.BucketQueue.{BucketQueue, address}

-- The number of elements in the buckets at the listed addresses.
unfoldable pub load : Array (List ℕ) → List ℕ → ℕ
load buckets [] = 0
load buckets (a ∷ rest) = length (buckets a) + load buckets rest

module _ (F : FlagArray) where
  -- An element's entry leads to its place in an open bucket.
  abbrev pub IsPlaced : BucketQueue F → ℕ → Type 0
  IsPlaced q id =
      let a = address q.key_range (q.repository id).key in
      (neg_part (q.repository id).key ≤ q.key_range)
      × (F.test q.valid a ≡ true)
      × ((q.repository id).place < length (q.buckets a))
      × (get (q.buckets a) (q.repository id).place ≡ id)

  -- What lies in an open bucket is a member, and its entry says where.
  abbrev pub IsHeld : (ℕ → Bool) → BucketQueue F → ℕ → ℕ → Type 0
  IsHeld member q a i =
      let id = get (q.buckets a) i in
      (member id ≡ true)
      × ((q.repository id).place ≡ i)
      × (address q.key_range (q.repository id).key ≡ a)

  -- The open buckets hold exactly the members, `n` elements in all. Within an operation the members
  -- may differ from what `_contains` says.
  pub record IsFilled (member : ℕ → Bool) (n : ℕ) (q : BucketQueue F) : Type 0 where
    pub listed : (a : ℕ) → count a q.index ≡ (if F.test q.valid a then 1 else 0)
    pub placed : (id : ℕ) → member id ≡ true → IsPlaced q id
    pub held : (a i : ℕ) → F.test q.valid a ≡ true → i < length (q.buckets a) → IsHeld member q a i
    pub total : n ≡ load q.buckets q.index

  -- An open bucket is not empty, and the largest open address is known.
  pub record IsValid (q : BucketQueue F) : Type 0 where
    pub filled : IsFilled (F.test q.contained) q.num_elements q
    pub busy : (a : ℕ) → F.test q.valid a ≡ true → 0 < length (q.buckets a)
    pub covered : (a : ℕ) → F.test q.valid a ≡ true → Covers q.max_address a
    pub reached : (m : ℕ) → q.max_address ≡ some m → F.test q.valid m ≡ true

-- The arrays are large enough: `_valid` and `_buckets` have 2 * _key_range + 1 places, and `_repository`
-- and `_contains` have `max_size`.
pub record IsInside (F : FlagArray) (max_size : ℕ) (q : BucketQueue F) : Type 0 where
  pub addresses : (a : ℕ) → F.test q.valid a ≡ true → a ≤ q.key_range + q.key_range
  pub elements : (id : ℕ) → F.test q.contained id ≡ true → id < max_size

-- The load after a write to a bucket that is not listed, and to one that is.
pub load-update_absent :
    (buckets : Array (List ℕ)) (a : ℕ) (b : List ℕ) (l : List ℕ)
    → count a l ≡ 0
    → load (update buckets a b) l ≡ load buckets l
unfolding load count
load-update_absent buckets a b [] h = refl
load-update_absent buckets a b (x ∷ xs) h = ground (arith, load-update_absent buckets a b xs)

pub load-update :
    (buckets : Array (List ℕ)) (a : ℕ) (b : List ℕ) (l : List ℕ)
    → count a l ≡ 1
    → load (update buckets a b) l + length (buckets a) ≡ load buckets l + length b
unfolding load count
load-update buckets a b [] h = absurd (omega arith)
load-update buckets a b (x ∷ xs) h =
    ground (arith, load-update buckets a b xs, load-update_absent buckets a b xs)

pub load-erase :
    (buckets : Array (List ℕ)) (a : ℕ) (l : List ℕ)
    → 0 < count a l
    → load buckets (erase a l) + length (buckets a) ≡ load buckets l
unfolding load count erase
load-erase buckets a [] h = absurd (omega arith)
load-erase buckets a (x ∷ xs) h = ground (arith, load-erase buckets a xs)

pub load-insert :
    (buckets : Array (List ℕ)) (a : ℕ) (l : List ℕ)
    → count a l ≡ 0
    → load buckets (insert a l) ≡ load buckets l + length (buckets a)
unfolding load insert
load-insert buckets a l h = ground (arith, elem-count a l)

-- A listed bucket is part of the load.
pub length-le-load :
    (buckets : Array (List ℕ)) (a : ℕ) (l : List ℕ)
    → 0 < count a l
    → length (buckets a) ≤ load buckets l
unfolding load count
length-le-load buckets a [] h = absurd (omega arith)
length-le-load buckets a (x ∷ xs) h = ground (arith, length-le-load buckets a xs)

-- A load comes from some listed bucket.
pub load_pos :
    (buckets : Array (List ℕ)) (l : List ℕ) → 0 < load buckets l → (a : ℕ) × (0 < count a l)
unfolding load count
load_pos buckets [] h = absurd (omega arith)
load_pos buckets (x ∷ xs) h = (x, ground arith)
