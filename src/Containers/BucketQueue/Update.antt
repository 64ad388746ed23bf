-- ===== src/Containers/BucketQueue/Update.antt =====
-- Changing a key, and the representation of the bucket queue.
use kahypar.Prelude.{
  ℕ, ◌-◌, ◌≤◌, ◌<◌, ◌≡◌, ◌≢◌, ◌⊎◌, true, false, arith, ltb, ◌==◌, refl, if◌then◌else◌, length,
  Bool-cases, inl, inr, ◌∙◌,
}
use mathlib.Core.Path.{subst}
use kahypar.Prelude.Arrays.{update}
use kahypar.Prelude.Int.{ℤ, pos_part, neg_part}
use kahypar.Containers.FlagArray.{FlagArray}
use kahypar.Containers.BucketQueue.{
  BucketQueue, address, drop_last, close_bucket, invalidate_bucket, swap_element_with_last_element,
  is_max, open_bucket, raise_max, append, leave_bucket, update_key_internal, update_key, contains,
  get_key,
}
use kahypar.Containers.BucketQueue.Bounds.{IsValid, IsInside, length-le-load}
use kahypar.Containers.BucketQueue.Insert.{
  IsReady, raise_max-IsReady, append-IsValid, contained-open_bucket, num_elements-open_bucket,
  key_range-open_bucket, repository-open_bucket,
}
use kahypar.Containers.BucketQueue.Leave.{leave_bucket-IsReady}

module _ (F : FlagArray) (q : BucketQueue F) (id : ℕ) (new_key : ℤ) where
  -- The bucket that the element leaves and the one that it enters.
  abbrev old_address : ℕ
  old_address = address q.key_range (q.repository id).key

  abbrev new_address : ℕ
  new_address = address q.key_range new_key

  abbrev opened : BucketQueue F
  opened = raise_max F (open_bucket F q new_address) new_address

  contained-leave_bucket :
      (p : BucketQueue F) (a place : ℕ) → (leave_bucket F p a place).contained ≡ p.contained
  unfolding leave_bucket drop_last swap_element_with_last_element invalidate_bucket close_bucket
  contained-leave_bucket p a place = elim (Bool-cases (ltb 1 (length (p.buckets a)))) [
    | inl e ↦ rw e
    | inr e ↦ elim (Bool-cases (is_max F (invalidate_bucket F p a) a)) [
      | inl t ↦ rw (e, t)
      | inr t ↦ rw (e, t)
    ]
  ]

  numbers-leave_bucket :
      (p : BucketQueue F) (a place : ℕ)
      → ((leave_bucket F p a place).num_elements ≡ p.num_elements)
        × ((leave_bucket F p a place).key_range ≡ p.key_range)
  unfolding leave_bucket drop_last swap_element_with_last_element invalidate_bucket close_bucket
  numbers-leave_bucket p a place = ground arith

  -- The old bucket still holds the element once the new one is open.
  length-opened :
      IsValid F q
      → contains F q id ≡ true
      → length (opened.buckets old_address) ≡ length (q.buckets old_address)
  unfolding open_bucket raise_max contains
  length-opened v h = ground (arith, v.filled.placed id h)

  same_entry : opened.repository id ≡ q.repository id
  unfolding raise_max
  same_entry = rw (repository-open_bucket F q new_address)

  same_range : opened.key_range ≡ q.key_range
  unfolding raise_max
  same_range = key_range-open_bucket F q new_address

  same_count : opened.num_elements ≡ q.num_elements
  unfolding raise_max
  same_count = num_elements-open_bucket F q new_address

  same_contained : opened.contained ≡ q.contained
  unfolding raise_max
  same_contained = contained-open_bucket F q new_address

  left-IsReady :
      IsValid F q
      → contains F q id ≡ true
      → (1 < length (q.buckets old_address)) ⊎ (old_address ≢ new_address)
      → IsReady F
          (update (F.test q.contained) id false)
          (q.num_elements - 1)
          new_address
          (leave_bucket F opened old_address (q.repository id).place)
  unfolding contains
  left-IsReady v old safe = rw same_entry at (
      leave_bucket-IsReady F (F.test q.contained) q.num_elements new_address opened old_address id
        (raise_max-IsReady F q new_address v) old (rw (same_entry, same_range) refl)
        (rw (length-opened v old) safe))

  update_key_lem :
      IsValid F q
      → contains F q id ≡ true
      → neg_part new_key ≤ q.key_range
      → (1 < length (q.buckets old_address)) ⊎ (old_address ≢ new_address)
      → IsValid F (update_key F q id new_key)
  unfolding update_key update_key_internal contains append
  update_key_lem v old small safe =
      let place = (q.repository id).place in
      let left = leave_bucket F opened old_address place in
      let frame = numbers-leave_bucket opened old_address place in
      let range : left.key_range ≡ q.key_range = frame.1 ∙ same_range in
      append-IsValid F left new_address (update (F.test q.contained) id false) (q.num_elements - 1)
        left.num_elements id new_key left.contained (left-IsReady v old safe) (ground arith)
        (rw range small) (rw range refl)
        (λ j. rw (contained-leave_bucket opened old_address place, same_contained) (ground arith))
        (ground (
          arith,
          same_count,
          length-le-load q.buckets old_address q.index,
          v.filled.total,
          v.filled.listed old_address,
          v.filled.placed id,
        ))

  still_valid :
      (p : BucketQueue F) (a place x : ℕ)
      → F.test (leave_bucket F p a place).valid x ≡ true
      → F.test p.valid x ≡ true
  unfolding leave_bucket drop_last swap_element_with_last_element invalidate_bucket close_bucket
  still_valid p a place x h = ground (arith, F.test-set p.valid a false x, h)

  -- Only the bucket of the new key can come into use.
  opened_valid :
      (x : ℕ) → F.test opened.valid x ≡ true → (x ≡ new_address) ⊎ (F.test q.valid x ≡ true)
  unfolding open_bucket raise_max
  opened_valid x h = ground (arith, F.test-set q.valid new_address true x, h)

  update_key-IsInside :
      (max_size : ℕ)
      → IsInside F max_size q
      → pos_part new_key ≤ q.key_range
      → IsInside F max_size (update_key F q id new_key)
  unfolding update_key update_key_internal append
  update_key-IsInside max_size w large =
      let place = (q.repository id).place in
      let frame = numbers-leave_bucket opened old_address place in
      record {
        addresses = λ a h. elim (opened_valid a (still_valid opened old_address place a h)) [
          | inl e ↦ omega (arith, e, frame.1, same_range, large)
          | inr old ↦ omega (arith, w.addresses a old, frame.1, same_range)
        ];
        elements = λ j h.
            w.elements j
              (rw (contained-leave_bucket opened old_address place, same_contained) at h);
      }

  -- Where the addresses in use and the elements lie inside the arrays, changing the key of a contained
  -- element to one from -_key_range to _key_range keeps a valid queue valid, with addresses and elements
  -- inside the arrays, where the element shares its bucket or changes it.
  pub update_key-IsValid :
      (max_size : ℕ)
      → IsValid F q
      → IsInside F max_size q
      → contains F q id ≡ true
      → neg_part new_key ≤ q.key_range
      → pos_part new_key ≤ q.key_range
      → (1 < length (q.buckets old_address)) ⊎ (old_address ≢ new_address)
      → IsValid F (update_key F q id new_key) × IsInside F max_size (update_key F q id new_key)
  update_key-IsValid max_size v w old small large safe =
      (update_key_lem v old small safe, update_key-IsInside max_size w large)

  valid-leave_bucket :
      (p : BucketQueue F) (a place : ℕ)
      → length (p.buckets a) ≡ 1
      → F.test (leave_bucket F p a place).valid a ≡ false
  unfolding leave_bucket drop_last invalidate_bucket close_bucket
  valid-leave_bucket p a place only = elim (Bool-cases (ltb 1 (length (p.buckets a)))) [
    | inl e ↦ absurd (ground arith)
    | inr e ↦ elim (Bool-cases (is_max F (invalidate_bucket F p a) a)) [
      | inl t ↦ rw (e, t) (ground (arith, F.test-set p.valid a false a))
      | inr t ↦ rw (e, t) (ground (arith, F.test-set p.valid a false a))
    ]
  ]

  -- In a valid queue, giving the only element of a bucket a key of the same address closes the bucket under
  -- the element: it stays contained, its bucket is marked as unused, and the queue is no longer valid.
  pub update_key_stale :
      IsValid F q
      → contains F q id ≡ true
      → length (q.buckets old_address) ≡ 1
      → old_address ≡ new_address
      → (contains F (update_key F q id new_key) id ≡ true)
        × (F.test (update_key F q id new_key).valid new_address ≡ false)
        × (¬ IsValid F (update_key F q id new_key))
  unfolding update_key update_key_internal contains append
  update_key_stale v old only same =
      let place = (q.repository id).place in
      let frame = numbers-leave_bucket opened old_address place in
      let stale = valid-leave_bucket opened old_address place (length-opened v old ∙ only) in
      let held : F.test (leave_bucket F opened old_address place).contained id ≡ true =
        rw (contained-leave_bucket opened old_address place, same_contained) old in
      (
        held,
        subst (λ x. F.test (leave_bucket F opened old_address place).valid x ≡ false) same stale,
        λ w. ground (arith, w.filled.placed id held, same, stale, frame, same_range),
      )

  -- In a valid queue, changing the key of a contained element gives it the new key and changes the key of
  -- no other element.
  pub get_key-update_key :
      (j : ℕ)
      → IsValid F q
      → contains F q id ≡ true
      → get_key F (update_key F q id new_key) j ≡ (if id == j then new_key else get_key F q j)
  unfolding get_key update_key update_key_internal append leave_bucket drop_last
      swap_element_with_last_element invalidate_bucket close_bucket raise_max open_bucket
  get_key-update_key j v old = ground arith
