-- ===== src/Containers/BucketQueue/Steps.antt =====
-- What the parts of the operations do to the buckets.
use kahypar.Prelude.{ℕ, ◌+◌, ◌-◌, ◌≤◌, ◌<◌, ◌≡◌, Bool, true, false, [], arith, length}
use kahypar.Prelude.Arrays.{update}
use kahypar.Prelude.Vectors.{
  push_back, pop_back, swap_at, length-push_back, get-push_back, length-pop_back, get-pop_back,
  length-swap_at, get-swap_at,
}
use kahypar.Prelude.NatSet.{erase, count-insert, count-erase}
use kahypar.Prelude.Int.{ℤ, neg_part}
use kahypar.Containers.FlagArray.{FlagArray}
use kahypar.Containers.BucketQueue.{
  BucketQueue, address, open_bucket, append, close_bucket, drop_last, invalidate_bucket,
  swap_element_with_last_element,
}
use kahypar.Containers.BucketQueue.Bounds.{
  IsFilled, load-update, load-update_absent, load-insert, load-erase,
}

module _ (F : FlagArray) (member : ℕ → Bool) (n : ℕ) (q : BucketQueue F) where
  pub open_bucket-IsFilled :
      (a : ℕ) → IsFilled F member n q → IsFilled F member n (open_bucket F q a)
  unfolding open_bucket
  open_bucket-IsFilled a f = record {
    listed = λ x.
        ground
          (arith, f.listed x, f.listed a, F.test-set q.valid a true x, count-insert x a q.index);
    placed = λ id h. ground (
      arith,
      f.placed id h,
      F.test-set q.valid a true (address q.key_range (q.repository id).key),
    );
    held = λ x i h p. ground (arith, f.held x i, F.test-set q.valid a true x);
    total = ground (
      arith,
      f.total,
      f.listed a,
      load-insert (update q.buckets a []) a q.index,
      load-update_absent q.buckets a [] q.index,
    );
  }

  pub append-IsFilled :
      (a id : ℕ) (key : ℤ)
      → IsFilled F member n q
      → F.test q.valid a ≡ true
      → member id ≡ false
      → neg_part key ≤ q.key_range
      → address q.key_range key ≡ a
      → IsFilled F (update member id true) (n + 1) (append F q a id key)
  unfolding append
  append-IsFilled a id key f opened new small at = record {
    listed = f.listed;
    placed = λ j h. ground (
      arith,
      f.placed j,
      length-push_back (q.buckets a) id,
      get-push_back (q.buckets a) id (length (q.buckets a)),
      get-push_back (q.buckets a) id (q.repository j).place,
    );
    held = λ x i h p.
        ground
          (arith, f.held x i, length-push_back (q.buckets a) id, get-push_back (q.buckets a) id i);
    total = ground (
      arith,
      f.total,
      f.listed a,
      load-update q.buckets a (push_back (q.buckets a) id) q.index,
      length-push_back (q.buckets a) id,
    );
  }

  -- Taking an element out of a bucket that holds others: the last element fills its place.
  pub shrink-IsFilled :
      (a id : ℕ)
      → IsFilled F member n q
      → member id ≡ true
      → address q.key_range (q.repository id).key ≡ a
      → 1 < length (q.buckets a)
      → IsFilled F
          (update member id false)
          (n - 1)
          (drop_last F (swap_element_with_last_element F q a (q.repository id).place) a)
  unfolding drop_last swap_element_with_last_element
  shrink-IsFilled a id f old at more =
      let b = q.buckets a in
      let place = (q.repository id).place in
      let last = length b - 1 in
      let b' = swap_at b place last in
      record {
        listed = f.listed;
        placed = λ j h. ground (
          arith,
          f.placed j,
          f.placed id,
          f.held a last,
          f.held a (q.repository j).place,
          length-swap_at b place last,
          length-pop_back b',
          get-swap_at b place last (q.repository j).place,
          get-swap_at b place last place,
          get-pop_back b' (q.repository j).place,
          get-pop_back b' place,
        );
        held = λ x i h p. ground (
          arith,
          f.held x i,
          f.held a last,
          f.placed id,
          length-swap_at b place last,
          length-pop_back b',
          get-swap_at b place last i,
          get-pop_back b' i,
        );
        total = ground (
          arith,
          f.total,
          f.listed a,
          f.placed id,
          load-update q.buckets a (pop_back b') q.index,
          length-swap_at b place last,
          length-pop_back b',
        );
      }

  -- Taking the only element out of its bucket closes the bucket.
  pub invalidate_bucket-IsFilled :
      (a id : ℕ)
      → IsFilled F member n q
      → member id ≡ true
      → address q.key_range (q.repository id).key ≡ a
      → length (q.buckets a) ≡ 1
      → IsFilled F (update member id false) (n - 1) (invalidate_bucket F q a)
  unfolding invalidate_bucket drop_last close_bucket
  invalidate_bucket-IsFilled a id f old at only =
      let b = q.buckets a in
      record {
        listed = λ x.
            ground (
              arith,
              f.listed x,
              f.placed id,
              F.test-set q.valid a false x,
              count-erase x a q.index,
            );
        placed = λ j h. ground (
          arith,
          f.placed j,
          f.placed id,
          F.test-set q.valid a false (address q.key_range (q.repository j).key),
        );
        held = λ x i h p. ground (arith, f.held x i, f.placed id, F.test-set q.valid a false x);
        total = ground (
          arith,
          f.total,
          f.listed a,
          f.placed id,
          load-update_absent q.buckets a (pop_back b) (erase a q.index),
          load-erase q.buckets a q.index,
          count-erase a a q.index,
        );
      }
