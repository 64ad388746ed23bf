-- ===== src/Containers/BucketQueue/Remove.antt =====
-- `pop` and `remove`, and the representation of the bucket queue.
use kahypar.Prelude.{
  ℕ, ◌-◌, ◌<◌, ◌≡◌, Bool, true, false, some, arith, ltb, ◌==◌, refl, if◌then◌else◌, length,
  Bool-cases, Option-cases, ltb→lt, inl, inr, ◌∙◌,
}
use kahypar.Prelude.Arrays.{update}
use kahypar.Prelude.Vectors.{
  get, back, pop_back, swap_at, length-pop_back, get-pop_back, length-swap_at,
}
use kahypar.Prelude.NatSet.{Covers, largest-Covers, largest-Occurs}
use kahypar.Containers.FlagArray.{FlagArray}
use kahypar.Containers.BucketQueue.{
  BucketQueue, address, drop_last, close_bucket, invalidate_bucket, swap_element_with_last_element,
  is_max, update_max_address, pop_at, pop, remove, contains,
}
use kahypar.Containers.BucketQueue.Bounds.{IsFilled, IsValid, length-le-load, load-update}
use kahypar.Containers.BucketQueue.Steps.{shrink-IsFilled, invalidate_bucket-IsFilled}

module _ (F : FlagArray) (member : ℕ → Bool) (n : ℕ) (q : BucketQueue F) where
  -- The last member of a bucket that holds others goes.
  drop_last-IsFilled :
      (a : ℕ)
      → IsFilled F member n q
      → F.test q.valid a ≡ true
      → 1 < length (q.buckets a)
      → IsFilled F (update member (back (q.buckets a)) false) (n - 1) (drop_last F q a)
  unfolding drop_last
  drop_last-IsFilled a f opened more =
      let b = q.buckets a in
      let last = length b - 1 in
      record {
        listed = f.listed;
        placed = λ j h. ground (
          arith,
          f.placed j,
          f.held a last,
          f.held a (q.repository j).place,
          length-pop_back b,
          get-pop_back b (q.repository j).place,
        );
        held = λ x i h p.
            ground (arith, f.held x i, f.held a last, length-pop_back b, get-pop_back b i);
        total = ground (
          arith,
          f.total,
          f.listed a,
          load-update q.buckets a (pop_back b) q.index,
          length-pop_back b,
        );
      }

  -- A queue with the maximum in place is valid, for flags that tell the members.
  flags-IsValid :
      (contained : F.Flags)
      → IsFilled F member n q
      → q.num_elements ≡ n
      → ((a : ℕ) → F.test q.valid a ≡ true → 0 < length (q.buckets a))
      → ((a : ℕ) → F.test q.valid a ≡ true → Covers q.max_address a)
      → ((m : ℕ) → q.max_address ≡ some m → F.test q.valid m ≡ true)
      → ((j : ℕ) → F.test contained j ≡ member j)
      → IsValid F (record q { contained = contained })
  flags-IsValid contained f size busy covered reached flags = record {
    filled = record {
      listed = f.listed;
      placed = λ j h. f.placed j (ground (arith, flags j));
      held = λ x i h p.
          let (old, place, key_at) = f.held x i h p in
          (ground (arith, flags (get (q.buckets x) i)), place, key_at);
      total = size ∙ f.total;
    };
    busy = busy;
    covered = covered;
    reached = reached;
  }

  -- Once the maximum is recomputed the queue is valid, for flags that tell the members.
  update_max_address-IsValid :
      (contained : F.Flags)
      → IsFilled F member n q
      → q.num_elements ≡ n
      → ((a : ℕ) → F.test q.valid a ≡ true → 0 < length (q.buckets a))
      → ((j : ℕ) → F.test contained j ≡ member j)
      → IsValid F (record (update_max_address F q) { contained = contained })
  unfolding update_max_address
  update_max_address-IsValid contained f size busy flags = record {
    filled = record {
      listed = f.listed;
      placed = λ j h. f.placed j (ground (arith, flags j));
      held = λ x i h p.
          let (old, place, key_at) = f.held x i h p in
          (ground (arith, flags (get (q.buckets x) i)), place, key_at);
      total = size ∙ f.total;
    };
    busy = busy;
    covered = λ a h. ground (
      arith,
      f.total,
      f.listed a,
      busy a,
      length-le-load q.buckets a q.index,
      largest-Covers q.index a,
    );
    reached = λ m e. ground (arith, f.listed m, largest-Occurs q.index);
  }

module _ (F : FlagArray) (q : BucketQueue F) (v : IsValid F q) where
  -- The queue as `pop` and `remove` see it once they have lowered the number of elements.
  abbrev counted : BucketQueue F
  counted = record q { num_elements = q.num_elements - 1 }

  counted-IsFilled : IsFilled F (F.test q.contained) q.num_elements counted
  counted-IsFilled =
      let f = v.filled in
      record { listed = f.listed; placed = f.placed; held = f.held; total = f.total }

  -- The only element of a bucket goes, and the maximum is recomputed.
  closing-IsValid :
      (a id : ℕ)
      → F.test q.contained id ≡ true
      → address q.key_range (q.repository id).key ≡ a
      → length (q.buckets a) ≡ 1
      → IsValid F (record (update_max_address F (invalidate_bucket F counted a)) {
        contained = F.set q.contained id false;
      })
  unfolding invalidate_bucket drop_last close_bucket
  closing-IsValid a id old at only =
      update_max_address-IsValid F (update (F.test q.contained) id false) (q.num_elements - 1)
        (invalidate_bucket F counted a) (F.set q.contained id false)
        (invalidate_bucket-IsFilled F (F.test q.contained) q.num_elements counted a id
          counted-IsFilled old at only)
        refl (λ x h. ground (arith, v.busy x, F.test-set q.valid a false x))
        (λ j. F.test-set q.contained id false j)

  pop_at-IsValid :
      (m : ℕ) → q.max_address ≡ some m → F.test q.valid m ≡ true → IsValid F (pop_at F q m)
  unfolding pop_at update_max_address close_bucket invalidate_bucket drop_last
  pop_at-IsValid m top opened = elim (Bool-cases (length (pop_back (q.buckets m)) == 0)) [
    | inl e ↦
        let only : length (q.buckets m) ≡ 1 =
          ground (arith, length-pop_back (q.buckets m), v.busy m) in
        rw e (
          closing-IsValid m (back (q.buckets m)) (ground (arith, v.filled.held m 0))
            (ground (arith, v.filled.held m 0)) only)
    | inr e ↦
        let more : 1 < length (q.buckets m) =
          ground (arith, length-pop_back (q.buckets m), v.busy m) in
        let last = back (q.buckets m) in
        rw e (
          flags-IsValid F (update (F.test q.contained) last false) (q.num_elements - 1)
            (drop_last F counted m) (F.set q.contained last false)
            (drop_last-IsFilled F (F.test q.contained) q.num_elements counted m counted-IsFilled
              opened more)
            refl (λ x h. ground (arith, v.busy x, length-pop_back (q.buckets m))) v.covered
            v.reached (λ j. F.test-set q.contained last false j))
  ]

module _ (F : FlagArray) (q : BucketQueue F) where
  -- `pop` keeps a queue valid.
  pub pop-IsValid : IsValid F q → IsValid F (pop F q)
  unfolding pop
  pop-IsValid v = elim (Option-cases q.max_address) [
    | inl e ↦ rw (e, pop) v
    | inr (m, e) ↦ rw (e, pop) (pop_at-IsValid F q v m e (v.reached m e))
  ]

  -- Removing a contained element keeps a queue valid.
  pub remove-IsValid : (id : ℕ) → IsValid F q → contains F q id ≡ true → IsValid F (remove F q id)
  unfolding remove contains is_max drop_last swap_element_with_last_element invalidate_bucket
      close_bucket update_max_address
  remove-IsValid id v old =
      let a = address q.key_range (q.repository id).key in
      let place = (q.repository id).place in
      let q₁ = counted F q v in
      let flags = F.set q.contained id false in
      let without = update (F.test q.contained) id false in
      elim (Bool-cases (ltb 1 (length (q.buckets a)))) [
        | inl e ↦ rw e (
            flags-IsValid F without (q.num_elements - 1)
              (drop_last F (swap_element_with_last_element F q₁ a place) a) flags
              (shrink-IsFilled F (F.test q.contained) q.num_elements q₁ a id
                (counted-IsFilled F q v) old refl (ltb→lt _ _ e))
              refl
              (λ x h. ground (
                arith,
                v.busy x,
                length-swap_at (q.buckets a) place (length (q.buckets a) - 1),
                length-pop_back (swap_at (q.buckets a) place (length (q.buckets a) - 1)),
              ))
              v.covered v.reached (λ j. F.test-set q.contained id false j))
        | inr e ↦
            let only : length (q.buckets a) ≡ 1 = ground (arith, v.filled.placed id, v.busy a) in
            elim (Bool-cases (is_max F (invalidate_bucket F q₁ a) a)) [
              | inl t ↦ rw (e, t) (closing-IsValid F q v a id old refl only)
              | inr t ↦
                  rw (e, t)
                    (flags-IsValid F without (q.num_elements - 1) (invalidate_bucket F q₁ a) flags
                      (invalidate_bucket-IsFilled F (F.test q.contained) q.num_elements q₁ a id
                        (counted-IsFilled F q v) old refl only)
                      refl (λ x h. ground (arith, v.busy x, F.test-set q.valid a false x))
                      (λ x h. ground (arith, v.covered x, F.test-set q.valid a false x))
                      (λ m h. ground (arith, v.reached m, F.test-set q.valid a false m))
                      (λ j. F.test-set q.contained id false j))
            ]
      ]

  pub contains-remove :
      (id j : ℕ) → contains F (remove F q id) j ≡ (if id == j then false else contains F q j)
  unfolding remove contains drop_last swap_element_with_last_element invalidate_bucket close_bucket
      update_max_address
  contains-remove id j =
      let a = address q.key_range (q.repository id).key in
      elim (Bool-cases (ltb 1 (length (q.buckets a)))) [
        | inl e ↦ rw e (F.test-set q.contained id false j)
        | inr e ↦
            let q₁ = record q { num_elements = q.num_elements - 1 } in
            elim (Bool-cases (is_max F (invalidate_bucket F q₁ a) a)) [
              | inl t ↦ rw (e, t) (F.test-set q.contained id false j)
              | inr t ↦ rw (e, t) (F.test-set q.contained id false j)
            ]
      ]
