-- ===== src/Containers/BucketQueue/Insert.antt =====
-- `push` and `clear`, and the representation of the bucket queue.
use kahypar.Prelude.{
  ℕ, ◌+◌, ◌≤◌, ◌<◌, ◌≡◌, ◌≢◌, Bool, true, false, some, arith, ◌==◌, refl, if◌then◌else◌, length,
  Bool-cases, inl, inr, ◌∙◌, count,
}
use kahypar.Prelude.Arrays.{update}
use kahypar.Prelude.Vectors.{get, length-push_back, push_back}
use kahypar.Prelude.NatSet.{Covers}
use kahypar.Prelude.Int.{ℤ, pos_part, neg_part}
use kahypar.Containers.FlagArray.{FlagArray}
use kahypar.Containers.BucketQueue.{
  BucketQueue, address, create, open_bucket, raise_max, append, push, clear, contains, get_key,
}
use kahypar.Containers.BucketQueue.Bounds.{IsFilled, IsValid, IsInside, load}
use kahypar.Containers.BucketQueue.Steps.{open_bucket-IsFilled, append-IsFilled}

module _ (F : FlagArray) where
  pub IsFilled-cong :
      (member member' : ℕ → Bool) (n : ℕ) (q : BucketQueue F)
      → IsFilled F member n q
      → ((id : ℕ) → member' id ≡ member id)
      → IsFilled F member' n q
  IsFilled-cong member member' n q f e = record {
    listed = f.listed;
    placed = λ id h. f.placed id (ground (arith, e id));
    held = λ x i h p. ground (arith, f.held x i, e (get (q.buckets x) i));
    total = f.total;
  }

  -- Between the steps only the bucket at `a` may be empty, and the maximum covers it.
  pub record IsReady (member : ℕ → Bool) (n a : ℕ) (q : BucketQueue F) : Type 0 where
    pub filled : IsFilled F member n q
    pub opened : F.test q.valid a ≡ true
    pub busy : (x : ℕ) → F.test q.valid x ≡ true → x ≢ a → 0 < length (q.buckets x)
    pub covered : (x : ℕ) → F.test q.valid x ≡ true → Covers q.max_address x
    pub reached : (m : ℕ) → q.max_address ≡ some m → F.test q.valid m ≡ true

  module _ (q : BucketQueue F) (a : ℕ) where
    -- What opening a bucket leaves alone.
    pub contained-open_bucket : (open_bucket F q a).contained ≡ q.contained
    unfolding open_bucket
    contained-open_bucket = elim (Bool-cases (F.test q.valid a)) [ inl e ↦ rw e | inr e ↦ rw e ]

    pub num_elements-open_bucket : (open_bucket F q a).num_elements ≡ q.num_elements
    unfolding open_bucket
    num_elements-open_bucket = ground arith

    pub key_range-open_bucket : (open_bucket F q a).key_range ≡ q.key_range
    unfolding open_bucket
    key_range-open_bucket = ground arith

    pub repository-open_bucket : (open_bucket F q a).repository ≡ q.repository
    unfolding open_bucket
    repository-open_bucket = elim (Bool-cases (F.test q.valid a)) [ inl e ↦ rw e | inr e ↦ rw e ]

    pub raise_max-IsReady :
        IsValid F q
        → IsReady (F.test q.contained) q.num_elements a (raise_max F (open_bucket F q a) a)
    unfolding raise_max open_bucket
    raise_max-IsReady v =
        let f = open_bucket-IsFilled F (F.test q.contained) q.num_elements q a v.filled in
        record {
          filled = record { listed = f.listed; placed = f.placed; held = f.held; total = f.total };
          opened = ground (arith, F.test-set q.valid a true a);
          busy = λ x h p. ground (arith, v.busy x, F.test-set q.valid a true x);
          covered = λ x h. ground (arith, v.covered x, F.test-set q.valid a true x);
          reached = λ m e.
              ground (arith, v.reached m, F.test-set q.valid a true m, F.test-set q.valid a true a);
        }

    -- Appending to the open bucket leaves no bucket empty.
    pub append-IsValid :
        (member : ℕ → Bool) (n m id : ℕ) (key : ℤ) (contained : F.Flags)
        → IsReady member n a q
        → member id ≡ false
        → neg_part key ≤ q.key_range
        → address q.key_range key ≡ a
        → ((j : ℕ) → F.test contained j ≡ (if id == j then true else member j))
        → m ≡ n + 1
        → IsValid F (record (append F q a id key) { contained = contained; num_elements = m })
    unfolding append
    append-IsValid member n m id key contained r new small at flags size =
        let f = append-IsFilled F member n q a id key r.filled r.opened new small at in
        record {
          filled = record {
            listed = f.listed;
            placed = λ j h. f.placed j (ground (arith, flags j));
            held = λ x i h p.
                let (old, place, key_at) = f.held x i h p in
                (
                  ground (arith, flags (get (update q.buckets a (push_back (q.buckets a) id) x) i)),
                  place,
                  key_at,
                );
            total = size ∙ f.total;
          };
          busy = λ x h. ground (arith, r.busy x, length-push_back (q.buckets a) id);
          covered = r.covered;
          reached = r.reached;
        }

  push_lem :
      (q : BucketQueue F) (id : ℕ) (key : ℤ)
      → IsValid F q
      → contains F q id ≡ false
      → neg_part key ≤ q.key_range
      → IsValid F (push F q id key)
  unfolding push contains append raise_max
  push_lem q id key v new small =
      let a = address q.key_range key in
      let range = key_range-open_bucket q a in
      append-IsValid (raise_max F (open_bucket F q a) a) a (F.test q.contained) q.num_elements _ id
        key _ (raise_max-IsReady q a v) new (rw range small) (rw range refl)
        (λ j. rw (contained-open_bucket q a) (F.test-set q.contained id true j))
        (rw (num_elements-open_bucket q a))

  push-IsInside :
      (max_size : ℕ) (q : BucketQueue F) (id : ℕ) (key : ℤ)
      → IsInside F max_size q
      → id < max_size
      → pos_part key ≤ q.key_range
      → IsInside F max_size (push F q id key)
  unfolding push append raise_max open_bucket
  push-IsInside max_size q id key w inside large = record {
    addresses = λ a h.
        ground (arith, w.addresses a, F.test-set q.valid (address q.key_range key) true a, h);
    elements = λ j h. ground (arith, w.elements j, F.test-set q.contained id true j, h);
  }

  -- Where the addresses in use and the elements lie inside the arrays, pushing an element of the
  -- repository that is not contained, with a key above -_key_range and up to _key_range, keeps a valid
  -- queue valid, with addresses and elements inside the arrays.
  pub push-IsValid :
      (max_size : ℕ) (q : BucketQueue F) (id : ℕ) (key : ℤ)
      → IsValid F q
      → IsInside F max_size q
      → contains F q id ≡ false
      → id < max_size
      → neg_part key < q.key_range
      → pos_part key ≤ q.key_range
      → IsValid F (push F q id key) × IsInside F max_size (push F q id key)
  push-IsValid max_size q id key v w new inside small large = (
    push_lem q id key v new (omega (arith, small)),
    push-IsInside max_size q id key w inside large,
  )

  pub create-IsInside : (max_size max_gain : ℕ) → IsInside F max_size (create F max_size max_gain)
  unfolding create
  create-IsInside max_size max_gain = record {
    addresses = λ a h. absurd (ground (arith, F.test-create (max_gain + max_gain + 1) a));
    elements = λ id h. absurd (ground (arith, F.test-create max_size id));
  }

  pub contains-push :
      (q : BucketQueue F) (id : ℕ) (key : ℤ) (j : ℕ)
      → contains F (push F q id key) j ≡ (if id == j then true else contains F q j)
  unfolding contains push append raise_max open_bucket
  contains-push q id key j = ground (arith, F.test-set q.contained id true j)

  pub get_key-push :
      (q : BucketQueue F) (id : ℕ) (key : ℤ) (j : ℕ)
      → get_key F (push F q id key) j ≡ (if id == j then key else get_key F q j)
  unfolding get_key push append raise_max open_bucket
  get_key-push q id key j = ground arith

  pub clear-IsValid : (q : BucketQueue F) → IsValid F (clear F q)
  unfolding clear load count
  clear-IsValid q = record {
    filled = record {
      listed = λ a. ground (arith, F.test-reset q.valid a);
      placed = λ id h. absurd (ground (arith, F.test-reset q.contained id));
      held = λ a i h p. absurd (ground (arith, F.test-reset q.valid a));
      total = refl;
    };
    busy = λ a h. absurd (ground (arith, F.test-reset q.valid a));
    covered = λ a h. absurd (ground (arith, F.test-reset q.valid a));
    reached = λ m e. cc;
  }

  pub create-IsValid : (max_size max_gain : ℕ) → IsValid F (create F max_size max_gain)
  unfolding create load count
  create-IsValid max_size max_gain = record {
    filled = record {
      listed = λ a. ground (arith, F.test-create (max_gain + max_gain + 1) a);
      placed = λ id h. absurd (ground (arith, F.test-create max_size id));
      held = λ a i h p. absurd (ground (arith, F.test-create (max_gain + max_gain + 1) a));
      total = refl;
    };
    busy = λ a h. absurd (ground (arith, F.test-create (max_gain + max_gain + 1) a));
    covered = λ a h. absurd (ground (arith, F.test-create (max_gain + max_gain + 1) a));
    reached = λ m e. cc;
  }
