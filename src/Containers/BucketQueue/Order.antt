-- ===== src/Containers/BucketQueue/Order.antt =====
-- The bucket queue as a priority queue: its top element.
use kahypar.Prelude.{
  ℕ, ◌-◌, ◌≤◌, ◌≡◌, true, false, some, arith, ◌==◌, if◌then◌else◌, length, Option-cases, inl, inr,
  Bool-cases,
}
use kahypar.Prelude.Vectors.{get, back, pop_back}
use kahypar.Prelude.Int.{ℤ, neg_part, ◌≤ℤ◌, sub_ℕ}
use kahypar.Containers.FlagArray.{FlagArray}
use kahypar.Containers.BucketQueue.{
  BucketQueue, address, contains, get_key, top, top_key, pop, pop_at, empty, update_max_address,
  close_bucket,
}
use kahypar.Containers.BucketQueue.Bounds.{IsValid, length-le-load, load_pos}

-- An address gives back its key.
key_of_address :
    (range : ℕ) (key : ℤ) → neg_part key ≤ range → sub_ℕ (address range key) range ≡ key
key_of_address range key h = ground arith

address_mono :
    (range : ℕ) (k l : ℤ)
    → neg_part k ≤ range
    → neg_part l ≤ range
    → address range k ≤ address range l
    → k ≤ℤ l
address_mono range k l hk hl h = omega arith

module _ (F : FlagArray) (q : BucketQueue F) where
  -- In a valid queue that contains `id`, `top` gives a contained element, `topKey` its key, and that key
  -- is at least the key of `id`.
  pub top-greatest :
      (id : ℕ)
      → IsValid F q
      → contains F q id ≡ true
      → (t : ℕ) × (top F q ≡ some t)
        × (contains F q t ≡ true)
        × (top_key F q ≡ some (get_key F q t))
        × (get_key F q id ≤ℤ get_key F q t)
  unfolding contains top top_key get_key
  top-greatest id v h = elim (Option-cases q.max_address) [
    | inl e ↦ absurd (
        ground (arith, v.filled.placed id h, v.covered (address q.key_range (q.repository id).key)))
    | inr (m, e) ↦
        let t = back (q.buckets m) in
        let last =
          v.filled.held m (length (q.buckets m) - 1) (v.reached m e)
            (ground (arith, v.busy m (v.reached m e))) in
        let at = v.filled.placed t last.0 in
        let here = v.filled.placed id h in
        let key_is = key_of_address q.key_range (q.repository t).key at.0 in
        let below = v.covered (address q.key_range (q.repository id).key) here.1 in
        (
          t,
          ground arith,
          last.0,
          ground (arith, key_is),
          address_mono q.key_range (q.repository id).key (q.repository t).key here.0 at.0
              (ground arith),
        )
  ]

  -- The queue is empty exactly when nothing is contained.
  pub empty_lem :
      IsValid F q
      → (empty F q ≡ true → (id : ℕ) → contains F q id ≡ false)
        × (empty F q ≡ false → (id : ℕ) × (contains F q id ≡ true))
  unfolding empty contains
  empty_lem v = (
    λ e id. elim (Bool-cases (F.test q.contained id)) [
      | inl h ↦
          let a = address q.key_range (q.repository id).key in
          absurd (
            ground (
              arith,
              v.filled.placed id h,
              v.filled.listed a,
              v.filled.total,
              length-le-load q.buckets a q.index,
            ))
      | inr h ↦ h
    ],
    λ e.
        let (a, listed) = load_pos q.buckets q.index (ground (arith, v.filled.total)) in
        let opened : F.test q.valid a ≡ true = ground (arith, v.filled.listed a) in
        (get (q.buckets a) 0, (v.filled.held a 0 opened (v.busy a opened)).0),
  )

  -- Where `top` gives `t`, `pop` takes `t` out of the queue and no other element.
  pub contains-pop :
      (t j : ℕ)
      → top F q ≡ some t
      → contains F (pop F q) j ≡ (if t == j then false else contains F q j)
  unfolding top pop pop_at contains update_max_address close_bucket
  contains-pop t j h = elim (Option-cases q.max_address) [
    | inl e ↦ absurd (ground arith)
    | inr (m, e) ↦
        let t≡ : back (q.buckets m) ≡ t = ground arith in
        elim (Bool-cases (length (pop_back (q.buckets m)) == 0)) [
          | inl z ↦
              rw (e, pop_at, z, update_max_address)
                (ground (arith, F.test-set q.contained (back (q.buckets m)) false j))
          | inr z ↦
              rw (e, pop_at, z)
                (ground (arith, F.test-set q.contained (back (q.buckets m)) false j))
        ]
  ]
