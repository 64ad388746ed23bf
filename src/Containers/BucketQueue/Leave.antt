-- ===== src/Containers/BucketQueue/Leave.antt =====
-- An element leaves its bucket when its key changes.
use kahypar.Prelude.{
  ℕ, ◌-◌, ◌<◌, ◌≡◌, ◌≢◌, ◌⊎◌, Bool, true, false, Option, some, arith, ltb, length, Bool-cases,
  ltb→lt, inl, inr,
}
use kahypar.Prelude.Arrays.{update}
use kahypar.Prelude.Vectors.{swap_at, length-pop_back, length-swap_at}
use kahypar.Prelude.NatSet.{Covers, largest, largest-Covers, largest-Occurs, erase, count-erase}
use kahypar.Containers.FlagArray.{FlagArray}
use kahypar.Containers.BucketQueue.{
  BucketQueue, address, drop_last, close_bucket, invalidate_bucket, swap_element_with_last_element,
  is_max, leave_bucket,
}
use kahypar.Containers.BucketQueue.Steps.{shrink-IsFilled, invalidate_bucket-IsFilled}
use kahypar.Containers.BucketQueue.Insert.{IsReady}

module _ (F : FlagArray) (member : ℕ → Bool) (n a : ℕ) (q : BucketQueue F) where
  module _ (old id : ℕ) (r : IsReady F member n a q) (here : member id ≡ true)
      (at : address q.key_range (q.repository id).key ≡ old) where
    -- Others stay in the old bucket.
    shrunk-IsReady :
        1 < length (q.buckets old)
        → IsReady F
            (update member id false)
            (n - 1)
            a
            (drop_last F (swap_element_with_last_element F q old (q.repository id).place) old)
    unfolding drop_last swap_element_with_last_element
    shrunk-IsReady more =
        let b = q.buckets old in
        let place = (q.repository id).place in
        let f = shrink-IsFilled F member n q old id r.filled here at more in
        record {
          filled = record { listed = f.listed; placed = f.placed; held = f.held; total = f.total };
          opened = r.opened;
          busy = λ x h p. ground (
            arith,
            r.busy x,
            length-swap_at b place (length b - 1),
            length-pop_back (swap_at b place (length b - 1)),
          );
          covered = r.covered;
          reached = r.reached;
        }

    -- The old bucket is closed, and `top` is the maximum of the others.
    closed-IsReady :
        (top : Option ℕ)
        → length (q.buckets old) ≡ 1
        → old ≢ a
        → ((x : ℕ) → F.test q.valid x ≡ true → x ≢ old → Covers top x)
        → ((m : ℕ) → top ≡ some m → (F.test q.valid m ≡ true) × (m ≢ old))
        → IsReady F
            (update member id false)
            (n - 1)
            a
            (record (invalidate_bucket F q old) { max_address = top })
    unfolding invalidate_bucket drop_last close_bucket
    closed-IsReady top only apart covered reached =
        let f = invalidate_bucket-IsFilled F member n q old id r.filled here at only in
        record {
          filled = record { listed = f.listed; placed = f.placed; held = f.held; total = f.total };
          opened = ground (arith, r.opened, F.test-set q.valid old false a);
          busy = λ x h p. ground (arith, r.busy x, F.test-set q.valid old false x);
          covered = λ x h. ground (arith, covered x, F.test-set q.valid old false x);
          reached = λ m e. ground (arith, reached m e, F.test-set q.valid old false m);
        }

  -- Leaving the old bucket is safe where others stay in it, or where it is not the new bucket.
  pub leave_bucket-IsReady :
      (old id : ℕ)
      → IsReady F member n a q
      → member id ≡ true
      → address q.key_range (q.repository id).key ≡ old
      → (1 < length (q.buckets old)) ⊎ (old ≢ a)
      → IsReady F (update member id false) (n - 1) a (leave_bucket F q old (q.repository id).place)
  unfolding leave_bucket is_max invalidate_bucket drop_last close_bucket
  leave_bucket-IsReady old id r here at safe = elim (Bool-cases (ltb 1 (length (q.buckets old)))) [
    | inl e ↦ rw e (shrunk-IsReady old id r here at (ltb→lt _ _ e))
    | inr e ↦
        let only : length (q.buckets old) ≡ 1 = ground (arith, r.filled.placed id here, e) in
        let apart : old ≢ a = ground (arith, safe, e) in
        elim (Bool-cases (is_max F (invalidate_bucket F q old) old)) [
          | inl t ↦
              rw (e, t)
                (closed-IsReady old id r here at (largest (erase old q.index)) only apart
                  (λ x h p. ground (
                    arith,
                    r.filled.listed x,
                    count-erase x old q.index,
                    largest-Covers (erase old q.index) x,
                  ))
                  (λ m h. (
                    ground (
                      arith,
                      r.filled.listed m,
                      count-erase m old q.index,
                      largest-Occurs (erase old q.index),
                    ),
                    λ p. ground (
                      arith,
                      r.filled.listed m,
                      count-erase m old q.index,
                      largest-Occurs (erase old q.index),
                    ),
                  )))
          | inr t ↦
              rw (e, t)
                (closed-IsReady old id r here at q.max_address only apart (λ x h p. r.covered x h)
                  (λ m h. (r.reached m h, λ p. ground (arith))))
        ]
  ]
