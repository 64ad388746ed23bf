-- ===== src/Tests/Queue.antt =====
-- A bucket queue of two elements.
use kahypar.Prelude.{ℕ, ◌≡◌, inr, refl, true, false, some, arith}
use kahypar.Prelude.Int.{pos, negsuc, ◌≤ℤ◌}
use kahypar.Prelude.Vectors.{push_back}
use kahypar.Containers.FlagArray.{plain_flags}
use kahypar.Containers.BucketQueue.{
  BucketQueue, create, push, append, raise_max, open_bucket, remove, update_key, contains, get_key,
  top, top_key,
}
use kahypar.Containers.BucketQueue.Bounds.{IsValid, IsInside}
use kahypar.Containers.BucketQueue.Insert as Insert
use kahypar.Containers.BucketQueue.Remove as Remove
use kahypar.Containers.BucketQueue.Update as Update
use kahypar.Containers.BucketQueue.Order as Order

abbrev one : BucketQueue plain_flags
one = push plain_flags (create plain_flags 4 10) 1 (pos 3)

abbrev two : BucketQueue plain_flags
two = push plain_flags one 2 (negsuc 4)

one-IsValid : IsValid plain_flags one × IsInside plain_flags 4 one
unfolding create contains
one-IsValid =
    Insert.push-IsValid plain_flags 4 (create plain_flags 4 10) 1 (pos 3)
      (Insert.create-IsValid plain_flags 4 10) (Insert.create-IsInside plain_flags 4 10) refl
      (omega arith) (omega arith) (omega arith)

push-IsValid_example : IsValid plain_flags two × IsInside plain_flags 4 two
unfolding create contains push append raise_max open_bucket
push-IsValid_example =
    Insert.push-IsValid plain_flags 4 one 2 (negsuc 4) one-IsValid.0 one-IsValid.1 refl
      (omega arith) (omega arith) (omega arith)

two-IsValid : IsValid plain_flags two × IsInside plain_flags 4 two
unfolding create contains push append raise_max open_bucket
two-IsValid =
    Insert.push-IsValid plain_flags 4 one 2 (negsuc 4) one-IsValid.0 one-IsValid.1 refl
      (omega arith) (omega arith) (omega arith)

two-contains : contains plain_flags two 2 ≡ true
two-contains = Insert.contains-push plain_flags one 2 (negsuc 4) 2

top-greatest_example :
    (t : ℕ) × (top plain_flags two ≡ some t)
    × (contains plain_flags two t ≡ true)
    × (top_key plain_flags two ≡ some (get_key plain_flags two t))
    × (get_key plain_flags two 2 ≤ℤ get_key plain_flags two t)
top-greatest_example = Order.top-greatest plain_flags two 2 two-IsValid.0 two-contains

remove-IsValid_example : IsValid plain_flags (remove plain_flags two 2)
remove-IsValid_example = Remove.remove-IsValid plain_flags two 2 two-IsValid.0 two-contains

update_key-IsValid_example :
    IsValid plain_flags (update_key plain_flags two 2 (pos 4))
    × IsInside plain_flags 4 (update_key plain_flags two 2 (pos 4))
unfolding create push append raise_max open_bucket
update_key-IsValid_example =
    Update.update_key-IsValid plain_flags two 2 (pos 4) 4 two-IsValid.0 two-IsValid.1 two-contains
      (omega arith) (omega arith) (inr (ground arith))

-- Element 2 is alone in its bucket and keeps its key.
update_key_stale_example :
    (contains plain_flags (update_key plain_flags two 2 (negsuc 4)) 2 ≡ true)
    × (plain_flags.test (update_key plain_flags two 2 (negsuc 4)).valid 5 ≡ false)
    × (¬ IsValid plain_flags (update_key plain_flags two 2 (negsuc 4)))
unfolding create push append raise_max open_bucket push_back
update_key_stale_example =
    Update.update_key_stale plain_flags two 2 (negsuc 4) two-IsValid.0 two-contains refl refl
