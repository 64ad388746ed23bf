-- ===== src/Containers/ConnectivitySet/Members.antt =====
-- A connectivity set without duplicates against its abstract view, a finite set of blocks.
use kahypar.Prelude.{
  ℕ, ◌+◌, ◌-◌, ◌≤◌, ◌≡◌, true, false, arith, ltb, ◌==◌, if◌then◌else◌, length, count, ◌∙◌,
}
use kahypar.Prelude.Vectors.{
  elem, swap_at, find_from, find_from_lem, elem-count, count-push_back, length-push_back,
  count-pop_back, length-pop_back, count-swap_at, length-swap_at, get-swap_at,
}
use kahypar.Containers.ConnectivitySet.{ConnectivitySet, contains, add, remove, size}

-- No block is listed twice.
abbrev pub IsValid : ConnectivitySet → Type 0
IsValid s = (a : ℕ) → count a s.contained_parts ≤ 1

pub contains-eq-elem : (s : ConnectivitySet) (a : ℕ) → contains s a ≡ elem a s.contained_parts
unfolding contains
contains-eq-elem s a = ground (arith, find_from_lem a s.contained_parts 0)

pub contains_lem : (s : ConnectivitySet) (a : ℕ) → contains s a ≡ ltb 0 (count a s.contained_parts)
contains_lem s a = contains-eq-elem s a ∙ elem-count a s.contained_parts

pub count-add :
    (s : ConnectivitySet) (value a : ℕ)
    → count a (add s value).contained_parts
      ≡ count a s.contained_parts + (if a == value then 1 else 0)
unfolding add
count-add s value a = count-push_back a s.contained_parts value

pub count-remove :
    (s : ConnectivitySet) (value a : ℕ)
    → contains s value ≡ true
    → count a (remove s value).contained_parts + (if a == value then 1 else 0)
      ≡ count a s.contained_parts
unfolding remove contains
count-remove s value a h =
    let xs = s.contained_parts in
    let it = find_from value xs 0 in
    let ys = swap_at xs it (length xs - 1) in
    ground (
      arith,
      find_from_lem value xs 0,
      contains-eq-elem s value,
      count-pop_back a ys,
      count-swap_at xs it (length xs - 1) a,
      length-swap_at xs it (length xs - 1),
      get-swap_at xs it (length xs - 1) (length xs - 1),
    )

-- Adding a new block.
pub contains-add :
    (s : ConnectivitySet) (value a : ℕ)
    → contains (add s value) a ≡ (if value == a then true else contains s a)
contains-add s value a =
    ground (arith, contains_lem (add s value) a, contains_lem s a, count-add s value a)

-- Removing a block that a set without duplicates contains takes out that block and no other.
pub contains-remove :
    (s : ConnectivitySet) (value a : ℕ)
    → IsValid s
    → contains s value ≡ true
    → contains (remove s value) a ≡ (if value == a then false else contains s a)
contains-remove s value a v h =
    ground (arith, contains_lem (remove s value) a, contains_lem s a, count-remove s value a h, v a)

pub add-IsValid :
    (s : ConnectivitySet) (value : ℕ) → IsValid s → contains s value ≡ false → IsValid (add s value)
add-IsValid s value v h a = ground (arith, count-add s value a, contains_lem s value, v a)

pub remove-IsValid :
    (s : ConnectivitySet) (value : ℕ)
    → IsValid s
    → contains s value ≡ true
    → IsValid (remove s value)
remove-IsValid s value v h a = ground (arith, count-remove s value a h, v a)

pub size-add : (s : ConnectivitySet) (value : ℕ) → size (add s value) ≡ size s + 1
unfolding size add
size-add s value = length-push_back s.contained_parts value

pub size-remove :
    (s : ConnectivitySet) (value : ℕ) → contains s value ≡ true → size (remove s value) + 1 ≡ size s
unfolding size remove contains
size-remove s value h =
    let xs = s.contained_parts in
    let it = find_from value xs 0 in
    ground
      (arith, length-pop_back (swap_at xs it (length xs - 1)), length-swap_at xs it (length xs - 1))
