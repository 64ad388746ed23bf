-- ===== src/Prelude/Vectors.antt =====
-- std::vector<unsigned> as a list: reads, writes and the end of the vector. A read past the end,
-- which C++ leaves undefined, gives 0, and such a write changes nothing.
use kahypar.Prelude.{
  ℕ, zero, suc, ◌+◌, ◌-◌, ◌≤◌, ◌<◌, ◌≡◌, refl, Bool, false, ◌||◌, List, [], ◌∷◌, arith, ltb, ◌==◌,
  if◌then◌else◌, length, set, get_or, length-set, count,
}

abbrev pub get : List ℕ → ℕ → ℕ
get xs i = get_or xs i 0

-- xs[xs.size() - 1]
abbrev pub back : List ℕ → ℕ
back xs = get xs (length xs - 1)

unfoldable pub push_back : List ℕ → ℕ → List ℕ
push_back [] x = x ∷ []
push_back (y ∷ ys) x = y ∷ push_back ys x

unfoldable pub pop_back : List ℕ → List ℕ
pop_back [] = []
pop_back (x ∷ []) = []
pop_back (x ∷ y ∷ xs) = x ∷ pop_back (y ∷ xs)

-- std::swap(xs[i], xs[j])
unfoldable pub swap_at : List ℕ → ℕ → ℕ → List ℕ
swap_at xs i j = set (set xs i (get xs j)) j (get xs i)

unfoldable pub elem : ℕ → List ℕ → Bool
elem a [] = false
elem a (x ∷ xs) = a == x || elem a xs

pub length-push_back : (xs : List ℕ) (x : ℕ) → length (push_back xs x) ≡ length xs + 1
unfolding push_back
length-push_back [] x = omega arith
length-push_back (y ∷ ys) x = omega (arith, length-push_back ys x)

pub get-push_back :
    (xs : List ℕ) (x i : ℕ) → get (push_back xs x) i ≡ (if i == length xs then x else get xs i)
unfolding push_back
get-push_back [] x zero = ground arith
get-push_back [] x (suc i) = ground arith
get-push_back (y ∷ ys) x zero = ground arith
get-push_back (y ∷ ys) x (suc i) = ground (arith, get-push_back ys x i)

pub count-push_back :
    (a : ℕ) (xs : List ℕ) (x : ℕ)
    → count a (push_back xs x) ≡ count a xs + (if a == x then 1 else 0)
unfolding push_back count
count-push_back a [] x = ground arith
count-push_back a (y ∷ ys) x = ground (arith, count-push_back a ys x)

pub length-pop_back : (xs : List ℕ) → length (pop_back xs) ≡ length xs - 1
unfolding pop_back
length-pop_back [] = omega arith
length-pop_back (x ∷ []) = omega arith
length-pop_back (x ∷ y ∷ xs) = omega (arith, length-pop_back (y ∷ xs))

pub get-pop_back : (xs : List ℕ) (i : ℕ) → i < length xs - 1 → get (pop_back xs) i ≡ get xs i
unfolding pop_back
get-pop_back [] i h = absurd (omega arith)
get-pop_back (x ∷ []) i h = absurd (omega arith)
get-pop_back (x ∷ y ∷ xs) zero h = refl
get-pop_back (x ∷ y ∷ xs) (suc i) h = get-pop_back (y ∷ xs) i (omega arith)

pub count-pop_back :
    (a : ℕ) (xs : List ℕ)
    → 0 < length xs
    → count a (pop_back xs) + (if a == back xs then 1 else 0) ≡ count a xs
unfolding pop_back count
count-pop_back a [] h = absurd (omega arith)
count-pop_back a (x ∷ []) h = ground arith
count-pop_back a (x ∷ y ∷ xs) h = ground (arith, count-pop_back a (y ∷ xs))

pub get-set :
    (xs : List ℕ) (i j v : ℕ)
    → i < length xs
    → get (set xs i v) j ≡ (if i == j then v else get xs j)
get-set [] i j v h = absurd (omega arith)
get-set (x ∷ xs) zero zero v h = ground arith
get-set (x ∷ xs) zero (suc j) v h = ground arith
get-set (x ∷ xs) (suc i) zero v h = ground arith
get-set (x ∷ xs) (suc i) (suc j) v h = ground (arith, get-set xs i j v)

pub count-set :
    (a : ℕ) (xs : List ℕ) (i v : ℕ)
    → i < length xs
    → count a (set xs i v) + (if a == get xs i then 1 else 0)
      ≡ count a xs + (if a == v then 1 else 0)
unfolding count
count-set a [] i v h = absurd (omega arith)
count-set a (x ∷ xs) zero v h = ground arith
count-set a (x ∷ xs) (suc i) v h = ground (arith, count-set a xs i v)

module _ (xs : List ℕ) (i j : ℕ) where
  pub length-swap_at : length (swap_at xs i j) ≡ length xs
  unfolding swap_at
  length-swap_at =
      omega (arith, length-set (set xs i (get xs j)) j (get xs i), length-set xs i (get xs j))

  pub get-swap_at :
      (n : ℕ)
      → i < length xs
      → j < length xs
      → get (swap_at xs i j) n
        ≡ (if j == n then get xs i else if i == n then get xs j else get xs n)
  unfolding swap_at
  get-swap_at n hi hj = ground (
    arith,
    get-set (set xs i (get xs j)) j n (get xs i),
    get-set xs i n (get xs j),
    length-set xs i (get xs j),
  )

  pub count-swap_at :
      (a : ℕ) → i < length xs → j < length xs → count a (swap_at xs i j) ≡ count a xs
  unfolding swap_at
  count-swap_at a hi hj = ground (
    arith,
    count-set a (set xs i (get xs j)) j (get xs i),
    count-set a xs i (get xs j),
    get-set xs i j (get xs j),
    length-set xs i (get xs j),
  )

pub elem-count : (a : ℕ) (xs : List ℕ) → elem a xs ≡ ltb 0 (count a xs)
unfolding elem count
elem-count a [] = ground arith
elem-count a (x ∷ xs) = ground (arith, elem-count a xs)

pub count_pos-get : (xs : List ℕ) (i : ℕ) → i < length xs → 0 < count (get xs i) xs
unfolding count
count_pos-get [] i h = absurd (omega arith)
count_pos-get (x ∷ xs) zero h = ground arith
count_pos-get (x ∷ xs) (suc i) h = ground (arith, count_pos-get xs i)

-- std::find: the position of the first `a`, counted from `i`, or the end.
unfoldable pub find_from : ℕ → List ℕ → ℕ → ℕ
find_from a [] i = i
find_from a (x ∷ xs) i = let rest = find_from a xs (i + 1) in if x == a then i else rest

pub find_from_ge : (a : ℕ) (xs : List ℕ) (i : ℕ) → i ≤ find_from a xs i
unfolding find_from
find_from_ge a [] i = omega arith
find_from_ge a (x ∷ xs) i = ground (arith, find_from_ge a xs (i + 1))

-- The search succeeds exactly on the values that occur, and stops at one of them.
pub find_from_lem :
    (a : ℕ) (xs : List ℕ) (i : ℕ)
    → if elem a xs
      then (find_from a xs i < i + length xs) × (get xs (find_from a xs i - i) ≡ a)
      else (find_from a xs i ≡ i + length xs) × Unit {0}
unfolding find_from elem
find_from_lem a [] i = (omega arith, tt)
find_from_lem a (x ∷ xs) i = ground (arith, find_from_lem a xs (i + 1), find_from_ge a xs (i + 1))
