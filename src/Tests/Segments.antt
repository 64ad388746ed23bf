-- ===== src/Tests/Segments.antt =====
-- A segment tree of sums.
use kahypar.Prelude.{ℕ, zero, suc, ◌+◌, ◌≡◌, refl, some, arith}
use mathlib.Core.Option
use kahypar.Prelude.Arrays.{Array}
use kahypar.Containers.SegmentTree.{create, query}
use kahypar.Containers.SegmentTree.Folds.{IsAssociative, range, fold}
use kahypar.Containers.SegmentTree.Query.{query-create}

abbrev plus : ℕ → ℕ → ℕ → ℕ
plus x y param = x + y

abbrev leaf : ℕ → Array ℕ → ℕ → ℕ
leaf i seq param = seq i + param

abbrev squares : Array ℕ
squares zero = 0
squares (suc zero) = 1
squares (suc (suc zero)) = 4
squares (suc (suc (suc i))) = 9

plus-IsAssociative : IsAssociative ℕ ℕ plus leaf squares 1
plus-IsAssociative x y z = omega arith

query-create_example :
    Option.bind (create ℕ ℕ plus leaf 0 4 squares 1) (λ s. query ℕ ℕ plus leaf s 1 3)
    ≡ some (range ℕ ℕ plus leaf squares 1 1 3)
query-create_example =
    query-create ℕ ℕ plus leaf 0 4 squares 1 1 3 plus-IsAssociative (omega arith) (omega arith)

-- 1 + 4 + 9, and 1 for each.
range_value : range ℕ ℕ plus leaf squares 1 1 3 ≡ 17
unfolding fold
range_value = refl
