-- ===== src/Containers/SegmentTree/Query.antt =====
-- Queries of a tree that the constructor built.
use kahypar.Prelude.{
  ℕ, zero, suc, ◌+◌, ◌-◌, ◌*◌, ◌/◌, ◌≤◌, ◌<◌, ◌≡◌, refl, ◌∙◌, sym, ap, true, false, ◌&&◌, Option,
  some, arith, ltb, leb, ◌==◌, max, min, Bool-cases, inl, inr,
}
use mathlib.Core.Option
use native.Mathlib.Decide.{ℕ_discrete}
use kahypar.Prelude.Arrays.{Array}
use kahypar.Containers.SegmentTree.{SegmentTree, create, query_rec, query}
use kahypar.Containers.SegmentTree.Folds.{range, range-split, range-one, IsAssociative}
use kahypar.Containers.SegmentTree.Build.{IsBuilt, build_segment_tree_lem}

module _ (S T : Type 0) (combine : T → T → T → T) (base : ℕ → Array S → T → T) where
  module _ (s : SegmentTree S T combine base) where
    abbrev value : ℕ → ℕ → T
    value i j = range S T combine base s.seq s.param i j

    abbrev Holds : ℕ → ℕ → ℕ → ℕ → Type 0
    Holds n pos i j = IsBuilt S T combine base s.seq s.param n s.seg_tree pos i j

    abbrev ask : ℕ → ℕ → ℕ → ℕ → ℕ → ℕ → Option T
    ask n pos i j x y = query_rec S T combine base s n pos i j x y

    whole :
        (n pos i j x y : ℕ)
        → i ≤ j
        → x ≤ i
        → j ≤ y
        → Holds (suc n) pos i j
        → ask (suc n) pos i j x y ≡ some (value i j)
    unfolding query_rec IsBuilt
    whole n pos i j x y h low high b =
        let inside : (leb x i && leb j y) ≡ true = ground arith in
        elim (ℕ_discrete i j) [
          | yes e ↦
              let one : (i == j) ≡ true = ground arith in
              rw (query_rec, inside, one)
                (ap some (sym (range-one S T combine base s.seq s.param i j e)))
          | no ne ↦
              let more : (i == j) ≡ false = ground arith in
              rw (query_rec, inside, more) (ap some (b (omega arith)).0)
        ]

    -- The three ways to descend.
    left_only :
        (n pos i j x y : ℕ) (l : T)
        → (leb x i && leb j y) ≡ false
        → (leb i y && leb x ((i + j) / 2)) ≡ true
        → (leb ((i + j) / 2 + 1) y && leb x j) ≡ false
        → ask n (2 * pos + 1) i ((i + j) / 2) x y ≡ some l
        → ask (suc n) pos i j x y ≡ some l
    unfolding query_rec Option.bind
    left_only n pos i j x y l part into out e =
        rw (query_rec, part) (rw into (rw (Option.bind, e) (rw out refl)))

    both :
        (n pos i j x y : ℕ) (l r : T)
        → (leb x i && leb j y) ≡ false
        → (leb i y && leb x ((i + j) / 2)) ≡ true
        → (leb ((i + j) / 2 + 1) y && leb x j) ≡ true
        → ask n (2 * pos + 1) i ((i + j) / 2) x y ≡ some l
        → ask n (2 * pos + 2) ((i + j) / 2 + 1) j x y ≡ some r
        → ask (suc n) pos i j x y ≡ some (combine l r s.param)
    unfolding query_rec Option.bind
    both n pos i j x y l r part into out e e' =
        rw (query_rec, part) (rw into (rw (Option.bind, e) (rw (out, e') refl)))

    right_only :
        (n pos i j x y : ℕ)
        → (leb x i && leb j y) ≡ false
        → (leb i y && leb x ((i + j) / 2)) ≡ false
        → ask (suc n) pos i j x y ≡ ask n (2 * pos + 2) ((i + j) / 2 + 1) j x y
    unfolding query_rec
    right_only n pos i j x y part out = rw (query_rec, part) (rw out refl)

    same_value : (a a' b b' : ℕ) → a ≡ a' → b ≡ b' → value a b ≡ value a' b'
    same_value a a' b b' e e' = rw (e, e') refl

    query_rec_lem :
        IsAssociative S T combine base s.seq s.param
        → (n pos i j x y : ℕ) → i ≤ j
        → j - i < n
        → Holds n pos i j
        → x ≤ y
        → i ≤ y
        → x ≤ j
        → ask n pos i j x y ≡ some (value (max i x) (min j y))
    unfolding IsBuilt
    query_rec_lem assoc zero pos i j x y h small b hq hi hj = absurd (omega arith)
    query_rec_lem assoc (suc n) pos i j x y h small b hq hi hj =
        let m = (i + j) / 2 in
        elim (Bool-cases (leb x i && leb j y)) [
          | inl all ↦
              whole n pos i j x y h (ground (arith, all)) (ground (arith, all)) b
              ∙ ap some
                  (same_value i (max i x) j (min j y) (ground (arith, all)) (ground (arith, all)))
          | inr part ↦
              let lt : i < j = ground (arith, part) in
              let (here, bl, br) = b lt in
              let left =
                query_rec_lem assoc n (2 * pos + 1) i m x y (omega arith) (omega arith) bl hq hi in
              let right =
                query_rec_lem assoc n (2 * pos + 2) (m + 1) j x y (omega arith) (omega arith) br
                  hq in
              elim (Bool-cases (leb i y && leb x m)) [
                | inr out ↦
                    let gt : m < x = ground (arith, out) in
                    right_only n pos i j x y part out
                    ∙ right (omega arith) hj
                    ∙ ap some (
                        same_value (max (m + 1) x) (max i x) (min j y) (min j y) (omega arith) refl)
                | inl into ↦
                    let le : x ≤ m = ground (arith, into) in
                    elim (Bool-cases (leb (m + 1) y && leb x j)) [
                      | inr out ↦
                          let low : y ≤ m = ground (arith, out) in
                          left_only n pos i j x y (value (max i x) (min m y)) part into out
                            (left le)
                          ∙ ap some (
                              same_value (max i x) (max i x) (min m y) (min j y) refl (omega arith))
                      | inl more ↦
                          let high : m < y = ground (arith, more) in
                          both n pos i j x y (value (max i x) m) (value (m + 1) (min j y)) part into
                            more
                            (left le
                              ∙ ap some
                                  (same_value (max i x) (max i x) (min m y) m refl (omega arith)))
                            (right (omega arith) hj
                              ∙ ap some (
                                  same_value (max (m + 1) x) (m + 1) (min j y) (min j y)
                                    (omega arith) refl))
                          ∙ ap some (
                              sym (
                                range-split S T combine base s.seq s.param assoc (max i x) m
                                  (min j y) (omega arith) (omega arith)))
                    ]
              ]
        ]

  -- Where COMBINE is associative: the constructor succeeds, for a sequence that is not empty, and a query
  -- of a valid interval of the tree it builds terminates with the values of the interval, combined from
  -- left to right; the size of the sequence is fuel enough for both.
  pub query-create :
      (initial : T) (size : ℕ) (seq : Array S) (param : T) (i j : ℕ)
      → IsAssociative S T combine base seq param
      → i ≤ j
      → j < size
      → Option.bind
          (create S T combine base initial size seq param)
          (λ s. query S T combine base s i j)
        ≡ some (range S T combine base seq param i j)
  unfolding create query Option.bind
  query-create initial size seq param i j assoc h inside =
      let fresh : Array T = λ p. initial in
      let (tree, b) =
        build_segment_tree_lem S T combine base seq param assoc size fresh 0 0 (size - 1)
          (omega arith) (omega arith) in
      let s : SegmentTree S T combine base = record {
        size = size;
        seq = seq;
        seg_tree = tree;
        param = param;
      } in
      let some_entry : ltb 0 size ≡ true = ground arith in
      rw (create, some_entry)
        (rw b.result (
          query_rec_lem s assoc size 0 0 (size - 1) i j (omega arith) (omega arith) b.built h
            (omega arith) (omega arith)
          ∙ ap some (same_value s (max 0 i) i (min (size - 1) j) j (omega arith) (omega arith))))
