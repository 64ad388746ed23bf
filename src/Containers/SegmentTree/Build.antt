-- ===== src/Containers/SegmentTree/Build.antt =====
-- What buildSegmentTree writes to the nodes, and its fuel.
use kahypar.Prelude.{
  ℕ, zero, suc, ◌+◌, ◌-◌, ◌*◌, ◌/◌, ◌≤◌, ◌<◌, ◌≡◌, ◌≢◌, refl, ◌∙◌, sym, ap, true, false, some,
  arith, ◌==◌,
}
use mathlib.Core.Option
use native.Mathlib.Decide.{ℕ_discrete}
use kahypar.Prelude.Arrays.{Array, update}
use kahypar.Containers.SegmentTree.{build_segment_tree}
use kahypar.Containers.SegmentTree.Folds.{range, range-split, range-one, IsAssociative}
use kahypar.Containers.SegmentTree.Positions.{
  up, apart_children, apart_root, up_child, up_child_right,
}

module _ (S T : Type 0) (combine : T → T → T → T) (base : ℕ → Array S → T → T) (seq : Array S)
    (param : T) where
  -- The node at `pos` has the interval from `i` to `j`: it and the nodes below hold their values, to the
  -- depth `n`. One-element intervals are not stored.
  unfoldable pub IsBuilt : ℕ → Array T → ℕ → ℕ → ℕ → Type 0
  IsBuilt zero tree pos i j = i ≡ j
  IsBuilt (suc n) tree pos i j =
      i < j
      → (tree pos ≡ range S T combine base seq param i j)
        × IsBuilt n tree (2 * pos + 1) i ((i + j) / 2)
        × IsBuilt n tree (2 * pos + 2) ((i + j) / 2 + 1) j

  -- The predicate reads nothing but the subtree.
  pub IsBuilt-frame :
      (n : ℕ) (tree tree' : Array T) (pos i j : ℕ)
      → ((p e : ℕ) → up e (p + 1) ≡ pos + 1 → tree' p ≡ tree p)
      → IsBuilt n tree pos i j
      → IsBuilt n tree' pos i j
  unfolding IsBuilt up
  IsBuilt-frame zero tree tree' pos i j same b = b
  IsBuilt-frame (suc n) tree tree' pos i j same b = λ h.
      let (here, left, right) = b h in
      (
        same pos 0 refl ∙ here,
        IsBuilt-frame n tree tree' (2 * pos + 1) i ((i + j) / 2)
            (λ p e l. same p (suc e) (up_child (pos + 1) e (p + 1) (omega (arith, l)))) left,
        IsBuilt-frame n tree tree' (2 * pos + 2) ((i + j) / 2 + 1) j
            (λ p e l. same p (suc e) (up_child_right (pos + 1) e (p + 1) (omega (arith, l)))) right,
      )

  -- What a call gives: the value of the interval, its nodes, and nothing written elsewhere.
  pub record IsBuiltBy (n : ℕ) (tree : Array T) (pos i j : ℕ) (tree' : Array T) : Type 0 where
    pub result :
        build_segment_tree S T combine base seq param n tree pos i j
        ≡ some (tree', range S T combine base seq param i j)
    pub built : IsBuilt n tree' pos i j
    pub others : (p : ℕ) → ((e : ℕ) → up e (p + 1) ≢ pos + 1) → tree' p ≡ tree p

  build_one :
      (n : ℕ) (tree : Array T) (pos i j : ℕ)
      → (i == j) ≡ true
      → build_segment_tree S T combine base seq param (suc n) tree pos i j
        ≡ some (tree, base i seq param)
  unfolding build_segment_tree
  build_one n tree pos i j e = rw (build_segment_tree, e) refl

  build_two :
      (n : ℕ) (tree tree₁ tree₂ : Array T) (pos i j : ℕ) (l r : T)
      → (i == j) ≡ false
      → build_segment_tree S T combine base seq param n tree (2 * pos + 1) i ((i + j) / 2)
        ≡ some (tree₁, l)
      → build_segment_tree S T combine base seq param n tree₁ (2 * pos + 2) ((i + j) / 2 + 1) j
        ≡ some (tree₂, r)
      → build_segment_tree S T combine base seq param (suc n) tree pos i j
        ≡ some (update tree₂ pos (combine l r param), combine l r param)
  unfolding build_segment_tree Option.bind
  build_two n tree tree₁ tree₂ pos i j l r e el er =
      rw (build_segment_tree, e) (rw (Option.bind, el) (rw (Option.bind, er) refl))

  up_zero : (p pos : ℕ) → pos ≡ p → up 0 (p + 1) ≡ pos + 1
  unfolding up
  up_zero p pos same = omega (arith, same)

  pub build_segment_tree_lem :
      IsAssociative S T combine base seq param
      → (n : ℕ) (tree : Array T) (pos i j : ℕ) → i ≤ j
      → j - i < n
      → (tree' : Array T) × IsBuiltBy n tree pos i j tree'
  unfolding IsBuilt
  build_segment_tree_lem assoc zero tree pos i j h small = absurd (omega arith)
  build_segment_tree_lem assoc (suc n) tree pos i j h small = elim (ℕ_discrete i j) [
    | yes e ↦ (
      tree,
      record {
        result =
            build_one n tree pos i j (ground arith)
            ∙ ap (λ t. some (tree, t)) (sym (range-one S T combine base seq param i j e));
        built = λ l. absurd (omega arith);
        others = λ p out. refl;
      },
    )
    | no ne ↦
        let m = (i + j) / 2 in
        let (t₁, l) =
          build_segment_tree_lem assoc n tree (2 * pos + 1) i m (omega arith) (omega arith) in
        let (t₂, r) =
          build_segment_tree_lem assoc n t₁ (2 * pos + 2) (m + 1) j (omega arith) (omega arith) in
        let a = range S T combine base seq param i m in
        let b = range S T combine base seq param (m + 1) j in
        let value = combine a b param in
        let split : range S T combine base seq param i j ≡ value =
          range-split S T combine base seq param assoc i m j (omega arith) (omega arith) in
        let t = update t₂ pos value in
        let here : t pos ≡ value = ground arith in
        let not_root : (p e : ℕ) → up e (p + 1) ≡ 2 * (pos + 1) → pos ≢ p =
          λ p e q same. (apart_root (pos + 1) e (p + 1) (omega arith) (omega (arith, same))).0 q in
        let not_root_right : (p e : ℕ) → up e (p + 1) ≡ 2 * (pos + 1) + 1 → pos ≢ p =
          λ p e q same. (apart_root (pos + 1) e (p + 1) (omega arith) (omega (arith, same))).1 q in
        let keep : (p : ℕ) → pos ≢ p → t p ≡ t₂ p = λ p ne. ground arith in
        (
          t,
          record {
            result =
                build_two n tree t₁ t₂ pos i j a b (ground arith) l.result r.result
                ∙ ap (λ v. some (t, v)) (sym split);
            built = λ lt. (
              here ∙ sym split,
              IsBuilt-frame n t₁ t (2 * pos + 1) i m
                  (λ p e q.
                    let q' : up e (p + 1) ≡ 2 * (pos + 1) = omega (arith, q) in
                    keep p (not_root p e q')
                    ∙ r.others p (λ e' q''.
                      apart_children (pos + 1) e e' (p + 1) (omega arith) q' (omega (arith, q''))))
                  l.built,
              IsBuilt-frame n t₂ t (2 * pos + 2) (m + 1) j
                  (λ p e q. keep p (not_root_right p e (omega (arith, q)))) r.built,
            );
            others = λ p out.
                keep p (λ same. out 0 (up_zero p pos same))
                ∙ r.others p
                    (λ e q. out (suc e) (up_child_right (pos + 1) e (p + 1) (omega (arith, q))))
                ∙ l.others p (λ e q. out (suc e) (up_child (pos + 1) e (p + 1) (omega (arith, q))));
          },
        )
  ]
