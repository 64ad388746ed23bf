-- ===== src/Refinement/Search/Rollback.antt =====
-- Rollback, and the partition after the moves that are kept.
use kahypar.Prelude.{
  ℕ, zero, suc, ◌≤◌, ◌<◌, ◌≡◌, ◌≢◌, refl, ◌∙◌, sym, ap, ◌⊎◌, inl, inr, true, Bool-cases, Option,
  some, List, [], ◌∷◌, ◌++◌, ◌==◌, arith, length, take, get_elem?,
}
use mathlib.Core.Path.{subst}
use kahypar.Prelude.Arrays.{update}
use kahypar.Containers.FlagArray.{FlagArray}
use kahypar.Hypergraph.State.{Hypergraph, hypernode, part_id}
use kahypar.Hypergraph.Blocks.{change_node_part}
use kahypar.Hypergraph.Partition.{IsRelabelled, IsRelabelled-trans}
use kahypar.Hypergraph.Partition.Step.{
  IsSearchable, IsMove, change_node_part-IsRelabelled, change_node_part-IsSearchable,
}
use kahypar.Refinement.Search.{RollbackInfo, rollback}

module _ {ℓ} {A : Type ℓ} where
  pub take-append : (n : ℕ) (xs ys : List A) → n ≤ length xs → take n (xs ++ ys) ≡ take n xs
  take-append zero xs ys h = refl
  take-append (suc n) [] ys h = absurd (omega arith)
  take-append (suc n) (x ∷ xs) ys h = rw (take-append n xs ys (omega arith))

  pub take-all : (xs : List A) → take (length xs) xs ≡ xs
  take-all [] = refl
  take-all (x ∷ xs) = rw (take-all xs)

  take-suc :
      (n : ℕ) (xs : List A) (x : A)
      → get_elem? xs n ≡ some x
      → take (suc n) xs ≡ take n xs ++ (x ∷ [])
  take-suc n [] x h = absurd (ground arith)
  take-suc zero (y ∷ ys) x h = ground arith
  take-suc (suc n) (y ∷ ys) x h = rw (take-suc n ys x h)

  get_elem?-inside : (n : ℕ) (xs : List A) → n < length xs → (x : A) × (get_elem? xs n ≡ some x)
  get_elem?-inside n [] h = absurd (omega arith)
  get_elem?-inside zero (x ∷ xs) h = (x, refl)
  get_elem?-inside (suc n) (x ∷ xs) h = get_elem?-inside n xs (omega arith)

  pub get_elem?-append :
      (n : ℕ) (xs : List A) (y x : A)
      → get_elem? (xs ++ (y ∷ [])) n ≡ some x
      → ((n < length xs) × (get_elem? xs n ≡ some x)) ⊎ ((n ≡ length xs) × (y ≡ x))
  get_elem?-append zero [] y x h = inr (refl, ground arith)
  get_elem?-append (suc n) [] y x h = absurd (ground arith)
  get_elem?-append zero (z ∷ zs) y x h = inl (omega arith, h)
  get_elem?-append (suc n) (z ∷ zs) y x h = elim (get_elem?-append n zs y x h) [
    | inl p ↦ inl (omega (arith, p.0), p.1)
    | inr p ↦ inr (ap suc (p.0), p.1)
  ]

-- The blocks after a list of moves.
abbrev pub replay : (ℕ → Option ℕ) → List RollbackInfo → ℕ → Option ℕ
replay part [] = part
replay part (x ∷ xs) = replay (update part x.hn (some x.to_part)) xs

pub replay-append :
    (part : ℕ → Option ℕ) (xs ys : List RollbackInfo)
    → replay part (xs ++ ys) ≡ replay (replay part xs) ys
replay-append part [] ys = refl
replay-append part (x ∷ xs) ys = replay-append (update part x.hn (some x.to_part)) xs ys

module _ (F : FlagArray) (g₀ : Hypergraph F) where
  -- The blocks of `g₀` after the first `n` moves.
  abbrev pub blocks_after : List RollbackInfo → ℕ → ℕ → Option ℕ
  blocks_after moves n = replay (part_id F g₀) (take n moves)

  -- Each move takes an enabled hypernode from the block it is in to another one.
  pub record IsLegalMove (part : ℕ → Option ℕ) (x : RollbackInfo) : Type 0 where
    pub inside : x.hn < g₀.num_hypernodes
    pub live : (hypernode F g₀ x.hn).valid ≡ true
    pub old : part x.hn ≡ some x.from_part
    pub apart : x.from_part ≢ x.to_part
    pub from_inside : x.from_part < g₀.k
    pub to_inside : x.to_part < g₀.k

  abbrev pub IsLegal : List RollbackInfo → Type 0
  IsLegal moves =
      (n : ℕ) (x : RollbackInfo) → get_elem? moves n ≡ some x → IsLegalMove (blocks_after moves n) x

  -- A hypergraph after some of the moves.
  pub record IsAfter (part : ℕ → Option ℕ) (h : Hypergraph F) : Type 0 where
    pub relabelled : IsRelabelled F g₀ h part
    pub searchable : IsSearchable F h

  blocks_after-suc :
      (moves : List RollbackInfo) (n : ℕ) (x : RollbackInfo)
      → get_elem? moves n ≡ some x
      → blocks_after moves (suc n) ≡ update (blocks_after moves n) x.hn (some x.to_part)
  blocks_after-suc moves n x h =
      ap (replay (part_id F g₀)) (take-suc n moves x h)
      ∙ replay-append (part_id F g₀) (take n moves) (x ∷ [])

  -- One move taken back.
  undo_move :
      (part : ℕ → Option ℕ) (h : Hypergraph F) (x : RollbackInfo)
      → IsLegalMove part x
      → IsAfter (update part x.hn (some x.to_part)) h
      → IsAfter part (change_node_part F h x.hn x.to_part x.from_part []).0
  undo_move part h x l a =
      let r = a.relabelled in
      let m : IsMove F h x.hn x.to_part x.from_part = record {
        inside = rw (r.order) (l.inside);
        live = r.enabled x.hn ∙ l.live;
        old = r.block x.hn ∙ ground arith;
        apart = λ e. l.apart (sym e);
        from_inside = rw (r.blocks) (l.to_inside);
        to_inside = rw (r.blocks) (l.from_inside);
      } in
      record {
        relabelled =
            IsRelabelled-trans F r
              (change_node_part-IsRelabelled F h x.hn x.to_part x.from_part [] m)
              (λ u. ground (arith, r.block u, l.old));
        searchable = change_node_part-IsSearchable F h x.hn x.to_part x.from_part [] a.searchable m;
      }

  -- Where each of the moves in its turn takes an enabled hypernode of `g₀` from its block to another one
  -- below k, and `h` is `g₀` with the blocks after the first `n` of them: rolling back to the first `m` of
  -- these returns `g₀` with the blocks after the first `m`. Of `h` it is asked, and of the result stated,
  -- that pin counts, connectivity sets, block weights and sizes are exact, enabled hypernodes and enabled
  -- nets list each other, each net once, pins of enabled nets have blocks, blocks are below k, and
  -- net sizes and the number of hypernodes are below 2^32.
  pub rollback-restores :
      (moves : List RollbackInfo) (n m : ℕ) (h : Hypergraph F)
      → IsLegal moves
      → m ≤ n
      → n ≤ length moves
      → IsAfter (blocks_after moves n) h
      → (h' : Hypergraph F) × (rollback F moves n m h ≡ some h') × IsAfter (blocks_after moves m) h'
  unfolding rollback
  rollback-restores moves zero m h l le inside a =
      let e : zero ≡ m = omega arith in
      (h, ground arith, subst (λ j. IsAfter (blocks_after moves j) h) e a)
  rollback-restores moves (suc n) m h l le inside a = elim (Bool-cases (suc n == m)) [
    | inl e ↦
        let here : suc n ≡ m = ground arith in
        (h, rw (rollback, e) refl, subst (λ j. IsAfter (blocks_after moves j) h) here a)
    | inr e ↦
        let (x, at) = get_elem?-inside n moves (omega arith) in
        let h' = (change_node_part F h x.hn x.to_part x.from_part []).0 in
        let b : IsAfter (blocks_after moves n) h' =
          undo_move (blocks_after moves n) h x (l n x at)
            (rw (sym (blocks_after-suc moves n x at)) a) in
        let (h'', r, c) = rollback-restores moves n m h' l (ground arith) (omega arith) b in
        (h'', rw (rollback, e, at) r, c)
  ]
