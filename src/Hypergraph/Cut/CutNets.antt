-- ===== src/Hypergraph/Cut/CutNets.antt =====
-- One step of the loop of changeNodePart: the cut counts of the pins and the connectivity.
use kahypar.Prelude.{
  ℕ, suc, ◌+◌, ◌-◌, ◌≤◌, ◌<◌, ◌≡◌, ◌≢◌, refl, ◌∙◌, ap, Bool, true, false, not, ◌&&◌, List, [], ◌∷◌,
  arith, ltb, ◌==◌, if◌then◌else◌, count,
}
use kahypar.Prelude.Vectors.{push_back}
use kahypar.Prelude.Words.{u32_mod, dec32, inc32_lem, dec32_lem}
use kahypar.Containers.FlagArray.{FlagArray}
use kahypar.Hypergraph.State.{
  Hypergraph, hypernode, set_hypernode, pins, edge_size, pin_count_in_part, connectivity,
}
use kahypar.Hypergraph.Shape.{SameShape, SameShape-trans, pins-SameShape}
use kahypar.Hypergraph.Blocks.{
  uncut_pins, cut_pins, change_net_part, increment_pin_count_in_part, decrement_pin_count_in_part,
}
use kahypar.Hypergraph.Blocks.Counts.{
  increment-true, decrement-true, increment-SameShape, decrement-SameShape, increment-pin_count,
  decrement-pin_count,
}
use kahypar.Hypergraph.Blocks.Moves.{change_net_part-SameShape}
use kahypar.Hypergraph.Marks.CutNets.{cut_nets, cut_pins-cut_nets}
use kahypar.Hypergraph.Cut.Step.{
  IsReady, cut_lem, f_small, IsLinked-after, to_after, full_after, same_size,
}

module _ (F : FlagArray) where
  -- What the two loops over the pins do to the cut count of `u`.
  uncut_pins-cut_nets :
      (u : ℕ) (ps : List ℕ) (g : Hypergraph F) (out : List ℕ)
      → cut_nets F u g < u32_mod
      → count u ps ≤ cut_nets F u g
      → cut_nets F u (uncut_pins F g ps out).0 + count u ps ≡ cut_nets F u g
  unfolding uncut_pins count
  uncut_pins-cut_nets u [] g out small enough = omega arith
  uncut_pins-cut_nets u (p ∷ ps) g out small enough =
      let x = hypernode F g p in
      let n = dec32 x.num_incident_cut_hes in
      ground (
        arith,
        uncut_pins-cut_nets u ps (set_hypernode F g p (record x { num_incident_cut_hes = n }))
            (if n == 0 then push_back out p else out),
        dec32_lem (cut_nets F u g),
      )

  -- The cases of the loop's body, on the numbers: `f` and `t` pins in the two blocks of `s` before
  -- the move, the cut count `n` of `u` before and `n'` after, and `c` pins that are `u`.
  step_cases :
      (f t s n n' c uncut cut f₂ t₂ s₂ d₂ n₂ : ℕ) (no_left only : Bool)
      → 0 < f
      → f + t ≤ s
      → no_left ≡ (f == 1)
      → only ≡ (t == 0)
      → (ltb f s ≡ true → uncut + c ≡ n)
      → (ltb f s ≡ false → cut ≡ n + c)
      → f₂ ≡ f - 1
      → t₂ ≡ t + 1
      → s₂ ≡ s
      → d₂ ≡ s - 1
      → n₂ ≡ n
      → n' ≡ (
          if no_left && not only
          then (if t₂ == s₂ then uncut else n₂)
          else if not no_left && only && (f₂ == d₂)
          then cut
          else n₂)
      → n' + (if ltb f s then c else 0) ≡ n + (if ltb (t + 1) s then c else 0)
  step_cases f t s n n' c uncut cut f₂ t₂ s₂ d₂ n₂ no_left only hf sum e₁ e₂ hu hc ef et es ed en
        hn =
      ground arith

  -- The cut count of `u` after the tests of the loop's body.
  cut_nets-tests :
      (u : ℕ) (b c d : Bool) (x y z : Hypergraph F × List ℕ)
      → cut_nets F u (if b then (if c then x else y) else if d then z else y).0 ≡ (
          if b
          then (if c then cut_nets F u x.0 else cut_nets F u y.0)
          else if d
          then cut_nets F u z.0
          else cut_nets F u y.0)
  cut_nets-tests u true true d x y z = refl
  cut_nets-tests u true false d x y z = refl
  cut_nets-tests u false c true x y z = refl
  cut_nets-tests u false c false x y z = refl

  -- The two members leave the cut counts alone.
  same_cut_nets :
      (g : Hypergraph F) (x from to u : ℕ)
      → let g₁ = (decrement_pin_count_in_part F g x from).0 in
        cut_nets F u (increment_pin_count_in_part F g₁ x to).0 ≡ cut_nets F u g
  unfolding increment_pin_count_in_part decrement_pin_count_in_part
  same_cut_nets g x from to u = ground arith

  module _ (from to : ℕ) (apart : from ≢ to) (g : Hypergraph F) (x : ℕ) (out : List ℕ)
      (hf : from < g.k) (ht : to < g.k) where
    abbrev moved : Hypergraph F
    moved = (change_net_part F g x from to out).0

    module _ (n : ℕ) (r : IsReady F g from (suc n) x) where
      -- The cut count of `u` follows the connectivity of the net.
      pub cut_nets-change_net_part :
          (u : ℕ)
          → cut_nets F u g < u32_mod
          → (ltb 1 (connectivity F g x) ≡ false → cut_nets F u g + count u (pins F g x) < u32_mod)
          → (ltb 1 (connectivity F g x) ≡ true → count u (pins F g x) ≤ cut_nets F u g)
          → cut_nets F u moved + (if ltb 1 (connectivity F g x) then count u (pins F g x) else 0)
            ≡ cut_nets F u g + (if ltb 1 (connectivity F moved x) then count u (pins F g x) else 0)
      unfolding change_net_part
      cut_nets-change_net_part u small room listed =
          let g₁ = (decrement_pin_count_in_part F g x from).0 in
          let g₂ = (increment_pin_count_in_part F g₁ x to).0 in
          let s₁ = decrement-SameShape F g x from in
          let s : SameShape F g g₂ = SameShape-trans F s₁ (increment-SameShape F g₁ x to) in
          let before = cut_lem F g x from hf (omega (arith, r.enough)) r.linked r.full in
          let after =
            cut_lem F moved x to
              (rw ((change_net_part-SameShape F x from to apart g x out).blocks) ht)
              (omega (arith, (to_after F from to apart g x out hf ht n r)))
              (IsLinked-after F from to apart g x out hf ht n r)
              (full_after F from to apart g x out hf ht n r) in
          let f = pin_count_in_part F g x from in
          let t = pin_count_in_part F g x to in
          let d =
            decrement-true F g x from (omega (arith, r.enough))
              (omega (arith, (f_small F from to apart g x out hf ht n r), r.room)) in
          let t₁ : pin_count_in_part F g₁ x to ≡ t =
            ground (arith, decrement-pin_count F g x from hf x to ht) in
          let up =
            increment-true F g₁ x to
              (omega (arith, t₁, (f_small F from to apart g x out hf ht n r), r.room, r.enough)) in
          let t₂ : pin_count_in_part F g₂ x to ≡ t + 1 = ground (
            arith,
            increment-pin_count F g₁ x to (rw s₁.blocks ht) x to (rw s₁.blocks ht),
            t₁,
            inc32_lem t,
            (f_small F from to apart g x out hf ht n r),
            r.room,
            r.enough,
          ) in
          let f₂ : pin_count_in_part F g₂ x from ≡ f - 1 = ground (
            arith,
            increment-pin_count F g₁ x to (rw s₁.blocks ht) x from (rw s₁.blocks hf),
            decrement-pin_count F g x from hf x from hf,
            dec32_lem f,
            (f_small F from to apart g x out hf ht n r),
            r.room,
            r.enough,
          ) in
          let same : cut_nets F u g₂ ≡ cut_nets F u g = same_cut_nets g x from to u in
          let ps = ap (count u) (pins-SameShape F s x) in
          let no_left = (decrement_pin_count_in_part F g x from).1 in
          let only = (increment_pin_count_in_part F g₁ x to).1 in
          let c = count u (pins F g x) in
          let he = edge_size F g x in
          let uncut : ltb f he ≡ true
              → cut_nets F u (uncut_pins F g₂ (pins F g₂ x) out).0 + c ≡ cut_nets F u g =
            λ e.
              let now = listed (before ∙ e) in
              omega (
                arith,
                uncut_pins-cut_nets u (pins F g₂ x) g₂ out (omega (arith, same, small))
                    (omega (arith, now, same, ps)),
                same,
                ps,
              ) in
          let cut : ltb f he ≡ false
              → cut_nets F u (cut_pins F g₂ (pins F g₂ x)) ≡ cut_nets F u g + c =
            λ e.
              let fits = room (before ∙ e) in
              ground (
                arith,
                cut_pins-cut_nets F u (pins F g₂ x) g₂ (omega (arith, same, small)),
                same,
                ps,
                fits,
              ) in
          let tests =
            cut_nets-tests u (no_left && not only) (pin_count_in_part F g₂ x to == edge_size F g₂ x)
              (not no_left && only && (pin_count_in_part F g₂ x from == dec32 (edge_size F g₂ x)))
              (uncut_pins F g₂ (pins F g₂ x) out) (g₂, out) (cut_pins F g₂ (pins F g₂ x), out) in
          let d' : dec32 (edge_size F g₂ x) ≡ he - 1 = ground (
            arith,
            dec32_lem (edge_size F g₂ x),
            s.size x,
            r.room,
            r.enough,
            (f_small F from to apart g x out hf ht n r),
          ) in
          let numbers =
            step_cases f t he (cut_nets F u g) (cut_nets F u moved) c
              (cut_nets F u (uncut_pins F g₂ (pins F g₂ x) out).0)
              (cut_nets F u (cut_pins F g₂ (pins F g₂ x))) (pin_count_in_part F g₂ x from)
              (pin_count_in_part F g₂ x to) (edge_size F g₂ x) (dec32 (edge_size F g₂ x))
              (cut_nets F u g₂) no_left only (omega (arith, r.enough))
              (f_small F from to apart g x out hf ht n r) d (rw (← t₁) up) uncut cut f₂ t₂
              (s.size x) d' same tests in
          rw
            (
              before,
              after,
              (to_after F from to apart g x out hf ht n r),
              (same_size F from to apart g x out hf ht n r),
            )
            numbers
