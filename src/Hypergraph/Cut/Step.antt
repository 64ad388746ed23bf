-- ===== src/Hypergraph/Cut/Step.antt =====
-- One step of the loop of changeNodePart: pin counts, connectivity and what the next step asks for.
use kahypar.Prelude.{
  ℕ, suc, ◌+◌, ◌-◌, ◌≤◌, ◌<◌, ◌≡◌, ◌≢◌, ◌∙◌, sym, ap, List, arith, ◌==◌, if◌then◌else◌,
}
use kahypar.Prelude.Sums.{sum_ℕ, sum_ℕ-cong, sum_ℕ-change}
use kahypar.Prelude.Words.{inc32_lem, dec32_lem}
use kahypar.Containers.FlagArray.{FlagArray}
use kahypar.Hypergraph.State.{Hypergraph, edge_size, pin_count_in_part, connectivity}
use kahypar.Hypergraph.Blocks.{
  change_net_part, increment_pin_count_in_part, decrement_pin_count_in_part,
}
use kahypar.Hypergraph.Blocks.Counts.{IsLinked}
use kahypar.Hypergraph.Blocks.Moves.{
  change_net_part-pin_count, change_net_part-IsLinked, change_net_part-SameShape,
  change_net_part-SameCounts,
}
use kahypar.Hypergraph.Cut.Spread.{two-le-sum}
pub use kahypar.Hypergraph.Cut.Ready.{IsReady, cut_lem}

module _ (F : FlagArray) where
  module _ (from to : ℕ) (apart : from ≢ to) (g : Hypergraph F) (x : ℕ) (out : List ℕ)
      (hf : from < g.k) (ht : to < g.k) where
    abbrev moved : Hypergraph F
    moved = (change_net_part F g x from to out).0

    -- The other nets stay as they are.
    pub connectivity-change_net_part : (y : ℕ) → x ≢ y → connectivity F moved y ≡ connectivity F g y
    unfolding increment_pin_count_in_part decrement_pin_count_in_part
    connectivity-change_net_part y other =
        let s = change_net_part-SameCounts F g x from to out in
        ap (λ e. (e y).connectivity) s.edges_same ∙ ground arith

    pub other-IsReady : (n y : ℕ) → x ≢ y → IsReady F g from n y → IsReady F moved from n y
    other-IsReady n y other r =
        let s = change_net_part-SameShape F x from to apart g x out in
        let p : ℕ → ℕ = λ i. pin_count_in_part F g y i in
        let q : ℕ → ℕ = λ i. pin_count_in_part F moved y i in
        let same : (i : ℕ) → i < g.k → q i ≡ p i =
          λ i h. ground (arith, change_net_part-pin_count F y from to apart g x out i hf ht h) in
        record {
          linked =
              change_net_part-IsLinked F y from to apart g x out hf ht r.linked
                (λ e. absurd (other e)) (λ e. absurd (other e)) (λ e. absurd (other e));
          full = ap (sum_ℕ q) s.blocks ∙ sum_ℕ-cong p q g.k same ∙ r.full ∙ sym (s.size y);
          room = omega (arith, s.size y, r.room);
          enough = omega (arith, same from hf, r.enough);
        }

    module _ (n : ℕ) (r : IsReady F g from (suc n) x) where
      pub f_small : pin_count_in_part F g x from + pin_count_in_part F g x to ≤ edge_size F g x
      f_small =
          omega (arith, two-le-sum (λ i. pin_count_in_part F g x i) g.k from to apart hf ht, r.full)

      pub IsLinked-after : IsLinked F moved x
      IsLinked-after =
          change_net_part-IsLinked F x from to apart g x out hf ht r.linked
            (λ e. omega (arith, r.enough)) (λ e. omega (arith, f_small, r.room))
            (λ e. omega (arith, f_small, r.room, r.enough))

      pub from_after : pin_count_in_part F moved x from ≡ pin_count_in_part F g x from - 1
      from_after = ground (
        arith,
        change_net_part-pin_count F x from to apart g x out from hf ht hf,
        dec32_lem (pin_count_in_part F g x from),
        r.enough,
        f_small,
        r.room,
      )

      pub to_after : pin_count_in_part F moved x to ≡ pin_count_in_part F g x to + 1
      to_after = ground (
        arith,
        change_net_part-pin_count F x from to apart g x out to hf ht ht,
        inc32_lem (pin_count_in_part F g x to),
        r.enough,
        f_small,
        r.room,
      )

      pub same_size : edge_size F moved x ≡ edge_size F g x
      same_size = (change_net_part-SameShape F x from to apart g x out).size x

      pub full_after : sum_ℕ (λ i. pin_count_in_part F moved x i) moved.k ≡ edge_size F moved x
      full_after =
          let p : ℕ → ℕ = λ i. pin_count_in_part F g x i in
          let q : ℕ → ℕ = λ i. if from == i then p from - 1 else p i in
          let p' : ℕ → ℕ = λ i. pin_count_in_part F moved x i in
          let blocks = (change_net_part-SameShape F x from to apart g x out).blocks in
          let q_from : q from ≡ p from - 1 = ground arith in
          let q_to : q to ≡ p to = ground arith in
          let down = sum_ℕ-change p q from g.k hf (λ i ne. ground arith) in
          let q' : ℕ → ℕ = λ i. if to == i then p to + 1 else q i in
          let q'_to : q' to ≡ p to + 1 = ground arith in
          let up = sum_ℕ-change q q' to g.k ht (λ i ne. ground arith) in
          let same : sum_ℕ p' g.k ≡ sum_ℕ q' g.k = sum_ℕ-cong q' p' g.k (λ i h. ground (
            arith,
            change_net_part-pin_count F x from to apart g x out i hf ht h,
            dec32_lem (p from),
            inc32_lem (p to),
            r.enough,
            f_small,
            r.room,
          )) in
          omega (
            arith,
            ap (sum_ℕ p') blocks,
            same,
            down,
            up,
            q_from,
            q_to,
            q'_to,
            same_size,
            r.full,
            r.enough,
          )

      -- The step leaves one pin less to leave.
      pub moved-IsReady : IsReady F moved from n x
      moved-IsReady = record {
        linked = IsLinked-after;
        full = full_after;
        room = omega (arith, same_size, r.room);
        enough = omega (arith, from_after, r.enough);
      }
