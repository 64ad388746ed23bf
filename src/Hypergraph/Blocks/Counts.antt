-- ===== src/Hypergraph/Blocks/Counts.antt =====
-- Pin counts and connectivity sets: one increment, one decrement.
use kahypar.Prelude.{
  ℕ, ◌+◌, ◌*◌, ◌-◌, ◌<◌, ◌≡◌, ◌&&◌, arith, ltb, ◌==◌, if◌then◌else◌, length, count, ap,
}
use kahypar.Prelude.Words.{u32_mod, inc32, dec32, inc32_lem, dec32_lem}
use kahypar.Containers.ConnectivitySet
use kahypar.Containers.ConnectivitySet.Members.{
  count-add, count-remove, contains_lem, size-add, size-remove,
}
use kahypar.Containers.FlagArray.{FlagArray}
use kahypar.Hypergraph.State.{Hypergraph, pin_count_in_part, connectivity}
use kahypar.Hypergraph.Shape.{SameShape, SameShape-if, counts-SameShape, pins_in_part-SameShape}
use kahypar.Hypergraph.Blocks.{increment_pin_count_in_part, decrement_pin_count_in_part}

pub offset-lt : (k he i he' : ℕ) → i < k → he < he' → he * k + i < he' * k
offset-lt k he i he' h l = grind arith

-- Two nets never share a pin count.
pub offset-injective :
    (k he i he' i' : ℕ) → i < k → i' < k → he * k + i ≡ he' * k + i' → (he ≡ he') × (i ≡ i')
offset-injective k he i he' i' h h' e =
    let same : he ≡ he' = ground (arith, offset-lt k he i he' h, offset-lt k he' i' he h') in
    (same, omega (arith, ap (λ (t : ℕ). t * k) same))

module _ (F : FlagArray) where
  -- The connectivity set of net `he` lists the blocks with a pin count above 0, each once, and
  -- `connectivity` is its size.
  pub record IsLinked (g : Hypergraph F) (he : ℕ) : Type 0 where
    pub listed :
        (i : ℕ)
        → count i (g.connectivity_sets he).contained_parts
          ≡ (if ltb i g.k && ltb 0 (pin_count_in_part F g he i) then 1 else 0)
    pub sized : connectivity F g he ≡ length (g.connectivity_sets he).contained_parts

  module _ (g : Hypergraph F) (he id : ℕ) where
    pub increment-SameShape : SameShape F g (increment_pin_count_in_part F g he id).0
    unfolding increment_pin_count_in_part
    increment-SameShape =
        SameShape-if F _ (counts-SameShape F g _ _ he (connectivity F g he + 1))
          (pins_in_part-SameShape F g _)

    pub decrement-SameShape : SameShape F g (decrement_pin_count_in_part F g he id).0
    unfolding decrement_pin_count_in_part
    decrement-SameShape =
        SameShape-if F _ (counts-SameShape F g _ _ he (connectivity F g he - 1))
          (pins_in_part-SameShape F g _)

    module _ (inside : id < g.k) (he' : ℕ) where
      pub increment-pin_count :
          (i : ℕ)
          → i < g.k
          → pin_count_in_part F (increment_pin_count_in_part F g he id).0 he' i ≡ (
              if (he == he') && (id == i)
              then inc32 (pin_count_in_part F g he' i)
              else pin_count_in_part F g he' i)
      unfolding increment_pin_count_in_part
      increment-pin_count i h = ground (arith, offset-injective g.k he id he' i inside h)

      pub decrement-pin_count :
          (i : ℕ)
          → i < g.k
          → pin_count_in_part F (decrement_pin_count_in_part F g he id).0 he' i ≡ (
              if (he == he') && (id == i)
              then dec32 (pin_count_in_part F g he' i)
              else pin_count_in_part F g he' i)
      unfolding decrement_pin_count_in_part
      decrement-pin_count i h = ground (arith, offset-injective g.k he id he' i inside h)

      -- A pin count that does not wrap keeps the connectivity set in step.
      pub increment-IsLinked :
          IsLinked g he'
          → (he ≡ he' → pin_count_in_part F g he id + 1 < u32_mod)
          → IsLinked (increment_pin_count_in_part F g he id).0 he'
      unfolding increment_pin_count_in_part ConnectivitySet.size
      increment-IsLinked l small = record {
        listed = λ i. ground (
          arith,
          l.listed i,
          offset-injective g.k he id he' i inside,
          inc32_lem (pin_count_in_part F g he id),
          small,
          count-add (g.connectivity_sets he) id i,
        );
        sized = ground (
          arith,
          l.sized,
          inc32_lem (pin_count_in_part F g he id),
          small,
          size-add (g.connectivity_sets he) id,
        );
      }

      pub decrement-IsLinked :
          IsLinked g he'
          → (he ≡ he' → 0 < pin_count_in_part F g he id)
          → (he ≡ he' → pin_count_in_part F g he id < u32_mod)
          → IsLinked (decrement_pin_count_in_part F g he id).0 he'
      unfolding decrement_pin_count_in_part ConnectivitySet.size
      decrement-IsLinked l some_pin small = record {
        listed = λ i. ground (
          arith,
          l.listed i,
          offset-injective g.k he id he' i inside,
          dec32_lem (pin_count_in_part F g he id),
          some_pin,
          small,
          count-remove (g.connectivity_sets he) id i,
          contains_lem (g.connectivity_sets he) id,
          l.listed id,
        );
        sized = ground (
          arith,
          l.sized,
          l.listed id,
          dec32_lem (pin_count_in_part F g he id),
          some_pin,
          small,
          size-remove (g.connectivity_sets he) id,
          contains_lem (g.connectivity_sets he) id,
        );
      }

    -- What the two members return.
    pub increment-true :
        pin_count_in_part F g he id + 1 < u32_mod
        → (increment_pin_count_in_part F g he id).1 ≡ (pin_count_in_part F g he id == 0)
    unfolding increment_pin_count_in_part
    increment-true small = ground (arith, inc32_lem (pin_count_in_part F g he id) small)

    pub decrement-true :
        0 < pin_count_in_part F g he id
        → pin_count_in_part F g he id < u32_mod
        → (decrement_pin_count_in_part F g he id).1 ≡ (pin_count_in_part F g he id == 1)
    unfolding decrement_pin_count_in_part
    decrement-true some_pin small =
        ground (arith, dec32_lem (pin_count_in_part F g he id) some_pin small)
