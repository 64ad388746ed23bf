-- ===== src/Hypergraph/Restore/RoundTrip.antt =====
-- uncontract after contract.
use mathlib.Core.Path.{subst}
use kahypar.Prelude.{ℕ, ◌<◌, ◌≡◌, ◌≢◌, ◌∙◌, ap, ◌==◌, if◌then◌else◌, arith, count, true}
use native.Mathlib.Decide.{ℕ_discrete}
use kahypar.Containers.FlagArray.{FlagArray}
use kahypar.Hypergraph.State.{Hypergraph, hypernode, incident_edges, edge_size, part_id}
use kahypar.Hypergraph.Restore.Structure.{first, IsNet, IsFormed, IsLike}
use kahypar.Hypergraph.Restore.Contraction.{IsContraction}
use kahypar.Hypergraph.Restore.Memento.{with_v, start-IsKept}
use kahypar.Hypergraph.Restore.Contraction.{IsKept}
use kahypar.Prelude.Int.{ℤ, ◌+ℤ◌, ◌-ℤ◌, +ℤ_parts, -ℤ_parts, eq_of_parts}
use kahypar.Hypergraph.Uncontraction.{uncontract_into}
use kahypar.Hypergraph.Restore.Uncontract.{IsClosed}
use kahypar.Hypergraph.Restore.Start.{start_size, start_incident}
use kahypar.Hypergraph.Restore.Restored as Restored

weight_back : (a b : ℤ) → (a +ℤ b) -ℤ b ≡ a
weight_back a b = eq_of_parts _ _ (omega (arith, +ℤ_parts, -ℤ_parts))

module _ (F : FlagArray) (u v : ℕ) (g c h : Hypergraph F) (apart : u ≢ v) (w : IsFormed F g)
    (live_u : (hypernode F g u).valid ≡ true) (live_v : (hypernode F g v).valid ≡ true)
    (k : IsContraction F u v g c) (like : IsLike F c h) (block : ℕ) where
  abbrev s : Hypergraph F
  s = Restored.s F u v g c h apart w live_u live_v k like block

  abbrev r : Hypergraph F
  r = Restored.r F u v g c h apart w live_u live_v k like block

  done : IsClosed F u v s r 0
  done = Restored.done F u v g c h apart w live_u live_v k like block

  abbrev of_v : ℕ → ℕ
  of_v e = count e (incident_edges F g v)

  first_r : (e : ℕ) → first F r e ≡ first F g e
  first_r = Restored.first_r F u v g c h apart w live_u live_v k like block

  size_s : (e : ℕ) → edge_size F s e ≡ edge_size F c e
  size_s = start_size F u v g c h apart w live_u live_v k like block

  listed_s : (e x : ℕ) → count e (incident_edges F s x) ≡ count e (incident_edges F c x)
  listed_s = start_incident F u v g c h apart w live_u live_v k like block

  restored :
      (e : ℕ) → IsNet F g e → Restored.IsRestored F u v g c h apart w live_u live_v k like block e
  restored = Restored.net-IsRestored F u v g c h apart w live_u live_v k like block

  abbrev kept_s : IsKept F (with_v F h u v) s
  kept_s = start-IsKept F h u v block

  restored_size : (e : ℕ) → edge_size F r e ≡ edge_size F g e
  restored_size e = elim (ℕ_discrete (of_v e) 0) [
    | yes none ↦ elim (ℕ_discrete (count e (incident_edges F s u)) 0) [
      | yes no_net ↦ done.size_there e no_net ∙ size_s e ∙ k.size_there e none
      | no some_net ↦
          let t : 0 < count e (incident_edges F g u) =
            omega (arith, some_net, listed_s e u, k.listed_there e none) in
          (restored e (w.listed e u live_u t)).size
    ]
    | no some_net ↦ (restored e (w.listed e v live_v (omega (arith, some_net)))).size
  ]

  restored_listed : (e : ℕ) → count e (incident_edges F r u) ≡ count e (incident_edges F g u)
  restored_listed e = elim (ℕ_discrete (of_v e) 0) [
    | yes none ↦ elim (ℕ_discrete (count e (incident_edges F s u)) 0) [
      | yes no_net ↦ done.listed_there e no_net ∙ listed_s e u ∙ k.listed_there e none
      | no some_net ↦
          let t : 0 < count e (incident_edges F g u) =
            omega (arith, some_net, listed_s e u, k.listed_there e none) in
          (restored e (w.listed e u live_u t)).listed
    ]
    | no some_net ↦ (restored e (w.listed e v live_v (omega (arith, some_net)))).listed
  ]

  restored_weight :
      (x : ℕ)
      → (hypernode F (uncontract_into F h (record { u = u; v = v }) block) x).weight
        ≡ (hypernode F g x).weight
  unfolding uncontract_into
  restored_weight x =
      let weight_r : (y : ℕ) → (hypernode F r y).weight ≡ (hypernode F c y).weight = λ y.
        done.frame.weight y
        ∙ ap (λ xs. (xs y).weight) kept_s.hypernodes_same
        ∙ ground arith
        ∙ like.weight y in
      elim (ℕ_discrete u x) [
        | yes q ↦
            let a : (hypernode F r u).weight
                ≡ (hypernode F g u).weight +ℤ (hypernode F g v).weight =
              ground (arith, weight_r u, k.weight u) in
            let b : (hypernode F r v).weight ≡ (hypernode F g v).weight =
              ground (arith, weight_r v, k.weight v, apart) in
            let d : (hypernode F r u).weight -ℤ (hypernode F r v).weight
                ≡ (hypernode F g u).weight =
              rw (a, b) (weight_back (hypernode F g u).weight (hypernode F g v).weight) in
            subst
              (λ y.
                (hypernode F (uncontract_into F h (record { u = u; v = v }) block) y).weight
                ≡ (hypernode F g y).weight)
              q (ground (arith, d))
        | no ne ↦ ground (arith, weight_r x, k.weight x, ne)
      ]

  -- `v` takes the block of `u`, and no other block changes.
  pub part_id-uncontract_into :
      (x : ℕ)
      → part_id F (uncontract_into F h (record { u = u; v = v }) block) x
        ≡ (if v == x then part_id F h u else part_id F h x)
  unfolding uncontract_into
  part_id-uncontract_into x =
      let z = ap (λ xs. (xs x).part_id) kept_s.hypernodes_same in
      let y = ap (λ xs. (xs u).part_id) kept_s.hypernodes_same in
      ground (arith, done.frame.part x, done.frame.part u, z, y, apart)

  pub uncontract-IsLike : IsLike F g (uncontract_into F h (record { u = u; v = v }) block)
  unfolding uncontract_into
  uncontract-IsLike = record {
    nets = done.frame.nets ∙ kept_s.nets ∙ like.nets ∙ k.nets;
    order = done.frame.order ∙ kept_s.order ∙ like.order ∙ k.order;
    firsts = first_r;
    size = restored_size;
    live = λ e.
        done.frame.live e ∙ ap (λ es. (es e).valid) kept_s.hyperedges_same ∙ like.live e ∙ k.live e;
    enabled = λ x.
        let z = ap (λ xs. (xs x).valid) kept_s.hypernodes_same in
        ground (arith, done.frame.enabled x, z, like.enabled x, k.enabled x, live_v);
    weight = restored_weight;
    incident = λ e x. elim (ℕ_discrete u x) [
      | yes q ↦
          subst
            (λ y.
              count e (incident_edges F (uncontract_into F h (record { u = u; v = v }) block) y)
              ≡ count e (incident_edges F g y))
            q (ground (arith, restored_listed e))
      | no ne ↦
          let z = ap (count e) (done.frame.others x ne) in
          let z' = ap (count e) (k.others x ne) in ground (arith, ne, z, listed_s e x, z')
    ];
    pins = λ e x n. (restored e n).pins x;
    beyond = λ e i n. (restored e n).beyond i;
  }
