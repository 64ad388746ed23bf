-- ===== src/Hypergraph/Restore/Sequence.antt =====
-- A sequence of contractions, undone in the reverse order.
use kahypar.Prelude.{ℕ, ◌≡◌, ◌≢◌, true, Option, none, some, List, [], ◌∷◌}
use kahypar.Containers.FlagArray.{FlagArray}
use kahypar.Hypergraph.State.{Hypergraph, Memento, hypernode, part_id}
use kahypar.Hypergraph.Contraction.{contract}
use kahypar.Hypergraph.Uncontraction.{uncontract}
use kahypar.Hypergraph.Restore.Structure.{IsFormed}
use kahypar.Hypergraph.Restore.Contraction.{contract-IsContraction}
use kahypar.Hypergraph.Restore.Kept.{contraction-IsFormed}

module _ (F : FlagArray) where
  -- The uncoarsening: the last memento is undone first.
  unfoldable pub uncontractions : Hypergraph F → List Memento → Option (Hypergraph F)
  uncontractions h [] = some h
  uncontractions h (m ∷ ms) = elim (uncontractions h ms) [ none ↦ none | some g ↦ uncontract F g m ]

  -- Every enabled hypernode has a block.
  abbrev pub IsAssigned : Hypergraph F → Type 0
  IsAssigned g = (x : ℕ) → (hypernode F g x).valid ≡ true → part_id F g x ≢ none

  -- The partition of `r` extends that of `h`.
  pub record IsProjected (h r : Hypergraph F) : Type 0 where
    pub enabled : (x : ℕ) → (hypernode F h x).valid ≡ true → (hypernode F r x).valid ≡ true
    pub kept : (x : ℕ) → (hypernode F h x).valid ≡ true → part_id F r x ≡ part_id F h x
    pub assigned : IsAssigned r

module _ (F : FlagArray) (hash : ℕ → ℕ) where
  -- The coarsening: `_history` grows by the memento of each contraction.
  unfoldable pub contractions : Hypergraph F → List (ℕ × ℕ) → Hypergraph F
  contractions g [] = g
  contractions g ((u, v) ∷ pairs) = contractions (contract F hash g u v).0 pairs

  unfoldable pub history : Hypergraph F → List (ℕ × ℕ) → List Memento
  history g [] = []
  history g ((u, v) ∷ pairs) = (contract F hash g u v).1 ∷ history (contract F hash g u v).0 pairs

  -- Each contraction is of two enabled hypernodes.
  abbrev pub AllEnabled : Hypergraph F → List (ℕ × ℕ) → Type 0
  AllEnabled g [] = Unit
  AllEnabled g ((u, v) ∷ pairs) =
      (u ≢ v)
      × ((hypernode F g u).valid ≡ true)
      × ((hypernode F g v).valid ≡ true)
      × AllEnabled (contract F hash g u v).0 pairs

  -- Where the nets have disjoint ranges of slots in their order, enabled nets have enabled pins, each once, and
  -- only disabled hypernodes between their pins and the next range, enabled hypernodes and enabled nets
  -- list each other, and net sizes have room in 32 bits: contracting two enabled hypernodes keeps all this.
  pub contract-IsFormed :
      (g : Hypergraph F) (u v : ℕ)
      → IsFormed F g
      → u ≢ v
      → (hypernode F g u).valid ≡ true
      → (hypernode F g v).valid ≡ true
      → IsFormed F (contract F hash g u v).0
  contract-IsFormed g u v w apart live_u live_v =
      contraction-IsFormed F u v g (contract F hash g u v).0 apart w live_u live_v
        (contract-IsContraction F hash g u v apart w live_v)
