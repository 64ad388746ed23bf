-- ===== src/Tests/Contractions.antt =====
-- Two contractions and their reversal, on the hypergraph of Search.
use kahypar.Prelude.{
  ℕ, ◌+◌, ◌<◌, ◌≡◌, ◌≢◌, refl, true, List, [], ◌∷◌, arith, some, ◌==◌, if◌then◌else◌,
}
use kahypar.Containers.FlagArray.{plain_flags}
use kahypar.Hypergraph.State.{Hypergraph, hypernode, hyperedge}
use kahypar.Hypergraph.Contraction.{contract}
use kahypar.Hypergraph.Restore.Structure.{IsFormed}
use kahypar.Hypergraph.Restore.Contraction.{contract-IsContraction}
use kahypar.Hypergraph.Restore.Sequence.{contractions, contract-IsFormed}
use kahypar.Tests.Search.{searched, searched-incident, searched-enabled, searched-once}

searched_full :
    (e : ℕ)
    → e < 2
    → (hyperedge plain_flags searched e).first + (hyperedge plain_flags searched e).size
      ≡ (hyperedge plain_flags searched (e + 1)).first
searched_full e h = ground arith

searched-IsFormed : IsFormed plain_flags searched
searched-IsFormed = record {
  ordered = λ e h. omega (arith, searched_full e h);
  once = λ e x n. omega (arith, searched-incident x e n.0, searched-once x e);
  pins_enabled = λ e x n l. refl;
  beyond = λ e i n l h. absurd (omega (arith, searched_full e n.0, l, h));
  incident = λ e x n live. searched-incident x e n.0;
  listed = λ e x live l. searched-enabled x e l;
  small = λ e. ground arith;
}

abbrev one : Hypergraph plain_flags
one = (contract plain_flags (λ x. x) searched 0 1).0

one-IsFormed : IsFormed plain_flags one
one-IsFormed =
    contract-IsFormed plain_flags (λ x. x) searched 0 1 searched-IsFormed (ground arith) refl refl

one-enabled : (x : ℕ) → 1 ≢ x → (hypernode plain_flags one x).valid ≡ true
one-enabled x ne =
    let k =
      contract-IsContraction plain_flags (λ x. x) searched 0 1 (ground arith) searched-IsFormed
        refl in
    ground (arith, k.enabled x, ne)

abbrev pairs : List (ℕ × ℕ)
pairs = (0, 1) ∷ (0, 2) ∷ []

contract-IsFormed_example : IsFormed plain_flags (contract plain_flags (λ x. x) one 0 2).0
contract-IsFormed_example =
    contract-IsFormed plain_flags (λ x. x) one 0 2 one-IsFormed (ground arith)
      (one-enabled 0 (ground arith)) (one-enabled 2 (ground arith))

abbrev coarsest : Hypergraph plain_flags
coarsest = contractions plain_flags (λ x. x) searched pairs

-- Blocks for the coarsest hypergraph, as initial partitioning gives them.
abbrev partitioned : Hypergraph plain_flags
partitioned = record coarsest {
  hypernodes = λ x. record (coarsest.hypernodes x) { part_id = some (if x == 0 then 0 else 1) };
}
