-- ===== src/Refinement/Gains/Entries.antt =====
-- initializeGainCacheFor of kway_fm_km1_refiner.h: the entries of the gain cache.
use mathlib.Core.Path.{subst}
use native.Mathlib.Decide.{ℕ_discrete}
use kahypar.Prelude.{
  ℕ, zero, suc, ◌+◌, ◌≤◌, ◌<◌, ◌≡◌, ◌≢◌, refl, ◌∙◌, sym, ap, true, Option, none, some, ◌==◌, arith,
  if◌then◌else◌, count,
}
use kahypar.Prelude.Int.{ℤ, pos, ◌-ℤ◌}
use kahypar.Containers.FlagArray.{FlagArray}
use kahypar.Containers.SparseMap.{SparseMap, contains, get, clear}
use kahypar.Containers.SparseMap.Lookup as MapLookup
use kahypar.Hypergraph.State.{Hypergraph, incident_edges, part_id}
use kahypar.Hypergraph.Blocks.Counts.{IsLinked}
use kahypar.Refinement.GainCache.{KwayGainCache, element_of, initialize_entry, add}
use kahypar.Refinement.GainCache.Elements.{lookup}
use kahypar.Refinement.Gains.{gain_induced_by_hypergraph}
use kahypar.Refinement.Gains.Initial.{
  collect_gains, value_at, collected-IsValid, collect_gains-gain_induced_by_hypergraph,
}

-- The loop over `_tmp_gains`: `n` elements, from position `i` on, are left.
unfoldable pub initialize_entries : ℕ → ℕ → SparseMap ℤ → KwayGainCache → ℕ → ℕ → ℤ → KwayGainCache
initialize_entries zero i tmp cache hn source_part internal = cache
initialize_entries (suc n) i tmp cache hn source_part internal =
    let target_part = tmp.dense i in
    initialize_entries n (i + 1) tmp
      (if target_part.key == source_part
        then cache
        else initialize_entry cache hn target_part.key (target_part.value -ℤ internal))
      hn source_part internal

module _ (tmp : SparseMap ℤ) (hn source : ℕ) (internal : ℤ) (b : ℕ) (other : source ≢ b) where
  -- What the cache has for moving `hn` to `b`.
  abbrev found : KwayGainCache → Option ℤ
  found cache = lookup (element_of cache hn) b

  one_entry :
      (cache : KwayGainCache) (i : ℕ)
      → found (
          if (tmp.dense i).key == source
          then cache
          else initialize_entry cache hn (tmp.dense i).key ((tmp.dense i).value -ℤ internal))
        ≡ (if (tmp.dense i).key == b then some ((tmp.dense i).value -ℤ internal) else found cache)
  unfolding initialize_entry element_of lookup add
  one_entry cache i = ground (arith, other)

  pub entries-absent :
      (n i : ℕ) (cache : KwayGainCache)
      → ((j : ℕ) → i ≤ j → j < i + n → (tmp.dense j).key ≢ b)
      → found (initialize_entries n i tmp cache hn source internal) ≡ found cache
  unfolding initialize_entries
  entries-absent zero i cache free = refl
  entries-absent (suc n) i cache free =
      entries-absent n (i + 1) _ (λ j l h. free j (omega arith) (omega arith))
      ∙ one_entry cache i
      ∙ ground (arith, free i)

  pub entries-present :
      (n i j : ℕ) (cache : KwayGainCache)
      → i ≤ j
      → j < i + n
      → (tmp.dense j).key ≡ b
      → ((j' : ℕ) → i ≤ j' → j' < i + n → j' ≢ j → (tmp.dense j').key ≢ b)
      → found (initialize_entries n i tmp cache hn source internal)
        ≡ some ((tmp.dense j).value -ℤ internal)
  unfolding initialize_entries
  entries-present zero i j cache l h at once = absurd (omega arith)
  entries-present (suc n) i j cache l h at once = elim (ℕ_discrete i j) [
    | yes e ↦
        entries-absent n (i + 1) _
          (λ j' l h. once j' (omega arith) (omega arith) (omega (arith, e, l)))
        ∙ one_entry cache i
        ∙ subst
            (λ t.
              (if (tmp.dense t).key == b
                then some ((tmp.dense t).value -ℤ internal)
                else found cache)
              ≡ some ((tmp.dense j).value -ℤ internal))
            (sym e) (ground (arith, at))
    | no ne ↦
        entries-present n (i + 1) j _ (omega (arith, ne)) (omega arith) at
          (λ j' l h. once j' (omega arith) (omega arith))
  ]

-- Where a key stands.
place :
    (m : SparseMap ℤ) (b : ℕ)
    → contains m b ≡ true
    → (m.sparse b < m.size)
      × ((m.dense (m.sparse b)).key ≡ b)
      × (value_at (MapLookup.lookup m b) ≡ (m.dense (m.sparse b)).value)
unfolding contains get
place m b h = (ground (arith, h), ground (arith, h), ground (arith, h))

module _ (F : FlagArray) where
  -- A hypernode without a block, for which the source is not called, has no result.
  unfoldable pub initialize_gain_cache_for :
      Hypergraph F → SparseMap ℤ → KwayGainCache → ℕ → Option KwayGainCache
  initialize_gain_cache_for g tmp_gains cache hn = elim (part_id F g hn) [
    | none ↦ none
    | some source_part ↦
        (let (tmp, internal) =
            collect_gains F g source_part (incident_edges F g hn) (clear tmp_gains) (pos 0) in
          some (initialize_entries tmp.size 0 tmp cache hn source_part internal))
  ]

  -- Where the connectivity sets of the nets of `hn` are exact and list blocks below k, `hn` is in block `from`,
  -- and the map of the loop over the nets contains another block `b` below k: initializeGainCacheFor(hn) has
  -- a result, a cache whose entry for `hn` and `b` is the gain that the hypergraph induces for moving
  -- `hn` to `b`.
  pub initialize_gain_cache_for_lem :
      (g : Hypergraph F) (hn from b : ℕ) (tmp_gains : SparseMap ℤ) (cache : KwayGainCache)
      → part_id F g hn ≡ some from
      → from ≢ b
      → b < g.k
      → ((he : ℕ) → 0 < count he (incident_edges F g hn) → IsLinked F g he)
      → contains (collect_gains F g from (incident_edges F g hn) (clear tmp_gains) (pos 0)).0 b
        ≡ true
      → (cache' : KwayGainCache) × (initialize_gain_cache_for g tmp_gains cache hn ≡ some cache')
        × (lookup (element_of cache' hn) b ≡ gain_induced_by_hypergraph F g hn b)
  unfolding initialize_gain_cache_for
  initialize_gain_cache_for_lem g hn from b tmp_gains cache old other inside linked there =
      let r = collect_gains F g from (incident_edges F g hn) (clear tmp_gains) (pos 0) in
      let v =
        collected-IsValid F g from (incident_edges F g hn) (clear tmp_gains) (pos 0)
          (MapLookup.clear-IsValid g.k tmp_gains) linked in
      let j = r.0.sparse b in
      let (here, at, value) = place r.0 b there in
      let e =
        entries-present r.0 hn from r.1 b other r.0.size 0 j cache (omega arith)
          (omega (arith, here)) at
          (λ j' l h ne q. ne (sym (v.back j' (omega (arith, h))) ∙ ap r.0.sparse q)) in
      (
        initialize_entries r.0.size 0 r.0 cache hn from r.1,
        rw (initialize_gain_cache_for, old) refl,
        e
            ∙ ap (λ x. some (x -ℤ r.1)) (sym value)
            ∙ collect_gains-gain_induced_by_hypergraph F g hn from b tmp_gains old inside linked,
      )
