-- ===== src/Refinement/GainCache/Rollback.antt =====
-- rollbackDelta, and the gains from before a series of changes.
use kahypar.Prelude.{ℕ, ◌≡◌, refl, ◌∙◌, sym, ap, none, some, List, ◌∷◌, arith, ◌==◌, if◌then◌else◌}
use mathlib.Core.Option
use kahypar.Prelude.Arrays.{update}
use kahypar.Prelude.Int.{ℤ}
use kahypar.Refinement.GainCache.{
  CacheElement, RollbackAction, RollbackElement, KwayGainCache, add, remove, remove_entry,
  roll_back_element, roll_back,
}
use kahypar.Refinement.GainCache.Elements.{
  IsValid, lookup, add-IsValid, lookup-add, remove-IsValid, lookup-remove, gain-present,
}
use kahypar.Refinement.GainCache.Lookup.{
  Cache, IsLike-undone, update-IsSound, gain_of, IsSound, IsLike, gain_of-element, element_of-gain,
  undo_remove, undo_add,
}

-- Rounds for the records `rs` on top of any others lead from caches like `b` to caches like `a`.
abbrev pub IsUndo : Cache → List RollbackElement → List RollbackElement → Cache → Type 0
IsUndo a base rs b =
    (b' : Cache) → IsLike b b' → (a' : Cache) × (roll_back b' rs ≡ roll_back a' base) × IsLike a a'

-- One record undoes one change of the element of its hypernode.
pub IsUndo-one :
    (a : Cache) (r : RollbackElement) (base : List RollbackElement) (c : CacheElement)
    → ((e : CacheElement)
        → IsValid e
        → ((q : ℕ) → lookup e q ≡ lookup c q)
        → IsValid (roll_back_element e r)
          × ((q : ℕ) → lookup (roll_back_element e r) q ≡ gain_of a r.hn q))
    → IsUndo a base (r ∷ base) (update a r.hn (some c))
unfolding roll_back Option.bind
IsUndo-one a r base c undo b' like =
    let b : Cache = update a r.hn (some c) in
    let at : b r.hn ≡ some c = ground arith in
    let (e, there) = like.allocated r.hn c at in
    let same : (q : ℕ) → lookup e q ≡ lookup c q = λ q.
      sym (gain_of-element b' r.hn q e there) ∙ like.gains r.hn q ∙ gain_of-element b r.hn q c at in
    let (valid, gains) = undo e (like.sound r.hn e there) same in
    (
      update b' r.hn (some (roll_back_element e r)),
      rw (roll_back, there) refl,
      IsLike-undone a b' r.hn c (roll_back_element e r) like valid gains,
    )

-- From `g` to `h` the elements stay valid, and rolling back what the records of `h` add to those of `g`
-- restores the gains.
pub record IsStep (g h : KwayGainCache) : Type 0 where
  pub sound : IsSound h.cache
  pub undo : IsUndo g.cache g.deltas h.deltas h.cache

pub IsStep-refl : (g : KwayGainCache) → IsSound g.cache → IsStep g g
IsStep-refl g s = record { sound = s; undo = λ b like. (b, refl, like) }

pub IsStep-trans : (f g h : KwayGainCache) → IsStep f g → IsStep g h → IsStep f h
IsStep-trans f g h s t = record {
  sound = t.sound;
  undo = λ b like.
      let (b₁, e₁, l₁) = t.undo b like in let (b₂, e₂, l₂) = s.undo b₁ l₁ in (b₂, e₁ ∙ e₂, l₂);
}

pub remove_entry_lem :
    (g : KwayGainCache) (hn part : ℕ) (x : ℤ)
    → IsSound g.cache
    → gain_of g.cache hn part ≡ some x
    → (h : KwayGainCache) × (remove_entry g hn part ≡ some h) × IsStep g h
unfolding remove_entry
remove_entry_lem g hn part x s here =
    let (c, at, look) = element_of-gain g.cache hn part x here in
    let v = s hn c at in
    let value = gain-present c v part x look in
    let r : RollbackElement = record {
      hn = hn;
      part = part;
      delta = x;
      action = RollbackAction.do_add;
    } in
    let h : KwayGainCache = record {
      cache = update g.cache hn (some (remove c part));
      deltas = r ∷ g.deltas;
    } in
    (
      h,
      rw (remove_entry, at, value) refl,
      record {
        sound =
            update-IsSound g.cache hn (remove c part) (λ y ne. s y)
              (remove-IsValid c v part x look);
        undo = IsUndo-one g.cache r g.deltas (remove c part) (λ e ve same.
            undo_remove e ve hn part x (gain_of g.cache hn) here (λ q.
              same q
              ∙ lookup-remove c v part x q look
              ∙ ap (λ t. if part == q then none else t) (sym (gain_of-element g.cache hn q c at))));
      },
    )

-- An entry that was not there is added, with any change for the rollback.
pub added_lem :
    (g : KwayGainCache) (hn part : ℕ) (value delta : ℤ) (c : CacheElement)
    → IsSound g.cache
    → IsValid c
    → ((q : ℕ) → lookup c q ≡ gain_of g.cache hn q)
    → gain_of g.cache hn part ≡ none
    → IsStep g (record {
      cache = update g.cache hn (some (add c part value));
      deltas =
          record { hn = hn; part = part; delta = delta; action = RollbackAction.do_remove }
          ∷ g.deltas;
    })
added_lem g hn part value delta c s v look out = record {
  sound =
      update-IsSound g.cache hn (add c part value) (λ y ne. s y)
        (add-IsValid c v part value (look part ∙ out));
  undo = IsUndo-one g.cache _ g.deltas (add c part value) (λ e ve same.
      undo_add e ve hn part delta (gain_of g.cache hn) value out (λ q.
        same q
        ∙ lookup-add c v part value q
        ∙ ap (λ t. if part == q then some value else t) (look q)));
}
