-- ===== src/Containers/FastResetArray/Reset.antt =====
-- The resets of FastResetArray, and what they do to the entries.
use kahypar.Prelude.{
  ℕ, ◌<◌, ◌≡◌, ◌⊎◌, inl, List, [], ◌∷◌, arith, ltb, if◌then◌else◌, count, count-append, ◌∙◌, refl,
  ◌≢◌, ap,
}
use kahypar.Prelude.Arrays.{Array, update as write}
use kahypar.Prelude.Vectors.{count-push_back}
use kahypar.Prelude.Int.{ℤ, pos, ◌+ℤ◌, ◌==ℤ◌, +ℤ_parts, eq_of_parts}
use kahypar.Containers.FastResetArray.{
  FastResetArray, create, get, set, unchecked_set, update, reset_loop, reset_used_entries,
  flush_loop, flush_used_entries,
}
use mathlib.Core.List.{reverse, reverse-append}

-- An entry that differs from the initial value is noted as used.
abbrev pub IsValid : FastResetArray → Type 0
IsValid a = (i : ℕ) → (a.entries i ≡ a.initial_value) ⊎ (0 < count i a.used_entries)

count-reverse : (a : ℕ) (xs : List ℕ) → count a (reverse xs) ≡ count a xs
unfolding count
count-reverse a [] = refl
count-reverse a (x ∷ xs) =
    ap (count a) (reverse-append (x ∷ []) xs)
    ∙ omega (arith, count-append a (reverse xs) (x ∷ []), count-reverse a xs)

pub create-IsValid : (v : ℤ) → IsValid (create v)
unfolding create
create-IsValid v i = inl refl

pub set-IsValid :
    (a : FastResetArray) (index : ℕ) (value : ℤ) → IsValid a → IsValid (set a index value)
unfolding set
set-IsValid a index value v i = ground (arith, v i, v index, count-push_back i a.used_entries index)

pub update-IsValid :
    (a : FastResetArray) (index : ℕ) (value : ℤ) → IsValid a → IsValid (update a index value)
unfolding update
update-IsValid a index value v i =
    ground (arith, v i, v index, count-push_back i a.used_entries index)

pub unchecked_set-IsValid :
    (a : FastResetArray) (index : ℕ) (value : ℤ)
    → IsValid a
    → a.entries index ≢ a.initial_value
    → IsValid (unchecked_set a index value)
unfolding unchecked_set
unchecked_set-IsValid a index value v h i = ground (arith, v i, v index)

reset_loop_lem :
    (initial : ℤ) (is : List ℕ) (entries : Array ℤ) (j : ℕ)
    → reset_loop initial is entries j ≡ (if ltb 0 (count j is) then initial else entries j)
unfolding reset_loop count
reset_loop_lem initial [] entries j = ground arith
reset_loop_lem initial (i ∷ is) entries j =
    ground (arith, reset_loop_lem initial is (write entries i initial) j)

-- After a reset of a valid array every entry holds the initial value, and no entry is noted as used.
pub reset-entries :
    (a : FastResetArray) (i : ℕ)
    → IsValid a
    → (get (reset_used_entries a) i ≡ a.initial_value) × ((reset_used_entries a).used_entries ≡ [])
unfolding reset_used_entries
reset-entries a i v = (
  ground (
    arith,
    reset_loop_lem a.initial_value (reverse a.used_entries) a.entries i,
    count-reverse i a.used_entries,
    v i,
  ),
  refl,
)

+ℤ-zero : (a : ℤ) → a +ℤ pos 0 ≡ a
+ℤ-zero a = omega (arith, +ℤ_parts a (pos 0), eq_of_parts (a +ℤ pos 0) a)

-- An entry that is noted twice is 0 the second time, so its delta counts once.
flush_loop_container :
    (limit : ℤ) (is : List ℕ) (container entries : Array ℤ) (j : ℕ)
    → (flush_loop limit (pos 0) is container entries).0 j ≡ (
        if ltb 0 (count j is)
        then (if container j ==ℤ limit then container j else container j +ℤ entries j)
        else container j)
unfolding flush_loop count
flush_loop_container limit [] container entries j = ground arith
flush_loop_container limit (i ∷ is) container entries j = ground (
  arith,
  flush_loop_container limit is
      (if container i ==ℤ limit then container else write container i (container i +ℤ entries i))
      (write entries i (pos 0)) j,
  +ℤ-zero (container j +ℤ entries j),
  +ℤ-zero (container j),
)

flush_loop_entries :
    (limit initial : ℤ) (is : List ℕ) (container entries : Array ℤ) (j : ℕ)
    → (flush_loop limit initial is container entries).1 j
      ≡ (if ltb 0 (count j is) then initial else entries j)
unfolding flush_loop count
flush_loop_entries limit initial [] container entries j = ground arith
flush_loop_entries limit initial (i ∷ is) container entries j = ground (
  arith,
  flush_loop_entries limit initial is
      (if container i ==ℤ limit then container else write container i (container i +ℤ entries i))
      (write entries i initial) j,
)

-- For a valid array whose initial value is 0, resetUsedEntries(container) adds each entry to the
-- container's once, unless that is the limit, and leaves the initial value in the array.
pub flush-container :
    (limit : ℤ) (a : FastResetArray) (container : Array ℤ) (i : ℕ)
    → IsValid a
    → a.initial_value ≡ pos 0
    → ((flush_used_entries limit a container).1 i
        ≡ (if container i ==ℤ limit then container i else container i +ℤ get a i))
      × (get (flush_used_entries limit a container).0 i ≡ a.initial_value)
unfolding flush_used_entries
flush-container limit a container i v z = (
  ground (
    arith,
    flush_loop_container limit (reverse a.used_entries) container a.entries i,
    count-reverse i a.used_entries,
    v i,
    +ℤ-zero (container i),
  ),
  ground (
    arith,
    flush_loop_entries limit a.initial_value (reverse a.used_entries) container a.entries i,
    count-reverse i a.used_entries,
    v i,
  ),
)
