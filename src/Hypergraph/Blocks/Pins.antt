-- ===== src/Hypergraph/Blocks/Pins.antt =====
-- The pins of a net by block, counted afresh: what the stored pin counts should be.
use kahypar.Prelude.{
  ℕ, ◌+◌, ◌≤◌, ◌≡◌, refl, Bool, true, false, Option, none, some, List, [], ◌∷◌, arith, ◌==◌,
  if◌then◌else◌, length, count, ◌≢◌, ap,
}
use native.Mathlib.Decide.{ℕ_discrete}

abbrev pub in_block : Option ℕ → ℕ → Bool
in_block none i = false
in_block (some b) i = b == i

-- The number of `ps` that `part` puts into block `i`.
unfoldable pub count_block : (ℕ → Option ℕ) → List ℕ → ℕ → ℕ
count_block part [] i = 0
count_block part (p ∷ ps) i = (if in_block (part p) i then 1 else 0) + count_block part ps i

pub count_block-le-length :
    (part : ℕ → Option ℕ) (ps : List ℕ) (i : ℕ) → count_block part ps i ≤ length ps
unfolding count_block
count_block-le-length part [] i = omega arith
count_block-le-length part (p ∷ ps) i = ground (arith, count_block-le-length part ps i)

pub count_block-cong :
    (part part' : ℕ → Option ℕ) (ps : List ℕ) (i : ℕ)
    → ((p : ℕ) → part' p ≡ part p)
    → count_block part' ps i ≡ count_block part ps i
unfolding count_block
count_block-cong part part' [] i h = refl
count_block-cong part part' (p ∷ ps) i h = rw (h p, count_block-cong part part' ps i h)

-- A hypernode that had no block enters one.
pub count_block-enter :
    (part part' : ℕ → Option ℕ) (hn id : ℕ) (ps : List ℕ) (i : ℕ)
    → part hn ≡ none
    → part' hn ≡ some id
    → ((p : ℕ) → hn ≢ p → part' p ≡ part p)
    → count_block part' ps i ≡ count_block part ps i + (if i == id then count hn ps else 0)
unfolding count_block count
count_block-enter part part' hn id [] i h h' same = ground arith
count_block-enter part part' hn id (p ∷ ps) i h h' same =
    ground (arith, count_block-enter part part' hn id ps i h h' same, same p)

if-add :
    (b : Bool) (m n : ℕ) → (if b then m + n else 0) ≡ (if b then m else 0) + (if b then n else 0)
if-add true m n = refl
if-add false m n = omega arith

move_one :
    (part part' : ℕ → Option ℕ) (hn from to p i : ℕ)
    → part hn ≡ some from
    → part' hn ≡ some to
    → (hn ≢ p → part' p ≡ part p)
    → (if in_block (part' p) i then 1 else 0)
        + (if i == from then (if hn == p then 1 else 0) else 0)
      ≡ (if in_block (part p) i then 1 else 0) + (if i == to then (if hn == p then 1 else 0) else 0)
move_one part part' hn from to p i h h' same = elim (ℕ_discrete hn p) [
  | yes e ↦ ground (arith, ap part e, ap part' e)
  | no e ↦ ground (arith, same e)
]

-- A hypernode changes its block.
pub count_block-move :
    (part part' : ℕ → Option ℕ) (hn from to : ℕ) (ps : List ℕ) (i : ℕ)
    → part hn ≡ some from
    → part' hn ≡ some to
    → ((p : ℕ) → hn ≢ p → part' p ≡ part p)
    → count_block part' ps i + (if i == from then count hn ps else 0)
      ≡ count_block part ps i + (if i == to then count hn ps else 0)
unfolding count_block count
count_block-move part part' hn from to [] i h h' same = ground arith
count_block-move part part' hn from to (p ∷ ps) i h h' same = omega (
  arith,
  count_block-move part part' hn from to ps i h h' same,
  move_one part part' hn from to p i h h' (same p),
  if-add (i == from) (if hn == p then 1 else 0) (count hn ps),
  if-add (i == to) (if hn == p then 1 else 0) (count hn ps),
)

-- A block that holds one of the pins has a positive count.
pub count-le-count_block :
    (part : ℕ → Option ℕ) (hn b : ℕ) (ps : List ℕ)
    → part hn ≡ some b
    → count hn ps ≤ count_block part ps b
unfolding count_block count
count-le-count_block part hn b [] h = omega arith
count-le-count_block part hn b (p ∷ ps) h = ground (arith, count-le-count_block part hn b ps h)
