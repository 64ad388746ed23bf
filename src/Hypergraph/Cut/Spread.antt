-- ===== src/Hypergraph/Cut/Spread.antt =====
-- A cut net and the pins that its blocks hold.
use kahypar.Prelude.{
  ℕ, zero, suc, ◌+◌, ◌≤◌, ◌<◌, ◌≡◌, ◌≢◌, refl, ◌∙◌, sym, ap, ◌&&◌, Option, some, List, [], ◌∷◌,
  arith, ltb, ◌==◌, if◌then◌else◌, length, count,
}
use kahypar.Prelude.Sums.{sum_ℕ, sum_ℕ-cong, sum_ℕ-change, sum_ℕ-add, sum_ℕ-zero, sum_ℕ-ge}
use kahypar.Hypergraph.Blocks.Pins.{in_block, count_block}

-- A sum with one term.
sum_ℕ-one : (x k : ℕ) → x < k → sum_ℕ (λ i. if i == x then 1 else 0) k ≡ 1
sum_ℕ-one x k h = ground (
  arith,
  sum_ℕ-change (λ i. 0) (λ i. if i == x then 1 else 0) x k h (λ i ne. ground arith),
  sum_ℕ-zero k,
)

-- A list of ids below `k` is as long as the sum of its counts.
pub length-sum :
    (k : ℕ) (xs : List ℕ)
    → ((i : ℕ) → 0 < count i xs → i < k)
    → length xs ≡ sum_ℕ (λ i. count i xs) k
unfolding count
length-sum k [] h = sym (sum_ℕ-zero k)
length-sum k (x ∷ xs) h = omega (
  arith,
  sum_ℕ-add (λ i. if i == x then 1 else 0) (λ i. count i xs) k,
  sum_ℕ-one x k (h x (ground arith)),
  length-sum k xs (λ i p. h i (ground arith)),
)

-- A sum is positive when a term is.
sum_pos :
    (p : ℕ → ℕ) (k : ℕ) → ltb 0 (sum_ℕ (λ i. if ltb 0 (p i) then 1 else 0) k) ≡ ltb 0 (sum_ℕ p k)
unfolding sum_ℕ
sum_pos p zero = refl
sum_pos p (suc k) = ground (arith, sum_pos p k)

-- Of `k` counts, `b` is one that is positive: another one is positive exactly when `b` has not the sum.
more_than_one :
    (p : ℕ → ℕ) (k b : ℕ)
    → b < k
    → 0 < p b
    → ltb 1 (sum_ℕ (λ i. if ltb 0 (p i) then 1 else 0) k) ≡ ltb (p b) (sum_ℕ p k)
more_than_one p k b inside some_pin =
    let q : ℕ → ℕ = λ i. if b == i then 0 else p i in
    let here : q b ≡ 0 = ground arith in
    ground (
      arith,
      here,
      sum_pos q k,
      sum_ℕ-change p q b k inside (λ i ne. ground arith),
      sum_ℕ-change (λ i. if ltb 0 (p i) then 1 else 0) (λ i. if ltb 0 (q i) then 1 else 0) b k
          inside (λ i ne. ground arith),
    )

-- The list of the blocks with a positive count is longer than 1 exactly when `b` has not all pins.
pub spread_lem :
    (p : ℕ → ℕ) (k b : ℕ) (xs : List ℕ)
    → b < k
    → 0 < p b
    → ((i : ℕ) → count i xs ≡ (if ltb i k && ltb 0 (p i) then 1 else 0))
    → ltb 1 (length xs) ≡ ltb (p b) (sum_ℕ p k)
spread_lem p k b xs inside some_pin listed =
    let size : length xs ≡ sum_ℕ (λ i. count i xs) k =
      length-sum k xs (λ i h. ground (arith, listed i)) in
    let terms : sum_ℕ (λ i. count i xs) k ≡ sum_ℕ (λ i. if ltb 0 (p i) then 1 else 0) k =
      sum_ℕ-cong (λ i. if ltb 0 (p i) then 1 else 0) (λ i. count i xs) k
        (λ i h. ground (arith, listed i)) in
    rw (size, terms) (more_than_one p k b inside some_pin)

-- Two counts are part of the sum.
pub two-le-sum : (p : ℕ → ℕ) (k b c : ℕ) → b ≢ c → b < k → c < k → p b + p c ≤ sum_ℕ p k
two-le-sum p k b c apart hb hc =
    let q : ℕ → ℕ = λ i. if b == i then 0 else p i in
    let here : q b ≡ 0 = ground arith in
    let there : q c ≡ p c = ground arith in
    omega (arith, here, there, sum_ℕ-change p q b k hb (λ i ne. ground arith), sum_ℕ-ge q c k hc)

-- One more pin of block `b`.
sum-in_block : (b k : ℕ) → b < k → sum_ℕ (λ i. if in_block (some b) i then 1 else 0) k ≡ 1
sum-in_block b k h =
    sum_ℕ-cong (λ i. if i == b then 1 else 0) (λ i. if in_block (some b) i then 1 else 0) k
      (λ i p. ground arith)
    ∙ sum_ℕ-one b k h

-- The pins of a net by block, where every pin has a block below `k`.
pub sum-count_block :
    (part : ℕ → Option ℕ) (k : ℕ) (ps : List ℕ)
    → ((u : ℕ) → 0 < count u ps → (b : ℕ) × (part u ≡ some b) × (b < k))
    → sum_ℕ (λ i. count_block part ps i) k ≡ length ps
unfolding count_block count
sum-count_block part k [] h = sum_ℕ-zero k
sum-count_block part k (u ∷ ps) h =
    let (b, e, inside) = h u (ground arith) in
    omega (
      arith,
      sum_ℕ-add (λ i. if in_block (part u) i then 1 else 0) (λ i. count_block part ps i) k,
      ap (λ x. sum_ℕ (λ i. if in_block x i then 1 else 0) k) e,
      sum-in_block b k inside,
      sum-count_block part k ps (λ w p. h w (ground arith)),
    )
