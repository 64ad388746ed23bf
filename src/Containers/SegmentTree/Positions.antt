-- ===== src/Containers/SegmentTree/Positions.antt =====
-- Which positions of the tree belong to the subtree of a node: position p has children 2p + 1 and 2p + 2.
use kahypar.Prelude.{ℕ, zero, suc, ◌+◌, ◌*◌, ◌/◌, ◌≤◌, ◌<◌, ◌≡◌, ◌≢◌, refl, arith}

-- `e` steps towards the root, from a position that is counted from 1.
unfoldable pub up : ℕ → ℕ → ℕ
up zero p = p
up (suc e) p = up e (p / 2)

up-le : (e p : ℕ) → up e p ≤ p
unfolding up
up-le zero p = omega arith
up-le (suc e) p = omega (arith, up-le e (p / 2))

up-suc : (e p : ℕ) → up (suc e) p ≡ up e p / 2
unfolding up
up-suc zero p = refl
up-suc (suc e) p = up-suc e (p / 2)

-- The subtrees of two children have no position in common.
pub apart_children : (q e e' p : ℕ) → 0 < q → up e p ≡ 2 * q → up e' p ≢ 2 * q + 1
unfolding up
apart_children q zero zero p h l r = omega arith
apart_children q zero (suc e') p h l r = omega (arith, up-le e' (p / 2))
apart_children q (suc e) zero p h l r = omega (arith, up-le e (p / 2))
apart_children q (suc e) (suc e') p h l r = apart_children q e e' (p / 2) h l r

-- A node is in neither of them.
pub apart_root : (q e p : ℕ) → 0 < q → q ≡ p → (up e p ≢ 2 * q) × (up e p ≢ 2 * q + 1)
apart_root q e p h same = (λ l. omega (arith, up-le e p), λ r. omega (arith, up-le e p))

-- What is below a child is below the node.
pub up_child : (q e p : ℕ) → up e p ≡ 2 * q → up (suc e) p ≡ q
up_child q e p l = omega (arith, up-suc e p)

pub up_child_right : (q e p : ℕ) → up e p ≡ 2 * q + 1 → up (suc e) p ≡ q
up_child_right q e p l = omega (arith, up-suc e p)
