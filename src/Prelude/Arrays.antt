-- ===== src/Prelude/Arrays.antt =====
-- C arrays whose bounds the program does not check: total functions from indices. They have no end: where
-- the length of an array matters, a theorem states it.
use Prim.Native.Nat.{ℕ, zero, suc}
use mathlib.Core.Path.{◌≡◌}
use native.Mathlib.Omega.{arith}
use kahypar.Prelude.Tests.{ltb, ◌==◌, if◌then◌else◌}

abbrev pub Array {ℓ} : Type ℓ → Type ℓ
Array A = ℕ → A

module _ {ℓ} {A : Type ℓ} where
  -- a[i] = v
  abbrev pub update : Array A → ℕ → A → Array A
  update a i v j = if i == j then v else a j

  -- for (i = 0; i < n; ++i) a[i] = v
  unfoldable pub fill : ℕ → A → Array A → Array A
  fill zero v a = a
  fill (suc n) v a = update (fill n v a) n v

  pub fill_lem : (n : ℕ) (v : A) (a : Array A) (j : ℕ) → fill n v a j ≡ (if ltb j n then v else a j)
  unfolding fill
  fill_lem zero v a j = ground arith
  fill_lem (suc n) v a j = ground (arith, fill_lem n v a j)
