-- ===== src/Prelude/Pigeonhole.antt =====
-- An injection from n indices into the numbers below m needs n ≤ m.
use kahypar.Prelude.{ℕ, zero, suc, ◌≤◌, ◌<◌, ◌≡◌, arith, ◌==◌, if◌then◌else◌}

pub record IsInjection (f : ℕ → ℕ) (n m : ℕ) : Type 0 where
  pub below : (i : ℕ) → i < n → f i < m
  pub distinct : (i j : ℕ) → i < n → j < n → f i ≡ f j → i ≡ j

-- Whatever index hits the largest number takes the last index's number instead.
abbrev squeeze : (ℕ → ℕ) → ℕ → ℕ → ℕ → ℕ
squeeze f n m i = if f i == m then f n else f i

squeeze-IsInjection :
    (f : ℕ → ℕ) (n m : ℕ) → IsInjection f (suc n) (suc m) → IsInjection (squeeze f n m) n m
squeeze-IsInjection f n m h = record {
  below = λ i p. ground (arith, h.below i, h.below n, h.distinct i n);
  distinct = λ i j p q e. ground (arith, h.distinct i j, h.distinct i n, h.distinct n j);
}

pub pigeonhole : (n m : ℕ) (f : ℕ → ℕ) → IsInjection f n m → n ≤ m
pigeonhole zero m f h = omega arith
pigeonhole (suc n) zero f h = absurd (omega (arith, h.below 0 (omega arith)))
pigeonhole (suc n) (suc m) f h =
    omega (arith, pigeonhole n m (squeeze f n m) (squeeze-IsInjection f n m h))
