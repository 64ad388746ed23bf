-- ===== src/Prelude/Words.antt =====
-- uint32_t counters: ++ and -- with their wrap-around.
use kahypar.Prelude.{ℕ, ◌+◌, ◌-◌, ◌%◌, ◌^◌, ◌<◌, ◌≡◌, arith}

abbrev pub u32_mod : ℕ
u32_mod = 2 ^ 32

unfoldable pub inc32 : ℕ → ℕ
inc32 n = (n + 1) % u32_mod

unfoldable pub dec32 : ℕ → ℕ
dec32 n = (n + u32_mod - 1) % u32_mod

pub inc32_lem : (n : ℕ) → n + 1 < u32_mod → inc32 n ≡ n + 1
unfolding inc32
inc32_lem n h = omega arith

pub dec32_lem : (n : ℕ) → 0 < n → n < u32_mod → dec32 n ≡ n - 1
unfolding dec32
dec32_lem n h p = omega arith

pub dec32-inc32 : (n : ℕ) → n < u32_mod → dec32 (inc32 n) ≡ n
unfolding dec32 inc32
dec32-inc32 n h = omega arith

pub inc32-dec32 : (n : ℕ) → n < u32_mod → inc32 (dec32 n) ≡ n
unfolding dec32 inc32
inc32-dec32 n h = omega arith
