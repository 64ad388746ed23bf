-- ===== src/Containers/FlagArray.antt =====
-- FastResetFlagArray of the kahypar-resources submodule, whose source is not part of the
-- repository: an interface with the behaviour that its users rely on.
use kahypar.Prelude.{ℕ, ◌≡◌, refl, Bool, false, ◌==◌, if◌then◌else◌}
use kahypar.Prelude.Arrays.{Array, update}

pub record FlagArray : Type 1 where
  pub Flags : Type 0
  pub create : ℕ → Flags
  pub test : Flags → ℕ → Bool
  pub set : Flags → ℕ → Bool → Flags
  pub reset : Flags → Flags
  pub test-create : (size i : ℕ) → test (create size) i ≡ false
  pub test-set :
      (f : Flags) (i : ℕ) (b : Bool) (j : ℕ) → test (set f i b) j ≡ (if i == j then b else test f j)
  pub test-reset : (f : Flags) (i : ℕ) → test (reset f) i ≡ false

-- The interface can be met: plain functions do.
abbrev pub plain_flags : FlagArray
plain_flags = record {
  Flags = Array Bool;
  create = λ size i. false;
  test = λ f i. f i;
  set = λ f i b. update f i b;
  reset = λ f i. false;
  test-create = λ size i. refl;
  test-set = λ f i b j. refl;
  test-reset = λ f i. refl;
}
