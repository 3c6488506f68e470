-- ===== src/Cli/Openzeppelin/Kept.antt =====
-- The keys in every order of the starts and the ends.
use mathlib.Core.List.{Perm}
use mathlib.Core.List.Perm
use neon_tests.Prelude.{◌+◌, ◌≡◌, [], ◌∷◌, ◌++◌, List, length}
use neon_tests.Prelude.Text.{Text}
use neon_tests.Cli.Openzeppelin.{Keys}

module _ {K : Type 0} where
  abbrev pub values : List (Text × K) → List K
  values [] = []
  values ((t, k) ∷ d) = k ∷ values d

  -- The free keys and those of the tests that run are the prepared ones, in some order.
  abbrev pub IsKept : List K → Keys K → Type 0
  IsKept all s = Perm (s.free ++ values s.used) all × (length s.free + length s.used ≡ length all)
