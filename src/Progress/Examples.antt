-- ===== src/Progress/Examples.antt =====
-- pi/portal.py: a session with two results.
use embedded_ai_harness.Prelude.{ℕ, false, none, some, [], ◌∷◌}
use embedded_ai_harness.Progress.{Session, Update}

abbrev session : Session ℕ
session = record { spec = "FR-001"; phase = ""; total = 3; completed = 1 ∷ []; current = none }

abbrev passed : ℕ → Update ℕ
passed n = record {
  ends = false;
  spec = none;
  phase = some "run";
  total = none;
  current = some none;
  result = some n;
}

abbrev silent : Update ℕ
silent = record (passed 0) { result = none }
