-- ===== src/Progress.antt =====
-- pi/portal.py: the progress that a test script reports, and that the browser shows.
pub mod Results
mod Examples
use embedded_ai_harness.Prelude.{
  ℕ, String, Bool, true, false, Option, none, some, List, [], ◌∷◌, ◌++◌, if◌then◌else◌,
}

-- `_test_session`, with results of any type
pub record Session (A : Type 0) : Type 0 where
  pub spec : String
  pub phase : String
  pub total : ℕ
  pub completed : List A
  pub current : Option String

-- A body that is not empty: each field that may be missing is an Option, and "current" may be null.
pub record Update (A : Type 0) : Type 0 where
  pub ends : Bool
  pub spec : Option String
  pub phase : Option String
  pub total : Option ℕ
  pub current : Option (Option String)
  pub result : Option A

pub data Reply : Type 0 where
  updated : Reply
  empty_body : Reply
  no_session : Reply

-- `body.get(key, d)`
abbrev pub or_else {ℓ} : {B : Type ℓ} → Option B → B → B
or_else none d = d
or_else (some b) d = b

abbrev pub is_absent : Option String → Bool
is_absent none = true
is_absent (some s) = false

module _ {A : Type 0} where
  -- `if "spec" in body`
  pub started : Option String → Update A → Option (Session A) → Option (Session A)
  started none u s = s
  started (some spec) u s = some (record {
    spec = spec;
    phase = or_else u.phase "";
    total = or_else u.total 0;
    completed = [];
    current = none;
  })

  pub recorded : Option A → Session A → Session A
  recorded none s = s
  recorded (some r) s = record s { completed = s.completed ++ r ∷ []; current = none }

  -- The four updates of a session that is there.
  pub amend : Update A → Session A → Session A
  unfolding recorded
  amend u s = recorded u.result (record s {
    phase = if is_absent u.spec then or_else u.phase s.phase else s.phase;
    total = if is_absent u.spec then or_else u.total s.total else s.total;
    current = or_else u.current s.current;
  })

  amended : Update A → Option (Session A) → Option (Session A) × Reply
  amended u none = (none, no_session)
  amended u (some s) = (some (amend u s), updated)

  -- `_handle_test_update`; `none` is an empty body.
  pub update : Option (Update A) → Option (Session A) → Option (Session A) × Reply
  unfolding amended
  update none s = (s, empty_body)
  update (some u) s = if u.ends then (none, updated) else amended u (started u.spec u s)
