-- ===== src/Slots/Lease/Steps.antt =====
-- The slot access manager as a step relation: the requests of any number of clients, one by one, as
-- `_grants_lock` orders them. The clock does not go back, and `uuid4` gives a token that no live
-- lease has.
use embedded_ai_harness.Prelude.{ℕ, ◌≤◌, ◌≡◌, ◌≢◌, String, Option, some, []}
use embedded_ai_harness.Prelude.Dict.{get}
use embedded_ai_harness.Prelude.Int.{ℤ}
use embedded_ai_harness.Slots.{Slot}
use embedded_ai_harness.Slots.Lease.{
  Manager, Grant, Env, Reply, slot_acquire, slot_renew, slot_release, slot_mode,
}

pub data Request : Type 0 where
  acquire : Slot → String → String → Option ℤ → Request
  renew : String → Request
  release : String → Request
  ask : Slot → Request

unfoldable pub handle : Env → Request → Manager → Manager × Reply
handle env (acquire slot mode owner ttl) m = slot_acquire env slot mode owner ttl m
handle env (renew token) m = slot_renew env token m
handle env (release token) m = slot_release token m
handle env (ask slot) m = slot_mode env slot m

-- `_grants` and the log as the module is loaded.
abbrev pub at_load : Manager
at_load = record { grants = []; activity_log = [] }

abbrev pub IsFresh : String → Manager → Type 0
IsFresh token m = (l : String) (g : Grant) → get l m.grants ≡ some g → g.token ≢ token

pub data Reach : ℕ → Manager → Type 0 where
  start : (t : ℕ) → Reach t at_load
  next :
      {t : ℕ} {m : Manager} (env : Env) (request : Request)
      → Reach t m
      → t ≤ env.check
      → env.check ≤ env.now
      → IsFresh env.token m
      → Reach env.now (handle env request m).0
