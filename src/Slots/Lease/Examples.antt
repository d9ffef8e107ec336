-- ===== src/Slots/Lease/Examples.antt =====
-- The slot access manager at concrete requests: tests, and the theorems applied.
use embedded_ai_harness.Prelude.{
  ℕ, ◌≡◌, ◌≢◌, ◌≤◌, ◌↔◌, ◌⊎◌, refl, String, true, false, none, some, [], ◌∷◌, arith, eq_iff,
}
use embedded_ai_harness.Prelude.Dict.{get, put, pop}
use embedded_ai_harness.Prelude.Int.{pos}
use embedded_ai_harness.Slots.{Slot, sample_slot}
use embedded_ai_harness.Slots.Lease.{
  Manager, Grant, Env, slot_acquire, live_grant, contains, slot_modes, unexpected_holders,
  clamp_ttl,
}
use embedded_ai_harness.Slots.Lease.Acquire
use embedded_ai_harness.Slots.Lease.Steps
use embedded_ai_harness.Slots.Lease.Steps.{Reach, at_load, start, next, IsFresh, acquire, renew}
use embedded_ai_harness.Slots.Lease.Valid
use embedded_ai_harness.Slots.Lease.Promises

abbrev slot1 : Slot
slot1 = record sample_slot { label = "SLOT1"; devnode = some "/dev/ttyACM0"; pid = some 77 }

abbrev env_at : ℕ → String → Env
env_at t token = record {
  check = t;
  now = t;
  token = token;
  date = "2025-01-01";
  is_debugging = λ _. false;
  holders = λ _. (77, "proxy") ∷ [];
}

abbrev busy : Manager
busy = (slot_acquire (env_at 1000 "aa") slot1 "flashing" "ann" (some (pos 8000)) at_load).0

busy_grants :
    busy.grants
    ≡ (
      "SLOT1",
      record {
        token = "aa";
        mode = "flashing";
        owner = "ann";
        ttl = 8000;
        since = "2025-01-01";
        expires_at = 9000;
      },
    )
      ∷ []
unfolding slot_acquire contains live_grant unexpected_holders clamp_ttl get put
busy_grants = refl

abbrev ann : Grant
ann = record {
  token = "aa";
  mode = "flashing";
  owner = "ann";
  ttl = 8000;
  since = "2025-01-01";
  expires_at = 9000;
}

busy_at_slot1 : get "SLOT1" busy.grants ≡ some ann
unfolding get
busy_at_slot1 = rw busy_grants

bob_named : ◌≢◌ {A = String} "bob" ""
bob_named e = cc ((eq_iff "bob" "").1 e)

busy-Reach : Reach 1000 busy
unfolding Steps.handle get
busy-Reach =
    next (env_at 1000 "aa") (acquire slot1 "flashing" "ann" (some (pos 8000))) (start 0)
      (omega arith) (omega arith) (λ l g h. cc)

busy-IsValid : Valid.IsValid 1000 busy.grants
busy-IsValid = Valid.Reach-IsValid busy-Reach

Reach-IsValid_example : Valid.IsValid 1000 busy.grants
Reach-IsValid_example = Valid.Reach-IsValid busy-Reach

acquire_after_an_hour_example :
    (slot_acquire (env_at 3_700_000 "bb") slot1 "monitoring" "bob" none busy).1.status ≡ 200
unfolding contains unexpected_holders
acquire_after_an_hour_example =
    Promises.acquire_after_an_hour (env_at 3_700_000 "bb") slot1 "monitoring" "bob" none busy-Reach
      (omega arith) refl bob_named refl refl

busy_over :
    (l : String) (g : Grant) → get l busy.grants ≡ some g → g.token ≡ "aa" → g.expires_at ≤ 9000
unfolding get
busy_over l g h e =
    let at : get l (("SLOT1", ann) ∷ []) ≡ some g = rw busy_grants at h in ground (arith, at)

slot_acquire-granted_iff_example :
    ((slot_acquire (env_at 9000 "bb") slot1 "debugging" "bob" none busy).1.status ≡ 200)
    ↔ (contains slot_modes "debugging" ≡ true)
      × (◌≢◌ {A = String} "bob" "")
      × Acquire.IsFree 9000 "SLOT1" busy
      × ((◌≡◌ {A = String} "debugging" "debugging") ⊎ (false ≡ false))
      × (unexpected_holders (env_at 9000 "bb") slot1 ≡ [])
slot_acquire-granted_iff_example =
    Acquire.slot_acquire-granted_iff (env_at 9000 "bb") slot1 "debugging" "bob" none busy

granted_at_load :
    (slot_acquire (env_at 1000 "aa") slot1 "flashing" "ann" none at_load).1.status ≡ 200
unfolding slot_acquire contains live_grant unexpected_holders clamp_ttl get put
granted_at_load = refl

abbrev bob : Grant
bob = record {
  token = "bb";
  mode = "monitoring";
  owner = "bob";
  ttl = 60_000;
  since = "2025-01-01";
  expires_at = 69_000;
}

taken_over_by_bob :
    get "SLOT1"
      (Steps.handle (env_at 9000 "bb") (acquire slot1 "monitoring" "bob" none) busy).0.grants
    ≡ some bob
unfolding Steps.handle slot_acquire contains live_grant unexpected_holders clamp_ttl get put pop
taken_over_by_bob = refl

handover-expired_example : 9000 ≤ 9000
handover-expired_example =
    Promises.handover-expired busy (env_at 9000 "bb") (acquire slot1 "monitoring" "bob" none)
      "SLOT1" ann bob busy-IsValid busy_at_slot1 taken_over_by_bob
      (λ e. cc ((eq_iff "aa" "bb").1 e))
