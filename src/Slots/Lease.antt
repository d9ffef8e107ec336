-- ===== src/Slots/Lease.antt =====
-- pi/portal.py: the slot access manager, which grants a mode on a slot to one owner for a time.
-- Times are in milliseconds; the 0.1 s of the replies are tenths of a second. What an operation asks
-- of its surroundings (the clock, uuid4, /proc, the debug controller) are the fields of `Env`.
mod Tokens
pub mod Acquire
pub mod Steps
pub mod Valid
pub mod Promises
mod Examples
use embedded_ai_harness.Prelude.{
  ℕ, ◌+◌, ◌≤◌, ◌<◌, ◌/◌, min, max, String, Bool, true, false, not, ◌&&◌, ◌||◌, Option, none, some,
  List, [], ◌∷◌, leb, if◌then◌else◌, ◌==◌, str_eq, keep, push,
}
use embedded_ai_harness.Prelude.Dict.{Dict, get, put, pop}
use embedded_ai_harness.Prelude.Int.{ℤ, pos, negsuc, sub_ℕ, round_div_ℤ}
use embedded_ai_harness.Slots.{Slot}

abbrev pub slot_modes : List String
slot_modes =
    "idle" ∷ "flashing" ∷ "resetting" ∷ "monitoring" ∷ "flapping" ∷ "recovering" ∷ "download"
    ∷ "debugging" ∷ []

abbrev pub grant_ttl_default : ℕ
grant_ttl_default = 60_000

abbrev pub grant_ttl_max : ℕ
grant_ttl_max = 3_600_000

-- A value of `_grants`.
pub record Grant : Type 0 where
  pub token : String
  pub mode : String
  pub owner : String
  pub ttl : ℕ
  pub since : String
  pub expires_at : ℕ

-- The entries that the manager writes to the activity log.
pub data Activity : Type 0 where
  lease_expired : String → String → Activity
  acquired : String → String → String → Activity
  released : String → String → Activity

pub record Manager : Type 0 where
  pub grants : Dict Grant
  pub activity_log : List Activity

pub record Env : Type 0 where
  -- the clock as `_grant_expired` reads it, and as the operation itself reads it after that
  pub check : ℕ
  pub now : ℕ
  -- `uuid.uuid4().hex[:12]`, and the date for `since`
  pub token : String
  pub date : String
  -- `debug_controller.is_debugging`, and the processes of /proc that hold a devnode
  pub is_debugging : String → Bool
  pub holders : String → List (ℕ × String)

pub data Body : Type 0 where
  unknown_mode : String → Body
  missing_owner : Body
  held : String → String → Option String → Option ℤ → Body
  held_out_of_band : ℕ → String → Body
  unknown_token : Body
  granted : String → String → ℤ → Body
  renewed : ℤ → Body
  now_idle : Body
  current : String → Option String → Option String → Option ℤ → Body

pub record Reply : Type 0 where
  pub body : Body
  pub status : ℕ

pub contains : List String → String → Bool
contains [] s = false
contains (x ∷ xs) s = str_eq x s || contains xs s

-- `activity_log` is a deque with `maxlen=200`.
log_activity : Activity → Manager → Manager
log_activity a m = record m { activity_log = push 200 m.activity_log a }

-- round(t, 1), for t in seconds
abbrev pub tenths : ℤ → ℤ
tenths t = round_div_ℤ t 100

grant_expired : Grant → ℕ → Bool
grant_expired g now = leb g.expires_at now

-- The second component is `_grants.get(label)` if that lease still runs.
drop_expired : String → Option Grant → ℕ → Manager → Manager × Option Grant
drop_expired label none t m = (m, none)
drop_expired label (some g) t m =
    if grant_expired g t
    then (
      record (log_activity (lease_expired label g.owner) m) { grants = pop label m.grants },
      none,
    )
    else (m, some g)

pub live_grant : String → ℕ → Manager → Manager × Option Grant
unfolding drop_expired log_activity grant_expired
live_grant label t m = drop_expired label (get label m.grants) t m

-- `ttl or GRANT_TTL_DEFAULT`, then between one second and GRANT_TTL_MAX
pub clamp_ttl : Option ℤ → ℕ
clamp_ttl none = grant_ttl_default
clamp_ttl (some (negsuc n)) = 1000
clamp_ttl (some (pos n)) = if n == 0 then grant_ttl_default else max 1000 (min n grant_ttl_max)

abbrev is_pid : Option ℕ → ℕ → Bool
is_pid none p = false
is_pid (some q) p = q == p

devnode_holders : Env → Option String → List (ℕ × String)
devnode_holders env none = []
devnode_holders env (some d) = if str_eq d "" then [] else env.holders d

pub unexpected_holders : Env → Slot → List (ℕ × String)
unfolding keep devnode_holders
unexpected_holders env slot =
    keep (λ h. not (is_pid slot.pid h.0)) (devnode_holders env slot.devnode)

abbrev pub new_grant : Env → String → String → ℕ → Grant
new_grant env mode owner ttl = record {
  token = env.token;
  mode = mode;
  owner = owner;
  ttl = ttl;
  since = env.date;
  expires_at = env.now + ttl;
}

-- The end of `slot_acquire`, with the lease that is live and the holders that are not the slot's own.
acquire_free : Env → Slot → String → String → ℕ → List (ℕ × String) → Manager → Manager × Reply
unfolding log_activity
acquire_free env slot mode owner ttl ((pid, cmd) ∷ _) m =
    (m, record { body = held_out_of_band pid cmd; status = 409 })
acquire_free env slot mode owner ttl [] m = (
  log_activity (acquired slot.label mode owner)
      (record m { grants = put slot.label (new_grant env mode owner ttl) m.grants }),
  record { body = granted env.token mode (tenths (pos ttl)); status = 200 },
)

acquire_checked : Env → Slot → String → String → ℕ → Manager × Option Grant → Manager × Reply
unfolding acquire_free
acquire_checked env slot mode owner ttl (m, some g) = (
  m,
  record {
    body = held g.mode g.owner (some g.since) (some (tenths (sub_ℕ g.expires_at env.now)));
    status = 409;
  },
)
acquire_checked env slot mode owner ttl (m, none) =
    if not (str_eq mode "debugging") && env.is_debugging slot.label
    then (m, record { body = held "debugging" "debug-session" none none; status = 409 })
    else acquire_free env slot mode owner ttl (unexpected_holders env slot) m

pub slot_acquire : Env → Slot → String → String → Option ℤ → Manager → Manager × Reply
unfolding acquire_checked
slot_acquire env slot mode owner ttl m =
    if not (contains slot_modes mode)
    then (m, record { body = unknown_mode mode; status = 400 })
    else if str_eq owner ""
    then (m, record { body = missing_owner; status = 400 })
    else acquire_checked env slot mode owner (clamp_ttl ttl) (live_grant slot.label env.check m)

pub by_token : String → Dict Grant → Option (String × Grant)
by_token t [] = none
by_token t ((label, g) ∷ rest) = if str_eq g.token t then some (label, g) else by_token t rest

renew_found : Env → Option (String × Grant) → Manager → Manager × Reply
unfolding grant_expired
renew_found env none m = (m, record { body = unknown_token; status = 404 })
renew_found env (some (label, g)) m =
    let ttl = max 1000 (min g.ttl grant_ttl_max) in
    if grant_expired g env.check then (m, record { body = unknown_token; status = 404 }) else (
      record m { grants = put label (record g { expires_at = env.now + ttl }) m.grants },
      record { body = renewed (tenths (pos ttl)); status = 200 },
    )

pub slot_renew : Env → String → Manager → Manager × Reply
unfolding renew_found
slot_renew env token m = renew_found env (by_token token m.grants) m

release_found : Option (String × Grant) → Manager → Manager × Reply
unfolding log_activity
release_found none m = (m, record { body = unknown_token; status = 404 })
release_found (some (label, g)) m = (
  log_activity (released label g.owner) (record m { grants = pop label m.grants }),
  record { body = now_idle; status = 200 },
)

pub slot_release : String → Manager → Manager × Reply
unfolding release_found
slot_release token m = release_found (by_token token m.grants) m

describe_mode : Env → Slot → Option Grant → Body
describe_mode env slot (some g) =
    current g.mode (some g.owner) (some g.since) (some (tenths (sub_ℕ g.expires_at env.now)))
describe_mode env slot none =
    if env.is_debugging slot.label
    then current "debugging" (some "debug-session") none none
    else current (if slot.present then "idle" else "absent") none none none

pub slot_mode : Env → Slot → Manager → Manager × Reply
unfolding describe_mode
slot_mode env slot m =
    let (m', g) = live_grant slot.label env.check m in
    (m', record { body = describe_mode env slot g; status = 200 })
