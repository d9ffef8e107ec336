-- ===== src/Slots/Lease/Acquire.antt =====
-- pi/portal.py `slot_acquire`: when it grants, what it then stores, and what it leaves alone.
use embedded_ai_harness.Prelude.{
  ℕ, ◌≤◌, ◌<◌, String, ◌≡◌, ◌≢◌, ◌↔◌, ◌⊎◌, true, false, Option, none, some, inl, inr, [], arith,
  eq_iff, str_eq, leb, if◌then◌else◌, ◌==◌, Option-cases,
}
use embedded_ai_harness.Prelude.Dict.{get, get-put, get-pop}
use embedded_ai_harness.Prelude.Int.{ℤ, sub_ℕ}
use embedded_ai_harness.Slots.{Slot}
use embedded_ai_harness.Slots.Lease.{
  Manager, Grant, Env, held, slot_modes, contains, live_grant, clamp_ttl, slot_acquire,
  unexpected_holders, new_grant, tenths,
}

-- No lease on the slot runs at the time `t`.
abbrev pub IsFree : ℕ → String → Manager → Type 0
IsFree t label m = (g : Grant) → get label m.grants ≡ some g → g.expires_at ≤ t

-- The lease on `label` as it stands once an expired one has been dropped.
abbrev pub running : ℕ → Option Grant → Option Grant
running t none = none
running t (some g) = if leb g.expires_at t then none else some g

module _ (t : ℕ) (label : String) (m : Manager) where
  live_grant-running : (live_grant label t m).1 ≡ running t (get label m.grants)
  unfolding live_grant
  live_grant-running = ground arith

  pub get-live_grant :
      (l : String)
      → get l (live_grant label t m).0.grants
        ≡ (if str_eq label l then running t (get l m.grants) else get l m.grants)
  unfolding live_grant
  get-live_grant l = ground (arith, get-pop label l m.grants, eq_iff label l)

  pub live_grant-le :
      (l : String) (g : Grant)
      → get l (live_grant label t m).0.grants ≡ some g
      → get l m.grants ≡ some g
  live_grant-le l g h = ground (arith, get-live_grant l)

  pub live_grant_free : IsFree t label m → (live_grant label t m).1 ≡ none
  unfolding live_grant
  live_grant_free free = elim (Option-cases (get label m.grants)) [
    | inl e ↦ ground arith
    | inr (g, e) ↦ ground (arith, free g e)
  ]

  pub live_grant-none : (live_grant label t m).1 ≡ none → IsFree t label m
  unfolding live_grant
  live_grant-none e g h = ground arith

module _ (env : Env) (slot : Slot) (mode owner : String) (ttl : Option ℤ) (m : Manager) where
  -- While a lease on the slot runs, a well-formed request is refused with the status 409, the answer
  -- names the holder, and nothing is changed.
  pub slot_acquire-held :
      (g : Grant)
      → contains slot_modes mode ≡ true
      → owner ≢ ""
      → get slot.label m.grants ≡ some g
      → env.check < g.expires_at
      → slot_acquire env slot mode owner ttl m ≡ (
        m,
        record {
          body = held g.mode g.owner (some g.since) (some (tenths (sub_ℕ g.expires_at env.now)));
          status = 409;
        },
      )
  unfolding slot_acquire live_grant
  slot_acquire-held g known named at_slot runs = ground (arith, eq_iff owner "")

  -- The lease is granted exactly when the mode is known, the owner is named, no lease on the slot
  -- runs, no debug session holds the slot (unless the mode is "debugging"), and no foreign process
  -- holds the device.
  pub slot_acquire-granted_iff :
      ((slot_acquire env slot mode owner ttl m).1.status ≡ 200)
      ↔ (contains slot_modes mode ≡ true)
        × (owner ≢ "")
        × IsFree env.check slot.label m
        × ((mode ≡ "debugging") ⊎ (env.is_debugging slot.label ≡ false))
        × (unexpected_holders env slot ≡ [])
  slot_acquire-granted_iff = (forth, back)
    where
      forth :
          (slot_acquire env slot mode owner ttl m).1.status ≡ 200
          → (contains slot_modes mode ≡ true)
            × (owner ≢ "")
            × IsFree env.check slot.label m
            × ((mode ≡ "debugging") ⊎ (env.is_debugging slot.label ≡ false))
            × (unexpected_holders env slot ≡ [])
      forth h =
          unfold slot_acquire in
          (
            ground arith,
            ground (arith, eq_iff owner ""),
            live_grant-none env.check slot.label m (ground arith),
            ground (arith, eq_iff mode "debugging"),
            ground arith,
          )

      back :
          (contains slot_modes mode ≡ true)
            × (owner ≢ "")
            × IsFree env.check slot.label m
            × ((mode ≡ "debugging") ⊎ (env.is_debugging slot.label ≡ false))
            × (unexpected_holders env slot ≡ [])
          → (slot_acquire env slot mode owner ttl m).1.status ≡ 200
      back h =
          let free = live_grant_free env.check slot.label m h.2 in
          unfold slot_acquire in ground (arith, eq_iff owner "", eq_iff mode "debugging", free)

  pub get-slot_acquire :
      (l : String)
      → get l (slot_acquire env slot mode owner ttl m).0.grants ≡ (
          if str_eq slot.label l
          then (if (slot_acquire env slot mode owner ttl m).1.status == 200
              then some (new_grant env mode owner (clamp_ttl ttl))
              else if (slot_acquire env slot mode owner ttl m).1.status == 409
              then running env.check (get l m.grants)
              else get l m.grants)
          else get l m.grants)
  unfolding slot_acquire
  get-slot_acquire l = ground (
    arith,
    eq_iff slot.label l,
    get-live_grant env.check slot.label m l,
    get-put slot.label l (new_grant env mode owner (clamp_ttl ttl))
        (live_grant slot.label env.check m).0.grants,
  )
