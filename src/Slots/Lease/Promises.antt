-- ===== src/Slots/Lease/Promises.antt =====
-- What the slot access manager of pi/portal.py promises to its clients.
use embedded_ai_harness.Prelude.{
  ℕ, ◌+◌, ◌≤◌, ◌<◌, String, ◌≡◌, ◌≢◌, ◌∙◌, true, false, Option, none, some, [], arith, eq_iff,
  str_eq, if◌then◌else◌, Bool-cases, Option-cases, inl, inr, ◌==◌, ==_iff, eq_refl, max, min,
}
use embedded_ai_harness.Prelude.Dict.{Dict, IsUnique, get, put, get-put, get-pop, pop-put}
use embedded_ai_harness.Prelude.Int.{ℤ, pos}
use embedded_ai_harness.Slots.{Slot}
use embedded_ai_harness.Slots.Lease.{
  Manager, Grant, Env, renewed, live_grant, clamp_ttl, slot_acquire, by_token, slot_renew,
  slot_release, slot_mode, new_grant, contains, slot_modes, unexpected_holders, tenths,
}
use embedded_ai_harness.Slots.Lease.Tokens.{by_token_sound, by_token_lem}
use embedded_ai_harness.Slots.Lease.Acquire.{
  IsFree, get-live_grant, get-slot_acquire, slot_acquire-granted_iff,
}
use embedded_ai_harness.Slots.Lease.Steps.{
  Request, acquire, renew, release, ask, handle, Reach, IsFresh,
}
use embedded_ai_harness.Slots.Lease.Valid.{IsValid, Reach-IsValid, acquire-IsValid}

-- A holder that stops renewing cannot lock a slot out: an hour after the last request, a well-formed
-- acquire of any slot that no debug session and no foreign process holds is granted.
pub acquire_after_an_hour :
    {t : ℕ} {m : Manager} (env : Env) (slot : Slot) (mode owner : String) (ttl : Option ℤ)
    → Reach t m
    → t + 3_600_000 ≤ env.check
    → contains slot_modes mode ≡ true
    → owner ≢ ""
    → env.is_debugging slot.label ≡ false
    → unexpected_holders env slot ≡ []
    → (slot_acquire env slot mode owner ttl m).1.status ≡ 200
acquire_after_an_hour {t} {m} env slot mode owner ttl r late known named quiet alone =
    (slot_acquire-granted_iff env slot mode owner ttl m).1 (known, named, free, inr quiet, alone)
  where
    free : IsFree env.check slot.label m
    free g h = let b = (Reach-IsValid r).bounded slot.label g h in omega arith

-- Renewing a lease that runs extends it by its own length from now, whatever the default is, and
-- changes no other lease.
pub slot_renew_lem :
    {t : ℕ} (m : Manager) (env : Env) (label : String) (g : Grant)
    → IsValid t m.grants
    → get label m.grants ≡ some g
    → env.check < g.expires_at
    → ((slot_renew env g.token m).1 ≡ record { body = renewed (tenths (pos g.ttl)); status = 200 })
      × ((l : String)
          → get l (slot_renew env g.token m).0.grants ≡ (
              if str_eq label l
              then some (record g { expires_at = env.now + g.ttl })
              else get l m.grants))
unfolding slot_renew
slot_renew_lem m env label g v at_label runs =
    let b = v.bounded label g at_label in
    let found = by_token_lem label g m.grants v.one_per_label v.one_per_token at_label in
    (
      ground (arith, found),
      λ l.
          ground
            (arith, found, get-put label l (record g { expires_at = env.now + g.ttl }) m.grants),
    )

-- A token that names no lease that runs renews nothing: the answer is 404 and nothing is changed.
pub slot_renew-refused :
    (m : Manager) (env : Env) (token : String)
    → IsUnique m.grants
    → ((l : String) (g : Grant)
        → get l m.grants ≡ some g
        → g.token ≡ token
        → g.expires_at ≤ env.check)
    → ((slot_renew env token m).0 ≡ m) × ((slot_renew env token m).1.status ≡ 404)
unfolding slot_renew
slot_renew-refused m env token u over = elim (Option-cases (by_token token m.grants)) [
  | inl e ↦ (ground (arith, e), ground (arith, e))
  | inr (f, e) ↦
      let (at, same) = by_token_sound token f.0 f.1 m.grants u e in
      let late = over f.0 f.1 at same in (ground (arith, e), ground (arith, e))
]

slot_acquire-put :
    (m : Manager) (env : Env) (slot : Slot) (mode owner : String) (ttl : Option ℤ)
    → get slot.label m.grants ≡ none
    → (slot_acquire env slot mode owner ttl m).1.status ≡ 200
    → (slot_acquire env slot mode owner ttl m).0.grants
      ≡ put slot.label (new_grant env mode owner (clamp_ttl ttl)) m.grants
unfolding slot_acquire live_grant
slot_acquire-put m env slot mode owner ttl free granted = ground arith

slot_release-put :
    (d : Dict Grant) (label : String) (g : Grant) (m : Manager)
    → get label d ≡ none
    → m.grants ≡ put label g d
    → by_token g.token m.grants ≡ some (label, g)
    → (slot_release g.token m).0.grants ≡ d
unfolding slot_release
slot_release-put d label g m free e found = ground (arith, pop-put label g d)

-- Releasing a lease that was just granted on a free slot leaves the lease table as it was before.
pub release-acquire :
    {t : ℕ} (m : Manager) (env : Env) (slot : Slot) (mode owner : String) (ttl : Option ℤ)
    → IsValid t m.grants
    → t ≤ env.now
    → get slot.label m.grants ≡ none
    → IsFresh env.token m
    → (slot_acquire env slot mode owner ttl m).1.status ≡ 200
    → (slot_release env.token (slot_acquire env slot mode owner ttl m).0).0.grants ≡ m.grants
release-acquire m env slot mode owner ttl v le free fresh granted =
    let g = new_grant env mode owner (clamp_ttl ttl) in
    let e = slot_acquire-put m env slot mode owner ttl free granted in
    let v' = acquire-IsValid env slot mode owner ttl m v le fresh in
    slot_release-put m.grants slot.label g _ free e (
      by_token_lem slot.label g _ v'.one_per_label v'.one_per_token
        (rw e (get-put slot.label slot.label g m.grants ∙ rw eq_refl)))

-- No request takes a running lease from its holder: where the lease on a slot passes from one token
-- to another in one request, the first had run out before.
pub handover-expired :
    {t : ℕ} (m : Manager) (env : Env) (request : Request) (label : String) (g h : Grant)
    → IsValid t m.grants
    → get label m.grants ≡ some g
    → get label (handle env request m).0.grants ≡ some h
    → g.token ≢ h.token
    → g.expires_at ≤ env.check
unfolding handle
handover-expired m env (acquire slot mode owner ttl) label g h v before after ne =
    elim (Bool-cases ((slot_acquire env slot mode owner ttl m).1.status == 200)) [
      | inl granted ↦
          let e = (==_iff (slot_acquire env slot mode owner ttl m).1.status 200).0 granted in
          let (_, _, free, _, _) = (slot_acquire-granted_iff env slot mode owner ttl m).0 e in
          ground (
            arith,
            get-slot_acquire env slot mode owner ttl m label,
            eq_iff slot.label label,
            free g,
          )
      | inr refused ↦
          ground (arith, get-slot_acquire env slot mode owner ttl m label, eq_iff slot.label label)
    ]
handover-expired m env (renew token) label g h v before after ne =
    elim (Option-cases (by_token token m.grants)) [
      | inl e ↦ unfold slot_renew in ground (arith, e)
      | inr (f, e) ↦
          let (at, _) = by_token_sound token f.0 f.1 m.grants v.one_per_label e in
          unfold slot_renew in
          ground (
            arith,
            e,
            at,
            eq_iff f.0 label,
            get-put f.0 label
                (record f.1 { expires_at = env.now + max 1000 (min f.1.ttl 3_600_000) }) m.grants,
          )
    ]
handover-expired m env (release token) label g h v before after ne =
    elim (Option-cases (by_token token m.grants)) [
      | inl e ↦ unfold slot_release in ground (arith, e)
      | inr (f, e) ↦ unfold slot_release in ground (arith, e, get-pop f.0 label m.grants)
    ]
handover-expired m env (ask slot) label g h v before after ne =
    unfold slot_mode in
    ground (arith, get-live_grant env.check slot.label m label, eq_iff slot.label label)
