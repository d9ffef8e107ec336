-- ===== src/Slots/Lease/Valid.antt =====
-- The invariant of the lease table of pi/portal.py, and that every request keeps it.
use embedded_ai_harness.Prelude.{
  ℕ, ◌+◌, ◌≤◌, String, ◌≡◌, Option, none, some, inl, inr, [], ◌∷◌, arith, eq_iff, Bool-cases,
  Option-cases, refl, List, str_eq, not, ◌&&◌,
}
use embedded_ai_harness.Prelude.Dict.{
  Dict, IsUnique, get, put, pop, get-put, get-pop, put-IsUnique, pop-IsUnique,
}
use embedded_ai_harness.Prelude.Int.{ℤ, pos, negsuc}
use embedded_ai_harness.Slots.{Slot}
use embedded_ai_harness.Slots.Lease.{
  Manager, Grant, Env, live_grant, drop_expired, clamp_ttl, slot_acquire, acquire_free,
  acquire_checked, by_token, slot_renew, renew_found, slot_release, release_found, slot_mode,
  grant_expired, contains, slot_modes, unexpected_holders,
}
use embedded_ai_harness.Slots.Lease.Tokens.{TokensDiffer, by_token_sound}
use embedded_ai_harness.Slots.Lease.Steps.{
  Request, acquire, renew, release, ask, handle, Reach, start, next, IsFresh,
}
use embedded_ai_harness.Slots.Lease.Acquire.{live_grant-le}

-- A lease lasts from one second to one hour, and ends within its own `ttl` from now.
pub record IsBounded (now : ℕ) (g : Grant) : Type 0 where
  pub at_least : 1000 ≤ g.ttl
  pub at_most : g.ttl ≤ 3_600_000
  pub ends : g.expires_at ≤ now + g.ttl

pub record IsValid (now : ℕ) (grants : Dict Grant) : Type 0 where
  pub one_per_label : IsUnique grants
  pub one_per_token : TokensDiffer grants
  pub bounded : (l : String) (g : Grant) → get l grants ≡ some g → IsBounded now g

pub IsValid-later : {t u : ℕ} {d : Dict Grant} → t ≤ u → IsValid t d → IsValid u d
IsValid-later le v = record {
  one_per_label = v.one_per_label;
  one_per_token = v.one_per_token;
  bounded = λ l g h.
      let b = v.bounded l g h in
      record { at_least = b.at_least; at_most = b.at_most; ends = omega arith };
}

pub pop-IsValid : {t : ℕ} (k : String) (d : Dict Grant) → IsValid t d → IsValid t (pop k d)
pop-IsValid k d v = record {
  one_per_label = pop-IsUnique k d v.one_per_label;
  one_per_token = λ a b g h p q e. v.one_per_token a b g h (left a g p) (left b h q) e;
  bounded = λ l g h. v.bounded l g (left l g h);
}
  where
    left : (l : String) (g : Grant) → get l (pop k d) ≡ some g → get l d ≡ some g
    left l g h = ground (arith, get-pop k l d)

pub put-IsValid :
    {t : ℕ} (k : String) (g : Grant) (d : Dict Grant)
    → IsValid t d
    → IsBounded t g
    → ((l : String) (h : Grant) → get l d ≡ some h → h.token ≡ g.token → l ≡ k)
    → IsValid t (put k g d)
put-IsValid k g d v b own = record {
  one_per_label = put-IsUnique k g d v.one_per_label;
  one_per_token = λ a c p q at_a at_c same. ground (
    arith,
    get-put k a g d,
    get-put k c g d,
    eq_iff k a,
    eq_iff k c,
    own a p,
    own c q,
    v.one_per_token a c p q,
  );
  bounded = λ l h e. elim (Option-cases (get l d)) [
    | inl missing ↦ ground (arith, get-put k l g d)
    | inr (f, found) ↦ ground (arith, get-put k l g d, v.bounded l f found)
  ];
}

module _ {t : ℕ} (m : Manager) (v : IsValid t m.grants) where
  live_grant-IsValid : (label : String) (u : ℕ) → IsValid t (live_grant label u m).0.grants
  unfolding live_grant
  live_grant-IsValid label u = go (get label m.grants)
    where
      go : (o : Option Grant) → IsValid t (drop_expired label o u m).0.grants
      go none = v
      go (some g) = elim (Bool-cases (grant_expired g u)) [
        | inl e ↦ rw e (pop-IsValid label m.grants v)
        | inr e ↦ rw e v
      ]

  renew_found-IsValid :
      (env : Env) (found : Option (String × Grant))
      → t ≤ env.now
      → ((l : String) (g : Grant) → found ≡ some (l, g) → get l m.grants ≡ some g)
      → IsValid env.now (renew_found env found m).0.grants
  unfolding renew_found
  renew_found-IsValid env none le at = IsValid-later le v
  renew_found-IsValid env (some (l, g)) le at = elim (Bool-cases (grant_expired g env.check)) [
    | inl e ↦ rw e (IsValid-later le v)
    | inr e ↦
        let b = v.bounded l g (at l g refl) in
        rw e (
          put-IsValid l _ m.grants (IsValid-later le v)
            (record { at_least = b.at_least; at_most = b.at_most; ends = omega arith })
            (λ k h p same. v.one_per_token k l h g p (at l g refl) same))
  ]

  pub renew-IsValid :
      (env : Env) (token : String) → t ≤ env.now → IsValid env.now (slot_renew env token m).0.grants
  unfolding slot_renew
  renew-IsValid env token le =
      renew_found-IsValid env (by_token token m.grants) le
        (λ l g e. (by_token_sound token l g m.grants v.one_per_label e).0)

  release_found-IsValid :
      (found : Option (String × Grant)) → IsValid t (release_found found m).0.grants
  unfolding release_found
  release_found-IsValid none = v
  release_found-IsValid (some (l, g)) = pop-IsValid l m.grants v

  pub release-IsValid : (token : String) → IsValid t (slot_release token m).0.grants
  unfolding slot_release
  release-IsValid token = release_found-IsValid (by_token token m.grants)

clamp_ttl_bounds : (ttl : Option ℤ) → (1000 ≤ clamp_ttl ttl) × (clamp_ttl ttl ≤ 3_600_000)
unfolding clamp_ttl
clamp_ttl_bounds none = omega arith
clamp_ttl_bounds (some (pos n)) = ground arith
clamp_ttl_bounds (some (negsuc n)) = omega arith

module _ (env : Env) (slot : Slot) (mode owner : String) (ttl : Option ℤ) where
  acquire_free-IsValid :
      {t : ℕ} (holders : List (ℕ × String)) (m : Manager)
      → IsValid t m.grants
      → t ≤ env.now
      → IsFresh env.token m
      → IsValid env.now (acquire_free env slot mode owner (clamp_ttl ttl) holders m).0.grants
  unfolding acquire_free
  acquire_free-IsValid (h ∷ hs) m v le fresh = IsValid-later le v
  acquire_free-IsValid [] m v le fresh =
      let (lo, hi) = clamp_ttl_bounds ttl in
      put-IsValid slot.label _ m.grants (IsValid-later le v)
        (record { at_least = lo; at_most = hi; ends = omega arith })
        (λ l h p same. absurd (fresh l h p same))

  acquire_checked-IsValid :
      {t : ℕ} (p : Manager × Option Grant)
      → IsValid t p.0.grants
      → t ≤ env.now
      → IsFresh env.token p.0
      → IsValid env.now (acquire_checked env slot mode owner (clamp_ttl ttl) p).0.grants
  unfolding acquire_checked
  acquire_checked-IsValid (m, some g) v le fresh = IsValid-later le v
  acquire_checked-IsValid (m, none) v le fresh =
      elim (Bool-cases (not (str_eq mode "debugging") && env.is_debugging slot.label)) [
        | inl e ↦ rw e (IsValid-later le v)
        | inr e ↦ rw e (acquire_free-IsValid (unexpected_holders env slot) m v le fresh)
      ]

  pub acquire-IsValid :
      {t : ℕ} (m : Manager)
      → IsValid t m.grants
      → t ≤ env.now
      → IsFresh env.token m
      → IsValid env.now (slot_acquire env slot mode owner ttl m).0.grants
  unfolding slot_acquire
  acquire-IsValid m v le fresh = elim (Bool-cases (contains slot_modes mode)) [
    | inr unknown ↦ rw unknown (IsValid-later le v)
    | inl known ↦ elim (Bool-cases (str_eq owner "")) [
      | inl nobody ↦ rw (known, nobody) (IsValid-later le v)
      | inr somebody ↦
          rw (known, somebody)
            (acquire_checked-IsValid (live_grant slot.label env.check m)
              (live_grant-IsValid m v slot.label env.check) le
              (λ l g e. fresh l g (live_grant-le env.check slot.label m l g e)))
    ]
  ]

pub handle-IsValid :
    {t : ℕ} (env : Env) (request : Request) (m : Manager)
    → IsValid t m.grants
    → t ≤ env.now
    → IsFresh env.token m
    → IsValid env.now (handle env request m).0.grants
unfolding handle slot_mode
handle-IsValid env (acquire slot mode owner ttl) m v le fresh =
    acquire-IsValid env slot mode owner ttl m v le fresh
handle-IsValid env (renew token) m v le fresh = renew-IsValid m v env token le
handle-IsValid env (release token) m v le fresh = IsValid-later le (release-IsValid m v token)
handle-IsValid env (ask slot) m v le fresh =
    IsValid-later le (live_grant-IsValid m v slot.label env.check)

-- In every state that the requests of any clients can lead to: each slot has at most one lease and
-- each token names at most one, every lease lasts from one second to one hour, and none ends later
-- than its own length from now.
pub Reach-IsValid : {t : ℕ} {m : Manager} → Reach t m → IsValid t m.grants
unfolding get
Reach-IsValid (start t) = record {
  one_per_label = tt;
  one_per_token = λ l k g h p. cc;
  bounded = λ l g p. cc;
}
Reach-IsValid (next {m = m} env request r le le' fresh) =
    handle-IsValid env request m (Reach-IsValid r) (omega arith) fresh
