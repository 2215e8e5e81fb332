-- ===== src/Api/Throttle.antt =====
-- The throttle of failed authentications: `is_failed_auth_ip_blocked` and `record_failed_auth` of
-- apps/api/limits.py.
use osir_ai.Prelude.{
  ℕ, suc, ◌≡◌, ◌≤◌, ◌<◌, ◌+◌, ◌-◌, refl, arith, Bool, true, false, inl, inr, List, [], ◌∷◌, ◌++◌,
  Option, none, some, ltb, leb, if◌then◌else◌, All, Text, text, Bool-cases, is_some, Ascending,
  All-map, Option-cases,
}

-- An entry: its count, and the time at which it expires.
abbrev pub live : ℕ → Option (ℕ × ℕ) → Option ℕ
live now none = none
live now (some (count, expires)) = if ltb now expires then some count else none

-- The counters of `django.core.cache`, as they are documented: a store that keeps its entries until
-- they expire, `add` that writes only where nothing lives, and `incr` that keeps the expiry.
pub record Counters : Type 1 where
  pub Store : Type 0
  pub entry : Text → Store → Option (ℕ × ℕ)
  pub add : ℕ → Text → ℕ → ℕ → Store → Store
  pub incr : Text → Store → Store
  pub set : ℕ → Text → ℕ → ℕ → Store → Store
  pub entry_add :
      (now ttl count : ℕ) (k : Text) (s : Store)
      → is_some (live now (entry k s)) ≡ false
      → entry k (add now k count ttl s) ≡ some (count, now + ttl)
  pub entry_incr :
      (k : Text) (count expires : ℕ) (s : Store)
      → entry k s ≡ some (count, expires)
      → entry k (incr k s) ≡ some (count + 1, expires)
  pub entry_set :
      (now ttl count : ℕ) (k : Text) (s : Store)
      → entry k (set now k count ttl s) ≡ some (count, now + ttl)

-- `_AUTH_FAIL_LIMIT` and `_AUTH_FAIL_WINDOW_SECONDS`
abbrev pub auth_fail_limit : ℕ
auth_fail_limit = 10

abbrev pub auth_fail_window : ℕ
auth_fail_window = 60

-- `_auth_fail_cache_key`
abbrev pub bucket : Option Text → Text
bucket none = text "agent_api:auth_fail:anon"
bucket (some []) = text "agent_api:auth_fail:anon"
bucket (some (c ∷ ip)) = text "agent_api:auth_fail:" ++ (c ∷ ip)

-- `cache.get(key, 0) >= limit`
abbrev pub reached : Option ℕ → Bool
reached none = false
reached (some count) = leb auth_fail_limit count

module _ (c : Counters) where
  unfoldable pub is_failed_auth_ip_blocked : ℕ → Option Text → c.Store → Bool
  is_failed_auth_ip_blocked now ip s = reached (live now (c.entry (bucket ip) s))

  -- The call that adds comes at one time, the one that increments at a later one, when the entry
  -- may be gone.
  abbrev pub bump : ℕ → Text → c.Store → c.Store
  bump later k s =
      if is_some (live later (c.entry k s)) then c.incr k s else c.set later k 1 auth_fail_window s

  unfoldable pub record_failed_auth : ℕ → ℕ → Option Text → c.Store → c.Store
  record_failed_auth now later ip s =
      if is_some (live now (c.entry (bucket ip) s))
      then bump later (bucket ip) s
      else c.add now (bucket ip) 1 auth_fail_window s

  -- Bad credentials from one address, at the given times: how many are looked at, since the address
  -- was not blocked, and are then counted.
  unfoldable pub looked_at : Option Text → List ℕ → c.Store → ℕ
  looked_at ip [] s = 0
  looked_at ip (t ∷ ts) s =
      let refused = looked_at ip ts s in
      let counted = looked_at ip ts (record_failed_auth t t ip s) in
      if is_failed_auth_ip_blocked t ip s then refused else suc counted

  -- While an entry lives that outlasts the attempts, its count is the bound.
  looked_at-live :
      (ip : Option Text) (ts : List ℕ) (count expires : ℕ) (s : c.Store)
      → c.entry (bucket ip) s ≡ some (count, expires)
      → All (λ t. t < expires) ts
      → looked_at ip ts s ≤ auth_fail_limit - count
  unfolding looked_at record_failed_auth is_failed_auth_ip_blocked
  looked_at-live ip [] count expires s h early = omega arith
  looked_at-live ip (t ∷ ts) count expires s h (first, early) =
      let now_live : ltb t expires ≡ true = ground arith in
      elim (Bool-cases (leb auth_fail_limit count)) [
        | inl e ↦ rw (h, now_live, e) (looked_at-live ip ts count expires s h early)
        | inr e ↦
            let next =
              looked_at-live ip ts (count + 1) expires (c.incr (bucket ip) s)
                (c.entry_incr (bucket ip) count expires s h) early in
            let below : count < 10 = ground arith in
            rw (h, now_live, e) (omega (arith, next, below))
      ]

  -- When nothing lives at the first time of a window, a new entry outlasts the window.
  looked_at-dead :
      (ip : Option Text) (ts : List ℕ) (from_ : ℕ) (s : c.Store)
      → ((t : ℕ) → from_ ≤ t → live t (c.entry (bucket ip) s) ≡ none)
      → All (λ t. (from_ ≤ t) × (t < from_ + auth_fail_window)) ts
      → looked_at ip ts s ≤ auth_fail_limit
  unfolding looked_at record_failed_auth is_failed_auth_ip_blocked
  looked_at-dead ip [] from_ s dead inside = omega arith
  looked_at-dead ip (t ∷ ts) from_ s dead ((after, before), inside) =
      let gone = dead t after in
      let added = c.entry_add t auth_fail_window 1 (bucket ip) s (rw gone refl) in
      let early =
        All-map (λ u. u < t + auth_fail_window) (λ u. (from_ ≤ u) × (u < from_ + auth_fail_window))
          ts (λ u k. let below = k.1 in omega (arith, after, below)) inside in
      let next =
        looked_at-live ip ts 1 (t + auth_fail_window) (c.add t (bucket ip) 1 auth_fail_window s)
          added early in
      rw gone (omega (arith, next))

  expired_dead :
      (count expires from_ : ℕ) (e : Option (ℕ × ℕ))
      → e ≡ some (count, expires)
      → ltb from_ expires ≡ false
      → (t : ℕ) → from_ ≤ t
      → live t e ≡ none
  expired_dead count expires from_ e h over t le =
      let still : ltb t expires ≡ false = ground arith in rw (h, still) refl

  later_within :
      (t from_ : ℕ) (ts : List ℕ)
      → from_ ≤ t
      → All (λ u. t ≤ u) ts
      → All (λ u. (from_ ≤ u) × (u < from_ + auth_fail_window)) ts
      → All (λ u. (t ≤ u) × (u < t + auth_fail_window)) ts
  later_within t from_ [] le least inside = tt
  later_within t from_ (u ∷ us) le (here, least) ((after, before), inside) =
      ((here, omega arith), later_within t from_ us le least inside)

  -- What is left of the entry that lives at first, and a whole budget after it.
  looked_at-entry :
      (ip : Option Text) (ts : List ℕ) (from_ count expires : ℕ) (s : c.Store)
      → c.entry (bucket ip) s ≡ some (count, expires)
      → Ascending ts
      → All (λ t. (from_ ≤ t) × (t < from_ + auth_fail_window)) ts
      → looked_at ip ts s ≤ (auth_fail_limit - count) + auth_fail_limit
  unfolding looked_at record_failed_auth is_failed_auth_ip_blocked
  looked_at-entry ip [] from_ count expires s h up inside = omega arith
  looked_at-entry ip (t ∷ ts) from_ count expires s h (least, up) (first, inside) =
      elim (Bool-cases (ltb t expires)) [
        | inr over ↦
            let all_later = later_within t from_ ts first.0 least inside in
            let budget =
              looked_at-dead ip (t ∷ ts) t s (expired_dead count expires t _ h over)
                ((omega arith, omega arith), all_later) in
            omega (arith, budget)
        | inl now_live ↦ elim (Bool-cases (leb auth_fail_limit count)) [
          | inl e ↦ rw (h, now_live, e) (looked_at-entry ip ts from_ count expires s h up inside)
          | inr e ↦
              let next =
                looked_at-entry ip ts from_ (count + 1) expires (c.incr (bucket ip) s)
                  (c.entry_incr (bucket ip) count expires s h) up inside in
              let below : count < 10 = ground arith in
              rw (h, now_live, e) (omega (arith, next, below))
        ]
      ]

  -- Whatever the counter holds at first, at most twenty wrong credentials from one address are looked
  -- at within any 60 seconds: the window starts at a failure, so two windows can touch the period.
  pub looked_at-bound :
      (ip : Option Text) (ts : List ℕ) (from_ : ℕ) (s : c.Store)
      → Ascending ts
      → All (λ t. (from_ ≤ t) × (t < from_ + auth_fail_window)) ts
      → looked_at ip ts s ≤ auth_fail_limit + auth_fail_limit
  looked_at-bound ip ts from_ s up inside = elim (Option-cases (c.entry (bucket ip) s)) [
    | inl e ↦
        let budget = looked_at-dead ip ts from_ s (λ t le. rw e refl) inside in
        omega (arith, budget)
    | inr ((count, expires), e) ↦
        let budget = looked_at-entry ip ts from_ count expires s e up inside in
        omega (arith, budget)
  ]
