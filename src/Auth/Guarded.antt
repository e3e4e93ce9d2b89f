-- ===== src/Auth/Guarded.antt =====
-- Who gets past the guard of the pages for admins.
use mathlib.Core.List.{Memᴰ}
use text.Mathlib.TextEquality.{eq_iff}
use nmg_league_bot.Base.{
  inl, ◌⊎◌, ◌-◌, ◌/◌, ◌≤◌, ℕ, ◌≡◌, refl, String, Option, none, some, Bool, true, false, List, [],
  ◌∷◌, arith, str_eq, ◌⊎◌, ◌∙◌, ap, sym, inl, inr, Bool-cases, if◌then◌else◌,
}
use nmg_league_bot.Base.Maps.{get, insert, remove, get-remove}
use nmg_league_bot.Sessions.{unexpired, log_in_user, log_out_user, get_user}
use nmg_league_bot.Auth.{
  Site, is_expired, known_state, auth_url, TokenResponse, Answers, exchange_code, admit, bearer,
  discord_login, success, by_role, by_user, from_request, Event, opens_login, logs_in, asks,
  poisons, after, site_after,
}

abbrev pub InTime : List Event → String → ℕ → Type 0
InTime es state now =
    (opened : ℕ) × Memᴰ (opens_login state opened) es × ((now - opened) / 1000000000 ≤ 300)

abbrev checked_later :
    {es : List Event} (e : Event) (state : String) (now : ℕ)
    → InTime es state now ⊎ Memᴰ poisons es
    → InTime (e ∷ es) state now ⊎ Memᴰ poisons (e ∷ es)
checked_later e state now (inl (t, m, h)) = inl (t, Memᴰ.tail m, h)
checked_later e state now (inr m) = inr (Memᴰ.tail m)

-- The events hold a login of the user, as an admin, that began the session with the token; and it came
-- with a state that the site had handed out at most 300 whole seconds before, or the lock was poisoned.
pub record Granted (es : List Event) (token uid : String) : Type 0 where
  pub code : Option String
  pub state : String
  pub now : ℕ
  pub answers : Answers
  pub logged_in : Memᴰ (logs_in code state now answers) es
  pub checked : InTime es state now ⊎ Memᴰ poisons es
  pub is_user : answers.current_user ≡ some uid
  pub is_admin : answers.is_admin ≡ some true
  pub is_token : str_eq answers.session_token token ≡ true

abbrev later :
    {es : List Event} {token uid : String} (e : Event)
    → Granted es token uid
    → Granted (e ∷ es) token uid
later e g = record {
  code = g.code;
  state = g.state;
  now = g.now;
  answers = g.answers;
  logged_in = Memᴰ.tail g.logged_in;
  checked = checked_later e g.state g.now g.checked;
  is_user = g.is_user;
  is_admin = g.is_admin;
  is_token = g.is_token;
}

module _ (s : Site) (k : String) where
  login_states :
      (code : Option String) (state : String) (now : ℕ) (a : Answers)
      → (discord_login code state now a s).1.states ≡ s.states
        ⊎ ((discord_login code state now a s).1.states ≡ remove state s.states)
  unfolding discord_login exchange_code bearer admit
  login_states none state now a = inl refl
  login_states (some code) state now a = ground arith

  asks_states :
      (cookie : Option String) (now : ℕ) (role : String → Option Bool)
      → (from_request cookie now role s).1.states ≡ s.states
  unfolding from_request by_user by_role
  asks_states cookie now role = ground arith

  -- a session that a login begins
  abbrev Begun : Option String → String → ℕ → Answers → String → Type 0
  Begun code state now a uid =
      (a.current_user ≡ some uid)
      × (a.is_admin ≡ some true)
      × (str_eq a.session_token k ≡ true)
      × (((t : ℕ) × (get state s.states ≡ some t) × ((now - t) / 1000000000 ≤ 300))
          ⊎ (s.poisoned ≡ true))

  admit_sessions :
      (o : Site) (u : Option String) (r : Option Bool) (t : TokenResponse) (now : ℕ)
      (token : String) {uid : String} {exp : ℕ}
      → get k (admit u r t now token o).1.sessions ≡ some (uid, exp)
      → (get k o.sessions ≡ some (uid, exp))
        ⊎ ((u ≡ some uid) × (r ≡ some true) × (str_eq token k ≡ true))
  unfolding admit log_in_user insert get
  admit_sessions o u r t now token h = ground (arith, get-remove k token o.sessions)

  bearer_sessions :
      (o : Site) (t : Option TokenResponse) (now : ℕ) (a : Answers) {uid : String} {exp : ℕ}
      → get k (bearer (t, o) now a).1.sessions ≡ some (uid, exp)
      → (get k o.sessions ≡ some (uid, exp))
        ⊎ ((a.current_user ≡ some uid)
            × (a.is_admin ≡ some true)
            × (str_eq a.session_token k ≡ true))
  unfolding bearer
  bearer_sessions o none now a h = inl h
  bearer_sessions o (some t) now a {uid} {exp} h = ground (
    arith,
    admit_sessions o a.current_user a.is_admin t now a.session_token {uid = uid} {exp = exp},
  )

  not_expired : (t now : ℕ) → is_expired t now ≡ false → (now - t) / 1000000000 ≤ 300
  unfolding is_expired
  not_expired t now h = ground arith

  login_sessions :
      (code : Option String) (state : String) (now : ℕ) (a : Answers) {uid : String} {exp : ℕ}
      → get k (discord_login code state now a s).1.sessions ≡ some (uid, exp)
      → (get k s.sessions ≡ some (uid, exp)) ⊎ Begun code state now a uid
  unfolding discord_login exchange_code bearer
  login_sessions none state now a h = inl h
  login_sessions (some code) state now a {uid} {exp} h = lock s.poisoned refl h
    where
      left : Site
      left = record s { states = remove state s.states }

      expired :
          (t : ℕ) (b : Bool)
          → get state s.states ≡ some t
          → is_expired t now ≡ b
          → get k
              (bearer
                (if (if b then false else true) then a.token else none, left)
                now
                a).1.sessions
            ≡ some (uid, exp)
          → (get k s.sessions ≡ some (uid, exp)) ⊎ Begun (some code) state now a uid
      expired t true e x h = inl h
      expired t false e x h = elim (bearer_sessions left a.token now a h) [
        | inl old ↦ inl old
        | inr (u, r, same) ↦ inr (u, r, same, inl (t, e, not_expired t now x))
      ]

      go :
          (o : Option ℕ)
          → get state s.states ≡ o
          → get k (bearer (if known_state o now then a.token else none, left) now a).1.sessions
            ≡ some (uid, exp)
          → (get k s.sessions ≡ some (uid, exp)) ⊎ Begun (some code) state now a uid
      go none e h = inl h
      go (some t) e h = expired t (is_expired t now) e refl h

      lock :
          (b : Bool)
          → s.poisoned ≡ b
          → get k
              (bearer
                (if b
                  then (a.token, s)
                  else (if known_state (get state s.states) now then a.token else none, left))
                now
                a).1.sessions
            ≡ some (uid, exp)
          → (get k s.sessions ≡ some (uid, exp)) ⊎ Begun (some code) state now a uid
      lock true e h = elim (bearer_sessions s a.token now a h) [
        | inl old ↦ inl old
        | inr (u, r, same) ↦ inr (u, r, same, inr e)
      ]
      lock false e h = go (get state s.states) refl h

  asks_sessions :
      (cookie : Option String) (now : ℕ) (role : String → Option Bool) {x : String × ℕ}
      → get k (from_request cookie now role s).1.sessions ≡ some x
      → get k s.sessions ≡ some x
  unfolding from_request by_user by_role log_out_user
  asks_sessions none now role h = h
  asks_sessions (some token) now role h = ground (arith, get-remove k token s.sessions)

asks_poisoned :
    (s : Site) (cookie : Option String) (now : ℕ) (role : String → Option Bool)
    → (from_request cookie now role s).1.poisoned ≡ s.poisoned
unfolding from_request by_user by_role
asks_poisoned s cookie now role = ground arith

admit_poisoned :
    (u : Option String) (r : Option Bool) (t : TokenResponse) (now : ℕ) (token : String) (s : Site)
    → (admit u r t now token s).1.poisoned ≡ s.poisoned
unfolding admit
admit_poisoned u r t now token s = ground arith

login_poisoned :
    (s : Site) (code : Option String) (state : String) (now : ℕ) (a : Answers)
    → (discord_login code state now a s).1.poisoned ≡ s.poisoned
unfolding discord_login exchange_code bearer admit
login_poisoned s none state now a = refl
login_poisoned s (some code) state now a = ground arith

poisoned_before : (es : List Event) → (site_after es).poisoned ≡ true → Memᴰ poisons es
unfolding site_after after auth_url
poisoned_before [] h = cc
poisoned_before (poisons ∷ es) h = Memᴰ.head refl
poisoned_before (opens_login csrf now ∷ es) h = Memᴰ.tail (poisoned_before es (ground (arith, h)))
poisoned_before (logs_in code state now a ∷ es) h =
    Memᴰ.tail (poisoned_before es (sym (login_poisoned (site_after es) code state now a) ∙ h))
poisoned_before (asks cookie now role ∷ es) h =
    Memᴰ.tail (poisoned_before es (sym (asks_poisoned (site_after es) cookie now role) ∙ h))

opened_before :
    (es : List Event) (k : String) {t : ℕ}
    → get k (site_after es).states ≡ some t
    → Memᴰ (opens_login k t) es
unfolding site_after after auth_url
opened_before [] k h = cc
opened_before (poisons ∷ es) k {t} h = Memᴰ.tail (opened_before es k {t = t} h)
opened_before (opens_login csrf now ∷ es) k {t} h = elim (Bool-cases (site_after es).poisoned) [
  | inl shut ↦ Memᴰ.tail (opened_before es k {t = t} (ground (arith, h)))
  | inr fine ↦ elim (Bool-cases (str_eq csrf k)) [
    | inl same ↦ Memᴰ.head (ground (arith, eq_iff csrf k))
    | inr other ↦
        Memᴰ.tail
          (opened_before es k {t = t} (ground (arith, get-remove k csrf (site_after es).states)))
  ]
]
opened_before (logs_in code state now a ∷ es) k {t} h = Memᴰ.tail (
    opened_before es k {t = t} (
      ground (
        arith,
        login_states (site_after es) k code state now a,
        get-remove k state (site_after es).states,
      )))
opened_before (asks cookie now role ∷ es) k {t} h = Memᴰ.tail (
    opened_before es k {t = t}
      (ap (get k) (sym (asks_states (site_after es) k cookie now role)) ∙ h))

checked_before :
    (es : List Event) (state : String) (now : ℕ)
    → ((t : ℕ) × (get state (site_after es).states ≡ some t) × ((now - t) / 1000000000 ≤ 300))
      ⊎ ((site_after es).poisoned ≡ true)
    → InTime es state now ⊎ Memᴰ poisons es
checked_before es state now (inl (t, found, fresh)) = inl (t, opened_before es state found, fresh)
checked_before es state now (inr shut) = inr (poisoned_before es shut)

granted :
    (es : List Event) (k : String) {uid : String} {exp : ℕ}
    → get k (site_after es).sessions ≡ some (uid, exp)
    → Granted es k uid
unfolding site_after after auth_url
granted [] k h = cc
granted (poisons ∷ es) k {uid} {exp} h = later poisons (granted es k {uid = uid} {exp = exp} h)
granted (opens_login csrf now ∷ es) k {uid} {exp} h =
    later (opens_login csrf now) (granted es k {uid = uid} {exp = exp} (ground (arith, h)))
granted (asks cookie now role ∷ es) k {uid} {exp} h =
    later (asks cookie now role)
      (granted es k {uid = uid} {exp = exp} (asks_sessions (site_after es) k cookie now role h))
granted (logs_in code state now a ∷ es) k {uid} {exp} h =
    elim (login_sessions (site_after es) k code state now a h) [
      | inl old ↦ later (logs_in code state now a) (granted es k {uid = uid} {exp = exp} old)
      | inr (u, r, same, check) ↦ record {
        code = code;
        state = state;
        now = now;
        answers = a;
        logged_in = Memᴰ.head refl;
        checked =
            checked_later (logs_in code state now a) state now (checked_before es state now check);
        is_user = u;
        is_admin = r;
        is_token = same;
      }
    ]

-- Whatever has come to the site: a request that gets past the guard has the cookie of a session
-- that began with a login as an admin; the login page had handed out the login's state at most 300
-- whole seconds before, or the lock of the states has been poisoned; and the user of that session is
-- an admin still.
pub from_request-Granted :
    (es : List Event) (cookie : Option String) (now : ℕ) (role : String → Option Bool)
    → (from_request cookie now role (site_after es)).0 ≡ success
    → (token : String) × (uid : String) × (cookie ≡ some token)
      × (role uid ≡ some true)
      × Granted es token uid
unfolding from_request by_user by_role get_user
from_request-Granted es none now role h = cc
from_request-Granted es (some token) now role h = go (get token (site_after es).sessions) refl h
  where
    go :
        (o : Option (String × ℕ))
        → get token (site_after es).sessions ≡ o
        → (by_user role (unexpired now o) token (site_after es)).0 ≡ success
        → (t : String) × (uid : String) × (some token ≡ some t)
          × (role uid ≡ some true)
          × Granted es t uid
    go none e h = cc
    go (some (uid, exp)) e h =
        (token, uid, refl, ground (arith, h), granted es token {uid = uid} {exp = exp} e)
