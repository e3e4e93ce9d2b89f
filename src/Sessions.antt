-- ===== src/Sessions.antt =====
-- src/web/session_manager.rs: who is logged in. Tokens are fresh random texts and the clock is an
-- argument.
use nmg_league_bot.Base.{
  is_some, ap, ◌∙◌, ℕ, ◌≡◌, refl, String, Option, none, some, Bool, List, [], ◌∷◌, Result, ok, err,
  ltb, str_eq, arith, if◌then◌else◌,
}
use nmg_league_bot.Base.Maps.{get, insert, remove, get-remove}

pub data UserNotAuthenticated : Type 0 where
  session_token_not_found token_expired : UserNotAuthenticated

-- `SessionManager`: users and when they expire, by token
abbrev pub SessionManager : Type 0 → Type 0
SessionManager T = List (String × (T × ℕ))

module _ {T : Type 0} where
  -- `log_in_user`, with the token that `SessionToken::create` makes
  unfoldable pub log_in_user : String → T → ℕ → SessionManager T → SessionManager T
  unfolding insert
  log_in_user token uid expire_at m = insert token (uid, expire_at) m

  -- whether the user was logged in, and the sessions after
  unfoldable pub log_out_user : String → SessionManager T → Bool × SessionManager T
  unfolding get remove
  log_out_user token m = (is_some (get token m), remove token m)

  abbrev pub unexpired : ℕ → Option (T × ℕ) → Result UserNotAuthenticated T
  unexpired now none = err session_token_not_found
  unexpired now (some (uid, expire_at)) = if ltb expire_at now then err token_expired else ok uid

  unfoldable pub get_user : ℕ → String → SessionManager T → Result UserNotAuthenticated T
  unfolding get
  get_user now token m = unexpired now (get token m)

-- what is done to the sessions
pub data Event (T : Type 0) : Type 0 where
  logs_in : (token : String) (uid : T) (expire_at : ℕ) → Event T
  logs_out : (token : String) → Event T

module _ {T : Type 0} where
  abbrev after : Event T → SessionManager T → SessionManager T
  after (logs_in token uid expire_at) m = log_in_user token uid expire_at m
  after (logs_out token) m = (log_out_user token m).1

  unfoldable pub after_all : List (Event T) → SessionManager T → SessionManager T
  after_all [] m = m
  after_all (e ∷ es) m = after_all es (after e m)

  abbrev last_session : String → Event T → Option (T × ℕ) → Option (T × ℕ)
  last_session k (logs_in token uid expire_at) old =
      if str_eq token k then some (uid, expire_at) else old
  last_session k (logs_out token) old = if str_eq token k then none else old

  -- the last word on a token
  unfoldable pub session_of : String → List (Event T) → Option (T × ℕ) → Option (T × ℕ)
  session_of k [] old = old
  session_of k (e ∷ es) old = session_of k es (last_session k e old)

  get-after :
      (k : String) (e : Event T) (m : SessionManager T)
      → get k (after e m) ≡ last_session k e (get k m)
  unfolding log_in_user log_out_user
  get-after k (logs_in token uid expire_at) m = ground (arith, get-remove k token m)
  get-after k (logs_out token) m = ground (arith, get-remove k token m)

  session_of-after_all :
      (k : String) (es : List (Event T)) (m : SessionManager T)
      → get k (after_all es m) ≡ session_of k es (get k m)
  unfolding after_all session_of
  session_of-after_all k [] m = refl
  session_of-after_all k (e ∷ es) m =
      session_of-after_all k es (after e m) ∙ ap (session_of k es) (get-after k e m)

  -- After any logins and logouts a token gives what the last event that names it says: its user, if
  -- that was a login that has not expired.
  pub get_user_lem :
      (now : ℕ) (k : String) (es : List (Event T))
      → get_user now k (after_all es []) ≡ unexpired now (session_of k es none)
  unfolding get_user
  get_user_lem now k es = ap (unexpired now) (session_of-after_all k es [])
