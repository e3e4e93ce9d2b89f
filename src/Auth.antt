-- ===== src/Auth.antt =====
-- src/web/auth.rs: logging in with Discord, and the guard of the pages for admins. Instants are numbers
-- of nanoseconds; the random texts and Discord's answers are inputs. The feature `no_auth_website`, which
-- turns the guard off, is not on. A panic that holds the lock of the states poisons it, for good; the lock of
-- the sessions is not poisoned.
pub mod Guarded
use nmg_league_bot.Base.{
  ℕ, ◌-◌, ◌/◌, ◌+◌, ◌*◌, ◌^◌, String, Option, none, some, Bool, true, false, List, [], ◌∷◌, Result,
  ok, err, ltb, if◌then◌else◌,
}
use nmg_league_bot.Base.Maps.{get, insert, remove}
use nmg_league_bot.Sessions.{
  SessionManager, UserNotAuthenticated, log_in_user, log_out_user, get_user,
}

-- `OauthClient`, as far as the states it has handed out and whether their lock is poisoned, and the
-- `SessionManager`
pub record Site : Type 0 where
  pub states : List (String × ℕ)
  pub poisoned : Bool
  pub sessions : SessionManager String

abbrev pub second : ℕ
second = 10 ^ 9

-- `_is_expired`; the difference of instants stops at zero
unfoldable pub is_expired : ℕ → ℕ → Bool
is_expired created now = ltb (60 * 5) ((now - created) / second)

-- `auth_url`, with the state that it makes; on a poisoned lock it is not stored
unfoldable pub auth_url : String → ℕ → Site → Site
unfolding insert
auth_url csrf now s = if s.poisoned then s else record s { states = insert csrf now s.states }

abbrev pub known_state : Option ℕ → ℕ → Bool
known_state none now = false
known_state (some created) now = if is_expired created now then false else true

-- the token that Discord gives
pub record TokenResponse : Type 0 where
  pub is_bearer : Bool
  pub expires_in : Option ℕ

-- Discord's answers to a login, and the token of the session that may begin
pub record Answers : Type 0 where
  pub token : Option TokenResponse
  pub current_user : Option String
  pub is_admin : Option Bool
  pub session_token : String

-- The states are used once. On a poisoned lock the method fails open: no state is looked at.
unfoldable pub exchange_code : String → ℕ → Answers → Site → Option TokenResponse × Site
unfolding get remove is_expired
exchange_code state now a s = if s.poisoned then (a.token, s) else (
  if known_state (get state s.states) now then a.token else none,
  record s { states = remove state s.states },
)

abbrev expiry : Option ℕ → ℕ
expiry none = 60 * 60 * second
expiry (some t) = t

-- the session begins if the user is an admin
unfoldable pub admit : Option String → Option Bool → TokenResponse → ℕ → String → Site → Bool × Site
unfolding log_in_user
admit (some uid) (some true) t now token s =
    (true, record s { sessions = log_in_user token uid (now + expiry t.expires_in) s.sessions })
admit _ _ t now token s = (false, s)

unfoldable pub bearer : Option TokenResponse × Site → ℕ → Answers → Bool × Site
unfolding admit
bearer (none, s) now a = (false, s)
bearer (some t, s) now a =
    if t.is_bearer then admit a.current_user a.is_admin t now a.session_token s else (false, s)

-- `discord_login`: whether it logs in, or redirects to the login page
unfoldable pub discord_login : Option String → String → ℕ → Answers → Site → Bool × Site
unfolding exchange_code bearer
discord_login none state now a s = (false, s)
discord_login (some code) state now a s = bearer (exchange_code state now a s) now a

-- what the guard `Admin` makes of a request
pub data Outcome : Type 0 where
  success forward forbidden : Outcome

unfoldable pub by_role : Option Bool → String → Site → Outcome × Site
unfolding log_out_user
by_role (some true) token s = (success, s)
by_role (some false) token s =
    (forbidden, record s { sessions = (log_out_user token s.sessions).1 })
by_role none token s = (forward, s)

unfoldable pub by_user :
    (String → Option Bool) → Result UserNotAuthenticated String → String → Site → Outcome × Site
unfolding by_role
by_user role (err e) token s = (forward, s)
by_user role (ok uid) token s = by_role (role uid) token s

-- `Admin::from_request`, with the cookie, and who Discord says is an admin
unfoldable pub from_request : Option String → ℕ → (String → Option Bool) → Site → Outcome × Site
unfolding get_user by_user
from_request none now role s = (forward, s)
from_request (some token) now role s = by_user role (get_user now token s.sessions) token s

-- what comes to the site
pub data Event : Type 0 where
  opens_login : (csrf : String) (now : ℕ) → Event
  logs_in : (code : Option String) (state : String) (now : ℕ) (a : Answers) → Event
  asks : (cookie : Option String) (now : ℕ) (role : String → Option Bool) → Event
  poisons : Event

unfoldable pub after : Event → Site → Site
unfolding auth_url discord_login from_request
after (opens_login csrf now) s = auth_url csrf now s
after (logs_in code state now a) s = (discord_login code state now a s).1
after (asks cookie now role) s = (from_request cookie now role s).1
after poisons s = record s { poisoned = true }

-- the site after events, of which the last one comes first
unfoldable pub site_after : List Event → Site
unfolding after
site_after [] = record { states = []; poisoned = false; sessions = [] }
site_after (e ∷ es) = after e (site_after es)
