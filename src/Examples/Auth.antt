-- ===== src/Examples/Auth.antt =====
-- A login on the web site.
use nmg_league_bot.Base.{◌*◌, ◌≡◌, refl, String, some, true, Option, Bool, List, [], ◌∷◌}
use nmg_league_bot.Auth.{second, Answers, Event, opens_login, logs_in, from_request, site_after}
use nmg_league_bot.Auth.Guarded.{Granted, from_request-Granted}

abbrev answers : Answers
answers = record {
  token = some (record { is_bearer = true; expires_in = some (1000 * second) });
  current_user = some "a";
  is_admin = some true;
  session_token = "s";
}

-- the login page, and Discord's redirect 20 seconds later
abbrev visits : List Event
visits = logs_in (some "code") "csrf" (30 * second) answers ∷ opens_login "csrf" (10 * second) ∷ []

abbrev anyone : String → Option Bool
anyone u = some true

from_request-Granted_example :
    (token : String) × (uid : String) × (some "s" ≡ some token)
    × (anyone uid ≡ some true)
    × Granted visits token uid
unfolding from_request site_after
from_request-Granted_example = from_request-Granted visits (some "s") (60 * second) anyone refl
