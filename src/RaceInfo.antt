-- ===== src/RaceInfo.antt =====
-- src/models/bracket_race_infos.rs, and `BracketRace::schedule` of src/models/bracket_races.rs, which
-- works on a race and its info together.
pub mod Rows
pub mod Scheduling
pub mod Signups
pub mod Queries
pub mod Effects
use nmg_league_bot.Base.{
  ℕ, String, Option, none, some, Bool, true, false, not, ◌&&◌, List, [], ◌∷◌, ◌++◌, Result, ok, err,
  Method, any, filter, length, ◌==◌, str_eq, if◌then◌else◌,
}
use nmg_league_bot.Base.Methods.{pure, throw, lift, modify, gets, ◌>>=◌, ◌>>◌}
use nmg_league_bot.Race.{
  BracketRace, BracketRaceState, BracketRaceStateError, database_error, RaceJson, state, set_state,
  invalid_state,
}
use nmg_league_bot.Tables.{
  BracketRaceInfo, CommentatorSignup, Tables, Connection, statement, select, write, insert,
  transaction, transaction_on, on_conn, next_id, first_where, update_race,
}

-- `NewBracketRaceInfo::new`, as the row with its id
unfoldable pub new_info : BracketRace → ℕ → BracketRaceInfo
new_info race i = record {
  id = i;
  bracket_race_id = race.id;
  scheduled_for = none;
  commportunities_message_id = none;
  restream_request_message_id = none;
  racetime_gg_url = none;
  tentative_commentary_assignment_message_id = none;
  commentary_assignment_message_id = none;
  restream_channel = none;
}

-- `treat_none_as_null`: every column is written
unfoldable pub update_infos : BracketRaceInfo → List BracketRaceInfo → List BracketRaceInfo
update_infos info [] = []
update_infos info (x ∷ xs) = (if x.id == info.id then info else x) ∷ update_infos info xs

-- `NewCommentatorSignup::new`, as the row with its id
unfoldable pub new_signup : BracketRaceInfo → String → ℕ → CommentatorSignup
new_signup info user i = record { id = i; bracket_race_info_id = info.id; discord_id = user }

unfoldable pub is_signup : BracketRaceInfo → String → CommentatorSignup → Bool
is_signup info user x = str_eq x.discord_id user && x.bracket_race_info_id == info.id

module _ {E : Type 0} (refusal : E) where
  abbrev existing_or_new :
      BracketRace → Option BracketRaceInfo → Method Connection E BracketRaceInfo
  unfolding insert new_info
  existing_or_new race (some info) = pure info
  existing_or_new race none =
      insert refusal (λ t. new_info race (next_id (λ i. i.id) t.infos))
        (λ info t. record t { infos = t.infos ++ info ∷ [] })

  unfoldable pub get_or_create_for_bracket : BracketRace → Method Connection E BracketRaceInfo
  unfolding transaction select insert new_info
  get_or_create_for_bracket race = transaction refusal (do
    found ← select refusal (λ t. first_where (λ i. i.bracket_race_id == race.id) t.infos)
    existing_or_new race found)

  -- the info with a new time and no racetime room; the signups for it are deleted at once
  unfoldable pub schedule_info : BracketRaceInfo → ℕ → Method Connection E BracketRaceInfo
  unfolding write
  schedule_info info at = do
    write refusal (λ t. record t {
      signups = filter (λ x. not (x.bracket_race_info_id == info.id)) t.signups;
    })
    pure (record info { racetime_gg_url = none; scheduled_for = some at })

  unfoldable pub update_info : BracketRaceInfo → Method Connection E Unit
  unfolding write update_infos
  update_info info = write refusal (λ t. record t { infos = update_infos info t.infos })

  add_signup : BracketRaceInfo → String → Bool → Method Connection E Bool
  unfolding new_signup
  add_signup info user true c = (ok false, c)
  add_signup info user false c = (
    ok true,
    record c {
      tables = record c.tables {
        signups =
            c.tables.signups ++ new_signup info user (next_id (λ x. x.id) c.tables.signups) ∷ [];
      };
    },
  )

  -- The table has a unique index on the info and the user: a second signup is no error, but `false`.
  unfoldable pub new_commentator_signup : BracketRaceInfo → String → Method Connection E Bool
  unfolding select add_signup is_signup
  new_commentator_signup info user = do
    taken ← select refusal (λ t. any (is_signup info user) t.signups)
    add_signup info user taken

  -- how many signups were deleted
  unfoldable pub remove_commentator : BracketRaceInfo → String → Method Connection E ℕ
  unfolding insert is_signup
  remove_commentator info user =
      insert refusal (λ t. length (filter (is_signup info user) t.signups))
        (λ n t. record t { signups = filter (λ x. not (is_signup info user x)) t.signups })

  unfoldable pub commentator_signups :
      BracketRaceInfo → Method Connection E (List CommentatorSignup)
  unfolding select
  commentator_signups info =
      select refusal (λ t. filter (λ x. x.bracket_race_info_id == info.id) t.signups)

-- `&mut BracketRace` and the connection
pub record RaceSession : Type 0 where
  pub race : BracketRace
  pub conn : Connection

abbrev pub set_conn : Connection → RaceSession → RaceSession
set_conn c s = record s { conn = c }

abbrev pub db :
    {A : Type 0}
    → Method Connection BracketRaceStateError A
    → Method RaceSession BracketRaceStateError A
db = on_conn (λ s. s.conn) set_conn

abbrev pub on_race :
    {A : Type 0}
    → Method BracketRace BracketRaceStateError A
    → Method RaceSession BracketRaceStateError A
on_race m s = let (r, race) = m s.race in (r, record s { race = race })

module _ (json : RaceJson) where
  abbrev pub refuse_finished : BracketRaceState → Method RaceSession BracketRaceStateError Unit
  refuse_finished BracketRaceState.finished = throw (invalid_state BracketRaceState.finished)
  refuse_finished _ = pure tt

  save_race : Method RaceSession BracketRaceStateError Unit
  unfolding write
  save_race s = db (write database_error (λ t. record t { races = update_race s.race t.races })) s

  -- `schedule`, once the race's info is known: the infos before and after
  unfoldable pub reschedule :
      ℕ
      → BracketRaceInfo
      → Method RaceSession BracketRaceStateError (BracketRaceInfo × BracketRaceInfo)
  unfolding set_state schedule_info update_info save_race transaction_on
  reschedule at prior = do
    info ← db (schedule_info database_error prior at)
    on_race (set_state json BracketRaceState.scheduled)
    transaction_on (λ s. s.conn) set_conn database_error
        (do db (update_info database_error info); save_race)
    pure (prior, info)

  unfoldable pub schedule :
      ℕ → Method RaceSession BracketRaceStateError (BracketRaceInfo × BracketRaceInfo)
  unfolding state
  schedule at = do
    now ← on_race (λ r. (state json r, r))
    refuse_finished now
    race ← gets (λ s. s.race)
    prior ← db (get_or_create_for_bracket database_error race)
    reschedule at prior
