-- ===== src/Commands/Seasons.antt =====
-- The commands on seasons and brackets.
use nmg_league_bot.Base.{
  ℕ, String, Option, none, some, Bool, true, false, List, [], ◌∷◌, ◌++◌, ok, err, ok_or, Method,
  ◌==◌, if◌then◌else◌,
}
use nmg_league_bot.Base.Methods.{pure, lift, map_err, ◌>>=◌, ◌>>◌}
use nmg_league_bot.Tables.{
  Season, Bracket, Connection, select, write, insert, first_where, next_id, changed, update_bracket,
}
use nmg_league_bot.Bracket.{BracketType, BracketState, BracketError, PairingCrates, Session}
use nmg_league_bot.Bracket.Finishing.{finish}
use nmg_league_bot.Bracket.Generation.{generate_pairings}
use nmg_league_bot.Season.{
  SeasonError, SeasonJson, SeasonSession, set_state, create_season, get_active_season,
}
use nmg_league_bot.Commands.Options.{OptionValues, as_i32}
use nmg_league_bot.Commands.Requests.{
  CommandSession, Command, db, get_string, get_integer, parse_error, not_found, database_error,
  season_error, bracket_error,
}

-- `Season::update`: the finish time is skipped when it is `None`
unfoldable pub update_seasons : Season → List Season → List Season
update_seasons s [] = []
update_seasons s (x ∷ xs) =
    (if x.id == s.id then record s { finished = changed s.finished x.finished } else x)
    ∷ update_seasons s xs

-- what the handlers answer
pub data SeasonReply : Type 0 where
  update_successful bracket_created bracket_finished round_in_progress : SeasonReply
  pairings_generated : SeasonReply
  season_created : ℕ → SeasonReply

module _ {V : Type 0} where
  abbrev set_season_conn : Connection → CommandSession V → CommandSession V
  set_season_conn c s = record s { conn = c }

  -- a method of a season or a bracket that was loaded, which comes back with it
  unfoldable pub with_season :
      {A : Type 0} → Season → Method SeasonSession SeasonError A → Command V (A × Season)
  with_season season m s =
      let (r, x) = m (record { season = season; conn = s.conn }) in
      (
        elim r [ ok a ↦ ok (a, x.season) | err e ↦ err (season_error e) ],
        record s { conn = x.conn },
      )

  unfoldable pub with_bracket :
      {A : Type 0} → Bracket → Method Session BracketError A → Command V (A × Bracket)
  with_bracket bracket m s =
      let (r, x) = m (record { bracket = bracket; conn = s.conn }) in
      (
        elim r [ ok a ↦ ok (a, x.bracket) | err e ↦ err (bracket_error e) ],
        record s { conn = x.conn },
      )

  unfoldable pub get_by_ordinal : ℕ → Command V Season
  unfolding select
  get_by_ordinal n = do
    found ← db (select database_error (λ t. first_where (λ s. s.ordinal == n) t.seasons))
    lift (ok_or found not_found)

  unfoldable pub get_bracket_by_id : ℕ → Command V Bracket
  unfolding select
  get_bracket_by_id i = do
    found ← db (select database_error (λ t. first_where (λ b. b.id == i) t.brackets))
    lift (ok_or found not_found)

  unfoldable pub get_season_by_id : ℕ → Command V Season
  unfolding select
  get_season_by_id i = do
    found ← db (select database_error (λ t. first_where (λ s. s.id == i) t.seasons))
    lift (ok_or found not_found)

  unfoldable pub active_season : Command V Season
  unfolding get_active_season
  active_season = do
    found ← db (map_err (λ e. database_error) get_active_season)
    lift (ok_or found not_found)

  module _ (views : OptionValues V) (json : SeasonJson) (crates : PairingCrates) (now : ℕ) where
    unfoldable pub handle_set_season_state : Command V SeasonReply
    unfolding get_by_ordinal with_season set_state write update_seasons
    handle_set_season_state = do
      ordinal ← get_integer views "season_ordinal"
      raw ← get_string views "new_state"
      target ← lift (ok_or (json.season_json.from_str raw) parse_error)
      season ← get_by_ordinal (as_i32 ordinal)
      changed_season ← with_season season (set_state json crates now target)
      db (
          write database_error
            (λ t. record t { seasons = update_seasons changed_season.1 t.seasons }))
      pure update_successful

    unfoldable pub handle_create_season : Command V SeasonReply
    unfolding create_season
    handle_create_season = do
      format ← get_string views "format"
      category ← get_string views "rtgg_category_name"
      goal ← get_string views "rtgg_goal_name"
      s ← db (map_err season_error (create_season json crates now format category goal))
      pure (season_created s.ordinal)

    abbrev text_or_unknown : Option String → String
    text_or_unknown none = "Unknown"
    text_or_unknown (some t) = t

    -- `NewBracket::new` and `save`
    unfoldable pub save_bracket : Season → String → BracketType → Command V Bracket
    unfolding insert
    save_bracket season name kind = db (
        insert database_error
          (λ t. record {
            id = next_id (λ b. b.id) t.brackets;
            name = name;
            season_id = season.id;
            state = text_or_unknown (json.bracket_json.state_json.to_string BracketState.unstarted);
            bracket_type = text_or_unknown (json.bracket_json.type_json.to_string kind);
            backfill_note = none;
          })
          (λ row t. record t { brackets = t.brackets ++ row ∷ [] }))

    unfoldable pub handle_create_bracket : Command V SeasonReply
    unfolding active_season save_bracket
    handle_create_bracket = do
      name ← get_string views "name"
      kind ← get_string views "bracket_type"
      bt ← lift (ok_or (json.bracket_json.type_json.from_str kind) parse_error)
      season ← active_season
      save_bracket season name bt
      pure bracket_created

    abbrev store_finished : Bool × Bracket → Command V SeasonReply
    unfolding write update_bracket
    store_finished (true, b) = do
      db (write database_error (λ t. record t { brackets = update_bracket b t.brackets }))
      pure bracket_finished
    store_finished (false, b) = pure round_in_progress

    unfoldable pub handle_finish_bracket : Command V SeasonReply
    unfolding get_bracket_by_id with_bracket finish write update_bracket
    handle_finish_bracket = do
      i ← get_integer views "bracket_id"
      bracket ← get_bracket_by_id (as_i32 i)
      finished ← with_bracket bracket (finish json.bracket_json crates)
      store_finished finished

    unfoldable pub handle_generate_pairings : Command V SeasonReply
    unfolding get_bracket_by_id get_season_by_id with_bracket generate_pairings
    handle_generate_pairings = do
      i ← get_integer views "bracket_id"
      bracket ← get_bracket_by_id (as_i32 i)
      get_season_by_id bracket.season_id
      with_bracket bracket (generate_pairings json.bracket_json crates)
      pure pairings_generated
