-- ===== src/RaceInfo/Queries.antt =====
-- The queries of src/models/bracket_races.rs, and those of src/models/bracket_race_infos.rs for infos.
use Prim.Native.String.{◌++◌}
use nmg_league_bot.Base.{
  String, Bool, false, ℕ, Option, none, some, not, ◌&&◌, List, ok_or, Method, filter, ◌==◌, str_eq,
}
use nmg_league_bot.Base.Methods.{lift, pure, ◌>>=◌}
use nmg_league_bot.Race.{BracketRace, BracketRaceState, RaceJson, involves_player}
use nmg_league_bot.Tables.{
  Bracket, BracketRaceInfo, Player, Tables, Connection, select, first_where,
}
use nmg_league_bot.RaceInfo.{get_or_create_for_bracket}

-- the rows of the two ids, taken out of a map by id: a race of a player with itself has no second
unfoldable pub players_of_race : BracketRace → Tables → Option (Player × Player)
players_of_race r t = elim (first_where (λ p. p.id == r.player_1_id) t.players) [
  | none ↦ none
  | some p1 ↦
      elim (first_where (λ p. not (p.id == r.player_1_id) && p.id == r.player_2_id) t.players) [
        | none ↦ none
        | some p2 ↦ some (p1, p2)
      ]
]

abbrev pub is_message : String → Option String → Bool
is_message mid none = false
is_message mid (some x) = str_eq x mid

module _ {E : Type 0} (refusal : E) where
  -- `missing` is `NotFound`
  unfoldable pub get_by_id : E → ℕ → Method Connection E BracketRace
  unfolding select
  get_by_id missing i = do
    found ← select refusal (λ t. first_where (λ r. r.id == i) t.races)
    lift (ok_or found missing)

  unfoldable pub players : E → BracketRace → Method Connection E (Player × Player)
  unfolding select players_of_race
  players missing r = do found ← select refusal (players_of_race r); lift (ok_or found missing)

  -- `BracketRace::info`
  unfoldable pub info : BracketRace → Method Connection E BracketRaceInfo
  unfolding get_or_create_for_bracket
  info r = get_or_create_for_bracket refusal r

  unfoldable pub bracket : E → BracketRace → Method Connection E Bracket
  unfolding select
  bracket missing r = do
    found ← select refusal (λ t. first_where (λ b. b.id == r.bracket_id) t.brackets)
    lift (ok_or found missing)

  -- the names of the players
  unfoldable pub title : E → BracketRace → Method Connection E String
  unfolding players
  title missing r = do ps ← players missing r; pure (ps.0.name ++ " vs " ++ ps.1.name)

  unfoldable pub get_by_commportunities_message_id :
      String → Method Connection E (Option BracketRaceInfo)
  unfolding select
  get_by_commportunities_message_id mid =
      select refusal (λ t. first_where (λ i. is_message mid i.commportunities_message_id) t.infos)

  unfoldable pub get_by_restream_request_message_id :
      String → Method Connection E (Option BracketRaceInfo)
  unfolding select
  get_by_restream_request_message_id mid =
      select refusal (λ t. first_where (λ i. is_message mid i.restream_request_message_id) t.infos)

  -- `BracketRaceInfo::race`
  unfoldable pub race : E → BracketRaceInfo → Method Connection E BracketRace
  unfolding get_by_id
  race missing i = get_by_id missing i.bracket_race_id

  module _ (json : RaceJson) where
    abbrev in_state : BracketRaceState → Method Connection E (List BracketRace)
    unfolding select
    in_state st = do
      text ← lift (ok_or (json.state_json.to_string st) refusal)
      select refusal (λ t. filter (λ r. str_eq r.state text) t.races)

    unfoldable pub unscheduled : Method Connection E (List BracketRace)
    unfolding select
    unscheduled = in_state BracketRaceState.new

    unfoldable pub scheduled : Method Connection E (List BracketRace)
    unfolding select
    scheduled = in_state BracketRaceState.scheduled

    unfoldable pub get_unfinished_races_for_player : Player → Method Connection E (List BracketRace)
    unfolding select involves_player
    get_unfinished_races_for_player p = do
      text ← lift (ok_or (json.state_json.to_string BracketRaceState.finished) refusal)
      select refusal
          (λ t. filter (λ r. not (str_eq r.state text) && involves_player r p.id) t.races)
