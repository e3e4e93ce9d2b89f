-- ===== src/Commands/Dispatch/Admins.antt =====
-- The tables that only the commands of admins write, through scheduling and registering.
use nmg_league_bot.Base.{ℕ, refl, String, List, arith}
use nmg_league_bot.Base.Triples.{Keeps, bind-Keeps}
use nmg_league_bot.Runs.{AsyncRace, AsyncRaceRun}
use nmg_league_bot.Race.{BracketRace, BracketRaceState, RaceJson, state, database_error}
use nmg_league_bot.Tables.{
  Player, BracketRaceInfo, Tables, Connection, Season, Bracket, BracketRound, PlayerBracketEntry,
  GuildRaceCriteria,
}
use nmg_league_bot.RaceInfo
use nmg_league_bot.RaceInfo.{
  on_race, refuse_finished, RaceSession, schedule, reschedule, get_or_create_for_bracket,
  update_info,
}
use nmg_league_bot.RaceInfo.Queries.{get_unfinished_races_for_player}
use nmg_league_bot.Players
use nmg_league_bot.Players.{User, get_or_create_from_discord_user}

-- the tables that only the commands of admins, and the program itself, write
abbrev pub Admins : Type 0
Admins =
    List Season
    × List Bracket
    × List BracketRound
    × List PlayerBracketEntry
    × List AsyncRace
    × List AsyncRaceRun
    × List GuildRaceCriteria

abbrev pub of_admins : Tables → Admins
of_admins t = (t.seasons, t.brackets, t.rounds, t.entries, t.async_races, t.runs, t.criteria)

abbrev pub of_conn : Connection → Admins
of_conn c = of_admins c.tables

get_or_create-Keeps :
    (race : BracketRace) → Keeps of_conn (get_or_create_for_bracket database_error race)
unfolding get_or_create_for_bracket
get_or_create-Keeps race c = ground arith

reschedule-Keeps :
    (json : RaceJson) (at : ℕ) (first : BracketRaceInfo)
    → Keeps (λ t. of_conn t.conn) (reschedule json at first)
unfolding reschedule
reschedule-Keeps json at first t = ground arith

abbrev of_race : RaceSession → Admins
of_race s = of_conn s.conn

refuse-Keeps : (json : RaceJson) (st : BracketRaceState) → Keeps of_race (refuse_finished json st)
refuse-Keeps json BracketRaceState.new s = refl
refuse-Keeps json BracketRaceState.scheduled s = refl
refuse-Keeps json BracketRaceState.finished s = refl

pub schedule-Keeps : (json : RaceJson) (at : ℕ) → Keeps (λ s. of_conn s.conn) (schedule json at)
unfolding schedule
schedule-Keeps json at =
    bind-Keeps of_race (on_race (λ r. (state json r, r))) _ (λ s. refl)
      λ st. bind-Keeps of_race (refuse_finished json st) _ (refuse-Keeps json st) λ _ s.
        bind-Keeps of_race (RaceInfo.db (get_or_create_for_bracket database_error s.race))
          (reschedule json at) (λ t. get_or_create-Keeps s.race t.conn)
          (λ prior. reschedule-Keeps json at prior) s

module _ {E : Type 0} (e : E) where
  pub player-Keeps : (i : ℕ) → Keeps of_conn (Players.get_by_id e i)
  unfolding Players.get_by_id
  player-Keeps i c = ground arith

  pub discord-Keeps : (i : String) → Keeps of_conn (Players.get_by_discord_id e i)
  unfolding Players.get_by_discord_id
  discord-Keeps i c = ground arith

  pub update_info-Keeps : (i : BracketRaceInfo) → Keeps of_conn (update_info e i)
  unfolding update_info
  update_info-Keeps i c = ground arith

  pub register-Keeps : (u : User) → Keeps of_conn (get_or_create_from_discord_user e u)
  unfolding get_or_create_from_discord_user
  register-Keeps u c = ground arith

  pub update-Keeps : (p : Player) → Keeps of_conn (Players.update e p)
  unfolding Players.update
  update-Keeps p c = ground arith

  pub unfinished-Keeps :
      (json : RaceJson) (p : Player) → Keeps of_conn (get_unfinished_races_for_player e json p)
  unfolding get_unfinished_races_for_player
  unfinished-Keeps json p c = ground arith
