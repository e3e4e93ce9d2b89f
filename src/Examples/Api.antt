-- ===== src/Examples/Api.antt =====
-- A submission that is deleted while qualifiers are open.
use nmg_league_bot.Base.{[], ◌∷◌}
use nmg_league_bot.Tables.{QualifierSubmission, Tables}
use nmg_league_bot.Season.{SeasonState}
use nmg_league_bot.Api.{delete_qualifier}
use nmg_league_bot.Api.Deleting.{Deleted, delete_qualifier-Deleted}
use nmg_league_bot.Examples.Values.{season_json, crates, season_in, league, connected}

abbrev submission : QualifierSubmission
submission = record { id = 4; player_id = 1; season_id = 1; reported_time = 5025; vod_link = "vod" }

abbrev qualifying : Tables
qualifying = record league {
  seasons = season_in SeasonState.qualifiers_open ∷ [];
  qualifiers = submission ∷ [];
}

delete_qualifier-Deleted_example :
    Deleted season_json 4 qualifying
      (delete_qualifier season_json crates 500 4 (connected qualifying))
delete_qualifier-Deleted_example =
    delete_qualifier-Deleted season_json crates 500 4 (connected qualifying)
