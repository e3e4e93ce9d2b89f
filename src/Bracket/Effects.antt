-- ===== src/Bracket/Effects.antt =====
-- What `generate_pairings` does to the tables.
use nmg_league_bot.Base.{
  ℕ, All, length, ◌==◌, ok, filter, List, String, ◌≡◌, err, arith, ◌++◌, ◌∷◌, [], some,
}
use nmg_league_bot.Tables.{Player, next_id, update_bracket}
use nmg_league_bot.Pairing.RoundRobin.{Pair, pairings}
use nmg_league_bot.Pairing.Swiss.{pair_up}
use mathlib.Core.List.{reverse}
use nmg_league_bot.Bracket.{
  odd_player_count, swiss, BracketRound, entered_players, started, other, round_robin, unstarted,
  number_races, BracketType, Session, BracketError, PairingCrates, BracketJson,
}
use nmg_league_bot.Race.{BracketRace}
use nmg_league_bot.Pairing.RoundRobin.Complete.{meetings}
use nmg_league_bot.Pairing.Swiss.Matching.{appearances}
use nmg_league_bot.Bracket.Rows.{
  IsUnplayed, Numbered, rows_between, places, rows-IsUnplayed, rows-Numbered, length-rows,
  rows_between-rows, places-rows,
}
use nmg_league_bot.Bracket.Generation.{generate_pairings}

-- If `generate_pairings` fails, for whatever reason, the tables are as they were.
pub generate_pairings-atomic :
    (json : BracketJson) (crates : PairingCrates) (s : Session) {e : BracketError}
    → (generate_pairings json crates s).0 ≡ err e
    → (generate_pairings json crates s).1.conn.tables ≡ s.conn.tables
unfolding generate_pairings
generate_pairings-atomic json crates s h = ground arith

module _ (json : BracketJson) (crates : PairingCrates) where
  -- A bracket that is ready for its first round: it is unstarted, has no round, and the database
  -- refuses nothing.
  pub record IsReady (s : Session) (kind : BracketType) (text : String) : Type 0 where
    pub unrefused : s.conn.refused ≡ []
    pub is_unstarted : json.state_json.from_str s.bracket.state ≡ some unstarted
    pub is_kind : json.type_json.from_str s.bracket.bracket_type ≡ some kind
    pub no_round : filter (λ r. r.bracket_id == s.bracket.id) s.conn.tables.rounds ≡ []
    pub started_text : json.state_json.to_string started ≡ some text

  -- the row of the new round
  unfoldable pub new_round : Session → BracketRound
  unfolding next_id
  new_round s = record {
    id = next_id (λ r. r.id) s.conn.tables.rounds;
    round_num = 1;
    bracket_id = s.bracket.id;
  }

  -- the session after a first round with the given rows of races
  unfoldable pub first_round : Session → String → List BracketRace → Session
  unfolding new_round update_bracket
  first_round s text new =
      let b = record s.bracket { state = text } in
      let t = s.conn.tables in
      record {
        bracket = b;
        conn = record {
          tables = record t {
            rounds = t.rounds ++ new_round s ∷ [];
            races = t.races ++ new;
            brackets = update_bracket b t.brackets;
          };
          refused = [];
        };
      }

  -- the rows for the pairs that were found
  unfoldable pub rows_for : Session → List Pair → List BracketRace
  unfolding number_races next_id new_round
  rows_for s found =
      number_races json crates s.bracket (new_round s) (next_id (λ r. r.id) s.conn.tables.races)
        found

  pub round_robin_effect :
      (s : Session) (text : String) (found : List Pair)
      → IsReady s round_robin text
      → pairings other (entered_players s.bracket s.conn.tables) ≡ ok found
      → generate_pairings json crates s ≡ (ok tt, first_round s text (rows_for s found))
  unfolding generate_pairings first_round rows_for new_round
  round_robin_effect s text found r h = ground arith

  pub swiss_effect :
      (s : Session) (text : String) (found : List Pair)
      → IsReady s swiss text
      → pair_up (reverse (crates.shuffle (entered_players s.bracket s.conn.tables))) ≡ (found, [])
      → generate_pairings json crates s ≡ (ok tt, first_round s text (rows_for s found))
  unfolding generate_pairings first_round rows_for new_round
  swiss_effect s text found r h = ground arith

  -- rows of races that have not been run, with the next free ids
  pub record AreNew (s : Session) (new : List BracketRace) : Type 0 where
    pub unplayed : All (IsUnplayed json s.bracket (new_round s)) new
    pub numbered : Numbered (next_id (λ r. r.id) s.conn.tables.races) new

  pub rows_for-AreNew : (s : Session) (found : List Pair) → AreNew s (rows_for s found)
  unfolding rows_for
  rows_for-AreNew s found = record {
    unplayed =
        rows-IsUnplayed json crates s.bracket (new_round s)
          (next_id (λ r. r.id) s.conn.tables.races) found;
    numbered =
        rows-Numbered json crates s.bracket (new_round s) (next_id (λ r. r.id) s.conn.tables.races)
          found;
  }

  pub length-rows_for : (s : Session) (found : List Pair) → length (rows_for s found) ≡ length found
  unfolding rows_for
  length-rows_for s found = length-rows json crates s.bracket (new_round s) _ found

  pub rows_between-rows_for :
      (a b : ℕ) (s : Session) (found : List Pair)
      → rows_between a b (rows_for s found) ≡ meetings a b found
  unfolding rows_for
  rows_between-rows_for a b s found =
      rows_between-rows json crates s.bracket (new_round s) a b _ found

  pub places-rows_for :
      (i : ℕ) (s : Session) (found : List Pair) → places i (rows_for s found) ≡ appearances i found
  unfolding rows_for
  places-rows_for i s found = places-rows json crates s.bracket (new_round s) i _ found

  pub swiss_odd :
      (s : Session) (text : String) (found : List Pair) (p : Player) (left : List Player)
      → IsReady s swiss text
      → pair_up (reverse (crates.shuffle (entered_players s.bracket s.conn.tables)))
        ≡ (found, p ∷ left)
      → (generate_pairings json crates s).0 ≡ err odd_player_count
  unfolding generate_pairings
  swiss_odd s text found p left r h = ground arith
