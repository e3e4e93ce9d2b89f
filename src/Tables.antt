-- ===== src/Tables.antt =====
-- The tables of src/schema.rs that the models of src/models read and write, and a connection to
-- them. diesel and SQLite are not code of the repository: a connection is the rows of its tables,
-- and for the statements to come, whether the database refuses them. A refused statement changes
-- nothing and gives an error; a transaction that ends in an error puts the tables back.
pub mod Steps
use Prim.Native.Nat.{max}
use nmg_league_bot.Base.{
  ◌==◌, ℕ, ◌+◌, String, Option, none, some, Bool, true, false, List, [], ◌∷◌, Result, ok, err,
  Method, if◌then◌else◌,
}
use nmg_league_bot.Base.Methods.{pure, ◌>>=◌, ◌>>◌}
use nmg_league_bot.Race.{BracketRace}
use nmg_league_bot.Runs.{AsyncRace, AsyncRaceRun}

-- `Player` of src/models/player.rs
pub record Player : Type 0 where
  pub id : ℕ
  pub name : String
  pub discord_id : String
  pub racetime_username : Option String
  pub twitch_user_login : Option String
  pub racetime_user_id : Option String

-- `PlayerBracketEntry` of src/models/player_bracket_entries.rs
pub record PlayerBracketEntry : Type 0 where
  pub id : ℕ
  pub bracket_id : ℕ
  pub player_id : ℕ

-- `Season` of src/models/season.rs; `started` is when it was created
pub record Season : Type 0 where
  pub id : ℕ
  pub started : ℕ
  pub finished : Option ℕ
  pub format : String
  pub ordinal : ℕ
  pub state : String
  pub rtgg_category_name : String
  pub rtgg_goal_name : String

-- `Bracket` of src/models/brackets.rs
pub record Bracket : Type 0 where
  pub id : ℕ
  pub name : String
  pub season_id : ℕ
  pub state : String
  pub bracket_type : String
  pub backfill_note : Option String

-- `BracketRound` of src/models/bracket_rounds.rs
pub record BracketRound : Type 0 where
  pub id : ℕ
  pub round_num : ℕ
  pub bracket_id : ℕ

-- `BracketRaceInfo` of src/models/bracket_race_infos.rs
pub record BracketRaceInfo : Type 0 where
  pub id : ℕ
  pub bracket_race_id : ℕ
  pub scheduled_for : Option ℕ
  pub commportunities_message_id : Option String
  pub restream_request_message_id : Option String
  pub racetime_gg_url : Option String
  pub tentative_commentary_assignment_message_id : Option String
  pub commentary_assignment_message_id : Option String
  pub restream_channel : Option String

-- `CommentatorSignup` of src/models/bracket_race_infos.rs
pub record CommentatorSignup : Type 0 where
  pub id : ℕ
  pub bracket_race_info_id : ℕ
  pub discord_id : String

-- `QualifierSubmission` of src/models/qualifer_submission.rs
pub record QualifierSubmission : Type 0 where
  pub id : ℕ
  pub player_id : ℕ
  pub season_id : ℕ
  pub reported_time : ℕ
  pub vod_link : String

-- `GuildRaceCriteria` of src/models/guild_race_criteria.rs, with the text of the guild's id
pub record GuildRaceCriteria : Type 0 where
  pub id : ℕ
  pub guild_id : String
  pub player_id : Option ℕ
  pub restream_status : Option Bool

pub record Tables : Type 0 where
  pub players : List Player
  pub entries : List PlayerBracketEntry
  pub seasons : List Season
  pub brackets : List Bracket
  pub rounds : List BracketRound
  pub races : List BracketRace
  pub infos : List BracketRaceInfo
  pub signups : List CommentatorSignup
  pub async_races : List AsyncRace
  pub runs : List AsyncRaceRun
  pub qualifiers : List QualifierSubmission
  pub criteria : List GuildRaceCriteria

pub record Connection : Type 0 where
  pub tables : Tables
  -- what becomes of the statements to come: `true` is refused; past the end all are accepted
  pub refused : List Bool

abbrev next_outcome : {E : Type 0} → List Bool → E → Result E Unit × List Bool
next_outcome [] e = (ok tt, [])
next_outcome (true ∷ rest) e = (err e, rest)
next_outcome (false ∷ rest) e = (ok tt, rest)

-- one statement, with the error that its caller makes of a refusal
unfoldable pub statement : {E : Type 0} → E → Method Connection E Unit
statement e c = let (r, rest) = next_outcome c.refused e in (r, record c { refused = rest })

-- SELECT
unfoldable pub select : {E A : Type 0} → E → (Tables → A) → Method Connection E A
unfolding statement
select e f = do statement e; λ c. (ok (f c.tables), c)

-- INSERT, UPDATE, DELETE
unfoldable pub write : {E : Type 0} → E → (Tables → Tables) → Method Connection E Unit
unfolding statement
write e f = do statement e; λ c. (ok tt, record c { tables = f c.tables })

-- INSERT … RETURNING: the row, made from what the tables hold
unfoldable pub insert :
    {E A : Type 0} → E → (Tables → A) → (A → Tables → Tables) → Method Connection E A
unfolding statement
insert e row f = do
  statement e
  λ c. let r = row c.tables in (ok r, record c { tables = f r c.tables })

-- A transaction on a state that holds a connection: an error puts the tables back, and nothing else
-- of the state. BEGIN and COMMIT are statements too.
module _ {S : Type 0} (conn : S → Connection) (set_conn : Connection → S → S) where
  abbrev pub on_conn : {E A : Type 0} → Method Connection E A → Method S E A
  on_conn m s = let (r, c) = m (conn s) in (r, set_conn c s)

  abbrev roll_back : Tables → S → S
  roll_back before s = set_conn (record (conn s) { tables = before }) s

  abbrev end_transaction : {E A : Type 0} → Tables → Result E A × S → Result E A × S
  end_transaction before (ok a, s) = (ok a, s)
  end_transaction before (err e, s) = (err e, roll_back before s)

  -- `conn.transaction(m)`
  unfoldable pub transaction_on : {E A : Type 0} → E → Method S E A → Method S E A
  unfolding statement
  transaction_on e m s =
      end_transaction (conn s).tables
        ((do on_conn (statement e); a ← m; on_conn (statement e); pure a) s)

unfoldable pub transaction : {E A : Type 0} → E → Method Connection E A → Method Connection E A
unfolding transaction_on
transaction = transaction_on (λ c. c) (λ c _. c)

largest : {A : Type 0} → (A → ℕ) → List A → ℕ
largest f [] = 0
largest f (x ∷ xs) = max (f x) (largest f xs)

-- SQLite's rowid of an inserted row: one more than the largest
unfoldable pub next_id : {A : Type 0} → (A → ℕ) → List A → ℕ
unfolding largest
next_id f rows = largest f rows + 1

-- SELECT … WHERE: the rows are in the table's order
unfoldable pub first_where : {A : Type 0} → (A → Bool) → List A → Option A
first_where p [] = none
first_where p (x ∷ xs) = if p x then some x else first_where p xs

-- A changeset without `treat_none_as_null` skips a column that is `None`.
abbrev pub changed : {A : Type 0} → Option A → Option A → Option A
changed none old = old
changed (some a) old = some a

-- `Bracket::update`
unfoldable pub update_bracket : Bracket → List Bracket → List Bracket
update_bracket b [] = []
update_bracket b (x ∷ xs) =
    (if x.id == b.id
      then record b { backfill_note = changed b.backfill_note x.backfill_note }
      else x)
    ∷ update_bracket b xs

-- `BracketRace::update`
unfoldable pub update_race : BracketRace → List BracketRace → List BracketRace
update_race r [] = []
update_race r (x ∷ xs) =
    (if x.id == r.id
      then record r {
        async_race_id = changed r.async_race_id x.async_race_id;
        player_1_result = changed r.player_1_result x.player_1_result;
        player_2_result = changed r.player_2_result x.player_2_result;
        outcome = changed r.outcome x.outcome;
      }
      else x)
    ∷ update_race r xs
