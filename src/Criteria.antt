-- ===== src/Criteria.antt =====
-- src/models/guild_race_criteria.rs: which races a guild wants to hear of.
use nmg_league_bot.Base.{
  is_some, ap, ◌∙◌, ℕ, ◌≡◌, refl, String, Option, none, some, Bool, true, false, not, ◌&&◌, ◌||◌,
  List, [], ◌∷◌, ◌++◌, any, filter, ◌==◌, str_eq, eq_iff, arith, if◌then◌else◌,
}
use nmg_league_bot.Race.{BracketRace}
use nmg_league_bot.Tables.{BracketRaceInfo, Player, GuildRaceCriteria}

pub data RestreamStatusCriterion : Type 0 where
  has_restream has_no_restream any_status : RestreamStatusCriterion

abbrev same : Bool → Bool → Bool
same true b = b
same false b = not b

abbrev passes_player : Option ℕ → BracketRace → Bool
passes_player none race = true
passes_player (some pid) race = race.player_1_id == pid || race.player_2_id == pid

abbrev passes_restream : Option Bool → BracketRaceInfo → Bool
passes_restream none bri = true
passes_restream (some st) bri = same st (is_some bri.restream_channel)

-- `GuildRaceCriteria::race_is_interesting`
unfoldable pub matches : BracketRace → BracketRaceInfo → GuildRaceCriteria → Bool
matches race bri f = passes_player f.player_id race && passes_restream f.restream_status bri

-- `GuildCriteria::race_is_interesting`
unfoldable pub race_is_interesting : BracketRace → BracketRaceInfo → List GuildRaceCriteria → Bool
unfolding matches
race_is_interesting race bri criteria = any (matches race bri) criteria

abbrev status_of : RestreamStatusCriterion → Option Bool
status_of has_restream = some true
status_of has_no_restream = some false
status_of any_status = none

abbrev player_id_of : Option Player → Option ℕ
player_id_of none = none
player_id_of (some p) = some p.id

-- `NewGuildRaceCriteria::new`, as the row with its id
unfoldable pub new_criteria :
    ℕ → String → Option Player → RestreamStatusCriterion → GuildRaceCriteria
new_criteria i gid player status = record {
  id = i;
  guild_id = gid;
  player_id = player_id_of player;
  restream_status = status_of status;
}

abbrev Groups : Type 0
Groups = List (String × List GuildRaceCriteria)

-- the map from each guild to nothing
unfoldable pub empty_groups : List String → Groups
empty_groups [] = []
empty_groups (g ∷ gs) =
    let rest = empty_groups gs in if any (λ x. str_eq x.0 g) rest then rest else (g, []) ∷ rest

-- `entry(gid).or_insert(vec![]).push(f)`
unfoldable pub push : GuildRaceCriteria → Groups → Groups
push f [] = (f.guild_id, f ∷ []) ∷ []
push f ((g, fs) ∷ rest) =
    let later = push f rest in
    if str_eq g f.guild_id then (g, fs ++ f ∷ []) ∷ rest else (g, fs) ∷ later

unfoldable pub push_all : List GuildRaceCriteria → Groups → Groups
unfolding push
push_all [] m = m
push_all (f ∷ fs) m = push_all fs (push f m)

-- `race_criteria_by_guild_id` on the rows of the table; a row whose guild id cannot be parsed is not
-- among those that are asked for
unfoldable pub race_criteria_by_guild_id : List String → List GuildRaceCriteria → Groups
unfolding push_all empty_groups
race_criteria_by_guild_id ids rows =
    push_all (filter (λ f. any (λ g. str_eq g f.guild_id) ids) rows) (empty_groups ids)

unfoldable pub criteria_of : String → Groups → List GuildRaceCriteria
criteria_of g [] = []
criteria_of g ((h, fs) ∷ rest) = let later = criteria_of g rest in if str_eq h g then fs else later

criteria_of-push :
    (g : String) (f : GuildRaceCriteria) (m : Groups)
    → criteria_of g (push f m)
      ≡ (if str_eq f.guild_id g then criteria_of g m ++ f ∷ [] else criteria_of g m)
unfolding criteria_of push
criteria_of-push g f [] = ground (arith, eq_iff f.guild_id g)
criteria_of-push g f ((h, fs) ∷ m) =
    ground (arith, eq_iff f.guild_id g, eq_iff h g, eq_iff h f.guild_id, criteria_of-push g f m)

any-snoc :
    (race : BracketRace) (bri : BracketRaceInfo) (fs : List GuildRaceCriteria)
    (f : GuildRaceCriteria)
    → race_is_interesting race bri (fs ++ f ∷ [])
      ≡ (race_is_interesting race bri fs || matches race bri f)
unfolding race_is_interesting
any-snoc race bri [] f = ground arith
any-snoc race bri (x ∷ fs) f = ground (arith, any-snoc race bri fs f)

-- a stored criterion of the guild that the race matches
abbrev pub wants : String → BracketRace → BracketRaceInfo → List GuildRaceCriteria → Bool
wants g race bri rows = any (λ f. str_eq f.guild_id g && matches race bri f) rows

push_all_lem :
    (g : String) (race : BracketRace) (bri : BracketRaceInfo) (fs : List GuildRaceCriteria)
    (m : Groups)
    → race_is_interesting race bri (criteria_of g (push_all fs m))
      ≡ (race_is_interesting race bri (criteria_of g m) || wants g race bri fs)
unfolding push_all
push_all_lem g race bri [] m = ground arith
push_all_lem g race bri (f ∷ fs) m = ground (
  arith,
  push_all_lem g race bri fs (push f m),
  criteria_of-push g f m,
  any-snoc race bri (criteria_of g m) f,
)

criteria_of-empty : (g : String) (ids : List String) → criteria_of g (empty_groups ids) ≡ []
unfolding criteria_of empty_groups
criteria_of-empty g [] = refl
criteria_of-empty g (h ∷ ids) = ground (arith, criteria_of-empty g ids)

asked_same :
    (a g : String) (ids : List String)
    → str_eq a g ≡ true
    → any (λ h. str_eq h a) ids ≡ any (λ h. str_eq h g) ids
asked_same a g ids e = ap (λ x. any (λ h. str_eq h x) ids) ((eq_iff a g).0 e)

wants-filter :
    (g : String) (race : BracketRace) (bri : BracketRaceInfo) (ids : List String)
    (rows : List GuildRaceCriteria)
    → any (λ h. str_eq h g) ids ≡ true
    → wants g race bri (filter (λ f. any (λ h. str_eq h f.guild_id) ids) rows)
      ≡ wants g race bri rows
unfolding filter
wants-filter g race bri ids [] h = refl
wants-filter g race bri ids (f ∷ rows) h =
    ground (arith, wants-filter g race bri ids rows h, asked_same f.guild_id g ids, h)

-- For a guild that is asked for: the grouped criteria find a race interesting exactly if one of the
-- guild's rows in the table matches it.
pub race_criteria_by_guild_id_lem :
    (g : String) (race : BracketRace) (bri : BracketRaceInfo) (ids : List String)
    (rows : List GuildRaceCriteria)
    → any (λ h. str_eq h g) ids ≡ true
    → race_is_interesting race bri (criteria_of g (race_criteria_by_guild_id ids rows))
      ≡ wants g race bri rows
unfolding race_criteria_by_guild_id
race_criteria_by_guild_id_lem g race bri ids rows h =
    push_all_lem g race bri (filter (λ f. any (λ x. str_eq x f.guild_id) ids) rows)
      (empty_groups ids)
    ∙ rw (criteria_of-empty g ids)
        (unfold race_is_interesting in wants-filter g race bri ids rows h)
