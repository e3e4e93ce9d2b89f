-- ===== src/Season/Lookup.antt =====
-- Creating a season, and finding the season of a race.
use nmg_league_bot.Base.{
  ℕ, ◌<◌, ◌≤◌, ◌≡◌, ◌≢◌, refl, String, List, [], ◌∷◌, none, ok, err, All, arith,
}
use nmg_league_bot.Bracket.{PairingCrates}
use nmg_league_bot.Tables.{Season, BracketRaceInfo, Tables, Connection}
use nmg_league_bot.Season.{
  not_found, SeasonJson, first_joined, highest_ordinal, get_from_bracket_race_info, create_season,
}

All-below :
    (n m : ℕ) (ss : List Season) → n ≤ m → All (λ s. s.ordinal ≤ n) ss → All (λ s. s.ordinal ≤ m) ss
All-below n m [] h k = tt
All-below n m (s ∷ ss) h k = (omega arith, All-below n m ss h k.1)

highest_ordinal_lem : (ss : List Season) → All (λ s. s.ordinal ≤ highest_ordinal ss) ss
unfolding highest_ordinal
highest_ordinal_lem [] = tt
highest_ordinal_lem (s ∷ ss) =
    (omega arith, All-below (highest_ordinal ss) _ ss (omega arith) (highest_ordinal_lem ss))

below_suc :
    (n m : ℕ) (ss : List Season) → n < m → All (λ s. s.ordinal ≤ n) ss → All (λ s. s.ordinal < m) ss
below_suc n m [] h k = tt
below_suc n m (s ∷ ss) h k = (omega arith, below_suc n m ss h k.1)

created_above :
    (json : SeasonJson) (crates : PairingCrates) (now : ℕ) (format category goal : String)
    (c : Connection) {s : Season}
    → (create_season json crates now format category goal c).0 ≡ ok s
    → highest_ordinal c.tables.seasons < s.ordinal
unfolding create_season
created_above json crates now format category goal c h = ground arith

-- A created season has a higher ordinal than every season before it.
pub create_season-ordinal :
    (json : SeasonJson) (crates : PairingCrates) (now : ℕ) (format category goal : String)
    (c : Connection) {s : Season}
    → (create_season json crates now format category goal c).0 ≡ ok s
    → All (λ x. x.ordinal < s.ordinal) c.tables.seasons
create_season-ordinal json crates now format category goal c {s} h =
    below_suc (highest_ordinal c.tables.seasons) s.ordinal c.tables.seasons
      (created_above json crates now format category goal c h)
      (highest_ordinal_lem c.tables.seasons)

nothing_joined :
    (t : Tables) (i : ℕ) (infos : List BracketRaceInfo)
    → All (λ x. x.bracket_race_id ≢ i) infos
    → first_joined t i infos ≡ none
unfolding first_joined
nothing_joined t i [] h = refl
nothing_joined t i (x ∷ xs) h = ground (arith, nothing_joined t i xs)

-- The season of an info is looked up by its id in the column of race ids: if no statement is
-- refused and no info belongs to a race that has the info's own id as its id, nothing is found,
-- whatever race, bracket and season the info has.
pub get_from_bracket_race_info-misses :
    (bri : BracketRaceInfo) (c : Connection)
    → c.refused ≡ []
    → All (λ x. x.bracket_race_id ≢ bri.id) c.tables.infos
    → (get_from_bracket_race_info bri c).0 ≡ err not_found
unfolding get_from_bracket_race_info
get_from_bracket_race_info-misses bri c r h =
    ground (arith, nothing_joined c.tables bri.id c.tables.infos h)
