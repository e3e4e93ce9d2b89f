-- ===== src/RaceInfo/Rows.antt =====
-- What finding, inserting and updating infos and races does to the rows of the tables.
use nmg_league_bot.Base.{
  ℕ, ◌≡◌, refl, Option, none, some, Bool, true, false, not, ◌==◌, ◌⊎◌, List, [], ◌∷◌, ◌++◌, All,
  any, filter, arith, String, length, ap, suc,
}
use nmg_league_bot.Race.{BracketRace}
use nmg_league_bot.Tables.{BracketRaceInfo, first_where, update_race}
use nmg_league_bot.RaceInfo.{update_infos}

abbrev pub has_info : ℕ → List BracketRaceInfo → Bool
has_info i = any (λ x. x.id == i)

-- the rows with other ids
abbrev pub other_infos : ℕ → List BracketRaceInfo → List BracketRaceInfo
other_infos i = filter (λ x. not (x.id == i))

abbrev pub other_races : ℕ → List BracketRace → List BracketRace
other_races i = filter (λ x. not (x.id == i))

-- the rows of the race are in this state
abbrev pub AllIn : ℕ → String → List BracketRace → Type 0
AllIn i text = All (λ x. ((x.id == i) ≡ false) ⊎ (x.state ≡ text))

has_found :
    (race_id : ℕ) (xs : List BracketRaceInfo) {x : BracketRaceInfo}
    → first_where (λ i. i.bracket_race_id == race_id) xs ≡ some x
    → has_info x.id xs ≡ true
unfolding first_where
has_found race_id [] h = cc
has_found race_id (y ∷ ys) {x} h = ground (arith, has_found race_id ys {x = x})

abbrev pub HasFirst : Option BracketRaceInfo → List BracketRaceInfo → Type 0
HasFirst none xs = Unit
HasFirst (some x) xs = has_info x.id xs ≡ true

pub first-HasFirst :
    (race_id : ℕ) (xs : List BracketRaceInfo)
    → HasFirst (first_where (λ i. i.bracket_race_id == race_id) xs) xs
first-HasFirst race_id xs = go (first_where (λ i. i.bracket_race_id == race_id) xs) refl
  where
    go :
        (o : Option BracketRaceInfo)
        → first_where (λ i. i.bracket_race_id == race_id) xs ≡ o
        → HasFirst o xs
    go none h = tt
    go (some x) h = has_found race_id xs {x = x} h

pub has_last :
    (x : BracketRaceInfo) (xs : List BracketRaceInfo) → has_info x.id (xs ++ x ∷ []) ≡ true
has_last x [] = ground arith
has_last x (y ∷ ys) = ground (arith, has_last x ys)

pub other_last :
    (x : BracketRaceInfo) (xs : List BracketRaceInfo)
    → other_infos x.id (xs ++ x ∷ []) ≡ other_infos x.id xs
unfolding filter
other_last x [] = ground arith
other_last x (y ∷ ys) = ground (arith, other_last x ys)

pub first_updated :
    (x : BracketRaceInfo) (xs : List BracketRaceInfo)
    → has_info x.id xs ≡ true
    → first_where (λ i. i.id == x.id) (update_infos x xs) ≡ some x
unfolding first_where update_infos
first_updated x [] h = cc
first_updated x (y ∷ ys) h = ground (arith, first_updated x ys)

pub other_updated :
    (x : BracketRaceInfo) (xs : List BracketRaceInfo)
    → other_infos x.id (update_infos x xs) ≡ other_infos x.id xs
unfolding filter update_infos
other_updated x [] = refl
other_updated x (y ∷ ys) = ground (arith, other_updated x ys)

pub race_updated : (r : BracketRace) (xs : List BracketRace) → AllIn r.id r.state (update_race r xs)
unfolding update_race
race_updated r [] = tt
race_updated r (y ∷ ys) = ground (arith, race_updated r ys)

pub other_races_updated :
    (r : BracketRace) (xs : List BracketRace)
    → other_races r.id (update_race r xs) ≡ other_races r.id xs
unfolding filter update_race
other_races_updated r [] = refl
other_races_updated r (y ∷ ys) = ground (arith, other_races_updated r ys)

pub length-update_race :
    (r : BracketRace) (xs : List BracketRace) → length (update_race r xs) ≡ length xs
unfolding update_race
length-update_race r [] = refl
length-update_race r (y ∷ ys) = ap suc (length-update_race r ys)
