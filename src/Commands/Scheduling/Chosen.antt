-- ===== src/Commands/Scheduling/Chosen.antt =====
-- Which race the scheduling commands change.
use mathlib.Core.List.{Memᴰ}
use mathlib.Core.List.Memᴰ.{head, tail}
use mathlib.Core.Option.{some-injective}
use nmg_league_bot.Base.{
  sym, subst, ap, ◌∙◌, keep_if, if◌then◌else◌, ◌≡◌, refl, Option, none, some, Bool, true, false,
  List, [], ◌∷◌, Result, ok, err, filter,
}
use nmg_league_bot.Race.{BracketRace, involves_player}
use nmg_league_bot.Tables.{Player}
use nmg_league_bot.Commands.Scheduling.{
  other_opponent, none_against, choose_race, find_matching_race,
}

pub mem-filter :
    {A : Type 0} (p : A → Bool) (xs : List A) {x : A}
    → Memᴰ x (filter p xs)
    → Memᴰ x xs × (p x ≡ true)
unfolding filter
mem-filter p [] h = elim h [ ]
mem-filter p (y ∷ xs) {x = x} h = go (p y) refl (λ m. mem-filter p xs m) h
  where
    go :
        (b : Bool)
        → p y ≡ b
        → (Memᴰ x (filter p xs) → Memᴰ x xs × (p x ≡ true))
        → Memᴰ x (keep_if b y (filter p xs))
        → Memᴰ x (y ∷ xs) × (p x ≡ true)
    go true e ih (head same) = (head same, ap p same ∙ e)
    go true e ih (tail later) = let (m, k) = ih later in (tail m, k)
    go false e ih later = let (m, k) = ih later in (tail m, k)

-- a race involves the opponent if one is named
abbrev pub Against : Option Player → BracketRace → Type 0
Against none r = Unit
Against (some opp) r = involves_player r opp.id ≡ true

pub find_matching_race_lem :
    (opp : Player) (races : List BracketRace) {r : BracketRace}
    → find_matching_race opp races ≡ some r
    → Memᴰ r races × (involves_player r opp.id ≡ true)
unfolding find_matching_race
find_matching_race_lem opp [] h = cc
find_matching_race_lem opp (x ∷ races) {r = r} h =
    go (involves_player x opp.id) refl (λ k. find_matching_race_lem opp races k) h
  where
    go :
        (b : Bool)
        → involves_player x opp.id ≡ b
        → (find_matching_race opp races ≡ some r → Memᴰ r races × (involves_player r opp.id ≡ true))
        → (if b then some x else find_matching_race opp races) ≡ some r
        → Memᴰ r (x ∷ races) × (involves_player r opp.id ≡ true)
    go true e ih h =
        let same = some-injective x r h in
        (head (sym same), subst (λ z. involves_player z opp.id ≡ true) same e)
    go false e ih h = let (m, k) = ih h in (tail m, k)

ok_same : {E A : Type 0} {x r : A} → ◌≡◌ {A = Result E A} (ok x) (ok r) → x ≡ r
ok_same {E} {A} {x} {r} h = ap (λ o. elim o [ ok a ↦ a | err e ↦ x ]) h

pub choose_race_lem :
    (races : List BracketRace) (opp : Option Player) {r : BracketRace}
    → choose_race races opp ≡ ok r
    → Memᴰ r races × Against opp r
unfolding choose_race
choose_race_lem [] opp h = cc
choose_race_lem (x ∷ []) none {r = r} h = (head (sym (ok_same h)), tt)
choose_race_lem (x ∷ []) (some opp) {r = r} h = go (involves_player x opp.id) refl h
  where
    go :
        (b : Bool)
        → involves_player x opp.id ≡ b
        → (if b then ok x else err other_opponent) ≡ ok r
        → Memᴰ r (x ∷ []) × (involves_player r opp.id ≡ true)
    go true e h =
        let same = ok_same h in
        (head (sym same), subst (λ z. involves_player z opp.id ≡ true) same e)
    go false e h = cc
choose_race_lem (x ∷ y ∷ races) none h = cc
choose_race_lem (x ∷ y ∷ races) (some opp) {r = r} h =
    go (find_matching_race opp (x ∷ y ∷ races)) refl h
  where
    go :
        (o : Option BracketRace)
        → find_matching_race opp (x ∷ y ∷ races) ≡ o
        → (elim o [ none ↦ err none_against | some z ↦ ok z ]) ≡ ok r
        → Memᴰ r (x ∷ y ∷ races) × (involves_player r opp.id ≡ true)
    go none e h = cc
    go (some z) e h = find_matching_race_lem opp (x ∷ y ∷ races) (e ∙ ap some (ok_same h))
