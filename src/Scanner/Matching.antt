-- ===== src/Scanner/Matching.antt =====
-- What `interesting_race` finds is a race of the league, whatever order the names come in.
use nmg_league_bot.Base.{
  ap, Option-cases, refl, subst, Bool-cases, inl, inr, ℕ, ◌≡◌, String, Option, none, some, true,
  false, List, [], ◌∷◌, str_eq, arith,
}
use nmg_league_bot.Base.Maps.{get, remove, get-remove}
use nmg_league_bot.Base.Texts.{to_lowercase}
use nmg_league_bot.Tables.{Season}
use nmg_league_bot.Scanner.{
  Candidate, Entrant, RacetimeRace, Crates, Match, Entrants, both, take_players, check_time,
  examine, look, is_old, interesting_race, by_name,
}

-- every entrant of one map is in the other
abbrev Within : Entrants → Entrants → Type 0
Within es all = (k : String) (e : Entrant) → get k es ≡ some e → get k all ≡ some e

Within-remove : (j : String) (es all : Entrants) → Within es all → Within (remove j es) all
Within-remove j es all h k e found = h k e (ground (arith, get-remove k j es))

-- The players of a candidate that is looked for, and that was scheduled at most 180 minutes after the
-- start, are among the entrants under their own names.
pub record Plays (candidates : List (String × Candidate)) (es : Entrants) (started : ℕ)
    (c : Candidate) (e1 e2 : Entrant) : Type 0 where
  pub key : String
  pub scheduled : ℕ
  pub name_1 : String
  pub name_2 : String
  pub looked_for : get key candidates ≡ some c
  pub has_schedule : c.info.scheduled_for ≡ some scheduled
  pub is_recent : is_old scheduled started ≡ false
  pub named_1 : c.player_1.racetime_username ≡ some name_1
  pub named_2 : c.player_2.racetime_username ≡ some name_2
  pub entered_1 : get (to_lowercase name_1) es ≡ some e1
  pub entered_2 : get (to_lowercase name_2) es ≡ some e2

module _ (candidates : List (String × Candidate)) (all : Entrants) (started : ℕ) where
  abbrev PlaysMatch : Match → Type 0
  PlaysMatch (c, e1, e2) = Plays candidates all started c e1 e2

  -- what is known of the rest of the search
  abbrev Searches : (Entrants → Option Match) → Type 0
  Searches next = (es : Entrants) (m : Match) → Within es all → next es ≡ some m → PlaysMatch m

  module _ (key : String) (c : Candidate) (es : Entrants) (next : Entrants → Option Match)
      (m : Match) (looked_for : get key candidates ≡ some c) (within : Within es all)
      (searches : Searches next) where
    both-Plays :
        (scheduled : ℕ) (u1 u2 : String) (o1 o2 : Option Entrant)
        → c.info.scheduled_for ≡ some scheduled
        → is_old scheduled started ≡ false
        → c.player_1.racetime_username ≡ some u1
        → c.player_2.racetime_username ≡ some u2
        → get (to_lowercase u1) es ≡ o1
        → get (to_lowercase u2) (remove (to_lowercase u1) es) ≡ o2
        → both c o1 o2 (next (remove (to_lowercase u2) (remove (to_lowercase u1) es))) ≡ some m
        → PlaysMatch m
    both-Plays scheduled u1 u2 (some e1) (some e2) hs r n1 n2 g1 g2 h =
        subst PlaysMatch (ap (λ o. elim o [ none ↦ (c, e1, e2) | some x ↦ x ]) h) (record {
          key = key;
          scheduled = scheduled;
          name_1 = u1;
          name_2 = u2;
          looked_for = looked_for;
          has_schedule = hs;
          is_recent = r;
          named_1 = n1;
          named_2 = n2;
          entered_1 = within (to_lowercase u1) e1 g1;
          entered_2 = Within-remove (to_lowercase u1) es all within (to_lowercase u2) e2 g2;
        })
    both-Plays scheduled u1 u2 (some e1) none hs r n1 n2 g1 g2 h =
        searches _ m
          (Within-remove (to_lowercase u2) _ all (Within-remove (to_lowercase u1) es all within)) h
    both-Plays scheduled u1 u2 none o2 hs r n1 n2 g1 g2 h =
        searches _ m
          (Within-remove (to_lowercase u2) _ all (Within-remove (to_lowercase u1) es all within)) h

    take_players-Plays :
        (scheduled : ℕ) (o1 o2 : Option String)
        → c.info.scheduled_for ≡ some scheduled
        → is_old scheduled started ≡ false
        → c.player_1.racetime_username ≡ o1
        → c.player_2.racetime_username ≡ o2
        → take_players c o1 o2 es next ≡ some m
        → PlaysMatch m
    take_players-Plays scheduled (some u1) (some u2) hs r n1 n2 h =
        both-Plays scheduled u1 u2 _ _ hs r n1 n2 refl refl h
    take_players-Plays scheduled (some u1) none hs r n1 n2 h = searches es m within h
    take_players-Plays scheduled none o2 hs r n1 n2 h = searches es m within h

    check_time-Plays :
        (o : Option ℕ)
        → c.info.scheduled_for ≡ o
        → check_time started c o es next ≡ some m
        → PlaysMatch m
    check_time-Plays none hs h = searches es m within h
    check_time-Plays (some scheduled) hs h = elim (Bool-cases (is_old scheduled started)) [
      | inl old ↦ searches es m within (rw old at h)
      | inr recent ↦ take_players-Plays scheduled _ _ hs recent refl refl (rw recent at h)
    ]

  examine-Plays :
      (key : String) (o : Option Candidate) (es : Entrants) (next : Entrants → Option Match)
      (m : Match)
      → get key candidates ≡ o
      → Within es all
      → Searches next
      → examine started o es next ≡ some m
      → PlaysMatch m
  examine-Plays key none es next m g within searches h = searches es m within h
  examine-Plays key (some c) es next m g within searches h =
      check_time-Plays key c es next m g within searches c.info.scheduled_for refl h

  look-Plays : (keys : List String) → Searches (look candidates started keys)
  unfolding look
  look-Plays [] es m within h = cc
  look-Plays (key ∷ keys) es m within h =
      examine-Plays key (get key candidates) es (look candidates started keys) m refl within
        (look-Plays keys) h

-- what a room says, and what its start is read as
abbrev pub Reads : Crates → List (String × Candidate) → Season → RacetimeRace → Match → Type 0
Reads crates candidates season race (c, e1, e2) =
    (str_eq race.goal_name season.rtgg_goal_name ≡ true)
    × (str_eq race.status "finished" ≡ true)
    × ((started : ℕ) × (crates.parse_date race.started_at ≡ some started)
        × Plays candidates (by_name race.entrants []) started c e1 e2)

-- If a room is found to be a race of the league: it has the season's goal and is finished; it is for a
-- race that is looked for and scheduled at most 180 minutes after the room's start; and the two
-- entrants have the names of its players.
pub interesting_race_lem :
    (crates : Crates) (candidates : List (String × Candidate)) (season : Season)
    (race : RacetimeRace) {m : Match}
    → interesting_race crates candidates season race ≡ some m
    → Reads crates candidates season race m
unfolding interesting_race
interesting_race_lem crates candidates season race {m} h =
    elim (Bool-cases (str_eq race.goal_name season.rtgg_goal_name)) [
      | inr g ↦ cc (rw g at h)
      | inl g ↦ elim (Bool-cases (str_eq race.status "finished")) [
        | inr d ↦ cc (rw (g, d) at h)
        | inl d ↦ elim (Option-cases (crates.parse_date race.started_at)) [
          | inl n ↦ cc (rw (g, d, n) at h)
          | inr (started, r) ↦ (
            g,
            d,
            (
              started,
              r,
              look-Plays candidates (by_name race.entrants []) started _ (by_name race.entrants [])
                  m (λ k e found. found) (rw (g, d, r) at h),
            ),
          )
        ]
      ]
    ]
