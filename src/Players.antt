-- ===== src/Players.antt =====
-- src/models/player.rs and src/models/player_bracket_entries.rs: the players of the league.
pub mod Registered
use nmg_league_bot.Base.{
  ℕ, String, Option, none, some, Bool, true, false, ◌&&◌, ◌||◌, not, List, [], ◌∷◌, ◌++◌, map,
  Method, ok, err, any, filter, ◌==◌, str_eq, if◌then◌else◌,
}
use nmg_league_bot.Base.Methods.{pure, ◌>>=◌, ◌>>◌}
use nmg_league_bot.Base.Texts.{to_lowercase}
use nmg_league_bot.Tables.{
  Bracket, Player, PlayerBracketEntry, Connection, Tables, statement, select, insert, next_id,
  first_where, changed,
}

-- `User` of the twilight crates, as far as it is read; the id is a text
pub record User : Type 0 where
  pub id : String
  pub name : String
  pub global_name : Option String

-- `NewPlayer`
pub record NewPlayer : Type 0 where
  pub name : String
  pub discord_id : String
  pub racetime_username : Option String
  pub twitch_user_login : Option String
  pub racetime_user_id : Option String

abbrev same_nocase : String → String → Bool
same_nocase a b = str_eq (to_lowercase a) (to_lowercase b)

-- NULLs are all different
abbrev same_column : Option String → Option String → Bool
same_column (some a) (some b) = same_nocase a b
same_column _ _ = false

abbrev same_exactly : Option String → Option String → Bool
same_exactly (some a) (some b) = str_eq a b
same_exactly _ _ = false

-- the columns of `players` that are UNIQUE, names without regard to case
unfoldable pub conflicts : NewPlayer → Player → Bool
conflicts n p =
    str_eq p.discord_id n.discord_id
    || same_nocase p.name n.name
    || same_column p.racetime_username n.racetime_username
    || same_column p.twitch_user_login n.twitch_user_login
    || same_exactly p.racetime_user_id n.racetime_user_id

abbrev pub row_of : NewPlayer → ℕ → Player
row_of n i = record {
  id = i;
  name = n.name;
  discord_id = n.discord_id;
  racetime_username = n.racetime_username;
  twitch_user_login = n.twitch_user_login;
  racetime_user_id = n.racetime_user_id;
}

-- AsChangeset skips a column that is `None`
abbrev changed_player : Player → Player → Player
changed_player p x = record p {
  racetime_username = changed p.racetime_username x.racetime_username;
  twitch_user_login = changed p.twitch_user_login x.twitch_user_login;
  racetime_user_id = changed p.racetime_user_id x.racetime_user_id;
}

unfoldable pub update_players : Player → List Player → List Player
update_players p [] = []
update_players p (x ∷ xs) = (if x.id == p.id then changed_player p x else x) ∷ update_players p xs

abbrev as_new : Player → NewPlayer
as_new p = record {
  name = p.name;
  discord_id = p.discord_id;
  racetime_username = p.racetime_username;
  twitch_user_login = p.twitch_user_login;
  racetime_user_id = p.racetime_user_id;
}

abbrev best_name : User → String
best_name u = elim u.global_name [ none ↦ u.name | some n ↦ n ]

abbrev pub new_user : User → NewPlayer
new_user u = record {
  name = best_name u;
  discord_id = u.id;
  racetime_username = none;
  twitch_user_login = none;
  racetime_user_id = none;
}

-- The map from ids to players has the last of several rows with one id; ids are a key here.
unfoldable pub by_id_rows : Option (List ℕ) → List Player → List (ℕ × Player)
unfolding filter
by_id_rows none ps = map (λ p. (p.id, p)) ps
by_id_rows (some ids) ps = map (λ p. (p.id, p)) (filter (λ p. any (λ i. i == p.id) ids) ps)

module _ {E : Type 0} (refusal : E) where
  -- `Player::by_id`
  unfoldable pub by_id : Option (List ℕ) → Method Connection E (List (ℕ × Player))
  unfolding select by_id_rows
  by_id ids = select refusal (λ t. by_id_rows ids t.players)

  unfoldable pub get_by_discord_id : String → Method Connection E (Option Player)
  unfolding select
  get_by_discord_id i = select refusal (λ t. first_where (λ p. str_eq p.discord_id i) t.players)

  unfoldable pub get_by_id : ℕ → Method Connection E (Option Player)
  unfolding select
  get_by_id i = select refusal (λ t. first_where (λ p. p.id == i) t.players)

  abbrev has_rtgg_id : String → Player → Bool
  has_rtgg_id i p = elim p.racetime_user_id [ none ↦ false | some r ↦ str_eq r i ]

  unfoldable pub get_by_rtgg_id : String → Method Connection E (Option Player)
  unfolding select
  get_by_rtgg_id i = select refusal (λ t. first_where (has_rtgg_id i) t.players)

  -- the column compares names without regard to case
  unfoldable pub get_by_name : String → Method Connection E (Option Player)
  unfolding select
  get_by_name n = select refusal (λ t. first_where (λ p. same_nocase p.name n) t.players)

  abbrev store_player : NewPlayer → Bool → Method Connection E Player
  store_player n true c = (err refusal, c)
  store_player n false c =
      let p = row_of n (next_id (λ x. x.id) c.tables.players) in
      (ok p, record c { tables = record c.tables { players = c.tables.players ++ p ∷ [] } })

  -- `NewPlayer::save`: a UNIQUE column that is taken makes the insertion an error
  unfoldable pub save : NewPlayer → Method Connection E Player
  unfolding select
  save n = do taken ← select refusal (λ t. any (conflicts n) t.players); store_player n taken

  abbrev write_player : Player → Bool → Method Connection E Unit
  write_player p true c = (err refusal, c)
  write_player p false c =
      (ok tt, record c { tables = record c.tables { players = update_players p c.tables.players } })

  -- `update`, under the same UNIQUE columns of the other rows
  unfoldable pub update : Player → Method Connection E Unit
  unfolding select update_players
  update p = do
    taken ← select refusal (λ t. any (λ x. not (x.id == p.id) && conflicts (as_new p) x) t.players)
    write_player p taken

  abbrev existing_or_new : User → Option Player → Method Connection E (Player × Bool)
  unfolding save
  existing_or_new u (some p) = pure (p, false)
  existing_or_new u none = do p ← save (new_user u); pure (p, true)

  -- the player, and whether it was just created
  unfoldable pub get_or_create_from_discord_user : User → Method Connection E (Player × Bool)
  unfolding get_by_discord_id save
  get_or_create_from_discord_user u = do found ← get_by_discord_id u.id; existing_or_new u found

  -- `NewPlayerBracketEntry::new` and `save`
  unfoldable pub save_entry : Bracket → Player → Method Connection E PlayerBracketEntry
  unfolding insert
  save_entry b p =
      insert refusal
        (λ t. record { id = next_id (λ e. e.id) t.entries; bracket_id = b.id; player_id = p.id })
        (λ row t. record t { entries = t.entries ++ row ∷ [] })
