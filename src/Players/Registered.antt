-- ===== src/Players/Registered.antt =====
-- A Discord user is registered once.
use text.Mathlib.TextPositions.{eq_refl}
use nmg_league_bot.Base.{
  inr, inl, Option-cases, ◌↔◌, ◌≡◌, String, none, some, Bool, true, false, List, [], ◌∷◌, ◌++◌, ok,
  arith, str_eq,
}
use nmg_league_bot.Tables.{Connection, Player, first_where, next_id}
use nmg_league_bot.Players.{new_user, User, row_of, get_or_create_from_discord_user}

abbrev pub has_id : String → Player → Bool
has_id i p = str_eq p.discord_id i

first_where-snoc :
    (i : String) (ps : List Player) (p : Player)
    → first_where (has_id i) ps ≡ none
    → str_eq p.discord_id i ≡ true
    → first_where (has_id i) (ps ++ p ∷ []) ≡ some p
unfolding first_where
first_where-snoc i [] p h k = ground (arith, k)
first_where-snoc i (x ∷ ps) p h k = ground (arith, h, k, first_where-snoc i ps p)

pub first_where-has :
    (i : String) (ps : List Player) {p : Player}
    → first_where (has_id i) ps ≡ some p
    → str_eq p.discord_id i ≡ true
unfolding first_where
first_where-has i [] h = cc
first_where-has i (x ∷ ps) {p} h = ground (arith, first_where-has i ps {p = p})

module _ {E : Type 0} (refusal : E) (u : User) (c : Connection) where
  -- When no statement is refused: what `get_or_create_from_discord_user` gives, if it succeeds, is a
  -- player with the user's id, created exactly if the table had none; and asking again gives the
  -- same player, not created, and changes nothing.
  pub get_or_create_from_discord_user_lem :
      {p : Player} {created : Bool}
      → c.refused ≡ []
      → (get_or_create_from_discord_user refusal u c).0 ≡ ok (p, created)
      → (str_eq p.discord_id u.id ≡ true)
        × ((first_where (has_id u.id) c.tables.players ≡ none) ↔ (created ≡ true))
        × (get_or_create_from_discord_user refusal u (get_or_create_from_discord_user refusal u c).1
            ≡ (ok (p, false), (get_or_create_from_discord_user refusal u c).1))
  unfolding get_or_create_from_discord_user
  get_or_create_from_discord_user_lem {p} {created} r h =
      elim (Option-cases (first_where (has_id u.id) c.tables.players)) [
        | inl absent ↦ ground (
          arith,
          eq_refl u.id,
          first_where-snoc u.id c.tables.players
              (row_of (new_user u) (next_id (λ x. x.id) c.tables.players)) absent (eq_refl u.id),
        )
        | inr (q, present) ↦ ground (arith, first_where-has u.id c.tables.players present)
      ]

-- However the database answers: the player that is given has the user's id.
pub get_or_create-id :
    {E : Type 0} (refusal : E) (u : User) (c : Connection) {a : Player × Bool}
    → (get_or_create_from_discord_user refusal u c).0 ≡ ok a
    → str_eq a.0.discord_id u.id ≡ true
unfolding get_or_create_from_discord_user
get_or_create-id refusal u c {a = a} h =
    ground (arith, eq_refl u.id, first_where-has u.id c.tables.players {p = a.0})
