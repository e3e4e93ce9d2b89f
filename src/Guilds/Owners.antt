-- ===== src/Guilds/Owners.antt =====
-- Criteria that stay with their guilds.
use nmg_league_bot.Guilds.{of_guild}
use text.Mathlib.TextEquality.{eq_iff}
use nmg_league_bot.Base.{
  ℕ, ◌≡◌, refl, String, some, false, not, ◌&&◌, List, [], ◌∷◌, ◌++◌, All, filter, arith, ◌==◌,
  str_eq,
}
use nmg_league_bot.Tables.{GuildRaceCriteria, first_where}
use nmg_league_bot.Guilds.{of_guild}

-- the criteria of another guild stay if one of this guild is added or deleted
pub filter-snoc :
    (g : String) (xs : List GuildRaceCriteria) (x : GuildRaceCriteria)
    → of_guild g x ≡ false
    → filter (of_guild g) (xs ++ x ∷ []) ≡ filter (of_guild g) xs
unfolding filter
filter-snoc g [] x h = ground (arith, h)
filter-snoc g (y ∷ xs) x h = ground (arith, filter-snoc g xs x h)

module _ (owner : ℕ → String) where
  -- the id of a criterion says which guild it belongs to
  abbrev pub Owned : List GuildRaceCriteria → Type 0
  Owned = All (λ x. owner x.id ≡ x.guild_id)

  pub filter-delete :
      (g : String) (i : ℕ) (xs : List GuildRaceCriteria)
      → Owned xs
      → str_eq (owner i) g ≡ false
      → filter (of_guild g) (filter (λ y. not (y.id == i)) xs) ≡ filter (of_guild g) xs
  unfolding filter
  filter-delete g i [] o h = refl
  filter-delete g i (y ∷ xs) o h = ground (arith, filter-delete g i xs)

  pub found-owner :
      (g : String) (i : ℕ) (xs : List GuildRaceCriteria) {x : GuildRaceCriteria}
      → Owned xs
      → first_where (λ x. x.id == i && of_guild g x) xs ≡ some x
      → owner x.id ≡ g
  unfolding first_where
  found-owner g i [] o h = cc
  found-owner g i (y ∷ xs) {x} o h = ground (arith, eq_iff y.guild_id g, found-owner g i xs {x = x})
