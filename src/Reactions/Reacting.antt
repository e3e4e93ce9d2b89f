-- ===== src/Reactions/Reacting.antt =====
-- Everything that a reaction can change, by the message it is on.
use nmg_league_bot.Base.{
  ◌≡◌, refl, ap, ◌∙◌, String, Option, none, some, Bool, true, false, inl, sym, if◌then◌else◌,
}
use nmg_league_bot.Base.Methods.{◌>>=◌, pure}
use nmg_league_bot.Base.Triples.{map-After, after, bind-After, same-After, weaken}
use nmg_league_bot.Tables.{BracketRaceInfo, Connection, Tables, first_where}
use nmg_league_bot.Tables.Steps.{select-After}
use nmg_league_bot.RaceInfo.Queries.{
  is_message, get_by_commportunities_message_id, get_by_restream_request_message_id,
}
use nmg_league_bot.Reactions.{
  ReactionAdd, admin_answer, database_error, Discord, is_admin_confirmation_reaction,
  handle_commentary_confirmation, handle_commentary_signup, handle_commportunities_reaction,
  restream_request, by_member, interesting, is_self, handle_reaction_add,
}
use nmg_league_bot.Reactions.Effects.{
  announced, requested, ByAdmin, Same, Reacted, confirmation_lem, assigned_lem, signup_lem,
  assigned_lem,
}

module _ (discord : Discord) (r : ReactionAdd) (t : Tables) where
  answer_lem : (a : Option Bool) → admin_answer discord r.emoji a ≡ true → a ≡ some true
  answer_lem none h = cc
  answer_lem (some false) h = cc
  answer_lem (some true) h = refl

  guild_lem :
      (o : Option String)
      → r.guild_id ≡ o
      → (elim o [
        | none ↦ false
        | some gid ↦ admin_answer discord r.emoji (discord.has_admin_role r.user_id gid)
      ])
        ≡ true
      → ByAdmin discord r t
  guild_lem none e h = cc
  guild_lem (some g) e h = (g, e, answer_lem (discord.has_admin_role r.user_id g) h)

  by_admin : is_admin_confirmation_reaction discord r ≡ true → ByAdmin discord r t
  unfolding is_admin_confirmation_reaction
  by_admin h = guild_lem r.guild_id refl h

  commportunities_lem :
      (i : BracketRaceInfo) (c : Connection) (admin : Bool)
      → Same discord r t c
      → announced discord r t ≡ some i
      → is_admin_confirmation_reaction discord r ≡ admin
      → Reacted discord r t
          ((if admin
              then handle_commentary_confirmation discord i
              else handle_commentary_signup discord i r.user_id)
            c).1.tables
  commportunities_lem i c true h found e = confirmation_lem discord r t i c h found (by_admin e)
  commportunities_lem i c false h found e = signup_lem discord r t i c h found

  interesting_lem :
      (c : Connection) (o : Option BracketRaceInfo)
      → Same discord r t c
      → announced discord r t ≡ o
      → Reacted discord r t (interesting discord r o c).1.tables
  unfolding interesting handle_commportunities_reaction get_by_restream_request_message_id
  interesting_lem c (some i) h e =
      commportunities_lem i c (is_admin_confirmation_reaction discord r) h e refl
  interesting_lem c none h e = after (
      bind-After (λ o d. Same discord r t d × (o ≡ requested discord r t))
        (get_by_restream_request_message_id database_error r.message_id)
        (restream_request discord r) c
        (weaken (λ d k. inl k)
          (map-After
            (λ o d k. (
              k.0,
              k.1
                  ∙ ap
                      (λ x.
                        first_where (λ i. is_message r.message_id i.restream_request_message_id)
                          x.infos)
                      k.0,
            ))
            (select-After database_error
              (λ x.
                first_where (λ i. is_message r.message_id i.restream_request_message_id) x.infos)
              c (λ x. x ≡ t) h)))
        λ o d k.
          same-After {I = λ d. Reacted discord r t d.tables} (restream_request discord r o d)
            (assigned_lem discord r t d o k.0 (sym k.1)))

-- Whatever the reaction is, and however Discord and the database answer: `handle_reaction_add`
-- changes no table; or it adds a signup of the user, who had none, for the race of the message; or
-- the user is an admin, and only the info of the race of the message is stored, with the same
-- schedule and channel; or the message asks for a channel, and only its race's info is stored,
-- with the same schedule and the channel of the emoji.
pub handle_reaction_add-Reacted :
    (discord : Discord) (r : ReactionAdd) (c : Connection)
    → Reacted discord r c.tables (handle_reaction_add discord r c).1.tables
unfolding handle_reaction_add by_member get_by_commportunities_message_id
handle_reaction_add-Reacted discord r c = member_lem r.member
  where
    found_lem :
        (b : Bool)
        → Reacted discord r c.tables
            ((if b then pure tt else (do
              found ← get_by_commportunities_message_id database_error r.message_id
              interesting discord r found))
              c).1.tables
    found_lem true = inl refl
    found_lem false = after (
        bind-After (λ o d. Same discord r c.tables d × (o ≡ announced discord r c.tables))
          (get_by_commportunities_message_id database_error r.message_id) (interesting discord r) c
          (weaken (λ d k. inl k)
            (map-After
              (λ o d k. (
                k.0,
                k.1
                    ∙ ap
                        (λ x.
                          first_where (λ i. is_message r.message_id i.commportunities_message_id)
                            x.infos)
                        k.0,
              ))
              (select-After database_error
                (λ x.
                  first_where (λ i. is_message r.message_id i.commportunities_message_id) x.infos)
                c (λ x. x ≡ c.tables) refl)))
          λ o d k.
            same-After {I = λ d. Reacted discord r c.tables d.tables} (interesting discord r o d)
              (interesting_lem discord r c.tables d o k.0 (sym k.1)))

    member_lem : (m : Option String) → Reacted discord r c.tables (by_member discord r m c).1.tables
    member_lem none = inl refl
    member_lem (some u) = found_lem (is_self discord discord.current_user u)
