-- ===== src/Reactions/Effects.antt =====
-- What a reaction can change.
use nmg_league_bot.Base.{
  ◌≡◌, refl, ◌∙◌, String, Option, none, some, true, false, [], ◌∷◌, Method, any, arith, ◌⊎◌, inl,
  inr, ◌++◌, subst, sym,
}
use nmg_league_bot.Base.Methods.{◌>>=◌}
use nmg_league_bot.Base.Triples.{after, bind-After, same-After, weaken, Keeps}
use nmg_league_bot.Tables.{BracketRaceInfo, Connection, Tables, first_where, next_id, write}
use nmg_league_bot.RaceInfo.{
  update_info, update_infos, new_commentator_signup, is_signup, new_signup,
}
use nmg_league_bot.RaceInfo.Queries.{race, players, is_message}
use nmg_league_bot.Reactions.Reads.{
  of_conn, race-Keeps, players-Keeps, embeds-Keeps, comms-Keeps, fresh-Keeps,
}
use nmg_league_bot.Reactions.{
  ReactionAdd, ReactionAddError, database_error, not_found, Discord, race_to_nice_embeds,
  emoji_to_restream_channel, comm_ids_and_names, confirmed, handle_commentary_confirmation,
  post_if_fresh, handle_commentary_signup, assigned, assign, handle_restream_request_reaction,
  restream_request, channel_url,
}

-- what the schedule of a race is
abbrev pub SameSchedule : BracketRaceInfo → BracketRaceInfo → Type 0
SameSchedule i j =
    (j.id ≡ i.id)
    × (j.bracket_race_id ≡ i.bracket_race_id)
    × (j.scheduled_for ≡ i.scheduled_for)
    × (j.racetime_gg_url ≡ i.racetime_gg_url)

module _ (discord : Discord) (r : ReactionAdd) (t : Tables) where
  -- the info whose call for commentators, or for a channel, has the reaction
  abbrev pub announced : Option BracketRaceInfo
  announced = first_where (λ i. is_message r.message_id i.commportunities_message_id) t.infos

  abbrev pub requested : Option BracketRaceInfo
  requested = first_where (λ i. is_message r.message_id i.restream_request_message_id) t.infos

  abbrev pub ByAdmin : Type 0
  ByAdmin = (g : String) × (r.guild_id ≡ some g) × (discord.has_admin_role r.user_id g ≡ some true)

  abbrev pub SignedUp : Tables → Type 0
  SignedUp d =
      (i : BracketRaceInfo) × (announced ≡ some i)
      × (any (is_signup i r.user_id) t.signups ≡ false)
      × (d ≡ record t {
        signups = t.signups ++ new_signup i r.user_id (next_id (λ x. x.id) t.signups) ∷ [];
      })

  abbrev pub Confirmed : Tables → Type 0
  Confirmed d =
      (i : BracketRaceInfo) × (j : BracketRaceInfo) × (announced ≡ some i)
      × ByAdmin
      × SameSchedule i j
      × (j.restream_channel ≡ i.restream_channel)
      × (d ≡ record t { infos = update_infos j t.infos })

  abbrev pub Assigned : Tables → Type 0
  Assigned d =
      (i : BracketRaceInfo) × (j : BracketRaceInfo) × (chan : String) × (requested ≡ some i)
      × (emoji_to_restream_channel r.emoji ≡ some chan)
      × SameSchedule i j
      × (j.restream_channel ≡ some (channel_url chan))
      × (d ≡ record t { infos = update_infos j t.infos })

  -- Nothing is changed; or a first signup of the user for the race of the message is added; or an
  -- admin confirms, and the info of that race has new messages; or the info of the race whose
  -- request has the reaction has the channel of the emoji.
  abbrev pub Reacted : Tables → Type 0
  Reacted d = (d ≡ t) ⊎ (SignedUp d ⊎ (Confirmed d ⊎ Assigned d))

  abbrev pub Same : Connection → Type 0
  Same d = d.tables ≡ t

  -- a step that changes nothing, and what follows it
  pub read_then :
      {A B : Type 0} (m : Method Connection ReactionAddError A)
      (f : A → Method Connection ReactionAddError B) (c : Connection)
      → Keeps of_conn m
      → Same c
      → ((a : A) (d : Connection) → Same d → Reacted (f a d).1.tables)
      → Reacted ((m >>= f) c).1.tables
  read_then m f c keeps h k = after (
      bind-After (λ _. Same) m f c
        (weaken (λ d e. inl e) (same-After {I = Same} (m c) (keeps c ∙ h)))
        λ a d e. same-After {I = λ d. Reacted d.tables} (f a d) (k a d e))

  pub stored :
      (j : BracketRaceInfo) (c : Connection)
      → Same c
      → (Same (update_info {E = ReactionAddError} database_error j c).1)
        ⊎ ((update_info {E = ReactionAddError} database_error j c).1.tables
            ≡ record t { infos = update_infos j t.infos })
  unfolding update_info write
  stored j c h = ground arith

  pub confirmation_lem :
      (i : BracketRaceInfo) (c : Connection)
      → Same c
      → announced ≡ some i
      → ByAdmin
      → Reacted (handle_commentary_confirmation discord i c).1.tables
  unfolding handle_commentary_confirmation
  confirmation_lem i c h found admin =
      read_then (comm_ids_and_names discord i) _ c (comms-Keeps discord i) h λ names d e.
        read_then (race_to_nice_embeds i) _ d (embeds-Keeps i) e λ fields d e.
          elim (stored (confirmed discord i) d e) [
            | inl same ↦ inl same
            | inr k ↦ inr (
                inr (
                  inl (
                    i,
                    confirmed discord i,
                    found,
                    admin,
                    unfold confirmed in (refl, refl, refl, refl),
                    unfold confirmed in refl,
                    k,
                  )))
          ]

  signed_lem :
      (i : BracketRaceInfo) (c : Connection)
      → Same c
      → announced ≡ some i
      → Reacted
          (new_commentator_signup {E = ReactionAddError} database_error i r.user_id c).1.tables
  unfolding new_commentator_signup
  signed_lem i c h found = ground (arith, h, found)

  pub signup_lem :
      (i : BracketRaceInfo) (c : Connection)
      → Same c
      → announced ≡ some i
      → Reacted (handle_commentary_signup discord i r.user_id c).1.tables
  unfolding handle_commentary_signup
  signup_lem i c h found = after (
      bind-After (λ _ d. Reacted d.tables) (new_commentator_signup database_error i r.user_id)
        (post_if_fresh discord i) c
        (same-After {I = λ d. Reacted d.tables}
          (new_commentator_signup database_error i r.user_id c) (signed_lem i c h found))
        λ fresh d k.
          same-After {I = λ d. Reacted d.tables} (post_if_fresh discord i fresh d)
            (subst Reacted (sym (fresh-Keeps discord i fresh d)) k))

  pub assign_lem :
      (i : BracketRaceInfo) (c : Connection) (chan : Option String)
      → Same c
      → requested ≡ some i
      → emoji_to_restream_channel r.emoji ≡ chan
      → Reacted (assign discord i chan c).1.tables
  unfolding assign
  assign_lem i c none h found e = inl h
  assign_lem i c (some chan) h found e =
      read_then (comm_ids_and_names discord i) _ c (comms-Keeps discord i) h λ names d k.
        read_then (race_to_nice_embeds i) _ d (embeds-Keeps i) k λ fields d k.
          read_then (race database_error not_found i) _ d (race-Keeps i) k λ b d k.
            read_then (players database_error not_found b) _ d (players-Keeps b) k λ ps d k.
              elim (stored (assigned discord chan i) d k) [
                | inl same ↦ inl same
                | inr l ↦ inr (
                    inr (
                      inr (
                        i,
                        assigned discord chan i,
                        chan,
                        found,
                        e,
                        unfold assigned in (refl, refl, refl, refl),
                        unfold assigned in refl,
                        l,
                      )))
              ]

  pub assigned_lem :
      (c : Connection) (o : Option BracketRaceInfo)
      → Same c
      → requested ≡ o
      → Reacted (restream_request discord r o c).1.tables
  unfolding restream_request handle_restream_request_reaction
  assigned_lem c none h e = inl h
  assigned_lem c (some i) h e = assign_lem i c (emoji_to_restream_channel r.emoji) h e refl
