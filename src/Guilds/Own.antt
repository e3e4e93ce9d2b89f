-- ===== src/Guilds/Own.antt =====
-- A guild changes only its own criteria.
use nmg_league_bot.Guilds.{surrounded, limit, of_guild}
use nmg_league_bot.Base.{
  ℕ, ◌≡◌, refl, ap, sym, subst, ◌∙◌, String, Option, none, some, Bool, true, false, ◌&&◌, List,
  Bool-cases, inl, inr, Result, ok, err, filter, arith, ◌==◌, str_eq, if◌then◌else◌,
}
use nmg_league_bot.Base.Methods.{map_err, ◌>>=◌}
use nmg_league_bot.Base.Triples.{
  Keeps, bind-Keeps, After, after, bind-After, same-After, weaken, map-After,
}
use nmg_league_bot.Tables.{Player, GuildRaceCriteria, first_where, select, insert, write, next_id}
use nmg_league_bot.Tables.Steps.{select-tables, select-After}
use nmg_league_bot.Commands.Options.{
  CommandDataOption, OptionValues, OptionError, get_opt, string, get_focused_opt, missing_option,
  get_subcommand_options, unexpected_option_kind, no_subcommand,
}
use nmg_league_bot.Commands.Requests.{
  CommandSession, Command, db, on_options, get_string, get_integer, database_error, invalid_option,
}
use nmg_league_bot.Commands.Dispatch.{
  InteractionType, application_command, application_command_autocomplete, other,
}
use nmg_league_bot.Commands.Steps.{db-After}
use nmg_league_bot.Commands.Reports.{text_of}
use nmg_league_bot.Criteria.{new_criteria, RestreamStatusCriterion}
use nmg_league_bot.Players
use nmg_league_bot.Guilds.{
  of_guild, ParsedId, not_a_number, negative, an_id, parse_i32, CriteriaReply, grfs_with_display,
  delete_found, find_criterion, remove_parsed, handle_remove_criteria, save_criteria, Named, go_on,
  stop, named_player, player_option, add_for, try_player, handle_add_criteria, handle_show_criteria,
  handle_remove_criteria_autocomplete, handle_add_criteria_autocomplete, criteria_command,
  with_subcommand, handle_criteria_commands, main_reply, restream_of,
}
use nmg_league_bot.Guilds.Owners.{filter-snoc, Owned, filter-delete, found-owner}

module _ (owner : ℕ → String) where
  module _ {V : Type 0} (views : OptionValues V) (like : String → String → Bool) (g h : String)
      (other_guild : str_eq g h ≡ false) (rs : List GuildRaceCriteria)
      (owned : Owned owner rs) where
    abbrev of_session : CommandSession V → List GuildRaceCriteria
    of_session s = s.conn.tables.criteria

    abbrev Same : CommandSession V → Type 0
    Same s = of_session s ≡ rs

    -- the criteria of the other guild are as they were
    abbrev Ends : CommandSession V → Type 0
    Ends s = filter (of_guild h) (of_session s) ≡ filter (of_guild h) rs

    unchanged : (s : CommandSession V) → Same s → Ends s
    unchanged s e = ap (filter (of_guild h)) e

    -- a step that leaves the criteria, and what follows it
    keep_then :
        {A B : Type 0} (m : Command V A) (f : A → Command V B) (s : CommandSession V)
        → Keeps of_session m
        → Same s
        → ((a : A) (t : CommandSession V) → Same t → Ends (f a t).1)
        → Ends ((m >>= f) s).1
    keep_then m f s keeps e k = after (
        bind-After (λ _. Same) m f s (weaken unchanged (same-After {I = Same} (m s) (keeps s ∙ e)))
          λ a t e. same-After {I = Ends} (f a t) (k a t e))

    display-Keeps : Keeps of_session (grfs_with_display views like g)
    unfolding grfs_with_display
    display-Keeps =
        bind-Keeps of_session (db (select database_error (λ t. filter (of_guild g) t.criteria))) _
          (λ s. ap (λ t. t.criteria) (select-tables database_error _ s.conn))
          λ grfs.
            bind-Keeps of_session (db (select database_error (λ t. t.players))) _
              (λ s. ap (λ t. t.criteria) (select-tables database_error _ s.conn)) λ ps s. refl

    delete_lem :
        (o : Option GuildRaceCriteria) (s : CommandSession V)
        → Same s
        → ((x : GuildRaceCriteria) → o ≡ some x → owner x.id ≡ g)
        → Ends (delete_found views like o s).1
    unfolding delete_found write
    delete_lem none s e k = unchanged s e
    delete_lem (some x) s e k =
        ground (arith, e, k x refl, other_guild, filter-delete owner h x.id rs owned)

    no_row :
        (s : CommandSession V)
        → Same s
        → After
            (λ o t. Same t × ((x : GuildRaceCriteria) → o ≡ some x → owner x.id ≡ g))
            Same
            (db (select database_error (λ t. none)) s)
    no_row s e =
        map-After (λ o t k. (k.0, λ x f. cc))
          (db-After (λ o c. (c.tables.criteria ≡ rs) × (o ≡ none)) (λ c. c.tables.criteria ≡ rs)
            (select database_error (λ t. none)) s
            (select-After database_error _ s.conn (λ t. t.criteria ≡ rs) e))

    find_lem :
        (i : ParsedId) (s : CommandSession V)
        → Same s
        → After
            (λ o t. Same t × ((x : GuildRaceCriteria) → o ≡ some x → owner x.id ≡ g))
            Same
            (find_criterion views like g i s)
    unfolding find_criterion
    find_lem (an_id i) s e =
        map-After
          (λ o t k. (
            k.0,
            λ x f.
                found-owner owner g i rs {x = x} owned
                  (sym (k.1 ∙ ap (first_where (λ x. x.id == i && of_guild g x)) k.0) ∙ f),
          ))
          (db-After
            (λ o c.
              (c.tables.criteria ≡ rs)
              × (o ≡ first_where (λ x. x.id == i && of_guild g x) c.tables.criteria))
            (λ c. c.tables.criteria ≡ rs)
            (select database_error (λ t. first_where (λ x. x.id == i && of_guild g x) t.criteria)) s
            (select-After database_error _ s.conn (λ t. t.criteria ≡ rs) e))
    find_lem not_a_number s e = no_row s e
    find_lem negative s e = no_row s e

    found_then :
        (i : ParsedId) (s : CommandSession V)
        → Same s
        → Ends ((find_criterion views like g i >>= delete_found views like) s).1
    found_then i s e = after (
        bind-After (λ o t. Same t × ((x : GuildRaceCriteria) → o ≡ some x → owner x.id ≡ g))
          (find_criterion views like g i) (delete_found views like) s
          (weaken unchanged (find_lem i s e))
          λ o t k. same-After {I = Ends} (delete_found views like o t) (delete_lem o t k.0 k.1))

    remove_lem :
        (i : ParsedId) (s : CommandSession V) → Same s → Ends (remove_parsed views like g i s).1
    unfolding remove_parsed
    remove_lem not_a_number s e = unchanged s e
    remove_lem negative s e = found_then negative s e
    remove_lem (an_id i) s e = found_then (an_id i) s e

    save_lem :
        (p : Option Player) (status : Option RestreamStatusCriterion) (s : CommandSession V)
        → Same s
        → Ends (save_criteria views like g p status s).1
    unfolding save_criteria insert new_criteria
    save_lem p none s e = unchanged s e
    save_lem p (some status) s e = ground (
      arith,
      e,
      other_guild,
      filter-snoc h rs (new_criteria (next_id (λ x. x.id) rs) g p status) other_guild,
    )

    named-Keeps : (i : ParsedId) → Keeps of_session (named_player views like i)
    unfolding named_player Players.get_by_id
    named-Keeps not_a_number = λ s. refl
    named-Keeps negative =
        bind-Keeps of_session (db (select database_error (λ t. tt))) _
          (λ s. ap (λ t. t.criteria) (select-tables database_error _ s.conn)) λ _ s. refl
    named-Keeps (an_id i) =
        bind-Keeps of_session (db (Players.get_by_id database_error i)) _
          (λ s. ap (λ t. t.criteria) (select-tables database_error _ s.conn)) λ o s. refl

    option-Keeps : (r : Result OptionError String) → Keeps of_session (player_option views like r)
    unfolding player_option
    option-Keeps (ok text) = named-Keeps (parse_i32 (text_of text))
    option-Keeps (err (missing_option n)) = λ s. refl
    option-Keeps (err (unexpected_option_kind a b)) = λ s. refl
    option-Keeps (err no_subcommand) = λ s. refl

    add_lem :
        (n : Named views like) (s : CommandSession V) → Same s → Ends (add_for views like g n s).1
    unfolding add_for get_integer
    add_lem (stop reply) s e = unchanged s e
    add_lem (go_on p) s e =
        keep_then (get_integer views "restream") _ s (λ s. refl) e
          λ n t e. save_lem p (restream_of views like n) t e

    remove_cmd : (s : CommandSession V) → Same s → Ends (handle_remove_criteria views like g s).1
    unfolding handle_remove_criteria get_string
    remove_cmd s e =
        keep_then (get_string views "criteria") _ s (λ s. refl) e
          λ text t e. remove_lem (parse_i32 (text_of text)) t e

    named_then :
        (r : Result OptionError String) (s : CommandSession V)
        → Same s
        → Ends ((player_option views like r >>= add_for views like g) s).1
    named_then r s e =
        keep_then (player_option views like r) (add_for views like g) s (option-Keeps r) e add_lem

    add_cmd : (s : CommandSession V) → Same s → Ends (handle_add_criteria views like g s).1
    unfolding handle_add_criteria try_player
    add_cmd s e =
        named_then (get_opt views views.as_string "player" string s.options).0
          (record s { options = (get_opt views views.as_string "player" string s.options).1 }) e

    show_cmd : (s : CommandSession V) → Same s → Ends (handle_show_criteria views like g s).1
    unfolding handle_show_criteria
    show_cmd s e =
        keep_then (grfs_with_display views like g) _ s display-Keeps e λ grfs t e. unchanged t e

    remove_offers :
        (s : CommandSession V)
        → Same s
        → Ends (handle_remove_criteria_autocomplete views like g s).1
    unfolding handle_remove_criteria_autocomplete
    remove_offers s e =
        keep_then
          (on_options (map_err (λ e. invalid_option "criteria") (get_focused_opt views "criteria")))
          _ s (λ s. refl) e
          λ text t e.
            keep_then (grfs_with_display views like g) _ t display-Keeps e λ grfs u e. unchanged u e

    add_offers :
        (s : CommandSession V) → Same s → Ends (handle_add_criteria_autocomplete views like s).1
    unfolding handle_add_criteria_autocomplete
    add_offers s e =
        keep_then
          (on_options (map_err (λ e. invalid_option "player") (get_focused_opt views "player"))) _ s
          (λ s. refl) e
          λ text t e.
            keep_then
              (db (
                select database_error (λ t. limit 25 (
                  if str_eq text ""
                  then t.players
                  else filter (λ p. like p.name (surrounded text)) t.players))))
              _ t (λ s. ap (λ t. t.criteria) (select-tables database_error _ s.conn)) e
              λ ps u e. unchanged u e

    branch :
        (b : Bool) (m n : Command V CriteriaReply) (s : CommandSession V)
        → Ends (m s).1
        → Ends (n s).1
        → Ends ((if b then m else n) s).1
    branch true m n s x y = x
    branch false m n s x y = y

    command_lem :
        (kind : InteractionType) (name : String) (s : CommandSession V)
        → Same s
        → Ends (criteria_command views like g kind name s).1
    unfolding criteria_command
    command_lem application_command name s e = branch (str_eq name "add") _ _ s (add_cmd s e) (
        branch (str_eq name "remove") _ _ s (remove_cmd s e)
          (branch (str_eq name "show") _ _ s (show_cmd s e) (unchanged s e)))
    command_lem application_command_autocomplete name s e =
        branch (str_eq name "add") _ _ s (add_offers s e)
          (branch (str_eq name "remove") _ _ s (remove_offers s e) (unchanged s e))
    command_lem other name s e = unchanged s e

    sub_lem :
        (kind : InteractionType) (r : Result OptionError (String × List (CommandDataOption V)))
        (s : CommandSession V)
        → Same s
        → Ends (with_subcommand views like g kind r s).1
    unfolding with_subcommand
    sub_lem kind (err x) s e = unchanged s e
    sub_lem kind (ok (name, opts)) s e = command_lem kind name (record s { options = opts }) e

-- For a server that the command comes from: if the id of a criterion says which guild it belongs to,
-- then whatever the command is and however the database answers, `handle_criteria_commands` leaves
-- the criteria of every other guild as they are.
pub handle_criteria_commands-others :
    {V : Type 0} (owner : ℕ → String) (views : OptionValues V) (like : String → String → Bool)
    (main g h : String) (kind : InteractionType) (s : CommandSession V)
    → str_eq g h ≡ false
    → Owned owner s.conn.tables.criteria
    → filter
        (of_guild h)
        (handle_criteria_commands views like main (some g) kind s).1.conn.tables.criteria
      ≡ filter (of_guild h) s.conn.tables.criteria
unfolding handle_criteria_commands
handle_criteria_commands-others owner views like main g h kind s apart_g owned =
    elim (Bool-cases (str_eq main g)) [
      | inl same ↦ ground (arith, same)
      | inr apart ↦
          subst
            (λ b.
              filter (of_guild h)
                (if b
                  then (ok (main_reply views like kind), s)
                  else with_subcommand views like g kind (get_subcommand_options views s.options)
                      s).1.conn.tables.criteria
              ≡ filter (of_guild h) s.conn.tables.criteria)
            (sym apart)
            (sub_lem owner views like g h apart_g s.conn.tables.criteria owned kind
              (get_subcommand_options views s.options) s refl)
    ]
