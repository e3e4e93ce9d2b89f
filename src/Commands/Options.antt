-- ===== src/Commands/Options.antt =====
-- The options of a command: `find_opt` and its macros in src/discord/mod.rs, and
-- `get_subcommand_options` of src/discord/interactions_utils.rs. The values of options are a type of
-- the twilight crates, and a parameter with what the source reads of it.
pub mod Finding
use nmg_league_bot.Base.{
  ℕ, zero, suc, ◌+◌, ◌%◌, ◌^◌, String, Option, none, some, Bool, true, false, List, [], ◌∷◌, Result,
  ok, err, Method, length, str_eq, get_elem?, swap_remove, if◌then◌else◌,
}
use nmg_league_bot.Base.Methods.{pure, throw, ◌>>=◌, ◌>>◌}

-- `CommandOptionType`, as far as the source asks for it
pub data CommandOptionType : Type 0 where
  boolean channel integer string sub_command user : CommandOptionType

-- `CommandDataOption`
pub record CommandDataOption (V : Type 0) : Type 0 where
  pub name : String
  pub value : V

-- What the source reads of a `CommandOptionValue`: its kind, and by `if let` the value of a variant.
-- A user is the text of an id; an integer is read as an id or a number of the clock.
pub record OptionValues (V : Type 0) : Type 0 where
  pub kind : V → CommandOptionType
  pub as_string : V → Option String
  pub as_integer : V → Option ℕ
  pub as_user : V → Option String
  pub as_sub_command : V → Option (List (CommandDataOption V))
  pub as_focused : V → Option (String × CommandOptionType)

-- `ApplicationCommandOptionError`
pub data OptionError : Type 0 where
  missing_option : String → OptionError
  unexpected_option_kind : CommandOptionType → CommandOptionType → OptionError
  no_subcommand : OptionError

abbrev pub same_kind : CommandOptionType → CommandOptionType → Bool
same_kind boolean boolean = true
same_kind channel channel = true
same_kind integer integer = true
same_kind string string = true
same_kind sub_command sub_command = true
same_kind user user = true
same_kind _ _ = false

-- `x as i32` of a number that is not negative, as its bits; the ids of rows are below 2^31
unfoldable pub as_i32 : ℕ → ℕ
as_i32 x = x % 2 ^ 32

module _ {V : Type 0} where
  -- the `while` loop of `find_opt` from the index `i`, with fuel: where it stops
  unfoldable pub search : ℕ → String → ℕ → List (CommandDataOption V) → Option ℕ
  search zero name i opts = none
  search (suc fuel) name i opts =
      let next = search fuel name (i + 1) opts in
      elim (get_elem? opts i) [
        | none ↦ some i
        | some o ↦ if str_eq o.name name then some i else next
      ]

  module _ (views : OptionValues V) where
    open views use {kind, as_string, as_integer, as_user, as_sub_command, as_focused}

    abbrev pub take_kind :
        Bool
        → CommandOptionType
        → CommandDataOption V
        → ℕ
        → List (CommandDataOption V)
        → Result OptionError (Option V) × List (CommandDataOption V)
    take_kind true k o i opts = (ok (some o.value), swap_remove opts i)
    take_kind false k o i opts = (err (unexpected_option_kind k (kind o.value)), opts)

    abbrev pub take_at :
        CommandOptionType
        → Option (CommandDataOption V)
        → ℕ
        → List (CommandDataOption V)
        → Result OptionError (Option V) × List (CommandDataOption V)
    take_at k none i opts = (ok none, opts)
    take_at k (some o) i opts = take_kind (same_kind (kind o.value) k) k o i opts

    abbrev pub take_stop :
        CommandOptionType
        → Option ℕ
        → List (CommandDataOption V)
        → Result OptionError (Option V) × List (CommandDataOption V)
    take_stop k none opts = (ok none, opts)
    take_stop k (some i) opts = take_at k (get_elem? opts i) i opts

    -- One more round of the loop than there are options is enough.
    unfoldable pub find_opt :
        String → CommandOptionType → Method (List (CommandDataOption V)) OptionError (Option V)
    unfolding search
    find_opt name k opts = take_stop k (search (suc (length opts)) name 0 opts) opts

    module _ {A : Type 0} (view : V → Option A) where
      -- `cov_to_val!`
      abbrev cov_to_val : CommandOptionType → V → Result OptionError A
      cov_to_val k v = elim (view v) [
        | none ↦ err (unexpected_option_kind k (kind v))
        | some a ↦ ok a
      ]

      abbrev unwrap_found :
          CommandOptionType → Option V → Method (List (CommandDataOption V)) OptionError (Option A)
      unwrap_found k none opts = (ok none, opts)
      unwrap_found k (some v) opts =
          (elim (cov_to_val k v) [ ok a ↦ ok (some a) | err e ↦ err e ], opts)

      -- `find_opt!`
      unfoldable pub find_opt_as :
          String → CommandOptionType → Method (List (CommandDataOption V)) OptionError (Option A)
      unfolding find_opt
      find_opt_as name k = do v ← find_opt name k; unwrap_found k v

      abbrev unwrap_some :
          String → CommandOptionType → Option V → Method (List (CommandDataOption V)) OptionError A
      unwrap_some name k none opts = (err (missing_option name), opts)
      unwrap_some name k (some v) opts = (cov_to_val k v, opts)

      -- `get_opt!`
      unfoldable pub get_opt :
          String → CommandOptionType → Method (List (CommandDataOption V)) OptionError A
      unfolding find_opt
      get_opt name k = do v ← find_opt name k; unwrap_some name k v

    -- `get_focused_opt!` of a string
    abbrev focused_string : V → Option String
    focused_string v = elim (as_focused v) [
      | none ↦ none
      | some (text, k) ↦ if same_kind k string then some text else none
    ]

    unfoldable pub get_focused_opt : String → Method (List (CommandDataOption V)) OptionError String
    unfolding get_opt
    get_focused_opt name = get_opt focused_string name string

    -- the options of the first subcommand, with its name
    unfoldable pub get_subcommand_options :
        List (CommandDataOption V) → Result OptionError (String × List (CommandDataOption V))
    get_subcommand_options [] = err no_subcommand
    get_subcommand_options (o ∷ opts) =
        let later = get_subcommand_options opts in
        elim (as_sub_command o.value) [ none ↦ later | some sc ↦ ok (o.name, sc) ]
