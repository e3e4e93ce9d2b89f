-- ===== src/Serde.antt =====
-- serde_json, as far as the models use it: an enum column holds the text that `to_string` gives, and
-- is read back by `from_str`. The crate is not part of the repository: it is a parameter, and
-- `IsFaithful` is what its documentation promises of the derived instances.
use nmg_league_bot.Base.{String, Option, none, some, ◌≡◌}

pub record Codec (A : Type 0) : Type 0 where
  pub to_string : A → Option String
  pub from_str : String → Option A

pub record IsFaithful {A : Type 0} (c : Codec A) : Type 0 where
  pub text : A → String
  pub to_string_text : (x : A) → c.to_string x ≡ some (text x)
  pub from_str_text : (x : A) → c.from_str (text x) ≡ some x

-- A nullable column: no text is no value, and a text that cannot be read is an error.
abbrev pub read_column : {A : Type 0} → Codec A → Option String → Option (Option A)
read_column c none = some none
read_column c (some s) = elim (c.from_str s) [ none ↦ none | some a ↦ some (some a) ]
