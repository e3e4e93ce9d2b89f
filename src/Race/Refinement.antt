-- ===== src/Race/Refinement.antt =====
-- `add_results` on columns of JSON text does what the specification says of their values.
use nmg_league_bot.Base.{Option, none, some, Bool, ◌≡◌, ap, ◌∙◌, arith}
use nmg_league_bot.Serde.{IsFaithful, read_column}
use nmg_league_bot.Race.{finished, PlayerResult, outcome_of, BracketRace, RaceJson, add_results}
use nmg_league_bot.Race.Sheet
use nmg_league_bot.Race.Sheet.{Sheet}

pub record RaceFaithful (json : RaceJson) : Type 0 where
  pub state_ok : IsFaithful json.state_json
  pub result_ok : IsFaithful json.result_json
  pub outcome_ok : IsFaithful json.outcome_json

-- The columns of `r` read as `s`.
pub record Represents (json : RaceJson) (r : BracketRace) (s : Sheet) : Type 0 where
  pub state_is : json.state_json.from_str r.state ≡ some s.state
  pub result_1_is : read_column json.result_json r.player_1_result ≡ some s.result_1
  pub result_2_is : read_column json.result_json r.player_2_result ≡ some s.result_2
  pub outcome_is : read_column json.outcome_json r.outcome ≡ some s.outcome

-- The columns that `add_results` has no business with.
pub record SameRace (r r' : BracketRace) : Type 0 where
  pub same_id : r'.id ≡ r.id
  pub same_bracket : r'.bracket_id ≡ r.bracket_id
  pub same_round : r'.round_id ≡ r.round_id
  pub same_player_1 : r'.player_1_id ≡ r.player_1_id
  pub same_player_2 : r'.player_2_id ≡ r.player_2_id
  pub same_async : r'.async_race_id ≡ r.async_race_id

-- What is known of the texts that `add_results` may write.
abbrev OutcomeText :
    {json : RaceJson} → RaceFaithful json → Option PlayerResult → Option PlayerResult → Type 0
OutcomeText {json} good (some a) (some b) =
    (json.outcome_json.to_string (outcome_of a b) ≡ some (good.outcome_ok.text (outcome_of a b)))
    × (json.outcome_json.from_str (good.outcome_ok.text (outcome_of a b)) ≡ some (Sheet.winner a b))
OutcomeText good _ _ = Unit

abbrev ResultText : {json : RaceJson} → RaceFaithful json → Option PlayerResult → Type 0
ResultText {json} good (some a) =
    (json.result_json.to_string a ≡ some (good.result_ok.text a))
    × (json.result_json.from_str (good.result_ok.text a) ≡ some a)
ResultText good none = Unit

outcome_winner : (a b : PlayerResult) → outcome_of a b ≡ Sheet.winner a b
unfolding outcome_of Sheet.winner
outcome_winner a b = ground arith

module _ (json : RaceJson) (good : RaceFaithful json) where
  outcome_text : (a b : Option PlayerResult) → OutcomeText good a b
  outcome_text (some a) (some b) = (
    good.outcome_ok.to_string_text (outcome_of a b),
    good.outcome_ok.from_str_text (outcome_of a b) ∙ ap some (outcome_winner a b),
  )
  outcome_text (some a) none = tt
  outcome_text none b = tt

  result_text : (a : Option PlayerResult) → ResultText good a
  result_text (some a) = (good.result_ok.to_string_text a, good.result_ok.from_str_text a)
  result_text none = tt

  abbrev pub Refines :
      BracketRace → Sheet → Option PlayerResult → Option PlayerResult → Bool → Type 0
  Refines r s p1 p2 force =
      ((add_results json p1 p2 force r).0 ≡ (Sheet.add p1 p2 force s).0)
      × Represents json (add_results json p1 p2 force r).1 (Sheet.add p1 p2 force s).1
      × SameRace r (add_results json p1 p2 force r).1

  -- With codecs that read back what they print: on columns that read as `s`, `add_results` returns
  -- what the specification returns and leaves columns that read as the specified sheet; ids and
  -- the async race stay as they were.
  pub add_results-Refines :
      (r : BracketRace) (s : Sheet) (p1 p2 : Option PlayerResult) (force : Bool)
      → Represents json r s
      → Refines r s p1 p2 force
  unfolding add_results Sheet.add
  add_results-Refines r s none none force h = ground (
    arith,
    outcome_text s.result_1 s.result_2,
    good.state_ok.to_string_text finished,
    good.state_ok.from_str_text finished,
  )
  add_results-Refines r s (some a) none force h = ground (
    arith,
    result_text (some a),
    outcome_text (some a) s.result_2,
    good.state_ok.to_string_text finished,
    good.state_ok.from_str_text finished,
  )
  add_results-Refines r s none (some b) force h = ground (
    arith,
    result_text (some b),
    outcome_text s.result_1 (some b),
    good.state_ok.to_string_text finished,
    good.state_ok.from_str_text finished,
  )
  add_results-Refines r s (some a) (some b) force h = ground (
    arith,
    result_text (some a),
    result_text (some b),
    outcome_text (some a) (some b),
    good.state_ok.to_string_text finished,
    good.state_ok.from_str_text finished,
  )
