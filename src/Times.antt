-- ===== src/Times.antt =====
-- `format_hms`, `parse_hms` and `parse_race_result` of src/utils.rs, on texts of ASCII characters as
-- lists of their codes.
pub mod Decimal
pub mod RoundTrip
use nmg_league_bot.Base.{
  ℕ, zero, suc, ◌+◌, ◌-◌, ◌*◌, ◌/◌, ◌%◌, ◌^◌, Bool, true, false, ◌&&◌, List, [], ◌∷◌, ◌++◌, Option,
  none, some, Result, ok, err, ltb, leb, ◌==◌, if◌then◌else◌, all,
}
use nmg_league_bot.Race.{PlayerResult, forfeit, finish_time}

abbrev pub Text : Type 0
Text = List ℕ

-- decimal digits, most significant first; fuel n + 1 is enough for n
unfoldable pub decimal_fuel : ℕ → ℕ → Text
decimal_fuel zero n = []
decimal_fuel (suc f) n =
    let front = decimal_fuel f (n / 10) in
    if ltb n 10 then (b'0' + n) ∷ [] else front ++ (b'0' + n % 10) ∷ []

-- `{n}`
unfoldable pub decimal : ℕ → Text
unfolding decimal_fuel
decimal n = decimal_fuel (suc n) n

-- `{n:02}`
unfoldable pub padded : ℕ → Text
padded n = if ltb n 10 then b'0' ∷ decimal n else decimal n

unfoldable pub format_hms : ℕ → Text
format_hms secs =
    let mins = secs / 60 in
    let hours = mins / 60 in
    if ltb 0 hours
    then decimal hours ++ (b':' ∷ (padded (mins % 60) ++ (b':' ∷ padded (secs % 60 % 60))))
    else padded (mins % 60) ++ (b':' ∷ padded (secs % 60 % 60))

abbrev pub is_digit : ℕ → Bool
is_digit c = leb b'0' c && leb c b'9'

-- `\d+`, which takes all the digits there are: these, and the rest
unfoldable pub span_digits : Text → Text × Text
span_digits [] = ([], [])
span_digits (c ∷ cs) =
    let (ds, rest) = span_digits cs in if is_digit c then (c ∷ ds, rest) else ([], c ∷ cs)

-- `:(\d{2}):(\d{2})`
unfoldable pub match_tail : Text → Option (Text × Text)
match_tail (a ∷ m1 ∷ m2 ∷ b ∷ s1 ∷ s2 ∷ rest) =
    if a == b':' && is_digit m1 && is_digit m2 && b == b':' && is_digit s1 && is_digit s2
    then some (m1 ∷ m2 ∷ [], s1 ∷ s2 ∷ [])
    else none
match_tail _ = none

abbrev match_hours : Text × Text → Option (Text × Text × Text)
match_hours ([], rest) = none
match_hours (d ∷ ds, rest) = elim (match_tail rest) [
  | none ↦ none
  | some (m, s) ↦ some (d ∷ ds, m, s)
]

-- the regex at one position
unfoldable pub match_here : Text → Option (Text × Text × Text)
match_here t = match_hours (span_digits t)

-- the first position at which it matches
unfoldable pub captures : Text → Option (Text × Text × Text)
captures [] = none
captures (c ∷ cs) =
    let later = captures cs in elim (match_here (c ∷ cs)) [ none ↦ later | some m ↦ some m ]

unfoldable pub value_from : ℕ → Text → ℕ
value_from acc [] = acc
value_from acc (c ∷ cs) = value_from (acc * 10 + (c - b'0')) cs

-- `parse::<u32>` on digits
unfoldable pub parse_u32 : Text → Option ℕ
unfolding value_from
parse_u32 t = let n = value_from 0 t in if ltb n (2 ^ 32) then some n else none

-- u32 arithmetic, which wraps in a release build
abbrev seconds : ℕ → ℕ → ℕ → Option ℕ
seconds h m s =
    if leb 60 m then none else if leb 60 s then none else some ((h * 60 * 60 + m * 60 + s) % 2 ^ 32)

unfoldable pub parse_captured : Text × Text × Text → Option ℕ
parse_captured (h, m, s) = elim (parse_u32 h) [
  | none ↦ none
  | some hv ↦ elim (parse_u32 m) [
    | none ↦ none
    | some mv ↦ elim (parse_u32 s) [ none ↦ none | some sv ↦ seconds hv mv sv ]
  ]
]

unfoldable pub parse_hms : Text → Option ℕ
parse_hms t = elim (captures t) [ none ↦ none | some m ↦ parse_captured m ]
