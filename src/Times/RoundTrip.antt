-- ===== src/Times/RoundTrip.antt =====
-- Finish times from one hour are printed so that they are read back; shorter ones are not.
use nmg_league_bot.Base.{
  ℕ, ◌+◌, ◌*◌, ◌/◌, ◌%◌, ◌^◌, ◌<◌, ◌≤◌, ◌≡◌, refl, ap, ◌∙◌, false, [], ◌∷◌, ◌++◌, none, some, arith,
  ltb, lt→ltb,
}
use nmg_league_bot.Times.{
  match_hours, Text, decimal, padded, format_hms, is_digit, span_digits, match_tail, match_here,
  captures, value_from, parse_u32, parse_captured, parse_hms,
}
use nmg_league_bot.Times.Decimal.{
  Digits, value-decimal, decimal-Digits, decimal_cons, padded_two, span-Digits,
}

match_here-Digits :
    (d : ℕ) (ds : Text) (c : ℕ) (rest m s : Text)
    → Digits (d ∷ ds)
    → is_digit c ≡ false
    → match_tail (c ∷ rest) ≡ some (m, s)
    → match_here ((d ∷ ds) ++ c ∷ rest) ≡ some (d ∷ ds, m, s)
unfolding match_here
match_here-Digits d ds c rest m s h k e =
    ap match_hours (span-Digits (d ∷ ds) c rest h k) ∙ ground arith

captures_first :
    (c : ℕ) (cs : Text) (m : Text × Text × Text)
    → match_here (c ∷ cs) ≡ some m
    → captures (c ∷ cs) ≡ some m
unfolding captures
captures_first c cs m h = ground arith

match_tail_two :
    (m s : ℕ)
    → m < 60
    → s < 60
    → match_tail
        (b':' ∷ (b'0' + m / 10) ∷ (b'0' + m % 10) ∷ b':' ∷ (b'0' + s / 10) ∷ (b'0' + s % 10) ∷ [])
      ≡ some ((b'0' + m / 10) ∷ (b'0' + m % 10) ∷ [], (b'0' + s / 10) ∷ (b'0' + s % 10) ∷ [])
unfolding match_tail
match_tail_two m s h k = ground arith

-- what is printed from one hour on
long_form : (h m s : ℕ) → Text
long_form h m s = decimal h ++ (b':' ∷ (padded m ++ (b':' ∷ padded s)))

captures_long :
    (h m s : ℕ)
    → m < 60
    → s < 60
    → captures (long_form h m s)
      ≡ some (
        decimal h,
        (b'0' + m / 10) ∷ (b'0' + m % 10) ∷ [],
        (b'0' + s / 10) ∷ (b'0' + s % 10) ∷ [],
      )
unfolding long_form
captures_long h m s hm hs =
    let (d, ds, e) = decimal_cons h in
    rw (padded_two m (omega arith), padded_two s (omega arith), e)
      (captures_first d _ _ (
        match_here-Digits d ds b':' _ _ _ (rw e at (decimal-Digits h)) refl
          (match_tail_two m s hm hs)))

value_two : (n : ℕ) → n < 100 → value_from 0 ((b'0' + n / 10) ∷ (b'0' + n % 10) ∷ []) ≡ n
unfolding value_from
value_two n h = omega arith

parse_u32_lem : (t : Text) (n : ℕ) → value_from 0 t ≡ n → n < 2 ^ 32 → parse_u32 t ≡ some n
unfolding parse_u32
parse_u32_lem t n e h = rw (e, lt→ltb n (2 ^ 32) h)

parse_hms_captured :
    (t : Text) (x : Text × Text × Text) → captures t ≡ some x → parse_hms t ≡ parse_captured x
unfolding parse_hms
parse_hms_captured t x h = ground arith

parse_captured_lem :
    (ht mt st : Text) (h m s : ℕ)
    → parse_u32 ht ≡ some h
    → parse_u32 mt ≡ some m
    → parse_u32 st ≡ some s
    → m < 60
    → s < 60
    → parse_captured (ht, mt, st) ≡ some ((h * 60 * 60 + m * 60 + s) % 2 ^ 32)
unfolding parse_captured
parse_captured_lem ht mt st h m s eh em es hm hs = ground arith

small_total :
    (h m s : ℕ)
    → h * 3600 + m * 60 + s < 2 ^ 32
    → (h * 60 * 60 + m * 60 + s) % 2 ^ 32 ≡ h * 3600 + m * 60 + s
small_total h m s k = omega arith

parse_long :
    (h m s : ℕ)
    → m < 60
    → s < 60
    → h * 3600 + m * 60 + s < 2 ^ 32
    → parse_hms (long_form h m s) ≡ some (h * 3600 + m * 60 + s)
parse_long h m s hm hs small =
    parse_hms_captured (long_form h m s) _ (captures_long h m s hm hs)
    ∙ parse_captured_lem _ _ _ h m s (parse_u32_lem (decimal h) h (value-decimal h) (omega arith))
        (parse_u32_lem _ m (value_two m (omega arith)) (omega arith))
        (parse_u32_lem _ s (value_two s (omega arith)) (omega arith)) hm hs
    ∙ ap some (small_total h m s small)

format_hms_long :
    (secs : ℕ)
    → 3600 ≤ secs
    → format_hms secs ≡ long_form (secs / 60 / 60) (secs / 60 % 60) (secs % 60 % 60)
unfolding format_hms long_form
format_hms_long secs h = ground arith

-- A finish time of an hour or more that fits a u32 is printed as a text that is read back as it.
pub parse_hms-format_hms :
    (secs : ℕ) → 3600 ≤ secs → secs < 2 ^ 32 → parse_hms (format_hms secs) ≡ some secs
parse_hms-format_hms secs h k =
    let whole : secs / 60 / 60 * 3600 + secs / 60 % 60 * 60 + secs % 60 % 60 ≡ secs = omega arith in
    rw (format_hms_long secs h) (
      parse_long (secs / 60 / 60) (secs / 60 % 60) (secs % 60 % 60) (omega arith) (omega arith)
        (rw whole k)
      ∙ ap some whole)

short_form : (m s : ℕ) → Text
short_form m s = padded m ++ (b':' ∷ padded s)

format_hms_short : (secs : ℕ) → secs < 3600 → format_hms secs ≡ short_form (secs / 60) (secs % 60)
unfolding format_hms short_form
format_hms_short secs h =
    let test : ltb 0 (secs / 60 / 60) ≡ false = ground arith in
    let ms : secs / 60 % 60 ≡ secs / 60 = omega arith in
    let ss : secs % 60 % 60 ≡ secs % 60 = omega arith in rw (test, ms, ss)

captures_short :
    (m s : ℕ)
    → m < 60
    → s < 60
    → captures ((b'0' + m / 10) ∷ (b'0' + m % 10) ∷ b':' ∷ (b'0' + s / 10) ∷ (b'0' + s % 10) ∷ [])
      ≡ none
unfolding captures match_here span_digits match_tail
captures_short m s h k = ground arith

parse_short : (m s : ℕ) → m < 60 → s < 60 → parse_hms (short_form m s) ≡ none
unfolding parse_hms short_form
parse_short m s h k =
    rw (padded_two m (omega arith), padded_two s (omega arith))
      (ground (arith, captures_short m s h k))

-- A finish time under an hour is printed without hours, and that text is not read back.
pub parse_hms-format_hms_short : (secs : ℕ) → secs < 3600 → parse_hms (format_hms secs) ≡ none
parse_hms-format_hms_short secs h =
    rw (format_hms_short secs h) (parse_short (secs / 60) (secs % 60) (omega arith) (omega arith))
