-- ===== src/Base/Texts.antt =====
-- Texts in lower case.
use Prim.Native.Char.{Char, code}
use Prim.Native.String.{String, char_at}
use Prim.Native.Nat.{◌-◌}
use nmg_league_bot.Base.Tests.{leb, if◌then◌else◌}
use mathlib.Core.Bool.{◌&&◌}

abbrev lower_char : Char → Char
lower_char c =
    if leb b'A' (code c) && leb (code c) b'Z'
    then char_at "abcdefghijklmnopqrstuvwxyz" (code c - b'A')
    else c

-- ASCII letters in lower case; letters beyond ASCII are left
unfoldable pub to_lowercase : String → String
to_lowercase String.[] = String.[]
to_lowercase (String.◌∷◌ c s) = String.◌∷◌ (lower_char c) (to_lowercase s)
