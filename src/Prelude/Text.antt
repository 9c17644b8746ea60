-- ===== src/Prelude/Text.antt =====
-- Texts: lists of texts as sets, and the code points of a text where the source looks inside one.
use Prim.Native.Nat.{ℕ, ◌+◌}
use Prim.Native.Char.{code}
use Prim.Native.String.{String}
use mathlib.Core.Bool.{Bool, true, false, not, ◌&&◌, ◌||◌}
use mathlib.Core.List.{List, [], ◌∷◌, map}
use mathlib.Core.Option.{Option, none, some}
use text.Mathlib.Text.{◌==◌}
use durak_card_game.Prelude.Tests.{leb, eqb, if◌then◌else◌}

-- `xs.includes(s)`, and `set.has(s)` for a set kept as a list
abbrev pub includes : List String → String → Bool
includes [] s = false
includes (x ∷ xs) s = x == s || includes xs s

-- `Boolean(s)` for a text that may be null or undefined
abbrev pub truthy : Option String → Bool
truthy none = false
truthy (some s) = not (s == "")

-- `o === s`
abbrev pub same_text : Option String → String → Bool
same_text none s = false
same_text (some t) s = t == s

abbrev pub codes : String → List ℕ
codes String.[] = []
codes (String.◌∷◌ c s) = code c ∷ codes s

unfoldable pub starts : List ℕ → List ℕ → Bool
starts [] s = true
starts (p ∷ ps) [] = false
starts (p ∷ ps) (c ∷ s) = eqb p c && starts ps s

-- `text.includes(part)` over code points
unfoldable pub has_part : List ℕ → List ℕ → Bool
unfolding starts
has_part part [] = starts part []
has_part part (c ∷ s) = starts part (c ∷ s) || has_part part s

-- `toLowerCase` on the letters of the basic Latin and Cyrillic blocks; others stay
unfoldable pub lower_code : ℕ → ℕ
lower_code c =
    if leb b'A' c && leb c b'Z'
    then c + 32
    else if leb 0x410 c && leb c 0x42f
    then c + 32
    else if leb 0x400 c && leb c 0x40f
    then c + 80
    else c

unfoldable pub lower_codes : String → List ℕ
unfolding lower_code
lower_codes s = map lower_code (codes s)

-- `s.toLowerCase().includes(part)`
unfoldable pub lower_includes : String → String → Bool
unfolding has_part lower_codes
lower_includes s part = has_part (codes part) (lower_codes s)
