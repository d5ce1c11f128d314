-- ===== src/Common/Texts.antt =====
-- Texts: joining, case and contents of ASCII text, and decimal numerals as strconv.Itoa writes them.
use Prim.Native.Nat.{ℕ, zero, suc, ◌-◌, ◌/◌, ◌%◌}
use Prim.Native.String.{String, ◌++◌, slice}
use Prim.Native.Char.{Char, code}
use text.Mathlib.Text.{find?}
use mathlib.Core.Bool.{Bool, true, false, ◌&&◌, ◌||◌}
use mathlib.Core.List.{List, [], ◌∷◌}
use mathlib.Core.Option.{none, some}
use inferia_worker.Common.Tests.{ltb, leb, ◌==◌, if◌then◌else◌}
use inferia_worker.Common.Lists.{get_elem?}

infixr 65 ◌&◌
abbrev pub ◌&◌ : String → String → String
s & t = s ++ t

digit_texts : List String
digit_texts = "0" ∷ "1" ∷ "2" ∷ "3" ∷ "4" ∷ "5" ∷ "6" ∷ "7" ∷ "8" ∷ "9" ∷ []

digit : ℕ → String
unfolding digit_texts
digit d = elim (get_elem? digit_texts d) [ none ↦ "" | some s ↦ s ]

-- A number has fewer digits than the number plus one, which is the fuel.
emit : ℕ → ℕ → String
emit zero n = ""
emit (suc fuel) n =
    let front = emit fuel (n / 10) in if ltb n 10 then digit n else front & digit (n % 10)

unfoldable pub itoa : ℕ → String
unfolding emit digit
itoa n = emit (suc n) n

-- The code points: the bytes, of an ASCII text.
abbrev pub codes : String → List ℕ
codes String.[] = []
codes (String.◌∷◌ c s) = code c ∷ codes s

unfoldable pub contains : String → String → Bool
contains s t = elim (find? s t) [ none ↦ false | some i ↦ true ]

is_upper : ℕ → Bool
is_upper n = leb 65 n && leb n 90

lower_char : Char → String → String
unfolding is_upper
lower_char c rest =
    if is_upper (code c)
    then slice "abcdefghijklmnopqrstuvwxyz" (code c - 65) (code c - 64) & rest
    else String.◌∷◌ c rest

-- strings.ToLower on ASCII.
unfoldable pub to_lower : String → String
unfolding lower_char
to_lower String.[] = ""
to_lower (String.◌∷◌ c s) = lower_char c (to_lower s)

quote_char : Char → String → String
quote_char c rest =
    if code c == 34
    then "\\\"" & rest
    else if code c == 92
    then "\\\\" & rest
    else if code c == 10
    then "\\n" & rest
    else if code c == 13
    then "\\r" & rest
    else if code c == 9
    then "\\t" & rest
    else String.◌∷◌ c rest

quote_all : String → String
unfolding quote_char
quote_all String.[] = ""
quote_all (String.◌∷◌ c s) = quote_char c (quote_all s)

-- strconv.Quote, which is `%q`, on text without further control characters.
unfoldable pub quote : String → String
unfolding quote_all
quote s = "\"" & quote_all s & "\""

-- unicode.IsSpace.
unfoldable pub is_space : ℕ → Bool
is_space c =
    (leb 9 c && leb c 13)
    || c == 32
    || c == 133
    || c == 160
    || c == 5760
    || (leb 8192 c && leb c 8202)
    || c == 8232
    || c == 8233
    || c == 8239
    || c == 8287
    || c == 12288
