-- ===== src/Prelude/Text.antt =====
-- Go's text helpers of the standard library that the program uses: decimal numbers (`%d`), quoted
-- text (`%q`), `strings.Contains`, and the folding of letters by which JSON keys are matched.
use Prim.Native.Nat.{ℕ, zero, suc, ◌+◌, ◌/◌, ◌%◌}
use Prim.Native.Char.{Char, code}
use Prim.Native.String.{String, ◌++◌ as ◌<>◌}
use mathlib.Core.Path.{◌≡◌, refl}
use mathlib.Core.Bool.{Bool, true, false, ◌&&◌, ◌||◌}
use text.Mathlib.Text.{◌==◌, starts_with}
use databasus_operator.Prelude.Basic.{ltb, leb, nat_eq, if◌then◌else◌}

digit : ℕ → String
digit n =
    if nat_eq n 0
    then "0"
    else if nat_eq n 1
    then "1"
    else if nat_eq n 2
    then "2"
    else if nat_eq n 3
    then "3"
    else if nat_eq n 4
    then "4"
    else if nat_eq n 5
    then "5"
    else if nat_eq n 6
    then "6"
    else if nat_eq n 7
    then "7"
    else if nat_eq n 8
    then "8"
    else "9"

-- The digits of `n` before `rest`; a fuel above `n` is enough.
digits : ℕ → ℕ → String → String
digits zero n rest = rest
digits (suc fuel) n rest =
    let more = digits fuel (n / 10) (digit (n % 10) <> rest) in
    if ltb n 10 then digit n <> rest else more

-- `%d` of a number that is not negative.
unfoldable pub decimal : ℕ → String
unfolding digits digit
decimal n = digits (suc n) n ""

hex_digit : ℕ → String
unfolding digit
hex_digit n =
    if ltb n 10
    then digit n
    else if nat_eq n 10
    then "a"
    else if nat_eq n 11
    then "b"
    else if nat_eq n 12
    then "c"
    else if nat_eq n 13
    then "d"
    else if nat_eq n 14
    then "e"
    else "f"

quoted_char : Char → String
unfolding hex_digit
quoted_char c =
    let n = code c in
    if nat_eq n 34
    then "\\\""
    else if nat_eq n 92
    then "\\\\"
    else if nat_eq n 7
    then "\\a"
    else if nat_eq n 8
    then "\\b"
    else if nat_eq n 12
    then "\\f"
    else if nat_eq n 10
    then "\\n"
    else if nat_eq n 13
    then "\\r"
    else if nat_eq n 9
    then "\\t"
    else if nat_eq n 11
    then "\\v"
    else if ltb n 32 || nat_eq n 127
    then "\\x" <> hex_digit (n / 16) <> hex_digit (n % 16)
    else String.◌∷◌ c String.[]

quoted_chars : String → String
unfolding quoted_char
quoted_chars String.[] = ""
quoted_chars (String.◌∷◌ c s) = quoted_char c <> quoted_chars s

-- `%q`; a character above ASCII stands for itself.
unfoldable pub quote : String → String
unfolding quoted_chars
quote s = "\"" <> quoted_chars s <> "\""

-- `strings.Contains`.
unfoldable pub contains : String → String → Bool
contains String.[] t = t == ""
contains (String.◌∷◌ c s) t = starts_with (String.◌∷◌ c s) t || contains s t

-- The code points of a text, each letter folded as `encoding/json` folds the letters of a key.
abbrev fold_code : ℕ → ℕ
fold_code c =
    if leb 65 c && leb c 90
    then c + 32
    else if nat_eq c 0x17f
    then 115
    else if nat_eq c 0x212a
    then 107
    else c

same_key_chars : String → String → Bool
same_key_chars String.[] String.[] = true
same_key_chars (String.◌∷◌ c s) (String.◌∷◌ d t) =
    nat_eq (fold_code (code c)) (fold_code (code d)) && same_key_chars s t
same_key_chars _ _ = false

-- A key of a JSON object names a field if the two agree up to the case of their letters.
unfoldable pub same_key : String → String → Bool
unfolding same_key_chars
same_key k name = same_key_chars k name

decimal_example : decimal 404 ≡ "404"
unfolding decimal
decimal_example = refl

quote_example : quote "a\"b" ≡ "\"a\\\"b\""
unfolding quote
quote_example = refl

contains_example : contains "gorm: record not found" "record not found" ≡ true
unfolding contains
contains_example = refl

same_key_example : same_key "ID" "id" ≡ true
unfolding same_key
same_key_example = refl
