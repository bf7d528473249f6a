-- ===== src/Prelude/Text.antt =====
-- The tests and the formatting that the source makes on its texts.
mod Order
pub use Order.*
use Prim.Native.Nat.{ℕ, zero, suc, ◌-◌, ◌/◌, ◌%◌}
use Prim.Native.Char.{code}
use Prim.Native.String.{String, ◌++◌, count}
use mathlib.Core.Bool.{Bool, ◌&&◌, ◌||◌}
use mathlib.Core.List.{List, [], ◌∷◌}
use text.Mathlib.Text.{starts_with}
use super_scientist_orchestr.Prelude.Tests.{if◌then◌else◌, leb}
use super_scientist_orchestr.Prelude.Equality.{nat_eq, string_eq, ◌==◌}

-- `t in s`: the text `t` begins at some position of `s`.
unfoldable pub occurs : String → String → Bool
occurs t String.[] = t == ""
occurs t (String.◌∷◌ c s) = starts_with (String.◌∷◌ c s) t || occurs t s

digit : ℕ → String
digit d =
    if d == 0
    then "0"
    else if d == 1
    then "1"
    else if d == 2
    then "2"
    else if d == 3
    then "3"
    else if d == 4
    then "4"
    else if d == 5
    then "5"
    else if d == 6
    then "6"
    else if d == 7
    then "7"
    else if d == 8
    then "8"
    else "9"

-- `n` rounds are enough for a number of at most `n` digits.
decimal_rounds : ℕ → ℕ → String
decimal_rounds zero n = ""
decimal_rounds (suc rounds) n =
    let front = decimal_rounds rounds (n / 10) in
    if n / 10 == 0 then digit (n % 10) else front ++ digit (n % 10)

-- `str(n)`
unfoldable pub decimal : ℕ → String
unfolding digit decimal_rounds
decimal n = decimal_rounds (suc n) n

-- The parts of an f-string, put together.
abbrev pub join : List String → String
join [] = ""
join (part ∷ parts) = part ++ join parts

-- `str.isspace` on a code point.
is_space : ℕ → Bool
is_space c =
    leb 9 c && leb c 13
    || leb 28 c && leb c 32
    || c == 133
    || c == 160
    || c == 5760
    || leb 8192 c && leb c 8202
    || c == 8232
    || c == 8233
    || c == 8239
    || c == 8287
    || c == 12288

strip_front : String → String
strip_front String.[] = ""
strip_front (String.◌∷◌ c s) =
    let rest = strip_front s in if is_space (code c) then rest else String.◌∷◌ c s

strip_back : String → String
strip_back String.[] = ""
strip_back (String.◌∷◌ c s) =
    let rest = strip_back s in if rest == "" && is_space (code c) then "" else String.◌∷◌ c rest

-- `s.strip()`
unfoldable pub strip : String → String
unfolding is_space strip_front strip_back
strip s = strip_back (strip_front s)

-- A word that has begun, in front of the words behind it.
begin_word : String → List String → List String
begin_word word words = if word == "" then words else word ∷ words

-- The words of a text, and the word that begins at its front, if one does.
words_of : String → String × List String
words_of String.[] = ("", [])
words_of (String.◌∷◌ c s) =
    let (word, words) = words_of s in
    if is_space (code c) then ("", begin_word word words) else (String.◌∷◌ c word, words)

-- `s.split()`
unfoldable pub split_words : String → List String
unfolding is_space words_of begin_word
split_words s = let (word, words) = words_of s in begin_word word words

-- `" ".join(words)`
abbrev pub spaced : List String → String
spaced [] = ""
spaced (word ∷ []) = word
spaced (word ∷ words) = word ++ " " ++ spaced words

zeros : ℕ → String
zeros zero = ""
zeros (suc n) = "0" ++ zeros n

-- f"{n:020d}" at width 20.
unfoldable pub zero_padded : ℕ → ℕ → String
unfolding decimal zeros
zero_padded width n = zeros (width - count (decimal n)) ++ decimal n
