-- ===== src/Rules/Versions.antt =====
-- `semantic_version_increases` of domain/behavioral_rules/consolidation.py.
use super_scientist_orchestr.Prelude.{
  ℕ, ◌+◌, ◌-◌, ◌*◌, String, Bool, true, false, not, ◌&&◌, ◌||◌, Option, none, some, List, [], ◌∷◌,
  ltb, leb, if◌then◌else◌, ◌==◌, ◌!=◌, nat_eq, string_eq, option_eq, list_eq, text_lt,
}
use Prim.Native.Char.{Char, code}

-- The text before the first character with the code, and the text behind it, if there is one.
unfoldable pub before : ℕ → String → String
before separator String.[] = ""
before separator (String.◌∷◌ c s) =
    let rest = before separator s in if code c == separator then "" else String.◌∷◌ c rest

unfoldable pub behind : ℕ → String → Option String
behind separator String.[] = none
behind separator (String.◌∷◌ c s) =
    let rest = behind separator s in if code c == separator then some s else rest

abbrev pub extend : Char → List String → List String
extend c [] = String.◌∷◌ c "" ∷ []
extend c (word ∷ words) = String.◌∷◌ c word ∷ words

-- `s.split(separator)`
unfoldable pub split_on : ℕ → String → List String
split_on separator String.[] = "" ∷ []
split_on separator (String.◌∷◌ c s) =
    let rest = split_on separator s in if code c == separator then "" ∷ rest else extend c rest

abbrev pub is_digit : ℕ → Bool
is_digit c = leb 48 c && leb c 57

-- `int(s)` on the texts that the pattern of a version lets through there: digits, at least one.
unfoldable pub digits_onto : ℕ → String → Option ℕ
digits_onto n String.[] = some n
digits_onto n (String.◌∷◌ c s) =
    let rest = digits_onto (n * 10 + (code c - 48)) s in if is_digit (code c) then rest else none

unfoldable pub int_of : String → Option ℕ
unfolding digits_onto
int_of String.[] = none
int_of (String.◌∷◌ c s) = digits_onto 0 (String.◌∷◌ c s)

-- `s.isdecimal()`, on the ASCII texts that the pattern lets through.
abbrev pub is_decimal : String → Bool
is_decimal s = int_of s != none

abbrev pub number_or_zero : Option ℕ → ℕ
number_or_zero none = 0
number_or_zero (some n) = n

pub record VersionParts : Type 0 where
  pub major : ℕ
  pub minor : ℕ
  pub patch : ℕ
  pub prerelease : Option (List String)

abbrev pub parts_with : Option (List String) → Option ℕ → Option ℕ → Option ℕ → Option VersionParts
parts_with prerelease (some major) (some minor) (some patch) =
    some (record { major = major; minor = minor; patch = patch; prerelease = prerelease })
parts_with prerelease _ _ _ = none

-- The unpacking `major, minor, patch = ...`.
abbrev pub core_parts : Option (List String) → List String → Option VersionParts
core_parts prerelease (major ∷ minor ∷ patch ∷ []) =
    parts_with prerelease (int_of major) (int_of minor) (int_of patch)
core_parts prerelease _ = none

abbrev pub split_prerelease : Option String → Option (List String)
split_prerelease none = none
split_prerelease (some text) = some (split_on 46 text)

-- `none` is the `ValueError`. The codes are those of "+", "-" and ".".
unfoldable pub semantic_version_parts : String → Option VersionParts
unfolding before behind split_on int_of
semantic_version_parts value =
    let precedence = before 43 value in
    core_parts (split_prerelease (behind 45 precedence)) (split_on 46 (before 45 precedence))

-- The comparison of the first two identifiers that differ.
unfoldable pub part_increases : String → String → Bool
unfolding int_of
part_increases candidate predecessor =
    if is_decimal candidate && is_decimal predecessor
    then ltb (number_or_zero (int_of predecessor)) (number_or_zero (int_of candidate))
    else if is_decimal candidate && not (is_decimal predecessor)
        || not (is_decimal candidate) && is_decimal predecessor
    then not (is_decimal candidate)
    else text_lt predecessor candidate

-- The loop over both prereleases, and the comparison of their lengths behind it.
unfoldable pub prerelease_increases : List String → List String → Bool
unfolding part_increases
prerelease_increases [] _ = false
prerelease_increases (p ∷ ps) [] = true
prerelease_increases (p ∷ ps) (q ∷ qs) =
    let rest = prerelease_increases ps qs in if p == q then rest else part_increases p q

abbrev pub release_increases : Option (List String) → Option (List String) → Bool
release_increases none none = false
release_increases none (some q) = true
release_increases (some p) none = false
release_increases (some p) (some q) = prerelease_increases p q

unfoldable pub parts_increase : VersionParts → VersionParts → Bool
unfolding prerelease_increases
parts_increase candidate predecessor =
    if candidate.major == predecessor.major
      && candidate.minor == predecessor.minor
      && candidate.patch == predecessor.patch
    then release_increases candidate.prerelease predecessor.prerelease
    else ltb predecessor.major candidate.major
      || candidate.major == predecessor.major
        && (ltb predecessor.minor candidate.minor
            || candidate.minor == predecessor.minor && ltb predecessor.patch candidate.patch)

abbrev pub both_parts : Option VersionParts → Option VersionParts → Option Bool
both_parts (some candidate) (some predecessor) = some (parts_increase candidate predecessor)
both_parts _ _ = none

unfoldable pub semantic_version_increases : String → String → Option Bool
unfolding semantic_version_parts parts_increase
semantic_version_increases candidate predecessor =
    both_parts (semantic_version_parts candidate) (semantic_version_parts predecessor)
