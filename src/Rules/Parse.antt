-- ===== src/Rules/Parse.antt =====
-- What the rule engine takes from Go's standard library: strconv.ParseBool, strconv.ParseInt in
-- base 10 with 64 bits, strings.Cut at "@" and strings.EqualFold. The regular expressions, the
-- RFC 3339 parser and Unicode's folding table are parameters, gathered in `GoLib`.
use marchi.Prelude.{
  ℕ, ◌+◌, ◌-◌, ◌*◌, ◌^◌, String, code, Bool, true, false, ◌&&◌, ◌||◌, Option, none, some, ltb, leb,
  ◌==◌, if◌then◌else◌, str_eq,
}
use marchi.Prelude.Int.{ℤ, pos, minus}

-- `compile` is regexp.Compile with the MatchString of its result, `parse_time` is time.Parse at
-- time.RFC3339, and `fold` picks one rune of each orbit of unicode.SimpleFold.
pub record GoLib : Type 0 where
  pub compile : String → Option (String → Bool)
  pub parse_time : String → Option ℤ
  pub fold : ℕ → ℕ

unfoldable pub parse_bool : String → Option Bool
parse_bool s =
    if str_eq s "1"
      || str_eq s "t"
      || str_eq s "T"
      || str_eq s "TRUE"
      || str_eq s "true"
      || str_eq s "True"
    then some true
    else if str_eq s "0"
        || str_eq s "f"
        || str_eq s "F"
        || str_eq s "FALSE"
        || str_eq s "false"
        || str_eq s "False"
    then some false
    else none

-- The digits of a number; an empty text and any other byte are errors.
digits : ℕ → String → Option ℕ
digits n String.[] = some n
digits n (String.◌∷◌ c s) =
    if leb b'0' (code c) && leb (code c) b'9' then digits (n * 10 + (code c - b'0')) s else none

abbrev unsigned : String → Option ℕ
unsigned String.[] = none
unsigned (String.◌∷◌ c s) = digits 0 (String.◌∷◌ c s)

-- `ParseInt` refuses what does not fit 64 bits; the digits are read first, since an error of
-- either kind is one error to the callers.
abbrev in_range : Bool → Option ℕ → Option ℤ
in_range negative none = none
in_range false (some n) = if ltb n (2 ^ 63) then some (pos n) else none
in_range true (some n) = if leb n (2 ^ 63) then some (minus n) else none

unfoldable pub parse_int : String → Option ℤ
unfolding digits
parse_int String.[] = none
parse_int (String.◌∷◌ c s) =
    if code c == b'+'
    then in_range false (unsigned s)
    else if code c == b'-'
    then in_range true (unsigned s)
    else in_range false (unsigned (String.◌∷◌ c s))

-- What follows the first "@", if there is one.
unfoldable pub cut_at : String → Option String
cut_at String.[] = none
cut_at (String.◌∷◌ c s) = if code c == b'@' then some s else cut_at s

unfoldable pub equal_fold : GoLib → String → String → Bool
equal_fold lib String.[] String.[] = true
equal_fold lib (String.◌∷◌ c s) (String.◌∷◌ d t) =
    lib.fold (code c) == lib.fold (code d) && equal_fold lib s t
equal_fold lib _ _ = false
