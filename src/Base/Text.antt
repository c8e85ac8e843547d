-- ===== src/Base/Text.antt =====
-- The methods of Python's `str` that the source calls, on texts of ASCII characters.
use Prim.Native.Nat.{ℕ, zero, suc, ◌+◌, ◌-◌, ◌*◌}
use Prim.Native.Char.{Char, code}
use Prim.Native.String.{String}
use mathlib.Core.Bool.{Bool, true, false, ◌&&◌, ◌||◌}
use mathlib.Core.Option.{Option, none, some}
use text.Mathlib.Text.{starts_with}
use binance_future_agent.Base.Int.{ℤ, pos, sub_ℕ}
use binance_future_agent.Base.Tests.{◌==◌, leb, nat_eq, if◌then◌else◌}

-- The character at an index, or the one given.
unfoldable pub char_or : Char → ℕ → String → Char
char_or d i String.[] = d
char_or d zero (String.◌∷◌ c s) = c
char_or d (suc i) (String.◌∷◌ c s) = char_or d i s

upper_char : Char → Char
upper_char c =
    if leb b'a' (code c) && leb (code c) b'z'
    then char_or c (code c - b'a') "ABCDEFGHIJKLMNOPQRSTUVWXYZ"
    else c

lower_char : Char → Char
lower_char c =
    if leb b'A' (code c) && leb (code c) b'Z'
    then char_or c (code c - b'A') "abcdefghijklmnopqrstuvwxyz"
    else c

-- `s.upper()`
unfoldable pub upper : String → String
unfolding upper_char
upper String.[] = String.[]
upper (String.◌∷◌ c s) = String.◌∷◌ (upper_char c) (upper s)

-- `s.lower()`
unfoldable pub lower : String → String
unfolding lower_char
lower String.[] = String.[]
lower (String.◌∷◌ c s) = String.◌∷◌ (lower_char c) (lower s)

-- `bool(s)` is `not is_blank s`.
abbrev pub is_blank : String → Bool
is_blank String.[] = true
is_blank (String.◌∷◌ c s) = false

is_space : Char → Bool
is_space c = nat_eq (code c) 32 || (leb 9 (code c) && leb (code c) 13)

lstrip : String → String
lstrip String.[] = String.[]
lstrip (String.◌∷◌ c s) = let rest = lstrip s in if is_space c then rest else String.◌∷◌ c s

rstrip : String → String
rstrip String.[] = String.[]
rstrip (String.◌∷◌ c s) =
    let rest = rstrip s in if is_blank rest && is_space c then String.[] else String.◌∷◌ c rest

-- `s.strip()`
unfoldable pub strip : String → String
unfolding lstrip rstrip is_space
strip s = rstrip (lstrip s)

-- `part in s`
unfoldable pub has_part : String → String → Bool
has_part String.[] part = is_blank part
has_part (String.◌∷◌ c s) part = starts_with (String.◌∷◌ c s) part || has_part s part

-- `s.split(":", 1)` where a colon is there, and nothing where none is.
unfoldable pub split_colon : String → Option (String × String)
split_colon String.[] = none
split_colon (String.◌∷◌ c s) =
    let rest = split_colon s in
    if nat_eq (code c) b':'
    then some (String.[], s)
    else elim rest [ none ↦ none | some (key, value) ↦ some (String.◌∷◌ c key, value) ]

-- `s[:-len(suffix)]` where `s.endswith(suffix)` and more than the suffix is there.
unfoldable pub without_suffix : String → String → Option String
without_suffix suffix String.[] = none
without_suffix suffix (String.◌∷◌ c s) =
    let rest = without_suffix suffix s in
    if s == suffix
    then some (String.◌∷◌ c String.[])
    else elim rest [ none ↦ none | some stem ↦ some (String.◌∷◌ c stem) ]

-- `"".join(ch for ch in s if ch.isdigit())`
unfoldable pub digits_of : String → String
digits_of String.[] = String.[]
digits_of (String.◌∷◌ c s) =
    let rest = digits_of s in
    if leb b'0' (code c) && leb (code c) b'9' then String.◌∷◌ c rest else rest

-- `s[:n]`
unfoldable pub take_text : ℕ → String → String
take_text zero s = String.[]
take_text (suc n) String.[] = String.[]
take_text (suc n) (String.◌∷◌ c s) = String.◌∷◌ c (take_text n s)

-- `len(s)`
unfoldable pub len_text : String → ℕ
len_text String.[] = 0
len_text (String.◌∷◌ c s) = len_text s + 1

-- The number that digits stand for, after the digits of `n`; nothing if another character comes.
parse_digits : ℕ → String → Option ℕ
parse_digits n String.[] = some n
parse_digits n (String.◌∷◌ c s) =
    let rest = parse_digits (n * 10 + (code c - b'0')) s in
    if leb b'0' (code c) && leb (code c) b'9' then rest else none

-- A number of at least one digit.
unfoldable pub parse_nat : String → Option ℕ
unfolding parse_digits
parse_nat s = if is_blank s then none else parse_digits 0 s

parse_signed : String → Option ℤ
parse_signed String.[] = none
parse_signed (String.◌∷◌ c s) =
    if nat_eq (code c) b'-'
    then elim (parse_nat s) [ none ↦ none | some n ↦ some (sub_ℕ 0 n) ]
    else elim (parse_nat (if nat_eq (code c) b'+' then s else String.◌∷◌ c s)) [
      | none ↦ none
      | some n ↦ some (pos n)
    ]

-- `int(s)`; nothing for a `ValueError`. Underscores between digits are not read.
unfoldable pub parse_int : String → Option ℤ
unfolding parse_signed
parse_int s = parse_signed (strip s)

-- A run on texts opens all of these with this one name.
unfoldable pub text_ops : Unit {0}
unfolding char_or upper lower strip has_part split_colon without_suffix digits_of take_text len_text
    parse_nat parse_int ◌==◌
text_ops = tt
