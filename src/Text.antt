-- ===== src/Text.antt =====
-- The operations of Rust's `str` that the program uses, over lists of code points.
pub mod Laws
use ngx_l.Base.{is_empty}
use Prim.Native.Char.{code}
use Prim.Native.String.{String}
use ngx_l.Base.{
  ℕ, zero, suc, ◌+◌, ◌-◌, ◌*◌, ◌<◌, ◌≤◌, Bool, true, false, ◌&&◌, ◌||◌, Option, none, some, List,
  [], ◌∷◌, ◌++◌, ltb, leb, ◌==◌, if◌then◌else◌, map,
}

-- A string is the list of its code points.
abbrev pub Str : Type 0
Str = List ℕ

-- The code points of a literal.
abbrev pub codes : String → Str
codes String.[] = []
codes (String.◌∷◌ c s) = code c ∷ codes s

abbrev pub str_eq : Str → Str → Bool
str_eq [] [] = true
str_eq [] (_ ∷ _) = false
str_eq (_ ∷ _) [] = false
str_eq (a ∷ s) (b ∷ t) = a == b && str_eq s t

-- `char::is_whitespace`: the Unicode property White_Space.
unfoldable pub is_whitespace : ℕ → Bool
is_whitespace c =
    (leb 9 c && leb c 13)
    || c == 32
    || c == 0x85
    || c == 0xa0
    || c == 0x1680
    || (leb 0x2000 c && leb c 0x200a)
    || c == 0x2028
    || c == 0x2029
    || c == 0x202f
    || c == 0x205f
    || c == 0x3000

-- `char::is_control`: the Unicode category Cc.
unfoldable pub is_control : ℕ → Bool
is_control c = ltb c 32 || (leb 127 c && leb c 159)

unfoldable pub is_ascii_alphanumeric : ℕ → Bool
is_ascii_alphanumeric c =
    (leb b'0' c && leb c b'9') || (leb b'A' c && leb c b'Z') || (leb b'a' c && leb c b'z')

-- `str::trim_start`, `str::trim_end` and `str::trim`.
unfoldable pub trim_start : Str → Str
unfolding is_whitespace
trim_start [] = []
trim_start (c ∷ s) = if is_whitespace c then trim_start s else c ∷ s

abbrev keep : ℕ → Str → Str
keep c [] = if is_whitespace c then [] else c ∷ []
keep c (d ∷ s) = c ∷ d ∷ s

unfoldable pub trim_end : Str → Str
unfolding is_whitespace
trim_end [] = []
trim_end (c ∷ s) = keep c (trim_end s)

unfoldable pub trim : Str → Str
unfolding trim_start trim_end
trim s = trim_end (trim_start s)

-- `str::strip_prefix`: what follows the prefix.
unfoldable pub strip_prefix : Str → Str → Option Str
strip_prefix [] s = some s
strip_prefix (p ∷ ps) [] = none
strip_prefix (p ∷ ps) (c ∷ s) = if p == c then strip_prefix ps s else none

unfoldable pub starts_with : Str → Str → Bool
starts_with [] s = true
starts_with (p ∷ ps) [] = false
starts_with (p ∷ ps) (c ∷ s) = p == c && starts_with ps s

-- `str::strip_suffix`: what precedes the suffix.
unfoldable pub strip_suffix : Str → Str → Option Str
strip_suffix p [] = if str_eq [] p then some [] else none
strip_suffix p (c ∷ s) =
    if str_eq (c ∷ s) p
    then some []
    else elim (strip_suffix p s) [ none ↦ none | some t ↦ some (c ∷ t) ]

-- `str::split_once` and `str::rsplit_once` at a character: the first and the last occurrence.
unfoldable pub split_once : ℕ → Str → Option (Str × Str)
split_once x [] = none
split_once x (c ∷ s) =
    if c == x
    then some ([], s)
    else elim (split_once x s) [ none ↦ none | some (a, b) ↦ some (c ∷ a, b) ]

unfoldable pub rsplit_once : ℕ → Str → Option (Str × Str)
rsplit_once x [] = none
rsplit_once x (c ∷ s) = elim (rsplit_once x s) [
  | some (a, b) ↦ some (c ∷ a, b)
  | none ↦ if c == x then some ([], s) else none
]

-- `str::split_once` at a string: the first occurrence.
unfoldable pub split_once_str : Str → Str → Option (Str × Str)
unfolding strip_prefix
split_once_str p [] = elim (strip_prefix p []) [ none ↦ none | some s ↦ some ([], s) ]
split_once_str p (c ∷ s) = elim (strip_prefix p (c ∷ s)) [
  | some t ↦ some ([], t)
  | none ↦ elim (split_once_str p s) [ none ↦ none | some (a, b) ↦ some (c ∷ a, b) ]
]

-- `str::split(x).next()`: up to the first occurrence of the character, or the whole string.
unfoldable pub before : ℕ → Str → Str
before x [] = []
before x (c ∷ s) = if c == x then [] else c ∷ before x s

unfoldable pub contains_char : ℕ → Str → Bool
contains_char x [] = false
contains_char x (c ∷ s) = c == x || contains_char x s

-- `str::trim_start_matches` for a string pattern: strips the prefix as often as it is there. Each
-- strip of a non-empty prefix shortens the string, so its length is fuel enough.
trim_matches_fuel : ℕ → Str → Str → Str
unfolding strip_prefix
trim_matches_fuel zero p s = s
trim_matches_fuel (suc n) p s = elim (strip_prefix p s) [
  | none ↦ s
  | some t ↦ trim_matches_fuel n p t
]

abbrev len : Str → ℕ
len [] = 0
len (_ ∷ s) = suc (len s)

unfoldable pub trim_start_matches : Str → Str → Str
unfolding trim_matches_fuel
trim_start_matches p s = trim_matches_fuel (len s) p s

unfoldable pub to_ascii_lowercase : ℕ → ℕ
to_ascii_lowercase c = if leb b'A' c && leb c b'Z' then c + 32 else c

unfoldable pub eq_ignore_ascii_case : Str → Str → Bool
unfolding to_ascii_lowercase
eq_ignore_ascii_case s t = str_eq (map to_ascii_lowercase s) (map to_ascii_lowercase t)

-- The number of bytes of a code point in UTF-8.
unfoldable pub len_utf8 : ℕ → ℕ
len_utf8 c = if ltb c 0x80 then 1 else if ltb c 0x800 then 2 else if ltb c 0x10000 then 3 else 4

-- `str::get(..n)`: the first n bytes, `none` past the end or inside a character.
unfoldable pub get_to : ℕ → Str → Option Str
unfolding len_utf8
get_to zero s = some []
get_to (suc n) [] = none
get_to (suc n) (c ∷ s) =
    if leb (len_utf8 c) (suc n)
    then elim (get_to (suc n - len_utf8 c) s) [ none ↦ none | some t ↦ some (c ∷ t) ]
    else none

-- One digit of `from_str`: `checked_mul` and `checked_add` fail at the type's bound.
abbrev pub add_digit : ℕ → ℕ → ℕ → Option ℕ
add_digit bound acc c =
    if leb b'0' c && leb c b'9'
    then (if ltb (acc * 10 + (c - b'0')) bound then some (acc * 10 + (c - b'0')) else none)
    else none

unfoldable pub parse_digits : ℕ → ℕ → Str → Option ℕ
parse_digits bound acc [] = some acc
parse_digits bound acc (c ∷ s) = elim (add_digit bound acc c) [
  | none ↦ none
  | some n ↦ parse_digits bound n s
]

-- `from_str` of an unsigned integer type whose values are below the bound: an optional `+`, then at
-- least one digit.
unfoldable pub parse_unsigned : ℕ → Str → Option ℕ
unfolding parse_digits
parse_unsigned bound [] = none
parse_unsigned bound (c ∷ []) = parse_digits bound 0 (c ∷ [])
parse_unsigned bound (c ∷ d ∷ s) =
    if c == b'+' then parse_digits bound 0 (d ∷ s) else parse_digits bound 0 (c ∷ d ∷ s)

-- `str::split` at a character: always at least one piece.
unfoldable pub split : ℕ → Str → List Str
split x [] = [] ∷ []
split x (c ∷ s) =
    let pieces = split x s in
    if c == x then [] ∷ pieces else elim pieces [ [] ↦ (c ∷ []) ∷ [] | p ∷ rest ↦ (c ∷ p) ∷ rest ]

-- `str::trim_end_matches` for a character.
unfoldable pub trim_end_matches : ℕ → Str → Str
trim_end_matches x [] = []
trim_end_matches x (c ∷ s) =
    let rest = trim_end_matches x s in if c == x && is_empty rest then [] else c ∷ rest
