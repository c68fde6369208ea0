-- ===== src/Escaping/Json.antt =====
-- ngx_l402_core/src/escaping.rs: `escape_json` and a reader of JSON string literals.
use ngx_l.Base.{
  ℕ, ◌+◌, ◌-◌, ◌*◌, ◌/◌, ◌%◌, ◌<◌, ◌≡◌, refl, ap, ◌∙◌, Bool, false, ◌||◌, [], ◌∷◌, ◌++◌,
  append_assoc, arith, ltb, leb, ◌==◌, if◌then◌else◌, any,
}
use ngx_l.Base.{any-append, append_assoc, ◌∙◌}
use ngx_l.Text.{Str}
use ngx_l.Escaping.{hex_digit, json_char, escape_json}

-- The value of a hexadecimal digit.
abbrev pub hex_value : ℕ → ℕ
hex_value h = if leb b'a' h then h - b'a' + 10 else h - b'0'

-- The character behind a backslash, other than `u`.
abbrev pub plain_escape : ℕ → ℕ
plain_escape c = if c == b'n' then 10 else if c == b'r' then 13 else if c == b't' then 9 else c

-- Where a reader of a JSON string literal stands: between characters, behind a backslash, or before the
-- last 4, 3, 2 or 1 digits of a code, with the value of the digits so far.
pub data Reading : Type 0 where
  plain slash : Reading
  hex4 hex3 hex2 hex1 : ℕ → Reading

-- The text that the inside of a JSON string literal stands for, up to a quote that ends it.
unfoldable pub read_json : Reading → Str → Str
read_json state [] = []
read_json plain (c ∷ s) =
    let behind = read_json slash s in
    let rest = read_json plain s in
    if c == b'"' then [] else if c == b'\\' then behind else c ∷ rest
read_json slash (c ∷ s) =
    let code = read_json (hex4 0) s in
    let rest = read_json plain s in if c == b'u' then code else plain_escape c ∷ rest
read_json (hex4 n) (c ∷ s) = read_json (hex3 (n * 16 + hex_value c)) s
read_json (hex3 n) (c ∷ s) = read_json (hex2 (n * 16 + hex_value c)) s
read_json (hex2 n) (c ∷ s) = read_json (hex1 (n * 16 + hex_value c)) s
read_json (hex1 n) (c ∷ s) = (n * 16 + hex_value c) ∷ read_json plain s

hex_value-hex_digit : (n : ℕ) → n < 16 → hex_value (hex_digit n) ≡ n
hex_value-hex_digit n h = ground arith

control_value :
    (c : ℕ)
    → c < 0x20
    → (0 * 16 + hex_value (hex_digit (c / 16))) * 16 + hex_value (hex_digit (c % 16)) ≡ c
control_value c h =
    rw (hex_value-hex_digit (c / 16) (omega arith), hex_value-hex_digit (c % 16) (omega arith))
      (omega arith)

read_char : (c : ℕ) (t : Str) → read_json plain (json_char c ++ t) ≡ c ∷ read_json plain t
unfolding read_json json_char
read_char c t = ground (arith, control_value c)

-- The inside of a JSON string literal with the escaped text, up to the quote that ends it and whatever
-- comes after, stands for the text.
pub escape_json_roundtrip : (s rest : Str) → read_json plain (escape_json s ++ b'"' ∷ rest) ≡ s
unfolding escape_json read_json
escape_json_roundtrip [] rest = refl
escape_json_roundtrip (c ∷ s) rest =
    ap (read_json plain) (append_assoc (json_char c) (escape_json s) (b'"' ∷ rest))
    ∙ read_char c (escape_json s ++ b'"' ∷ rest)
    ∙ ap (λ t. c ∷ t) (escape_json_roundtrip s rest)

-- A character that HTML or JavaScript may read as markup or as the end of a line.
abbrev pub is_active : ℕ → Bool
is_active c = c == b'<' || c == b'>' || c == b'&' || c == 0x2028 || c == 0x2029 || ltb c 0x20

json_char_inactive : (c : ℕ) → any is_active (json_char c) ≡ false
unfolding json_char
json_char_inactive c = ground arith

-- The escaped text has no character that HTML or JavaScript may read as markup or as the end of a line.
pub escape_json_inactive : (s : Str) → any is_active (escape_json s) ≡ false
unfolding escape_json
escape_json_inactive [] = refl
escape_json_inactive (c ∷ s) =
    rw (any-append is_active (json_char c) (escape_json s), json_char_inactive c)
      (escape_json_inactive s)
