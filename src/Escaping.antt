-- ===== src/Escaping.antt =====
-- ngx_l402_core/src/escaping.rs: `html_escape` and `escape_json`.
pub mod Html
pub mod Json
use ngx_l.Base.{
  ℕ, zero, suc, ◌+◌, ◌-◌, ◌*◌, ◌/◌, ◌%◌, ◌^◌, ◌≤◌, ◌<◌, min, max, ◌≡◌, refl, sym, ap, ◌∙◌, ◌≡⟨◌⟩◌,
  ◌∎, ◌≢◌, ◌↔◌, ◌⊎◌, inl, inr, Bool, true, false, not, ◌&&◌, ◌||◌, false≢true, Option, none, some,
  List, [], ◌∷◌, ◌++◌, map, append_assoc, append-nil, arith, ltb, leb, ◌==◌, if◌then◌else◌, leb→le,
  ==_iff, ==-refl, Bool-cases, Option-cases, ℤ, pos, negsuc, is_positive, is_negative, as_u64,
  is_some, unwrap_or, or_option, length, all, any, is_empty, first, length-append, All, All-append,
}
use ngx_l.Text.{Str, codes}

-- `str::replace` of a character by a text.
unfoldable pub replace : ℕ → Str → Str → Str
replace x r [] = []
replace x r (c ∷ s) = let rest = replace x r s in if c == x then r ++ rest else c ∷ rest

unfoldable pub html_escape : Str → Str
html_escape s = replace b'\'' (codes "&#x27;") (
    replace b'"' (codes "&quot;")
      (replace b'>' (codes "&gt;") (replace b'<' (codes "&lt;") (replace b'&' (codes "&amp;") s))))

-- A digit of `{:04x}`.
abbrev pub hex_digit : ℕ → ℕ
hex_digit n = if ltb n 10 then b'0' + n else b'a' + (n - 10)

-- What one character is written as.
unfoldable pub json_char : ℕ → Str
json_char c =
    if c == b'"'
    then codes "\\\""
    else if c == b'\\'
    then codes "\\\\"
    else if c == 10
    then codes "\\n"
    else if c == 13
    then codes "\\r"
    else if c == 9
    then codes "\\t"
    else if c == b'<'
    then codes "\\u003c"
    else if c == b'>'
    then codes "\\u003e"
    else if c == b'&'
    then codes "\\u0026"
    else if c == 0x2028
    then codes "\\u2028"
    else if c == 0x2029
    then codes "\\u2029"
    else if ltb c 0x20
    then codes "\\u00" ++ hex_digit (c / 16) ∷ hex_digit (c % 16) ∷ []
    else c ∷ []

unfoldable pub escape_json : Str → Str
escape_json [] = []
escape_json (c ∷ s) = json_char c ++ escape_json s
