-- ===== src/Escaping/Html.antt =====
-- ngx_l402_core/src/escaping.rs: `html_escape` and the entities of HTML.
use ngx_l.Base.{
  ℕ, ◌≡◌, refl, ap, ◌∙◌, Bool, false, ◌||◌, [], ◌∷◌, ◌++◌, arith, ◌==◌, if◌then◌else◌, any,
}
use ngx_l.Base.{any-append, ◌∙◌}
use ngx_l.Text.{Str, codes}
use ngx_l.Escaping.{replace, html_escape}

-- The entity of a character.
abbrev pub entity : ℕ → Str
entity c =
    if c == b'&'
    then codes "&amp;"
    else if c == b'<'
    then codes "&lt;"
    else if c == b'>'
    then codes "&gt;"
    else if c == b'"'
    then codes "&quot;"
    else if c == b'\''
    then codes "&#x27;"
    else c ∷ []

-- Each character by its entity, from left to right.
abbrev pub each_entity : Str → Str
each_entity [] = []
each_entity (c ∷ s) = entity c ++ each_entity s

html_escape-cons : (c : ℕ) (s : Str) → html_escape (c ∷ s) ≡ entity c ++ html_escape s
unfolding html_escape replace
html_escape-cons c s = ground arith

-- The five replacements, each of the whole result of the one before, are one pass over the text: no
-- entity is escaped twice and no character is missed.
pub html_escape_lem : (s : Str) → html_escape s ≡ each_entity s
html_escape_lem [] = unfold html_escape replace in refl
html_escape_lem (c ∷ s) = html_escape-cons c s ∙ ap (λ t. entity c ++ t) (html_escape_lem s)

-- A character that opens or closes markup or an attribute.
abbrev pub is_markup : ℕ → Bool
is_markup c = c == b'<' || c == b'>' || c == b'"' || c == b'\''

entity_safe : (c : ℕ) → any is_markup (entity c) ≡ false
entity_safe c = ground arith

-- No character of the result opens or closes markup or an attribute.
pub html_escape_safe : (s : Str) → any is_markup (html_escape s) ≡ false
html_escape_safe s = rw (html_escape_lem s) (each s)
  where
    each : (s : Str) → any is_markup (each_entity s) ≡ false
    each [] = refl
    each (c ∷ s) = rw (any-append is_markup (entity c) (each_entity s), entity_safe c) (each s)
