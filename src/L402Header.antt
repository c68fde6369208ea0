-- ===== src/L402Header.antt =====
-- ngx_l402_core/src/l402_header.rs: the challenge header, and the scheme of an `Authorization` value.
use ngx_l.Base.{◌≡◌, refl, Bool, true, false, Option, none, some}
use ngx_l.Text.{Str, codes, trim_start, get_to, eq_ignore_ascii_case, split_once_str, before}

-- The five bytes are compared in any case.
unfoldable pub is_l402_scheme : Str → Bool
unfolding trim_start get_to eq_ignore_ascii_case
is_l402_scheme auth = elim (get_to 5 (trim_start auth)) [
  | none ↦ false
  | some scheme ↦ eq_ignore_ascii_case scheme (codes "L402 ")
]

-- `split(key).nth(1)`: the part behind the first occurrence of the key, up to the second.
nth_one : Str → Str → Option Str
unfolding split_once_str
nth_one key header = elim (split_once_str key header) [
  | none ↦ none
  | some (_, rest) ↦ elim (split_once_str key rest) [
    | none ↦ some rest
    | some (part, _) ↦ some part
  ]
]

-- `split('"').next()` is always there: the text before the first quote.
unfoldable pub parse_l402_header_value : Str → Option (Str × Str)
unfolding nth_one before
parse_l402_header_value header = elim (nth_one (codes "macaroon=\"") header) [
  | none ↦ none
  | some m ↦ elim (nth_one (codes "invoice=\"") header) [
    | none ↦ none
    | some i ↦ some (before b'"' m, before b'"' i)
  ]
]

abbrev well_formed : Str
well_formed = codes "L402 macaroon=\"AbCd123==\", invoice=\"lnbc100n1pabc\""

parses_well_formed_header :
    parse_l402_header_value well_formed ≡ some (codes "AbCd123==", codes "lnbc100n1pabc")
unfolding parse_l402_header_value
parses_well_formed_header = refl

schemes :
    (is_l402_scheme (codes "l402 abc") ≡ true)
    × (is_l402_scheme (codes " L402 abc") ≡ true)
    × (is_l402_scheme (codes "L402") ≡ false)
    × (is_l402_scheme (codes "é402 abc") ≡ false)
    × (is_l402_scheme (codes "Nostr x") ≡ false)
unfolding is_l402_scheme
schemes = (refl, refl, refl, refl, refl)
