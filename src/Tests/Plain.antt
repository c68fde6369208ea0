-- ===== src/Tests/Plain.antt =====
-- The theorems of the pure modules, applied.
use ngx_l.Base.{
  ℕ, ◌+◌, ◌*◌, ◌/◌, ◌≤◌, ◌<◌, min, max, ◌≡◌, refl, ◌≢◌, ◌↔◌, true, false, not, none, some, List, [],
  ◌∷◌, arith, pos,
}
use ngx_l.Base.{any, ◌++◌}
use ngx_l.Escaping.{html_escape, escape_json}
use ngx_l.Escaping.Html.{each_entity, html_escape_lem, is_markup, html_escape_safe}
use ngx_l.Escaping.Json.{read_json, plain, escape_json_roundtrip, is_active, escape_json_inactive}
use ngx_l.RateLimit.{parse_rate_limit}
use ngx_l.RateLimit.Range.{IsLimit, parse_rate_limit_range}
use ngx_l.Text.{Str, codes, trim}
use ngx_l.Outcome.{ok, err}
use ngx_l.ReplayCache.{with_capacity, claim, release, contains, len}
use ngx_l.ReplayCache.Invariant.{IsValid, with_capacity-IsValid, claim-IsValid}
use ngx_l.ReplayCache.Fifo.{claims, run, claim_once, release_lem, survives, run-IsValid}
use ngx_l.Fee.{sat_to_msat, u64_max, Float, CastSaturates, fee_reserve_msat, melt_reserve_msat}
use ngx_l.Fee.Bounds.{sat_to_msat_saturates, melt_reserve_msat_bounds}
use ngx_l.Tenant
use ngx_l.Tenant.{Tenant, Tenants, get, duplicate, define, resolve, parse_tenant}
use ngx_l.Tenant.Parsing.{IsAccepted, parse_tenant_iff}
use ngx_l.Tenant.Registry.{define_lem}
use ngx_l.Config
use ngx_l.Config.{ModuleConfig, Environment}

abbrev a_key : Str
a_key = codes "a"

abbrev b_key : Str
b_key = codes "b"

claim_once_example :
    ((claim (with_capacity 2) a_key).1 ≡ not (contains (with_capacity 2) a_key))
    × (contains (claim (with_capacity 2) a_key).0 a_key ≡ true)
    × ((claim (claim (with_capacity 2) a_key).0 a_key).1 ≡ false)
claim_once_example = claim_once (with_capacity 2) a_key

release_lem_example :
    (contains (release (claim (with_capacity 2) a_key).0 a_key) a_key ≡ false)
    × (len (release (claim (with_capacity 2) a_key).0 a_key) + 1
        ≡ len (claim (with_capacity 2) a_key).0)
    × ((j : Str)
        → a_key ≢ j
        → contains (release (claim (with_capacity 2) a_key).0 a_key) j
          ≡ contains (claim (with_capacity 2) a_key).0 j)
release_lem_example =
    release_lem (claim (with_capacity 2) a_key).0 a_key
      (claim-IsValid (with_capacity 2) a_key (with_capacity-IsValid 2))
      (claim_once (with_capacity 2) a_key).1

survives_example :
    (claim (run (claim (with_capacity 2) a_key).0 (claims b_key ∷ [])) a_key).1 ≡ false
unfolding contains with_capacity
survives_example =
    survives (with_capacity 2) a_key (claims b_key ∷ []) (with_capacity-IsValid 2) refl
      (ground arith) tt

run-IsValid_example :
    IsValid (run (with_capacity 1) (claims a_key ∷ claims b_key ∷ []))
    × (len (run (with_capacity 1) (claims a_key ∷ claims b_key ∷ [])) ≤ max 1 1)
run-IsValid_example = run-IsValid 1 (claims a_key ∷ claims b_key ∷ [])

sat_to_msat_saturates_example :
    (21 * 1000 ≤ u64_max → sat_to_msat 21 ≡ 21 * 1000)
    × (u64_max < 21 * 1000 → sat_to_msat 21 ≡ u64_max)
    × (21 ≤ 22 → sat_to_msat 21 ≤ sat_to_msat 22)
sat_to_msat_saturates_example = sat_to_msat_saturates 21 22

abbrev args : List Str
args = codes "shop" ∷ codes "lnurl=a@b.c" ∷ []

abbrev shop : Tenant
shop = record { id = codes "shop"; lnurl_addr = codes "a@b.c" }

parse_tenant_iff_example : (parse_tenant args ≡ ok shop) ↔ IsAccepted args shop
parse_tenant_iff_example = parse_tenant_iff args shop

-- The example is accepted.
parses : parse_tenant args ≡ ok shop
unfolding parse_tenant Tenant.valid_id ngx_l.Text.is_ascii_alphanumeric Tenant.parse_pairs
    Tenant.set_slot ngx_l.Text.split_once ngx_l.Text.trim
parses = refl

abbrev outer : ModuleConfig
outer = record ngx_l.Config.default {
  enable = some true;
  amount_msat = pos 1000;
  lnurl_addr = some (codes "o@x");
}

abbrev inner : ModuleConfig
inner = record ngx_l.Config.default { amount_msat = pos 5 }

abbrev merged : ModuleConfig
merged = record outer { amount_msat = pos 5 }

abbrev environment : Environment
environment = record { cashu_on = true; backend_is_lnurl = true }

-- Floats that are naturals, cut to a u64 by their conversion.
abbrev pub whole : Float
whole = record {
  F64 = ℕ;
  of_u64 = λ n. n;
  mul = λ a b. a * b;
  div = λ a b. a / b;
  one = 1;
  ten = 10;
  hundred = 100;
  parse = λ s. none;
  to_u64 = λ n. min n u64_max;
}

cut : CastSaturates whole
cut n = omega arith

melt_reserve_msat_bounds_example :
    (2000 ≤ melt_reserve_msat whole 100000 100 2000 7)
    × (7 ≤ melt_reserve_msat whole 100000 100 2000 7)
    × (melt_reserve_msat whole 100000 100 2000 7 ≤ u64_max)
    × (fee_reserve_msat whole 100000 100 2000 ≤ melt_reserve_msat whole 100000 100 2000 7)
    × ((fee_reserve_msat whole 100000 100 2000 + 7 ≤ u64_max)
        → melt_reserve_msat whole 100000 100 2000 7 ≡ fee_reserve_msat whole 100000 100 2000 + 7)
    × ((u64_max < fee_reserve_msat whole 100000 100 2000 + 7)
        → melt_reserve_msat whole 100000 100 2000 7 ≡ u64_max)
melt_reserve_msat_bounds_example =
    melt_reserve_msat_bounds whole cut 100000 100 2000 7 (omega arith) (omega arith)

define_lem_example :
    ((first : Tenant) → get shop.id [] ≡ some first → define [] shop ≡ err (duplicate shop.id))
    × (get shop.id [] ≡ none
        → (m : Tenants) × (define [] shop ≡ ok m)
          × (resolve m shop.id ≡ ok shop)
          × ((id : Str) → shop.id ≢ id → get id m ≡ get id []))
define_lem_example = define_lem [] shop

abbrev markup : Str
markup = codes "<b> & \"q\""

html_escape_lem_example : html_escape markup ≡ each_entity markup
html_escape_lem_example = html_escape_lem markup

html_escape_safe_example : any is_markup (html_escape markup) ≡ false
html_escape_safe_example = html_escape_safe markup

escape_json_roundtrip_example : read_json plain (escape_json markup ++ b'"' ∷ codes "}") ≡ markup
escape_json_roundtrip_example = escape_json_roundtrip markup (codes "}")

escape_json_inactive_example : any is_active (escape_json markup) ≡ false
escape_json_inactive_example = escape_json_inactive markup

five_a_minute : parse_rate_limit (codes " 5 r/m") ≡ some (5, 60)
unfolding parse_rate_limit ngx_l.RateLimit.per_minute ngx_l.Text.strip_suffix ngx_l.Text.trim
    ngx_l.RateLimit.per_window ngx_l.Text.parse_unsigned
five_a_minute = refl

parse_rate_limit_range_example : IsLimit (trim (codes " 5 r/m")) 5 60
parse_rate_limit_range_example = parse_rate_limit_range (codes " 5 r/m") 5 60 five_a_minute
