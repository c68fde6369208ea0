-- ===== src/Tenant.antt =====
-- ngx_l402_core/src/tenant.rs: parsing `l402_tenant` and the registry of tenants.
-- The registry's `HashMap` is an association list; the only thing read off its order is sorted.
pub mod Parsing
pub mod Registry
use ngx_l.Base.{
  ℕ, zero, suc, ◌+◌, ◌-◌, ◌*◌, ◌/◌, ◌%◌, ◌^◌, ◌≤◌, ◌<◌, min, max, ◌≡◌, refl, sym, ap, ◌∙◌, ◌≡⟨◌⟩◌,
  ◌∎, ◌≢◌, ◌↔◌, ◌⊎◌, inl, inr, Bool, true, false, not, ◌&&◌, ◌||◌, false≢true, Option, none, some,
  List, [], ◌∷◌, ◌++◌, map, append_assoc, append-nil, arith, ltb, leb, ◌==◌, if◌then◌else◌, leb→le,
  ==_iff, ==-refl, Bool-cases, Option-cases, ℤ, pos, negsuc, is_positive, is_negative, as_u64,
  is_some, unwrap_or, or_option, length, all, any, is_empty, first, length-append, All, All-append,
}
use ngx_l.Text.{Str, codes, str_eq, split_once, trim, is_ascii_alphanumeric}
use ngx_l.Outcome.{Result, ok, err, and_then}

pub record Tenant : Type 0 where
  pub id : Str
  pub lnurl_addr : Str

pub data TenantError : Type 0 where
  invalid_id not_key_value unknown_key repeated_key empty_value : Str → TenantError
  missing_lnurl : TenantError
  duplicate : Str → TenantError
  unknown : Str → List Str → TenantError

abbrev pub is_id_char : ℕ → Bool
is_id_char c = is_ascii_alphanumeric c || c == b'-' || c == b'_'

unfoldable pub valid_id : Str → Bool
valid_id id = not (is_empty id) && all is_id_char id

-- One round of the loop over the pairs, after `split_once`: the new content of the slot.
unfoldable pub set_slot : Str → Option Str → Option (Str × Str) → Result TenantError Str
set_slot arg slot none = err (not_key_value arg)
set_slot arg slot (some (key, value)) =
    if str_eq key (codes "lnurl")
    then (if is_some slot
        then err (repeated_key key)
        else (if is_empty (trim value) then err (empty_value key) else ok (trim value)))
    else err (unknown_key key)

-- The loop.
unfoldable pub parse_pairs : Option Str → List Str → Result TenantError (Option Str)
parse_pairs slot [] = ok slot
parse_pairs slot (arg ∷ pairs) =
    and_then (set_slot arg slot (split_once b'=' arg)) (λ value. parse_pairs (some value) pairs)

abbrev pub tenant_of : Str → Option Str → Result TenantError Tenant
tenant_of id none = err missing_lnurl
tenant_of id (some addr) = ok (record { id = id; lnurl_addr = addr })

unfoldable pub parse_tenant : List Str → Result TenantError Tenant
parse_tenant [] = err missing_lnurl
parse_tenant (id ∷ pairs) =
    if valid_id id then and_then (parse_pairs none pairs) (tenant_of id) else err (invalid_id id)

abbrev pub Tenants : Type 0
Tenants = List (Str × Tenant)

unfoldable pub get : Str → Tenants → Option Tenant
get id [] = none
get id ((k, t) ∷ m) = if str_eq k id then some t else get id m

-- `define`: a name that is there is refused.
unfoldable pub define : Tenants → Tenant → Result TenantError Tenants
define m t = if is_some (get t.id m) then err (duplicate t.id) else ok ((t.id, t) ∷ m)

-- `Ord` of strings: the order of their code points, which is that of their UTF-8 bytes.
unfoldable pub str_le : Str → Str → Bool
str_le [] t = true
str_le (a ∷ s) [] = false
str_le (a ∷ s) (b ∷ t) = if a == b then str_le s t else ltb a b

unfoldable pub insert_sorted : Str → List Str → List Str
insert_sorted x [] = x ∷ []
insert_sorted x (y ∷ l) = if str_le x y then x ∷ y ∷ l else y ∷ insert_sorted x l

-- `Vec::sort`.
unfoldable pub sort : List Str → List Str
sort [] = []
sort (x ∷ l) = insert_sorted x (sort l)

abbrev pub keys : Tenants → List Str
keys [] = []
keys ((k, _) ∷ m) = k ∷ keys m

unfoldable pub resolve : Tenants → Str → Result TenantError Tenant
resolve m id = elim (get id m) [ some t ↦ ok t | none ↦ err (unknown id (sort (keys m))) ]

unfoldable pub clear : Tenants → Tenants
clear m = []
