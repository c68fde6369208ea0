-- ===== src/Tenant/Parsing.antt =====
-- ngx_l402_core/src/tenant.rs: exactly which arguments of `l402_tenant` are accepted.
use ngx_l.Base.{
  ◌≡◌, refl, ap, ◌∙◌, ◌≢◌, ◌↔◌, inl, inr, true, false, Option, none, some, List, [], ◌∷◌, arith,
  Bool-cases, is_empty,
}
use ngx_l.Text.{Str, codes, split_once, trim}
use ngx_l.Text.Laws.{str_eq_iff}
use ngx_l.Outcome.{Result, ok, err, and_then-eq-ok}
use ngx_l.Tenant.{Tenant, valid_id, set_slot, parse_pairs, parse_tenant, tenant_of}

-- The arguments are a valid name and one pair whose key is `lnurl` and whose value is not blank, and the
-- tenant has that name and the trimmed value.
pub record IsAccepted (args : List Str) (t : Tenant) : Type 0 where
  pub arg : Str
  pub value : Str
  pub two : args ≡ t.id ∷ arg ∷ []
  pub named : valid_id t.id ≡ true
  pub pair : split_once b'=' arg ≡ some (codes "lnurl", value)
  pub filled : is_empty (trim value) ≡ false
  pub address : t.lnurl_addr ≡ trim value

set_slot-ok :
    (arg : Str) (p : Option (Str × Str)) (v : Str)
    → set_slot arg none p ≡ ok v
    → (value : Str) × (p ≡ some (codes "lnurl", value))
      × (is_empty (trim value) ≡ false)
      × (v ≡ trim value)
unfolding set_slot
set_slot-ok arg none v h = cc
set_slot-ok arg (some (key, value)) v h =
    (value, ground (arith, str_eq_iff key (codes "lnurl")), ground arith, ground arith)

err_is_not_ok : {E A : Type 0} {e : E} {a : A} → ◌≡◌ {A = Result E A} (err e) (ok a) → ⊥
err_is_not_ok h = cc

-- A second pair is always refused.
second_refused : (arg : Str) (v v' : Str) (p : Option (Str × Str)) → set_slot arg (some v) p ≢ ok v'
unfolding set_slot
second_refused arg v v' none = cc
second_refused arg v v' (some (key, value)) = ground arith

-- A second pair is refused, whatever it is, so the list ends after the first.
rest-ok :
    (pairs : List Str) (v : Str) (o : Option Str)
    → parse_pairs (some v) pairs ≡ ok o
    → (pairs ≡ []) × (o ≡ some v)
unfolding parse_pairs
rest-ok [] v o h = (refl, cc)
rest-ok (arg ∷ pairs) v o h =
    let (v', e, _) = and_then-eq-ok _ _ h in
    absurd (second_refused arg v v' (split_once b'=' arg) e)

-- The fields of an accepted pair.
abbrev IsPair : Str → Str → Type 0
IsPair arg v =
    (value : Str) × (split_once b'=' arg ≡ some (codes "lnurl", value))
    × (is_empty (trim value) ≡ false)
    × (v ≡ trim value)

payload : {v w : Str} → ◌≡◌ {A = Option Str} (some v) (some w) → v ≡ w
payload h = cc

pairs-ok :
    (pairs : List Str) (v : Str)
    → parse_pairs none pairs ≡ ok (some v)
    → (arg : Str) × (pairs ≡ arg ∷ []) × IsPair arg v
unfolding parse_pairs
pairs-ok [] v h = absurd (cc)
pairs-ok (arg ∷ pairs) v h =
    let (v', e, k) = and_then-eq-ok _ _ h in
    let (nil, same) = rest-ok pairs v' (some v) k in
    let (value, p, f, a) = set_slot-ok arg (split_once b'=' arg) v' e in
    (arg, ap (◌∷◌ arg) nil, (value, p, f, payload same ∙ a))

tenant_of-ok :
    (id : Str) (o : Option Str) (t : Tenant)
    → tenant_of id o ≡ ok t
    → (t.id ≡ id) × (o ≡ some t.lnurl_addr)
tenant_of-ok id none t h = absurd (cc)
tenant_of-ok id (some addr) t h = (cc, cc)

parse_tenant_sound : (args : List Str) (t : Tenant) → parse_tenant args ≡ ok t → IsAccepted args t
unfolding parse_tenant
parse_tenant_sound [] t h = absurd (cc)
parse_tenant_sound (id ∷ pairs) t h = elim (Bool-cases (valid_id id)) [
  | inr bad ↦ absurd (err_is_not_ok (rw bad at h))
  | inl good ↦
      let (o, parsed, made) =
        and_then-eq-ok (parse_pairs none pairs) (tenant_of id) (rw good at h) in
      let (same, addr) = tenant_of-ok id o t made in
      let (arg, one, pair) = pairs-ok pairs t.lnurl_addr (parsed ∙ ap ok addr) in
      let (value, p, f, a) = pair in
      record {
        arg = arg;
        value = value;
        two = cc;
        named = rw same good;
        pair = p;
        filled = f;
        address = a;
      }
]

parse_tenant_complete :
    (args : List Str) (t : Tenant) → IsAccepted args t → parse_tenant args ≡ ok t
unfolding parse_tenant parse_pairs set_slot
parse_tenant_complete args t a = rw (a.two, a.named, a.pair, a.filled, ← a.address)

-- The arguments of `l402_tenant` define a tenant exactly when they are a valid name and one pair
-- `lnurl=<value>` with a value that is not blank; the tenant then has that name and the trimmed value.
pub parse_tenant_iff :
    (args : List Str) (t : Tenant) → (parse_tenant args ≡ ok t) ↔ IsAccepted args t
parse_tenant_iff args t = (parse_tenant_sound args t, parse_tenant_complete args t)
