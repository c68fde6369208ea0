-- ===== src/Tenant/Registry.antt =====
-- ngx_l402_core/src/tenant.rs: the registry.
use ngx_l.Base.{◌≡◌, ◌≢◌, none, some, ◌∷◌, arith}
use ngx_l.Text.{Str}
use ngx_l.Text.Laws.{str_eq_iff, str_eq_refl}
use ngx_l.Outcome.{ok, err}
use ngx_l.Tenant.{Tenant, duplicate, Tenants, get, define, resolve}

get-cons_ne : (m : Tenants) (t : Tenant) (id : Str) → t.id ≢ id → get id ((t.id, t) ∷ m) ≡ get id m
unfolding get
get-cons_ne m t id h = ground (arith, str_eq_iff t.id id)

resolve_self : (m : Tenants) (t : Tenant) → resolve ((t.id, t) ∷ m) t.id ≡ ok t
unfolding resolve get
resolve_self m t = ground (arith, str_eq_refl t.id)

-- A name that is taken is refused. Otherwise the tenant is resolved by its name afterwards, and every
-- other name as before.
pub define_lem :
    (m : Tenants) (t : Tenant)
    → ((first : Tenant) → get t.id m ≡ some first → define m t ≡ err (duplicate t.id))
      × (get t.id m ≡ none
          → (m' : Tenants) × (define m t ≡ ok m')
            × (resolve m' t.id ≡ ok t)
            × ((id : Str) → t.id ≢ id → get id m' ≡ get id m))
unfolding define resolve
define_lem m t = (λ first h. rw h, λ h. ((t.id, t) ∷ m, rw h, resolve_self m t, get-cons_ne m t))
