-- ===== src/Config/Inherit.antt =====
-- src/lib.rs: what a merged location has, and which configurations are refused.
use ngx_l.Base.{◌≡◌, ◌⊎◌, true, false, ◌||◌, Option, none, some, is_some, or_option, is_empty}
use ngx_l.Text.{Str}
use ngx_l.Outcome.{ok}
use ngx_l.Tenant.{Tenants, Tenant, resolve}
use ngx_l.Config.{ModuleConfig, Environment, inherit_positive, is_on}

-- The settings that do not concern the payout: the inner scope's where it has one.
pub record Inherits (self prev merged : ModuleConfig) : Type 0 where
  pub enable : merged.enable ≡ or_option self.enable prev.enable
  pub dry_run : merged.dry_run ≡ or_option self.dry_run prev.dry_run
  pub indefinite :
      merged.indefinite_access ≡ or_option self.indefinite_access prev.indefinite_access
  pub detect :
      merged.auto_detect_payment ≡ or_option self.auto_detect_payment prev.auto_detect_payment
  pub html : merged.payment_html ≡ or_option self.payment_html prev.payment_html
  pub realm : merged.realm ≡ or_option self.realm prev.realm
  pub limit : merged.invoice_rate_limit ≡ or_option self.invoice_rate_limit prev.invoice_rate_limit
  pub price : merged.amount_msat ≡ inherit_positive self.amount_msat prev.amount_msat
  pub timeout :
      merged.macaroon_timeout ≡ inherit_positive self.macaroon_timeout prev.macaroon_timeout
  pub log_format : merged.log_format_json ≡ or_option self.log_format_json prev.log_format_json
  pub exempt_inner :
      is_empty self.exempt_methods ≡ false → merged.exempt_methods ≡ self.exempt_methods
  pub exempt_outer :
      is_empty self.exempt_methods ≡ true → merged.exempt_methods ≡ prev.exempt_methods
  pub hidden : merged.manifest_hidden ≡ prev.manifest_hidden || self.manifest_hidden

-- The payout address: that of the tenant which the location names, else its own, else the outer
-- scope's.
abbrev pub PaysTo : Tenants → ModuleConfig → ModuleConfig → ModuleConfig → Type 0
PaysTo tenants self prev merged =
    ((id : Str) × (t : Tenant) × (self.tenant_ref ≡ some id)
      × (self.lnurl_addr ≡ none)
      × (resolve tenants id ≡ ok t)
      × (merged.lnurl_addr ≡ some t.lnurl_addr)
      × (merged.tenant_ref ≡ some id))
    ⊎ ((self.tenant_ref ≡ none) × (merged.lnurl_addr ≡ or_option self.lnurl_addr prev.lnurl_addr))

-- What holds of a configuration that nginx accepts: a realm has indefinite access, and a tenant whose
-- route takes Cashu is paid it.
pub record IsAccepted (env : Environment) (merged : ModuleConfig) : Type 0 where
  pub realm_is_indefinite :
      is_on merged.enable ≡ true
      → is_some merged.realm ≡ true
      → is_on merged.indefinite_access ≡ true
  pub tenant_gets_cashu :
      is_on merged.enable ≡ true
      → is_some merged.lnurl_addr ≡ true
      → is_some merged.tenant_ref ≡ true
      → env.cashu_on ≡ true
      → env.backend_is_lnurl ≡ true

-- A tenant that resolves gives the address; anything else is refused.
Resolved : Tenants → ModuleConfig → Str → ModuleConfig → Type 0
Resolved tenants c id r =
    (c.lnurl_addr ≡ none)
    × (t : Tenant) × (resolve tenants id ≡ ok t)
    × (r ≡ record c { lnurl_addr = some t.lnurl_addr })

-- A location after its destination is settled: nothing but the three payout fields has changed.
record Placed (c r : ModuleConfig) : Type 0 where
  addr : Option Str
  ref : Option Str
  at : Option Str
  same : r ≡ record c { lnurl_addr = addr; tenant_ref = ref; lnurl_at = at }
