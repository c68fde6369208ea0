-- ===== src/Config.antt =====
-- src/lib.rs: `ModuleConfig`, the settings of a location, and `merge`, which inherits them.
-- `LN_CLIENT_TYPE` and `CASHU_ECASH_SUPPORT` are read from the environment: they are a parameter. The
-- messages on stderr are not modelled.
pub mod Inherit
use ngx_l.Base.{
  ℕ, zero, suc, ◌+◌, ◌-◌, ◌*◌, ◌/◌, ◌%◌, ◌^◌, ◌≤◌, ◌<◌, min, max, ◌≡◌, refl, sym, ap, ◌∙◌, ◌≡⟨◌⟩◌,
  ◌∎, ◌≢◌, ◌↔◌, ◌⊎◌, inl, inr, Bool, true, false, not, ◌&&◌, ◌||◌, false≢true, Option, none, some,
  List, [], ◌∷◌, ◌++◌, map, append_assoc, append-nil, arith, ltb, leb, ◌==◌, if◌then◌else◌, leb→le,
  ==_iff, ==-refl, Bool-cases, Option-cases, ℤ, pos, negsuc, is_positive, is_negative, as_u64,
  is_some, unwrap_or, or_option, length, all, any, is_empty, first, length-append, All, All-append,
}
use ngx_l.Text.{Str, codes, str_eq}
use ngx_l.Outcome.{Result, ok, err, and_then}
use ngx_l.Tenant.{Tenants, Tenant, resolve}

pub record ModuleConfig : Type 0 where
  pub enable : Option Bool
  pub exempt_methods : List Str
  pub amount_msat : ℤ
  pub macaroon_timeout : ℤ
  pub realm : Option Str
  pub lnurl_addr : Option Str
  pub tenant_ref : Option Str
  pub lnurl_at : Option Str
  pub invoice_rate_limit : Option (ℕ × ℕ)
  pub auto_detect_payment : Option Bool
  pub dry_run : Option Bool
  pub payment_html : Option Bool
  pub log_format_json : Option Bool
  pub indefinite_access : Option Bool
  pub manifest_hidden : Bool

-- `ModuleConfig::default()`.
unfoldable pub default : ModuleConfig
default = record {
  enable = none;
  exempt_methods = [];
  amount_msat = pos 0;
  macaroon_timeout = pos 0;
  realm = none;
  lnurl_addr = none;
  tenant_ref = none;
  lnurl_at = none;
  invoice_rate_limit = none;
  auto_detect_payment = none;
  dry_run = none;
  payment_html = none;
  log_format_json = none;
  indefinite_access = none;
  manifest_hidden = false;
}

-- `MergeConfigError::NoValue`: nginx refuses the configuration.
pub data MergeConfigError : Type 0 where
  no_value : MergeConfigError

pub record Environment : Type 0 where
  pub cashu_on : Bool
  -- Whether LN_CLIENT_TYPE is unset or exactly `LNURL`.
  pub backend_is_lnurl : Bool

abbrev pub is_zero : ℤ → Bool
is_zero (pos zero) = true
is_zero _ = false

-- `if prev > 0 && self == 0 { self = prev }`.
abbrev pub inherit_positive : ℤ → ℤ → ℤ
inherit_positive self prev = if is_positive prev && is_zero self then prev else self

-- The payout destination of a location that names a tenant.
unfoldable pub merge_tenant : Tenants → ModuleConfig → Str → Result MergeConfigError ModuleConfig
merge_tenant tenants self id =
    if is_some self.lnurl_addr then err no_value else elim (resolve tenants id) [
      | ok tenant ↦ ok (record self { lnurl_addr = some tenant.lnurl_addr })
      | err e ↦ err no_value
    ]

-- The payout destination: one setting with two spellings.
unfoldable pub merge_destination :
    Tenants → ModuleConfig → ModuleConfig → Option Str → Result MergeConfigError ModuleConfig
merge_destination tenants self prev (some id) = merge_tenant tenants self id
merge_destination tenants self prev none =
    if is_some self.lnurl_addr
    then ok self
    else ok (record self {
      lnurl_addr = prev.lnurl_addr;
      tenant_ref = prev.tenant_ref;
      lnurl_at = prev.lnurl_at;
    })

-- The settings in front of the destination.
unfoldable pub merge_price : ModuleConfig → ModuleConfig → ModuleConfig
merge_price self prev = record self {
  enable = or_option self.enable prev.enable;
  amount_msat = inherit_positive self.amount_msat prev.amount_msat;
  macaroon_timeout = inherit_positive self.macaroon_timeout prev.macaroon_timeout;
}

-- The settings behind it.
unfoldable pub merge_rest : ModuleConfig → ModuleConfig → ModuleConfig
merge_rest self prev = record self {
  realm = or_option self.realm prev.realm;
  invoice_rate_limit = or_option self.invoice_rate_limit prev.invoice_rate_limit;
  auto_detect_payment = or_option self.auto_detect_payment prev.auto_detect_payment;
  dry_run = or_option self.dry_run prev.dry_run;
  payment_html = or_option self.payment_html prev.payment_html;
  log_format_json = or_option self.log_format_json prev.log_format_json;
  exempt_methods =
      if is_empty self.exempt_methods then prev.exempt_methods else self.exempt_methods;
  manifest_hidden = prev.manifest_hidden || self.manifest_hidden;
  indefinite_access = or_option self.indefinite_access prev.indefinite_access;
}

abbrev pub is_on : Option Bool → Bool
is_on o = unwrap_or o false

-- A realm needs indefinite access.
unfoldable pub check_realm : ModuleConfig → Result MergeConfigError ModuleConfig
check_realm self =
    if is_on self.enable && is_some self.realm && not (is_on self.indefinite_access)
    then err no_value
    else ok self

-- With Cashu on and another backend than LNURL, a tenant would not get its Cashu. The list of sites is
-- CASHU_TO_OPERATOR, of which a warning is made later.
unfoldable pub check_cashu :
    Environment → List Str → ModuleConfig → Result MergeConfigError (ModuleConfig × List Str)
check_cashu env sites self =
    let at = unwrap_or self.lnurl_at [] in
    if is_on self.enable && is_some self.lnurl_addr && env.cashu_on && not env.backend_is_lnurl
    then (if is_some self.tenant_ref
        then err no_value
        else ok (self, if any (str_eq at) sites then sites else sites ++ at ∷ []))
    else ok (self, sites)

-- `merge`: `self` is the inner scope, `prev` the outer one.
unfoldable pub merge :
    Environment
    → Tenants
    → List Str
    → ModuleConfig
    → ModuleConfig
    → Result MergeConfigError (ModuleConfig × List Str)
merge env tenants sites self prev =
    let priced = merge_price self prev in
    and_then (merge_destination tenants priced prev priced.tenant_ref)
      (λ placed. and_then (check_realm (merge_rest placed prev)) (check_cashu env sites))
