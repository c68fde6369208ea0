-- ===== src/Cashu.antt =====
-- src/cashu.rs: what the parts share. The settings are the statics that `initialize_cashu` and
-- `initialize_p2pk_mode` fill in the master, and which no request changes.
pub mod Mints
pub mod Tenants
pub mod Verify
pub mod Fast
pub mod Frame
pub mod MintInfo
pub mod Redeem
pub mod Reconcile
pub mod Start
pub mod Request
pub mod Dispatch
pub mod Alone
use ngx_l.Text.{codes}
use ngx_l.Text.{str_eq}
use ngx_l.Base.{
  ℕ, zero, suc, ◌+◌, ◌-◌, ◌*◌, ◌/◌, ◌%◌, ◌^◌, ◌≤◌, ◌<◌, min, max, ◌≡◌, refl, sym, ap, ◌∙◌, ◌≡⟨◌⟩◌,
  ◌∎, ◌≢◌, ◌↔◌, ◌⊎◌, inl, inr, Bool, true, false, not, ◌&&◌, ◌||◌, false≢true, Option, none, some,
  List, [], ◌∷◌, ◌++◌, map, append_assoc, append-nil, arith, ltb, leb, ◌==◌, if◌then◌else◌, leb→le,
  ==_iff, ==-refl, Bool-cases, Option-cases, ℤ, pos, negsuc, is_positive, is_negative, as_u64,
  is_some, unwrap_or, or_option, length, all, any, is_empty, first, length-append, All, All-append,
  any-append,
}
use ngx_l.Text.{Str}
use ngx_l.Outcome.{Result, ok, err, Action, map_err}
use ngx_l.Outcome.Fallible.{Fallible, succeed, of_result, lift, ◌>>=◌, ◌>>◌}
use ngx_l.World.{World, call, CurrencyUnit, Wallet, unit_eq}
use ngx_l.Text
use ngx_l.Cdk.{Cdk, KeySet, KeySetInfo}
use ngx_l.ReplayCache

pub record Settings : Type 0 where
  -- CASHU_ECASH_ENABLED, P2PK_MODE_ENABLED, and CASHU_REQUIRE_DLEQ after parsing.
  pub ecash_enabled : Bool
  pub p2pk_mode : Bool
  pub require_dleq : Bool
  pub ln_client_type : Option Str
  pub default_lnurl : Option Str
  pub whitelisted_mints : Option (List Str)
  pub p2pk_private_key : Option Str
  pub p2pk_public_key : Option Str

abbrev pub is_multi_tenant_enabled : Settings → Bool
is_multi_tenant_enabled settings = elim settings.ln_client_type [
  | none ↦ false
  | some t ↦ str_eq t (codes "LNURL")
]

-- `keyset_infos`.
unfoldable pub keyset_info : {Key : Type 0} → KeySet Key → KeySetInfo
keyset_info k = record {
  id = k.id;
  unit = k.unit;
  active = unwrap_or k.active false;
  input_fee_ppk = k.input_fee_ppk;
  final_expiry = k.final_expiry;
}

unfoldable pub keyset_infos : {Key : Type 0} → List (KeySet Key) → List KeySetInfo
keyset_infos keysets = map keyset_info keysets

abbrev pub same_wallet : Wallet → Wallet → Bool
same_wallet v w = str_eq v.mint_url w.mint_url && unit_eq v.unit w.unit

module _ {E : Type 0} where
  -- PROCESSED_TOKENS.
  abbrev pub token_seen : Str → Action (World E) Bool
  token_seen key w = (w, ReplayCache.contains w.processed_tokens key)

  abbrev pub claim_token : Str → Action (World E) Bool
  claim_token key w =
      let claimed = ReplayCache.claim w.processed_tokens key in
      (record w { processed_tokens = claimed.0 }, claimed.1)

  abbrev pub release_token : Str → Action (World E) (Unit {0})
  release_token key w =
      (record w { processed_tokens = ReplayCache.release w.processed_tokens key }, tt)

  unfoldable pub cache_processed_token : Str → Action (World E) (Unit {0})
  cache_processed_token token w = ((claim_token token w).0, tt)

  -- A call of the library or its database that may fail.
  unfoldable pub try_call : {A : Type 0} → Action E (Result Str A) → Fallible (World E) Str A
  unfolding call
  try_call f = call f

module _ {E : Type 0} (cdk : Cdk E) where
  abbrev cached : Wallet → Action (World E) Bool
  cached wallet w = (w, any (same_wallet wallet) w.wallets)

  abbrev pub keep_wallet : Wallet → Action (World E) (Unit {0})
  keep_wallet wallet w = (
    if any (same_wallet wallet) w.wallets then w else record w { wallets = wallet ∷ w.wallets },
    tt,
  )

  -- A wallet of the cache, else a new one, which is kept. A failure is its text.
  unfoldable pub get_or_create_wallet : Str → CurrencyUnit → Fallible (World E) Str Wallet
  get_or_create_wallet mint_url unit = do
    let wallet : Wallet = record { mint_url = mint_url; unit = unit }
    hit ← lift (cached wallet)
    if hit then succeed wallet else (do
      try_call cdk.get_db
      of_result (map_err (λ e. codes "Failed to create wallet: " ++ e) (cdk.wallet_new wallet))
      lift (keep_wallet wallet)
      succeed wallet)
