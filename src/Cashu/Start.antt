-- ===== src/Cashu/Start.antt =====
-- src/cashu.rs: `initialize_p2pk_mode`, on the statics that it fills: P2PK_MODE_ENABLED, P2PK_PRIVATE_KEY,
-- P2PK_PUBLIC_KEY and CASHU_REQUIRE_DLEQ. A `OnceLock` keeps its first value.
use ngx_l.Base.{
  ◌≡◌, refl, sym, ap, ◌∙◌, ◌⊎◌, inl, inr, Bool, true, false, not, Option, none, some, List, ◌++◌,
  if◌then◌else◌, Bool-cases, is_some, unwrap_or, is_empty,
}
use ngx_l.Text.{Str, codes, str_eq, trim}
use ngx_l.Outcome.{and_then-eq-ok, ok, err, Action, map_err, ok_or}
use ngx_l.Outcome.Fallible.{
  continue, payload, map_err-eq-ok, ok_or-eq-some, guard-eq-ok, Ensures, Ensures-step,
  Ensures-weaken, Keeps-guard, Keeps-of_result, Fallible, of_result, lift, guard, ◌>>=◌, ◌>>◌,
}
use ngx_l.Cdk.{Cdk}
use ngx_l.Dleq.{parse_require_dleq}
use ngx_l.P2pk.{parse_p2pk_secret_key}

pub record Statics : Type 0 where
  pub mode_enabled : Option Bool
  pub private_key : Option Str
  pub public_key : Option Str
  pub require_dleq : Option Bool

-- CASHU_P2PK_MODE, CASHU_P2PK_PRIVATE_KEY and CASHU_REQUIRE_DLEQ.
pub record P2pkEnv : Type 0 where
  pub mode : Option Str
  pub private_key : Option Str
  pub require_dleq : Option Str

-- `OnceLock::set` whose result is dropped.
abbrev once : {A : Type 0} → Option A → A → Option A
once none a = some a
once (some old) a = some old

abbrev set_mode : Bool → Action Statics (Unit {0})
set_mode on s = (record s { mode_enabled = once s.mode_enabled on }, tt)

abbrev set_private_key : Str → Fallible Statics Str (Unit {0})
set_private_key key s = elim s.private_key [
  | none ↦ (record s { private_key = some key }, ok tt)
  | some old ↦ (s, err (codes "Failed to set private key"))
]

abbrev set_public_key : Str → Fallible Statics Str (Unit {0})
set_public_key key s = elim s.public_key [
  | none ↦ (record s { public_key = some key }, ok tt)
  | some old ↦ (s, err (codes "Failed to set public key"))
]

-- `get_or_init`.
abbrev capture_require_dleq : Option Str → Action Statics (Unit {0})
capture_require_dleq value s =
    (record s { require_dleq = once s.require_dleq (parse_require_dleq value) }, tt)

-- The key pair, the mode and the DLEQ policy.
unfoldable pub fill_statics : Str × Str → Option Str → Fallible Statics Str (Unit {0})
fill_statics keys require_dleq = do
  set_private_key keys.0
  set_public_key keys.1
  lift (set_mode true)
  lift (capture_require_dleq require_dleq)

module _ {E : Type 0} (cdk : Cdk E) where
  unfoldable pub p2pk_requested : Option Str → Bool
  p2pk_requested mode =
      str_eq (cdk.to_lowercase (trim (unwrap_or mode (codes "false")))) (codes "true")

  unfoldable pub enable_p2pk : Option (List Str) → P2pkEnv → Fallible Statics Str (Unit {0})
  enable_p2pk whitelisted_mints env = do
    guard (is_some whitelisted_mints)
        (codes "P2PK mode requires CASHU_WHITELISTED_MINTS to be configured")
    key_hex ←
        of_result
          (ok_or (codes "CASHU_P2PK_PRIVATE_KEY not set but P2PK mode is enabled") env.private_key)
    guard (not (is_empty (trim key_hex))) (codes "CASHU_P2PK_PRIVATE_KEY is empty")
    keys ←
        of_result (
          map_err (λ e. codes "Invalid P2PK private key: " ++ e)
            (parse_p2pk_secret_key cdk key_hex))
    fill_statics keys env.require_dleq

  unfoldable pub initialize_p2pk_mode :
      Option (List Str) → P2pkEnv → Fallible Statics Str (Unit {0})
  initialize_p2pk_mode whitelisted_mints env =
      if p2pk_requested env.mode then enable_p2pk whitelisted_mints env else lift (set_mode false)

-- Nothing was set yet.
abbrev pub unset : Statics
unset = record { mode_enabled = none; private_key = none; public_key = none; require_dleq = none }

abbrev IsUnset : Statics → Type 0
IsUnset s = s ≡ unset

abbrev filled : Str × Str → Option Str → Statics
filled keys require_dleq = record {
  mode_enabled = some true;
  private_key = some keys.0;
  public_key = some keys.1;
  require_dleq = some (parse_require_dleq require_dleq);
}

fill_statics-Ensures :
    (keys : Str × Str) (require_dleq : Option Str)
    → Ensures IsUnset (λ s _. s ≡ filled keys require_dleq) (fill_statics keys require_dleq)
unfolding fill_statics ◌>>=◌ continue lift
fill_statics-Ensures keys require_dleq = record {
  at = λ s p a e. ap (λ t. (fill_statics keys require_dleq t).0) p;
}

module _ {E : Type 0} (cdk : Cdk E) where
  -- The lock that clients are asked for is that of the signing key.
  pub record IsEnabled (whitelisted_mints : Option (List Str)) (env : P2pkEnv) (s : Statics)
      : Type 0 where
    pub requested : p2pk_requested cdk env.mode ≡ true
    pub whitelisted : is_some whitelisted_mints ≡ true
    pub key_hex : Str
    pub given : env.private_key ≡ some key_hex
    pub key : Str
    pub parsed : cdk.secret_key_from_hex (trim key_hex) ≡ ok key
    pub signs : s.private_key ≡ some key
    pub locks : s.public_key ≡ some (cdk.public_key key)
    pub enabled : s.mode_enabled ≡ some true
    pub captured : s.require_dleq ≡ some (parse_require_dleq env.require_dleq)

  enable_p2pk-Ensures :
      (whitelisted_mints : Option (List Str)) (env : P2pkEnv)
      → p2pk_requested cdk env.mode ≡ true
      → Ensures IsUnset
          (λ s _. IsEnabled whitelisted_mints env s)
          (enable_p2pk cdk whitelisted_mints env)
  unfolding enable_p2pk of_result parse_p2pk_secret_key
  enable_p2pk-Ensures mints env requested = Ensures-step _ _ (Keeps-guard _ _) (λ s1 _ _ e1.
      Ensures-step _ _ (Keeps-of_result _) (λ _ _ key_hex e2.
        Ensures-step _ _ (Keeps-guard _ _) (λ _ _ _ _.
          Ensures-step _ _ (Keeps-of_result _) (λ _ _ keys e4.
            let (key, parsed, same) =
              and_then-eq-ok (cdk.secret_key_from_hex (trim key_hex)) _ (map_err-eq-ok _ _ e4) in
            Ensures-weaken _ (fill_statics-Ensures keys env.require_dleq) (λ s _ now. record {
              requested = requested;
              whitelisted = guard-eq-ok _ _ s1 _ e1;
              key_hex = key_hex;
              given = ok_or-eq-some _ _ e2;
              key = key;
              parsed = parsed;
              signs = ap (λ t. t.private_key) now ∙ ap (λ k. some k.0) (sym (payload same));
              locks = ap (λ t. t.public_key) now ∙ ap (λ k. some k.1) (sym (payload same));
              enabled = ap (λ t. t.mode_enabled) now;
              captured = ap (λ t. t.require_dleq) now;
            })))))

  -- A start that succeeds either leaves the mode off and no key set, where it was not asked for; or it was
  -- asked for with a whitelist, and the key that signs, the key that tokens are locked to and the DLEQ
  -- policy are those of the environment.
  pub p2pk_start :
      (whitelisted_mints : Option (List Str)) (env : P2pkEnv)
      → (initialize_p2pk_mode cdk whitelisted_mints env unset).1 ≡ ok tt
      → IsEnabled whitelisted_mints env (initialize_p2pk_mode cdk whitelisted_mints env unset).0
        ⊎ ((p2pk_requested cdk env.mode ≡ false)
            × ((initialize_p2pk_mode cdk whitelisted_mints env unset).0
                ≡ record unset { mode_enabled = some false }))
  unfolding initialize_p2pk_mode lift
  p2pk_start mints env h = elim (Bool-cases (p2pk_requested cdk env.mode)) [
    | inl e ↦ inl (rw e ((enable_p2pk-Ensures mints env e).at unset refl tt (rw e at h)))
    | inr e ↦ inr (e, rw e refl)
  ]
