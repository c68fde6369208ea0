-- ===== src/Cashu/Redeem.antt =====
-- src/cashu.rs: `redeem_to_lightning`, which pays the proofs of each mint out over Lightning. The order of
-- the mints and of the groups is that of a `HashMap`, which the model fixes. A skipped group or mint is an
-- error of its operation. The node and its clients are a parameter.
pub mod Covered
pub mod Mappings
use ngx_l.Base.{
  ℕ, zero, suc, ◌+◌, ◌-◌, ◌*◌, ◌/◌, ◌%◌, ◌^◌, ◌≤◌, ◌<◌, min, max, ◌≡◌, refl, sym, ap, ◌∙◌, ◌≡⟨◌⟩◌,
  ◌∎, ◌≢◌, ◌↔◌, ◌⊎◌, inl, inr, Bool, true, false, not, ◌&&◌, ◌||◌, false≢true, Option, none, some,
  List, [], ◌∷◌, ◌++◌, map, append_assoc, append-nil, arith, ltb, leb, ◌==◌, if◌then◌else◌, leb→le,
  ==_iff, ==-refl, Bool-cases, Option-cases, ℤ, pos, negsuc, is_positive, is_negative, as_u64,
  is_some, unwrap_or, or_option, length, all, any, is_empty, first, length-append, All, All-append,
  any-append,
}
use ngx_l.Text.{Str, codes}
use ngx_l.Outcome.{and_then, Result, ok, err, Action, map_err, ok_or}
use ngx_l.Outcome.Fallible.{Fallible, succeed, of_result, lift, logged, guard, failing, ◌>>=◌, ◌>>◌}
use ngx_l.World.{World, call, Wallet, CurrencyUnit, sat, msat, other}
use ngx_l.Redis.{Redis}
use ngx_l.Replay.{Hashing}
use ngx_l.Fee.{Float, saturating_add, sat_to_msat, melt_reserve_msat}
use ngx_l.Cdk.{Cdk, MeltQuote}
use ngx_l.Cashu.{Settings, is_multi_tenant_enabled, try_call}
use ngx_l.Cashu.Tenants.{
  Groups, group_proofs_by_lnurl, set_proof_to_lnurl, remove_proof_lnurl_mappings,
}
use ngx_l.Cashu.MintInfo.{MeltConfig, Serde, Limits, default_limits, mint_limits}

-- `as i64` of a u64.
abbrev pub as_i64 : ℕ → ℤ
as_i64 n = if ltb n 9223372036854775808 then pos n else negsuc (18446744073709551615 - n)

-- Why a mint or a group is skipped, with the text of the error.
pub data Skip : Type 0 where
  invalid_mint_url no_wallet no_balance_answer no_proofs_answer not_grouped : Str → Skip
  no_balance no_proofs below_minimum fee_above_balance quote_above_balance : Skip
  no_input_fee no_client no_invoice no_quote not_signed not_melted : Str → Skip
  unsupported_wallet_unit : Skip

-- The Lightning client of an address, or the one of the process, and the invoice that it makes; the memo is
-- printed from the number of proofs, the mint and the client.
pub record Payee (E : Type 0) : Type 0 where
  pub lnurl_client : Str → Action E (Result Str (Unit {0}))
  pub ln_client : Action E (Result Str (Unit {0}))
  pub generate_invoice : Option Str → ℤ → ℕ → Str → Str → Action E (Result Str Str)

-- An amount of the wallet in millisatoshis.
abbrev pub wallet_msat : CurrencyUnit → ℕ → ℕ
wallet_msat sat n = sat_to_msat n
wallet_msat msat n = n
wallet_msat (other _) n = n

-- What a quote asks for, with the fee on the inputs.
unfoldable pub required_msat : CurrencyUnit → MeltQuote → ℕ → ℕ
required_msat unit quote fee =
    saturating_add
      (saturating_add (wallet_msat unit quote.amount) (wallet_msat unit quote.fee_reserve)) fee

-- The fee on the inputs.
unfoldable pub fee_of : CurrencyUnit → ℕ → Result Skip ℕ
fee_of sat fee = ok (sat_to_msat fee)
fee_of msat fee = ok fee
fee_of (other _) fee = err unsupported_wallet_unit

-- `sum` of u64, which wraps.
unfoldable pub sum_u64 : List ℕ → ℕ
sum_u64 [] = 0
sum_u64 (n ∷ ns) = (n + sum_u64 ns) % 2 ^ 64

unfoldable pub take : {A : Type 0} → ℕ → List A → List A
take zero l = []
take (suc n) [] = []
take (suc n) (x ∷ l) = x ∷ take n l

module _ {E : Type 0} (redis : Redis E) (hashing : Hashing) (cdk : Cdk E) (settings : Settings)
    (f : Float) (serde : Serde cdk.MintInfo) (payee : Payee E)
    (melt_settings : MeltConfig f.F64) where
  open cdk use {Proof, amount}

  unfoldable pub total_msat : CurrencyUnit → List Proof → ℕ
  total_msat unit proofs = sum_u64 (map (λ p. wallet_msat unit (amount p)) proofs)

  -- `proofs_to_melt`.
  unfoldable pub select : List Proof → List Proof
  select group =
      let most = melt_settings.max_proofs_per_melt in
      if ltb 0 most && ltb most (length group) then take most group else group

  -- Proofs that are melted as they are pay a fee.
  unfoldable pub input_fee_msat : Wallet → List Proof → Fallible (World E) Skip ℕ
  input_fee_msat wallet selected =
      if is_multi_tenant_enabled settings || settings.p2pk_mode
      then (do
        fee ← failing no_input_fee (try_call (cdk.get_proofs_fee wallet selected))
        of_result (fee_of wallet.unit fee))
      else succeed 0

  unfoldable pub invoice_for : Wallet → Str → ℕ → ℕ → Fallible (World E) Skip Str
  invoice_for wallet client count redeemable =
      if is_multi_tenant_enabled settings
      then (do
        failing no_client (try_call (payee.lnurl_client client))
        failing no_invoice (
            try_call (
              payee.generate_invoice (some client) (as_i64 redeemable) count wallet.mint_url
                client)))
      else (do
        failing no_client (try_call payee.ln_client)
        failing no_invoice (
            try_call
              (payee.generate_invoice none (as_i64 redeemable) count wallet.mint_url client)))

  unfoldable pub melt_quote_with :
      Wallet → Str → Option (List Proof) → Fallible (World E) Skip (Option (List Proof))
  melt_quote_with wallet quote_id (some proofs) =
      failing not_melted (try_call (cdk.melt_proofs wallet quote_id proofs))
  melt_quote_with wallet quote_id none = failing not_melted (try_call (cdk.melt wallet quote_id))

  -- The loop that signs stops at the first proof that fails.
  unfoldable pub sign_proofs : Str → List Proof → Result Str (List Proof)
  sign_proofs key [] = ok []
  sign_proofs key (p ∷ ps) =
      and_then (cdk.sign_p2pk key p)
        (λ signed. and_then (sign_proofs key ps) (λ rest. ok (signed ∷ rest)))

  unfoldable pub melt_signed :
      Wallet → Str → Option Str → List Proof → Fallible (World E) Skip (Option (List Proof))
  melt_signed wallet quote_id none selected = melt_quote_with wallet quote_id none
  melt_signed wallet quote_id (some key) selected = do
    signed ← of_result (map_err not_signed (sign_proofs key selected))
    melt_quote_with wallet quote_id (some signed)

  unfoldable pub melt_selected :
      Wallet → Str → List Proof → Fallible (World E) Skip (Option (List Proof))
  melt_selected wallet quote_id selected =
      if settings.p2pk_mode
      then melt_signed wallet quote_id settings.p2pk_private_key selected
      else if is_multi_tenant_enabled settings
      then melt_quote_with wallet quote_id (some selected)
      else melt_quote_with wallet quote_id none

  -- The change of a melt belongs to the client.
  unfoldable pub map_change : Str → Option (List Proof) → Fallible (World E) Skip (Unit {0})
  map_change client none = succeed tt
  map_change client (some change) =
      if is_multi_tenant_enabled settings
      then logged (set_proof_to_lnurl redis hashing cdk settings change (some client))
      else succeed tt

  -- From the selected proofs and the fee on them to the melt.
  unfoldable pub melt_group :
      Wallet → Limits f.F64 → Str → List Proof → ℕ → Fallible (World E) Skip (Option (List Proof))
  melt_group wallet limits client selected fee = do
    let total = total_msat wallet.unit selected
    let reserve = melt_reserve_msat f total limits.percent limits.min_fee_reserve_msat fee
    guard (ltb reserve total) fee_above_balance
    invoice ← invoice_for wallet client (length selected) (total - reserve)
    quote ← failing no_quote (try_call (cdk.melt_quote wallet invoice))
    guard (leb (required_msat wallet.unit quote fee) total) quote_above_balance
    melt_selected wallet quote.id selected

  -- One group; the result is the number of its proofs that were redeemed.
  unfoldable pub redeem_group : Wallet → Limits f.F64 → Str → List Proof → Fallible (World E) Skip ℕ
  redeem_group wallet limits client group = do
    guard (leb limits.minimum_msat (total_msat wallet.unit group)) below_minimum
    fee ← input_fee_msat wallet (select group)
    change ← melt_group wallet limits client (select group) fee
    logged (remove_proof_lnurl_mappings redis hashing cdk settings (select group))
    map_change client change
    succeed (length (select group))

  abbrev counted : World E × Result Skip ℕ → World E × ℕ
  counted (w, ok n) = (w, n)
  counted (w, err _) = (w, 0)

  unfoldable pub redeem_groups :
      Wallet → Limits f.F64 → List (Str × List Proof) → Action (World E) ℕ
  redeem_groups wallet limits [] w = (w, 0)
  redeem_groups wallet limits ((client, group) ∷ groups) w =
      let this = counted (redeem_group wallet limits client group w) in
      let rest = redeem_groups wallet limits groups this.0 in (rest.0, (this.1 + rest.1) % 2 ^ 64)

  unfoldable pub proof_groups : List Proof → Fallible (World E) Skip (List (Str × List Proof))
  proof_groups proofs =
      if is_multi_tenant_enabled settings
      then failing not_grouped (group_proofs_by_lnurl redis hashing cdk settings proofs)
      else succeed ((unwrap_or settings.ln_client_type (codes "default"), proofs) ∷ [])

  unfoldable pub redeem_mint : Str → Fallible (World E) Skip ℕ
  redeem_mint url = do
    of_result (map_err invalid_mint_url (cdk.mint_url_from_str url))
    let wallet : Wallet = record { mint_url = url; unit = sat }
    of_result (map_err no_wallet (cdk.wallet_new wallet))
    balance ← failing no_balance_answer (try_call (cdk.total_balance wallet))
    guard (not (balance == 0)) no_balance
    proofs ← failing no_proofs_answer (try_call (cdk.get_unspent_proofs wallet))
    guard (not (is_empty proofs)) no_proofs
    groups ← proof_groups proofs
    info ← lift (call (cdk.fetch_mint_info wallet))
    lift (
        redeem_groups wallet (mint_limits f serde wallet.unit info (default_limits f melt_settings))
          groups)

  unfoldable pub redeem_mints : List Str → Action (World E) ℕ
  redeem_mints [] w = (w, 0)
  redeem_mints (url ∷ urls) w =
      let this = counted (redeem_mint url w) in
      let rest = redeem_mints urls this.0 in (rest.0, (this.1 + rest.1) % 2 ^ 64)

  -- Whether anything was redeemed.
  unfoldable pub redeem_to_lightning : Fallible (World E) Str Bool
  redeem_to_lightning = do
    try_call cdk.get_db
    mints ← of_result (ok_or (codes "No whitelisted mints configured") settings.whitelisted_mints)
    total ← lift (redeem_mints mints)
    succeed (ltb 0 total)
