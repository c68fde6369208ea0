-- ===== src/Cashu/Verify.antt =====
-- src/cashu.rs: `verify_cashu_token`, which swaps a token at its mint.
pub mod Accepted
use ngx_l.Base.{
  ℕ, zero, suc, ◌+◌, ◌-◌, ◌*◌, ◌/◌, ◌%◌, ◌^◌, ◌≤◌, ◌<◌, min, max, ◌≡◌, refl, sym, ap, ◌∙◌, ◌≡⟨◌⟩◌,
  ◌∎, ◌≢◌, ◌↔◌, ◌⊎◌, inl, inr, Bool, true, false, not, ◌&&◌, ◌||◌, false≢true, Option, none, some,
  List, [], ◌∷◌, ◌++◌, map, append_assoc, append-nil, arith, ltb, leb, ◌==◌, if◌then◌else◌, leb→le,
  ==_iff, ==-refl, Bool-cases, Option-cases, ℤ, pos, negsuc, is_positive, is_negative, as_u64,
  is_some, unwrap_or, or_option, length, all, any, is_empty, first, length-append, All, All-append,
  any-append,
}
use ngx_l.Text.{Str, codes}
use ngx_l.Outcome.{and_then, Result, ok, err, Action, map_err, ok_or}
use ngx_l.Outcome.Fallible.{Fallible, succeed, of_result, lift, guard, failing, ◌>>=◌, ◌>>◌}
use ngx_l.World.{World, call, Wallet, CurrencyUnit, sat, msat, other}
use ngx_l.Redis.{Redis, ReplayClaimError}
use ngx_l.Replay.{Hashing, Ttls, is_cashu_token_used, store_cashu_token_as_used}
use ngx_l.Fee.{checked_mul, saturating_sub, sat_to_msat, msat_per_sat}
use ngx_l.CashuError.{
  CashuError, bad_credential, unacceptable, internal, Message, already_used, failed_to_decode,
  failed_to_get_value, failed_to_get_mint_url, failed_to_extract_proofs, failed_to_load_keysets,
  failed_to_get_input_fee, wallet_failed, mint_receive_failed, amount_overflows, no_currency_unit,
  unsupported_unit, insufficient, insufficient_after_fee, mint_not_whitelisted,
}
use ngx_l.Cdk.{Cdk}
use ngx_l.Cashu.{
  Settings, is_multi_tenant_enabled, keyset_infos, token_seen, cache_processed_token, try_call,
  get_or_create_wallet,
}
use ngx_l.Cashu.Mints.{normalize_mint_url, is_mint_whitelisted}
use ngx_l.Cashu.Tenants.{receive_for_tenant}

-- `total_amount_msat`.
unfoldable pub amount_msat_of : CurrencyUnit → ℕ → Result CashuError ℕ
amount_msat_of sat total = ok_or (bad_credential amount_overflows) (checked_mul total msat_per_sat)
amount_msat_of msat total = ok total
amount_msat_of (other name) total = err (unacceptable (unsupported_unit (other name)))

-- `input_fee_msat`.
unfoldable pub input_fee_msat_of : CurrencyUnit → ℕ → ℕ
input_fee_msat_of sat fee = sat_to_msat fee
input_fee_msat_of msat fee = fee
input_fee_msat_of (other _) fee = fee

abbrev pub sharing :
    {E A : Type 0} → (Str → CashuError) → Action E (Result Str A) → Fallible (World E) CashuError A
sharing f m = failing f (try_call m)

module _ {E : Type 0} (redis : Redis E) (hashing : Hashing) (ttls : Ttls) (cdk : Cdk E)
    (settings : Settings) where
  open cdk use {Token, Proof, token_from_str, value, unit, mint_url, proofs}

  -- The cache of the worker, then Redis.
  unfoldable pub refuse_seen : Str → Fallible (World E) CashuError (Unit {0})
  refuse_seen token = do
    seen ← lift (token_seen token)
    guard (not seen) (bad_credential already_used)

  unfoldable pub refuse_stored : Str → Fallible (World E) CashuError (Unit {0})
  refuse_stored key = do
    used ← lift (is_cashu_token_used redis hashing ttls key)
    guard (not used) (bad_credential already_used)

  -- The unit of a token and its value in millisatoshis.
  unfoldable pub token_amount : Token → Result CashuError (CurrencyUnit × ℕ)
  token_amount token =
      and_then (map_err (λ e. bad_credential (failed_to_get_value e)) (value token)) (λ total.
        and_then (ok_or (unacceptable no_currency_unit) (unit token))
          (λ u. and_then (amount_msat_of u total) (λ amount. ok (u, amount))))

  unfoldable pub token_mint : Token → Result CashuError Str
  token_mint token =
      and_then (map_err (λ e. bad_credential (failed_to_get_mint_url e)) (mint_url token))
        (λ url. ok (normalize_mint_url cdk url))

  unfoldable pub token_proofs : Wallet → Token → Fallible (World E) CashuError (List Proof)
  token_proofs wallet token = do
    keysets ← sharing (λ e. internal (failed_to_load_keysets e)) (cdk.keysets wallet)
    of_result (
        map_err (λ e. bad_credential (failed_to_extract_proofs e))
          (proofs (keyset_infos keysets) token))

  unfoldable pub token_fee_msat : Wallet → List Proof → Fallible (World E) CashuError ℕ
  token_fee_msat wallet proofs = do
    fee ← sharing (λ e. internal (failed_to_get_input_fee e)) (cdk.get_proofs_fee wallet proofs)
    succeed (input_fee_msat_of wallet.unit fee)

  unfoldable pub receive_token :
      Wallet → Str → Token → Option Str → Fallible (World E) Str (Unit {0})
  receive_token wallet token decoded lnurl_addr =
      if is_multi_tenant_enabled settings
      then receive_for_tenant redis hashing cdk settings wallet decoded lnurl_addr
      else try_call (cdk.receive wallet token)

  -- The claim of a token that was received. Without an answer of Redis it is admitted.
  unfoldable pub settle_claim :
      Str → Result ReplayClaimError Bool → Fallible (World E) CashuError (Unit {0})
  settle_claim token (ok true) = lift (cache_processed_token token)
  settle_claim token (ok false) = of_result (err (bad_credential already_used))
  settle_claim token (err _) = lift (cache_processed_token token)

  -- What follows the decoding and the checks of the amount and the mint.
  unfoldable pub swap_token :
      Str → Token → ℕ → Option Str → Wallet → ℕ → Fallible (World E) CashuError (Unit {0})
  swap_token token decoded price lnurl_addr wallet total_msat = do
    proofs ← token_proofs wallet decoded
    fee ← token_fee_msat wallet proofs
    guard (leb price (saturating_sub total_msat fee))
        (unacceptable (insufficient_after_fee fee (saturating_sub total_msat fee) price))
    failing (λ e. internal (mint_receive_failed e)) (receive_token wallet token decoded lnurl_addr)
    claimed ← lift (store_cashu_token_as_used redis hashing ttls token)
    settle_claim token claimed

  unfoldable pub verify_cashu_token :
      Str → ℤ → Option Str → Fallible (World E) CashuError (Unit {0})
  verify_cashu_token token amount_msat lnurl_addr = do
    refuse_seen token
    refuse_stored token
    decoded ← of_result (map_err (λ e. bad_credential (failed_to_decode e)) (token_from_str token))
    total ← of_result (token_amount decoded)
    guard (leb (as_u64 amount_msat) total.1)
        (unacceptable (insufficient total.1 (as_u64 amount_msat)))
    mint ← of_result (token_mint decoded)
    guard (is_mint_whitelisted cdk settings.whitelisted_mints mint)
        (unacceptable (mint_not_whitelisted mint))
    wallet ← failing (λ e. internal (wallet_failed e)) (get_or_create_wallet cdk mint total.0)
    swap_token token decoded (as_u64 amount_msat) lnurl_addr wallet total.1
