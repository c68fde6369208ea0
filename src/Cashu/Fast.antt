-- ===== src/Cashu/Fast.antt =====
-- src/cashu.rs: `verify_cashu_token_p2pk`, which stores proofs that are locked to the key of the server
-- without a swap at the mint. `sort_unstable` of texts is an insertion sort_unstable: equal texts are the same.
pub mod Sorting
pub mod Claims
pub mod Checks
pub mod Accepted
pub mod Release
pub mod Once
use ngx_l.Base.{
  ℕ, zero, suc, ◌+◌, ◌-◌, ◌*◌, ◌/◌, ◌%◌, ◌^◌, ◌≤◌, ◌<◌, min, max, ◌≡◌, refl, sym, ap, ◌∙◌, ◌≡⟨◌⟩◌,
  ◌∎, ◌≢◌, ◌↔◌, ◌⊎◌, inl, inr, Bool, true, false, not, ◌&&◌, ◌||◌, false≢true, Option, none, some,
  List, [], ◌∷◌, ◌++◌, map, append_assoc, append-nil, arith, ltb, leb, ◌==◌, if◌then◌else◌, leb→le,
  ==_iff, ==-refl, Bool-cases, Option-cases, ℤ, pos, negsuc, is_positive, is_negative, as_u64,
  is_some, unwrap_or, or_option, length, all, any, is_empty, first, length-append, All, All-append,
  any-append,
}
use ngx_l.Text.{Str, codes}
use ngx_l.Outcome.{and_then, Result, ok, err, Action, map_err, ok_or}
use ngx_l.Outcome.Fallible.{Fallible, succeed, of_result, lift, logged, guard, failing, ◌>>=◌, ◌>>◌}
use ngx_l.World.{World, call, Wallet, CurrencyUnit, sat, msat, other}
use ngx_l.Redis.{Redis, ReplayClaimError, not_configured, unavailable}
use ngx_l.Replay.{
  Hashing, Ttls, is_cashu_token_used, store_cashu_token_as_used, release_cashu_token,
}
use ngx_l.CashuError.{
  CashuError, bad_credential, unacceptable, internal, Message, already_used, failed_to_decode,
  failed_to_get_value, failed_to_get_mint_url, failed_to_extract_proofs, failed_to_load_keysets,
  failed_to_compute_y, failed_to_parse_public_key, failed_to_verify_state, failed_to_store,
  wallet_failed, invalid_mint_url, no_whitelisted_mints, no_public_key, not_locked_to_us,
  no_keys_for_keyset, not_unspent, redis_unavailable, insufficient, mint_not_whitelisted,
}
use ngx_l.Cdk.{Cdk, KeySet, State, unspent, is_unspent, ProofInfo}
use ngx_l.Cashu.{
  Settings, is_multi_tenant_enabled, keyset_infos, token_seen, claim_token, release_token,
  cache_processed_token, try_call, get_or_create_wallet,
}
use ngx_l.Cashu.Mints.{normalize_mint_url}
use ngx_l.Cashu.Tenants.{set_proof_to_lnurl, proof_infos, claim_error}
use ngx_l.Cashu.Verify.{sharing, refuse_seen, refuse_stored, token_amount, token_mint, token_proofs}
use ngx_l.Dleq.{DleqCheck, verify_proof_dleq_offline}
use ngx_l.P2pk.{verify_permanent_p2pk_lock}
use ngx_l.ReplayCache.{member}

-- `str::cmp` by code point, which is the order of the bytes in UTF-8: whether `s` is not after `t`.
unfoldable pub str_le : Str → Str → Bool
str_le [] t = true
str_le (c ∷ s) [] = false
str_le (c ∷ s) (d ∷ t) = ltb c d || (c == d && str_le s t)

unfoldable pub insert_sorted : Str → List Str → List Str
insert_sorted s [] = s ∷ []
insert_sorted s (t ∷ l) = if str_le s t then s ∷ t ∷ l else t ∷ insert_sorted s l

unfoldable pub sort_unstable : List Str → List Str
sort_unstable [] = []
sort_unstable (s ∷ l) = insert_sorted s (sort_unstable l)

unfoldable pub join : Str → List Str → Str
join sep [] = []
join sep (s ∷ []) = s
join sep (s ∷ t ∷ l) = s ++ sep ++ join sep (t ∷ l)

module _ {E : Type 0} (redis : Redis E) (hashing : Hashing) (ttls : Ttls) (cdk : Cdk E)
    (settings : Settings) where
  open cdk use {Token, Proof, Key, token_from_str, keyset_id, amount, has_dleq, y}

  -- `y_values`, in the order of the proofs.
  unfoldable pub y_values : List Proof → Result CashuError (List Str)
  y_values [] = ok []
  y_values (proof ∷ proofs) =
      and_then (map_err (λ e. internal (failed_to_compute_y e)) (y proof))
        (λ p. and_then (y_values proofs) (λ rest. ok (p ∷ rest)))

  unfoldable pub replay_key : List Str → Str
  replay_key values = hashing.sha256_hex (join (codes ",") (sort_unstable values))

  unfoldable pub proof_replay_key : List Proof → Result CashuError Str
  proof_replay_key proofs = and_then (y_values proofs) (λ values. ok (replay_key values))

  -- The whitelist must be configured.
  unfoldable pub listed_mint : Str → Result CashuError (Unit {0})
  listed_mint mint =
      and_then (ok_or (internal no_whitelisted_mints) settings.whitelisted_mints) (λ mints.
        if member mint mints then ok tt else err (unacceptable (mint_not_whitelisted mint)))

  unfoldable pub server_key : Result CashuError Str
  server_key = and_then (ok_or (internal no_public_key) settings.p2pk_public_key) (λ key.
      and_then
        (map_err (λ e. internal (failed_to_parse_public_key e)) (cdk.public_key_from_hex key))
        (λ _. ok key))

  unfoldable pub check_locks : List Proof → Result CashuError (Unit {0})
  check_locks [] = ok tt
  check_locks (proof ∷ proofs) =
      and_then (map_err unacceptable (verify_permanent_p2pk_lock cdk proof))
        (λ _. check_locks proofs)

  unfoldable pub find_keyset : Str → List (KeySet Key) → Option (KeySet Key)
  find_keyset id [] = none
  find_keyset id (k ∷ keysets) =
      if ngx_l.Text.str_eq k.id id then some k else find_keyset id keysets

  -- The key of the mint for a proof: resolved only where the proof carries a DLEQ.
  unfoldable pub proof_key : List (KeySet Key) → Proof → Result CashuError (Option Key)
  proof_key keysets proof =
      if has_dleq proof
      then and_then
          (ok_or (internal (no_keys_for_keyset (keyset_id proof)))
            (find_keyset (keyset_id proof) keysets))
          (λ k. ok (k.amount_key (amount proof)))
      else ok none

  unfoldable pub check_dleqs : List (KeySet Key) → List Proof → Result CashuError (Unit {0})
  check_dleqs keysets [] = ok tt
  check_dleqs keysets (proof ∷ proofs) = and_then (proof_key keysets proof) (λ key.
      and_then
        (map_err bad_credential (verify_proof_dleq_offline cdk proof key settings.require_dleq))
        (λ _. check_dleqs keysets proofs))

  -- The claim of the proofs, and whether Redis holds it.
  unfoldable pub claim_in_worker : Str → Fallible (World E) CashuError Bool
  claim_in_worker key = do
    claimed ← lift (claim_token key)
    guard claimed (bad_credential already_used)
    succeed false

  unfoldable pub settle_proof_claim :
      Str → Result ReplayClaimError Bool → Fallible (World E) CashuError Bool
  settle_proof_claim key (ok true) = succeed true
  settle_proof_claim key (ok false) = of_result (err (bad_credential already_used))
  settle_proof_claim key (err not_configured) = claim_in_worker key
  settle_proof_claim key (err unavailable) =
      of_result (err (internal (redis_unavailable (claim_error unavailable))))

  unfoldable pub claim_proofs : Str → Fallible (World E) CashuError Bool
  claim_proofs key = do
    stored ← lift (store_cashu_token_as_used redis hashing ttls key)
    settle_proof_claim key stored

  unfoldable pub release_claim : Bool → Str → Action (World E) (Unit {0})
  release_claim true key w = ((release_cashu_token redis hashing ttls key w).0, tt)
  release_claim false key w = release_token key w

  -- The answer of the database: an error releases the claim.
  unfoldable pub settle_store :
      Bool → Str → Result Str (Unit {0}) → Fallible (World E) CashuError (Unit {0})
  settle_store claimed key (ok stored) = succeed tt
  settle_store claimed key (err e) = do
    lift (release_claim claimed key)
    of_result (err (internal (failed_to_store e)))

  unfoldable pub map_tenant : List Proof → Option Str → Fallible (World E) CashuError (Unit {0})
  map_tenant proofs lnurl_addr =
      if is_multi_tenant_enabled settings
      then logged (set_proof_to_lnurl redis hashing cdk settings proofs lnurl_addr)
      else succeed tt

  -- From the claim on.
  unfoldable pub store_proofs :
      Str
      → Str
      → List Proof
      → List (ProofInfo Proof)
      → Option Str
      → Fallible (World E) CashuError (Unit {0})
  store_proofs token key proofs infos lnurl_addr = do
    claimed ← claim_proofs key
    map_tenant proofs lnurl_addr
    stored ← lift (call (cdk.update_proofs infos []))
    settle_store claimed key stored
    lift (cache_processed_token key)
    lift (cache_processed_token token)

  -- The checks of the proofs, up to the answer of the mint; the result is the key that they are locked to.
  unfoldable pub check_proofs :
      Wallet → Token → List (KeySet Key) → List Proof → Str → Fallible (World E) CashuError Str
  check_proofs wallet decoded keysets proofs key = do
    refuse_stored redis hashing ttls cdk settings key
    lock ← of_result server_key
    sharing (λ e. unacceptable (not_locked_to_us e)) (cdk.verify_token_p2pk wallet decoded lock)
    of_result (check_locks proofs)
    of_result (check_dleqs keysets proofs)
    states ←
        sharing (λ e. internal (failed_to_verify_state e)) (cdk.check_proofs_spent wallet proofs)
    guard (all is_unspent states) (bad_credential not_unspent)
    succeed lock

  unfoldable pub accept_proofs :
      Str → Token → Option Str → Wallet → Fallible (World E) CashuError (Unit {0})
  accept_proofs token decoded lnurl_addr wallet = do
    keysets ← sharing (λ e. internal (failed_to_load_keysets e)) (cdk.keysets wallet)
    proofs ← of_result (
        map_err (λ e. bad_credential (failed_to_extract_proofs e))
          (cdk.proofs (keyset_infos keysets) decoded))
    key ← of_result (proof_replay_key proofs)
    lock ← check_proofs wallet decoded keysets proofs key
    infos ← of_result (
        map_err (λ e. internal (failed_to_compute_y e))
          (proof_infos redis hashing cdk settings wallet unspent (some lock) proofs))
    store_proofs token key proofs infos lnurl_addr

  unfoldable pub verify_cashu_token_p2pk :
      Str → ℤ → Option Str → Fallible (World E) CashuError (Unit {0})
  verify_cashu_token_p2pk token amount_msat lnurl_addr = do
    refuse_seen redis hashing ttls cdk settings token
    refuse_stored redis hashing ttls cdk settings token
    decoded ← of_result (map_err (λ e. bad_credential (failed_to_decode e)) (token_from_str token))
    mint ← of_result (token_mint redis hashing ttls cdk settings decoded)
    of_result (map_err (λ e. unacceptable (invalid_mint_url e)) (cdk.mint_url_from_str mint))
    of_result (listed_mint mint)
    total ← of_result (token_amount redis hashing ttls cdk settings decoded)
    guard (leb (as_u64 amount_msat) total.1)
        (unacceptable (insufficient total.1 (as_u64 amount_msat)))
    wallet ← failing (λ e. internal (wallet_failed e)) (get_or_create_wallet cdk mint total.0)
    accept_proofs token decoded lnurl_addr wallet
