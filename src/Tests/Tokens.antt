-- ===== src/Tests/Tokens.antt =====
-- The theorems on Cashu tokens, applied to the small mint.
use ngx_l.Base.{◌≡◌, refl, ◌↔◌, false, none, some, List, [], ◌∷◌, pos, is_empty}
use mathlib.Core.List.{Perm}
use ngx_l.Text.{Str, codes, trim, split}
use ngx_l.Outcome.{Result, ok, err, Action, pure}
use ngx_l.Outcome.Keeps.{Keeps-pure}
use ngx_l.World.{World}
use ngx_l.Cashu.Mints.{normalize_mint_url, initialize_whitelisted_mints, is_mint_whitelisted}
use ngx_l.Cashu.Mints.Whitelist.{lists, whitelist_lem}
use ngx_l.Cashu.Verify.{verify_cashu_token}
use ngx_l.Cashu.Verify.Accepted.{IsPaid, acceptance}
use ngx_l.Cashu.Fast.{verify_cashu_token_p2pk}
use ngx_l.Cashu.Fast.Claims.{CdkKeeps}
use ngx_l.Cashu.Fast.Accepted.{IsSecured, acceptance_p2pk}
use ngx_l.Cashu.Fast.Once.{Presents, proofs_once}
use ngx_l.Cashu.Fast.{store_proofs}
use ngx_l.Cashu.Fast.Release.{unstored_proofs_released}
use ngx_l.Cdk.{Cdk}
use ngx_l.CashuError.{internal, failed_to_store}
use ngx_l.ReplayCache
use ngx_l.P2pk.{verify_permanent_p2pk_lock}
use ngx_l.P2pk.Locks.{IsPermanent, verify_permanent_p2pk_lock_iff}
use ngx_l.Tests.{Keys, server, hashing, ttls, worker, store_laws, Holds}
use ngx_l.Tests.Mint.{mint, settings}

whitelisted :
    initialize_whitelisted_mints mint none (codes " m/,,n ")
    ≡ ok (some (codes "n" ∷ codes "m" ∷ []))
unfolding initialize_whitelisted_mints trim ngx_l.Cashu.Mints.add_mints split normalize_mint_url
    ngx_l.Text.trim_end_matches ngx_l.ReplayCache.insert ngx_l.ReplayCache.member
    ngx_l.Cashu.Mints.set_whitelist
whitelisted = refl

filled : is_empty (trim (codes " m/,,n ")) ≡ false
unfolding trim
filled = refl

whitelist_lem_example :
    is_mint_whitelisted mint (some (codes "n" ∷ codes "m" ∷ [])) (codes "m//")
    ≡ lists mint (normalize_mint_url mint (codes "m//")) (split b',' (codes " m/,,n "))
whitelist_lem_example = whitelist_lem mint (codes " m/,,n ") _ (codes "m//") filled whitelisted

verified :
    (verify_cashu_token server hashing ttls mint settings (codes "a") (pos 7000) none worker).1
    ≡ ok tt
unfolding verify_cashu_token ngx_l.Outcome.Fallible.◌>>=◌ ngx_l.Cashu.Verify.refuse_seen
    ngx_l.Outcome.Fallible.lift ngx_l.Outcome.Fallible.guard ngx_l.ReplayCache.contains
    ngx_l.ReplayCache.with_capacity ngx_l.Cashu.Verify.refuse_stored
    ngx_l.Replay.is_cashu_token_used ngx_l.Redis.with_pool ngx_l.Outcome.Fallible.of_result
    ngx_l.Cashu.Verify.token_amount ngx_l.Cashu.Verify.amount_msat_of ngx_l.Cashu.Verify.token_mint
    is_mint_whitelisted normalize_mint_url ngx_l.Text.trim_end_matches trim
    ngx_l.Cashu.Tenants.after_fee ngx_l.Cashu.Tenants.claim_error
    ngx_l.Cashu.Tenants.delete_mapping_keys ngx_l.Cashu.Tenants.proof_infos
    ngx_l.Cashu.Tenants.proof_mapping_key ngx_l.Cashu.Tenants.receive_for_tenant
    ngx_l.Cashu.Tenants.remove_proof_lnurl_mappings ngx_l.Cashu.Tenants.set_proof_to_lnurl
    ngx_l.Cashu.Tenants.swapped ngx_l.Cashu.Tenants.total_from ngx_l.Cashu.Tenants.write_mappings
    ngx_l.Cashu.Tenants.ys ngx_l.Cashu.Verify.input_fee_msat_of ngx_l.Cashu.Verify.receive_token
    ngx_l.Cashu.Verify.settle_claim ngx_l.Cashu.Verify.swap_token ngx_l.Cashu.Verify.token_fee_msat
    ngx_l.Cashu.Verify.token_proofs ngx_l.Cashu.cache_processed_token
    ngx_l.Cashu.get_or_create_wallet ngx_l.Cashu.keyset_info ngx_l.Cashu.keyset_infos
    ngx_l.Cashu.try_call ngx_l.Fee.sat_to_msat ngx_l.Outcome.Fallible.continue
    ngx_l.Outcome.Fallible.failing ngx_l.Outcome.Fallible.logged ngx_l.Outcome.Fallible.succeed pure
    ngx_l.Outcome.◌>>=◌ ngx_l.Redis.open_configured ngx_l.Redis.open_pool
    ngx_l.Redis.redis_absence_reason ngx_l.Redis.redis_pool ngx_l.Redis.with_conn
    ngx_l.Replay.cashu_token_redis_key ngx_l.Replay.store_cashu_token_as_used
    ngx_l.ReplayCache.claim ngx_l.ReplayCache.member ngx_l.Text.is_whitespace ngx_l.Text.trim_end
    ngx_l.Text.trim_start ngx_l.World.call
verified = refl

acceptance_example : IsPaid server hashing ttls mint settings (codes "a") 7000 none
acceptance_example =
    acceptance server hashing ttls mint settings (codes "a") (pos 7000) none worker verified

verified_p2pk :
    (verify_cashu_token_p2pk server hashing ttls mint settings (codes "a") (pos 8000) none worker).1
    ≡ ok tt
unfolding verify_cashu_token_p2pk ngx_l.Outcome.Fallible.◌>>=◌ ngx_l.Cashu.Verify.refuse_seen
    ngx_l.Outcome.Fallible.lift ngx_l.Outcome.Fallible.guard ngx_l.ReplayCache.contains
    ngx_l.ReplayCache.with_capacity ngx_l.Cashu.Verify.refuse_stored
    ngx_l.Replay.is_cashu_token_used ngx_l.Redis.with_pool ngx_l.Outcome.Fallible.of_result
    ngx_l.Cashu.Verify.token_mint ngx_l.Cashu.Fast.listed_mint normalize_mint_url
    ngx_l.Text.trim_end_matches trim ngx_l.Cashu.Verify.token_amount
    ngx_l.Cashu.Verify.amount_msat_of ngx_l.Cashu.Fast.accept_proofs ngx_l.Cashu.Fast.proof_key
    ngx_l.Cashu.Fast.check_dleqs ngx_l.Cashu.Fast.check_locks ngx_l.Cashu.Fast.check_proofs
    ngx_l.Cashu.Fast.claim_in_worker ngx_l.Cashu.Fast.claim_proofs ngx_l.Cashu.Fast.find_keyset
    ngx_l.Cashu.Fast.insert_sorted ngx_l.Cashu.Fast.join ngx_l.Cashu.Fast.map_tenant
    ngx_l.Cashu.Fast.proof_replay_key ngx_l.Cashu.Fast.release_claim ngx_l.Cashu.Fast.replay_key
    ngx_l.Cashu.Fast.server_key ngx_l.Cashu.Fast.settle_proof_claim ngx_l.Cashu.Fast.settle_store
    ngx_l.Cashu.Fast.sort_unstable ngx_l.Cashu.Fast.store_proofs ngx_l.Cashu.Fast.str_le
    ngx_l.Cashu.Fast.y_values ngx_l.Cashu.Tenants.claim_error ngx_l.Cashu.Tenants.proof_infos
    ngx_l.Cashu.Tenants.proof_mapping_key ngx_l.Cashu.Tenants.set_proof_to_lnurl
    ngx_l.Cashu.Tenants.write_mappings ngx_l.Cashu.cache_processed_token
    ngx_l.Cashu.get_or_create_wallet ngx_l.Cashu.keyset_info ngx_l.Cashu.keyset_infos
    ngx_l.Cashu.try_call ngx_l.Dleq.verify_proof_dleq_offline ngx_l.Dleq.verify_with_key
    ngx_l.Outcome.Fallible.continue ngx_l.Outcome.Fallible.failing ngx_l.Outcome.Fallible.logged
    ngx_l.Outcome.Fallible.succeed pure ngx_l.Outcome.◌>>=◌ ngx_l.P2pk.check_lock
    ngx_l.P2pk.is_locktime verify_permanent_p2pk_lock ngx_l.Redis.open_configured
    ngx_l.Redis.open_pool ngx_l.Redis.redis_absence_reason ngx_l.Redis.redis_pool
    ngx_l.Redis.with_conn ngx_l.Replay.cashu_token_redis_key ngx_l.Replay.release_cashu_token
    ngx_l.Replay.store_cashu_token_as_used ngx_l.ReplayCache.claim ngx_l.ReplayCache.erase
    ngx_l.ReplayCache.member ngx_l.ReplayCache.release ngx_l.ReplayCache.remove_first
    ngx_l.Text.eq_ignore_ascii_case ngx_l.Text.is_whitespace ngx_l.Text.to_ascii_lowercase
    ngx_l.Text.trim_end ngx_l.Text.trim_start ngx_l.World.call
verified_p2pk = refl

acceptance_p2pk_example : IsSecured server hashing ttls mint settings (codes "a") 8000
acceptance_p2pk_example =
    acceptance_p2pk server hashing ttls mint settings (codes "a") (pos 8000) none worker
      verified_p2pk

abbrev after_a : World Keys
after_a =
    (verify_cashu_token_p2pk server hashing ttls mint settings (codes "a") (pos 8000) none worker).0

verified_b :
    (verify_cashu_token_p2pk server hashing ttls mint settings
      (codes "b")
      (pos 8000)
      none
      ((pure tt after_a)).0).1
    ≡ ok tt
unfolding verify_cashu_token_p2pk ngx_l.Outcome.Fallible.◌>>=◌ ngx_l.Cashu.Verify.refuse_seen
    ngx_l.Outcome.Fallible.lift ngx_l.Outcome.Fallible.guard ngx_l.ReplayCache.contains pure
    ngx_l.ReplayCache.with_capacity ngx_l.Cashu.Verify.refuse_stored
    ngx_l.Replay.is_cashu_token_used ngx_l.Redis.with_pool ngx_l.Outcome.Fallible.of_result
    ngx_l.Cashu.Verify.token_mint ngx_l.Cashu.Fast.listed_mint normalize_mint_url
    ngx_l.Text.trim_end_matches trim ngx_l.Cashu.Verify.token_amount ngx_l.Cashu.Fast.accept_proofs
    ngx_l.Cashu.Fast.proof_key ngx_l.Cashu.Fast.check_dleqs ngx_l.Cashu.Fast.check_locks
    ngx_l.Cashu.Fast.check_proofs ngx_l.Cashu.Fast.claim_in_worker ngx_l.Cashu.Fast.claim_proofs
    ngx_l.Cashu.Fast.find_keyset ngx_l.Cashu.Fast.insert_sorted ngx_l.Cashu.Fast.join
    ngx_l.Cashu.Fast.map_tenant ngx_l.Cashu.Fast.proof_replay_key ngx_l.Cashu.Fast.release_claim
    ngx_l.Cashu.Fast.replay_key ngx_l.Cashu.Fast.server_key ngx_l.Cashu.Fast.settle_proof_claim
    ngx_l.Cashu.Fast.settle_store ngx_l.Cashu.Fast.sort_unstable ngx_l.Cashu.Fast.store_proofs
    ngx_l.Cashu.Fast.str_le ngx_l.Cashu.Fast.y_values ngx_l.Cashu.Tenants.claim_error
    ngx_l.Cashu.Tenants.proof_infos ngx_l.Cashu.Tenants.proof_mapping_key
    ngx_l.Cashu.Tenants.set_proof_to_lnurl ngx_l.Cashu.Tenants.write_mappings
    ngx_l.Cashu.Verify.amount_msat_of ngx_l.Cashu.cache_processed_token
    ngx_l.Cashu.get_or_create_wallet ngx_l.Cashu.keyset_info ngx_l.Cashu.keyset_infos
    ngx_l.Cashu.try_call ngx_l.Dleq.verify_proof_dleq_offline ngx_l.Dleq.verify_with_key
    ngx_l.Outcome.Fallible.continue ngx_l.Outcome.Fallible.failing ngx_l.Outcome.Fallible.logged
    ngx_l.Outcome.Fallible.succeed ngx_l.Outcome.◌>>=◌ ngx_l.P2pk.check_lock ngx_l.P2pk.is_locktime
    verify_permanent_p2pk_lock ngx_l.Redis.open_configured ngx_l.Redis.open_pool
    ngx_l.Redis.redis_absence_reason ngx_l.Redis.redis_pool ngx_l.Redis.with_conn
    ngx_l.Replay.cashu_token_redis_key ngx_l.Replay.release_cashu_token
    ngx_l.Replay.store_cashu_token_as_used ngx_l.ReplayCache.claim ngx_l.ReplayCache.erase
    ngx_l.ReplayCache.member ngx_l.ReplayCache.release ngx_l.ReplayCache.remove_first
    ngx_l.Text.eq_ignore_ascii_case ngx_l.Text.is_whitespace ngx_l.Text.to_ascii_lowercase
    ngx_l.Text.trim_end ngx_l.Text.trim_start ngx_l.World.call
verified_b = refl

mint_keeps : (held : Keys → Type 0) → CdkKeeps mint held
mint_keeps held = record {
  keep_db = λ e h. h;
  keep_keysets = λ v e h. h;
  keep_locked = λ v t k e h. h;
  keep_spent = λ v ps e h. h;
  keep_update = λ i ys e h. h;
}

proofs_once_example :
    (first_points later_points : List Str) × Presents server hashing ttls mint settings
      (codes "a")
      (pos 8000)
      worker
      first_points
    × Presents server hashing ttls mint settings (codes "b") (pos 8000) after_a later_points
    × ¬ Perm first_points later_points
unfolding pure verify_cashu_token_p2pk
proofs_once_example =
    proofs_once server hashing ttls mint settings
      (λ key. Holds (ngx_l.Replay.cashu_token_redis_key server hashing ttls key))
      (λ key. store_laws _) (λ key. mint_keeps _) (codes "a") (codes "b") (pos 8000) (pos 8000) none
      none (pure tt) worker refl (λ key. Keeps-pure tt) verified_p2pk verified_b

-- The mint, with a database that takes no proofs.
abbrev full_mint : Cdk Keys
full_mint = record mint { update_proofs = λ infos ys e. (e, err (codes "full")) }

abbrev lone_worker : World Keys
lone_worker = record worker { redis_url = none; pool_set = false }

unstored :
    (store_proofs server hashing ttls full_mint settings
      (codes "t")
      (codes "k")
      (codes "a" ∷ [])
      []
      none
      lone_worker).1
    ≡ err (internal (failed_to_store (codes "full")))
unfolding store_proofs ngx_l.Outcome.Fallible.◌>>=◌ ngx_l.Cashu.Fast.claim_proofs
    ngx_l.Outcome.Fallible.lift ngx_l.Cashu.Fast.settle_proof_claim
    ngx_l.Replay.store_cashu_token_as_used ngx_l.Redis.with_pool ngx_l.Redis.redis_absence_reason
    ngx_l.Cashu.Fast.claim_in_worker ngx_l.Outcome.Fallible.guard ReplayCache.claim
    ReplayCache.with_capacity ngx_l.Outcome.Fallible.succeed ngx_l.Cashu.Fast.map_tenant
    ngx_l.Outcome.Fallible.logged ngx_l.Cashu.Fast.settle_store ngx_l.Outcome.Fallible.of_result
    ngx_l.Cashu.Fast.release_claim ngx_l.Cashu.Tenants.claim_error
    ngx_l.Cashu.Tenants.proof_mapping_key ngx_l.Cashu.Tenants.set_proof_to_lnurl
    ngx_l.Cashu.Tenants.write_mappings ngx_l.Cashu.cache_processed_token
    ngx_l.Outcome.Fallible.continue pure ngx_l.Outcome.◌>>=◌ ngx_l.Redis.open_configured
    ngx_l.Redis.open_pool ngx_l.Redis.redis_pool ngx_l.Redis.with_conn
    ngx_l.Replay.cashu_token_redis_key ngx_l.Replay.release_cashu_token ReplayCache.erase
    ReplayCache.member ReplayCache.release ReplayCache.remove_first ngx_l.World.call
unstored = refl

unstored_proofs_released_example :
    ReplayCache.contains
      (store_proofs server hashing ttls full_mint settings
        (codes "t")
        (codes "k")
        (codes "a" ∷ [])
        []
        none
        lone_worker).0.processed_tokens
      (codes "k")
    ≡ false
unstored_proofs_released_example =
    unstored_proofs_released server hashing ttls full_mint settings (codes "k") (codes "t")
      (codes "a" ∷ []) [] none lone_worker (refl, refl) (codes "full") unstored

permanent : verify_permanent_p2pk_lock mint (codes "a") ≡ ok tt
unfolding verify_permanent_p2pk_lock
permanent = refl

verify_permanent_p2pk_lock_iff_example :
    (verify_permanent_p2pk_lock mint (codes "a") ≡ ok tt) ↔ IsPermanent mint (codes "a")
verify_permanent_p2pk_lock_iff_example = verify_permanent_p2pk_lock_iff mint (codes "a")
