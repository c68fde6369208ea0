-- ===== src/Tests/Payouts.antt =====
-- The theorems on redemption, start and the access handler with Cashu, applied to the small mint.
use ngx_l.Base.{
  ℕ, ◌*◌, ◌≤◌, ◌<◌, ◌≡◌, refl, ◌⊎◌, true, false, none, some, List, [], ◌∷◌, ◌++◌, arith, pos,
  length,
}
use ngx_l.Outcome.Fallible.{payload}
use ngx_l.Text.{Str, codes, str_eq, trim, trim_start_matches, starts_with}
use ngx_l.Outcome.{Result, ok, err, Action, pure}
use ngx_l.World.{World, Wallet, sat}
use ngx_l.ReplayCache.{member, erase}
use ngx_l.Fee.{Float, u64_max}
use ngx_l.Replay.{declined}
use ngx_l.L402.{Request, l402_access_handler, path}
use ngx_l.Tests.Access.{shows}
use ngx_l.Base.{◌≢◌}
use ngx_l.L402.Replays.{handle, traffic}
use ngx_l.Cashu.Fast.Claims.{CdkKeeps}
use ngx_l.Cashu.Alone.{SwapKeeps}
use ngx_l.Cashu.Alone.Traffic.{single_use_beside_cashu}
use ngx_l.Cashu.Tenants.{key_of}
use ngx_l.Cashu.MintInfo.{MeltConfig, Serde, Limits}
use ngx_l.Cashu.Redeem.{Payee, select, total_msat, input_fee_msat, redeem_group}
use ngx_l.Cashu.Redeem.Covered.{IsMelted, redemption_covered}
use ngx_l.Cashu.Request.{payment_request, request_covers}
use ngx_l.Cashu.Start.{P2pkEnv, unset, IsEnabled, p2pk_requested, initialize_p2pk_mode, p2pk_start}
use ngx_l.Cashu.Dispatch.{verify_by_mode, IsCharged, cashu_pays}
use ngx_l.Tests.{Keys, server, hashing, ttls, worker, middleware, paid, preimage, laws, Held}
use ngx_l.Tests.Mint.{mint, settings}
use ngx_l.Tests.Plain.{whole}

abbrev pub serde : Serde Str
serde = record {
  Value = Str;
  to_value = λ s. ok s;
  get = λ k v. none;
  as_str = λ v. none;
  as_u64 = λ v. none;
  as_array = λ v. none;
}

abbrev pub payee : {E : Type 0} → Payee E
payee = record {
  lnurl_client = λ a e. (e, ok tt);
  ln_client = λ e. (e, ok tt);
  generate_invoice = λ a n c m d e. (e, ok (codes "i"));
}

abbrev pub melts : MeltConfig ℕ
melts = record {
  min_balance_sats = 1;
  fee_reserve_percent = 1;
  min_fee_reserve_sats = 1;
  max_proofs_per_melt = 2;
}

abbrev pub limits : Limits ℕ
limits = record { percent = 1; min_fee_reserve_msat = 1000; minimum_msat = 1000 }

abbrev pub wallet : Wallet
wallet = record { mint_url = codes "m"; unit = sat }

abbrev pub group : List Str
group = codes "a" ∷ codes "b" ∷ codes "c" ∷ []

small_total :
    total_msat server hashing mint settings whole serde payee melts sat
      (select server hashing mint settings whole serde payee melts group)
    < u64_max
unfolding total_msat ngx_l.Cashu.Redeem.sum_u64 select ngx_l.Cashu.Redeem.take
small_total = omega arith

redeemed :
    (redeem_group server hashing mint settings whole serde payee melts wallet limits
      (codes "d")
      group
      worker).1
    ≡ ok 2
unfolding redeem_group ngx_l.Outcome.Fallible.◌>>=◌ ngx_l.Outcome.Fallible.guard total_msat
    ngx_l.Cashu.Redeem.sum_u64 ngx_l.Fee.sat_to_msat input_fee_msat ngx_l.Outcome.Fallible.failing
    ngx_l.Cashu.try_call ngx_l.Outcome.Fallible.of_result ngx_l.Cashu.Redeem.fee_of
    ngx_l.Cashu.Redeem.melt_group ngx_l.Fee.melt_reserve_msat select ngx_l.Cashu.Redeem.take
    ngx_l.Cashu.Redeem.invoice_for ngx_l.Cashu.Redeem.required_msat ngx_l.Cashu.Redeem.melt_selected
    ngx_l.Cashu.Redeem.map_change ngx_l.Cashu.Redeem.melt_quote_with ngx_l.Cashu.Redeem.melt_signed
    ngx_l.Cashu.Redeem.sign_proofs ngx_l.Cashu.Tenants.claim_error
    ngx_l.Cashu.Tenants.delete_mapping_keys ngx_l.Cashu.Tenants.proof_mapping_key
    ngx_l.Cashu.Tenants.remove_proof_lnurl_mappings ngx_l.Cashu.Tenants.set_proof_to_lnurl
    ngx_l.Cashu.Tenants.write_mappings ngx_l.Fee.fee_reserve_msat ngx_l.Outcome.Fallible.continue
    ngx_l.Outcome.Fallible.lift ngx_l.Outcome.Fallible.logged ngx_l.Outcome.Fallible.succeed
    ngx_l.Outcome.◌>>=◌ ngx_l.Redis.open_configured ngx_l.Redis.open_pool
    ngx_l.Redis.redis_absence_reason ngx_l.Redis.redis_pool ngx_l.Redis.with_conn
    ngx_l.Redis.with_pool ngx_l.World.call
redeemed = refl

redemption_covered_example :
    (selected rest : List Str) × (fee : ℕ) × (fee_asked : World Keys) × (selected ++ rest ≡ group)
    × (2 ≡ length selected)
    × (1000 ≤ total_msat server hashing mint settings whole serde payee melts sat group)
    × ((input_fee_msat server hashing mint settings whole serde payee melts wallet selected
          fee_asked).1
        ≡ ok fee)
    × IsMelted server hashing mint settings whole serde payee melts wallet limits
        (codes "d")
        selected
        (total_msat server hashing mint settings whole serde payee melts sat selected)
        fee
redemption_covered_example =
    redemption_covered server hashing mint settings whole serde payee melts wallet limits
      (codes "d") group worker 2 small_total redeemed

request_covers_example :
    (a : ℕ) × ((payment_request settings (pos 1500) []).a ≡ pos a)
    × (1500 ≤ a * 1000)
    × (a * 1000 < 2500)
request_covers_example = request_covers settings 1500 [] (omega arith)

abbrev p2pk_env : P2pkEnv
p2pk_env = record {
  mode = some (codes " true");
  private_key = some (codes "s");
  require_dleq = none;
}

started : (initialize_p2pk_mode mint (some []) p2pk_env unset).1 ≡ ok tt
unfolding initialize_p2pk_mode p2pk_requested trim ngx_l.Cashu.Start.enable_p2pk
    ngx_l.Outcome.Fallible.◌>>=◌ ngx_l.Outcome.Fallible.guard ngx_l.Outcome.Fallible.of_result
    ngx_l.P2pk.parse_p2pk_secret_key ngx_l.Cashu.Start.fill_statics ngx_l.Outcome.Fallible.lift
started = refl

p2pk_start_example :
    IsEnabled mint (some []) p2pk_env (initialize_p2pk_mode mint (some []) p2pk_env unset).0
    ⊎ ((p2pk_requested mint p2pk_env.mode ≡ false)
        × ((initialize_p2pk_mode mint (some []) p2pk_env unset).0
            ≡ record unset { mode_enabled = some false }))
p2pk_start_example = p2pk_start mint (some []) p2pk_env started

abbrev with_token : Request
with_token = record paid { auth_header = some (codes "Cashu a"); amount_msat = pos 8000 }

named : starts_with (codes "Cashu ") (codes "Cashu a") ≡ true
unfolding starts_with
named = refl

served :
    (l402_access_handler server hashing ttls middleware []
      (verify_by_mode server hashing ttls mint settings)
      with_token
      worker).1
    ≡ declined
unfolding l402_access_handler ngx_l.Outcome.◌>>=◌ ngx_l.L402.credential starts_with
    ngx_l.L402.cashu_path ngx_l.L402.cashu_answer verify_by_mode
    ngx_l.Cashu.Fast.verify_cashu_token_p2pk ngx_l.Outcome.Fallible.◌>>=◌
    ngx_l.Cashu.Verify.refuse_seen ngx_l.Outcome.Fallible.lift ngx_l.Outcome.Fallible.guard
    ngx_l.ReplayCache.contains ngx_l.ReplayCache.with_capacity ngx_l.Cashu.Verify.refuse_stored
    ngx_l.Replay.is_cashu_token_used ngx_l.Redis.with_pool ngx_l.Outcome.Fallible.of_result
    ngx_l.Cashu.Verify.token_mint ngx_l.Cashu.Fast.listed_mint ngx_l.Cashu.Mints.normalize_mint_url
    ngx_l.Text.trim_end_matches trim ngx_l.Cashu.Verify.token_amount
    ngx_l.Cashu.Verify.amount_msat_of ngx_l.Outcome.Fallible.failing
    ngx_l.Cashu.get_or_create_wallet ngx_l.Cashu.try_call ngx_l.Outcome.Fallible.succeed
    ngx_l.Cashu.Fast.accept_proofs ngx_l.Cashu.Fast.proof_replay_key ngx_l.Cashu.Fast.y_values
    ngx_l.Cashu.Fast.check_proofs ngx_l.Cashu.Fast.server_key ngx_l.Cashu.Fast.check_locks
    ngx_l.P2pk.verify_permanent_p2pk_lock ngx_l.Cashu.Fast.check_dleqs ngx_l.Cashu.Fast.proof_key
    ngx_l.Cashu.Fast.find_keyset ngx_l.Dleq.verify_proof_dleq_offline
    ngx_l.Cashu.Tenants.proof_infos ngx_l.Cashu.Fast.store_proofs ngx_l.Cashu.Fast.claim_proofs
    ngx_l.Cashu.Fast.settle_proof_claim ngx_l.Replay.store_cashu_token_as_used
    ngx_l.Cashu.Fast.map_tenant ngx_l.Outcome.Fallible.logged ngx_l.Cashu.Fast.settle_store
served = refl

cashu_pays_example :
    IsCharged server hashing ttls mint settings
      (trim (trim_start_matches (codes "Cashu ") (codes "Cashu a")))
      8000
      none
cashu_pays_example =
    cashu_pays server hashing ttls mint settings middleware [] with_token (codes "Cashu a") worker
      refl named served

mint_keeps : CdkKeeps mint Held
mint_keeps = record {
  keep_db = λ e h. h;
  keep_keysets = λ v e h. h;
  keep_locked = λ v t k e h. h;
  keep_spent = λ v ps e h. h;
  keep_update = λ i ys e h. h;
}

swaps_keep : SwapKeeps mint Held
swaps_keep = record {
  keep_fee = λ v ps e h. h;
  keep_receive = λ v t e h. h;
  keep_swap = λ v n ps e h. h;
  keep_states = λ ys s e h. h;
}

first_paid :
    (handle server hashing ttls middleware []
      (verify_by_mode server hashing ttls mint settings)
      paid
      worker).1
    ≡ declined
unfolding l402_access_handler ngx_l.Outcome.◌>>=◌ ngx_l.L402.credential starts_with
    ngx_l.L402Header.is_l402_scheme ngx_l.L402.l402_path ngx_l.L402.classic ngx_l.L402.admit_parsed
    ngx_l.L402.admit_fresh ngx_l.L402.already_used ngx_l.Replay.is_preimage_used
    ngx_l.Redis.with_pool member ngx_l.L402.admit ngx_l.Replay.handle_preimage_claim
    ngx_l.Replay.store_preimage_as_used
first_paid = refl

single_use_beside_cashu_example :
    (handle server hashing ttls middleware []
      (verify_by_mode server hashing ttls mint settings)
      paid
      (traffic server hashing ttls middleware []
        (verify_by_mode server hashing ttls mint settings)
        (with_token ∷ paid ∷ [])
        (handle server hashing ttls middleware []
          (verify_by_mode server hashing ttls mint settings)
          paid
          worker).0)).1
    ≢ declined
single_use_beside_cashu_example =
    single_use_beside_cashu server hashing ttls mint settings preimage laws mint_keeps swaps_keep
      middleware [] (λ h e k. k) paid paid (with_token ∷ paid ∷ []) worker shows shows refl
      first_paid
