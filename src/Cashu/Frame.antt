-- ===== src/Cashu/Frame.antt =====
-- src/cashu.rs: what the verification of a token leaves alone, for a predicate on the worker that its
-- calls keep. Only the claim of a token and the mapping of a proof write to Redis.
use ngx_l.Base.{false, Option, List, [], ◌∷◌, ◌++◌}
use ngx_l.Text.{Str, codes}
use ngx_l.Outcome.{Result, Action}
use ngx_l.Outcome.Keeps.{Keeps, Keeps-pure, Keeps-if, Keeps-bind}
use ngx_l.Outcome.Fallible.{
  Keeps-try, Keeps-succeed, Keeps-of_result, Keeps-lift, Keeps-guard, Keeps-failing, Keeps-logged,
}
use ngx_l.World.{World, call, Wallet, CurrencyUnit}
use ngx_l.Redis.{Redis, redis_pool, with_pool, with_conn}
use ngx_l.Replay.{Hashing, Ttls, is_cashu_token_used}
use ngx_l.Cdk.{Cdk, KeySet, ProofInfo}
use ngx_l.Cashu.{
  Settings, claim_token, cache_processed_token, try_call, keep_wallet, get_or_create_wallet,
}
use ngx_l.Cashu.Tenants.{proof_mapping_key, write_mapping, write_mappings, set_proof_to_lnurl}
use ngx_l.Cashu.Verify.{refuse_seen, refuse_stored}
use ngx_l.Cashu.Fast.{check_proofs, map_tenant}

module _ {E : Type 0} (redis : Redis E) (hashing : Hashing) (cdk : Cdk E) where
  pub record Frame (P : World E → Type 0) : Type 0 where
    pub pool : Keeps P (redis_pool redis)
    pub conn : Keeps P (call redis.get_conn)
    pub exists : (k : Str) → Keeps P (call (redis.key_exists k))
    pub set_mapping :
        (secret lnurl : Str)
        → Keeps P (call (redis.set (codes "cashu:proof_lnurl:" ++ hashing.sha256_hex secret) lnurl))
    pub db : Keeps P (call cdk.get_db)
    pub keysets : (v : Wallet) → Keeps P (call (cdk.keysets v))
    pub locked :
        (v : Wallet) (t : cdk.Token) (key : Str) → Keeps P (call (cdk.verify_token_p2pk v t key))
    pub spent : (v : Wallet) (ps : List cdk.Proof) → Keeps P (call (cdk.check_proofs_spent v ps))
    pub update :
        (infos : List (ProofInfo cdk.Proof)) (ys : List Str)
        → Keeps P (call (cdk.update_proofs infos ys))
    -- The caches of the worker.
    pub token : (k : Str) → Keeps P (claim_token k)
    pub wallet : (v : Wallet) → Keeps P (keep_wallet cdk v)

module _ {E : Type 0} (redis : Redis E) (hashing : Hashing) (ttls : Ttls) (cdk : Cdk E)
    (settings : Settings) {P : World E → Type 0} (frame : Frame redis hashing cdk P) where
  with_conn-Keeps :
      {A : Type 0} (failed body : Action (World E) A)
      → Keeps P failed
      → Keeps P body
      → Keeps P (with_conn redis failed body)
  unfolding with_conn
  with_conn-Keeps failed body kf kb = Keeps-bind _ _ frame.conn (λ b. Keeps-if b _ _ kb kf)

  with_pool-Keeps :
      {A : Type 0} (absent failed body : Action (World E) A)
      → Keeps P absent
      → Keeps P failed
      → Keeps P body
      → Keeps P (with_pool redis absent failed body)
  unfolding with_pool
  with_pool-Keeps absent failed body ka kf kb =
      Keeps-bind _ _ frame.pool (λ b. Keeps-if b _ _ (with_conn-Keeps failed body kf kb) ka)

  unchanged : {A : Type 0} (f : World E → A) → Keeps P (λ w. (w, f w))
  unchanged f = record { at = λ w h. h }

  is_cashu_token_used-Keeps : (key : Str) → Keeps P (is_cashu_token_used redis hashing ttls key)
  unfolding is_cashu_token_used
  is_cashu_token_used-Keeps key =
      with_pool-Keeps _ _ _ (Keeps-pure false) (Keeps-pure false)
        (Keeps-bind _ _ (frame.exists _) (λ found. Keeps-pure _))

  pub refuse_seen-Keeps : (key : Str) → Keeps P (refuse_seen redis hashing ttls cdk settings key)
  unfolding refuse_seen
  refuse_seen-Keeps key = Keeps-try _ _ (Keeps-lift _ (unchanged _)) (λ b. Keeps-guard _ _)

  pub refuse_stored-Keeps :
      (key : Str) → Keeps P (refuse_stored redis hashing ttls cdk settings key)
  unfolding refuse_stored
  refuse_stored-Keeps key =
      Keeps-try _ _ (Keeps-lift _ (is_cashu_token_used-Keeps key)) (λ b. Keeps-guard _ _)

  pub try_call-Keeps :
      {A : Type 0} (f : Action E (Result Str A)) → Keeps P (call f) → Keeps P (try_call f)
  unfolding try_call
  try_call-Keeps f k = k

  pub get_or_create_wallet-Keeps :
      (url : Str) (u : CurrencyUnit) → Keeps P (get_or_create_wallet cdk url u)
  unfolding get_or_create_wallet
  get_or_create_wallet-Keeps url u = Keeps-try _ _ (Keeps-lift _ (unchanged _)) (λ hit.
      Keeps-if hit _ _ (Keeps-succeed _) (
        Keeps-try _ _ (try_call-Keeps _ frame.db) (λ _.
          Keeps-try _ _ (Keeps-of_result _)
            (λ _. Keeps-try _ _ (Keeps-lift _ (frame.wallet _)) (λ _. Keeps-succeed _)))))

  pub check_proofs-Keeps :
      (v : Wallet) (t : cdk.Token) (ks : List (KeySet cdk.Key)) (ps : List cdk.Proof) (key : Str)
      → Keeps P (check_proofs redis hashing ttls cdk settings v t ks ps key)
  unfolding check_proofs
  check_proofs-Keeps v t ks ps key = Keeps-try _ _ (refuse_stored-Keeps key) (λ _.
      Keeps-try _ _ (Keeps-of_result _) (λ lock.
        Keeps-try _ _ (Keeps-failing _ _ (try_call-Keeps _ (frame.locked v t lock))) (λ _.
          Keeps-try _ _ (Keeps-of_result _) (λ _. Keeps-try _ _ (Keeps-of_result _) (λ _.
            Keeps-try _ _ (Keeps-failing _ _ (try_call-Keeps _ (frame.spent v ps)))
              (λ states. Keeps-try _ _ (Keeps-guard _ _) (λ _. Keeps-succeed _)))))))

  write_mapping-Keeps :
      (secret lnurl : Str)
      → Keeps P (
          write_mapping redis hashing cdk settings
            (proof_mapping_key redis hashing cdk settings secret)
            lnurl)
  unfolding proof_mapping_key
  write_mapping-Keeps secret lnurl = record { at = λ w h. (frame.set_mapping secret lnurl).at w h }

  write_mappings-Keeps :
      (lnurl : Str) (ps : List cdk.Proof)
      → Keeps P (write_mappings redis hashing cdk settings lnurl ps)
  unfolding write_mappings
  write_mappings-Keeps lnurl [] = Keeps-succeed tt
  write_mappings-Keeps lnurl (p ∷ ps) =
      Keeps-try _ _ (write_mapping-Keeps (cdk.secret p) lnurl) (λ _. write_mappings-Keeps lnurl ps)

  pub set_proof_to_lnurl-Keeps :
      (ps : List cdk.Proof) (route : Option Str)
      → Keeps P (set_proof_to_lnurl redis hashing cdk settings ps route)
  unfolding set_proof_to_lnurl
  set_proof_to_lnurl-Keeps ps route = Keeps-try _ _ (Keeps-lift _ frame.pool) (λ pool.
      Keeps-if pool _ _
        (Keeps-if _ _ _ (Keeps-of_result _)
          (with_conn-Keeps _ _ (unchanged _) (write_mappings-Keeps _ ps)))
        (unchanged _))

  pub map_tenant-Keeps :
      (ps : List cdk.Proof) (route : Option Str)
      → Keeps P (map_tenant redis hashing ttls cdk settings ps route)
  unfolding map_tenant
  map_tenant-Keeps ps route =
      Keeps-if _ _ _ (Keeps-logged _ (set_proof_to_lnurl-Keeps ps route)) (Keeps-succeed tt)

  pub cache-Keeps : (key : Str) → Keeps P (cache_processed_token key)
  unfolding cache_processed_token
  cache-Keeps key = record { at = λ w h. (frame.token key).at w h }
