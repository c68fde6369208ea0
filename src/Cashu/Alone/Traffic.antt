-- ===== src/Cashu/Alone/Traffic.antt =====
-- src/lib.rs: one preimage and the Cashu tokens that are verified beside it.
use ngx_l.Base.{◌≡◌, ◌≢◌, Bool, true, false, Option, List, [], if◌then◌else◌, ℤ, is_some, first}
use ngx_l.Text.{Str}
use ngx_l.Outcome.{Result, ok, err}
use ngx_l.Outcome.Keeps.{Keeps}
use ngx_l.Outcome.Fallible.{
  Keeps-try, Keeps-succeed, Keeps-of_result, Keeps-lift, Keeps-guard, Keeps-failing,
}
use ngx_l.World.{World, Wallet}
use ngx_l.Redis.{Redis, ReplayClaimError, not_configured, unavailable}
use ngx_l.Redis.Laws.{HoldsKey, KeepsKey, IsHeld}
use ngx_l.Replay.{Hashing, Ttls, preimage_redis_key}
use ngx_l.Cdk.{Cdk, ProofInfo}
use ngx_l.Replay.{declined}
use ngx_l.L402.{Middleware, Request}
use ngx_l.L402.Replays.{Shows, handle, traffic, single_use}
use ngx_l.L402.SingleUse.{OthersKeep}
use ngx_l.Cashu.{Settings}
use ngx_l.Cashu.Verify.{verify_cashu_token}
use ngx_l.Cashu.Fast.{
  claim_in_worker, settle_proof_claim, claim_proofs, release_claim, settle_store, store_proofs,
  accept_proofs, verify_cashu_token_p2pk,
}
use ngx_l.Cashu.Fast.Claims.{CdkKeeps}
use ngx_l.Cashu.Frame.{
  refuse_seen-Keeps, refuse_stored-Keeps, get_or_create_wallet-Keeps, check_proofs-Keeps,
  map_tenant-Keeps, cache-Keeps,
}
use ngx_l.Cashu.Dispatch.{verify_by_mode}
use ngx_l.Cashu.Alone.{
  SwapKeeps, IsHeld-frame, try-Keeps, store-Keeps, release-Keeps, verify_cashu_token-Keeps,
}

module _ {E : Type 0} (redis : Redis E) (hashing : Hashing) (ttls : Ttls) (cdk : Cdk E)
    (settings : Settings) (preimage : Str) {Held : E → Type 0}
    (laws : HoldsKey redis (preimage_redis_key redis hashing ttls preimage) Held)
    (calls : CdkKeeps cdk Held) (swaps : SwapKeeps cdk Held) where
  open cdk use {Proof, Token}

  settle_proof_claim-Keeps :
      (key : Str) (r : Result ReplayClaimError Bool)
      → Keeps (IsHeld Held) (settle_proof_claim redis hashing ttls cdk settings key r)
  unfolding settle_proof_claim claim_in_worker
  settle_proof_claim-Keeps key (ok true) = Keeps-succeed true
  settle_proof_claim-Keeps key (ok false) = Keeps-of_result _
  settle_proof_claim-Keeps key (err not_configured) =
      Keeps-try _ _
        (Keeps-lift _
          ((IsHeld-frame redis hashing ttls cdk settings preimage laws calls swaps).token key))
        (λ claimed. Keeps-try _ _ (Keeps-guard _ _) (λ _. Keeps-succeed _))
  settle_proof_claim-Keeps key (err unavailable) = Keeps-of_result _

  release_claim-Keeps :
      (claimed : Bool) (key : Str)
      → Keeps (IsHeld Held) (release_claim redis hashing ttls cdk settings claimed key)
  unfolding release_claim
  release_claim-Keeps true key = record {
    at = (release-Keeps redis hashing ttls cdk settings preimage laws calls swaps key).at;
  }
  release_claim-Keeps false key = record {
    at = λ w h. record { configured = h.configured; held = h.held };
  }

  settle_store-Keeps :
      (claimed : Bool) (key : Str) (r : Result Str (Unit {0}))
      → Keeps (IsHeld Held) (settle_store redis hashing ttls cdk settings claimed key r)
  unfolding settle_store
  settle_store-Keeps claimed key (ok _) = Keeps-succeed tt
  settle_store-Keeps claimed key (err e) =
      Keeps-try _ _ (Keeps-lift _ (release_claim-Keeps claimed key)) (λ _. Keeps-of_result _)

  store_proofs-Keeps :
      (token key : Str) (ps : List Proof) (infos : List (ProofInfo Proof)) (route : Option Str)
      → Keeps (IsHeld Held) (store_proofs redis hashing ttls cdk settings token key ps infos route)
  unfolding store_proofs claim_proofs
  store_proofs-Keeps token key ps infos route =
      Keeps-try _ _
        (Keeps-try _ _
          (Keeps-lift _ (store-Keeps redis hashing ttls cdk settings preimage laws calls swaps key))
          (λ r. settle_proof_claim-Keeps key r))
        (λ claimed.
          Keeps-try _ _
            (map_tenant-Keeps redis hashing ttls cdk settings
              (IsHeld-frame redis hashing ttls cdk settings preimage laws calls swaps) ps route)
            (λ _.
              Keeps-try _ _
                (Keeps-lift _ (
                  (IsHeld-frame redis hashing ttls cdk settings preimage laws calls swaps).update
                    infos []))
                (λ stored. Keeps-try _ _ (settle_store-Keeps claimed key stored) (λ _.
                  Keeps-try _ _
                    (Keeps-lift _ (
                      cache-Keeps redis hashing ttls cdk settings
                        (IsHeld-frame redis hashing ttls cdk settings preimage laws calls swaps)
                        key))
                    (λ _. Keeps-lift _ (
                      cache-Keeps redis hashing ttls cdk settings
                        (IsHeld-frame redis hashing ttls cdk settings preimage laws calls swaps)
                        token))))))

  accept_proofs-Keeps :
      (token : Str) (t : Token) (route : Option Str) (v : Wallet)
      → Keeps (IsHeld Held) (accept_proofs redis hashing ttls cdk settings token t route v)
  unfolding accept_proofs
  accept_proofs-Keeps token t route v =
      Keeps-try _ _
        (Keeps-failing _ _ (
          try-Keeps redis hashing ttls cdk settings preimage laws calls swaps _
            (calls.keep_keysets v)))
        (λ keysets. Keeps-try _ _ (Keeps-of_result _) (λ ps.
          Keeps-try _ _ (Keeps-of_result _) (λ key.
            Keeps-try _ _
              (check_proofs-Keeps redis hashing ttls cdk settings
                (IsHeld-frame redis hashing ttls cdk settings preimage laws calls swaps) v t keysets
                ps key)
              (λ lock.
                Keeps-try _ _ (Keeps-of_result _)
                  (λ infos. store_proofs-Keeps token key ps infos route)))))

  verify_p2pk-Keeps :
      (token : Str) (amount_msat : ℤ) (route : Option Str)
      → Keeps
          (IsHeld Held)
          (verify_cashu_token_p2pk redis hashing ttls cdk settings token amount_msat route)
  unfolding verify_cashu_token_p2pk
  verify_p2pk-Keeps token amount_msat route =
      Keeps-try _ _
        (refuse_seen-Keeps redis hashing ttls cdk settings
          (IsHeld-frame redis hashing ttls cdk settings preimage laws calls swaps) token)
        (λ _.
          Keeps-try _ _
            (refuse_stored-Keeps redis hashing ttls cdk settings
              (IsHeld-frame redis hashing ttls cdk settings preimage laws calls swaps) token)
            (λ _. Keeps-try _ _ (Keeps-of_result _) (λ t. Keeps-try _ _ (Keeps-of_result _) (λ mint.
              Keeps-try _ _ (Keeps-of_result _) (λ _. Keeps-try _ _ (Keeps-of_result _) (λ _.
                Keeps-try _ _ (Keeps-of_result _) (λ total. Keeps-try _ _ (Keeps-guard _ _) (λ _.
                  Keeps-try _ _
                    (Keeps-failing _ _ (
                      get_or_create_wallet-Keeps redis hashing ttls cdk settings
                        (IsHeld-frame redis hashing ttls cdk settings preimage laws calls swaps)
                        mint total.0))
                    (λ v. accept_proofs-Keeps token t route v)))))))))

  verify_by_mode-Keeps :
      (token : Str) (amount_msat : ℤ) (route : Option Str)
      → Keeps (IsHeld Held) (verify_by_mode redis hashing ttls cdk settings token amount_msat route)
  unfolding verify_by_mode
  verify_by_mode-Keeps token amount_msat route = record {
    at = λ w h. by_mode settings.p2pk_mode w h;
  }
    where
      by_mode :
          (on : Bool) (w : World E)
          → IsHeld Held w
          → IsHeld Held
              (if on
                then verify_cashu_token_p2pk redis hashing ttls cdk settings token amount_msat route
                    w
                else verify_cashu_token redis hashing ttls cdk settings token amount_msat route w).0
      by_mode true w h = (verify_p2pk-Keeps token amount_msat route).at w h
      by_mode false w h =
          (verify_cashu_token-Keeps redis hashing ttls cdk settings preimage laws calls swaps token
              amount_msat route).at
            w h

  module _ (middleware : Middleware E) (root_key : Str)
      (lookup : (hash : Str) → KeepsKey Held (middleware.lookup_invoice hash)) where
    others :
        OthersKeep redis hashing ttls middleware root_key
          (verify_by_mode redis hashing ttls cdk settings)
          Held
    others = record { lookup_keeps = lookup; cashu_keeps = verify_by_mode-Keeps }

    -- The single use of a preimage holds beside the real verification of Cashu tokens: with Redis
    -- configured, and with a node and a Cashu library that leave its keys alone, once a request on the
    -- classic path that shows a preimage was let through by a location without indefinite access, no later
    -- one that shows it there is, whatever Lightning and Cashu requests are served in between.
    pub single_use_beside_cashu :
        (first again : Request) (between : List Request) (w : World E)
        → Shows middleware preimage first
        → Shows middleware preimage again
        → is_some w.redis_url ≡ true
        → (handle redis hashing ttls middleware root_key
            (verify_by_mode redis hashing ttls cdk settings)
            first
            w).1
          ≡ declined
        → (handle redis hashing ttls middleware root_key
            (verify_by_mode redis hashing ttls cdk settings)
            again
            (traffic redis hashing ttls middleware root_key
              (verify_by_mode redis hashing ttls cdk settings)
              between
              (handle redis hashing ttls middleware root_key
                (verify_by_mode redis hashing ttls cdk settings)
                first
                w).0)).1
          ≢ declined
    single_use_beside_cashu first again between w s s' h a =
        single_use redis hashing ttls middleware root_key
          (verify_by_mode redis hashing ttls cdk settings) preimage laws others first again between
          w s s' h a
