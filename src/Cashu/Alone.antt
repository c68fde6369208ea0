-- ===== src/Cashu/Alone.antt =====
-- src/cashu.rs and src/lib.rs: the verification of Cashu tokens leaves the claims of preimages alone, since
-- its keys in Redis are others.
pub mod Traffic
use ngx_l.Base.{
  ℕ, zero, suc, ◌+◌, ◌-◌, ◌*◌, ◌/◌, ◌%◌, ◌^◌, ◌≤◌, ◌<◌, min, max, ◌≡◌, refl, sym, ap, ◌∙◌, ◌≡⟨◌⟩◌,
  ◌∎, ◌≢◌, ◌↔◌, ◌⊎◌, inl, inr, Bool, true, false, not, ◌&&◌, ◌||◌, false≢true, Option, none, some,
  List, [], ◌∷◌, ◌++◌, map, append_assoc, append-nil, arith, ltb, leb, ◌==◌, if◌then◌else◌, leb→le,
  ==_iff, ==-refl, Bool-cases, Option-cases, ℤ, pos, negsuc, is_positive, is_negative, as_u64,
  is_some, unwrap_or, or_option, length, all, any, is_empty, first, length-append, All, All-append,
  any-append,
}
use ngx_l.Text.{Str, codes, str_eq}
use ngx_l.ReplayCache.{member}
use ngx_l.Outcome.{Result, ok, err, Action, map_err, ok_or, pure}
use ngx_l.Outcome.Keeps.{Keeps, Keeps-pure, Keeps-if, Keeps-bind}
use ngx_l.Outcome.Fallible.{
  Fallible, succeed, of_result, lift, logged, guard, failing, ◌>>=◌, ◌>>◌, Keeps-try, Keeps-succeed,
  Keeps-of_result, Keeps-lift, Keeps-guard, Keeps-failing, Keeps-logged,
}
use ngx_l.World.{World, call, Wallet, CurrencyUnit}
use ngx_l.Redis.{Redis, ReplayClaimError, not_configured, unavailable}
use ngx_l.Redis.Laws.{HoldsKey, KeepsKey, IsHeld, Keeps-call, redis_pool-Keeps, with_pool-Keeps}
use ngx_l.Replay.{
  Hashing, Ttls, preimage_redis_key, cashu_token_redis_key, store_cashu_token_as_used,
  release_cashu_token, set_nx_claim,
}
use ngx_l.Cdk.{Cdk, State, KeySet, ProofInfo}
use ngx_l.L402.{Middleware}
use ngx_l.L402.SingleUse.{OthersKeep}
use ngx_l.Text.Laws.{str_eq_of_eq}
use ngx_l.Cashu.{
  Settings, same_wallet, is_multi_tenant_enabled, try_call, token_seen, claim_token, release_token,
  cache_processed_token,
}
use ngx_l.Cashu.Tenants.{
  key_of, proof_mapping_key, no_pool, no_conn, delete_keys, delete_mapping_keys,
  remove_proof_lnurl_mappings, set_proof_to_lnurl, swapped, receive_for_tenant, ys,
}
use ngx_l.Cashu.Verify.{
  refuse_seen, refuse_stored, token_proofs, token_fee_msat, receive_token, settle_claim, swap_token,
  verify_cashu_token,
}
use ngx_l.Cashu.Fast.{
  claim_in_worker, settle_proof_claim, claim_proofs, release_claim, settle_store, map_tenant,
  store_proofs, check_proofs, accept_proofs, verify_cashu_token_p2pk,
}
use ngx_l.Cashu.Fast.Claims.{CdkKeeps}
use ngx_l.Cashu.Frame.{
  Frame, refuse_seen-Keeps, refuse_stored-Keeps, try_call-Keeps, get_or_create_wallet-Keeps,
  check_proofs-Keeps, set_proof_to_lnurl-Keeps, map_tenant-Keeps, cache-Keeps,
}

-- The rest of the library does not touch the keys of Redis either.
pub record SwapKeeps {E : Type 0} (cdk : Cdk E) (Held : E → Type 0) : Type 0 where
  pub keep_fee : (v : Wallet) (ps : List cdk.Proof) → KeepsKey Held (cdk.get_proofs_fee v ps)
  pub keep_receive : (v : Wallet) (t : Str) → KeepsKey Held (cdk.receive v t)
  pub keep_swap : (v : Wallet) (n : ℕ) (ps : List cdk.Proof) → KeepsKey Held (cdk.swap v n ps)
  pub keep_states : (ys : List Str) (s : State) → KeepsKey Held (cdk.update_proofs_state ys s)

module _ {E : Type 0} (redis : Redis E) (hashing : Hashing) (ttls : Ttls) (cdk : Cdk E)
    (settings : Settings) (preimage : Str) {Held : E → Type 0}
    (laws : HoldsKey redis (preimage_redis_key redis hashing ttls preimage) Held)
    (calls : CdkKeeps cdk Held) (swaps : SwapKeeps cdk Held) where
  open cdk use {Proof, Token}

  abbrev key : Str
  key = preimage_redis_key redis hashing ttls preimage

  mapping-ne-preimage :
      (secret : Str) → str_eq (proof_mapping_key redis hashing cdk settings secret) key ≡ false
  unfolding proof_mapping_key preimage_redis_key
  mapping-ne-preimage secret = refl

  marker-ne-preimage :
      (token : Str) → str_eq (cashu_token_redis_key redis hashing ttls token) key ≡ false
  unfolding cashu_token_redis_key preimage_redis_key
  marker-ne-preimage token = refl

  unmapped_preimage :
      (ps : List Proof) → member key (map (key_of redis hashing cdk settings) ps) ≡ false
  unfolding member
  unmapped_preimage [] = refl
  unmapped_preimage (p ∷ ps) =
      ground (arith, mapping-ne-preimage (cdk.secret p), unmapped_preimage ps)

  pub IsHeld-frame : Frame redis hashing cdk (IsHeld Held)
  unfolding proof_mapping_key
  IsHeld-frame = record {
    pool = redis_pool-Keeps redis _ laws;
    conn = Keeps-call _ laws.keep_conn;
    exists = λ k. Keeps-call _ (laws.keep_exists k);
    set_mapping = λ s l.
        Keeps-call _ (
          laws.keep_set _ l (λ e. false≢true (sym (mapping-ne-preimage s) ∙ str_eq_of_eq _ key e)));
    db = Keeps-call _ calls.keep_db;
    keysets = λ v. Keeps-call _ (calls.keep_keysets v);
    locked = λ v t k. Keeps-call _ (calls.keep_locked v t k);
    spent = λ v ps. Keeps-call _ (calls.keep_spent v ps);
    update = λ i ys. Keeps-call _ (calls.keep_update i ys);
    token = λ k. record { at = λ w h. record { configured = h.configured; held = h.held } };
    wallet = λ v. record {
      at = λ w h. elim (Bool-cases (any (same_wallet v) w.wallets)) [
        | inl e ↦ rw e h
        | inr e ↦ rw e (record { configured = h.configured; held = h.held })
      ];
    };
  }

  pub try-Keeps :
      {A : Type 0} (g : Action E (Result Str A))
      → KeepsKey Held g
      → Keeps (IsHeld Held) (try_call g)
  unfolding try_call
  try-Keeps g k = Keeps-call g k

  unchanged : {A : Type 0} (g : World E → A) → Keeps (IsHeld Held) (λ w. (w, g w))
  unchanged g = record { at = λ w h. h }

  pub store-Keeps :
      (token : Str) → Keeps (IsHeld Held) (store_cashu_token_as_used redis hashing ttls token)
  unfolding store_cashu_token_as_used
  store-Keeps token =
      with_pool-Keeps redis _ laws _ _ _ (unchanged _) (Keeps-pure _)
        (Keeps-bind _ _ (Keeps-call _ (laws.keep_set_nx _ _)) (λ stored. Keeps-pure _))

  pub release-Keeps :
      (token : Str) → Keeps (IsHeld Held) (release_cashu_token redis hashing ttls token)
  unfolding release_cashu_token member
  release-Keeps token =
      with_pool-Keeps redis _ laws _ _ _ (Keeps-pure _) (Keeps-pure _)
        (Keeps-call _ (laws.keep_del _ (ground (arith, marker-ne-preimage token))))

  delete_keys-Keeps :
      (ps : List Proof)
      → Keeps
          (IsHeld Held)
          (delete_keys redis hashing cdk settings (map (key_of redis hashing cdk settings) ps))
  delete_keys-Keeps ps = record {
    at = λ w h. (Keeps-call (redis.del _) (laws.keep_del _ (unmapped_preimage ps))).at w h;
  }

  remove-Keeps :
      (ps : List Proof)
      → Keeps (IsHeld Held) (remove_proof_lnurl_mappings redis hashing cdk settings ps)
  unfolding remove_proof_lnurl_mappings delete_mapping_keys
  remove-Keeps ps = Keeps-if _ _ _ (Keeps-succeed tt) (
      with_pool-Keeps redis _ laws (no_pool redis hashing cdk settings)
        (no_conn redis hashing cdk settings) _ (unchanged _) (unchanged _) (delete_keys-Keeps ps))

  swapped-Keeps :
      (ps : List Proof) (r : Result Str (Option (List Proof)))
      → Keeps (IsHeld Held) (swapped redis hashing cdk settings ps r)
  unfolding swapped
  swapped-Keeps ps (ok (some received)) = Keeps-succeed received
  swapped-Keeps ps (ok none) = Keeps-try _ _ (Keeps-of_result _) (λ points.
      Keeps-try _ _ (Keeps-logged _ (try-Keeps _ (swaps.keep_states points _)))
        (λ _. Keeps-of_result _))
  swapped-Keeps ps (err e) = Keeps-try _ _ (Keeps-of_result _) (λ points.
      Keeps-try _ _ (Keeps-logged _ (try-Keeps _ (swaps.keep_states points _)))
        (λ _. Keeps-of_result _))

  receive_for_tenant-Keeps :
      (v : Wallet) (t : Token) (route : Option Str)
      → Keeps (IsHeld Held) (receive_for_tenant redis hashing cdk settings v t route)
  unfolding receive_for_tenant
  receive_for_tenant-Keeps v t route = Keeps-try _ _ (try-Keeps _ (calls.keep_keysets v)) (λ _.
      Keeps-try _ _ (Keeps-of_result _) (λ ps.
        Keeps-try _ _ (try-Keeps _ (swaps.keep_fee v ps)) (λ _.
          Keeps-try _ _ (Keeps-of_result _) (λ _. Keeps-try _ _ (Keeps-of_result _) (λ net.
            Keeps-try _ _
              (set_proof_to_lnurl-Keeps redis hashing ttls cdk settings IsHeld-frame ps route)
              (λ _. Keeps-try _ _ (Keeps-of_result _) (λ infos.
                Keeps-try _ _ (try-Keeps _ (calls.keep_update infos [])) (λ _.
                  Keeps-try _ _ (Keeps-lift _ (Keeps-call _ (swaps.keep_swap v net ps))) (λ answer.
                    Keeps-try _ _ (swapped-Keeps ps answer) (λ received.
                      Keeps-try _ _
                        (Keeps-logged _ (
                          set_proof_to_lnurl-Keeps redis hashing ttls cdk settings IsHeld-frame
                            received route))
                        (λ _. Keeps-try _ _ (Keeps-logged _ (remove-Keeps ps)) (λ _.
                          Keeps-try _ _ (Keeps-of_result _)
                            (λ points. try-Keeps _ (swaps.keep_states points _))))))))))))))

  settle_claim-Keeps :
      (token : Str) (r : Result ReplayClaimError Bool)
      → Keeps (IsHeld Held) (settle_claim redis hashing ttls cdk settings token r)
  unfolding settle_claim
  settle_claim-Keeps token (ok true) =
      Keeps-lift _ (cache-Keeps redis hashing ttls cdk settings IsHeld-frame token)
  settle_claim-Keeps token (ok false) = Keeps-of_result _
  settle_claim-Keeps token (err _) =
      Keeps-lift _ (cache-Keeps redis hashing ttls cdk settings IsHeld-frame token)

  swap_token-Keeps :
      (token : Str) (t : Token) (price : ℕ) (route : Option Str) (v : Wallet) (m : ℕ)
      → Keeps (IsHeld Held) (swap_token redis hashing ttls cdk settings token t price route v m)
  unfolding swap_token token_proofs token_fee_msat receive_token
  swap_token-Keeps token t price route v m =
      Keeps-try _ _
        (Keeps-try _ _ (Keeps-failing _ _ (try-Keeps _ (calls.keep_keysets v)))
          (λ _. Keeps-of_result _))
        (λ ps.
          Keeps-try _ _
            (Keeps-try _ _ (Keeps-failing _ _ (try-Keeps _ (swaps.keep_fee v ps)))
              (λ _. Keeps-succeed _))
            (λ fee. Keeps-try _ _ (Keeps-guard _ _) (λ _.
              Keeps-try _ _
                (Keeps-failing _ _ (
                  Keeps-if _ _ _ (receive_for_tenant-Keeps v t route)
                    (try-Keeps _ (swaps.keep_receive v token))))
                (λ _.
                  Keeps-try _ _ (Keeps-lift _ (store-Keeps token))
                    (λ claimed. settle_claim-Keeps token claimed)))))

  pub verify_cashu_token-Keeps :
      (token : Str) (amount_msat : ℤ) (route : Option Str)
      → Keeps
          (IsHeld Held)
          (verify_cashu_token redis hashing ttls cdk settings token amount_msat route)
  unfolding verify_cashu_token
  verify_cashu_token-Keeps token amount_msat route =
      Keeps-try _ _ (refuse_seen-Keeps redis hashing ttls cdk settings IsHeld-frame token) (λ _.
        Keeps-try _ _ (refuse_stored-Keeps redis hashing ttls cdk settings IsHeld-frame token) (λ _.
          Keeps-try _ _ (Keeps-of_result _) (λ t. Keeps-try _ _ (Keeps-of_result _) (λ total.
            Keeps-try _ _ (Keeps-guard _ _) (λ _. Keeps-try _ _ (Keeps-of_result _) (λ mint.
              Keeps-try _ _ (Keeps-guard _ _) (λ _.
                Keeps-try _ _
                  (Keeps-failing _ _ (
                    get_or_create_wallet-Keeps redis hashing ttls cdk settings IsHeld-frame mint
                      total.0))
                  (λ v. swap_token-Keeps token t _ route v _))))))))
