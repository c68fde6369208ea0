-- ===== src/Cashu/Fast/Claims.antt =====
-- src/cashu.rs: the claim of a proof set in Redis, by `verify_cashu_token_p2pk`.
use ngx_l.Base.{
  ℕ, ◌≡◌, refl, ap, ◌≢◌, inl, inr, Bool, true, false, Option, none, some, List, [], ◌++◌, arith,
  Bool-cases, is_some, unwrap_or, any, first,
}
use std.Path.{subst}
use ngx_l.Text.{Str, codes}
use ngx_l.Outcome.{and_then, and_then-eq-ok, Result, ok, err, Action, map_err, ok_or}
use ngx_l.Outcome.Fallible.{
  of_result, lift, ◌>>=◌, Ensures, Ensures-succeed, Ensures-bind, Ensures-step, Ensures-Keeps,
  payload, continue, Keeps-lift,
}
use ngx_l.World.{World, call, Wallet}
use ngx_l.Redis.{
  Redis, ReplayClaimError, not_configured, unavailable, redis_absence_reason, redis_pool,
  open_configured, open_pool,
}
use ngx_l.Redis.Laws.{HoldsKey, KeepsKey, IsHeld, Keeps-call, redis_pool-Keeps, with_pool_elim}
use ngx_l.Replay.{Hashing, Ttls, store_cashu_token_as_used, cashu_token_redis_key, claim_reply}
use ngx_l.Cdk.{Cdk, ProofInfo}
use ngx_l.Cashu.{Settings, same_wallet}
use ngx_l.Cashu.Fast.{claim_proofs, settle_proof_claim, settle_store, store_proofs}
use ngx_l.Cashu.Frame.{Frame, map_tenant-Keeps, cache-Keeps}

-- The library does not touch the keys of Redis.
pub record CdkKeeps {E : Type 0} (cdk : Cdk E) (Held : E → Type 0) : Type 0 where
  pub keep_db : KeepsKey Held cdk.get_db
  pub keep_keysets : (v : Wallet) → KeepsKey Held (cdk.keysets v)
  pub keep_locked :
      (v : Wallet) (t : cdk.Token) (key : Str) → KeepsKey Held (cdk.verify_token_p2pk v t key)
  pub keep_spent : (v : Wallet) (ps : List cdk.Proof) → KeepsKey Held (cdk.check_proofs_spent v ps)
  pub keep_update :
      (infos : List (ProofInfo cdk.Proof)) (ys : List Str)
      → KeepsKey Held (cdk.update_proofs infos ys)

abbrev pub IsConfigured : {E : Type 0} → World E → Type 0
IsConfigured w = is_some w.redis_url ≡ true

letters_differ : ◌≢◌ {A = ℕ} b'c' b'l'
letters_differ k = omega arith

outage_ne_absence : ◌≢◌ {A = Result ReplayClaimError Bool} (err unavailable) (err not_configured)
outage_ne_absence k = cc

outage_ne_claim : ◌≢◌ {A = Result ReplayClaimError Bool} (err unavailable) (ok true)
outage_ne_claim k = cc

claim_reply-ne-absence : (reply : Option Bool) → claim_reply reply ≢ err not_configured
claim_reply-ne-absence none k = outage_ne_absence k
claim_reply-ne-absence (some b) k = cc

module _ {E : Type 0} (redis : Redis E) (hashing : Hashing) (ttls : Ttls) (cdk : Cdk E)
    (settings : Settings) where
  open cdk use {Token, Proof, Key, token_from_str}

  pub IsConfigured-frame : Frame redis hashing cdk IsConfigured
  unfolding redis_pool open_configured open_pool call
  IsConfigured-frame = record {
    pool = record { at = λ w h. ground arith };
    conn = record { at = λ w h. h };
    exists = λ k. record { at = λ w h. h };
    set_mapping = λ s l. record { at = λ w h. h };
    db = record { at = λ w h. h };
    keysets = λ v. record { at = λ w h. h };
    locked = λ v t k. record { at = λ w h. h };
    spent = λ v ps. record { at = λ w h. h };
    update = λ i ys. record { at = λ w h. h };
    token = λ k. record { at = λ w h. h };
    wallet = λ v. record {
      at = λ w h. elim (Bool-cases (any (same_wallet v) w.wallets)) [
        | inl e ↦ rw e h
        | inr e ↦ rw e h
      ];
    };
  }

  abbrev pub marker : Str → Str
  marker key = cashu_token_redis_key redis hashing ttls key

  -- The keys of mappings and of claims differ in their first character.
  mapping-ne-marker :
      (secret key : Str) → (codes "cashu:proof_lnurl:" ++ hashing.sha256_hex secret) ≢ marker key
  unfolding cashu_token_redis_key
  mapping-ne-marker secret key h = letters_differ (ap (λ s. unwrap_or (first s) 0) h)

  pub IsHeld-frame :
      {Held : E → Type 0} (key : Str)
      → HoldsKey redis (marker key) Held
      → CdkKeeps cdk Held
      → Frame redis hashing cdk (IsHeld Held)
  IsHeld-frame key laws calls = record {
    pool = redis_pool-Keeps redis _ laws;
    conn = Keeps-call _ laws.keep_conn;
    exists = λ k. Keeps-call _ (laws.keep_exists k);
    set_mapping = λ s l. Keeps-call _ (laws.keep_set _ l (mapping-ne-marker s key));
    db = Keeps-call _ calls.keep_db;
    keysets = λ v. Keeps-call _ (calls.keep_keysets v);
    locked = λ v t k. Keeps-call _ (calls.keep_locked v t k);
    spent = λ v ps. Keeps-call _ (calls.keep_spent v ps);
    update = λ i ys. Keeps-call _ (calls.keep_update i ys);
    token = λ k. record { at = λ w h. record { configured = h.configured; held = h.held } };
    wallet = λ v. record {
      at = λ w h. elim (Bool-cases (any (same_wallet v) w.wallets)) [
        | inl e ↦ rw e h
        | inr e ↦ rw e (record { configured = h.configured; held = h.held })
      ];
    };
  }

  -- `SET NX` over a connection.
  marked :
      {Held : E → Type 0} (key : Str)
      → HoldsKey redis (marker key) Held
      → (ttl : Option ℕ) (e : E) (reply : Option Bool) → (redis.set_nx (marker key) ttl e).1 ≡ reply
      → claim_reply reply ≡ ok true
      → Held (redis.set_nx (marker key) ttl e).0
  marked key laws ttl e none h a = absurd (cc)
  marked key laws ttl e (some true) h a = laws.stores ttl e h
  marked key laws ttl e (some false) h a = absurd (cc)

  marked_refuses :
      {Held : E → Type 0} (key : Str)
      → HoldsKey redis (marker key) Held
      → (ttl : Option ℕ) (e : E) (reply : Option Bool) → (redis.set_nx (marker key) ttl e).1 ≡ reply
      → Held e
      → claim_reply reply ≢ ok true
  marked_refuses key laws ttl e none h held a = cc
  marked_refuses key laws ttl e (some true) h held a = laws.refuses ttl e held h
  marked_refuses key laws ttl e (some false) h held a = cc

  absent : (w : World E) → IsConfigured w → redis_absence_reason w ≡ unavailable
  unfolding redis_absence_reason
  absent w h = ground arith

  -- With Redis configured, what the store can answer, and what then is held.
  module _ {Held : E → Type 0} (key : Str) (laws : HoldsKey redis (marker key) Held) where
    abbrev Answered : World E × Result ReplayClaimError Bool → Type 0
    Answered r = IsConfigured r.0 × (r.1 ≢ err not_configured) × (r.1 ≡ ok true → IsHeld Held r.0)

    store-Answered :
        (w : World E)
        → IsConfigured w
        → Answered (store_cashu_token_as_used redis hashing ttls key w)
    unfolding store_cashu_token_as_used call ngx_l.Outcome.pure ngx_l.Outcome.◌>>=◌
    store-Answered =
        with_pool_elim redis {P = IsConfigured} Answered _ _ _ IsConfigured-frame.pool
          IsConfigured-frame.conn
          (λ v h. rw (absent v h) (h, outage_ne_absence, (λ a. absurd (outage_ne_claim a))))
          (λ v h. (h, outage_ne_absence, (λ a. absurd (outage_ne_claim a))))
          (λ v h. (
            h,
            claim_reply-ne-absence _,
            λ a. record { configured = h; held = marked key laws _ v.outside _ refl a },
          ))

    -- A claim in Redis.
    claim_proofs-Ensures :
        Ensures IsConfigured
          (λ s _. IsHeld Held s)
          (claim_proofs redis hashing ttls cdk settings key)
    unfolding claim_proofs lift settle_proof_claim of_result
    claim_proofs-Ensures =
        Ensures-bind {R = λ s r. Answered (s, r)} _ _
          (record {
            at = λ w h r e.
                subst (λ t. Answered ((store_cashu_token_as_used redis hashing ttls key w).0, t))
                  (payload e) (store-Answered w h);
          })
          settled
      where
        settled :
            (r : Result ReplayClaimError Bool)
            → Ensures
                (λ s. Answered (s, r))
                (λ s _. IsHeld Held s)
                (settle_proof_claim redis hashing ttls cdk settings key r)
        settled (ok true) = Ensures-succeed _ (λ s h. h.2 refl)
        settled (ok false) = record { at = λ s h b e. absurd (cc) }
        settled (err not_configured) = record { at = λ s h b e. absurd (h.1 refl) }
        settled (err unavailable) = record { at = λ s h b e. absurd (cc) }

    abbrev Refused : World E × Result ReplayClaimError Bool → Type 0
    Refused r = (r.1 ≢ err not_configured) × (r.1 ≢ ok true)

    store-Refused :
        (w : World E) → IsHeld Held w → Refused (store_cashu_token_as_used redis hashing ttls key w)
    unfolding store_cashu_token_as_used call ngx_l.Outcome.pure ngx_l.Outcome.◌>>=◌
    store-Refused =
        with_pool_elim redis {P = IsHeld Held} Refused _ _ _ (redis_pool-Keeps redis _ laws)
          (Keeps-call redis.get_conn laws.keep_conn)
          (λ v h. rw (absent v h.configured) (outage_ne_absence, outage_ne_claim))
          (λ v h. (outage_ne_absence, outage_ne_claim))
          (λ v h. (claim_reply-ne-absence _, marked_refuses key laws _ v.outside _ refl h.held))

    pub claim_proofs-Refused :
        Ensures (IsHeld Held) (λ _ _. ⊥) (claim_proofs redis hashing ttls cdk settings key)
    unfolding claim_proofs lift settle_proof_claim of_result
    claim_proofs-Refused =
        Ensures-bind {R = λ s r. Refused (s, r)} _ _
          (record {
            at = λ w h r e.
                subst (λ t. Refused ((store_cashu_token_as_used redis hashing ttls key w).0, t))
                  (payload e) (store-Refused w h);
          })
          settled
      where
        settled :
            (r : Result ReplayClaimError Bool)
            → Ensures
                (λ s. Refused (s, r))
                (λ _ _. ⊥)
                (settle_proof_claim redis hashing ttls cdk settings key r)
        settled (ok true) = record { at = λ s h b e. h.1 refl }
        settled (ok false) = record { at = λ s h b e. cc }
        settled (err not_configured) = record { at = λ s h b e. h.0 refl }
        settled (err unavailable) = record { at = λ s h b e. cc }

    module _ (calls : CdkKeeps cdk Held) where
      settle_store-Ensures :
          (claimed : Bool) (stored : Result Str (Unit {0}))
          → Ensures
              (IsHeld Held)
              (λ s _. IsHeld Held s)
              (settle_store redis hashing ttls cdk settings claimed key stored)
      unfolding settle_store of_result ◌>>=◌ continue lift
      settle_store-Ensures claimed (ok _) = Ensures-succeed _ (λ s h. h)
      settle_store-Ensures claimed (err e) = record { at = λ s h b x. absurd (cc) }

      pub store_proofs-Ensures :
          (token : Str) (ps : List Proof) (infos : List (ProofInfo Proof)) (route : Option Str)
          → Ensures IsConfigured
              (λ s _. IsHeld Held s)
              (store_proofs redis hashing ttls cdk settings token key ps infos route)
      unfolding store_proofs
      store_proofs-Ensures token ps infos route =
          let frame = IsHeld-frame key laws calls in
          Ensures-bind _ _ claim_proofs-Ensures (λ claimed.
            Ensures-step _ _ (map_tenant-Keeps redis hashing ttls cdk settings frame ps route)
              (λ _ _ _ _. Ensures-step _ _ (Keeps-lift _ (frame.update infos [])) (λ _ _ stored _.
                Ensures-bind _ _ (settle_store-Ensures claimed stored) (λ _.
                  Ensures-step _ _
                    (Keeps-lift _ (cache-Keeps redis hashing ttls cdk settings frame key))
                    (λ _ _ _ _.
                      Ensures-Keeps _ (
                        Keeps-lift _ (cache-Keeps redis hashing ttls cdk settings frame token)))))))
