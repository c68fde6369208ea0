-- ===== src/Cashu/Fast/Release.antt =====
-- src/cashu.rs: the claim of a proof set whose proofs could not be stored, without Redis.
use ngx_l.Base.{
  [], ◌≡◌, false≢true, refl, ap, sym, ◌∙◌, ◌≢◌, Bool, true, false, Option, none, List, arith,
  if◌then◌else◌,
}
use ngx_l.Text.{Str}
use ngx_l.ReplayCache
use ngx_l.ReplayCache.{member, erase}
use ngx_l.ReplayCache.Invariant.{member-erase_self}
use ngx_l.Outcome.{Result, ok, err, Action, map_err}
use ngx_l.Outcome.Fallible.{
  AnyState, Fallible, succeed, of_result, lift, logged, guard, continue, ◌>>=◌, ◌>>◌, Ensures,
  Ensures-succeed, anyway,
}
use ngx_l.World.{World, call}
use ngx_l.Redis.{
  Redis, not_configured, redis_pool, open_configured, with_pool, redis_absence_reason,
}
use ngx_l.Replay.{Hashing, Ttls, store_cashu_token_as_used}
use ngx_l.CashuError.{CashuError, internal, bad_credential, already_used, failed_to_store}
use ngx_l.Cdk.{Cdk, ProofInfo}
use ngx_l.Cashu.{Settings, is_multi_tenant_enabled, claim_token, cache_processed_token}
use ngx_l.Cashu.Tenants.{set_proof_to_lnurl}
use ngx_l.Cashu.Fast.{
  claim_in_worker, settle_proof_claim, claim_proofs, release_claim, settle_store, map_tenant,
  store_proofs,
}

-- What holds after an operation that fails, of the state and the error, where `P` held before it.
record Failing {S X A : Type 0} (P : S → Type 0) (Q : S → X → Type 0) (m : Fallible S X A)
    : Type 0 where
  at : (s : S) → P s → (x : X) → (m s).1 ≡ err x → Q (m s).0 x

module _ {S X A : Type 0} {P : S → Type 0} {Q : S → X → Type 0} where
  Failing-never : (m : Fallible S X A) → ((s : S) (x : X) → (m s).1 ≢ err x) → Failing P Q m
  Failing-never m h = record { at = λ s p x e. absurd (h s x e) }

  Failing-other :
      (m : Fallible S X A)
      → ((s : S) (x : X) → P s → (m s).1 ≡ err x → (t : S) → Q t x)
      → Failing P Q m
  Failing-other m h = record { at = λ s p x e. h s x p e (m s).0 }

Ensures-any :
    {S X A : Type 0} {P : S → Type 0} {m : Fallible S X A} → Ensures P (λ s _. AnyState s) m
Ensures-any = record { at = λ s p a e. tt }

Failing-bind :
    {S X A B : Type 0} {P : S → Type 0} {Q : S → X → Type 0} {R : S → A → Type 0}
    (m : Fallible S X A) (f : A → Fallible S X B)
    → Ensures P R m
    → Failing P Q m
    → ((a : A) → Failing (λ s. R s a) Q (f a))
    → Failing P Q (m >>= f)
unfolding ◌>>=◌
Failing-bind {X = X} {A = A} {Q = Q} {R = R} m f hm fm ff = record {
  at = λ s p x e. inner (m s) (hm.at s p) (fm.at s p) x e;
}
  where
    inner :
        (r : _ × Result X A)
        → ((a : A) → r.1 ≡ ok a → R r.0 a)
        → ((x : X) → r.1 ≡ err x → Q r.0 x)
        → (x : X) → (continue f r).1 ≡ err x
        → Q (continue f r).0 x
    inner (s, ok a) g k x e = (ff a).at s (g a refl) x e
    inner (s, err y) g k x e = k x (ap (λ t. t) (same e))
      where
        same :
            {B : Type 0}
            → ◌≡◌ {A = Result X B} (err y) (err x)
            → ◌≡◌ {A = Result X A} (err y) (err x)
        same h = cc

lift-never-err : {S X A : Type 0} (m : Action S A) (s : S) (x : X) → (lift m s).1 ≢ err x
unfolding lift
lift-never-err m s x e = cc

-- Redis is not configured, and no pool is open.
abbrev pub IsUnconfigured : {E : Type 0} → World E → Type 0
IsUnconfigured w = (w.redis_url ≡ none) × (w.pool_set ≡ false)

contains-release :
    (k : Str) (c : ReplayCache.ReplayCache)
    → ReplayCache.contains (ReplayCache.release c k) k ≡ false
unfolding ReplayCache.contains ReplayCache.release
contains-release k c = ground (arith, member-erase_self k c.seen)

module _ {E : Type 0} (redis : Redis E) (hashing : Hashing) (ttls : Ttls) (cdk : Cdk E)
    (settings : Settings) (key : Str) where
  -- The worker's cache has let go of the key, where the error is that of the database.
  abbrev Released : World E → CashuError → Type 0
  Released w x =
      (e : Str)
      → x ≡ internal (failed_to_store e)
      → ReplayCache.contains w.processed_tokens key ≡ false

  store_unset :
      (w : World E)
      → IsUnconfigured w
      → store_cashu_token_as_used redis hashing ttls key w ≡ (w, err not_configured)
  unfolding store_cashu_token_as_used redis_absence_reason with_pool redis_pool open_configured
      ngx_l.Outcome.◌>>=◌
  store_unset w (hu, hp) = ground arith

  claim_in_worker-Ensures :
      Ensures AnyState (λ _ c. c ≡ false) (claim_in_worker redis hashing ttls cdk settings key)
  unfolding claim_in_worker
  claim_in_worker-Ensures = anyway (lift (claim_token key)) _ (λ s c e.
      anyway (guard c (bad_credential already_used)) _
        (λ s d e. Ensures-succeed false (λ _ _. refl)))

  ok-ne-err : {A : Type 0} {a : A} {x : CashuError} → ◌≢◌ {A = Result CashuError A} (ok a) (err x)
  ok-ne-err h = cc

  used-ne-store :
      (x : CashuError)
      → ◌≡◌ {A = Result CashuError Bool} (err (bad_credential already_used)) (err x)
      → (e : Str) → x ≢ internal (failed_to_store e)
  used-ne-store x h e k = cc

  claim_in_worker-err :
      (w : World E) (x : CashuError)
      → (claim_in_worker redis hashing ttls cdk settings key w).1 ≡ err x
      → (e : Str) → x ≢ internal (failed_to_store e)
  unfolding claim_in_worker lift guard ◌>>=◌ succeed
  claim_in_worker-err w x = refused (claim_token key w)
    where
      refused :
          (r : World E × Bool)
          → (continue
              (λ c. guard c (bad_credential already_used) >>= (λ _. succeed false))
              (r.0, ok r.1)).1
            ≡ err x
          → (e : Str) → x ≢ internal (failed_to_store e)
      refused (s, true) h = absurd (ok-ne-err h)
      refused (s, false) h = used-ne-store x h

  claim_proofs-local :
      (w : World E)
      → IsUnconfigured w
      → claim_proofs redis hashing ttls cdk settings key w
        ≡ claim_in_worker redis hashing ttls cdk settings key w
  unfolding claim_proofs ◌>>=◌ lift settle_proof_claim
  claim_proofs-local w h = rw (store_unset w h)

  claim_proofs-Ensures :
      Ensures IsUnconfigured (λ _ c. c ≡ false) (claim_proofs redis hashing ttls cdk settings key)
  claim_proofs-Ensures = record {
    at = λ w h c e.
        claim_in_worker-Ensures.at w tt c (ap (λ t. t.1) (sym (claim_proofs-local w h)) ∙ e);
  }

  claim_proofs-Failing :
      Failing IsUnconfigured Released (claim_proofs redis hashing ttls cdk settings key)
  claim_proofs-Failing = Failing-other _ (λ w x h e t d k.
      absurd (claim_in_worker-err w x (ap (λ t. t.1) (sym (claim_proofs-local w h)) ∙ e) d k))

  map_tenant-never-err :
      (proofs : List cdk.Proof) (route : Option Str) (w : World E) (x : CashuError)
      → (map_tenant redis hashing ttls cdk settings proofs route w).1 ≢ err x
  unfolding map_tenant logged succeed
  map_tenant-never-err proofs route w x = never (is_multi_tenant_enabled settings)
    where
      never :
          (b : Bool)
          → ((if b
                then logged (set_proof_to_lnurl redis hashing cdk settings proofs route)
                else succeed tt)
              w).1
            ≢ err x
      never true e = cc
      never false e = cc

  settle_store-Failing :
      (r : Result Str (Unit {0}))
      → Failing AnyState Released (settle_store redis hashing ttls cdk settings false key r)
  unfolding settle_store release_claim lift ◌>>=◌ of_result succeed
  settle_store-Failing (ok u) = record { at = λ s p x e d h. absurd (ok-ne-err e) }
  settle_store-Failing (err r) = record {
    at = λ s p x e d h. contains-release key s.processed_tokens;
  }

  cached_both : Str → Fallible (World E) CashuError (Unit {0})
  cached_both token = lift (cache_processed_token key) >>= (λ _. lift (cache_processed_token token))

  cached_both-ne-err :
      (token : Str) (w : World E) (x : CashuError) → (cached_both token w).1 ≢ err x
  unfolding cached_both ◌>>=◌ lift
  cached_both-ne-err token w x e = cc

  settled : Str → Result Str (Unit {0}) → Fallible (World E) CashuError (Unit {0})
  settled token r =
      settle_store redis hashing ttls cdk settings false key r >>= (λ _. cached_both token)

  settled-Failing :
      (token : Str) (r : Result Str (Unit {0})) → Failing AnyState Released (settled token r)
  unfolding settled
  settled-Failing token r =
      Failing-bind _ _ Ensures-any (settle_store-Failing r)
        (λ _. Failing-never _ (cached_both-ne-err token))

  module _ (token : Str) (proofs : List cdk.Proof) (infos : List (ProofInfo cdk.Proof))
      (route : Option Str) where
    claimed : Bool → Fallible (World E) CashuError (Unit {0})
    claimed c = do
      map_tenant redis hashing ttls cdk settings proofs route
      stored ← lift (call (cdk.update_proofs infos []))
      settle_store redis hashing ttls cdk settings c key stored
      lift (cache_processed_token key)
      lift (cache_processed_token token)

    claimed-Failing : (c : Bool) → Failing (λ w. c ≡ false) Released (claimed c)
    unfolding claimed settled cached_both
    claimed-Failing true = record { at = λ s p. absurd (false≢true (sym p)) }
    claimed-Failing false =
        Failing-bind _ _ Ensures-any (Failing-never _ (map_tenant-never-err proofs route)) (λ _.
          Failing-bind _ _ Ensures-any (Failing-never _ (lift-never-err _)) (settled-Failing token))

    -- Without Redis, where the proofs of an accepted token cannot be stored, the worker's cache
    -- has let go of their key.
    pub unstored_proofs_released :
        (w : World E)
        → IsUnconfigured w
        → (e : Str)
        → (store_proofs redis hashing ttls cdk settings token key proofs infos route w).1
          ≡ err (internal (failed_to_store e))
        → ReplayCache.contains
            (store_proofs redis hashing ttls cdk settings token key proofs infos route
              w).0.processed_tokens
            key
          ≡ false
    unfolding store_proofs claimed
    unstored_proofs_released w h e k =
        (Failing-bind _ _ claim_proofs-Ensures claim_proofs-Failing claimed-Failing).at w h _ k e
          refl
