-- ===== src/Replay/Local.antt =====
-- src/lib.rs: `store_preimage_as_used` of a worker without Redis.
use ngx_l.Base.{
  ◌≡◌, refl, sym, ap, ◌∙◌, ◌<◌, ◌≢◌, not, true, false, none, List, [], ◌∷◌, length, arith, ℤ,
}
use ngx_l.Text.{Str}
use ngx_l.Outcome.{ok}
use ngx_l.World.{World}
use ngx_l.ReplayCache
use ngx_l.ReplayCache.{contains, claim}
use ngx_l.ReplayCache.Invariant.{IsValid}
use ngx_l.ReplayCache.Fifo.{Call, claims, run, claim_count, survives, claim_once}
use ngx_l.Redis.{Redis}
use ngx_l.Replay.{
  Ttls, Hashing, declined, preimage_redis_key, store_preimage_as_used, handle_preimage_claim,
}
use ngx_l.Replay.Once.{store_unconfigured}

-- Redis is not configured, and no pool is open.
abbrev pub IsAlone : {E : Type 0} → World E → Type 0
IsAlone w = (w.redis_url ≡ none) × (w.pool_set ≡ false)

module _ {E : Type 0} (redis : Redis E) (hashing : Hashing) (ttls : Ttls) where
  abbrev key_of : Str → Str
  key_of preimage = preimage_redis_key redis hashing ttls preimage

  -- Claims of preimages, each with the timeout of its location.
  unfoldable pub claim_all : List (Str × ℤ) → World E → World E
  claim_all [] w = w
  claim_all ((preimage, timeout) ∷ rest) w =
      claim_all rest (store_preimage_as_used redis hashing ttls preimage timeout w).0

  abbrev calls_of : List (Str × ℤ) → List Call
  calls_of [] = []
  calls_of ((preimage, _) ∷ rest) = claims (key_of preimage) ∷ calls_of rest

  claim_count-calls_of : (l : List (Str × ℤ)) → claim_count (calls_of l) ≡ length l
  claim_count-calls_of [] = refl
  claim_count-calls_of ((p, t) ∷ l) = omega (arith, claim_count-calls_of l)

  calls_of-Keeps : (k : Str) (l : List (Str × ℤ)) → ngx_l.ReplayCache.Fifo.Keeps k (calls_of l)
  calls_of-Keeps k [] = tt
  calls_of-Keeps k ((p, t) ∷ l) = calls_of-Keeps k l

  -- Alone, the claims are calls of the worker's cache.
  claim_all_lem :
      (l : List (Str × ℤ)) (w : World E)
      → IsAlone w
      → claim_all l w ≡ record w { preimage_cache = run w.preimage_cache (calls_of l) }
  unfolding claim_all run
  claim_all_lem [] w h = refl
  claim_all_lem ((p, t) ∷ l) w h =
      ap (λ r. claim_all l r.0) (store_unconfigured redis hashing ttls p t w h.0 h.1)
      ∙ claim_all_lem l (record w { preimage_cache = (claim w.preimage_cache (key_of p)).0 }) h

  -- A worker without Redis admits a preimage that its cache does not hold, and refuses it afterwards,
  -- with any timeout, as long as fewer preimages than its cache has room for were claimed in between.
  pub local_once :
      (preimage : Str) (first_timeout later_timeout : ℤ) (between : List (Str × ℤ)) (w : World E)
      → IsAlone w
      → IsValid w.preimage_cache
      → contains w.preimage_cache (key_of preimage) ≡ false
      → length between < w.preimage_cache.cap
      → (handle_preimage_claim
            (store_preimage_as_used redis hashing ttls preimage first_timeout w).1
          ≡ declined)
        × (handle_preimage_claim
              (store_preimage_as_used redis hashing ttls preimage later_timeout (
                claim_all between
                  (store_preimage_as_used redis hashing ttls preimage first_timeout w).0)).1
            ≢ declined)
  local_once preimage s t between w h v new few = (
    ap handle_preimage_claim admitted ∙ answer_of_true,
    λ a. answer_of_false (sym (ap handle_preimage_claim refused) ∙ a),
  )
    where
      k : Str
      k = key_of preimage

      answer_of_true : handle_preimage_claim (ok true) ≡ declined
      answer_of_true = unfold handle_preimage_claim in refl

      answer_of_false : handle_preimage_claim (ok false) ≢ declined
      answer_of_false = unfold handle_preimage_claim in (λ a. cc)

      admitted : (store_preimage_as_used redis hashing ttls preimage s w).1 ≡ ok true
      admitted =
          ap (λ r. r.1) (store_unconfigured redis hashing ttls preimage s w h.0 h.1)
          ∙ ap ok ((claim_once w.preimage_cache k).0 ∙ ap not new)

      refused :
          (store_preimage_as_used redis hashing ttls preimage t
            (claim_all between (store_preimage_as_used redis hashing ttls preimage s w).0)).1
          ≡ ok false
      refused =
          ap (λ r. (store_preimage_as_used redis hashing ttls preimage t (claim_all between r.0)).1)
            (store_unconfigured redis hashing ttls preimage s w h.0 h.1)
          ∙ ap (λ r. (store_preimage_as_used redis hashing ttls preimage t r).1)
              (claim_all_lem between (record w { preimage_cache = (claim w.preimage_cache k).0 }) h)
          ∙ ap (λ r. r.1)
              (store_unconfigured redis hashing ttls preimage t
                (record w { preimage_cache = run (claim w.preimage_cache k).0 (calls_of between) })
                h.0 h.1)
          ∙ ap ok (
              survives w.preimage_cache k (calls_of between) v new
                (omega (arith, few, claim_count-calls_of between)) (calls_of-Keeps k between))
