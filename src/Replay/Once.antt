-- ===== src/Replay/Once.antt =====
-- src/lib.rs: `store_preimage_as_used` with Redis, without it, and in an outage.
use ngx_l.Base.{
  ℕ, ◌≡◌, refl, ap, ◌∙◌, ◌≢◌, ◌⊎◌, inl, inr, Bool, true, false, Option, none, some, arith, ℤ,
  is_some,
}
use ngx_l.Text.{Str}
use ngx_l.Outcome.{ok, err, ◌>>=◌}
use ngx_l.World.{World, call}
use ngx_l.ReplayCache
use ngx_l.Redis.{Redis, unavailable, redis_pool, open_configured, with_pool, redis_absence_reason}
use ngx_l.Redis.Laws.{
  HoldsKey, IsHeld, with_pool_elim, SameWorker, SameWorker-refl, SameWorker-call,
  SameWorker-redis_pool, redis_pool-Keeps, Keeps-call,
}
use ngx_l.Replay.{
  Ttls, Hashing, Access, declined, status, marker_ttl, preimage_redis_key, store_preimage_as_used,
  handle_preimage_claim, claim_reply, claim_without_redis,
}

absence_configured :
    {E : Type 0} (w : World E) → is_some w.redis_url ≡ true → redis_absence_reason w ≡ unavailable
unfolding redis_absence_reason
absence_configured w h = ground arith

module _ {E : Type 0} (redis : Redis E) (hashing : Hashing) (ttls : Ttls) (preimage : Str)
    (timeout : ℤ) where
  -- The answer to a claim that Redis decides: it stored the key, it held the key, or it failed.
  abbrev pub RedisAnswers : Access → Type 0
  RedisAnswers answer =
      ((e : E) × ((redis.set_nx (preimage_redis_key redis hashing ttls preimage)
            (marker_ttl ttls timeout) e).1
          ≡ some true)
        × (answer ≡ declined))
      ⊎ ((e : E) × ((redis.set_nx (preimage_redis_key redis hashing ttls preimage)
              (marker_ttl ttls timeout) e).1
            ≡ some false)
          × (answer ≡ status 401))
      ⊎ (answer ≡ status 503)

  redis_answers :
      (e : E) (reply : Option Bool)
      → (redis.set_nx
          (preimage_redis_key redis hashing ttls preimage)
          (marker_ttl ttls timeout)
          e).1
        ≡ reply
      → RedisAnswers (handle_preimage_claim (claim_reply reply))
  unfolding handle_preimage_claim
  redis_answers e none h = inr (inr refl)
  redis_answers e (some true) h = inl (e, h, refl)
  redis_answers e (some false) h = inr (inl (e, h, refl))

  -- With Redis configured, a preimage is admitted only by a `SET NX` that stored its key and refused
  -- with 401 only by one that did not store it; every other answer is 503. The worker's own cache is not
  -- changed.
  pub outage_fails_closed :
      (w : World E)
      → is_some w.redis_url ≡ true
      → RedisAnswers
          (handle_preimage_claim (store_preimage_as_used redis hashing ttls preimage timeout w).1)
        × ((store_preimage_as_used redis hashing ttls preimage timeout w).0.preimage_cache
            ≡ w.preimage_cache)
  unfolding store_preimage_as_used handle_preimage_claim with_pool ◌>>=◌
  outage_fails_closed w h =
      with_pool_elim redis {P = SameWorker w}
        (λ r. RedisAnswers (handle_preimage_claim r.1) × (r.0.preimage_cache ≡ w.preimage_cache)) _
        _ _ (SameWorker-redis_pool w redis) (SameWorker-call w redis.get_conn)
        (λ v same.
          rw (absence_configured v (ap is_some same.same_url ∙ h))
            (inr (inr refl), same.same_preimages))
        (λ v same. (inr (inr refl), same.same_preimages))
        (λ v same. (redis_answers v.outside _ refl, same.same_preimages)) w (SameWorker-refl w)

  -- Where Redis was never configured and no pool is open, a claim is one of the worker's own cache.
  pub store_unconfigured :
      (w : World E)
      → w.redis_url ≡ none
      → w.pool_set ≡ false
      → store_preimage_as_used redis hashing ttls preimage timeout w ≡ (
        record w {
          preimage_cache =
              (ReplayCache.claim w.preimage_cache
                (preimage_redis_key redis hashing ttls preimage)).0;
        },
        ok (ReplayCache.claim w.preimage_cache (preimage_redis_key redis hashing ttls preimage)).1,
      )
  unfolding store_preimage_as_used redis_absence_reason with_pool redis_pool open_configured ◌>>=◌
  store_unconfigured w hu hp = ground arith

  module _ {Held : E → Type 0}
      (laws : HoldsKey redis (preimage_redis_key redis hashing ttls preimage) Held) where
    admitted_is_stored :
        (ttl : Option ℕ) (e : E) (reply : Option Bool)
        → (redis.set_nx (preimage_redis_key redis hashing ttls preimage) ttl e).1 ≡ reply
        → handle_preimage_claim (claim_reply reply) ≡ declined
        → Held (redis.set_nx (preimage_redis_key redis hashing ttls preimage) ttl e).0
    unfolding handle_preimage_claim
    admitted_is_stored ttl e none h a = cc
    admitted_is_stored ttl e (some true) h a = laws.stores ttl e h
    admitted_is_stored ttl e (some false) h a = cc

    reply_refused :
        (ttl : Option ℕ) (e : E) (reply : Option Bool)
        → (redis.set_nx (preimage_redis_key redis hashing ttls preimage) ttl e).1 ≡ reply
        → Held e
        → handle_preimage_claim (claim_reply reply) ≢ declined
    unfolding handle_preimage_claim
    reply_refused ttl e none h held = cc
    reply_refused ttl e (some true) h held = absurd (laws.refuses ttl e held h)
    reply_refused ttl e (some false) h held = cc

    unavailable_refuses : handle_preimage_claim (err unavailable) ≢ declined
    unfolding handle_preimage_claim
    unavailable_refuses a = cc

    absent_refuses :
        (v : World E)
        → is_some v.redis_url ≡ true
        → handle_preimage_claim
            (claim_without_redis
              (preimage_redis_key redis hashing ttls preimage)
              (redis_absence_reason v)
              v).1
          ≢ declined
    unfolding handle_preimage_claim ◌>>=◌
    absent_refuses v h = rw (absence_configured v h) (λ a. cc)

    -- An admitted claim leaves the key in Redis.
    pub store_marks :
        (w : World E)
        → is_some w.redis_url ≡ true
        → handle_preimage_claim (store_preimage_as_used redis hashing ttls preimage timeout w).1
          ≡ declined
        → IsHeld Held (store_preimage_as_used redis hashing ttls preimage timeout w).0
    unfolding store_preimage_as_used call handle_preimage_claim ◌>>=◌
    store_marks w h =
        with_pool_elim redis {P = SameWorker w}
          (λ r. handle_preimage_claim r.1 ≡ declined → IsHeld Held r.0) _ _ _
          (SameWorker-redis_pool w redis) (SameWorker-call w redis.get_conn)
          (λ v same a. absurd (absent_refuses v (ap is_some same.same_url ∙ h) a)) (λ v same a. cc)
          (λ v same a. record {
            configured = ap is_some same.same_url ∙ h;
            held = admitted_is_stored (marker_ttl ttls timeout) v.outside _ refl a;
          })
          w (SameWorker-refl w)

    -- With Redis configured and holding the key of a preimage, a claim of it is never admitted.
    pub spent_refused :
        (w : World E)
        → IsHeld Held w
        → handle_preimage_claim (store_preimage_as_used redis hashing ttls preimage timeout w).1
          ≢ declined
    unfolding store_preimage_as_used call handle_preimage_claim ◌>>=◌
    spent_refused w =
        with_pool_elim redis {P = IsHeld Held} (λ r. handle_preimage_claim r.1 ≢ declined) _ _ _
          (redis_pool-Keeps redis _ laws) (Keeps-call redis.get_conn laws.keep_conn)
          (λ v h. absent_refuses v h.configured) (λ v h a. unavailable_refuses a)
          (λ v h. reply_refused (marker_ttl ttls timeout) v.outside _ refl h.held) w
