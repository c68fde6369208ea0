-- ===== src/Replay.antt =====
-- src/lib.rs: replay protection of preimages and Cashu tokens, in Redis and in the worker.
-- The crates `sha2` and `hex` are a parameter.
pub mod Once
pub mod Local
use ngx_l.Base.{
  ℕ, zero, suc, ◌+◌, ◌-◌, ◌*◌, ◌/◌, ◌%◌, ◌^◌, ◌≤◌, ◌<◌, min, max, ◌≡◌, refl, sym, ap, ◌∙◌, ◌≡⟨◌⟩◌,
  ◌∎, ◌≢◌, ◌↔◌, ◌⊎◌, inl, inr, Bool, true, false, not, ◌&&◌, ◌||◌, false≢true, Option, none, some,
  List, [], ◌∷◌, ◌++◌, map, append_assoc, append-nil, arith, ltb, leb, ◌==◌, if◌then◌else◌, leb→le,
  ==_iff, ==-refl, Bool-cases, Option-cases, ℤ, pos, negsuc, is_positive, is_negative, as_u64,
  is_some, unwrap_or, or_option, length, all, any, is_empty, first, length-append, All, All-append,
}
use ngx_l.Text.{Str, codes}
use ngx_l.Outcome.{Result, ok, err, Action, pure, ◌>>=◌, ◌>>◌}
use ngx_l.World.{World, call}
use ngx_l.ReplayCache
use ngx_l.Redis.{
  Redis, ReplayClaimError, not_configured, unavailable, with_pool, redis_absence_reason,
}

-- What the access handler gives back to nginx: `NGX_DECLINED`, by which the request goes on to the
-- next phase and is served, or the status of a response.
pub data Access : Type 0 where
  declined : Access
  status : ℕ → Access

-- `sha256_hex` is the digest in hex of some bytes; `hex_encode` and `hex_decode` are those of `hex`.
pub record Hashing : Type 0 where
  pub sha256_hex : Str → Str
  pub hex_encode : Str → Str
  pub hex_decode : Str → Option Str

-- The lifetimes of replay markers, read from the environment at startup.
pub record Ttls : Type 0 where
  pub preimage_ttl : ℕ
  pub cashu_token_ttl : ℕ

unfoldable pub handle_preimage_claim : Result ReplayClaimError Bool → Access
handle_preimage_claim (ok true) = declined
handle_preimage_claim (ok false) = status 401
handle_preimage_claim (err not_configured) = declined
handle_preimage_claim (err unavailable) = status 503

-- The life of a marker: for ever if the macaroon never expires, and else no shorter than the macaroon's.
unfoldable pub marker_ttl : Ttls → ℤ → Option ℕ
marker_ttl ttls macaroon_timeout =
    if is_positive macaroon_timeout
    then some (max ttls.preimage_ttl (as_u64 macaroon_timeout))
    else none

-- The reply of `SET NX`.
abbrev pub claim_reply : Option Bool → Result ReplayClaimError Bool
claim_reply none = err unavailable
claim_reply (some stored) = ok stored

module _ {E : Type 0} where
  abbrev pub preimage_seen : Str → Action (World E) Bool
  preimage_seen key w = (w, ReplayCache.contains w.preimage_cache key)

  abbrev pub claim_preimage : Str → Action (World E) Bool
  claim_preimage key w =
      let claimed = ReplayCache.claim w.preimage_cache key in
      (record w { preimage_cache = claimed.0 }, claimed.1)

  -- The in-process claim, where Redis was never configured.
  abbrev pub claim_without_redis :
      Str → ReplayClaimError → Action (World E) (Result ReplayClaimError Bool)
  claim_without_redis key not_configured = do claimed ← claim_preimage key; pure (ok claimed)
  claim_without_redis key unavailable = pure (err unavailable)

module _ {E : Type 0} (redis : Redis E) (hashing : Hashing) (ttls : Ttls) where
  unfoldable pub preimage_redis_key : Str → Str
  preimage_redis_key preimage = codes "l402:preimage:" ++ hashing.sha256_hex preimage

  unfoldable pub cashu_token_redis_key : Str → Str
  cashu_token_redis_key token = codes "l402:cashu_token:" ++ hashing.sha256_hex token

  unfoldable pub is_preimage_used : Str → Action (World E) Bool
  is_preimage_used preimage =
      with_pool redis (preimage_seen (preimage_redis_key preimage)) (pure false) (do
        found ← call (redis.key_exists (preimage_redis_key preimage))
        pure (unwrap_or found false))

  abbrev pub set_nx_claim : Str → Option ℕ → Action (World E) (Result ReplayClaimError Bool)
  set_nx_claim key ttl = do stored ← call (redis.set_nx key ttl); pure (claim_reply stored)

  unfoldable pub store_preimage_as_used : Str → ℤ → Action (World E) (Result ReplayClaimError Bool)
  store_preimage_as_used preimage macaroon_timeout =
      with_pool redis
        (λ w. claim_without_redis (preimage_redis_key preimage) (redis_absence_reason w) w)
        (pure (err unavailable))
        (set_nx_claim (preimage_redis_key preimage) (marker_ttl ttls macaroon_timeout))

  -- Without a pool or a connection the check lets the token through.
  unfoldable pub is_cashu_token_used : Str → Action (World E) Bool
  is_cashu_token_used token = with_pool redis (pure false) (pure false) (do
    found ← call (redis.key_exists (cashu_token_redis_key token))
    pure (unwrap_or found false))

  unfoldable pub store_cashu_token_as_used : Str → Action (World E) (Result ReplayClaimError Bool)
  store_cashu_token_as_used token =
      with_pool redis (λ w. (w, err (redis_absence_reason w))) (pure (err unavailable))
        (set_nx_claim (cashu_token_redis_key token) (some ttls.cashu_token_ttl))

  -- A failure is only logged.
  unfoldable pub release_cashu_token : Str → Action (World E) Bool
  release_cashu_token token =
      with_pool redis (pure false) (pure false)
        (call (redis.del (cashu_token_redis_key token ∷ [])))

  unfoldable pub settled_redis_key : Str → Str
  settled_redis_key payment_hash = codes "l402:settled:" ++ hashing.hex_encode payment_hash

  abbrev decode_stored : Option (Option Str) → Option Str
  decode_stored (some (some h)) = hashing.hex_decode h
  decode_stored _ = none

  unfoldable pub get_cached_settled_preimage : Str → Action (World E) (Option Str)
  get_cached_settled_preimage payment_hash =
      with_pool redis (pure none) (pure none)
        (do stored ← call (redis.get (settled_redis_key payment_hash)); pure (decode_stored stored))

  -- The result is only logged.
  unfoldable pub cache_settled_preimage : Str → Str → Action (World E) Bool
  cache_settled_preimage payment_hash preimage = with_pool redis (pure false) (pure false) (
      call (
        redis.set_ex (settled_redis_key payment_hash) (hashing.hex_encode preimage)
          ttls.preimage_ttl))
