-- ===== src/Redis.antt =====
-- src/lib.rs: the Redis pool of a worker (`redis_pool`, `redis_absence_reason`). The server and its
-- client are a parameter: one function for each command that the program sends.
pub mod Laws
pub mod Outside
use ngx_l.Base.{
  ℕ, zero, suc, ◌+◌, ◌-◌, ◌*◌, ◌/◌, ◌%◌, ◌^◌, ◌≤◌, ◌<◌, min, max, ◌≡◌, refl, sym, ap, ◌∙◌, ◌≡⟨◌⟩◌,
  ◌∎, ◌≢◌, ◌↔◌, ◌⊎◌, inl, inr, Bool, true, false, not, ◌&&◌, ◌||◌, false≢true, Option, none, some,
  List, [], ◌∷◌, ◌++◌, map, append_assoc, append-nil, arith, ltb, leb, ◌==◌, if◌then◌else◌, leb→le,
  ==_iff, ==-refl, Bool-cases, Option-cases, ℤ, is_some, unwrap_or, or_option, length, all, any,
  is_empty, first, length-append, All, All-append,
}
use ngx_l.Text.{Str}
use ngx_l.Outcome.{Result, ok, err, Action, pure, ◌>>=◌, ◌>>◌}
use ngx_l.World.{World, call}

-- `none` and `false` are a command that failed. `set_nx key ttl` gives `some true` if it stored the
-- key and `some false` if the key was there; `incr_expire` is the script of the rate limiter, and
-- `get_price_and_lnurl` the pipeline of two GETs.
pub record Redis (E : Type 0) : Type 0 where
  pub open_client : Str → Bool
  pub build_pool : Action E Bool
  pub get_conn : Action E Bool
  pub key_exists : Str → Action E (Option Bool)
  pub set_nx : Str → Option ℕ → Action E (Option Bool)
  pub del : List Str → Action E Bool
  pub get : Str → Action E (Option (Option Str))
  pub set : Str → Str → Action E Bool
  pub set_ex : Str → Str → ℕ → Action E Bool
  pub incr_expire : Str → ℕ → Action E (Option ℕ)
  pub get_price_and_lnurl : Str → Str → Action E (Option (Option ℤ × Option Str))

pub data ReplayClaimError : Type 0 where
  not_configured unavailable : ReplayClaimError

module _ {E : Type 0} (redis : Redis E) where
  -- The pool is opened on first use and kept once it is open.
  unfoldable pub open_pool : Str → Action (World E) Bool
  open_pool url w =
      let built = redis.build_pool w.outside in
      if redis.open_client url
      then (record w { pool_set = built.1; outside = built.0 }, built.1)
      else (w, false)

  unfoldable pub open_configured : Option Str → Action (World E) Bool
  unfolding open_pool
  open_configured none w = (w, false)
  open_configured (some url) w = open_pool url w

  unfoldable pub redis_pool : Action (World E) Bool
  unfolding open_configured
  redis_pool w = if w.pool_set then (w, true) else open_configured w.redis_url w

  -- `pool.get()` on an open pool: `failed` if it gives no connection.
  unfoldable pub with_conn :
      {A : Type 0} → Action (World E) A → Action (World E) A → Action (World E) A
  with_conn failed body = do conn ← call redis.get_conn; if conn then body else failed

  -- The shape of every function that talks to Redis: what to do without a pool, without a connection,
  -- and over a connection.
  unfoldable pub with_pool :
      {A : Type 0}
      → Action (World E) A
      → Action (World E) A
      → Action (World E) A
      → Action (World E) A
  unfolding redis_pool with_conn call ◌>>=◌
  with_pool absent failed body = do
    pool ← redis_pool
    if pool then with_conn failed body else absent

-- Why there is no pool: an unset REDIS_URL is the operator's choice, anything else an outage.
unfoldable pub redis_absence_reason : {E : Type 0} → World E → ReplayClaimError
redis_absence_reason w = if is_some w.redis_url then unavailable else not_configured
