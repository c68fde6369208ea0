-- ===== src/Redis/Laws.antt =====
-- What the replay protection relies on of Redis, and the frame of `redis_pool`.
use ngx_l.Base.{false}
use ngx_l.Base.{List}
use ngx_l.Base.{ℕ, ◌≡◌, refl, ◌≢◌, inl, inr, true, Option, none, some, arith, Bool-cases, is_some}
use ngx_l.ReplayCache.{member}
use ngx_l.Text.{Str}
use ngx_l.Outcome.{Action}
use ngx_l.World.{World}
use ngx_l.Outcome.{◌>>=◌}
use ngx_l.Outcome.Keeps.{Keeps, Keeps-if, Keeps-bind}
use ngx_l.World.{call}
use ngx_l.Redis.{Redis, redis_pool, open_pool, open_configured, with_conn, with_pool}

-- An outside call after which a key that was held is still held.
abbrev pub KeepsKey : {E A : Type 0} → (E → Type 0) → Action E A → Type 0
KeepsKey {E = E} Held f = (e : E) → Held e → Held (f e).0

-- `Held e`: the server of the state `e` holds the key `key`, and the key does not expire in the time
-- that the statement speaks of. `SET NX` stores an absent key and refuses a held one, and no command
-- removes a held key but a `DEL` that names it.
pub record HoldsKey {E : Type 0} (redis : Redis E) (key : Str) (Held : E → Type 0) : Type 0 where
  pub stores :
      (ttl : Option ℕ) (e : E)
      → (redis.set_nx key ttl e).1 ≡ some true
      → Held (redis.set_nx key ttl e).0
  pub refuses : (ttl : Option ℕ) (e : E) → Held e → (redis.set_nx key ttl e).1 ≢ some true
  pub keep_build : KeepsKey Held redis.build_pool
  pub keep_conn : KeepsKey Held redis.get_conn
  pub keep_exists : (k : Str) → KeepsKey Held (redis.key_exists k)
  pub keep_set_nx : (k : Str) (ttl : Option ℕ) → KeepsKey Held (redis.set_nx k ttl)
  pub keep_get : (k : Str) → KeepsKey Held (redis.get k)
  pub keep_set : (k v : Str) → k ≢ key → KeepsKey Held (redis.set k v)
  pub keep_del : (ks : List Str) → member key ks ≡ false → KeepsKey Held (redis.del ks)
  pub keep_set_ex : (k v : Str) (ttl : ℕ) → KeepsKey Held (redis.set_ex k v ttl)
  pub keep_prices : (k l : Str) → KeepsKey Held (redis.get_price_and_lnurl k l)
  pub keep_incr : (k : Str) (window : ℕ) → KeepsKey Held (redis.incr_expire k window)

-- Redis is configured, and holds the key.
pub record IsHeld {E : Type 0} (Held : E → Type 0) (w : World E) : Type 0 where
  pub configured : is_some w.redis_url ≡ true
  pub held : Held w.outside

module _ {E : Type 0} {Held : E → Type 0} where
  pub Keeps-call : {A : Type 0} (f : Action E A) → KeepsKey Held f → Keeps (IsHeld Held) (call f)
  unfolding call
  Keeps-call f k = record {
    at = λ w h. record { configured = h.configured; held = k w.outside h.held };
  }

  module _ (redis : Redis E) (key : Str) (laws : HoldsKey redis key Held) where
    open_pool-Keeps : (url : Str) → Keeps (IsHeld Held) (open_pool redis url)
    unfolding open_pool
    open_pool-Keeps url = record {
      at = λ w h. elim (Bool-cases (redis.open_client url)) [
        | inl e ↦
            rw e (record { configured = h.configured; held = laws.keep_build w.outside h.held })
        | inr e ↦ rw e h
      ];
    }

    open_configured-Keeps : (url : Option Str) → Keeps (IsHeld Held) (open_configured redis url)
    unfolding open_configured
    open_configured-Keeps none = record { at = λ w h. h }
    open_configured-Keeps (some url) = record { at = (open_pool-Keeps url).at }

    pub redis_pool-Keeps : Keeps (IsHeld Held) (redis_pool redis)
    unfolding redis_pool
    redis_pool-Keeps = record {
      at = λ w h. elim (Bool-cases w.pool_set) [
        | inl e ↦ simp e h
        | inr e ↦ simp e ((open_configured-Keeps w.redis_url).at w h)
      ];
    }

    with_conn-Keeps :
        {A : Type 0} (failed body : Action (World E) A)
        → Keeps (IsHeld Held) failed
        → Keeps (IsHeld Held) body
        → Keeps (IsHeld Held) (with_conn redis failed body)
    unfolding with_conn
    with_conn-Keeps failed body kf kb =
        Keeps-bind _ _ (Keeps-call _ laws.keep_conn) (λ conn. Keeps-if conn _ _ kb kf)

    pub with_pool-Keeps :
        {A : Type 0} (absent failed body : Action (World E) A)
        → Keeps (IsHeld Held) absent
        → Keeps (IsHeld Held) failed
        → Keeps (IsHeld Held) body
        → Keeps (IsHeld Held) (with_pool redis absent failed body)
    unfolding with_pool
    with_pool-Keeps absent failed body ka kf kb =
        Keeps-bind _ _ redis_pool-Keeps
          (λ pool. Keeps-if pool _ _ (with_conn-Keeps failed body kf kb) ka)

-- To show something of a result, show it for what is done without a pool, without a connection and
-- over a connection, in any state that has what opening the pool and a connection keep.
pub with_pool_elim :
    {E A : Type 0} (redis : Redis E) {P : World E → Type 0} (Q : World E × A → Type 0)
    (absent failed body : Action (World E) A)
    → Keeps P (redis_pool redis)
    → Keeps P (call redis.get_conn)
    → ((w : World E) → P w → Q (absent w))
    → ((w : World E) → P w → Q (failed w))
    → ((w : World E) → P w → Q (body w))
    → (w : World E) → P w
    → Q (with_pool redis absent failed body w)
unfolding with_pool with_conn ◌>>=◌
with_pool_elim redis Q absent failed body kp kc qa qf qb w h =
    let opened = redis_pool redis w in
    let connected = call redis.get_conn opened.0 in
    elim (Bool-cases opened.1) [
      | inl e ↦ rw e (elim (Bool-cases connected.1) [
        | inl c ↦ rw c (qb connected.0 (kc.at opened.0 (kp.at w h)))
        | inr c ↦ rw c (qf connected.0 (kc.at opened.0 (kp.at w h)))
      ])
      | inr e ↦ rw e (qa opened.0 (kp.at w h))
    ]

-- What a worker fixes at startup, and its caches.
pub record SameWorker {E : Type 0} (w w' : World E) : Type 0 where
  pub same_url : w'.redis_url ≡ w.redis_url
  pub same_preimages : w'.preimage_cache ≡ w.preimage_cache
  pub same_tokens : w'.processed_tokens ≡ w.processed_tokens
  pub same_method : w'.last_payment_method ≡ w.last_payment_method

pub SameWorker-refl : {E : Type 0} (w : World E) → SameWorker w w
SameWorker-refl w = record {
  same_url = refl;
  same_preimages = refl;
  same_tokens = refl;
  same_method = refl;
}

module _ {E : Type 0} (v : World E) where
  pub SameWorker-call : {A : Type 0} (f : Action E A) → Keeps (SameWorker v) (call f)
  unfolding call
  SameWorker-call f = record { at = λ w h. ground arith }

  pub SameWorker-redis_pool : (redis : Redis E) → Keeps (SameWorker v) (redis_pool redis)
  unfolding redis_pool open_configured open_pool
  SameWorker-redis_pool redis = record { at = λ w h. ground arith }
