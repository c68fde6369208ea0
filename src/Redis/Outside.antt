-- ===== src/Redis/Outside.antt =====
-- src/lib.rs: what the pool of Redis does to the state outside of the worker.
use ngx_l.Base.{inl, inr, Option, none, some, Bool-cases}
use ngx_l.Text.{Str}
use ngx_l.Outcome.{Action}
use ngx_l.Outcome.Keeps.{Keeps, Keeps-if, Keeps-bind}
use ngx_l.World.{World, call}
use ngx_l.Redis.{Redis, redis_pool, open_pool, open_configured, with_pool, with_conn}
use ngx_l.Redis.Laws.{KeepsKey}

-- Something holds outside of the worker.
pub record Outside {E : Type 0} (H : E → Type 0) (w : World E) : Type 0 where
  pub holds : H w.outside

module _ {E : Type 0} {H : E → Type 0} where
  pub Outside-call : {A : Type 0} (g : Action E A) → KeepsKey H g → Keeps (Outside H) (call g)
  unfolding call
  Outside-call g k = record { at = λ w h. record { holds = k w.outside h.holds } }

  -- What only reads the worker.
  pub Outside-unchanged : {A : Type 0} (g : World E → A) → Keeps (Outside H) (λ w. (w, g w))
  Outside-unchanged g = record { at = λ w h. h }

  module _ (redis : Redis E) (build : KeepsKey H redis.build_pool) where
    open_pool-Keeps : (url : Str) → Keeps (Outside H) (open_pool redis url)
    unfolding open_pool
    open_pool-Keeps url = record {
      at = λ w h. elim (Bool-cases (redis.open_client url)) [
        | inl e ↦ rw e (record { holds = build w.outside h.holds })
        | inr e ↦ rw e h
      ];
    }

    open_configured-Keeps : (url : Option Str) → Keeps (Outside H) (open_configured redis url)
    unfolding open_configured
    open_configured-Keeps none = record { at = λ w h. h }
    open_configured-Keeps (some url) = record { at = (open_pool-Keeps url).at }

    pub Outside-redis_pool : Keeps (Outside H) (redis_pool redis)
    unfolding redis_pool
    Outside-redis_pool = record {
      at = λ w h. elim (Bool-cases w.pool_set) [
        | inl e ↦ simp e h
        | inr e ↦ simp e ((open_configured-Keeps w.redis_url).at w h)
      ];
    }

    module _ (conn : KeepsKey H redis.get_conn) {A : Type 0}
        (absent failed body : Action (World E) A) (kf : Keeps (Outside H) failed)
        (kb : Keeps (Outside H) body) where
      pub Outside-with_conn : Keeps (Outside H) (with_conn redis failed body)
      unfolding with_conn
      Outside-with_conn = Keeps-bind _ _ (Outside-call _ conn) (λ b. Keeps-if b _ _ kb kf)

      pub Outside-with_pool :
          Keeps (Outside H) absent → Keeps (Outside H) (with_pool redis absent failed body)
      unfolding with_pool
      Outside-with_pool ka =
          Keeps-bind _ _ Outside-redis_pool (λ pool. Keeps-if pool _ _ Outside-with_conn ka)
