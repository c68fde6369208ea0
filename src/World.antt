-- ===== src/World.antt =====
-- What one nginx worker holds between requests (the statics and thread-locals of src/lib.rs and
-- src/cashu.rs), beside the state `E` of everything outside it: the Redis server, the Lightning node,
-- the mints and the wallet database.
use ngx_l.Base.{Bool, true, false, Option, List}
use ngx_l.Text.{Str}
use ngx_l.Outcome.{Action}
use ngx_l.ReplayCache.{ReplayCache}

-- The units of a Cashu token that the code tells apart; `other` is every other `CurrencyUnit`.
pub data CurrencyUnit : Type 0 where
  sat msat : CurrencyUnit
  other : Str → CurrencyUnit

abbrev pub unit_eq : CurrencyUnit → CurrencyUnit → Bool
unit_eq sat sat = true
unit_eq msat msat = true
unit_eq (other a) (other b) = ngx_l.Text.str_eq a b
unit_eq _ _ = false

-- A cdk wallet is known by its mint and unit.
pub record Wallet : Type 0 where
  pub mint_url : Str
  pub unit : CurrencyUnit

pub data PaymentMethod : Type 0 where
  lightning cashu : PaymentMethod

-- `metrics::Metric`, the counters that the request path touches.
pub data Metric : Type 0 where
  requests_total payments_valid_total payments_lightning_total payments_cashu_total : Metric
  payments_invalid_total payments_missing_total rate_limited_total challenges_issued_total : Metric
  invoices_generated_total invoices_generation_errors_total dry_run_requests_total : Metric
  dry_run_price_msat_sum dry_run_would_allow_total dry_run_would_block_total : Metric
  dry_run_rate_limited_total dry_run_challenge_errors_total : Metric

pub record World (E : Type 0) : Type 0 where
  -- REDIS_URL, and whether REDIS_POOL is set.
  pub redis_url : Option Str
  pub pool_set : Bool
  -- PREIMAGE_CACHE and PROCESSED_TOKENS.
  pub preimage_cache : ReplayCache
  pub processed_tokens : ReplayCache
  -- LAST_PAYMENT_METHOD.
  pub last_payment_method : Option PaymentMethod
  -- Whether MODULE is set.
  pub module_set : Bool
  -- The keys of WALLET_CACHE.
  pub wallets : List Wallet
  pub outside : E

module _ {E A : Type 0} where
  -- A call that leaves the worker.
  unfoldable pub call : Action E A → Action (World E) A
  call f w = (record w { outside = (f w.outside).0 }, (f w.outside).1)
