-- ===== src/Gateway.antt =====
-- src/lib.rs: `l402_access_handler_wrapper`, which nginx calls for every request of a location, with
-- `get_dynamic_config`, `get_l402_header`, `get_cashu_payment_request` and `check_invoice_rate_limit`.
-- The node, the macaroon library and the clock are a parameter, and so are the Cashu settings of the
-- worker. The log lines and the timings are not modelled.
pub mod Handler
use ngx_l.Base.{
  ℕ, zero, suc, ◌+◌, ◌-◌, ◌*◌, ◌/◌, ◌%◌, ◌^◌, ◌≤◌, ◌<◌, min, max, ◌≡◌, refl, sym, ap, ◌∙◌, ◌≡⟨◌⟩◌,
  ◌∎, ◌≢◌, ◌↔◌, ◌⊎◌, inl, inr, Bool, true, false, not, ◌&&◌, ◌||◌, false≢true, Option, none, some,
  List, [], ◌∷◌, ◌++◌, map, append_assoc, append-nil, arith, ltb, leb, ◌==◌, if◌then◌else◌, leb→le,
  ==_iff, ==-refl, Bool-cases, Option-cases, ℤ, pos, negsuc, is_positive, is_negative, as_u64,
  is_some, unwrap_or, or_option, length, all, any, is_empty, first, length-append, All, All-append,
}
use ngx_l.Text.{Str, codes, trim, eq_ignore_ascii_case}
use ngx_l.Outcome.{Result, ok, err, Action, pure, ◌>>=◌, ◌>>◌}
use ngx_l.World.{World, call, Metric, PaymentMethod}
use ngx_l.Redis.{Redis, with_pool}
use ngx_l.L402.{RequestBinding}

-- The method bits of nginx, and any other value.
pub data Method : Type 0 where
  get head post put delete options patch trace mkcol copy move propfind proppatch lock unlock :
      Method
  unknown : Method

unfoldable pub method_caveat_value : Method → Str
method_caveat_value get = codes "GET"
method_caveat_value head = codes "HEAD"
method_caveat_value post = codes "POST"
method_caveat_value put = codes "PUT"
method_caveat_value delete = codes "DELETE"
method_caveat_value options = codes "OPTIONS"
method_caveat_value patch = codes "PATCH"
method_caveat_value trace = codes "TRACE"
method_caveat_value mkcol = codes "MKCOL"
method_caveat_value copy = codes "COPY"
method_caveat_value move = codes "MOVE"
method_caveat_value propfind = codes "PROPFIND"
method_caveat_value proppatch = codes "PROPPATCH"
method_caveat_value lock = codes "LOCK"
method_caveat_value unlock = codes "UNLOCK"
method_caveat_value unknown = codes "UNKNOWN"

-- The request as nginx gives it. `none` inside a value is text that is not UTF-8.
pub record Incoming : Type 0 where
  pub authorization : Option (Option Str)
  pub headers_in : List (Option Str × Option Str)
  pub uri : Str
  pub method : Method
  pub addr_text : Option Str

-- The first header named `x-cashu`, in any case, whose value is text and not blank.
unfoldable pub cashu_token_header : List (Option Str × Option Str) → Option Str
unfolding eq_ignore_ascii_case
cashu_token_header [] = none
cashu_token_header ((some name, some value) ∷ headers) =
    let rest = cashu_token_header headers in
    if eq_ignore_ascii_case name (codes "x-cashu") && not (is_empty (trim value))
    then some (trim value)
    else rest
cashu_token_header ((none, value) ∷ headers) = cashu_token_header headers
cashu_token_header ((some name, none) ∷ headers) = cashu_token_header headers

-- The credential: the `Authorization` header, else `X-Cashu` in the form of one.
unfoldable pub auth_header : Incoming → Option Str
unfolding cashu_token_header
auth_header r = elim r.authorization [
  | some value ↦ some (unwrap_or value [])
  | none ↦ elim (cashu_token_header r.headers_in) [
    | none ↦ none
    | some token ↦ some (codes "Cashu " ++ token)
  ]
]

unfoldable pub get_client_ip : Incoming → Str
get_client_ip r =
    let addr = unwrap_or r.addr_text [] in if is_empty addr then codes "unknown" else addr

-- What becomes of the call for an invoice: the node answers, fails, panics, or is cut off at the timeout.
pub data Minted : Type 0 where
  minted : Str → Minted
  not_minted panicked timed_out : Minted

pub data Invoice : Type 0 where
  invoice : Str → Str → Invoice
  invoice_failed invoice_panicked invoice_timed_out : Invoice

-- `generate_invoice` of the node or of a Lightning address, `to_caveats`, the clock in seconds, the
-- decimal text of a 64-bit word read as an i64, `get_macaroon_as_string` with the root key, and `format_challenge`.
pub record Node (E : Type 0) : Type 0 where
  pub generate_invoice : Option Str → ℤ → Action E Invoice
  pub to_caveats : RequestBinding → List Str
  pub now : E → ℕ
  pub show_i64 : ℕ → Str
  pub macaroon_as_string : Str → List Str → Option Str
  pub format_challenge : Str → Str → Str

-- What `cashu::` holds for the worker: whether Cashu is on, the whitelisted mints in order, and
-- `generate_payment_request`, which may fail.
pub record Cashu : Type 0 where
  pub ecash_enabled : Bool
  pub whitelisted_mints : Option (List Str)
  pub generate_payment_request : ℤ → List Str → Option Str

-- The headers that the handlers add to the response.
pub data Header : Type 0 where
  www_authenticate x_cashu : Str → Header
  retry_after : ℕ → Header
  dry_run_on : Header
  dry_run_price_msat : ℤ → Header
  dry_run_challenge : Str → Header
  dry_run_rate_limited : Header
  dry_run_retry_after : ℕ → Header

-- A request under way: the worker, the metrics that were counted, and the response headers, each the
-- last one first.
pub record Exchange (E : Type 0) : Type 0 where
  pub world : World E
  pub counted : List (Metric × ℕ)
  pub headers : List Header

module _ {E : Type 0} where
  abbrev pub inc : Metric → Action (Exchange E) (Unit {0})
  inc m x = (record x { counted = (m, 1) ∷ x.counted }, tt)

  abbrev pub add : Metric → ℕ → Action (Exchange E) (Unit {0})
  add m n x = (record x { counted = (m, n) ∷ x.counted }, tt)

  abbrev pub add_header_out : Header → Action (Exchange E) (Unit {0})
  add_header_out h x = (record x { headers = h ∷ x.headers }, tt)

  unfoldable pub on_world : {A : Type 0} → Action (World E) A → Action (Exchange E) A
  on_world f x = (record x { world = (f x.world).0 }, (f x.world).1)

unfoldable pub get_cashu_payment_request : Cashu → ℤ → Option Str
get_cashu_payment_request cashu amount_msat =
    if not cashu.ecash_enabled then none else elim cashu.whitelisted_mints [
      | none ↦ none
      | some mints ↦ cashu.generate_payment_request amount_msat mints
    ]

-- The bucket of a client and a route. The parameter is the hexadecimal SHA-256 of a text's bytes.
unfoldable pub invoice_rate_limit_key : (Str → Str) → Str → Str → Str
invoice_rate_limit_key sha256 client path =
    codes "l402:invoice_rate:" ++ sha256 (client ++ 0 ∷ path)

module _ {E : Type 0} (redis : Redis E) (sha256 : Str → Str) where
  unfoldable pub dynamic_reply : Option (Option ℤ × Option Str) → ℤ × Option Str
  dynamic_reply none = (pos 0, none)
  dynamic_reply (some (price, lnurl)) = (unwrap_or price (pos 0), lnurl)

  unfoldable pub get_dynamic_config : Str → Action (World E) (ℤ × Option Str)
  unfolding with_pool call ◌>>=◌ dynamic_reply
  get_dynamic_config path = with_pool redis (pure (pos 0, none)) (pure (pos 0, none)) (do
    reply ← call (redis.get_price_and_lnurl path (codes "lnurl:" ++ path))
    pure (dynamic_reply reply))

  unfoldable pub within_limit : ℕ → Option ℕ → Bool
  within_limit max_requests none = true
  within_limit max_requests (some count) = leb count max_requests

  -- It admits the request when Redis cannot count.
  unfoldable pub check_invoice_rate_limit : Str → Str → ℕ → ℕ → Action (World E) Bool
  unfolding with_pool call ◌>>=◌ within_limit invoice_rate_limit_key
  check_invoice_rate_limit ip path max_requests window_secs =
      with_pool redis (pure true) (pure true) (do
        count ← call (redis.incr_expire (invoice_rate_limit_key sha256 ip path) window_secs)
        pure (within_limit max_requests count))

module _ {E : Type 0} (node : Node E) where
  abbrev clock : Action (World E) ℕ
  clock w = (w, node.now w.outside)

  -- The sum of the clock and the timeout is an i64.
  unfoldable pub expiry_caveat : ℕ → ℤ → Str
  expiry_caveat now timeout_secs =
      codes "ExpiresAt = " ++ node.show_i64 ((now + as_u64 timeout_secs) % 2 ^ 64)

  unfoldable pub mint_macaroon : List Str → ℤ → Str → Str → Action (World E) Minted
  unfolding ◌>>=◌
  mint_macaroon caveats timeout_secs payment_hash bolt11 = do
    now ← clock
    let limited =
        if is_positive timeout_secs then caveats ++ expiry_caveat now timeout_secs ∷ [] else caveats
    pure (elim (node.macaroon_as_string payment_hash limited) [
      | none ↦ not_minted
      | some macaroon ↦ minted (node.format_challenge macaroon bolt11)
    ])

  unfoldable pub mint_for : List Str → ℤ → Invoice → Action (World E) Minted
  unfolding mint_macaroon ◌>>=◌
  mint_for caveats timeout_secs (invoice bolt11 payment_hash) =
      mint_macaroon caveats timeout_secs payment_hash bolt11
  mint_for caveats timeout_secs invoice_failed = pure not_minted
  mint_for caveats timeout_secs invoice_panicked = pure panicked
  mint_for caveats timeout_secs invoice_timed_out = pure timed_out

  unfoldable pub get_l402_header : List Str → ℤ → ℤ → Option Str → Action (World E) Minted
  unfolding call mint_for ◌>>=◌
  get_l402_header caveats amount_msat timeout_secs lnurl_addr = do
    answer ← call (node.generate_invoice lnurl_addr amount_msat)
    mint_for caveats timeout_secs answer
