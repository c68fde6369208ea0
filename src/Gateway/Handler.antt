-- ===== src/Gateway/Handler.antt =====
-- src/lib.rs: `l402_access_handler_wrapper` and `handle_dry_run_passthrough`. `access` is
-- `l402_access_handler`, as the wrapper calls it.
pub mod DryRun
pub mod Enforced
pub mod Paid
pub mod Counts
use ngx_l.Base.{
  ℕ, zero, suc, ◌+◌, ◌-◌, ◌*◌, ◌/◌, ◌%◌, ◌^◌, ◌≤◌, ◌<◌, min, max, ◌≡◌, refl, sym, ap, ◌∙◌, ◌≡⟨◌⟩◌,
  ◌∎, ◌≢◌, ◌↔◌, ◌⊎◌, inl, inr, Bool, true, false, not, ◌&&◌, ◌||◌, false≢true, Option, none, some,
  List, [], ◌∷◌, ◌++◌, map, append_assoc, append-nil, arith, ltb, leb, ◌==◌, if◌then◌else◌, leb→le,
  ==_iff, ==-refl, Bool-cases, Option-cases, ℤ, pos, negsuc, is_positive, is_negative, as_u64,
  is_some, unwrap_or, or_option, length, all, any, is_empty, first, length-append, All, All-append,
}
use ngx_l.Text.{Str, codes, str_eq}
use ngx_l.Outcome.{Result, ok, err, Action, pure, ◌>>=◌, ◌>>◌}
use ngx_l.World.{
  World, Metric, PaymentMethod, lightning, cashu, requests_total, payments_valid_total,
  payments_lightning_total, payments_cashu_total, payments_invalid_total, payments_missing_total,
  rate_limited_total, challenges_issued_total, invoices_generated_total,
  invoices_generation_errors_total, dry_run_requests_total, dry_run_price_msat_sum,
  dry_run_would_allow_total, dry_run_would_block_total, dry_run_rate_limited_total,
  dry_run_challenge_errors_total,
}
use ngx_l.Redis.{Redis}
use ngx_l.Replay.{Access, declined, status}
use ngx_l.L402Header.{is_l402_scheme, parse_l402_header_value}
use ngx_l.L402.{Request, RequestBinding, request_binding, module_ready}
use ngx_l.Config.{ModuleConfig}
use ngx_l.Gateway.{
  Incoming, Method, method_caveat_value, auth_header, get_client_ip, Minted, minted, not_minted,
  panicked, timed_out, Node, Cashu, Header, www_authenticate, x_cashu, retry_after, dry_run_on,
  dry_run_price_msat, dry_run_challenge, dry_run_rate_limited, dry_run_retry_after, Exchange, inc,
  add, add_header_out, on_world, get_cashu_payment_request, get_dynamic_config,
  check_invoice_rate_limit, get_l402_header,
}

-- The payment page, by what is rendered into it.
pub record Page : Type 0 where
  pub invoice : Str
  pub amount_msat : ℤ
  pub macaroon : Str
  pub auto_detect : Bool
  pub cashu_enabled : Bool
  pub cashu_request : Option Str
  pub mints : List Str

-- What the wrapper hands back: `NGX_DECLINED`, a status, or a response that it has sent itself; or a
-- panic leaves it.
pub data Verdict : Type 0 where
  pass : Verdict
  code : ℕ → Verdict
  sent_empty : ℕ → Verdict
  sent_html : ℕ → Page → Verdict
  unwound : Verdict

abbrev pub verdict_of : Access → Verdict
verdict_of declined = pass
verdict_of (status n) = code n

-- What the settings of the location and the credential come to.
pub record Order : Type 0 where
  pub request : Request
  pub request_path : Str
  pub limit : Option (ℕ × ℕ)
  pub payment_html : Bool
  pub client_ip : Str

unfoldable pub is_exempt : ModuleConfig → Incoming → Bool
is_exempt conf r = any (str_eq (method_caveat_value r.method)) conf.exempt_methods

-- The Lightning credential needs neither price nor address from Redis.
unfoldable pub needs_dynamic_config : Option Str → Bool
needs_dynamic_config none = true
needs_dynamic_config (some s) = not (is_l402_scheme s)

unfoldable pub would_return : Access → ℕ
would_return declined = 200
would_return (status n) = if leb 100 n && ltb n 600 then n else 0

module _ {E : Type 0} (redis : Redis E) (sha256 : Str → Str) (node : Node E) (cashu_of : Cashu)
    (access : Request → Action (World E) Access) where
  -- Whether the limiter refuses an invoice; without a limit it does not.
  unfoldable pub limiter_refuses : Order → Option (ℕ × ℕ) → Action (Exchange E) Bool
  limiter_refuses o none = pure false
  limiter_refuses o (some (max_requests, window_secs)) = do
    allowed ←
        on_world (
          check_invoice_rate_limit redis sha256 o.client_ip o.request_path max_requests window_secs)
    pure (not allowed)

  unfoldable pub count_would : ℕ → Action (Exchange E) (Unit {0})
  count_would n =
      if n == 200
      then inc dry_run_would_allow_total
      else if leb 400 n && leb n 402
      then inc dry_run_would_block_total
      else pure tt

  -- Nothing catches a panic of the node here; the result is whether there was none.
  unfoldable pub dry_run_answer : Minted → Action (Exchange E) Bool
  dry_run_answer (minted header) = do
    add_header_out (www_authenticate header)
    add_header_out (dry_run_challenge header)
    pure true
  dry_run_answer not_minted = do inc dry_run_challenge_errors_total; pure true
  dry_run_answer timed_out = do inc dry_run_challenge_errors_total; pure true
  dry_run_answer panicked = pure false

  unfoldable pub shadow_retry_after : Option (ℕ × ℕ) → Action (Exchange E) (Unit {0})
  shadow_retry_after none = pure tt
  shadow_retry_after (some (_, window_secs)) = add_header_out (dry_run_retry_after window_secs)

  -- The challenge that would have been sent, or the sign that the limiter would have refused it.
  unfoldable pub shadow_challenge : Order → Bool → Action (Exchange E) Bool
  shadow_challenge o rate_limited = do
    add_header_out (dry_run_price_msat o.request.amount_msat)
    if rate_limited
        then (do add_header_out dry_run_rate_limited; shadow_retry_after o.limit; pure true)
        else (do
          answer ← on_world (
              get_l402_header node (node.to_caveats o.request.binding) o.request.amount_msat
                o.request.macaroon_timeout o.request.lnurl_addr)
          dry_run_answer answer)

  unfoldable pub count_price : ℤ → Action (Exchange E) (Unit {0})
  count_price amount =
      if is_positive amount then add dry_run_price_msat_sum (as_u64 amount) else pure tt

  unfoldable pub handle_dry_run_passthrough : Order → Access → Action (Exchange E) Verdict
  handle_dry_run_passthrough o result = do
    inc dry_run_requests_total
    count_price o.request.amount_msat
    rate_limited ← (if would_return result == 402 then limiter_refuses o o.limit else pure false)
    count_would (would_return result)
    (if rate_limited then inc dry_run_rate_limited_total else pure tt)
    add_header_out dry_run_on
    survived ← (if would_return result == 402 then shadow_challenge o rate_limited else pure true)
    pure (if survived then pass else unwound)

  abbrev take_payment_method : Action (Exchange E) (Option PaymentMethod)
  take_payment_method x = (
    record x { world = record x.world { last_payment_method = none } },
    x.world.last_payment_method,
  )

  unfoldable pub count_method : Option PaymentMethod → Action (Exchange E) (Unit {0})
  count_method none = pure tt
  count_method (some lightning) = inc payments_lightning_total
  count_method (some cashu) = inc payments_cashu_total

  unfoldable pub count_outcome : Access → Action (Exchange E) (Unit {0})
  count_outcome declined = do
    inc payments_valid_total
    method ← take_payment_method
    count_method method
  count_outcome (status n) =
      if n == 400 || n == 401
      then inc payments_invalid_total
      else if n == 402
      then inc payments_missing_total
      else pure tt

  unfoldable pub page_of : Order → Str → Str → Page
  page_of o macaroon invoice = record {
    invoice = invoice;
    amount_msat = o.request.amount_msat;
    macaroon = macaroon;
    auto_detect = o.request.auto_detect_payment;
    cashu_enabled = cashu_of.ecash_enabled;
    cashu_request =
        if cashu_of.ecash_enabled
        then get_cashu_payment_request cashu_of o.request.amount_msat
        else none;
    mints = if cashu_of.ecash_enabled then unwrap_or cashu_of.whitelisted_mints [] else [];
  }

  -- The body of a 402: empty, the page, or none if the header does not parse.
  unfoldable pub payment_body : Order → Str → Verdict
  payment_body o header =
      if not o.payment_html then sent_empty 402 else elim (parse_l402_header_value header) [
        | none ↦ code 402
        | some (macaroon, invoice) ↦ sent_html 402 (page_of o macaroon invoice)
      ]

  unfoldable pub challenge_answer : Order → Minted → Action (Exchange E) Verdict
  challenge_answer o (minted header) = do
    inc invoices_generated_total
    add_header_out (www_authenticate header)
    pure (payment_body o header)
  challenge_answer o _ = do inc invoices_generation_errors_total; pure (code 500)

  unfoldable pub cashu_challenge : Option Str → Action (Exchange E) (Unit {0})
  cashu_challenge none = pure tt
  cashu_challenge (some payment_request) = add_header_out (x_cashu payment_request)

  unfoldable pub issue_challenge : Order → Action (Exchange E) Verdict
  issue_challenge o = do
    inc challenges_issued_total
    cashu_challenge (
        if cashu_of.ecash_enabled
        then get_cashu_payment_request cashu_of o.request.amount_msat
        else none)
    answer ← on_world (
        get_l402_header node (node.to_caveats o.request.binding) o.request.amount_msat
          o.request.macaroon_timeout o.request.lnurl_addr)
    challenge_answer o answer

  unfoldable pub retry_later : Option (ℕ × ℕ) → Action (Exchange E) Verdict
  retry_later none = pure (code 429)
  retry_later (some (_, window_secs)) = do
    inc rate_limited_total
    add_header_out (retry_after window_secs)
    pure (code 429)

  unfoldable pub challenge : Order → Action (Exchange E) Verdict
  challenge o = do
    refused ← limiter_refuses o o.limit
    if refused then retry_later o.limit else issue_challenge o

  -- After the counters: a 401 names the scheme, and a 402 carries a challenge.
  unfoldable pub conclude : Order → Access → Action (Exchange E) Verdict
  conclude o declined = pure pass
  conclude o (status n) =
      if n == 401
      then (do add_header_out (www_authenticate (codes "L402")); pure (code 401))
      else if n == 402
      then challenge o
      else pure (code n)

  -- An answer that is not in dry run.
  unfoldable pub enforce : Order → Access → Action (Exchange E) Verdict
  enforce o result = do count_outcome result; conclude o result

  unfoldable pub final_price : ModuleConfig → ℤ × Option Str → ℤ × Option Str
  final_price conf (dynamic_amount, dynamic_lnurl) = (
    if is_positive dynamic_amount then dynamic_amount else conf.amount_msat,
    or_option dynamic_lnurl conf.lnurl_addr,
  )

  -- The price and the payout address, from Redis where it has them.
  unfoldable pub price_of : ModuleConfig → Incoming → Action (Exchange E) (ℤ × Option Str)
  price_of conf r =
      if needs_dynamic_config (auth_header r)
      then (do
        found ← on_world (get_dynamic_config redis sha256 r.uri)
        pure (final_price conf found))
      else pure (conf.amount_msat, conf.lnurl_addr)

  unfoldable pub order_of : ModuleConfig → Incoming → ℤ × Option Str → Order
  order_of conf r (amount, lnurl) = record {
    request = record {
      auth_header = auth_header r;
      amount_msat = amount;
      binding = request_binding conf.realm r.uri (method_caveat_value r.method);
      lnurl_addr = lnurl;
      auto_detect_payment = unwrap_or conf.auto_detect_payment false;
      indefinite_access = unwrap_or conf.indefinite_access false;
      macaroon_timeout = conf.macaroon_timeout;
    };
    request_path = r.uri;
    limit = conf.invoice_rate_limit;
    payment_html = unwrap_or conf.payment_html true;
    client_ip = get_client_ip r;
  }

  -- A request that the location charges for.
  unfoldable pub charge : ModuleConfig → Incoming → Action (Exchange E) Verdict
  charge conf r = do
    price ← price_of conf r
    inc requests_total
    result ← on_world (access (order_of conf r price).request)
    if unwrap_or conf.dry_run false
        then handle_dry_run_passthrough (order_of conf r price) result
        else enforce (order_of conf r price) result

  unfoldable pub l402_access_handler_wrapper : ModuleConfig → Incoming → Action (Exchange E) Verdict
  l402_access_handler_wrapper conf r =
      if not (unwrap_or conf.enable false) || is_exempt conf r
      then pure pass
      else if not (is_positive conf.amount_msat) || is_negative conf.macaroon_timeout
      then pure (code 500)
      else (do ready ← on_world module_ready; if ready then charge conf r else pure (code 500))
