-- ===== src/Tests/Front.antt =====
-- The theorems of the wrapper that nginx calls, applied.
use ngx_l.Base.{List}
use ngx_l.Base.{◌≡◌, refl, true, false, none, some, [], pos}
use mathlib.Core.List.{◌∷◌}
use ngx_l.Text.{Str, codes}
use ngx_l.Outcome.{◌>>=◌}
use ngx_l.World.{World}
use ngx_l.Replay.{Access, declined, status}
use ngx_l.L402.{Request}
use ngx_l.Config
use ngx_l.Config.{ModuleConfig}
use ngx_l.Gateway.{Incoming, get, Node, Cashu, Exchange, invoice, invoice_failed, on_world}
use ngx_l.Gateway.Handler.{
  pass, l402_access_handler_wrapper, charge, enforce, conclude, count_outcome, is_exempt, Verdict,
  code,
}
use ngx_l.Gateway.Handler.DryRun.{Shadowed, dry_run_passes}
use ngx_l.Gateway.Handler.Enforced.{IsChallenged, refusal_has_challenge}
use ngx_l.Gateway.Handler.Paid.{check, pass_is_paid, valid_by_method}
use ngx_l.Gateway.Handler.Counts.{valid_payments, payments_by_method, serve}
use ngx_l.Gateway.{auth_header}
use ngx_l.Gateway.Handler.{order_of, price_of}
use ngx_l.L402.Admission.{IsAdmitted}
use ngx_l.Tests.{hashing, ttls, middleware, no_cashu, Keys, server, worker}

abbrev digest : Str → Str
digest s = s

abbrev node : Node Keys
node = record {
  generate_invoice = λ addr msat e. (e, invoice (codes "lnbc1") (codes "h"));
  to_caveats = λ b. [];
  now = λ e. 0;
  show_i64 = λ n. codes "0";
  macaroon_as_string = λ h caveats. some (codes "m");
  format_challenge = λ m i. codes "L402 macaroon=\"m\", invoice=\"lnbc1\"";
}

abbrev no_ecash : Cashu
no_ecash = record {
  ecash_enabled = false;
  whitelisted_mints = none;
  generate_payment_request = λ a m. none;
}

abbrev ask : Incoming
ask = record {
  authorization = some (some (codes "L402 m:p"));
  headers_in = [];
  uri = codes "/a";
  method = get;
  addr_text = some (codes "10.0.0.1");
}

abbrev open_door : Request → World Keys → World Keys × Access
open_door r w = (w, declined)

abbrev closed_door : Request → World Keys → World Keys × Access
closed_door r w = (w, status 401)

abbrev unpaid : Request → World Keys → World Keys × Access
unpaid r w = (w, status 402)

abbrev toll : ModuleConfig
toll = record ngx_l.Config.default {
  enable = some true;
  amount_msat = pos 1000;
  invoice_rate_limit = some (5, 60);
}

abbrev shadow : ModuleConfig
shadow = record toll { dry_run = some true }

abbrev exchange : Exchange Keys
exchange = record { world = worker; counted = []; headers = [] }

dry_run_passes_example :
    Shadowed server digest node no_ecash closed_door shadow ask
      (l402_access_handler_wrapper server digest node no_ecash closed_door shadow ask exchange)
unfolding ngx_l.Config.default
dry_run_passes_example =
    dry_run_passes server digest node no_ecash closed_door shadow ask exchange refl refl refl refl

refusal_has_challenge_example :
    IsChallenged (l402_access_handler_wrapper server digest node no_ecash unpaid toll ask exchange)
refusal_has_challenge_example =
    refusal_has_challenge server digest node no_ecash unpaid toll ask exchange

-- A request past the limit gets 429.
limited :
    (l402_access_handler_wrapper server digest node no_ecash unpaid toll ask exchange).1 ≡ code 429
unfolding l402_access_handler_wrapper ngx_l.Config.default is_exempt ◌>>=◌ on_world charge enforce
    conclude ngx_l.Gateway.Handler.challenge ngx_l.Gateway.Handler.limiter_refuses
    ngx_l.Gateway.Handler.order_of ngx_l.Gateway.check_invoice_rate_limit count_outcome
    ngx_l.Gateway.Handler.price_of ngx_l.Gateway.Handler.needs_dynamic_config
    ngx_l.Gateway.auth_header ngx_l.L402Header.is_l402_scheme ngx_l.Gateway.Handler.retry_later
limited = refl

abbrev handler : Request → World Keys → World Keys × Access
handler = check server digest node no_ecash hashing ttls middleware [] no_cashu

paid_through :
    (l402_access_handler_wrapper server digest node no_ecash handler toll ask exchange).1 ≡ pass
unfolding l402_access_handler_wrapper ngx_l.Config.default is_exempt ◌>>=◌ on_world charge enforce
    conclude ngx_l.L402.l402_access_handler price_of ngx_l.Gateway.Handler.needs_dynamic_config
    auth_header ngx_l.L402Header.is_l402_scheme ngx_l.L402.credential order_of
    ngx_l.Text.starts_with ngx_l.L402.l402_path ngx_l.L402.classic ngx_l.L402.admit_parsed
    ngx_l.L402.admit_fresh ngx_l.L402.admit ngx_l.L402.already_used
    ngx_l.Replay.store_preimage_as_used ngx_l.Replay.is_preimage_used
    ngx_l.Replay.handle_preimage_claim ngx_l.Redis.with_pool ngx_l.ReplayCache.member
paid_through = refl

pass_is_paid_example :
    (auth : Str) × (auth_header ask ≡ some auth)
    × IsAdmitted server hashing ttls middleware [] no_cashu
        (order_of server digest node no_ecash handler toll ask
          (price_of server digest node no_ecash handler toll ask exchange).1).request
        auth
unfolding ngx_l.Config.default is_exempt
pass_is_paid_example =
    pass_is_paid server digest node no_ecash hashing ttls middleware [] no_cashu toll ask exchange
      refl refl refl paid_through

abbrev two_asks : List (ModuleConfig × Incoming)
two_asks = (toll, ask) ∷ (shadow, ask) ∷ []

valid_by_method_example :
    valid_payments (serve server digest node no_ecash handler two_asks exchange).counted
    ≡ payments_by_method (serve server digest node no_ecash handler two_asks exchange).counted
valid_by_method_example =
    valid_by_method server digest node no_ecash hashing ttls middleware [] no_cashu two_asks
      exchange refl
