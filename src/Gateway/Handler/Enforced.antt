-- ===== src/Gateway/Handler/Enforced.antt =====
-- src/lib.rs: whom an enforcing location lets through, and what its refusals carry.
use ngx_l.Base.{ap}
use ngx_l.Base.{
  ℕ, max, ◌≡◌, refl, sym, ◌∙◌, ◌≢◌, inl, inr, Bool, true, false, not, ◌||◌, false≢true, Option,
  none, some, arith, ◌==◌, Bool-cases, is_positive, is_negative, unwrap_or, any,
}
use ngx_l.Text.{Str}
use ngx_l.Outcome.{Action, pure, ◌>>=◌}
use ngx_l.Outcome.Ends.{Ends, Ends-pure, Ends-if, Ends-bind}
use ngx_l.World.{World}
use ngx_l.Redis.{Redis}
use ngx_l.Replay.{Access, declined, status}
use ngx_l.L402.{Request}
use ngx_l.Config.{ModuleConfig}
use ngx_l.Gateway.{
  Incoming, Node, Cashu, Exchange, on_world, Header, www_authenticate, Minted, minted, not_minted,
  panicked, timed_out,
}
use ngx_l.Gateway.Handler.DryRun.{Passes, passes}
use ngx_l.Gateway.Handler.{
  is_exempt, Order, Verdict, pass, code, sent_empty, sent_html, unwound, handle_dry_run_passthrough,
  charge, l402_access_handler_wrapper, enforce, conclude, challenge, retry_later, issue_challenge,
  challenge_answer, payment_body, limiter_refuses, order_of, price_of,
}

-- The status of a response; a request that is let through has none.
abbrev pub status_of : Verdict → ℕ
status_of pass = 0
status_of (code n) = n
status_of (sent_empty n) = n
status_of (sent_html n page) = n
status_of unwound = 0

abbrev pub is_challenge : Header → Bool
is_challenge (www_authenticate _) = true
is_challenge _ = false

-- A 401 or a 402 has a `WWW-Authenticate` header.
abbrev pub IsChallenged : {E : Type 0} → Exchange E × Verdict → Type 0
IsChallenged (x, v) =
    (status_of v == 401 || status_of v == 402) ≡ true → any is_challenge x.headers ≡ true

-- A verdict that does not let the request through.
abbrev IsRefusal : {E : Type 0} → Exchange E × Verdict → Type 0
IsRefusal (x, v) = v ≢ pass

payment_body-refuses :
    {E : Type 0} (redis : Redis E) (sha256 : Str → Str) (node : Node E) (cashu_of : Cashu)
    (access : Request → Action (World E) Access) (o : Order) (header : Str)
    → payment_body redis sha256 node cashu_of access o header ≢ pass
unfolding payment_body
payment_body-refuses redis sha256 node cashu_of access o header = ground arith

module _ {E : Type 0} (redis : Redis E) (sha256 : Str → Str) (node : Node E) (cashu_of : Cashu)
    (access : Request → Action (World E) Access) where
  answer-IsChallenged :
      (o : Order) (m : Minted)
      → Ends
          (λ r. IsChallenged r × IsRefusal r)
          (challenge_answer redis sha256 node cashu_of access o m)
  unfolding challenge_answer pure ◌>>=◌
  answer-IsChallenged o (minted header) = record {
    at = λ x. (λ h. refl, payment_body-refuses redis sha256 node cashu_of access o header);
  }
  answer-IsChallenged o not_minted = record { at = λ x. (λ h. ground arith, λ e. cc) }
  answer-IsChallenged o panicked = record { at = λ x. (λ h. ground arith, λ e. cc) }
  answer-IsChallenged o timed_out = record { at = λ x. (λ h. ground arith, λ e. cc) }

  retry-IsChallenged :
      (o : Order) (limit : Option (ℕ × ℕ))
      → Ends
          (λ r. IsChallenged r × IsRefusal r)
          (retry_later redis sha256 node cashu_of access limit)
  unfolding retry_later pure ◌>>=◌
  retry-IsChallenged o none = record { at = λ x. (λ h. ground arith, λ e. cc) }
  retry-IsChallenged o (some (max, window)) = record { at = λ x. (λ h. ground arith, λ e. cc) }

  challenge-IsChallenged :
      (o : Order)
      → Ends (λ r. IsChallenged r × IsRefusal r) (challenge redis sha256 node cashu_of access o)
  unfolding challenge issue_challenge
  challenge-IsChallenged o = Ends-bind _ _ λ x.
      Ends-if (limiter_refuses redis sha256 node cashu_of access o o.limit x).1 _ _
        (λ _. retry-IsChallenged o o.limit)
        (λ _. Ends-bind _ _ λ _. Ends-bind _ _ λ _. Ends-bind _ _ λ _. answer-IsChallenged o _)

  refused-IsChallenged :
      (o : Order) (n : ℕ)
      → Ends
          (λ r. IsChallenged r × IsRefusal r)
          (conclude redis sha256 node cashu_of access o (status n))
  unfolding conclude pure ◌>>=◌
  refused-IsChallenged o n =
      Ends-if (n == 401) _ _ (λ _. record { at = λ x. (λ h. refl, λ e. cc) })
        (λ u.
          Ends-if (n == 402) _ _ (λ _. challenge-IsChallenged o)
            (λ p. record { at = λ x. (λ h. ground arith, λ e. cc) }))

  enforce-IsChallenged :
      (o : Order) (result : Access)
      → Ends IsChallenged (enforce redis sha256 node cashu_of access o result)
  unfolding enforce conclude pure
  enforce-IsChallenged o declined = Ends-bind _ _ λ _. record { at = λ x h. cc }
  enforce-IsChallenged o (status n) =
      Ends-bind _ _ λ _. record { at = λ x. ((refused-IsChallenged o n).at x).0 }

  shadow-IsChallenged :
      (o : Order) (result : Access)
      → Ends IsChallenged (handle_dry_run_passthrough redis sha256 node cashu_of access o result)
  shadow-IsChallenged o result = record {
    at = λ x.
        unchallenged (handle_dry_run_passthrough redis sha256 node cashu_of access o result x)
          ((passes redis sha256 node cashu_of access o result).at x);
  }
    where
      silent : (x : Exchange E) (v : Verdict) → status_of v ≡ 0 → IsChallenged (x, v)
      silent x v e = rw e (λ h. absurd (false≢true h))

      unchallenged :
          (r : Exchange E × Verdict) → Passes redis sha256 node cashu_of access o r → IsChallenged r
      unchallenged (x, v) (inl e) = silent x v (ap status_of e)
      unchallenged (x, v) (inr e) = silent x v (ap status_of e.0)

  charge-IsChallenged :
      (conf : ModuleConfig) (r : Incoming)
      → Ends IsChallenged (charge redis sha256 node cashu_of access conf r)
  unfolding charge
  charge-IsChallenged conf r = Ends-bind _ _ λ _. Ends-bind _ _ λ _. Ends-bind _ _ λ _.
      Ends-if (unwrap_or conf.dry_run false) _ _ (λ _. shadow-IsChallenged _ _)
        (λ _. enforce-IsChallenged _ _)

  quiet :
      (v : Verdict)
      → (status_of v == 401 || status_of v == 402) ≡ false
      → Ends {S = Exchange E} IsChallenged (pure v)
  quiet v e = Ends-pure v (λ x h. absurd (false≢true (sym e ∙ h)))

  -- Every response with status 401 or 402 carries a `WWW-Authenticate` header, whatever the location,
  -- the request, and the answers of Redis, the node and the credential check.
  pub refusal_has_challenge :
      (conf : ModuleConfig) (r : Incoming) (x : Exchange E)
      → IsChallenged (l402_access_handler_wrapper redis sha256 node cashu_of access conf r x)
  unfolding l402_access_handler_wrapper on_world
  refusal_has_challenge conf r = (ends conf r).at
    where
      ends :
          (conf : ModuleConfig) (r : Incoming)
          → Ends IsChallenged (l402_access_handler_wrapper redis sha256 node cashu_of access conf r)
      ends conf r =
          Ends-if (not (unwrap_or conf.enable false) || is_exempt conf r) _ _ (λ _. quiet pass refl)
            (λ _.
              Ends-if (not (is_positive conf.amount_msat) || is_negative conf.macaroon_timeout) _ _
                (λ _. quiet (code 500) refl)
                (λ _. Ends-bind _ _ λ x.
                  Ends-if x.world.module_set _ _ (λ _. charge-IsChallenged conf r)
                    (λ _. quiet (code 500) refl)))

  -- The credential check admits the request of this location, bound to its realm or path and to its
  -- method, at the price and for the address that the location or Redis gives, in the state after that
  -- was looked up.
  abbrev pub Admitted : ModuleConfig → Incoming → Exchange E → Type 0
  Admitted conf r x =
      let price = price_of redis sha256 node cashu_of access conf r x in
      (access (order_of redis sha256 node cashu_of access conf r price.1).request price.0.world).1
      ≡ declined

  enforce_only :
      (o : Order) (result : Access)
      → Ends
          (λ r. r.1 ≡ pass → result ≡ declined)
          (enforce redis sha256 node cashu_of access o result)
  unfolding enforce
  enforce_only o declined = Ends-bind _ _ λ _. record { at = λ x h. refl }
  enforce_only o (status n) =
      Ends-bind _ _ λ _. record { at = λ x h. absurd (((refused-IsChallenged o n).at x).1 h) }

  charge_only :
      (conf : ModuleConfig) (r : Incoming) (x : Exchange E)
      → unwrap_or conf.dry_run false ≡ false
      → (charge redis sha256 node cashu_of access conf r x).1 ≡ pass
      → Admitted conf r x
  unfolding charge on_world ◌>>=◌
  charge_only conf r x h = rw h ((enforce_only _ _).at _)

  -- Where a location is enabled and not in dry run, and does not exempt the method, a request is let
  -- through only if the credential check admits it, with the binding of the location and at its price.
  pub pass_needs_credential :
      (conf : ModuleConfig) (r : Incoming) (x : Exchange E)
      → unwrap_or conf.enable false ≡ true
      → is_exempt conf r ≡ false
      → unwrap_or conf.dry_run false ≡ false
      → (l402_access_handler_wrapper redis sha256 node cashu_of access conf r x).1 ≡ pass
      → Admitted conf r x
  unfolding l402_access_handler_wrapper pure ◌>>=◌ on_world
  pass_needs_credential conf r x on billed live =
      elim (Bool-cases (not (is_positive conf.amount_msat) || is_negative conf.macaroon_timeout)) [
        | inl bad ↦ rw (on, billed, bad) (λ e. absurd (cc))
        | inr good ↦ elim (Bool-cases x.world.module_set) [
          | inl m ↦ rw (on, billed, good) (simp m (charge_only conf r x live))
          | inr m ↦ rw (on, billed, good) (simp m (λ e. absurd (cc)))
        ]
      ]
