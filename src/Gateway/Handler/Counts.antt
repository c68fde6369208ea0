-- ===== src/Gateway/Handler/Counts.antt =====
-- src/lib.rs and src/metrics.rs: the counters of valid payments and of the two methods.
use ngx_l.Base.{
  ℕ, ◌+◌, ◌*◌, ◌≡◌, refl, inl, inr, Bool, true, false, not, ◌&&◌, ◌||◌, Option, none, some, List,
  [], ◌∷◌, arith, leb, ◌==◌, Bool-cases, is_positive, is_negative, is_some, unwrap_or,
}
use ngx_l.Text.{Str}
use ngx_l.Outcome.{Action, ◌>>=◌}
use ngx_l.Outcome.Keeps.{Keeps, Keeps-pure, Keeps-if, Keeps-bind}
use ngx_l.World.{
  World, Metric, PaymentMethod, lightning, cashu, requests_total, payments_valid_total,
  payments_lightning_total, payments_cashu_total, payments_invalid_total, payments_missing_total,
  rate_limited_total, challenges_issued_total, invoices_generated_total,
  invoices_generation_errors_total, dry_run_requests_total, dry_run_price_msat_sum,
  dry_run_would_allow_total, dry_run_would_block_total, dry_run_rate_limited_total,
  dry_run_challenge_errors_total,
}
use ngx_l.Redis.{Redis}
use ngx_l.Replay.{Access, declined, status}
use ngx_l.L402.{Request}
use ngx_l.Config.{ModuleConfig}
use ngx_l.Gateway.{
  Incoming, Node, Cashu, Exchange, on_world, add, add_header_out, Header, Minted, minted,
  not_minted, panicked, timed_out,
}
use ngx_l.Gateway.Handler.{
  is_exempt, Order, handle_dry_run_passthrough, charge, l402_access_handler_wrapper, enforce,
  conclude, challenge, retry_later, issue_challenge, challenge_answer, limiter_refuses, order_of,
  price_of, count_outcome, count_method, count_would, count_price, dry_run_answer, shadow_challenge,
  shadow_retry_after, cashu_challenge, would_return,
}

-- How much a metric weighs in the balance: valid payments on one side, the two methods on the other.
abbrev valid_weight : Metric → ℕ
valid_weight payments_valid_total = 1
valid_weight _ = 0

abbrev method_weight : Metric → ℕ
method_weight payments_lightning_total = 1
method_weight payments_cashu_total = 1
method_weight _ = 0

-- `l402_payments_valid_total` after these counts.
abbrev pub valid_payments : List (Metric × ℕ) → ℕ
valid_payments [] = 0
valid_payments ((m, n) ∷ counted) = valid_weight m * n + valid_payments counted

-- The sum of `l402_payments_lightning_total` and `l402_payments_cashu_total` after these counts.
abbrev pub payments_by_method : List (Metric × ℕ) → ℕ
payments_by_method [] = 0
payments_by_method ((m, n) ∷ counted) = method_weight m * n + payments_by_method counted

pub record IsBalanced {E : Type 0} (x : Exchange E) : Type 0 where
  pub balance : valid_payments x.counted ≡ payments_by_method x.counted

module _ {E : Type 0} where
  -- A count on neither side.
  inc-Keeps :
      (m : Metric) (n : ℕ)
      → valid_weight m ≡ 0
      → method_weight m ≡ 0
      → Keeps IsBalanced (add {E = E} m n)
  inc-Keeps m n v w = record {
    at = λ x h. record { balance = rw (v, w) (omega (arith, h.balance)) };
  }

  header-Keeps : (h : Header) → Keeps IsBalanced (add_header_out {E = E} h)
  header-Keeps h = record { at = λ x b. record { balance = b.balance } }

  world-Keeps : {A : Type 0} (f : Action (World E) A) → Keeps IsBalanced (on_world f)
  unfolding on_world
  world-Keeps f = record { at = λ x b. record { balance = b.balance } }

module _ {E : Type 0} (redis : Redis E) (sha256 : Str → Str) (node : Node E) (cashu_of : Cashu)
    (access : Request → Action (World E) Access) where
  limiter-Keeps :
      (o : Order) (l : Option (ℕ × ℕ))
      → Keeps IsBalanced (limiter_refuses redis sha256 node cashu_of access o l)
  unfolding limiter_refuses
  limiter-Keeps o none = Keeps-pure _
  limiter-Keeps o (some (m, s)) = Keeps-bind _ _ (world-Keeps _) (λ b. Keeps-pure _)

  answer-Keeps :
      (o : Order) (m : Minted)
      → Keeps IsBalanced (challenge_answer redis sha256 node cashu_of access o m)
  unfolding challenge_answer
  answer-Keeps o (minted h) =
      Keeps-bind _ _ (inc-Keeps invoices_generated_total 1 refl refl)
        λ _. Keeps-bind _ _ (header-Keeps _) λ _. Keeps-pure _
  answer-Keeps o not_minted =
      Keeps-bind _ _ (inc-Keeps invoices_generation_errors_total 1 refl refl) λ _. Keeps-pure _
  answer-Keeps o panicked =
      Keeps-bind _ _ (inc-Keeps invoices_generation_errors_total 1 refl refl) λ _. Keeps-pure _
  answer-Keeps o timed_out =
      Keeps-bind _ _ (inc-Keeps invoices_generation_errors_total 1 refl refl) λ _. Keeps-pure _

  retry-Keeps :
      (l : Option (ℕ × ℕ)) → Keeps IsBalanced (retry_later redis sha256 node cashu_of access l)
  unfolding retry_later
  retry-Keeps none = Keeps-pure _
  retry-Keeps (some (m, s)) =
      Keeps-bind _ _ (inc-Keeps rate_limited_total 1 refl refl)
        λ _. Keeps-bind _ _ (header-Keeps _) λ _. Keeps-pure _

  cashu-Keeps :
      (p : Option Str) → Keeps IsBalanced (cashu_challenge redis sha256 node cashu_of access p)
  unfolding cashu_challenge
  cashu-Keeps none = Keeps-pure _
  cashu-Keeps (some p) = header-Keeps _

  challenge-Keeps : (o : Order) → Keeps IsBalanced (challenge redis sha256 node cashu_of access o)
  unfolding challenge issue_challenge
  challenge-Keeps o = Keeps-bind _ _ (limiter-Keeps o o.limit) λ b.
      Keeps-if b _ _ (retry-Keeps o.limit) (
        Keeps-bind _ _ (inc-Keeps challenges_issued_total 1 refl refl) λ _.
          Keeps-bind _ _ (cashu-Keeps _) λ _. Keeps-bind _ _ (world-Keeps _) λ m. answer-Keeps o m)

  conclude-Keeps :
      (o : Order) (result : Access)
      → Keeps IsBalanced (conclude redis sha256 node cashu_of access o result)
  unfolding conclude
  conclude-Keeps o declined = Keeps-pure _
  conclude-Keeps o (status n) =
      Keeps-if (n == 401) _ _ (Keeps-bind _ _ (header-Keeps _) λ _. Keeps-pure _)
        (Keeps-if (n == 402) _ _ (challenge-Keeps o) (Keeps-pure _))

  shadow-Keeps :
      (o : Order) (b : Bool)
      → Keeps IsBalanced (shadow_challenge redis sha256 node cashu_of access o b)
  unfolding shadow_challenge shadow_retry_after dry_run_answer
  shadow-Keeps o b = Keeps-bind _ _ (header-Keeps _) λ _.
      Keeps-if b _ _
        (Keeps-bind _ _ (header-Keeps _) λ _. Keeps-bind _ _ (later o.limit) λ _. Keeps-pure _)
        (Keeps-bind _ _ (world-Keeps _) λ m. answered m)
    where
      later :
          (l : Option (ℕ × ℕ))
          → Keeps IsBalanced (shadow_retry_after redis sha256 node cashu_of access l)
      later none = Keeps-pure _
      later (some (m, s)) = header-Keeps _

      answered :
          (m : Minted) → Keeps IsBalanced (dry_run_answer redis sha256 node cashu_of access m)
      answered (minted h) =
          Keeps-bind _ _ (header-Keeps _) λ _. Keeps-bind _ _ (header-Keeps _) λ _. Keeps-pure _
      answered not_minted =
          Keeps-bind _ _ (inc-Keeps dry_run_challenge_errors_total 1 refl refl) λ _. Keeps-pure _
      answered panicked = Keeps-pure _
      answered timed_out =
          Keeps-bind _ _ (inc-Keeps dry_run_challenge_errors_total 1 refl refl) λ _. Keeps-pure _

  dry_run-Keeps :
      (o : Order) (result : Access)
      → Keeps IsBalanced (handle_dry_run_passthrough redis sha256 node cashu_of access o result)
  unfolding handle_dry_run_passthrough count_price count_would
  dry_run-Keeps o result = Keeps-bind _ _ (inc-Keeps dry_run_requests_total 1 refl refl) λ _.
      Keeps-bind _ _
        (Keeps-if (is_positive o.request.amount_msat) _ _
          (inc-Keeps dry_run_price_msat_sum _ refl refl) (Keeps-pure _))
        λ _.
          Keeps-bind _ _
            (Keeps-if (would_return result == 402) _ _ (limiter-Keeps o o.limit) (Keeps-pure _))
            λ b.
              Keeps-bind _ _
                (Keeps-if (would_return result == 200) _ _
                  (inc-Keeps dry_run_would_allow_total 1 refl refl)
                  (Keeps-if (leb 400 (would_return result) && leb (would_return result) 402) _ _
                    (inc-Keeps dry_run_would_block_total 1 refl refl) (Keeps-pure _)))
                λ _.
                  Keeps-bind _ _
                    (Keeps-if b _ _ (inc-Keeps dry_run_rate_limited_total 1 refl refl)
                      (Keeps-pure _))
                    λ _. Keeps-bind _ _ (header-Keeps _) λ _.
                      Keeps-bind _ _
                        (Keeps-if (would_return result == 402) _ _ (shadow-Keeps o b)
                          (Keeps-pure _))
                        λ _. Keeps-pure _

  refused-Keeps :
      (n : ℕ) → Keeps IsBalanced (count_outcome redis sha256 node cashu_of access (status n))
  unfolding count_outcome
  refused-Keeps n =
      Keeps-if (n == 400 || n == 401) _ _ (inc-Keeps payments_invalid_total 1 refl refl)
        (Keeps-if (n == 402) _ _ (inc-Keeps payments_missing_total 1 refl refl) (Keeps-pure _))

  -- A valid payment is counted once on each side, where its method is known.
  valid_counted :
      (x : Exchange E) (m : Option PaymentMethod)
      → x.world.last_payment_method ≡ m
      → is_some m ≡ true
      → IsBalanced x
      → IsBalanced (count_outcome redis sha256 node cashu_of access declined x).0
  unfolding count_outcome count_method ◌>>=◌
  valid_counted x none e known h = absurd (cc)
  valid_counted x (some lightning) e known h =
      simp e (record { balance = omega (arith, h.balance) })
  valid_counted x (some cashu) e known h = simp e (record { balance = omega (arith, h.balance) })

  -- An access check that says by which method it admitted a request.
  abbrev pub NamesMethod : Type 0
  NamesMethod =
      (request : Request) (w : World E)
      → (access request w).1 ≡ declined
      → is_some (access request w).0.last_payment_method ≡ true

  -- What was checked, counted and concluded.
  enforce_from :
      (o : Order) (x : Exchange E) (result : Access)
      → (result ≡ declined → is_some x.world.last_payment_method ≡ true)
      → IsBalanced x
      → IsBalanced (enforce redis sha256 node cashu_of access o result x).0
  unfolding enforce ◌>>=◌
  enforce_from o x declined named h =
      (conclude-Keeps o declined).at _
        (valid_counted x x.world.last_payment_method refl (named refl) h)
  enforce_from o x (status n) named h =
      (conclude-Keeps o (status n)).at _ ((refused-Keeps n).at x h)

  price-Keeps :
      (conf : ModuleConfig) (r : Incoming)
      → Keeps IsBalanced (price_of redis sha256 node cashu_of access conf r)
  unfolding price_of
  price-Keeps conf r =
      Keeps-if _ _ _ (Keeps-bind _ _ (world-Keeps _) λ _. Keeps-pure _) (Keeps-pure _)

  charge-Keeps :
      (conf : ModuleConfig) (r : Incoming)
      → NamesMethod
      → Keeps IsBalanced (charge redis sha256 node cashu_of access conf r)
  unfolding charge on_world ◌>>=◌
  charge-Keeps conf r names = record {
    at = λ x h.
        let priced = price_of redis sha256 node cashu_of access conf r x in
        let counted =
          (inc-Keeps requests_total 1 refl refl).at priced.0 ((price-Keeps conf r).at x h) in
        let request = (order_of redis sha256 node cashu_of access conf r priced.1).request in
        elim (Bool-cases (unwrap_or conf.dry_run false)) [
          | inl dry ↦ rw dry ((dry_run-Keeps _ _).at _ (record { balance = counted.balance }))
          | inr live ↦ rw live (
              enforce_from _ _ _ (names request priced.0.world)
                (record { balance = counted.balance }))
        ];
  }

  wrapper-Keeps :
      (conf : ModuleConfig) (r : Incoming)
      → NamesMethod
      → Keeps IsBalanced (l402_access_handler_wrapper redis sha256 node cashu_of access conf r)
  unfolding l402_access_handler_wrapper
  wrapper-Keeps conf r names =
      Keeps-if (not (unwrap_or conf.enable false) || is_exempt conf r) _ _ (Keeps-pure _) (
        Keeps-if (not (is_positive conf.amount_msat) || is_negative conf.macaroon_timeout) _ _
          (Keeps-pure _)
          (Keeps-bind _ _ (world-Keeps _)
            λ b. Keeps-if b _ _ (charge-Keeps conf r names) (Keeps-pure _)))

  -- The state after some requests, each at its location.
  pub serve : List (ModuleConfig × Incoming) → Exchange E → Exchange E
  serve [] x = x
  serve ((conf, r) ∷ requests) x =
      serve requests (l402_access_handler_wrapper redis sha256 node cashu_of access conf r x).0

  pub serve-IsBalanced :
      (requests : List (ModuleConfig × Incoming)) (x : Exchange E)
      → NamesMethod
      → IsBalanced x
      → IsBalanced (serve requests x)
  unfolding serve
  serve-IsBalanced [] x names h = h
  serve-IsBalanced ((conf, r) ∷ requests) x names h =
      serve-IsBalanced requests _ names ((wrapper-Keeps conf r names).at x h)
