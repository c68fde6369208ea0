-- ===== src/Gateway/Handler/DryRun.antt =====
-- src/lib.rs: what dry run hands back to nginx.
use ngx_l.Base.{
  ◌≡◌, refl, sym, ◌∙◌, inl, inr, true, false, not, ◌||◌, false≢true, Bool-cases, is_positive,
  is_negative, unwrap_or, ℤ, Bool, Option, ◌⊎◌, ◌==◌, if◌then◌else◌,
}
use ngx_l.Text.{Str}
use ngx_l.Outcome.{Action, pure, ◌>>=◌}
use ngx_l.Outcome.Ends.{Ends, Ends-pure, Ends-if, Ends-bind}
use ngx_l.World.{World}
use ngx_l.Redis.{Redis}
use ngx_l.Replay.{Access}
use ngx_l.L402.{Request}
use ngx_l.Config.{ModuleConfig}
use ngx_l.Gateway.{
  Incoming, Node, Cashu, Exchange, on_world, Minted, minted, not_minted, panicked, timed_out,
  get_l402_header,
}
use ngx_l.Gateway.Handler.{
  is_exempt, Order, Verdict, pass, unwound, order_of, price_of, would_return, shadow_challenge,
  dry_run_answer, handle_dry_run_passthrough, charge, l402_access_handler_wrapper,
}

module _ {E : Type 0} (redis : Redis E) (sha256 : Str → Str) (node : Node E) (cashu_of : Cashu)
    (access : Request → Action (World E) Access) where
  -- The node panics where it mints the challenge for an order.
  abbrev pub Panics : Order → Type 0
  Panics o =
      (w : World E) × ((get_l402_header node (node.to_caveats o.request.binding)
          o.request.amount_msat o.request.macaroon_timeout o.request.lnurl_addr w).1
        ≡ panicked)

  abbrev Survives : Order → Exchange E × Bool → Type 0
  Survives o r = (r.1 ≡ true) ⊎ Panics o

  -- A request is let through, or the panic of the node leaves the handler.
  abbrev pub Passes : Order → Exchange E × Verdict → Type 0
  Passes o r = (r.1 ≡ pass) ⊎ ((r.1 ≡ unwound) × Panics o)

  answer_survives :
      (m : Minted)
      → Ends
          (λ r. (r.1 ≡ true) ⊎ (m ≡ panicked))
          (dry_run_answer redis sha256 node cashu_of access m)
  unfolding dry_run_answer
  answer_survives (minted h) = Ends-bind _ _ λ _. Ends-bind _ _ λ _. Ends-pure true (λ _. inl refl)
  answer_survives not_minted = Ends-bind _ _ λ _. Ends-pure true (λ _. inl refl)
  answer_survives timed_out = Ends-bind _ _ λ _. Ends-pure true (λ _. inl refl)
  answer_survives panicked = Ends-pure false (λ _. inr refl)

  shadow-Survives :
      (o : Order) (b : Bool)
      → Ends (Survives o) (shadow_challenge redis sha256 node cashu_of access o b)
  unfolding shadow_challenge on_world
  shadow-Survives o b = Ends-bind _ _ λ _.
      Ends-if b _ _ (λ _. Ends-bind _ _ λ _. Ends-bind _ _ λ _. Ends-pure true (λ _. inl refl))
        (λ _. Ends-bind _ _ λ x. record {
          at = λ y. elim ((answer_survives _).at y) [ inl e ↦ inl e | inr e ↦ inr (x.world, e) ];
        })

  finish :
      (o : Order) (b : Bool) (x : Exchange E)
      → Survives o (x, b)
      → Passes o (x, if b then pass else unwound)
  finish o true x s = inl refl
  finish o false x (inl e) = absurd (false≢true e)
  finish o false x (inr p) = inr (refl, p)

  settled :
      (o : Order) (m : Action (Exchange E) Bool)
      → Ends (Survives o) m
      → Ends (Passes o) (m >>= (λ b. pure (if b then pass else unwound)))
  unfolding ◌>>=◌ pure
  settled o m h = record { at = λ x. finish o (m x).1 (m x).0 (h.at x) }

  pub passes :
      (o : Order) (result : Access)
      → Ends (Passes o) (handle_dry_run_passthrough redis sha256 node cashu_of access o result)
  unfolding handle_dry_run_passthrough
  passes o result = Ends-bind _ _ λ _. Ends-bind _ _ λ _.
      Ends-bind _ _
        λ _. Ends-bind _ _ λ _. Ends-bind _ _ λ _. Ends-bind _ _ λ _. settled o _ (survives _)
    where
      survives :
          (b : Bool)
          → Ends (Survives o) (
              if would_return result == 402
              then shadow_challenge redis sha256 node cashu_of access o b
              else pure true)
      survives b = Ends-if _ _ _ (λ _. shadow-Survives o b) (λ _. Ends-pure true (λ _. inl refl))

  -- What dry run makes of a request, at some price.
  abbrev pub Shadowed : ModuleConfig → Incoming → Exchange E × Verdict → Type 0
  Shadowed conf r v =
      (v.1 ≡ pass)
      ⊎ ((v.1 ≡ unwound)
          × (price : ℤ × Option Str) × Panics
              (order_of redis sha256 node cashu_of access conf r price))

  charge_passes :
      (conf : ModuleConfig) (r : Incoming)
      → unwrap_or conf.dry_run false ≡ true
      → Ends (Shadowed conf r) (charge redis sha256 node cashu_of access conf r)
  unfolding charge
  charge_passes conf r h = Ends-bind _ _ λ x. Ends-bind _ _ λ _. Ends-bind _ _ λ _.
      Ends-if (unwrap_or conf.dry_run false) _ _
        (λ _. record {
          at = λ y.
              elim ((passes
                  (order_of redis sha256 node cashu_of access conf r
                    (price_of redis sha256 node cashu_of access conf r x).1)
                  _).at
                y) [ inl e ↦ inl e | inr p ↦ inr (p.0, _, p.1) ];
        })
        (λ e. absurd (false≢true (sym e ∙ h)))

  -- In dry run, at a location with a positive price and no negative timeout, an initialised worker lets
  -- every request through, whatever its credential, and whatever Redis, the node and the limiter answer;
  -- unless the node panics where it mints the challenge for the request, and the panic leaves the handler.
  pub dry_run_passes :
      (conf : ModuleConfig) (r : Incoming) (x : Exchange E)
      → unwrap_or conf.dry_run false ≡ true
      → is_positive conf.amount_msat ≡ true
      → is_negative conf.macaroon_timeout ≡ false
      → x.world.module_set ≡ true
      → Shadowed conf r (l402_access_handler_wrapper redis sha256 node cashu_of access conf r x)
  unfolding l402_access_handler_wrapper ◌>>=◌ pure on_world
  dry_run_passes conf r x h p t m =
      elim (Bool-cases (not (unwrap_or conf.enable false) || is_exempt conf r)) [
        | inl free ↦ rw free (inl refl)
        | inr paid ↦ rw (paid, p, t) (simp m ((charge_passes conf r h).at x))
      ]
