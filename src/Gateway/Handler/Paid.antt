-- ===== src/Gateway/Handler/Paid.antt =====
-- src/lib.rs: the wrapper over the access handler itself.
use ngx_l.Base.{◌≡◌, true, false, some, List, unwrap_or}
use ngx_l.Text.{Str}
use ngx_l.Outcome.{Action}
use ngx_l.World.{World}
use ngx_l.Redis.{Redis}
use ngx_l.Replay.{Access, Hashing, Ttls}
use ngx_l.L402.{Request, Middleware, VerifyCashu, l402_access_handler}
use ngx_l.L402.Admission.{IsAdmitted, admission_sound}
use ngx_l.Config.{ModuleConfig}
use ngx_l.Gateway.{Incoming, Node, Cashu, Exchange, auth_header}
use ngx_l.Gateway.Handler.{is_exempt, pass, l402_access_handler_wrapper, order_of, price_of}
use ngx_l.L402.Method.{handler_names_method}
use ngx_l.Gateway.Handler.Counts.{valid_payments, payments_by_method, serve, serve-IsBalanced}
use ngx_l.Gateway.Handler.Enforced.{pass_needs_credential}

module _ {E : Type 0} (redis : Redis E) (sha256 : Str → Str) (node : Node E) (cashu_of : Cashu)
    (hashing : Hashing) (ttls : Ttls) (middleware : Middleware E) (root_key : Str)
    (verify_cashu : VerifyCashu E) where
  -- The access handler as the wrapper calls it.
  abbrev pub check : Request → Action (World E) Access
  check = l402_access_handler redis hashing ttls middleware root_key verify_cashu

  -- Where a location is enabled and not in dry run, and does not exempt the method, a request is let
  -- through only if it has a credential with the evidence that the access handler asks for, of the
  -- location's binding and at the price that the location or Redis gives.
  pub pass_is_paid :
      (conf : ModuleConfig) (r : Incoming) (x : Exchange E)
      → unwrap_or conf.enable false ≡ true
      → is_exempt conf r ≡ false
      → unwrap_or conf.dry_run false ≡ false
      → (l402_access_handler_wrapper redis sha256 node cashu_of check conf r x).1 ≡ pass
      → (auth : Str) × (auth_header r ≡ some auth)
        × IsAdmitted redis hashing ttls middleware root_key verify_cashu
            (order_of redis sha256 node cashu_of check conf r
              (price_of redis sha256 node cashu_of check conf r x).1).request
            auth
  unfolding order_of
  pass_is_paid conf r x on billed live h =
      let price = price_of redis sha256 node cashu_of check conf r x in
      admission_sound redis hashing ttls middleware root_key verify_cashu _ price.0.world
        (pass_needs_credential redis sha256 node cashu_of check conf r x on billed live h)

  -- Whatever requests the worker serves, at whatever locations, in dry run or not: if the valid payments
  -- that are counted were those by Lightning and by Cashu together before, they are so afterwards.
  pub valid_by_method :
      (requests : List (ModuleConfig × Incoming)) (x : Exchange E)
      → valid_payments x.counted ≡ payments_by_method x.counted
      → valid_payments (serve redis sha256 node cashu_of check requests x).counted
        ≡ payments_by_method (serve redis sha256 node cashu_of check requests x).counted
  valid_by_method requests x h =
      (serve-IsBalanced redis sha256 node cashu_of check requests x
        (handler_names_method redis hashing ttls middleware root_key verify_cashu)
        (record { balance = h })).balance
