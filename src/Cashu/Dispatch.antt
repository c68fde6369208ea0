-- ===== src/Cashu/Dispatch.antt =====
-- src/lib.rs: `L402Module::verify_cashu_token`, which the access handler calls. The model has no panic, so
-- the verification always answers.
use ngx_l.Base.{
  ℕ, ◌≡◌, refl, ◌⊎◌, inl, inr, Bool, true, false, Option, some, if◌then◌else◌, ℤ, as_u64,
}
use ngx_l.Text.{Str, codes, trim, trim_start_matches, starts_with}
use ngx_l.Outcome.{Result, ok}
use ngx_l.World.{World}
use ngx_l.Redis.{Redis}
use ngx_l.Replay.{Hashing, Ttls, declined}
use ngx_l.CashuError.{CashuError}
use ngx_l.Cdk.{Cdk}
use ngx_l.L402.{Middleware, Request, VerifyCashu, l402_access_handler}
use ngx_l.L402.Admission.{cashu_admission}
use ngx_l.Cashu.{Settings}
use ngx_l.Cashu.Verify.{verify_cashu_token}
use ngx_l.Cashu.Verify.Accepted.{IsPaid, acceptance}
use ngx_l.Cashu.Fast.{verify_cashu_token_p2pk}
use ngx_l.Cashu.Fast.Accepted.{IsSecured, acceptance_p2pk}

abbrev answered :
    {E : Type 0}
    → World E × Result CashuError (Unit {0})
    → World E × Option (Result CashuError (Unit {0}))
answered (w, r) = (w, some r)

unwrap :
    {r : Result CashuError (Unit {0})}
    → ◌≡◌ {A = Option (Result CashuError (Unit {0}))} (some r) (some (ok tt))
    → r ≡ ok tt
unwrap k = cc

module _ {E : Type 0} (redis : Redis E) (hashing : Hashing) (ttls : Ttls) (cdk : Cdk E)
    (settings : Settings) where
  unfoldable pub verify_by_mode : VerifyCashu E
  verify_by_mode token amount_msat lnurl_addr w = answered (
      if settings.p2pk_mode
      then verify_cashu_token_p2pk redis hashing ttls cdk settings token amount_msat lnurl_addr w
      else verify_cashu_token redis hashing ttls cdk settings token amount_msat lnurl_addr w)

  -- What the mode of the server has made sure of a token.
  abbrev pub IsCharged : Str → ℕ → Option Str → Type 0
  IsCharged token price lnurl_addr =
      ((settings.p2pk_mode ≡ true) × IsSecured redis hashing ttls cdk settings token price)
      ⊎ ((settings.p2pk_mode ≡ false)
          × IsPaid redis hashing ttls cdk settings token price lnurl_addr)

  charged :
      (on : Bool)
      → settings.p2pk_mode ≡ on
      → (token : Str) (amount_msat : ℤ) (lnurl_addr : Option Str) (v : World E)
      → (answered (
          if on
          then verify_cashu_token_p2pk redis hashing ttls cdk settings token amount_msat lnurl_addr
              v
          else verify_cashu_token redis hashing ttls cdk settings token amount_msat lnurl_addr v)).1
        ≡ some (ok tt)
      → IsCharged token (as_u64 amount_msat) lnurl_addr
  charged true on token amount_msat lnurl_addr v e = inl (
    on,
    acceptance_p2pk redis hashing ttls cdk settings token amount_msat lnurl_addr v (unwrap e),
  )
  charged false off token amount_msat lnurl_addr v e =
      inr
        (off, acceptance redis hashing ttls cdk settings token amount_msat lnurl_addr v (unwrap e))

  module _ (middleware : Middleware E) (root_key : Str) (request : Request) where
    -- The access handler lets a request with a Cashu token through only if the token, without its scheme,
    -- was accepted for the price of the request: by the checks of P2PK mode, or by a swap at its mint.
    pub cashu_pays :
        (auth : Str) (w : World E)
        → request.auth_header ≡ some auth
        → starts_with (codes "Cashu ") auth ≡ true
        → (l402_access_handler redis hashing ttls middleware root_key verify_by_mode request w).1
          ≡ declined
        → IsCharged
            (trim (trim_start_matches (codes "Cashu ") auth))
            (as_u64 request.amount_msat)
            request.lnurl_addr
    unfolding verify_by_mode
    cashu_pays auth w header named h =
        let (v, e) =
          cashu_admission redis hashing ttls middleware root_key verify_by_mode request auth w
            header named h in
        charged settings.p2pk_mode refl (trim (trim_start_matches (codes "Cashu ") auth))
          request.amount_msat request.lnurl_addr v e
