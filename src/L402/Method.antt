-- ===== src/L402/Method.antt =====
-- src/lib.rs: what the access handler leaves in `LAST_PAYMENT_METHOD`.
use ngx_l.Base.{
  ℕ, ◌≡◌, refl, ap, inl, inr, true, not, ◌&&◌, Option, none, some, ◌==◌, Bool-cases, ℤ, is_some,
  length,
}
use ngx_l.Text.{Str, starts_with, codes, trim, trim_start_matches, contains_char}
use ngx_l.Outcome.Ends.{Ends, Ends-pure, Ends-if, Ends-bind}
use ngx_l.Outcome.{Result, ok, err, pure, ◌>>=◌}
use ngx_l.World.{World, call, lightning}
use ngx_l.Redis.{Redis, not_configured, unavailable, ReplayClaimError, redis_absence_reason}
use ngx_l.Redis.Laws.{
  SameWorker, SameWorker-refl, SameWorker-call, SameWorker-redis_pool, with_pool_elim,
}
use ngx_l.Replay.{
  Access, declined, status, Hashing, Ttls, store_preimage_as_used, claim_without_redis,
}
use ngx_l.CashuError.{CashuError}
use ngx_l.L402Header.{is_l402_scheme}
use ngx_l.L402.{
  Middleware, Request, VerifyCashu, admit, already_used, admit_fresh, admit_detected,
  resolve_lookup, resolve_preimage, auto_detect, classic, detect_macaroon, detect_hash,
  admit_parsed, cashu_answer, cashu_path, l402_path, credential, l402_access_handler, Lookup,
  settled, unsettled, failed, timed_out,
}

abbrev Named : {E : Type 0} → World E × Access → Type 0
Named r = r.1 ≡ declined → is_some r.0.last_payment_method ≡ true

module _ {E : Type 0} (redis : Redis E) (hashing : Hashing) (ttls : Ttls)
    (middleware : Middleware E) (root_key : Str) (verify_cashu : VerifyCashu E) where
  open middleware use {Macaroon, verify_l402_binding}

  refuse : (n : ℕ) → Ends {S = World E} Named (pure (status n))
  refuse n = Ends-pure (status n) (λ w h. absurd (cc))

  claim_without-same :
      (key : Str) (reason : ReplayClaimError) (v w : World E)
      → w.last_payment_method ≡ v.last_payment_method
      → (claim_without_redis key reason w).0.last_payment_method ≡ v.last_payment_method
  unfolding ◌>>=◌
  claim_without-same key not_configured v w h = h
  claim_without-same key unavailable v w h = h

  -- A claim does not touch it.
  store-same :
      (preimage : Str) (timeout : ℤ) (w : World E)
      → (store_preimage_as_used redis hashing ttls preimage timeout w).0.last_payment_method
        ≡ w.last_payment_method
  unfolding store_preimage_as_used call ◌>>=◌
  store-same preimage timeout w =
      with_pool_elim redis {P = SameWorker w} (λ r. r.0.last_payment_method ≡ w.last_payment_method)
        _ _ _ (SameWorker-redis_pool w redis) (SameWorker-call w redis.get_conn)
        (λ v h. claim_without-same _ (redis_absence_reason v) w v h.same_method)
        (λ v h. h.same_method) (λ v h. h.same_method) w (SameWorker-refl w)

  admit-Named :
      (request : Request) (mac : Macaroon) (preimage : Str)
      → Ends Named (admit redis hashing ttls middleware root_key verify_cashu request mac preimage)
  unfolding admit ◌>>=◌
  admit-Named request mac preimage = record {
    at = λ w.
        elim (Bool-cases (verify_l402_binding mac request.binding root_key preimage w.outside)) [
          | inr bad ↦ rw bad (λ h. absurd (cc))
          | inl good ↦ elim (Bool-cases request.indefinite_access) [
            | inl free ↦ rw (good, free) (λ h. refl)
            | inr single ↦
                rw (good, single)
                  (λ h. ap is_some (
                    store-same preimage request.macaroon_timeout
                      (record w { last_payment_method = some lightning })))
          ]
        ];
  }

  admit_fresh-Named :
      (request : Request) (mac : Macaroon) (preimage : Str)
      → Ends Named
          (admit_fresh redis hashing ttls middleware root_key verify_cashu request mac preimage)
  unfolding admit_fresh
  admit_fresh-Named request mac preimage =
      Ends-bind _ _ λ _. Ends-if _ _ _ (λ _. refuse 401) (λ _. admit-Named request mac preimage)

  admit_detected-Named :
      (request : Request) (mac : Macaroon) (preimage : Str)
      → Ends Named
          (admit_detected redis hashing ttls middleware root_key verify_cashu request mac preimage)
  unfolding admit_detected
  admit_detected-Named request mac preimage = Ends-bind _ _ λ w.
      Ends-if
        (already_used redis hashing ttls middleware root_key verify_cashu request preimage w).1 _ _
        (λ _. refuse 401)
        (λ _.
          Ends-if (length preimage == 32) _ _ (λ _. admit-Named request mac preimage)
            (λ _. refuse 500))

  lookup-Named :
      (request : Request) (mac : Macaroon) (hash : Str) (found : Lookup)
      → Ends Named (
          resolve_lookup redis hashing ttls middleware root_key verify_cashu request mac hash found)
  unfolding resolve_lookup
  lookup-Named request mac hash (settled preimage) =
      Ends-bind _ _ λ _. admit_detected-Named request mac preimage
  lookup-Named request mac hash unsettled = refuse 402
  lookup-Named request mac hash failed = refuse 500
  lookup-Named request mac hash timed_out = refuse 500

  preimage-Named :
      (request : Request) (mac : Macaroon) (hash : Str) (cached : Option Str)
      → Ends Named (
          resolve_preimage redis hashing ttls middleware root_key verify_cashu request mac hash
            cached)
  unfolding resolve_preimage
  preimage-Named request mac hash none = Ends-bind _ _ λ _. lookup-Named request mac hash _
  preimage-Named request mac hash (some cached) = admit_detected-Named request mac cached

  hash-Named :
      (request : Request) (token : Str) (hash : Option Str)
      → Ends Named
          (detect_hash redis hashing ttls middleware root_key verify_cashu request token hash)
  unfolding detect_hash
  hash-Named request token none = refuse 401
  hash-Named request token (some hash) = by_macaroon hash _
    where
      by_macaroon :
          (hash : Str) (mac : Option Macaroon)
          → Ends Named
              (detect_macaroon redis hashing ttls middleware root_key verify_cashu request hash mac)
      by_macaroon hash none = unfold detect_macaroon in refuse 401
      by_macaroon hash (some mac) =
          unfold detect_macaroon in (Ends-bind _ _ λ _. preimage-Named request mac hash _)

  parsed-Named :
      (request : Request) (parsed : Option (Macaroon × Str))
      → Ends Named (admit_parsed redis hashing ttls middleware root_key verify_cashu request parsed)
  unfolding admit_parsed
  parsed-Named request none = refuse 401
  parsed-Named request (some (mac, preimage)) = admit_fresh-Named request mac preimage

  cashu-Named :
      (verified : Option (Result CashuError (Unit {0})))
      → Ends {S = World E} Named
          (cashu_answer redis hashing ttls middleware root_key verify_cashu verified)
  unfolding cashu_answer pure ◌>>=◌
  cashu-Named none = refuse 500
  cashu-Named (some (ok _)) = record { at = λ w h. refl }
  cashu-Named (some (err e)) = refuse _

  credential-Named :
      (request : Request) (auth : Option Str)
      → Ends Named (credential redis hashing ttls middleware root_key verify_cashu request auth)
  unfolding credential cashu_path l402_path auto_detect classic
  credential-Named request none = refuse 402
  credential-Named request (some auth) =
      let token = trim_start_matches (codes "L402 ") (trim auth) in
      Ends-if (starts_with (codes "Cashu ") auth) _ _ (λ _. Ends-bind _ _ λ _. cashu-Named _)
        (λ _.
          Ends-if (is_l402_scheme auth) _ _
            (λ _.
              Ends-if (request.auto_detect_payment && not (contains_char b':' token)) _ _
                (λ _. hash-Named request _ _) (λ _. parsed-Named request _))
            (λ _. refuse 402))

  -- A request that the access handler lets through has its payment method recorded.
  pub handler_names_method :
      (request : Request) (w : World E)
      → (l402_access_handler redis hashing ttls middleware root_key verify_cashu request w).1
        ≡ declined
      → is_some
          (l402_access_handler redis hashing ttls middleware root_key verify_cashu request
            w).0.last_payment_method
        ≡ true
  unfolding l402_access_handler
  handler_names_method request = ends.at
    where
      ends :
          Ends Named
            (l402_access_handler redis hashing ttls middleware root_key verify_cashu request)
      ends = Ends-bind _ _ λ _.
          Ends-bind _ _
            λ w. Ends-if w.module_set _ _ (λ _. credential-Named request _) (λ _. refuse 500)
