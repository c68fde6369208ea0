-- ===== src/L402/SingleUse.antt =====
-- src/lib.rs: what the access handler keeps of the keys in Redis.
use ngx_l.Base.{false, not, ◌&&◌, Option, none, some, ◌==◌, ℤ, length}
use ngx_l.Text.{Str, codes, trim, trim_start_matches, starts_with, contains_char}
use ngx_l.Outcome.Keeps.{Keeps, Keeps-pure, Keeps-if, Keeps-bind}
use ngx_l.Outcome.{Result, ok, err, ◌>>=◌}
use ngx_l.World.{World, PaymentMethod}
use ngx_l.Redis.{Redis, ReplayClaimError, not_configured, unavailable}
use ngx_l.Redis.Laws.{KeepsKey, HoldsKey, IsHeld, Keeps-call, with_pool-Keeps}
use ngx_l.Replay.{
  Hashing, Ttls, store_preimage_as_used, is_preimage_used, preimage_redis_key,
  get_cached_settled_preimage, cache_settled_preimage, preimage_seen, claim_without_redis,
}
use ngx_l.CashuError.{CashuError}
use ngx_l.L402Header.{is_l402_scheme}
use ngx_l.L402.{
  Middleware, Request, VerifyCashu, admit, already_used, admit_fresh, admit_detected,
  resolve_lookup, resolve_preimage, auto_detect, classic, detect_macaroon, detect_hash,
  admit_parsed, cashu_answer, cashu_path, l402_path, credential, l402_access_handler, Lookup,
  settled, unsettled, failed, timed_out, set_payment_method,
}

module _ {E : Type 0} {Held : E → Type 0} where
  set_payment_method-Keeps : (m : Option PaymentMethod) → Keeps (IsHeld Held) (set_payment_method m)
  set_payment_method-Keeps m = record {
    at = λ w h. record { configured = h.configured; held = h.held };
  }

  preimage_seen-Keeps : (key : Str) → Keeps (IsHeld Held) (preimage_seen key)
  preimage_seen-Keeps key = record { at = λ w h. h }

  claim_without_redis-Keeps :
      (key : Str) (reason : World E → ReplayClaimError)
      → Keeps (IsHeld Held) (λ w. claim_without_redis key (reason w) w)
  claim_without_redis-Keeps key reason = record { at = λ w h. by_reason (reason w) w h }
    where
      by_reason :
          (r : ReplayClaimError) (w : World E)
          → IsHeld Held w
          → IsHeld Held (claim_without_redis key r w).0
      by_reason not_configured w h =
          unfold ◌>>=◌ in record { configured = h.configured; held = h.held }
      by_reason unavailable w h = unfold ◌>>=◌ in h

module _ {E : Type 0} (redis : Redis E) (hashing : Hashing) (ttls : Ttls)
    (middleware : Middleware E) (root_key : Str) (verify_cashu : VerifyCashu E) where
  open middleware use {Macaroon, macaroon_from_string, parse_l402_header, verify_l402_binding}

  -- The part of the outside that is not Redis leaves its keys alone: the node, and the verification of
  -- Cashu tokens.
  pub record OthersKeep (Held : E → Type 0) : Type 0 where
    pub lookup_keeps : (hash : Str) → KeepsKey Held (middleware.lookup_invoice hash)
    pub cashu_keeps :
        (token : Str) (amount : ℤ) (lnurl : Option Str)
        → Keeps (IsHeld Held) (verify_cashu token amount lnurl)

  module _ (preimage : Str) {Held : E → Type 0}
      (laws : HoldsKey redis (preimage_redis_key redis hashing ttls preimage) Held)
      (others : OthersKeep Held) where
    is_preimage_used-Keeps : (p : Str) → Keeps (IsHeld Held) (is_preimage_used redis hashing ttls p)
    unfolding is_preimage_used
    is_preimage_used-Keeps p =
        with_pool-Keeps redis _ laws _ _ _ (preimage_seen-Keeps _) (Keeps-pure false)
          (Keeps-bind _ _ (Keeps-call _ (laws.keep_exists _)) λ _. Keeps-pure _)

    store-Keeps :
        (p : Str) (t : ℤ) → Keeps (IsHeld Held) (store_preimage_as_used redis hashing ttls p t)
    unfolding store_preimage_as_used
    store-Keeps p t =
        with_pool-Keeps redis _ laws _ _ _ (claim_without_redis-Keeps _ _) (Keeps-pure _)
          (Keeps-bind _ _ (Keeps-call _ (laws.keep_set_nx _ _)) λ _. Keeps-pure _)

    get_cached-Keeps :
        (h : Str) → Keeps (IsHeld Held) (get_cached_settled_preimage redis hashing ttls h)
    unfolding get_cached_settled_preimage
    get_cached-Keeps h =
        with_pool-Keeps redis _ laws _ _ _ (Keeps-pure none) (Keeps-pure none)
          (Keeps-bind _ _ (Keeps-call _ (laws.keep_get _)) λ _. Keeps-pure _)

    cache-Keeps : (h p : Str) → Keeps (IsHeld Held) (cache_settled_preimage redis hashing ttls h p)
    unfolding cache_settled_preimage
    cache-Keeps h p =
        with_pool-Keeps redis _ laws _ _ _ (Keeps-pure false) (Keeps-pure false)
          (Keeps-call _ (laws.keep_set_ex _ _ _))

    module _ (request : Request) where
      admit-Keeps :
          (mac : Macaroon) (p : Str)
          → Keeps
              (IsHeld Held)
              (admit redis hashing ttls middleware root_key verify_cashu request mac p)
      unfolding admit
      admit-Keeps mac p =
          Keeps-bind _ _ (record { at = λ w h. h })
            λ b.
              Keeps-if b _ _
                (Keeps-bind _ _ (set_payment_method-Keeps _) λ _.
                  Keeps-if request.indefinite_access _ _ (Keeps-pure _)
                    (Keeps-bind _ _ (store-Keeps p _) λ _. Keeps-pure _))
                (Keeps-pure _)

      pub already_used-Keeps :
          (p : Str)
          → Keeps
              (IsHeld Held)
              (already_used redis hashing ttls middleware root_key verify_cashu request p)
      unfolding already_used
      already_used-Keeps p =
          Keeps-if request.indefinite_access _ _ (Keeps-pure _) (is_preimage_used-Keeps p)

      admit_fresh-Keeps :
          (mac : Macaroon) (p : Str)
          → Keeps
              (IsHeld Held)
              (admit_fresh redis hashing ttls middleware root_key verify_cashu request mac p)
      unfolding admit_fresh
      admit_fresh-Keeps mac p =
          Keeps-bind _ _ (already_used-Keeps p)
            λ b. Keeps-if b _ _ (Keeps-pure _) (admit-Keeps mac p)

      admit_detected-Keeps :
          (mac : Macaroon) (p : Str)
          → Keeps
              (IsHeld Held)
              (admit_detected redis hashing ttls middleware root_key verify_cashu request mac p)
      unfolding admit_detected
      admit_detected-Keeps mac p = Keeps-bind _ _ (already_used-Keeps p) λ b.
          Keeps-if b _ _ (Keeps-pure _)
            (Keeps-if (length p == 32) _ _ (admit-Keeps mac p) (Keeps-pure _))

      resolve_lookup-Keeps :
          (mac : Macaroon) (h : Str) (found : Lookup)
          → Keeps (IsHeld Held) (
              resolve_lookup redis hashing ttls middleware root_key verify_cashu request mac h
                found)
      unfolding resolve_lookup
      resolve_lookup-Keeps mac h (settled p) =
          Keeps-bind _ _ (cache-Keeps h p) λ _. admit_detected-Keeps mac p
      resolve_lookup-Keeps mac h unsettled = Keeps-pure _
      resolve_lookup-Keeps mac h failed = Keeps-pure _
      resolve_lookup-Keeps mac h timed_out = Keeps-pure _

      resolve_preimage-Keeps :
          (mac : Macaroon) (h : Str) (cached : Option Str)
          → Keeps (IsHeld Held) (
              resolve_preimage redis hashing ttls middleware root_key verify_cashu request mac h
                cached)
      unfolding resolve_preimage
      resolve_preimage-Keeps mac h none =
          Keeps-bind _ _ (Keeps-call _ (others.lookup_keeps h))
            λ found. resolve_lookup-Keeps mac h found
      resolve_preimage-Keeps mac h (some cached) = admit_detected-Keeps mac cached

      detect_macaroon-Keeps :
          (h : Str) (mac : Option Macaroon)
          → Keeps
              (IsHeld Held)
              (detect_macaroon redis hashing ttls middleware root_key verify_cashu request h mac)
      unfolding detect_macaroon
      detect_macaroon-Keeps h none = Keeps-pure _
      detect_macaroon-Keeps h (some mac) =
          Keeps-bind _ _ (get_cached-Keeps h) λ cached. resolve_preimage-Keeps mac h cached

      detect_hash-Keeps :
          (token : Str) (h : Option Str)
          → Keeps
              (IsHeld Held)
              (detect_hash redis hashing ttls middleware root_key verify_cashu request token h)
      unfolding detect_hash
      detect_hash-Keeps token none = Keeps-pure _
      detect_hash-Keeps token (some h) = detect_macaroon-Keeps h _

      parsed-Keeps :
          (parsed : Option (Macaroon × Str))
          → Keeps
              (IsHeld Held)
              (admit_parsed redis hashing ttls middleware root_key verify_cashu request parsed)
      unfolding admit_parsed
      parsed-Keeps none = Keeps-pure _
      parsed-Keeps (some (mac, p)) = admit_fresh-Keeps mac p

      cashu-Keeps :
          (verified : Option (Result CashuError (Unit {0})))
          → Keeps
              (IsHeld Held)
              (cashu_answer redis hashing ttls middleware root_key verify_cashu verified)
      unfolding cashu_answer
      cashu-Keeps none = Keeps-pure _
      cashu-Keeps (some (ok _)) = Keeps-bind _ _ (set_payment_method-Keeps _) λ _. Keeps-pure _
      cashu-Keeps (some (err e)) = Keeps-pure _

      credential-Keeps :
          (auth : Option Str)
          → Keeps
              (IsHeld Held)
              (credential redis hashing ttls middleware root_key verify_cashu request auth)
      unfolding credential cashu_path l402_path auto_detect classic
      credential-Keeps none = Keeps-pure _
      credential-Keeps (some auth) =
          let token = trim_start_matches (codes "L402 ") (trim auth) in
          Keeps-if (starts_with (codes "Cashu ") auth) _ _
            (Keeps-bind _ _ (others.cashu_keeps _ _ _) λ v. cashu-Keeps v)
            (Keeps-if (is_l402_scheme auth) _ _
              (Keeps-if (request.auto_detect_payment && not (contains_char b':' token)) _ _
                (detect_hash-Keeps _ _) (parsed-Keeps _))
              (Keeps-pure _))

      -- No request, of any kind, makes Redis forget a claimed preimage.
      pub handler-Keeps :
          Keeps
            (IsHeld Held)
            (l402_access_handler redis hashing ttls middleware root_key verify_cashu request)
      unfolding l402_access_handler
      handler-Keeps = Keeps-bind _ _ (set_payment_method-Keeps _) λ _.
          Keeps-bind _ _ (record { at = λ w h. h })
            λ b. Keeps-if b _ _ (credential-Keeps _) (Keeps-pure _)
