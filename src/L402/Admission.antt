-- ===== src/L402/Admission.antt =====
-- src/lib.rs: what has been checked when `l402_access_handler` lets a request through.
use std.Path.{subst}
use ngx_l.Base.{
  sym, ap, ◌∙◌, false≢true, ℕ, ◌≡◌, refl, ◌⊎◌, inl, inr, Bool, true, not, ◌&&◌, Option, none, some,
  arith, ◌==◌, ==_iff, length,
}
use ngx_l.Text.{Str, codes, trim, trim_start_matches, starts_with, contains_char}
use ngx_l.Outcome.Ends.{Ends, Ends-pure, Ends-if, Ends-bind}
use ngx_l.Outcome.{Result, ok, err, pure, ◌>>=◌}
use ngx_l.World.{World}
use ngx_l.Redis.{Redis}
use ngx_l.Replay.{
  Access, declined, status, Hashing, Ttls, handle_preimage_claim, store_preimage_as_used,
}
use ngx_l.CashuError.{CashuError}
use ngx_l.L402Header.{is_l402_scheme}
use ngx_l.L402.{
  already_used, Middleware, Request, VerifyCashu, admit, admit_fresh, admit_detected,
  resolve_lookup, resolve_preimage, auto_detect, classic, detect_macaroon, detect_hash,
  admit_parsed, cashu_answer, cashu_path, l402_path, credential, l402_access_handler, Lookup,
  settled, unsettled, failed, timed_out,
}

and_left : (a b : Bool) → a && b ≡ true → a ≡ true
and_left a b h = ground arith

refused : {n : ℕ} {A : Type 0} → status n ≡ declined → A
refused h = absurd (cc)

module _ {E : Type 0} (redis : Redis E) (hashing : Hashing) (ttls : Ttls)
    (middleware : Middleware E) (root_key : Str) (verify_cashu : VerifyCashu E)
    (request : Request) where
  open middleware use {Macaroon, macaroon_from_string, parse_l402_header, verify_l402_binding}

  -- The macaroon was verified against the binding of this request, and its preimage claimed, unless the
  -- location allows a preimage to be used again.
  abbrev pub IsPaid : Macaroon → Str → Type 0
  IsPaid mac preimage =
      ((e : E) × (verify_l402_binding mac request.binding root_key preimage e ≡ true))
      × ((request.indefinite_access ≡ true)
          ⊎ ((w : World E) × (handle_preimage_claim
                  (store_preimage_as_used redis hashing ttls preimage request.macaroon_timeout w).1
                ≡ declined)))

  -- How a request may be let through: with the macaroon and preimage of its header, with the macaroon
  -- of its header and a preimage of 32 bytes from the node or the cache of settled invoices, or with a
  -- Cashu token of its header that was verified for the price.
  abbrev pub IsAdmitted : Str → Type 0
  IsAdmitted auth =
      ((mac : Macaroon) × (preimage : Str) × (parse_l402_header auth ≡ some (mac, preimage))
        × IsPaid mac preimage)
      ⊎ ((mac : Macaroon) × (preimage : Str) × (macaroon_from_string
              (trim_start_matches (codes "L402 ") (trim auth))
            ≡ some mac)
          × (request.auto_detect_payment ≡ true)
          × (length preimage ≡ 32)
          × IsPaid mac preimage)
      ⊎ ((w : World E) × ((verify_cashu (trim (trim_start_matches (codes "Cashu ") auth))
              request.amount_msat request.lnurl_addr w).1
            ≡ some (ok tt)))

  -- `declined` only with the evidence.
  abbrev Only : Type 0 → World E × Access → Type 0
  Only P r = r.1 ≡ declined → P

  refuse : {P : Type 0} (n : ℕ) → Ends {S = World E} (Only P) (pure (status n))
  refuse n = Ends-pure (status n) (λ w h. refused h)

  admit-Only :
      (mac : Macaroon) (preimage : Str)
      → Ends
          (Only (IsPaid mac preimage))
          (admit redis hashing ttls middleware root_key verify_cashu request mac preimage)
  unfolding admit
  admit-Only mac preimage = Ends-bind _ _ λ w.
      Ends-if _ _ _
        (λ verified. Ends-bind _ _ λ _.
          Ends-if _ _ _
            (λ indefinite. Ends-pure declined λ _ _. ((w.outside, verified), inl indefinite))
            (λ _. Ends-bind _ _ λ v. Ends-pure _ λ _ h. ((w.outside, verified), inr (v, h))))
        (λ _. refuse 401)

  admit_fresh-Only :
      (mac : Macaroon) (preimage : Str)
      → Ends
          (Only (IsPaid mac preimage))
          (admit_fresh redis hashing ttls middleware root_key verify_cashu request mac preimage)
  unfolding admit_fresh
  admit_fresh-Only mac preimage =
      Ends-bind _ _ λ _. Ends-if _ _ _ (λ _. refuse 401) (λ _. admit-Only mac preimage)

  -- The evidence of the auto-detect path for a macaroon.
  abbrev IsDetected : Macaroon → Type 0
  IsDetected mac = (preimage : Str) × (length preimage ≡ 32) × IsPaid mac preimage

  admit_detected-Only :
      (mac : Macaroon) (preimage : Str)
      → Ends
          (Only (IsDetected mac))
          (admit_detected redis hashing ttls middleware root_key verify_cashu request mac preimage)
  unfolding admit_detected
  admit_detected-Only mac preimage = Ends-bind _ _ λ w.
      Ends-if
        (already_used redis hashing ttls middleware root_key verify_cashu request preimage w).1 _ _
        (λ _. refuse 401)
        (λ _.
          Ends-if (length preimage == 32) _ _
            (λ sized. record {
              at = λ w h. (preimage, (==_iff _ _).0 sized, (admit-Only mac preimage).at w h);
            })
            (λ _. refuse 500))

  resolve_lookup-Only :
      (mac : Macaroon) (hash : Str) (found : Lookup)
      → Ends (Only (IsDetected mac)) (
          resolve_lookup redis hashing ttls middleware root_key verify_cashu request mac hash found)
  unfolding resolve_lookup
  resolve_lookup-Only mac hash (settled preimage) =
      Ends-bind _ _ λ _. admit_detected-Only mac preimage
  resolve_lookup-Only mac hash unsettled = refuse 402
  resolve_lookup-Only mac hash failed = refuse 500
  resolve_lookup-Only mac hash timed_out = refuse 500

  resolve_preimage-Only :
      (mac : Macaroon) (hash : Str) (cached : Option Str)
      → Ends (Only (IsDetected mac)) (
          resolve_preimage redis hashing ttls middleware root_key verify_cashu request mac hash
            cached)
  unfolding resolve_preimage
  resolve_preimage-Only mac hash none = Ends-bind _ _ λ _. resolve_lookup-Only mac hash _
  resolve_preimage-Only mac hash (some cached) = admit_detected-Only mac cached

  detect_macaroon-Only :
      (hash : Str) (mac : Option Macaroon)
      → Ends
          (Only ((m : Macaroon) × (mac ≡ some m) × IsDetected m))
          (detect_macaroon redis hashing ttls middleware root_key verify_cashu request hash mac)
  unfolding detect_macaroon
  detect_macaroon-Only hash none = refuse 401
  detect_macaroon-Only hash (some mac) =
      Ends-bind _ _
        λ _. record { at = λ w h. (mac, refl, (resolve_preimage-Only mac hash _).at w h) }

  detect_hash-Only :
      (token : Str) (hash : Option Str)
      → Ends
          (Only ((m : Macaroon) × (macaroon_from_string token ≡ some m) × IsDetected m))
          (detect_hash redis hashing ttls middleware root_key verify_cashu request token hash)
  unfolding detect_hash
  detect_hash-Only token none = refuse 401
  detect_hash-Only token (some hash) = detect_macaroon-Only hash _

  parsed-Only :
      (parsed : Option (Macaroon × Str))
      → Ends
          (Only (
            (mac : Macaroon) × (preimage : Str) × (parsed ≡ some (mac, preimage))
            × IsPaid mac preimage))
          (admit_parsed redis hashing ttls middleware root_key verify_cashu request parsed)
  unfolding admit_parsed
  parsed-Only none = refuse 401
  parsed-Only (some (mac, preimage)) = record {
    at = λ w h. (mac, preimage, refl, (admit_fresh-Only mac preimage).at w h);
  }

  cashu-Only :
      (verified : Option (Result CashuError (Unit {0})))
      → Ends {S = World E}
          (Only (verified ≡ some (ok tt)))
          (cashu_answer redis hashing ttls middleware root_key verify_cashu verified)
  unfolding cashu_answer
  cashu-Only none = refuse 500
  cashu-Only (some (ok _)) = Ends-bind _ _ λ _. Ends-pure declined λ _ _. refl
  cashu-Only (some (err e)) = refuse _

  credential-Only :
      (auth : Str)
      → Ends
          (Only (IsAdmitted auth))
          (credential redis hashing ttls middleware root_key verify_cashu request (some auth))
  unfolding credential cashu_path l402_path auto_detect classic
  credential-Only auth =
      let token = trim_start_matches (codes "L402 ") (trim auth) in
      Ends-if (starts_with (codes "Cashu ") auth) _ _
        (λ _. Ends-bind _ _ λ w. record { at = λ v h. inr (inr (w, (cashu-Only _).at v h)) })
        (λ _.
          Ends-if (is_l402_scheme auth) _ _
            (λ _.
              Ends-if (request.auto_detect_payment && not (contains_char b':' token)) _ _
                (λ auto. record {
                  at = λ w h.
                      let (mac, named, found) = (detect_hash-Only _ _).at w h in
                      inr (inl (mac, found.0, named, and_left _ _ auto, found.1, found.2));
                })
                (λ _. record { at = λ w h. inl ((parsed-Only _).at w h) }))
            (λ _. refuse 402))

  no_header :
      (w : World E)
      → (credential redis hashing ttls middleware root_key verify_cashu request none w).1 ≡ declined
      → status 402 ≡ declined
  unfolding credential ◌>>=◌
  no_header w h = h

  pub admission_sound :
      (w : World E)
      → (l402_access_handler redis hashing ttls middleware root_key verify_cashu request w).1
        ≡ declined
      → (auth : Str) × (request.auth_header ≡ some auth) × IsAdmitted auth
  unfolding l402_access_handler
  admission_sound w = ends.at w
    where
      by_header :
          (header : Option Str)
          → request.auth_header ≡ header
          → Ends
              (Only ((auth : Str) × (request.auth_header ≡ some auth) × IsAdmitted auth))
              (credential redis hashing ttls middleware root_key verify_cashu request header)
      by_header none e = record { at = λ v h. refused (no_header v h) }
      by_header (some auth) e = record { at = λ v h. (auth, e, (credential-Only auth).at v h) }

      ends :
          Ends
            (Only ((auth : Str) × (request.auth_header ≡ some auth) × IsAdmitted auth))
            (l402_access_handler redis hashing ttls middleware root_key verify_cashu request)
      ends =
          Ends-bind _ _ λ _.
            Ends-bind _ _ λ v. Ends-if v.module_set _ _ (λ _. by_header _ refl) (λ _. refuse 500)

  Verified : Str → Type 0
  Verified auth =
      (w : World E) × ((verify_cashu (trim (trim_start_matches (codes "Cashu ") auth))
          request.amount_msat request.lnurl_addr w).1
        ≡ some (ok tt))

  cashu_credential-Only :
      (auth : Str) (header : Option Str)
      → starts_with (codes "Cashu ") auth ≡ true
      → header ≡ some auth
      → Ends
          (Only (Verified auth))
          (credential redis hashing ttls middleware root_key verify_cashu request header)
  unfolding credential cashu_path Verified
  cashu_credential-Only auth none named e = absurd (cc)
  cashu_credential-Only auth (some other) named e =
      Ends-if (starts_with (codes "Cashu ") other) _ _
        (λ _.
          Ends-bind _ _ λ w. record {
            at = λ v h. subst Verified (option_payload e) (w, (cashu-Only _).at v h);
          })
        (λ unnamed.
          absurd (
            false≢true
              (sym unnamed ∙ ap (starts_with (codes "Cashu ")) (option_payload e) ∙ named)))
    where
      option_payload : {a b : Str} → ◌≡◌ {A = Option Str} (some a) (some b) → a ≡ b
      option_payload k = cc

  -- A request with a Cashu token is let through only if the token was verified.
  pub cashu_admission :
      (auth : Str) (w : World E)
      → request.auth_header ≡ some auth
      → starts_with (codes "Cashu ") auth ≡ true
      → (l402_access_handler redis hashing ttls middleware root_key verify_cashu request w).1
        ≡ declined
      → (v : World E) × ((verify_cashu
            (trim (trim_start_matches (codes "Cashu ") auth))
            request.amount_msat
            request.lnurl_addr
            v).1
          ≡ some (ok tt))
  unfolding l402_access_handler Verified
  cashu_admission auth w header named =
      (Ends-bind _ _ λ _. Ends-bind _ _ λ v.
          Ends-if v.module_set _ _ (λ _. cashu_credential-Only auth _ named header)
            (λ _. refuse 500)).at
        w
