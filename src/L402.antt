-- ===== src/L402.antt =====
-- src/lib.rs: `l402_access_handler`, which decides one request from its credential.
-- Macaroons, their verification (`l402_middleware`) and the Lightning node are a parameter; so is the
-- verification of a Cashu token (`L402Module::verify_cashu_token`).
pub mod Admission
pub mod SingleUse
pub mod Replays
pub mod Method
use ngx_l.Base.{
  ℕ, zero, suc, ◌+◌, ◌-◌, ◌*◌, ◌/◌, ◌%◌, ◌^◌, ◌≤◌, ◌<◌, min, max, ◌≡◌, refl, sym, ap, ◌∙◌, ◌≡⟨◌⟩◌,
  ◌∎, ◌≢◌, ◌↔◌, ◌⊎◌, inl, inr, Bool, true, false, not, ◌&&◌, ◌||◌, false≢true, Option, none, some,
  List, [], ◌∷◌, ◌++◌, map, append_assoc, append-nil, arith, ltb, leb, ◌==◌, if◌then◌else◌, leb→le,
  ==_iff, ==-refl, Bool-cases, Option-cases, ℤ, pos, negsuc, is_positive, is_negative, as_u64,
  is_some, unwrap_or, or_option, length, all, any, is_empty, first, length-append, All, All-append,
}
use ngx_l.Text.{
  Str, codes, trim, trim_start, trim_start_matches, starts_with, contains_char, before, get_to,
  eq_ignore_ascii_case,
}
use ngx_l.Outcome.{Result, ok, err, Action, pure, ◌>>=◌, ◌>>◌}
use ngx_l.World.{World, call, PaymentMethod, lightning, cashu}
use ngx_l.Redis.{Redis}
use ngx_l.Replay.{
  Access, declined, status, Hashing, Ttls, is_preimage_used, store_preimage_as_used,
  handle_preimage_claim, get_cached_settled_preimage, cache_settled_preimage,
}
use ngx_l.L402Header.{is_l402_scheme}
use ngx_l.CashuError.{CashuError, http_status}

-- `caveats::RequestBinding`: the scope that a macaroon is bound to, and the method.
pub data RequestBinding : Type 0 where
  realm path : Str → Str → RequestBinding

unfoldable pub request_binding : Option Str → Str → Str → RequestBinding
request_binding none request_path request_method = path request_path request_method
request_binding (some name) request_path request_method = realm name request_method

-- The answer of `lookup_invoice` under its timeout.
pub data Lookup : Type 0 where
  settled : Str → Lookup
  unsettled failed timed_out : Lookup

-- `l402_middleware`: `get_macaroon_from_string`, `identifier`, `parse_l402_header`,
-- `verify_l402_binding` with the root key, which reads the clock, and `lookup_invoice` of the node.
pub record Middleware (E : Type 0) : Type 1 where
  pub Macaroon : Type 0
  pub macaroon_from_string : Str → Option Macaroon
  pub identifier : Macaroon → Str
  pub parse_l402_header : Str → Option (Macaroon × Str)
  pub verify_l402_binding : Macaroon → RequestBinding → Str → Str → E → Bool
  pub lookup_invoice : Str → Action E Lookup

-- The loop of `skip_while(|&b| b == 0xff)`.
unfoldable pub skip_ff : Str → Str
skip_ff [] = []
skip_ff (b ∷ s) = if b == 0xff then skip_ff s else b ∷ s

-- The payment hash of an identifier: 32 bytes, with or without the version byte 0xff.
unfoldable pub payment_hash_of_identifier : Str → Option Str
unfolding skip_ff
payment_hash_of_identifier [] = none
payment_hash_of_identifier (b ∷ id) =
    if length (b ∷ id) == 33 && b == 0xff
    then some id
    else if length (b ∷ id) == 32
    then some (b ∷ id)
    else if length (skip_ff (b ∷ id)) == 32
    then some (skip_ff (b ∷ id))
    else none

-- What a request gives the handler: its credential, the price, the binding, and the settings of its
-- location.
pub record Request : Type 0 where
  pub auth_header : Option Str
  pub amount_msat : ℤ
  pub binding : RequestBinding
  pub lnurl_addr : Option Str
  pub auto_detect_payment : Bool
  pub indefinite_access : Bool
  pub macaroon_timeout : ℤ

-- `none` is a panic in the verification, which the handler catches.
abbrev pub VerifyCashu : Type 0 → Type 0
VerifyCashu E = Str → ℤ → Option Str → Action (World E) (Option (Result CashuError (Unit {0})))

module _ {E : Type 0} where
  abbrev pub module_ready : Action (World E) Bool
  module_ready w = (w, w.module_set)

  abbrev pub set_payment_method : Option PaymentMethod → Action (World E) (Unit {0})
  set_payment_method m w = (record w { last_payment_method = m }, tt)

module _ {E : Type 0} (redis : Redis E) (hashing : Hashing) (ttls : Ttls)
    (middleware : Middleware E) (root_key : Str) (verify_cashu : VerifyCashu E) where
  open middleware use {
    Macaroon, macaroon_from_string, identifier, parse_l402_header, verify_l402_binding,
    lookup_invoice,
  }

  unfoldable pub extract_payment_hash_from_auth_str : Str → Option Str
  extract_payment_hash_from_auth_str auth =
      let token =
        trim_start_matches (codes "Bearer ") (trim_start_matches (codes "L402 ") (trim auth)) in
      elim (macaroon_from_string (before b':' token)) [
        | none ↦ none
        | some mac ↦ payment_hash_of_identifier (identifier mac)
      ]

  abbrev pub verified_now : Macaroon → RequestBinding → Str → Action (World E) Bool
  verified_now mac binding preimage w =
      (w, verify_l402_binding mac binding root_key preimage w.outside)

  -- Steps 4 and 5, and the body of the classic path: the early replay check, the verification, and the
  -- claim of the preimage.
  unfoldable pub admit : Request → Macaroon → Str → Action (World E) Access
  admit request mac preimage = do
    verified ← verified_now mac request.binding preimage
    if verified
        then (do
          set_payment_method (some lightning)
          if request.indefinite_access then pure declined else do
            claimed ← store_preimage_as_used redis hashing ttls preimage request.macaroon_timeout
            pure (handle_preimage_claim claimed))
        else pure (status 401)

  -- The early check is skipped where a preimage may be used again.
  unfoldable pub already_used : Request → Str → Action (World E) Bool
  already_used request preimage =
      if request.indefinite_access then pure false else is_preimage_used redis hashing ttls preimage

  unfoldable pub admit_fresh : Request → Macaroon → Str → Action (World E) Access
  admit_fresh request mac preimage = do
    used ← already_used request preimage
    if used then pure (status 401) else admit request mac preimage

  -- The preimage must have 32 bytes, which is tested after the replay check.
  unfoldable pub admit_detected : Request → Macaroon → Str → Action (World E) Access
  admit_detected request mac preimage = do
    used ← already_used request preimage
    if used
        then pure (status 401)
        else (if length preimage == 32 then admit request mac preimage else pure (status 500))

  -- The node's answer, where the preimage is not cached.
  unfoldable pub resolve_lookup : Request → Macaroon → Str → Lookup → Action (World E) Access
  resolve_lookup request mac payment_hash (settled preimage) = do
    cache_settled_preimage redis hashing ttls payment_hash preimage
    admit_detected request mac preimage
  resolve_lookup request mac payment_hash unsettled = pure (status 402)
  resolve_lookup request mac payment_hash failed = pure (status 500)
  resolve_lookup request mac payment_hash timed_out = pure (status 500)

  unfoldable pub resolve_preimage : Request → Macaroon → Str → Option Str → Action (World E) Access
  resolve_preimage request mac payment_hash (some cached) = admit_detected request mac cached
  resolve_preimage request mac payment_hash none = do
    found ← call (lookup_invoice payment_hash)
    resolve_lookup request mac payment_hash found

  unfoldable pub detect_macaroon : Request → Str → Option Macaroon → Action (World E) Access
  detect_macaroon request payment_hash none = pure (status 401)
  detect_macaroon request payment_hash (some mac) = do
    cached ← get_cached_settled_preimage redis hashing ttls payment_hash
    resolve_preimage request mac payment_hash cached

  unfoldable pub detect_hash : Request → Str → Option Str → Action (World E) Access
  detect_hash request token none = pure (status 401)
  detect_hash request token (some payment_hash) =
      detect_macaroon request payment_hash (macaroon_from_string token)

  -- The auto-detect path: `L402 <macaroon>`, with no preimage.
  unfoldable pub auto_detect : Request → Str → Str → Action (World E) Access
  auto_detect request auth token =
      detect_hash request token (extract_payment_hash_from_auth_str auth)

  unfoldable pub admit_parsed : Request → Option (Macaroon × Str) → Action (World E) Access
  admit_parsed request none = pure (status 401)
  admit_parsed request (some (mac, preimage)) = admit_fresh request mac preimage

  -- The classic path: `L402 <macaroon>:<preimage>`.
  unfoldable pub classic : Request → Str → Action (World E) Access
  classic request auth = admit_parsed request (parse_l402_header auth)

  unfoldable pub cashu_answer : Option (Result CashuError (Unit {0})) → Action (World E) Access
  cashu_answer none = pure (status 500)
  cashu_answer (some (ok _)) = do set_payment_method (some cashu); pure declined
  cashu_answer (some (err e)) = pure (status (http_status e))

  unfoldable pub cashu_path : Request → Str → Action (World E) Access
  cashu_path request auth = do
    verified ←
        verify_cashu (trim (trim_start_matches (codes "Cashu ") auth)) request.amount_msat
          request.lnurl_addr
    cashu_answer verified

  unfoldable pub l402_path : Request → Str → Action (World E) Access
  l402_path request auth =
      let token = trim_start_matches (codes "L402 ") (trim auth) in
      if request.auto_detect_payment && not (contains_char b':' token)
      then auto_detect request auth token
      else classic request auth

  unfoldable pub credential : Request → Option Str → Action (World E) Access
  credential request none = pure (status 402)
  credential request (some auth) =
      if starts_with (codes "Cashu ") auth
      then cashu_path request auth
      else if is_l402_scheme auth
      then l402_path request auth
      else pure (status 402)

  unfoldable pub l402_access_handler : Request → Action (World E) Access
  l402_access_handler request = do
    set_payment_method none
    ready ← module_ready
    if ready then credential request request.auth_header else pure (status 500)
