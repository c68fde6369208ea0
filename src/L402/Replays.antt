-- ===== src/L402/Replays.antt =====
-- src/lib.rs: several requests that show one preimage.
use ngx_l.Base.{
  ◌≡◌, ap, ◌∙◌, ◌≢◌, inl, inr, Bool, true, false, not, ◌&&◌, none, some, List, [], ◌∷◌,
  if◌then◌else◌, Bool-cases, is_some, first,
}
use ngx_l.Text.{Str, codes, trim, trim_start_matches, starts_with, contains_char}
use ngx_l.Outcome.{Action, pure, ◌>>=◌}
use ngx_l.World.{World, lightning}
use ngx_l.Redis.{Redis}
use ngx_l.Redis.Laws.{
  HoldsKey, IsHeld, SameWorker, SameWorker-refl, SameWorker-call, SameWorker-redis_pool,
  with_pool_elim,
}
use ngx_l.Replay.{Access, declined, status, Hashing, Ttls, preimage_redis_key, is_preimage_used}
use ngx_l.Replay.Once.{store_marks, spent_refused}
use ngx_l.L402Header.{is_l402_scheme}
use ngx_l.L402.{
  Middleware, Request, VerifyCashu, admit, already_used, admit_fresh, classic, admit_parsed,
  l402_path, credential, l402_access_handler,
}
use ngx_l.L402.SingleUse.{OthersKeep, handler-Keeps, already_used-Keeps}

-- A request on the classic path that shows this preimage, at a location that asks for a fresh one.
pub record Shows {E : Type 0} (middleware : Middleware E) (preimage : Str) (request : Request)
    : Type 0 where
  pub auth : Str
  pub mac : middleware.Macaroon
  pub present : request.auth_header ≡ some auth
  pub not_cashu : starts_with (codes "Cashu ") auth ≡ false
  pub is_l402 : is_l402_scheme auth ≡ true
  pub not_detected :
      request.auto_detect_payment
        && not (contains_char b':' (trim_start_matches (codes "L402 ") (trim auth)))
      ≡ false
  pub parsed : middleware.parse_l402_header auth ≡ some (mac, preimage)
  pub single : request.indefinite_access ≡ false

module _ {E : Type 0} (redis : Redis E) (hashing : Hashing) (ttls : Ttls)
    (middleware : Middleware E) (root_key : Str) (verify_cashu : VerifyCashu E) where
  open middleware use {Macaroon}

  abbrev pub handle : Request → Action (World E) Access
  handle = l402_access_handler redis hashing ttls middleware root_key verify_cashu

  -- The state after some requests.
  pub traffic : List Request → World E → World E
  traffic [] w = w
  traffic (r ∷ requests) w = traffic requests (handle r w).0

  -- Such a request is decided by `admit_fresh`.
  shown_path :
      (preimage : Str) (request : Request) (s : Shows middleware preimage request)
      → credential redis hashing ttls middleware root_key verify_cashu request request.auth_header
        ≡ admit_fresh redis hashing ttls middleware root_key verify_cashu request s.mac preimage
  unfolding credential l402_path classic admit_parsed
  shown_path preimage request s = rw (s.present, s.not_cashu, s.is_l402, s.not_detected, s.parsed)

  gate_only :
      (P : World E → Type 0) (b : Bool) (m : Action (World E) Access) (v : World E)
      → ((m v).1 ≡ declined → P (m v).0)
      → ((if b then m else pure (status 500)) v).1 ≡ declined
      → P ((if b then m else pure (status 500)) v).0
  unfolding ◌>>=◌
  gate_only P true m v h = h
  gate_only P false m v h = λ a. absurd (cc)

  already_used-same :
      (request : Request) (p : Str) (w : World E)
      → SameWorker w
          (already_used redis hashing ttls middleware root_key verify_cashu request p w).0
  unfolding already_used is_preimage_used ◌>>=◌
  already_used-same request p w = elim (Bool-cases request.indefinite_access) [
    | inl e ↦ rw e (SameWorker-refl w)
    | inr e ↦ rw e (
        with_pool_elim redis {P = SameWorker w} (λ r. SameWorker w r.0) _ _ _
          (SameWorker-redis_pool w redis) (SameWorker-call w redis.get_conn) (λ v h. h) (λ v h. h)
          (λ v h. (SameWorker-call w (redis.key_exists _)).at v h) w (SameWorker-refl w))
  ]

  module _ (preimage : Str) {Held : E → Type 0}
      (laws : HoldsKey redis (preimage_redis_key redis hashing ttls preimage) Held)
      (others : OthersKeep redis hashing ttls middleware root_key verify_cashu Held) where
    admit_marks :
        (request : Request) (mac : Macaroon) (w : World E)
        → request.indefinite_access ≡ false
        → is_some w.redis_url ≡ true
        → (admit redis hashing ttls middleware root_key verify_cashu request mac preimage w).1
          ≡ declined
        → IsHeld Held
            (admit redis hashing ttls middleware root_key verify_cashu request mac preimage w).0
    unfolding admit ◌>>=◌
    admit_marks request mac w single h =
        elim (Bool-cases
          (middleware.verify_l402_binding mac request.binding root_key preimage w.outside)) [
            | inl v ↦
                rw (v, single)
                  (λ a.
                    store_marks redis hashing ttls preimage request.macaroon_timeout laws
                      (record w { last_payment_method = some lightning }) h a)
            | inr v ↦ rw v (λ a. cc)
          ]

    admit_refuses :
        (request : Request) (mac : Macaroon) (w : World E)
        → request.indefinite_access ≡ false
        → IsHeld Held w
        → (admit redis hashing ttls middleware root_key verify_cashu request mac preimage w).1
          ≢ declined
    unfolding admit ◌>>=◌
    admit_refuses request mac w single h =
        elim (Bool-cases
          (middleware.verify_l402_binding mac request.binding root_key preimage w.outside)) [
            | inl v ↦
                rw (v, single)
                  (spent_refused redis hashing ttls preimage request.macaroon_timeout laws
                    (record w { last_payment_method = some lightning })
                    (record { configured = h.configured; held = h.held }))
            | inr v ↦ rw v (λ a. cc)
          ]

    admit_fresh_marks :
        (request : Request) (mac : Macaroon) (w : World E)
        → request.indefinite_access ≡ false
        → is_some w.redis_url ≡ true
        → (admit_fresh redis hashing ttls middleware root_key verify_cashu request mac preimage w).1
          ≡ declined
        → IsHeld Held
            (admit_fresh redis hashing ttls middleware root_key verify_cashu request mac preimage
              w).0
    unfolding admit_fresh ◌>>=◌
    admit_fresh_marks request mac w single h =
        let tested =
          already_used redis hashing ttls middleware root_key verify_cashu request preimage w in
        let same = already_used-same request preimage w in
        elim (Bool-cases tested.1) [
          | inl u ↦ rw u (λ a. cc)
          | inr u ↦ rw u (admit_marks request mac tested.0 single (ap is_some same.same_url ∙ h))
        ]

    admit_fresh_refuses :
        (request : Request) (mac : Macaroon) (w : World E)
        → request.indefinite_access ≡ false
        → IsHeld Held w
        → (admit_fresh redis hashing ttls middleware root_key verify_cashu request mac preimage w).1
          ≢ declined
    unfolding admit_fresh ◌>>=◌
    admit_fresh_refuses request mac w single h =
        let tested =
          already_used redis hashing ttls middleware root_key verify_cashu request preimage w in
        elim (Bool-cases tested.1) [
          | inl u ↦ rw u (λ a. cc)
          | inr u ↦ rw u (
              admit_refuses request mac tested.0 single (
                (already_used-Keeps redis hashing ttls middleware root_key verify_cashu preimage
                    laws others request preimage).at
                  w h))
        ]

    handler_marks :
        (request : Request) (w : World E)
        → Shows middleware preimage request
        → is_some w.redis_url ≡ true
        → (handle request w).1 ≡ declined
        → IsHeld Held (handle request w).0
    unfolding l402_access_handler ◌>>=◌
    handler_marks request w s h = rw (shown_path preimage request s) (
        gate_only (IsHeld Held) w.module_set _ (record w { last_payment_method = none })
          (admit_fresh_marks request s.mac (record w { last_payment_method = none }) s.single h))

    handler_refuses :
        (request : Request) (w : World E)
        → Shows middleware preimage request
        → IsHeld Held w
        → (handle request w).1 ≢ declined
    unfolding l402_access_handler ◌>>=◌
    handler_refuses request w s h = rw (shown_path preimage request s) (
        gate_only (λ _. ⊥) w.module_set _ (record w { last_payment_method = none })
          (admit_fresh_refuses request s.mac (record w { last_payment_method = none }) s.single
            (record { configured = h.configured; held = h.held })))

    traffic_keeps :
        (requests : List Request) (w : World E) → IsHeld Held w → IsHeld Held (traffic requests w)
    unfolding traffic
    traffic_keeps [] w h = h
    traffic_keeps (r ∷ requests) w h = traffic_keeps requests (handle r w).0 (
        (handler-Keeps redis hashing ttls middleware root_key verify_cashu preimage laws others
            r).at
          w h)

    -- With Redis configured, and keeping a stored key that no outside call removes: once a request on the
    -- classic path that shows a preimage was let through by a location without indefinite access, no
    -- later one that shows it there is, with whatever macaroon and route, and whatever requests are
    -- served in between.
    pub single_use :
        (first again : Request) (between : List Request) (w : World E)
        → Shows middleware preimage first
        → Shows middleware preimage again
        → is_some w.redis_url ≡ true
        → (handle first w).1 ≡ declined
        → (handle again (traffic between (handle first w).0)).1 ≢ declined
    single_use first again between w s s' h a =
        handler_refuses again (traffic between (handle first w).0) s'
          (traffic_keeps between (handle first w).0 (handler_marks first w s h a))
