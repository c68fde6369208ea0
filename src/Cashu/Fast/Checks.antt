-- ===== src/Cashu/Fast/Checks.antt =====
-- src/cashu.rs: the checks of the proofs, by `verify_cashu_token_p2pk`.
use ngx_l.Base.{
  ◌≡◌, refl, ◌⊎◌, inl, inr, Bool, true, false, Option, none, some, List, [], ◌∷◌, if◌then◌else◌,
  Bool-cases, all, All,
}
use ngx_l.Text.{Str}
use ngx_l.Outcome.{and_then, and_then-eq-ok, Result, ok, err, map_err, ok_or}
use ngx_l.Outcome.Fallible.{
  AnyState, anyway, of_result, failing, Ensures, Ensures-succeed, map_err-eq-ok, ok_or-eq-some,
  guard-eq-ok, payload,
}
use ngx_l.World.{World, Wallet}
use ngx_l.Redis.{Redis}
use ngx_l.Replay.{Hashing, Ttls}
use ngx_l.CashuError.{
  Message, internal, bad_credential, unacceptable, no_keys_for_keyset, dleq_failed, missing_dleq,
}
use ngx_l.Cdk.{Cdk, KeySet, State, is_unspent}
use ngx_l.Dleq.{DleqCheck, admitted_without_dleq, verify_with_key, verify_proof_dleq_offline}
use ngx_l.P2pk.{verify_permanent_p2pk_lock}
use ngx_l.P2pk.Locks.{IsPermanent, verify_permanent_p2pk_lock_iff}
use ngx_l.Cashu.{Settings, try_call}
use ngx_l.Cashu.Fast.{server_key, check_locks, find_keyset, proof_key, check_dleqs, check_proofs}

module _ {E : Type 0} (redis : Redis E) (hashing : Hashing) (ttls : Ttls) (cdk : Cdk E)
    (settings : Settings) where
  open cdk use {
    Token, Proof, Key, token_from_str, value, unit, mint_url, proofs, has_dleq, verify_dleq,
    keyset_id, amount,
  }

  -- A proof that the mint's own key for its keyset and amount signed, as its DLEQ shows. Without a DLEQ it
  -- passes only where the operator allows that.
  pub record IsShown (keysets : List (KeySet Key)) (proof : Proof) : Type 0 where
    pub carries : has_dleq proof ≡ true
    pub keyset : KeySet Key
    pub found : find_keyset redis hashing ttls cdk settings (keyset_id proof) keysets ≡ some keyset
    pub key : Key
    pub keyed : keyset.amount_key (amount proof) ≡ some key
    pub verified : verify_dleq proof key ≡ ok tt

  abbrev pub IsSigned : List (KeySet Key) → Proof → Type 0
  IsSigned keysets proof =
      IsShown keysets proof ⊎ ((has_dleq proof ≡ false) × (settings.require_dleq ≡ false))

  check_locks-All :
      (ps : List Proof)
      → check_locks redis hashing ttls cdk settings ps ≡ ok tt
      → All (IsPermanent cdk) ps
  unfolding check_locks
  check_locks-All [] h = tt
  check_locks-All (p ∷ ps) h =
      let (_, e, rest) =
        and_then-eq-ok (map_err unacceptable (verify_permanent_p2pk_lock cdk p)) _ h in
      ((verify_permanent_p2pk_lock_iff cdk p).0 (map_err-eq-ok _ _ e), check_locks-All ps rest)

  -- A key that was resolved, and what was checked with it.
  with_key :
      (keysets : List (KeySet Key)) (p : Proof) (key : Option Key) (check : DleqCheck)
      → has_dleq p ≡ true
      → and_then
          (ok_or
            (internal (no_keys_for_keyset (keyset_id p)))
            (find_keyset redis hashing ttls cdk settings (keyset_id p) keysets))
          (λ k. ok (k.amount_key (amount p)))
        ≡ ok key
      → verify_with_key cdk p key ≡ ok check
      → IsShown keysets p
  unfolding verify_with_key
  with_key keysets p none check e h k = absurd (cc)
  with_key keysets p (some key) check e h k =
      let (keyset, found, keyed) =
        and_then-eq-ok (ok_or _ (find_keyset redis hashing ttls cdk settings (keyset_id p) keysets))
          _ h in
      let (u, checked, _) = and_then-eq-ok (map_err dleq_failed (verify_dleq p key)) _ k in
      record {
        carries = e;
        keyset = keyset;
        found = ok_or-eq-some _ _ found;
        key = key;
        keyed = payload keyed;
        verified = map_err-eq-ok _ _ checked;
      }

  without :
      (required : Bool) (check : DleqCheck)
      → ◌≡◌ {A = Result Message DleqCheck}
          (if required then err missing_dleq else ok admitted_without_dleq)
          (ok check)
      → required ≡ false
  without true check h = absurd (cc)
  without false check h = refl

  signed :
      (keysets : List (KeySet Key)) (p : Proof) (key : Option Key) (check : DleqCheck)
      → proof_key redis hashing ttls cdk settings keysets p ≡ ok key
      → verify_proof_dleq_offline cdk p key settings.require_dleq ≡ ok check
      → IsSigned keysets p
  unfolding proof_key verify_proof_dleq_offline
  signed keysets p key check h k = elim (Bool-cases (has_dleq p)) [
    | inl e ↦ inl (with_key keysets p key check e (rw e at h) (rw e at k))
    | inr e ↦ inr (e, without settings.require_dleq check (rw e at k))
  ]

  check_dleqs-All :
      (keysets : List (KeySet Key)) (ps : List Proof)
      → check_dleqs redis hashing ttls cdk settings keysets ps ≡ ok tt
      → All (IsSigned keysets) ps
  unfolding check_dleqs
  check_dleqs-All keysets [] h = tt
  check_dleqs-All keysets (p ∷ ps) h =
      let (key, keyed, h2) =
        and_then-eq-ok (proof_key redis hashing ttls cdk settings keysets p) _ h in
      let (check, checked, h3) =
        and_then-eq-ok
          (map_err bad_credential (verify_proof_dleq_offline cdk p key settings.require_dleq)) _
          h2 in
      (signed keysets p key check keyed (map_err-eq-ok _ _ checked), check_dleqs-All keysets ps h3)

  -- What the checks of the proofs give, with the key of the server.
  pub record IsChecked (decoded : Token) (wallet : Wallet) (keysets : List (KeySet Key))
      (ps : List Proof) (lock : Str) : Type 0 where
    pub server : server_key redis hashing ttls cdk settings ≡ ok lock
    pub permanent : All (IsPermanent cdk) ps
    pub signatures : All (IsSigned keysets) ps
    pub lock_asked : World E
    pub locked_to_us : (try_call (cdk.verify_token_p2pk wallet decoded lock) lock_asked).1 ≡ ok tt
    pub states : List State
    pub states_asked : World E
    pub answered : (try_call (cdk.check_proofs_spent wallet ps) states_asked).1 ≡ ok states
    pub all_unspent : all is_unspent states ≡ true

  pub check_proofs-IsChecked :
      (decoded : Token) (wallet : Wallet) (keysets : List (KeySet Key)) (ps : List Proof)
      (key : Str)
      → Ensures AnyState
          (λ _ lock. IsChecked decoded wallet keysets ps lock)
          (check_proofs redis hashing ttls cdk settings wallet decoded keysets ps key)
  unfolding check_proofs failing of_result
  check_proofs-IsChecked decoded wallet keysets ps key = anyway _ _ (λ _ _ _.
      anyway _ _ (λ _ lock server. anyway _ _ (λ s1 _ e1. anyway _ _ (λ _ _ e2.
        anyway _ _ (λ _ _ e3. anyway _ _ (λ s4 states e4. anyway _ _ (λ s5 _ e5.
          Ensures-succeed lock (λ _ _. record {
            server = server;
            permanent = check_locks-All ps e2;
            signatures = check_dleqs-All keysets ps e3;
            lock_asked = s1;
            locked_to_us = map_err-eq-ok _ _ e1;
            states = states;
            states_asked = s4;
            answered = map_err-eq-ok _ _ e4;
            all_unspent = guard-eq-ok _ _ s5 _ e5;
          }))))))))
