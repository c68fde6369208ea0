-- ===== src/Cashu/Fast/Once.antt =====
-- src/cashu.rs: which proofs `verify_cashu_token_p2pk` accepts while Redis keeps the claims.
use ngx_l.Cashu.Fast.{CashuError}
use ngx_l.Cashu.{Fallible}
use ngx_l.Base.{◌≡◌, sym, ap, ◌≢◌, Option, some, List, ℤ, leb, as_u64}
use std.Path.{subst}
use mathlib.Core.List.{Perm}
use mathlib.Core.Logic.{∥∥₁_elim}
use mathlib.Core.HLevel.{⊥_prop}
use ngx_l.Text.{Str, codes}
use ngx_l.Outcome.{and_then-eq-ok, ok, Action, map_err}
use ngx_l.Outcome.Keeps.{Keeps}
use ngx_l.Outcome.Fallible.{
  Fallible, of_result, guard, failing, ◌>>=◌, ◌>>◌, Ensures, Ensures-bind, Ensures-step, payload,
  Keeps-of_result, Keeps-failing, Keeps-guard,
}
use ngx_l.Outcome.Traces.{Traces, Traces-step, Traces-end, Traces-result}
use ngx_l.CashuError.{
  CashuError, bad_credential, unacceptable, internal, failed_to_decode, failed_to_extract_proofs,
  failed_to_load_keysets, failed_to_compute_y, wallet_failed, invalid_mint_url, insufficient,
}
use ngx_l.Cashu.Verify.{sharing, refuse_seen, refuse_stored, token_amount, token_mint}
use ngx_l.Cashu.Tenants.{proof_infos}
use ngx_l.World.{World, Wallet}
use ngx_l.Redis.{Redis}
use ngx_l.Redis.Laws.{HoldsKey, IsHeld}
use ngx_l.Replay.{Hashing, Ttls, cashu_token_redis_key}
use ngx_l.Cdk.{Cdk, KeySet, ProofInfo, unspent}
use ngx_l.Cashu.{Settings, keyset_infos, get_or_create_wallet}
use ngx_l.Cashu.Fast.{
  join, y_values, replay_key, check_proofs, listed_mint, proof_replay_key, store_proofs,
  accept_proofs, verify_cashu_token_p2pk,
}
use ngx_l.Cashu.Fast.Sorting.{sort_unstable-Permᴰ}
use ngx_l.Cashu.Frame.{
  Frame, refuse_seen-Keeps, refuse_stored-Keeps, try_call-Keeps, get_or_create_wallet-Keeps,
  check_proofs-Keeps,
}
use ngx_l.Cashu.Fast.Claims.{
  CdkKeeps, IsConfigured, IsConfigured-frame, IsHeld-frame, claim_proofs-Refused,
  store_proofs-Ensures,
}

module _ {E : Type 0} (redis : Redis E) (hashing : Hashing) (ttls : Ttls) (cdk : Cdk E)
    (settings : Settings) where
  open cdk use {Token, Proof, Key, token_from_str}

  -- The first steps of `accept_proofs`, up to the points of the proofs.
  abbrev read_points : Token → Wallet → Fallible (World E) CashuError (List Str)
  read_points decoded wallet = do
    keysets ← sharing (λ e. internal (failed_to_load_keysets e)) (cdk.keysets wallet)
    proofs ← of_result (
        map_err (λ e. bad_credential (failed_to_extract_proofs e))
          (cdk.proofs (keyset_infos keysets) decoded))
    of_result (y_values redis hashing ttls cdk settings proofs)

  -- The first steps of `verify_cashu_token_p2pk`, up to the points of the proofs that it then claims.
  abbrev pub presented : Str → ℤ → Fallible (World E) CashuError (List Str)
  presented token amount_msat = do
    refuse_seen redis hashing ttls cdk settings token
    refuse_stored redis hashing ttls cdk settings token
    decoded ← of_result (map_err (λ e. bad_credential (failed_to_decode e)) (token_from_str token))
    mint ← of_result (token_mint redis hashing ttls cdk settings decoded)
    of_result (map_err (λ e. unacceptable (invalid_mint_url e)) (cdk.mint_url_from_str mint))
    of_result (listed_mint redis hashing ttls cdk settings mint)
    total ← of_result (token_amount redis hashing ttls cdk settings decoded)
    guard (leb (as_u64 amount_msat) total.1)
        (unacceptable (insufficient total.1 (as_u64 amount_msat)))
    wallet ← failing (λ e. internal (wallet_failed e)) (get_or_create_wallet cdk mint total.0)
    read_points decoded wallet

  -- Run from this state, the verification of the token reads these points.
  abbrev pub Presents : Str → ℤ → World E → List Str → Type 0
  Presents token amount_msat w points = (presented token amount_msat w).1 ≡ ok points

  abbrev hash_of : List Str → Str
  hash_of = replay_key redis hashing ttls cdk settings

  -- To show something of an accepted token and its points, show it for the last step.
  module _ {P : World E → Type 0} (frame : Frame redis hashing cdk P)
      (Q : World E → List Str → Type 0) (token : Str) (route : Option Str)
      (last : (points : List Str) (ps : List Proof) (infos : List (ProofInfo Proof))
        → Ensures P
            (λ s _. Q s points)
            (store_proofs redis hashing ttls cdk settings token
              (hash_of points)
              ps
              infos
              route)) where
    key_points :
        (ps : List Proof) (key : Str)
        → proof_replay_key redis hashing ttls cdk settings ps ≡ ok key
        → (points : List Str) × (y_values redis hashing ttls cdk settings ps ≡ ok points)
          × (hash_of points ≡ key)
    unfolding proof_replay_key
    key_points ps key h =
        let (points, e, k) = and_then-eq-ok (y_values redis hashing ttls cdk settings ps) _ h in
        (points, e, payload k)

    accept_proofs-Traces :
        (decoded : Token) (wallet : Wallet)
        → Traces P Q
            (accept_proofs redis hashing ttls cdk settings token decoded route wallet)
            (read_points decoded wallet)
    unfolding accept_proofs of_result
    accept_proofs-Traces decoded wallet =
        Traces-step _ _ _
          (Keeps-failing _ _
            (try_call-Keeps redis hashing ttls cdk settings frame _ (frame.keysets wallet)))
          (λ _ _ keysets _. Traces-step _ _ _ (Keeps-of_result _) (λ _ _ ps _. claimed keysets ps))
      where
        claimed :
            (keysets : List (KeySet Key)) (ps : List Proof)
            → Traces P Q
                (of_result (proof_replay_key redis hashing ttls cdk settings ps) >>= (λ key. do
                  lock ← check_proofs redis hashing ttls cdk settings wallet decoded keysets ps key
                  infos ← of_result (
                      map_err
                        (λ e. internal (failed_to_compute_y e))
                        (proof_infos redis hashing cdk settings wallet unspent (some lock) ps))
                  store_proofs redis hashing ttls cdk settings token key ps infos route))
                (of_result (y_values redis hashing ttls cdk settings ps))
        claimed keysets ps = Traces-result _ _ _ (λ key keyed.
            let (points, pointed, same) = key_points ps key keyed in
            Traces-end _ _ points pointed (
              Ensures-step _ _
                (check_proofs-Keeps redis hashing ttls cdk settings frame wallet decoded keysets ps
                  key)
                (λ _ _ lock _. Ensures-step _ _ (Keeps-of_result _) (λ _ _ infos _.
                  subst
                    (λ k.
                      Ensures P (λ s _. Q s points)
                        (store_proofs redis hashing ttls cdk settings token k ps infos route))
                    same (last points ps infos)))))

    verify-Traces :
        (amount_msat : ℤ)
        → Traces P Q
            (verify_cashu_token_p2pk redis hashing ttls cdk settings token amount_msat route)
            (presented token amount_msat)
    unfolding verify_cashu_token_p2pk of_result
    verify-Traces amount_msat =
        Traces-step _ _ _ (refuse_seen-Keeps redis hashing ttls cdk settings frame token)
          (λ _ _ _ _.
            Traces-step _ _ _ (refuse_stored-Keeps redis hashing ttls cdk settings frame token)
              (λ _ _ _ _. Traces-step _ _ _ (Keeps-of_result _) (λ _ _ decoded _.
                Traces-step _ _ _ (Keeps-of_result _) (λ _ _ mint _.
                  Traces-step _ _ _ (Keeps-of_result _) (λ _ _ _ _.
                    Traces-step _ _ _ (Keeps-of_result _) (λ _ _ _ _.
                      Traces-step _ _ _ (Keeps-of_result _) (λ _ _ total _.
                        Traces-step _ _ _ (Keeps-guard _ _) (λ _ _ _ _.
                          Traces-step _ _ _
                            (Keeps-failing _ _ (
                              get_or_create_wallet-Keeps redis hashing ttls cdk settings frame mint
                                total.0))
                            (λ _ _ wallet _. accept_proofs-Traces decoded wallet)))))))))

  -- The claim of each proof set is a key of the server.
  module _ (Held : Str → E → Type 0)
      (laws : (key : Str)
        → HoldsKey redis (cashu_token_redis_key redis hashing ttls key) (Held key))
      (calls : (key : Str) → CdkKeeps cdk (Held key)) where
    verify-marks :
        (token : Str) (amount_msat : ℤ) (route : Option Str)
        → Traces IsConfigured
            (λ s points. IsHeld (Held (hash_of points)) s)
            (verify_cashu_token_p2pk redis hashing ttls cdk settings token amount_msat route)
            (presented token amount_msat)
    verify-marks token amount_msat route =
        verify-Traces (IsConfigured-frame redis hashing ttls cdk settings)
          (λ s points. IsHeld (Held (hash_of points)) s) token route
          (λ points ps infos.
            store_proofs-Ensures redis hashing ttls cdk settings (hash_of points) (laws _) (calls _)
              token ps infos route)
          amount_msat

    store_proofs-refuses :
        (held token key : Str) (ps : List Proof) (infos : List (ProofInfo Proof))
        (route : Option Str)
        → Ensures
            (IsHeld (Held held))
            (λ _ _. key ≢ held)
            (store_proofs redis hashing ttls cdk settings token key ps infos route)
    unfolding store_proofs
    store_proofs-refuses held token key ps infos route = record {
      at = λ s h a e same.
          (subst
              (λ k.
                Ensures (IsHeld (Held held)) (λ _ _. ⊥)
                  (store_proofs redis hashing ttls cdk settings token k ps infos route))
              (sym same) never).at
            s h a e;
    }
      where
        never :
            Ensures
              (IsHeld (Held held))
              (λ _ _. ⊥)
              (store_proofs redis hashing ttls cdk settings token held ps infos route)
        never =
            Ensures-bind _ _ (claim_proofs-Refused redis hashing ttls cdk settings held (laws held))
              (λ _. record { at = λ _ p _ _. absurd p })

    -- With Redis configured: of two tokens that this path accepted one after the other, the proofs that
    -- the two runs read and claimed are not the same in another order, nor in another encoding of the
    -- token. Whatever was done between the two runs must have kept the stored claims, so this holds until
    -- a claim expires or is deleted.
    pub proofs_once :
        (first_token later_token : Str) (first_amount later_amount : ℤ)
        (first_route later_route : Option Str) (between : Action (World E) (Unit {0})) (w : World E)
        → IsConfigured w
        → ((key : Str) → Keeps (IsHeld (Held key)) between)
        → (verify_cashu_token_p2pk redis hashing ttls cdk settings first_token first_amount
            first_route w).1
          ≡ ok tt
        → (verify_cashu_token_p2pk redis hashing ttls cdk settings later_token later_amount
            later_route
            (between
              (verify_cashu_token_p2pk redis hashing ttls cdk settings first_token first_amount
                first_route w).0).0).1
          ≡ ok tt
        → (first_points later_points : List Str) × Presents first_token first_amount w first_points
          × Presents later_token later_amount
              (between
                (verify_cashu_token_p2pk redis hashing ttls cdk settings first_token first_amount
                  first_route w).0).0
              later_points
          × ¬ Perm first_points later_points
    unfolding replay_key
    proofs_once t u a b r q between w configured keeps h k =
        let (points, shown, held) = (verify-marks t a r).at w configured tt h in
        let (later, shown_later, other) =
          (verify-Traces
              (IsHeld-frame redis hashing ttls cdk settings (hash_of points) (laws _) (calls _))
              (λ _ l. hash_of l ≢ hash_of points) u q
              (λ l ps infos. store_proofs-refuses (hash_of points) u (hash_of l) ps infos q) b).at
            _ ((keeps (hash_of points)).at _ held) tt k in
        (
          points,
          later,
          shown,
          shown_later,
          λ perm. ∥∥₁_elim perm ⊥_prop (λ d.
              other
                (ap (λ l. hashing.sha256_hex (join (codes ",") l)) (sym (sort_unstable-Permᴰ d)))),
        )
