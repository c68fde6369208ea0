-- ===== src/Dleq.antt =====
-- ngx_l402_core/src/dleq.rs: the offline check that a proof was signed by its mint.
use ngx_l.Base.{Bool, true, not, Option, none, some, if◌then◌else◌}
use ngx_l.Text.{Str, codes, trim, eq_ignore_ascii_case}
use ngx_l.Outcome.{Result, ok, err, map_err, and_then}
use ngx_l.CashuError.{Message, no_mint_key, dleq_failed, missing_dleq}
use ngx_l.Cdk.{Cdk}

-- `none` is an unset variable.
unfoldable pub parse_require_dleq : Option Str → Bool
unfolding eq_ignore_ascii_case
parse_require_dleq none = true
parse_require_dleq (some v) = not (eq_ignore_ascii_case (trim v) (codes "false"))

pub data DleqCheck : Type 0 where
  verified admitted_without_dleq : DleqCheck

module _ {E : Type 0} (cdk : Cdk E) where
  open cdk use {Proof, Key, has_dleq, verify_dleq, keyset_id, amount}

  -- With the mint's key for the amount of the proof.
  unfoldable pub verify_with_key : Proof → Option Key → Result Message DleqCheck
  verify_with_key proof none = err (no_mint_key (amount proof) (keyset_id proof))
  verify_with_key proof (some key) =
      and_then (map_err dleq_failed (verify_dleq proof key)) (λ _. ok verified)

  unfoldable pub verify_proof_dleq_offline : Proof → Option Key → Bool → Result Message DleqCheck
  unfolding verify_with_key
  verify_proof_dleq_offline proof amount_key require_dleq =
      if has_dleq proof
      then verify_with_key proof amount_key
      else if require_dleq
      then err missing_dleq
      else ok admitted_without_dleq
