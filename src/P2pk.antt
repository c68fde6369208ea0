-- ===== src/P2pk.antt =====
-- ngx_l402_core/src/p2pk.rs: the key pair of P2PK mode, and which locks are permanent.
pub mod Locks
use ngx_l.Base.{
  ℕ, zero, suc, ◌+◌, ◌-◌, ◌*◌, ◌/◌, ◌%◌, ◌^◌, ◌≤◌, ◌<◌, min, max, ◌≡◌, refl, sym, ap, ◌∙◌, ◌≡⟨◌⟩◌,
  ◌∎, ◌≢◌, ◌↔◌, ◌⊎◌, inl, inr, Bool, true, false, not, ◌&&◌, ◌||◌, false≢true, Option, none, some,
  List, [], ◌∷◌, ◌++◌, map, append_assoc, append-nil, arith, ltb, leb, ◌==◌, if◌then◌else◌, leb→le,
  ==_iff, ==-refl, Bool-cases, Option-cases, ℤ, pos, negsuc, is_positive, is_negative, as_u64,
  is_some, unwrap_or, or_option, length, all, any, is_empty, first, length-append, All, All-append,
  any-append,
}
use ngx_l.Text.{Str, codes, trim, eq_ignore_ascii_case}
use ngx_l.Outcome.{Result, ok, err, map_err, and_then}
use ngx_l.CashuError.{Message, not_a_spending_condition, not_p2pk, has_locktime}
use ngx_l.Cdk.{Cdk, Kind, p2pk, htlc, Nut10Secret}

-- A tag whose key is `locktime`, in any case.
unfoldable pub is_locktime : List Str → Bool
unfolding eq_ignore_ascii_case
is_locktime [] = false
is_locktime (key ∷ values) = eq_ignore_ascii_case key (codes "locktime")

unfoldable pub check_lock : Nut10Secret → Result Message (Unit {0})
check_lock secret = elim secret.kind [
  | htlc ↦ err not_p2pk
  | p2pk ↦ if any is_locktime (unwrap_or secret.tags []) then err has_locktime else ok tt
]

module _ {E : Type 0} (cdk : Cdk E) where
  -- The signing key, and the hex of its public key.
  unfoldable pub parse_p2pk_secret_key : Str → Result Str (Str × Str)
  parse_p2pk_secret_key secret_hex =
      and_then (cdk.secret_key_from_hex (trim secret_hex)) (λ key. ok (key, cdk.public_key key))

  unfoldable pub verify_permanent_p2pk_lock : cdk.Proof → Result Message (Unit {0})
  unfolding check_lock
  verify_permanent_p2pk_lock proof =
      and_then (map_err not_a_spending_condition (cdk.nut10_secret proof)) check_lock
