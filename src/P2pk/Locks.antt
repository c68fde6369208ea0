-- ===== src/P2pk/Locks.antt =====
-- ngx_l402_core/src/p2pk.rs: which locks are taken for permanent.
use ngx_l.Base.{
  ◌≡◌, refl, sym, ap, ◌∙◌, ◌≢◌, ◌↔◌, inl, inr, false, false≢true, Option, List, [], ◌∷◌, map,
  Bool-cases, unwrap_or, any, All,
}
use ngx_l.Outcome.{Result, ok, err, map_err, and_then-eq-ok}
use ngx_l.Outcome.Fallible.{map_err-eq-ok}
use ngx_l.Text.{Str, codes, to_ascii_lowercase, eq_ignore_ascii_case}
use ngx_l.Text.Laws.{str_eq_of_eq, eq_of_str_eq}
use ngx_l.CashuError.{Message, has_locktime, not_a_spending_condition}
use ngx_l.Cdk.{Cdk, Nut10Secret, Kind, p2pk, htlc}
use ngx_l.P2pk.{is_locktime, check_lock, verify_permanent_p2pk_lock}

-- The first entry of a tag is its name.
abbrev pub NamesNoLocktime : List Str → Type 0
NamesNoLocktime tag =
    (name : Str) (values : List Str)
    → tag ≡ name ∷ values
    → map to_ascii_lowercase name ≢ codes "locktime"

names_none : (tag : List Str) → is_locktime tag ≡ false → NamesNoLocktime tag
unfolding is_locktime eq_ignore_ascii_case to_ascii_lowercase
names_none [] h = λ name values e named. cc
names_none (key ∷ rest) h = λ name values e named.
    false≢true (sym h ∙ str_eq_of_eq _ _ (ap (map to_ascii_lowercase) (heads e) ∙ named))
  where
    heads : {name : Str} {values : List Str} → key ∷ rest ≡ name ∷ values → key ≡ name
    heads k = cc

is_no_locktime : (tag : List Str) → NamesNoLocktime tag → is_locktime tag ≡ false
unfolding is_locktime eq_ignore_ascii_case
is_no_locktime [] h = refl
is_no_locktime (key ∷ rest) h = elim (Bool-cases (is_locktime (key ∷ rest))) [
  | inl e ↦ absurd (h key rest refl (eq_of_str_eq _ _ e))
  | inr e ↦ e
]

All-names_none : (tags : List (List Str)) → any is_locktime tags ≡ false → All NamesNoLocktime tags
All-names_none [] h = tt
All-names_none (tag ∷ tags) h = elim (Bool-cases (is_locktime tag)) [
  | inl e ↦ absurd (false≢true (sym h ∙ rw e refl))
  | inr e ↦ (names_none tag e, All-names_none tags (rw e at h))
]

any-is_locktime : (tags : List (List Str)) → All NamesNoLocktime tags → any is_locktime tags ≡ false
any-is_locktime [] h = refl
any-is_locktime (tag ∷ tags) h = rw (is_no_locktime tag h.0, any-is_locktime tags h.1) refl

module _ {E : Type 0} (cdk : Cdk E) where
  -- A spending condition of NUT-11 with no tag whose name is `locktime` in lower case.
  pub record IsPermanent (proof : cdk.Proof) : Type 0 where
    pub secret : Nut10Secret
    pub is_secret : cdk.nut10_secret proof ≡ ok secret
    pub locked : secret.kind ≡ p2pk
    pub no_locktime : All NamesNoLocktime (unwrap_or secret.tags [])

  check_lock-eq-ok :
      (kind : Kind) (tags : Option (List (List Str)))
      → check_lock (record { kind = kind; tags = tags }) ≡ ok tt
      → (kind ≡ p2pk) × (any is_locktime (unwrap_or tags []) ≡ false)
  unfolding check_lock
  check_lock-eq-ok htlc tags h = absurd (cc)
  check_lock-eq-ok p2pk tags h = elim (Bool-cases (any is_locktime (unwrap_or tags []))) [
    | inl e ↦ absurd (refused (rw e at h))
    | inr e ↦ (refl, e)
  ]
    where
      refused : ◌≡◌ {A = Result Message (Unit {0})} (err has_locktime) (ok tt) → ⊥
      refused k = cc

  -- A lock is accepted exactly if the secret is a spending condition of NUT-11 and none of its tags
  -- has a name that reads `locktime` when its letters are put in lower case.
  pub verify_permanent_p2pk_lock_iff :
      (proof : cdk.Proof) → (verify_permanent_p2pk_lock cdk proof ≡ ok tt) ↔ IsPermanent proof
  unfolding verify_permanent_p2pk_lock
  verify_permanent_p2pk_lock_iff proof = (accepted, permanent)
    where
      accepted : verify_permanent_p2pk_lock cdk proof ≡ ok tt → IsPermanent proof
      accepted h =
          let (secret, e, checked) =
            and_then-eq-ok (map_err not_a_spending_condition (cdk.nut10_secret proof)) _ h in
          let (locked, none_there) = check_lock-eq-ok secret.kind secret.tags checked in
          record {
            secret = secret;
            is_secret = map_err-eq-ok _ _ e;
            locked = locked;
            no_locktime = All-names_none _ none_there;
          }

      permanent : IsPermanent proof → verify_permanent_p2pk_lock cdk proof ≡ ok tt
      permanent p = rw (p.is_secret, p.locked, any-is_locktime _ p.no_locktime) refl
