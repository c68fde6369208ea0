-- ===== src/Cashu/Mints/Whitelist.antt =====
-- src/cashu.rs: which mints a configured whitelist accepts.
use ngx_l.Base.{
  ◌≡◌, refl, sym, ap, ◌∙◌, inl, inr, Bool, false, not, ◌&&◌, ◌||◌, Option, none, some, List, [],
  ◌∷◌, arith, if◌then◌else◌, Bool-cases, any, is_empty,
}
use ngx_l.Text.{Str, trim, split, str_eq}
use ngx_l.Outcome.{Result, ok, err}
use ngx_l.ReplayCache.{member, insert}
use ngx_l.ReplayCache.Invariant.{member-insert}
use ngx_l.Cdk.{Cdk}
use ngx_l.Cashu.Mints.{
  WhitelistError, no_valid_urls, set_whitelist, normalize_mint_url, add_mints,
  initialize_whitelisted_mints, is_mint_whitelisted,
}

module _ {E : Type 0} (cdk : Cdk E) where
  -- One of the texts normalizes to this, which is not empty.
  abbrev pub lists : Str → List Str → Bool
  lists url pieces =
      any (λ p. not (is_empty (normalize_mint_url cdk p)) && str_eq (normalize_mint_url cdk p) url)
        pieces

  add_one :
      (url n : Str) (mints : List Str)
      → member url (if is_empty n then mints else insert n mints)
        ≡ ((not (is_empty n) && str_eq n url) || member url mints)
  add_one url n mints = elim (Bool-cases (is_empty n)) [
    | inl e ↦ rw e
    | inr e ↦ rw e (member-insert n url mints)
  ]

  member-add_mints :
      (url : Str) (mints pieces : List Str)
      → member url (add_mints cdk mints pieces) ≡ (lists url pieces || member url mints)
  unfolding add_mints
  member-add_mints url mints [] = refl
  member-add_mints url mints (p ∷ pieces) =
      let n = normalize_mint_url cdk p in
      ground (
        arith,
        member-add_mints url (if is_empty n then mints else insert n mints) pieces,
        add_one url n mints,
      )

  -- Where a whitelist is configured for the first time, a mint is accepted exactly when its normalized
  -- URL is that of one of the entries between the commas, which is not empty.
  pub whitelist_lem :
      (text : Str) (mints : List Str) (mint_url : Str)
      → is_empty (trim text) ≡ false
      → initialize_whitelisted_mints cdk none text ≡ ok (some mints)
      → is_mint_whitelisted cdk (some mints) mint_url
        ≡ lists (normalize_mint_url cdk mint_url) (split b',' text)
  unfolding initialize_whitelisted_mints is_mint_whitelisted set_whitelist member
  whitelist_lem text mints mint_url filled h =
      elim (Bool-cases (is_empty (add_mints cdk [] (split b',' text)))) [
        | inl e ↦ absurd (refused (rw (filled, e) at h))
        | inr e ↦
            ap (member (normalize_mint_url cdk mint_url)) (sym (stored (rw (filled, e) at h)))
            ∙ member-add_mints (normalize_mint_url cdk mint_url) [] (split b',' text)
            ∙ ground arith
      ]
    where
      refused :
          ◌≡◌ {A = Result WhitelistError (Option (List Str))} (err no_valid_urls) (ok (some mints))
          → ⊥
      refused k = cc

      stored :
          {l : List Str}
          → ◌≡◌ {A = Result WhitelistError (Option (List Str))} (ok (some l)) (ok (some mints))
          → l ≡ mints
      stored k = cc
