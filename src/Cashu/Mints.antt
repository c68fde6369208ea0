-- ===== src/Cashu/Mints.antt =====
-- src/cashu.rs: `normalize_mint_url` and the whitelist of mints, a `HashSet` of normalized URLs.
pub mod Whitelist
use ngx_l.Base.{
  ℕ, zero, suc, ◌+◌, ◌-◌, ◌*◌, ◌/◌, ◌%◌, ◌^◌, ◌≤◌, ◌<◌, min, max, ◌≡◌, refl, sym, ap, ◌∙◌, ◌≡⟨◌⟩◌,
  ◌∎, ◌≢◌, ◌↔◌, ◌⊎◌, inl, inr, Bool, true, false, not, ◌&&◌, ◌||◌, false≢true, Option, none, some,
  List, [], ◌∷◌, ◌++◌, map, append_assoc, append-nil, arith, ltb, leb, ◌==◌, if◌then◌else◌, leb→le,
  ==_iff, ==-refl, Bool-cases, Option-cases, ℤ, pos, negsuc, is_positive, is_negative, as_u64,
  is_some, unwrap_or, or_option, length, all, any, is_empty, first, length-append, All, All-append,
  any-append,
}
use ngx_l.Text.{Str, codes, trim, trim_end_matches, split}
use ngx_l.Outcome.{Result, ok, err}
use ngx_l.ReplayCache.{member, insert}
use ngx_l.Cdk.{Cdk}
use ngx_l.Cashu.{Settings}

pub data WhitelistError : Type 0 where
  no_valid_urls already_initialized : WhitelistError

-- `WHITELISTED_MINTS.set`, on what the static holds.
unfoldable pub set_whitelist :
    Option (List Str) → List Str → Result WhitelistError (Option (List Str))
set_whitelist (some old) mints = err already_initialized
set_whitelist none mints = ok (some mints)

module _ {E : Type 0} (cdk : Cdk E) where
  unfoldable pub normalize_mint_url : Str → Str
  normalize_mint_url url = elim (cdk.url_parse (trim url)) [
    | some parsed ↦ trim_end_matches b'/' parsed
    | none ↦ cdk.to_lowercase (trim_end_matches b'/' (trim url))
  ]

  -- The loop over the pieces.
  unfoldable pub add_mints : List Str → List Str → List Str
  add_mints mints [] = mints
  add_mints mints (url ∷ urls) =
      let normalized = normalize_mint_url url in
      add_mints (if is_empty normalized then mints else insert normalized mints) urls

  -- The static after the call.
  unfoldable pub initialize_whitelisted_mints :
      Option (List Str) → Str → Result WhitelistError (Option (List Str))
  initialize_whitelisted_mints old text =
      if is_empty (trim text)
      then ok old
      else (let mints = add_mints [] (split b',' text) in
          if is_empty mints then err no_valid_urls else set_whitelist old mints)

  -- Without a whitelist every mint is allowed.
  unfoldable pub is_mint_whitelisted : Option (List Str) → Str → Bool
  is_mint_whitelisted none mint_url = true
  is_mint_whitelisted (some mints) mint_url = member (normalize_mint_url mint_url) mints
