-- ===== src/Cashu/Verify/Accepted.antt =====
-- src/cashu.rs: what a token that `verify_cashu_token` accepts has paid.
use ngx_l.Cashu.Verify.{receive_token}
use ngx_l.Outcome.Fallible.{AnyState, anyway, granted, Ensures-weaken, bind-eq-ok, payload, payload}
use ngx_l.Outcome.Fallible.{Ensures-weaken, bind-eq-ok, payload, Ensures-if}
use ngx_l.Outcome.Fallible.{Ensures-weaken, bind-eq-ok, payload}
use ngx_l.Base.{
  ℕ, ◌+◌, ◌-◌, ◌*◌, ◌≤◌, min, ◌≡◌, refl, sym, ap, ◌∙◌, ◌⊎◌, inl, inr, true, Option, some, List,
  arith, leb, leb→le, ℤ, as_u64,
}
use std.Path.{subst}
use ngx_l.Text.{Str}
use ngx_l.Outcome.{and_then-eq-ok, ok, map_err, ok_or}
use ngx_l.Outcome.Fallible.{
  Ensures-weaken, bind-eq-ok, payload, succeed, of_result, failing, Ensures, Ensures-succeed,
  map_err-eq-ok, ok_or-eq-some, guard-eq-ok,
}
use ngx_l.World.{World, Wallet, CurrencyUnit, sat, msat, other}
use ngx_l.Redis.{Redis}
use ngx_l.Replay.{Hashing, Ttls}
use ngx_l.Fee.{checked_mul, saturating_sub, sat_to_msat, u64_max}
use ngx_l.CashuError.{internal, wallet_failed}
use ngx_l.Cdk.{Cdk, KeySet}
use ngx_l.Cashu.{Settings, keyset_infos, try_call, get_or_create_wallet}
use ngx_l.Cashu.Mints.{normalize_mint_url, is_mint_whitelisted}
use ngx_l.Cashu.Verify.{
  amount_msat_of, input_fee_msat_of, token_amount, token_mint, token_proofs, token_fee_msat,
  receive_token, swap_token, verify_cashu_token,
}

-- The exact value in millisatoshis of an amount in a unit.
abbrev pub msats : CurrencyUnit → ℕ → ℕ
msats sat n = n * 1000
msats msat n = n
msats (other _) n = n

abbrev pub IsSupported : CurrencyUnit → Type 0
IsSupported u = (u ≡ sat) ⊎ (u ≡ msat)

-- A positive price is covered by what an amount leaves after a fee, in exact arithmetic.
abbrev pub Covers : ℕ → CurrencyUnit → ℕ → ℕ → Type 0
Covers price u total fee = (price ≡ 0) ⊎ (price + msats u fee ≤ msats u total)

pub supported : (u : CurrencyUnit) (total m : ℕ) → amount_msat_of u total ≡ ok m → IsSupported u
unfolding amount_msat_of
supported sat total m h = inl refl
supported msat total m h = inr refl
supported (other name) total m h = absurd (cc)

product : (a b m : ℕ) → checked_mul a b ≡ some m → (m ≡ a * b) × (m ≤ u64_max)
product a b m h = ground arith

covered :
    (price total fee m : ℕ) → price ≤ m - fee → m ≤ total → (price ≡ 0) ⊎ (price + fee ≤ total)
covered price total fee m h k = ground arith

covered_saturated :
    (price fee m : ℕ) → price ≤ m - min fee u64_max → m ≤ u64_max → (price ≡ 0) ⊎ (price + fee ≤ m)
covered_saturated price fee m h k = ground arith

exact :
    (u : CurrencyUnit) (total m fee price : ℕ)
    → amount_msat_of u total ≡ ok m
    → leb price (saturating_sub m (input_fee_msat_of u fee)) ≡ true
    → Covers price u total fee
unfolding amount_msat_of input_fee_msat_of sat_to_msat
exact sat total m fee price h p =
    let k = product total 1000 m (ok_or-eq-some _ _ h) in
    subst (λ t. (price ≡ 0) ⊎ (price + fee * 1000 ≤ t)) k.0
      (covered_saturated price (fee * 1000) m (leb→le _ _ p) k.1)
exact msat total m fee price h p = ground arith
exact (other name) total m fee price h p = absurd (cc)

pub worth_of :
    (u : CurrencyUnit) (total m price : ℕ)
    → amount_msat_of u total ≡ ok m
    → leb price m ≡ true
    → price ≤ msats u total
unfolding amount_msat_of
worth_of sat total m price h k =
    subst (λ t. price ≤ t) (product total 1000 m (ok_or-eq-some _ _ h)).0 (leb→le price m k)
worth_of msat total m price h k = subst (λ t. price ≤ t) (sym (payload h)) (leb→le price m k)
worth_of (other name) total m price h k = absurd (cc)

module _ {E : Type 0} (redis : Redis E) (hashing : Hashing) (ttls : Ttls) (cdk : Cdk E)
    (settings : Settings) where
  open cdk use {Token, Proof, Key, token_from_str, value, unit, mint_url, proofs}

  -- What the mint answered for a token, and that it was received.
  pub record SwapPays (token : Str) (decoded : Token) (price : ℕ) (lnurl_addr : Option Str)
      (wallet : Wallet) (m : ℕ) : Type 0 where
    pub keysets : List (KeySet Key)
    pub spent : List Proof
    pub extracted : proofs (keyset_infos keysets) decoded ≡ ok spent
    pub fee : ℕ
    pub asked : World E
    pub charged : (try_call (cdk.get_proofs_fee wallet spent) asked).1 ≡ ok fee
    pub remains : leb price (saturating_sub m (input_fee_msat_of wallet.unit fee)) ≡ true
    pub before : World E
    pub received :
        (receive_token redis hashing ttls cdk settings wallet token decoded lnurl_addr before).1
        ≡ ok tt

  -- A token as the code reads it, and the answers of its mint.
  pub record IsPaid (token : Str) (price : ℕ) (lnurl_addr : Option Str) : Type 0 where
    pub decoded : Token
    pub decodes : token_from_str token ≡ ok decoded
    pub total : ℕ
    pub valued : value decoded ≡ ok total
    pub currency : CurrencyUnit
    pub in_currency : unit decoded ≡ some currency
    pub supports : IsSupported currency
    pub url : Str
    pub at_url : mint_url decoded ≡ ok url
    pub wallet : Wallet
    pub of_mint : wallet ≡ record { mint_url = normalize_mint_url cdk url; unit = currency }
    pub whitelisted :
        is_mint_whitelisted cdk settings.whitelisted_mints (normalize_mint_url cdk url) ≡ true
    pub amount : ℕ
    pub payment : SwapPays token decoded price lnurl_addr wallet amount
    pub covers : Covers price currency total payment.fee

  pub get_or_create_wallet-Ensures :
      (url : Str) (u : CurrencyUnit)
      → Ensures AnyState
          (λ _ w. w ≡ record { mint_url = url; unit = u })
          (get_or_create_wallet cdk url u)
  unfolding get_or_create_wallet
  get_or_create_wallet-Ensures url u = anyway _ _ (λ _ hit _.
      Ensures-if hit _ _ (λ _. found)
        (λ _. anyway _ _ (λ _ _ _. anyway _ _ (λ _ _ _. anyway _ _ (λ _ _ _. found)))))
    where
      wallet : Wallet
      wallet = record { mint_url = url; unit = u }

      found : Ensures {S = World E} {X = Str} AnyState (λ _ w. w ≡ wallet) (succeed wallet)
      found = Ensures-succeed _ (λ _ _. refl)

  pub token_amount-eq-ok :
      (token : Token) (u : CurrencyUnit) (m : ℕ)
      → token_amount redis hashing ttls cdk settings token ≡ ok (u, m)
      → (total : ℕ) × (value token ≡ ok total)
        × (unit token ≡ some u)
        × (amount_msat_of u total ≡ ok m)
  unfolding token_amount
  token_amount-eq-ok token u m h =
      let (total, e, h2) = and_then-eq-ok (map_err _ (value token)) _ h in
      let (v, e2, h3) = and_then-eq-ok (ok_or _ (unit token)) _ h2 in
      let (n, e3, h4) = and_then-eq-ok (amount_msat_of v total) _ h3 in
      let same : (v ≡ u) × (n ≡ m) = ground arith in
      (total, map_err-eq-ok _ _ e, ok_or-eq-some _ _ e2 ∙ ap some same.0, moved total e3 same)
    where
      moved :
          {v : CurrencyUnit} {n : ℕ} (total : ℕ)
          → amount_msat_of v total ≡ ok n
          → (v ≡ u) × (n ≡ m)
          → amount_msat_of u total ≡ ok m
      moved total e k = cc

  pub token_mint-eq-ok :
      (token : Token) (mint : Str)
      → token_mint redis hashing ttls cdk settings token ≡ ok mint
      → (url : Str) × (mint_url token ≡ ok url) × (normalize_mint_url cdk url ≡ mint)
  unfolding token_mint
  token_mint-eq-ok token mint h =
      let (url, e, h2) = and_then-eq-ok (map_err _ (mint_url token)) _ h in
      (url, map_err-eq-ok _ _ e, payload h2)

  -- The part of a record that the checks before the swap give.
  swap_token-Ensures :
      (token : Str) (decoded : Token) (price : ℕ) (lnurl_addr : Option Str) (wallet : Wallet)
      (m : ℕ)
      → Ensures AnyState
          (λ _ _. SwapPays token decoded price lnurl_addr wallet m)
          (swap_token redis hashing ttls cdk settings token decoded price lnurl_addr wallet m)
  unfolding swap_token token_proofs token_fee_msat failing of_result succeed
  swap_token-Ensures token decoded price lnurl_addr wallet m = anyway _ _ (λ s1 spent e1.
      anyway _ _ (λ s2 fee e2. anyway _ _ (λ s3 _ e3. anyway _ _ (λ s4 _ e4. granted _ (
        let (keysets, asked_keys, read) = bind-eq-ok _ _ s1 e1 in
        let (raw, charged, shown) = bind-eq-ok _ _ s2 e2 in
        record {
          keysets = keysets;
          spent = spent;
          extracted = map_err-eq-ok _ _ read;
          fee = raw;
          asked = s2;
          charged = map_err-eq-ok _ _ charged;
          remains = ap (λ f. leb price (m - f)) (payload shown) ∙ guard-eq-ok _ _ s3 _ e3;
          before = s4;
          received = map_err-eq-ok _ _ e4;
        })))))

  pub wallet_of :
      (mint : Str) (u : CurrencyUnit) (w : World E) (wallet : Wallet)
      → (failing (λ e. internal (wallet_failed e)) (get_or_create_wallet cdk mint u) w).1
        ≡ ok wallet
      → wallet ≡ record { mint_url = mint; unit = u }
  unfolding failing
  wallet_of mint u w wallet h =
      (get_or_create_wallet-Ensures mint u).at w tt wallet (map_err-eq-ok _ _ h)

  verify_cashu_token-Ensures :
      (token : Str) (amount_msat : ℤ) (lnurl_addr : Option Str)
      → Ensures AnyState
          (λ _ _. IsPaid token (as_u64 amount_msat) lnurl_addr)
          (verify_cashu_token redis hashing ttls cdk settings token amount_msat lnurl_addr)
  unfolding verify_cashu_token of_result
  verify_cashu_token-Ensures token amount_msat lnurl_addr = anyway _ _ (λ _ _ _.
      anyway _ _ (λ _ _ _. anyway _ _ (λ _ decoded decodes. anyway _ _ (λ _ amount valued.
        anyway _ _ (λ _ _ _. anyway _ _ (λ _ mint at_mint. anyway _ _ (λ sl _ listed.
          anyway _ _ (λ s wallet got.
            Ensures-weaken _
              (swap_token-Ensures token decoded (as_u64 amount_msat) lnurl_addr wallet amount.1)
              (λ _ _ payment.
                let (total, value_eq, unit_eq, counted) =
                  token_amount-eq-ok decoded amount.0 amount.1 (valued) in
                let (url, url_eq, normalized) = token_mint-eq-ok decoded mint at_mint in
                record {
                  decoded = decoded;
                  decodes = map_err-eq-ok _ _ decodes;
                  total = total;
                  valued = value_eq;
                  currency = amount.0;
                  in_currency = unit_eq;
                  supports = supported amount.0 total amount.1 counted;
                  url = url;
                  at_url = url_eq;
                  wallet = wallet;
                  of_mint =
                      wallet_of mint amount.0 s wallet got
                      ∙ ap (λ t. record { mint_url = t; unit = amount.0 }) (sym normalized);
                  whitelisted =
                      ap (is_mint_whitelisted cdk settings.whitelisted_mints) normalized
                      ∙ guard-eq-ok _ _ sl _ listed;
                  amount = amount.1;
                  payment = payment;
                  covers = exact amount.0 total amount.1 payment.fee (as_u64 amount_msat) counted (
                      ap
                        (λ t. leb (as_u64 amount_msat) (amount.1 - input_fee_msat_of t payment.fee))
                        (sym (ap (λ v. v.unit) (wallet_of mint amount.0 s wallet got)))
                      ∙ payment.remains);
                })))))))))

  -- A token that is accepted decodes, is of a mint that the whitelist allows, in sat or msat, and was
  -- received at that mint; what its value leaves after the fee of the mint covers a positive price, in
  -- exact arithmetic.
  pub acceptance :
      (token : Str) (amount_msat : ℤ) (lnurl_addr : Option Str) (w : World E)
      → (verify_cashu_token redis hashing ttls cdk settings token amount_msat lnurl_addr w).1
        ≡ ok tt
      → IsPaid token (as_u64 amount_msat) lnurl_addr
  acceptance token amount_msat lnurl_addr w h =
      (verify_cashu_token-Ensures token amount_msat lnurl_addr).at w tt tt h
