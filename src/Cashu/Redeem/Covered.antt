-- ===== src/Cashu/Redeem/Covered.antt =====
-- src/cashu.rs: what `redeem_to_lightning` pays for a group of proofs.
use ngx_l.Base.{none}
use ngx_l.Base.{
  ℕ, zero, suc, ◌+◌, ◌-◌, ◌*◌, ◌≤◌, ◌<◌, min, ◌≡◌, refl, ap, Bool, true, false, ◌&&◌, Option, none,
  some, List, [], ◌∷◌, ◌++◌, append-nil, arith, ltb, if◌then◌else◌, leb→le, ltb→lt, length,
}
use ngx_l.Text.{Str}
use ngx_l.Outcome.{ok}
use ngx_l.Outcome.Fallible.{
  AnyState, anyway, failing, of_result, Ensures, Ensures-succeed, map_err-eq-ok, guard-eq-ok,
}
use ngx_l.World.{World, Wallet, CurrencyUnit, sat, msat, other}
use ngx_l.Redis.{Redis}
use ngx_l.Replay.{Hashing}
use ngx_l.Fee.{Float, u64_max, sat_to_msat, melt_reserve_msat}
use ngx_l.Cdk.{Cdk, MeltQuote}
use ngx_l.Cashu.{Settings, try_call, is_multi_tenant_enabled}
use ngx_l.Cashu.MintInfo.{MeltConfig, Serde, Limits}
use ngx_l.Cashu.Verify.Accepted.{msats}
use ngx_l.Cashu.Redeem.{
  Payee, take, total_msat, select, input_fee_msat, invoice_for, required_msat, melt_selected,
  melt_group, redeem_group, melt_signed, melt_quote_with, sign_proofs,
}

pub take_prefix : {A : Type 0} (n : ℕ) (l : List A) → (rest : List A) × (take n l ++ rest ≡ l)
unfolding take
take_prefix zero l = (l, refl)
take_prefix (suc n) [] = ([], refl)
take_prefix (suc n) (x ∷ l) = let (rest, e) = take_prefix n l in (rest, ap (λ t. x ∷ t) e)

unsaturated :
    (a b c total : ℕ)
    → total < u64_max
    → min (min (min a u64_max + min b u64_max) u64_max + c) u64_max ≤ total
    → a + b + c ≤ total
unsaturated a b c total small h = omega arith

-- Below the largest u64 nothing has saturated.
required_exact :
    (u : CurrencyUnit) (quote : MeltQuote) (fee total : ℕ)
    → total < u64_max
    → required_msat u quote fee ≤ total
    → msats u quote.amount + msats u quote.fee_reserve + fee ≤ total
unfolding required_msat sat_to_msat
required_exact sat quote fee total small h =
    unsaturated (quote.amount * 1000) (quote.fee_reserve * 1000) fee total small h
required_exact msat quote fee total small h = ground arith
required_exact (other _) quote fee total small h = ground arith

module _ {E : Type 0} (redis : Redis E) (hashing : Hashing) (cdk : Cdk E) (settings : Settings)
    (f : Float) (serde : Serde cdk.MintInfo) (payee : Payee E)
    (melt_settings : MeltConfig f.F64) where
  open cdk use {Proof, amount}

  select_prefix :
      (group : List Proof)
      → (rest : List Proof) × (select redis hashing cdk settings f serde payee melt_settings group
            ++ rest
          ≡ group)
  unfolding select
  select_prefix group = by_test (
      ltb 0 melt_settings.max_proofs_per_melt
      && ltb melt_settings.max_proofs_per_melt (length group))
    where
      by_test :
          (b : Bool)
          → (rest : List Proof) × ((if b
                  then take melt_settings.max_proofs_per_melt group
                  else group)
                ++ rest
              ≡ group)
      by_test true = take_prefix melt_settings.max_proofs_per_melt group
      by_test false = ([], append-nil group)

  -- What a melt took. In P2PK mode it took exactly the selected proofs, signed, where the server has a
  -- key; outside of it with tenants exactly the selected proofs; otherwise the wallet picks them.
  pub record Took (wallet : Wallet) (quote_id : Str) (selected : List Proof)
      (change : Option (List Proof)) : Type 0 where
    pub by_key :
        (key : Str)
        → settings.p2pk_mode ≡ true
        → settings.p2pk_private_key ≡ some key
        → (signed : List Proof) × (asked : World E) × (sign_proofs redis hashing cdk settings f
              serde payee melt_settings key selected
            ≡ ok signed)
          × ((try_call (cdk.melt_proofs wallet quote_id signed) asked).1 ≡ ok change)
    pub by_tenant :
        settings.p2pk_mode ≡ false
        → is_multi_tenant_enabled settings ≡ true
        → (asked : World E) × ((try_call (cdk.melt_proofs wallet quote_id selected) asked).1
            ≡ ok change)
    pub by_wallet :
        settings.p2pk_mode ≡ false
        → is_multi_tenant_enabled settings ≡ false
        → (asked : World E) × ((try_call (cdk.melt wallet quote_id) asked).1 ≡ ok change)
    pub without_key :
        settings.p2pk_mode ≡ true
        → settings.p2pk_private_key ≡ none
        → (asked : World E) × ((try_call (cdk.melt wallet quote_id) asked).1 ≡ ok change)

  melt_signed-eq-ok :
      (wallet : Wallet) (quote_id key : Str) (selected : List Proof) (w : World E)
      (change : Option (List Proof))
      → (melt_signed redis hashing cdk settings f serde payee melt_settings wallet quote_id
          (some key)
          selected
          w).1
        ≡ ok change
      → (signed : List Proof) × (asked : World E) × (sign_proofs redis hashing cdk settings f serde
            payee melt_settings key selected
          ≡ ok signed)
        × ((try_call (cdk.melt_proofs wallet quote_id signed) asked).1 ≡ ok change)
  unfolding melt_signed melt_quote_with failing of_result
  melt_signed-eq-ok wallet quote_id key selected w change h =
      (anyway {Q = λ _ c. Melted c} _ _ (λ _ signed e. record {
        at = λ s _ c k. (signed, s, map_err-eq-ok _ _ e, map_err-eq-ok _ _ k);
      })).at
        w tt change h
    where
      Melted : Option (List Proof) → Type 0
      Melted c =
          (signed : List Proof) × (asked : World E) × (sign_proofs redis hashing cdk settings f
              serde payee melt_settings key selected
            ≡ ok signed)
          × ((try_call (cdk.melt_proofs wallet quote_id signed) asked).1 ≡ ok c)

  melt_selected-Took :
      (wallet : Wallet) (quote_id : Str) (selected : List Proof) (w : World E)
      (change : Option (List Proof))
      → (melt_selected redis hashing cdk settings f serde payee melt_settings wallet quote_id
          selected w).1
        ≡ ok change
      → Took wallet quote_id selected change
  unfolding melt_selected melt_quote_with failing melt_signed sign_proofs
  melt_selected-Took wallet quote_id selected w change h = record {
    by_key = λ key mode has.
        melt_signed-eq-ok wallet quote_id key selected w change (rw (mode, has) at h);
    by_tenant = λ mode many. (w, map_err-eq-ok _ _ (rw (mode, many) at h));
    by_wallet = λ mode one. (w, map_err-eq-ok _ _ (rw (mode, one) at h));
    without_key = λ mode lacks. (w, map_err-eq-ok _ _ (rw (mode, lacks) at h));
  }

  -- The invoice, the quote and the melt of some proofs, with the fee on them.
  pub record IsMelted (wallet : Wallet) (limits : Limits f.F64) (client : Str)
      (selected : List Proof) (total fee : ℕ) : Type 0 where
    pub invoice : Str
    pub invoice_asked : World E
    pub invoiced :
        (invoice_for redis hashing cdk settings f serde payee melt_settings wallet client
          (length selected)
          (total - melt_reserve_msat f total limits.percent limits.min_fee_reserve_msat fee)
          invoice_asked).1
        ≡ ok invoice
    pub positive : melt_reserve_msat f total limits.percent limits.min_fee_reserve_msat fee < total
    pub quote : MeltQuote
    pub quote_asked : World E
    pub quoted : (try_call (cdk.melt_quote wallet invoice) quote_asked).1 ≡ ok quote
    pub covers : msats wallet.unit quote.amount + msats wallet.unit quote.fee_reserve + fee ≤ total
    pub change : Option (List Proof)
    pub took : Took wallet quote.id selected change

  melt_group-IsMelted :
      (wallet : Wallet) (limits : Limits f.F64) (client : Str) (selected : List Proof) (fee : ℕ)
      → total_msat redis hashing cdk settings f serde payee melt_settings wallet.unit selected
        < u64_max
      → Ensures AnyState
          (λ _ _.
            IsMelted wallet limits client selected
              (total_msat redis hashing cdk settings f serde payee melt_settings wallet.unit
                selected)
              fee)
          (melt_group redis hashing cdk settings f serde payee melt_settings wallet limits client
            selected fee)
  unfolding melt_group failing
  melt_group-IsMelted wallet limits client selected fee small = anyway _ _ (λ s1 _ e1.
      anyway _ _ (λ s2 invoice e2. anyway _ _ (λ s3 quote e3. anyway _ _ (λ s4 _ e4. record {
        at = λ s _ change e. record {
          invoice = invoice;
          invoice_asked = s2;
          invoiced = e2;
          positive = ltb→lt _ _ (guard-eq-ok _ _ s1 _ e1);
          quote = quote;
          quote_asked = s3;
          quoted = map_err-eq-ok _ _ e3;
          covers =
              required_exact wallet.unit quote fee _ small (leb→le _ _ (guard-eq-ok _ _ s4 _ e4));
          change = change;
          took = melt_selected-Took wallet quote.id selected s change e;
        };
      }))))

  -- A group that is redeemed is worth the minimum, and a prefix of its proofs was selected, which is
  -- counted. The invoice for the client, of one positive amount, is what they are worth less the reserve,
  -- and with nothing saturated the selected proofs are worth the amount of the quote, its fee reserve and
  -- the fee on them, in exact arithmetic. The quote was melted: in P2PK mode with a key, of exactly these
  -- proofs, signed; outside of P2PK mode with tenants, of exactly these proofs; otherwise the wallet was
  -- left to pick the proofs.
  pub redemption_covered :
      (wallet : Wallet) (limits : Limits f.F64) (client : Str) (group : List Proof) (w : World E)
      (n : ℕ)
      → total_msat redis hashing cdk settings f serde payee melt_settings wallet.unit
          (select redis hashing cdk settings f serde payee melt_settings group)
        < u64_max
      → (redeem_group redis hashing cdk settings f serde payee melt_settings wallet limits client
          group w).1
        ≡ ok n
      → (selected rest : List Proof) × (fee : ℕ) × (fee_asked : World E) × (selected ++ rest
          ≡ group)
        × (n ≡ length selected)
        × (limits.minimum_msat
            ≤ total_msat redis hashing cdk settings f serde payee melt_settings wallet.unit group)
        × ((input_fee_msat redis hashing cdk settings f serde payee melt_settings wallet selected
              fee_asked).1
            ≡ ok fee)
        × IsMelted wallet limits client selected
            (total_msat redis hashing cdk settings f serde payee melt_settings wallet.unit selected)
            fee
  unfolding redeem_group
  redemption_covered wallet limits client group w n small h =
      (anyway {Q = λ _ m. Redeemed m} _ _ (λ s1 _ e1. anyway _ _ (λ s2 fee e2.
          anyway _ _ (λ s3 change e3. anyway _ _ (λ _ _ _. anyway _ _ (λ _ _ _.
            Ensures-succeed _ (λ _ _. (
              chosen,
              (select_prefix group).0,
              fee,
              s2,
              (select_prefix group).1,
              refl,
              leb→le _ _ (guard-eq-ok _ _ s1 _ e1),
              e2,
              (melt_group-IsMelted wallet limits client chosen fee small).at s3 tt change e3,
            )))))))).at
        w tt n h
    where
      chosen : List Proof
      chosen = select redis hashing cdk settings f serde payee melt_settings group

      Redeemed : ℕ → Type 0
      Redeemed m =
          (selected rest : List Proof) × (fee : ℕ) × (fee_asked : World E) × (selected ++ rest
            ≡ group)
          × (m ≡ length selected)
          × (limits.minimum_msat
              ≤ total_msat redis hashing cdk settings f serde payee melt_settings wallet.unit group)
          × ((input_fee_msat redis hashing cdk settings f serde payee melt_settings wallet selected
                fee_asked).1
              ≡ ok fee)
          × IsMelted wallet limits client selected
              (total_msat redis hashing cdk settings f serde payee melt_settings wallet.unit
                selected)
              fee
