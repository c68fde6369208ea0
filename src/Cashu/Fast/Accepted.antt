-- ===== src/Cashu/Fast/Accepted.antt =====
-- src/cashu.rs: what `verify_cashu_token_p2pk` has checked of a token that it accepts.
use ngx_l.Base.{ℕ, ◌≤◌, ◌≡◌, refl, sym, ap, ◌∙◌, Bool, Option, some, List, [], ℤ, as_u64}
use ngx_l.Text.{Str}
use ngx_l.Outcome.{Result, ok, err}
use ngx_l.Outcome.Fallible.{
  AnyState, anyway, granted, failing, of_result, lift, continue, ◌>>=◌, Ensures, Ensures-weaken,
  map_err-eq-ok, guard-eq-ok, payload,
}
use ngx_l.World.{World, call, Wallet, CurrencyUnit}
use ngx_l.Redis.{Redis}
use ngx_l.Replay.{Hashing, Ttls}
use ngx_l.Cdk.{Cdk, KeySet, ProofInfo, unspent}
use ngx_l.Cashu.{Settings, keyset_infos, try_call}
use ngx_l.Cashu.Mints.{normalize_mint_url}
use ngx_l.Cashu.Tenants.{proof_infos}
use ngx_l.Cashu.Verify.Accepted.{
  msats, worth_of, IsSupported, supported, token_amount-eq-ok, token_mint-eq-ok, wallet_of,
}
use ngx_l.Cashu.Fast.{
  listed_mint, settle_store, store_proofs, accept_proofs, verify_cashu_token_p2pk,
}
use ngx_l.Cashu.Fast.Checks.{IsChecked, check_proofs-IsChecked}

module _ {E : Type 0} (redis : Redis E) (hashing : Hashing) (ttls : Ttls) (cdk : Cdk E)
    (settings : Settings) where
  open cdk use {
    Token, Proof, Key, token_from_str, value, unit, mint_url, proofs, has_dleq, verify_dleq,
    keyset_id, amount,
  }

  -- The proofs are in the database of the wallet, unspent and with the lock.
  abbrev pub IsStored : Wallet → List Proof → Str → Type 0
  IsStored wallet ps lock =
      (infos : List (ProofInfo Proof)) × (proof_infos redis hashing cdk settings wallet unspent
          (some lock) ps
        ≡ ok infos)
      × (w : World E) × ((call (cdk.update_proofs infos []) w).1 ≡ ok tt)

  -- What an accepted token is worth, where it comes from and what was done with its proofs.
  pub record IsSecured (token : Str) (price : ℕ) : Type 0 where
    pub decoded : Token
    pub decodes : token_from_str token ≡ ok decoded
    pub total : ℕ
    pub valued : value decoded ≡ ok total
    pub currency : CurrencyUnit
    pub in_currency : unit decoded ≡ some currency
    pub supports : IsSupported currency
    pub worth : price ≤ msats currency total
    pub url : Str
    pub at_url : mint_url decoded ≡ ok url
    pub listed : listed_mint redis hashing ttls cdk settings (normalize_mint_url cdk url) ≡ ok tt
    pub wallet : Wallet
    pub of_mint : wallet ≡ record { mint_url = normalize_mint_url cdk url; unit = currency }
    pub keysets : List (KeySet Key)
    pub keysets_asked : World E
    pub of_keysets : (try_call (cdk.keysets wallet) keysets_asked).1 ≡ ok keysets
    pub ps : List Proof
    pub extracted : proofs (keyset_infos keysets) decoded ≡ ok ps
    pub lock : Str
    pub checked : IsChecked redis hashing ttls cdk settings decoded wallet keysets ps lock
    pub stored : IsStored wallet ps lock

  abbrev IsKept : Token → Wallet → Type 0
  IsKept decoded wallet =
      (keysets : List (KeySet Key)) × (asked : World E) × ((try_call (cdk.keysets wallet) asked).1
        ≡ ok keysets)
      × (ps : List Proof) × (proofs (keyset_infos keysets) decoded ≡ ok ps)
      × (lock : Str) × IsChecked redis hashing ttls cdk settings decoded wallet keysets ps lock
      × IsStored wallet ps lock

  settle_store-eq-ok :
      (claimed : Bool) (key : Str) (r : Result Str (Unit {0})) (w : World E) (a : Unit {0})
      → (settle_store redis hashing ttls cdk settings claimed key r w).1 ≡ ok a
      → r ≡ ok tt
  unfolding settle_store of_result ◌>>=◌ continue lift
  settle_store-eq-ok claimed key (ok _) w a h = refl
  settle_store-eq-ok claimed key (err e) w a h = absurd (cc)

  store_proofs-eq-ok :
      (token key : Str) (ps : List Proof) (infos : List (ProofInfo Proof)) (route : Option Str)
      → Ensures AnyState
          (λ _ _. (w : World E) × ((call (cdk.update_proofs infos []) w).1 ≡ ok tt))
          (store_proofs redis hashing ttls cdk settings token key ps infos route)
  unfolding store_proofs lift
  store_proofs-eq-ok token key ps infos route = anyway _ _ (λ _ claimed _. anyway _ _ (λ _ _ _.
      anyway _ _ (λ s3 stored e3.
        anyway _ _
          (λ s4 _ e4. granted _ (s3, payload e3 ∙ settle_store-eq-ok claimed key stored s4 _ e4)))))

  accept_proofs-IsKept :
      (token : Str) (decoded : Token) (route : Option Str) (wallet : Wallet)
      → Ensures AnyState
          (λ _ _. IsKept decoded wallet)
          (accept_proofs redis hashing ttls cdk settings token decoded route wallet)
  unfolding accept_proofs of_result failing
  accept_proofs-IsKept token decoded route wallet = anyway _ _ (λ s1 keysets e1.
      anyway _ _ (λ _ ps extracted. anyway _ _ (λ _ key _. anyway _ _ (λ s4 lock e4.
        anyway _ _ (λ _ infos e5.
          Ensures-weaken _ (store_proofs-eq-ok token key ps infos route) (λ _ _ stored. (
            keysets,
            s1,
            map_err-eq-ok _ _ e1,
            ps,
            map_err-eq-ok _ _ extracted,
            lock,
            (check_proofs-IsChecked redis hashing ttls cdk settings decoded wallet keysets ps
                  key).at
                s4 tt lock e4,
            (infos, map_err-eq-ok _ _ e5, stored.0, stored.1),
          )))))))

  -- A token that the path without a swap accepts decodes, is of a mint on the whitelist, in sat or msat,
  -- and is worth the price in exact arithmetic; the mint reported every proof unspent, each is locked
  -- for good by NUT-11, the token to the key of the server, and each carries the signature of the mint
  -- by the keysets that the library gave for the wallet of that mint, unless the operator gave that up; and the proofs were stored unspent.
  pub acceptance_p2pk :
      (token : Str) (amount_msat : ℤ) (lnurl_addr : Option Str) (w : World E)
      → (verify_cashu_token_p2pk redis hashing ttls cdk settings token amount_msat lnurl_addr w).1
        ≡ ok tt
      → IsSecured token (as_u64 amount_msat)
  unfolding verify_cashu_token_p2pk of_result
  acceptance_p2pk token amount_msat lnurl_addr w h = walk.at w tt tt h
    where
      walk :
          Ensures AnyState
            (λ _ _. IsSecured token (as_u64 amount_msat))
            (verify_cashu_token_p2pk redis hashing ttls cdk settings token amount_msat lnurl_addr)
      walk = anyway _ _ (λ _ _ _. anyway _ _ (λ _ _ _. anyway _ _ (λ _ decoded decodes.
          anyway _ _ (λ _ mint at_mint. anyway _ _ (λ _ _ _. anyway _ _ (λ _ _ listed.
            anyway _ _ (λ _ amount valued. anyway _ _ (λ s8 _ enough. anyway _ _ (λ s9 wallet got.
              Ensures-weaken _ (accept_proofs-IsKept token decoded lnurl_addr wallet) (λ _ _ kept.
                let (total, value_eq, unit_eq, counted) =
                  token_amount-eq-ok redis hashing ttls cdk settings decoded amount.0 amount.1
                    valued in
                let (url, url_eq, normalized) =
                  token_mint-eq-ok redis hashing ttls cdk settings decoded mint at_mint in
                record {
                  decoded = decoded;
                  decodes = map_err-eq-ok _ _ decodes;
                  total = total;
                  valued = value_eq;
                  currency = amount.0;
                  in_currency = unit_eq;
                  supports = supported amount.0 total amount.1 counted;
                  worth =
                      worth_of amount.0 total amount.1 (as_u64 amount_msat) counted
                        (guard-eq-ok _ _ s8 _ enough);
                  url = url;
                  at_url = url_eq;
                  listed = ap (listed_mint redis hashing ttls cdk settings) normalized ∙ listed;
                  wallet = wallet;
                  of_mint =
                      wallet_of redis hashing ttls cdk settings mint amount.0 s9 wallet got
                      ∙ ap (λ t. record { mint_url = t; unit = amount.0 }) (sym normalized);
                  keysets = kept.0;
                  keysets_asked = kept.1;
                  of_keysets = kept.2;
                  ps = kept.3;
                  extracted = kept.4;
                  lock = kept.5;
                  checked = kept.6;
                  stored = kept.7;
                }))))))))))
