-- ===== src/Cdk.antt =====
-- The Cashu library `cdk`, the database of its wallets, and the crate `url`, as a parameter: one function
-- for each call that src/cashu.rs and ngx_l402_core make. An error of a call is its text.
use ngx_l.Base.{ℕ, Bool, true, false, Option, List}
use ngx_l.Text.{Str}
use ngx_l.World.{CurrencyUnit, Wallet}
use ngx_l.Outcome.{Result, Action}

-- `cdk::nuts::State` of a proof.
pub data State : Type 0 where
  unspent spent pending reserved pending_spent : State

abbrev pub is_unspent : State → Bool
is_unspent unspent = true
is_unspent _ = false

-- `cdk::nuts::Kind`, and a NUT-10 secret with its tags.
pub data Kind : Type 0 where
  p2pk htlc : Kind

pub record Nut10Secret : Type 0 where
  pub kind : Kind
  pub tags : Option (List (List Str))

pub record KeySetInfo : Type 0 where
  pub id : Str
  pub unit : CurrencyUnit
  pub active : Bool
  pub input_fee_ppk : ℕ
  pub final_expiry : Option ℕ

pub record KeySet (Key : Type 0) : Type 0 where
  pub id : Str
  pub unit : CurrencyUnit
  pub active : Option Bool
  pub input_fee_ppk : ℕ
  pub final_expiry : Option ℕ
  pub amount_key : ℕ → Option Key

-- `cdk::types::ProofInfo`, without the fields that the code leaves empty.
pub record ProofInfo (Proof : Type 0) : Type 0 where
  pub proof : Proof
  pub y : Str
  pub mint_url : Str
  pub state : State
  pub unit : CurrencyUnit
  -- The key that the proof is locked to.
  pub spending_condition : Option Str
  pub used_by_operation : Option Str

pub record MeltQuote : Type 0 where
  pub id : Str
  pub amount : ℕ
  pub fee_reserve : ℕ

pub record Cdk (E : Type 0) : Type 1 where
  pub MintInfo : Type 0
  pub Token : Type 0
  pub Proof : Type 0
  pub Key : Type 0
  -- Tokens.
  pub token_from_str : Str → Result Str Token
  pub value : Token → Result Str ℕ
  pub unit : Token → Option CurrencyUnit
  pub mint_url : Token → Result Str Str
  pub proofs : List KeySetInfo → Token → Result Str (List Proof)
  -- Proofs. A point is its text in hex.
  pub secret : Proof → Str
  pub amount : Proof → ℕ
  pub keyset_id : Proof → Str
  pub y : Proof → Result Str Str
  pub has_dleq : Proof → Bool
  pub verify_dleq : Proof → Key → Result Str (Unit {0})
  pub nut10_secret : Proof → Result Str Nut10Secret
  pub sign_p2pk : Str → Proof → Result Str Proof
  -- Keys: of an amount, `SecretKey::from_hex` and its public key, and `PublicKey::from_hex`.
  pub secret_key_from_hex : Str → Result Str Str
  pub public_key : Str → Str
  pub public_key_from_hex : Str → Result Str (Unit {0})
  -- URLs: `Url::parse` with the text of the result, `str::to_lowercase`, `MintUrl::from_str`.
  pub url_parse : Str → Option Str
  pub to_lowercase : Str → Str
  pub mint_url_from_str : Str → Result Str (Unit {0})
  -- The database of the process, and what a wallet does with it and its mint.
  pub get_db : Action E (Result Str (Unit {0}))
  pub wallet_new : Wallet → Result Str (Unit {0})
  pub keysets : Wallet → Action E (Result Str (List (KeySet Key)))
  pub get_proofs_fee : Wallet → List Proof → Action E (Result Str ℕ)
  pub receive : Wallet → Str → Action E (Result Str (Unit {0}))
  pub swap : Wallet → ℕ → List Proof → Action E (Result Str (Option (List Proof)))
  pub verify_token_p2pk : Wallet → Token → Str → Action E (Result Str (Unit {0}))
  pub check_proofs_spent : Wallet → List Proof → Action E (Result Str (List State))
  -- The second list of `update_proofs` holds the points of the proofs to delete.
  pub update_proofs : List (ProofInfo Proof) → List Str → Action E (Result Str (Unit {0}))
  pub update_proofs_state : List Str → State → Action E (Result Str (Unit {0}))
  -- Redemption.
  pub total_balance : Wallet → Action E (Result Str ℕ)
  pub get_unspent_proofs : Wallet → Action E (Result Str (List Proof))
  pub fetch_mint_info : Wallet → Action E (Result Str MintInfo)
  pub melt_quote : Wallet → Str → Action E (Result Str MeltQuote)
  -- `prepare_melt_proofs` and `prepare_melt` with their `confirm`; the result is the change.
  pub melt_proofs : Wallet → Str → List Proof → Action E (Result Str (Option (List Proof)))
  pub melt : Wallet → Str → Action E (Result Str (Option (List Proof)))
  -- The proofs of the database in some states: of one mint, or of all.
  pub get_proofs : Option Str → List State → Action E (Result Str (List (ProofInfo Proof)))
  pub get_proofs_by_ys : List Str → Action E (Result Str (List (ProofInfo Proof)))
  -- Whether an operation still has a saga; an error counts as one.
  pub saga_runs : Str → Action E Bool
  -- `Wallet::restore` with the amount that it found, and the calls of reconciliation.
  pub restore : Wallet → Action E (Result Str ℕ)
  pub recover_incomplete_sagas : Wallet → Action E (Result Str (Unit {0}))
  pub check_all_pending_proofs : Wallet → Action E (Result Str ℕ)
