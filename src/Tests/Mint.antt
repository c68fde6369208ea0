-- ===== src/Tests/Mint.antt =====
-- A small mint: a token is its text and its one proof, worth 8 sat, locked to the server and unspent.
use ngx_l.Outcome.{err}
use ngx_l.Cdk.{ProofInfo}
use ngx_l.Base.{true, false, none, some, [], ◌∷◌}
use ngx_l.Text.{Str, codes}
use ngx_l.Outcome.{ok}
use ngx_l.World.{sat}
use ngx_l.Cdk.{Cdk, KeySet, unspent, Nut10Secret, p2pk, MeltQuote}
use ngx_l.Cashu.{Settings}
use ngx_l.Tests.{Keys}

abbrev mint_keyset : KeySet (Unit {0})
mint_keyset = record {
  id = codes "k";
  unit = sat;
  active = some true;
  input_fee_ppk = 100;
  final_expiry = none;
  amount_key = λ n. some tt;
}

abbrev lock_secret : Nut10Secret
lock_secret = record { kind = p2pk; tags = none }

abbrev quote : MeltQuote
quote = record { id = codes "q"; amount = 6; fee_reserve = 1 }

abbrev pub info : ProofInfo Str
info = record {
  proof = codes "a";
  y = codes "a";
  mint_url = codes "m";
  state = unspent;
  unit = sat;
  spending_condition = none;
  used_by_operation = some (codes "o");
}

-- Over any state, of which it reads and changes nothing.
abbrev pub mint_over : {E : Type 0} → Cdk E
mint_over = record {
  MintInfo = Str;
  Token = Str;
  Proof = Str;
  Key = Unit {0};
  token_from_str = λ s. ok s;
  value = λ t. ok 8;
  unit = λ t. some sat;
  mint_url = λ t. ok (codes "m/");
  proofs = λ ks t. ok (t ∷ []);
  secret = λ p. p;
  amount = λ p. 8;
  keyset_id = λ p. codes "k";
  y = λ p. ok p;
  has_dleq = λ p. true;
  verify_dleq = λ p k. ok tt;
  nut10_secret = λ p. ok lock_secret;
  sign_p2pk = λ k p. ok p;
  secret_key_from_hex = λ s. ok s;
  public_key = λ s. s;
  public_key_from_hex = λ s. ok tt;
  url_parse = λ s. some s;
  to_lowercase = λ s. s;
  mint_url_from_str = λ s. ok tt;
  get_db = λ e. (e, ok tt);
  wallet_new = λ v. ok tt;
  keysets = λ v e. (e, ok (mint_keyset ∷ []));
  get_proofs_fee = λ v ps e. (e, ok 1);
  receive = λ v t e. (e, ok tt);
  swap = λ v n ps e. (e, ok (some ps));
  verify_token_p2pk = λ v t k e. (e, ok tt);
  check_proofs_spent = λ v ps e. (e, ok (unspent ∷ []));
  update_proofs = λ i ys e. (e, ok tt);
  update_proofs_state = λ ys s e. (e, ok tt);
  total_balance = λ v e. (e, ok 8);
  get_unspent_proofs = λ v e. (e, ok (codes "a" ∷ []));
  fetch_mint_info = λ v e. (e, err (codes "down"));
  melt_quote = λ v i e. (e, ok quote);
  melt_proofs = λ v q ps e. (e, ok none);
  melt = λ v q e. (e, ok none);
  get_proofs = λ m ss e. (e, ok (info ∷ []));
  get_proofs_by_ys = λ ys e. (e, ok []);
  saga_runs = λ o e. (e, false);
  restore = λ v e. (e, ok 0);
  recover_incomplete_sagas = λ v e. (e, ok tt);
  check_all_pending_proofs = λ v e. (e, ok 0);
}

abbrev pub mint : Cdk Keys
mint = mint_over

abbrev pub settings : Settings
settings = record {
  ecash_enabled = true;
  p2pk_mode = true;
  require_dleq = true;
  ln_client_type = some (codes "LNURL");
  default_lnurl = some (codes "d");
  whitelisted_mints = some (codes "m" ∷ []);
  p2pk_private_key = some (codes "s");
  p2pk_public_key = some (codes "s");
}
