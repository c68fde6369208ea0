-- ===== src/Cashu/Tenants.antt =====
-- src/cashu.rs: which tenant a proof belongs to. The mapping from proofs to addresses stands in Redis,
-- under `proof_mapping_key` (ngx_l402_core/src/proof_mapping.rs). A `HashMap` is an association list. An
-- error of Redis is its text up to what the client library appends to it.
pub mod Groups
use ngx_l.Base.{
  ℕ, zero, suc, ◌+◌, ◌-◌, ◌*◌, ◌/◌, ◌%◌, ◌^◌, ◌≤◌, ◌<◌, min, max, ◌≡◌, refl, sym, ap, ◌∙◌, ◌≡⟨◌⟩◌,
  ◌∎, ◌≢◌, ◌↔◌, ◌⊎◌, inl, inr, Bool, true, false, not, ◌&&◌, ◌||◌, false≢true, Option, none, some,
  List, [], ◌∷◌, ◌++◌, map, append_assoc, append-nil, arith, ltb, leb, ◌==◌, if◌then◌else◌, leb→le,
  ==_iff, ==-refl, Bool-cases, Option-cases, ℤ, pos, negsuc, is_positive, is_negative, as_u64,
  is_some, unwrap_or, or_option, length, all, any, is_empty, first, length-append, All, All-append,
  any-append,
}
use ngx_l.Text.{Str, codes, str_eq}
use ngx_l.Outcome
use ngx_l.Outcome.{Result, ok, err, Action, map_err, ok_or}
use ngx_l.Outcome.Fallible.{Fallible, succeed, of_result, lift, logged, failing, ◌>>=◌, ◌>>◌}
use ngx_l.World.{World, call, Wallet}
use ngx_l.Redis.{
  Redis, ReplayClaimError, not_configured, unavailable, redis_pool, with_conn, with_pool,
  redis_absence_reason,
}
use ngx_l.Replay.{Hashing}
use ngx_l.Fee.{u64_max}
use ngx_l.Cdk.{Cdk, State, unspent, pending, ProofInfo}
use ngx_l.Cashu.{Settings, keyset_infos, try_call}

-- `to_string` of the error.
unfoldable pub claim_error : ReplayClaimError → Str
claim_error not_configured = codes "Redis not configured"
claim_error unavailable = codes "Redis unavailable: "

unfoldable pub command_reply : {A : Type 0} → Str → Option A → Result Str A
command_reply text none = err text
command_reply text (some a) = ok a

abbrev pub done : Str → Bool → Result Str (Unit {0})
done text true = ok tt
done text false = err text

abbrev pub refusing : Str
refusing =
    codes
      "cannot read the proof-to-LNURL mapping, refusing to redeem to the default address and misroute tenant funds: "

-- `grouped.entry(lnurl).or_default().push(proof)`.
unfoldable pub push_at : {A : Type 0} → Str → A → List (Str × List A) → List (Str × List A)
push_at addr p [] = (addr, p ∷ []) ∷ []
push_at addr p ((a, ps) ∷ grouped) =
    if str_eq a addr then (a, ps ++ p ∷ []) ∷ grouped else (a, ps) ∷ push_at addr p grouped

module _ {E : Type 0} (redis : Redis E) (hashing : Hashing) (cdk : Cdk E)
    (settings : Settings) where
  open cdk use {Proof, Token, secret, amount, y}

  unfoldable pub proof_mapping_key : Str → Str
  proof_mapping_key text = codes "cashu:proof_lnurl:" ++ hashing.sha256_hex text

  abbrev pub key_of : Proof → Str
  key_of proof = proof_mapping_key (secret proof)

  -- Without a configured Redis no mapping was recorded; one that cannot be reached is an error.
  unfoldable pub unmapped : ReplayClaimError → Result Str (Option Str)
  unmapped not_configured = ok none
  unmapped unavailable = err (claim_error unavailable)

  abbrev pub no_pool : {A : Type 0} → Fallible (World E) Str A
  no_pool w = (w, err (claim_error (redis_absence_reason w)))

  abbrev pub no_conn : {A : Type 0} → Fallible (World E) Str A
  no_conn w = (w, err (codes "Failed to get redis connection from pool: "))

  abbrev pub read_mapping : Str → Fallible (World E) Str (Option Str)
  read_mapping key w =
      let reply = call (redis.get key) w in
      (reply.0, command_reply (codes "Failed to get proof mapping: ") reply.1)

  unfoldable pub get_lnurl_from_proof : Proof → Fallible (World E) Str (Option Str)
  get_lnurl_from_proof proof =
      with_pool redis (λ w. (w, unmapped (redis_absence_reason w))) no_conn
        (read_mapping (key_of proof))

  abbrev pub write_mapping : Str → Str → Fallible (World E) Str (Unit {0})
  write_mapping key lnurl w =
      let reply = call (redis.set key lnurl) w in
      (reply.0, done (codes "Failed to set proof mapping: ") reply.1)

  -- One SET for each proof; the first failure ends the loop.
  unfoldable pub write_mappings : Str → List Proof → Fallible (World E) Str (Unit {0})
  write_mappings lnurl [] = succeed tt
  write_mappings lnurl (proof ∷ proofs) = do
    write_mapping (key_of proof) lnurl
    write_mappings lnurl proofs

  -- The address of the route, else the default one, else nothing.
  abbrev pub address_of : Option Str → Str
  address_of route = unwrap_or (or_option route settings.default_lnurl) []

  unfoldable pub set_proof_to_lnurl : List Proof → Option Str → Fallible (World E) Str (Unit {0})
  set_proof_to_lnurl proofs route = do
    pool ← lift (redis_pool redis)
    if pool
        then (if is_empty (address_of route)
            then of_result (err (codes "No LNURL address available for cashu token"))
            else with_conn redis no_conn (write_mappings (address_of route) proofs))
        else no_pool

  abbrev pub delete_keys : List Str → Fallible (World E) Str (Unit {0})
  delete_keys keys w =
      let reply = call (redis.del keys) w in
      (reply.0, done (codes "Failed to delete proof mappings: ") reply.1)

  unfoldable pub delete_mapping_keys : List Str → Fallible (World E) Str (Unit {0})
  delete_mapping_keys keys =
      if is_empty keys then succeed tt else with_pool redis no_pool no_conn (delete_keys keys)

  unfoldable pub remove_proof_lnurl_mappings : List Proof → Fallible (World E) Str (Unit {0})
  remove_proof_lnurl_mappings proofs = delete_mapping_keys (map key_of proofs)

  abbrev pub Groups : Type 0
  Groups = List (Str × List Proof)

  -- A proof without an address is left out.
  unfoldable pub add_to_group : Groups → Proof → Str → Groups
  add_to_group grouped proof lnurl = if is_empty lnurl then grouped else push_at lnurl proof grouped

  -- The loop over the proofs.
  unfoldable pub group_from : Str → Groups → List Proof → Fallible (World E) Str Groups
  group_from default_lnurl grouped [] = succeed grouped
  group_from default_lnurl grouped (proof ∷ proofs) = do
    mapped ← failing (λ e. refusing ++ e) (get_lnurl_from_proof proof)
    group_from default_lnurl (add_to_group grouped proof (unwrap_or mapped default_lnurl)) proofs

  unfoldable pub group_by_default : Option Str → List Proof → Fallible (World E) Str Groups
  group_by_default none proofs =
      of_result (err (codes "LNURL_ADDRESS is required for multi-tenant mode"))
  group_by_default (some default_lnurl) proofs = group_from default_lnurl [] proofs

  unfoldable pub group_proofs_by_lnurl : List Proof → Fallible (World E) Str Groups
  group_proofs_by_lnurl proofs = group_by_default settings.default_lnurl proofs

  -- `Proofs::ys` and `ProofInfo::new` for each proof.
  unfoldable pub ys : List Proof → Result Str (List Str)
  ys [] = ok []
  ys (proof ∷ proofs) =
      Outcome.and_then (y proof) (λ p. Outcome.and_then (ys proofs) (λ rest. ok (p ∷ rest)))

  unfoldable pub proof_infos :
      Wallet → State → Option Str → List Proof → Result Str (List (ProofInfo Proof))
  proof_infos wallet state condition [] = ok []
  proof_infos wallet state condition (proof ∷ proofs) = Outcome.and_then (y proof) (λ p.
      Outcome.and_then (proof_infos wallet state condition proofs) (λ rest. ok (
        record {
          proof = proof;
          y = p;
          mint_url = wallet.mint_url;
          state = state;
          unit = wallet.unit;
          spending_condition = condition;
          used_by_operation = none;
        }
        ∷ rest)))

  -- `total_amount`, which fails past u64.
  unfoldable pub total_from : ℕ → List Proof → Result Str ℕ
  total_from total [] = ok total
  total_from total (proof ∷ proofs) =
      if leb (total + amount proof) u64_max
      then total_from (total + amount proof) proofs
      else err (codes "Amount overflow")

  -- `checked_sub`.
  unfoldable pub after_fee : ℕ → ℕ → Result Str ℕ
  after_fee total fee =
      if leb fee total
      then ok (total - fee)
      else err (codes "token does not cover the mint's input fee")

  -- The proofs that the swap gave. Otherwise its inputs are set aside, and the swap's error is returned.
  unfoldable pub swapped :
      List Proof → Result Str (Option (List Proof)) → Fallible (World E) Str (List Proof)
  swapped inputs (ok (some received)) = succeed received
  swapped inputs (ok none) = do
    points ← of_result (ys inputs)
    logged (try_call (cdk.update_proofs_state points pending))
    of_result (err (codes "mint swap returned no proofs"))
  swapped inputs (err e) = do
    points ← of_result (ys inputs)
    logged (try_call (cdk.update_proofs_state points pending))
    of_result (err e)

  -- The result of the swap, also where it is an error.
  abbrev pub attempt :
      {A : Type 0} → Action E (Result Str A) → Fallible (World E) Str (Result Str A)
  attempt f = lift (call f)

  unfoldable pub receive_for_tenant :
      Wallet → Token → Option Str → Fallible (World E) Str (Unit {0})
  receive_for_tenant wallet token lnurl_addr = do
    keysets ← try_call (cdk.keysets wallet)
    proofs ← of_result (cdk.proofs (keyset_infos keysets) token)
    fee ← try_call (cdk.get_proofs_fee wallet proofs)
    total ← of_result (total_from 0 proofs)
    net ← of_result (after_fee total fee)
    set_proof_to_lnurl proofs lnurl_addr
    inputs ← of_result (proof_infos wallet unspent none proofs)
    try_call (cdk.update_proofs inputs [])
    answer ← attempt (cdk.swap wallet net proofs)
    received ← swapped proofs answer
    logged (set_proof_to_lnurl received lnurl_addr)
    logged (remove_proof_lnurl_mappings proofs)
    points ← of_result (ys received)
    try_call (cdk.update_proofs_state points unspent)
