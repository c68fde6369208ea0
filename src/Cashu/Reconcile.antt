-- ===== src/Cashu/Reconcile.antt =====
-- src/cashu.rs: what runs at the start of a worker and between redemptions: `restore_wallets_state`,
-- `reconcile_pending_proofs` and `sweep_spent_proof_mappings`. A timeout is a clock outside of the worker,
-- which is read at each point where the code waits. A `HashSet` is a list.
pub mod Sweep
use ngx_l.Base.{
  ℕ, zero, suc, ◌+◌, ◌-◌, ◌*◌, ◌/◌, ◌%◌, ◌^◌, ◌≤◌, ◌<◌, min, max, ◌≡◌, refl, sym, ap, ◌∙◌, ◌≡⟨◌⟩◌,
  ◌∎, ◌≢◌, ◌↔◌, ◌⊎◌, inl, inr, Bool, true, false, not, ◌&&◌, ◌||◌, false≢true, Option, none, some,
  List, [], ◌∷◌, ◌++◌, map, append_assoc, append-nil, arith, ltb, leb, ◌==◌, if◌then◌else◌, leb→le,
  ==_iff, ==-refl, Bool-cases, Option-cases, ℤ, pos, negsuc, is_positive, is_negative, as_u64,
  is_some, unwrap_or, or_option, length, all, any, is_empty, first, length-append, All, All-append,
  any-append,
}
use ngx_l.Base.Chunks.{chunks}
use ngx_l.Text.{Str, codes, str_eq}
use ngx_l.ReplayCache.{member, insert}
use ngx_l.Outcome.{Result, ok, err, Action, map_err, ok_or}
use ngx_l.Outcome.Fallible.{Fallible, succeed, of_result, lift, logged, guard, failing, ◌>>=◌, ◌>>◌}
use ngx_l.World.{World, call, Wallet, CurrencyUnit, sat}
use ngx_l.Redis.{Redis}
use ngx_l.Replay.{Hashing}
use ngx_l.Cdk.{Cdk, State, spent, pending, reserved, pending_spent, ProofInfo}
use ngx_l.Cashu.{Settings, try_call}
use ngx_l.Cashu.Tenants.{key_of, delete_mapping_keys}

abbrev pub sweep_batch : ℕ
sweep_batch = 500

-- Why a step at one mint ended.
pub data Halt : Type 0 where
  timed_out : Halt
  failed : Str → Halt

module _ {E : Type 0} (redis : Redis E) (hashing : Hashing) (cdk : Cdk E) (settings : Settings)
    (elapsed : Action E Bool) where
  open cdk use {Proof}

  unfoldable pub await : {A : Type 0} → Action E A → Fallible (World E) Halt A
  await g = do late ← lift (call elapsed); guard (not late) timed_out; lift (call g)

  -- A call whose failure ends the step.
  unfoldable pub await_ok : {A : Type 0} → Action E (Result Str A) → Fallible (World E) Halt A
  await_ok g = do answer ← await g; of_result (map_err failed answer)

  unfoldable pub restore_one : Str → Fallible (World E) Halt (Unit {0})
  restore_one url = do
    let wallet : Wallet = record { mint_url = url; unit = sat }
    of_result (map_err failed (cdk.wallet_new wallet))
    await_ok (cdk.restore wallet)
    succeed tt

  -- What fails at one mint does not stop the others.
  unfoldable pub each_mint :
      (Str → Fallible (World E) Halt (Unit {0})) → List Str → Fallible (World E) Str (Unit {0})
  each_mint step [] = succeed tt
  each_mint step (url ∷ urls) = do logged (step url); each_mint step urls

  unfoldable pub restore_wallets_state : Fallible (World E) Str (Unit {0})
  restore_wallets_state = do
    mints ← of_result (ok_or [] settings.whitelisted_mints)
    try_call cdk.get_db
    each_mint restore_one mints

  -- The proofs that the database no longer has, as spent.
  unfoldable pub removed_proofs :
      List (ProofInfo Proof) → List (ProofInfo Proof) → List (ProofInfo Proof)
  removed_proofs [] remaining = []
  removed_proofs (p ∷ in_flight) remaining =
      let rest = removed_proofs in_flight remaining in
      if member p.y (map (λ q. q.y) remaining) then rest else record p { state = spent } ∷ rest

  unfoldable pub keep_reconciled_proofs_for_sweep :
      List (ProofInfo Proof) → Fallible (World E) Halt (Unit {0})
  keep_reconciled_proofs_for_sweep in_flight = if is_empty in_flight then succeed tt else (do
    remaining ← await_ok (cdk.get_proofs_by_ys (map (λ p. p.y) in_flight))
    let removed = removed_proofs in_flight remaining
    if is_empty removed then succeed tt else (do await (cdk.update_proofs removed []); succeed tt))

  abbrev listed : Result Str (List (ProofInfo Proof)) → List (ProofInfo Proof)
  listed (ok proofs) = proofs
  listed (err _) = []

  -- The result of the check is only logged.
  unfoldable pub reconcile_one : Str → Fallible (World E) Halt (Unit {0})
  reconcile_one url = do
    let wallet : Wallet = record { mint_url = url; unit = sat }
    of_result (map_err failed (cdk.wallet_new wallet))
    in_flight ←
        await (cdk.get_proofs (some wallet.mint_url) (pending ∷ reserved ∷ pending_spent ∷ []))
    await (cdk.recover_incomplete_sagas wallet)
    await (cdk.check_all_pending_proofs wallet)
    keep_reconciled_proofs_for_sweep (listed in_flight)

  unfoldable pub reconcile_pending_proofs : Fallible (World E) Str (Unit {0})
  reconcile_pending_proofs = do
    mints ← of_result (ok_or [] settings.whitelisted_mints)
    try_call cdk.get_db
    each_mint reconcile_one mints

  -- The operations that still run, each asked once.
  unfoldable pub operations : List (ProofInfo Proof) → List Str
  operations [] = []
  operations (p ∷ ps) = elim p.used_by_operation [
    | none ↦ operations ps
    | some op ↦ insert op (operations ps)
  ]

  unfoldable pub running_of : List Str → Action (World E) (List Str)
  running_of [] w = (w, [])
  running_of (op ∷ ops) w =
      let runs = call (cdk.saga_runs op) w in
      let rest = running_of ops runs.0 in (rest.0, if runs.1 then op ∷ rest.1 else rest.1)

  abbrev idle : List Str → ProofInfo Proof → Bool
  idle running p = elim p.used_by_operation [ none ↦ true | some op ↦ not (member op running) ]

  unfoldable pub idle_proofs : List Str → List (ProofInfo Proof) → List (ProofInfo Proof)
  idle_proofs running [] = []
  idle_proofs running (p ∷ ps) =
      let rest = idle_proofs running ps in if idle running p then p ∷ rest else rest

  abbrev pub mapping_keys : List (ProofInfo Proof) → List Str
  mapping_keys batch = map (λ p. key_of redis hashing cdk settings p.proof) batch

  -- The mappings of a batch, then its proofs.
  unfoldable pub sweep_one : List (ProofInfo Proof) → Fallible (World E) Str (Unit {0})
  sweep_one batch = do
    delete_mapping_keys redis hashing cdk settings (mapping_keys batch)
    try_call (cdk.update_proofs [] (map (λ p. p.y) batch))

  -- The first failure stops the sweep.
  unfoldable pub sweep_batches : List (List (ProofInfo Proof)) → Fallible (World E) Str (Unit {0})
  sweep_batches [] = succeed tt
  sweep_batches (batch ∷ batches) = do sweep_one batch; sweep_batches batches

  abbrev redis_configured : Fallible (World E) Str (Unit {0})
  redis_configured w = guard (is_some w.redis_url) (codes "") w

  unfoldable pub sweep_spent_proof_mappings : Fallible (World E) Str (Unit {0})
  sweep_spent_proof_mappings = do
    redis_configured
    try_call cdk.get_db
    found ← try_call (cdk.get_proofs none (spent ∷ []))
    running ← lift (running_of (operations found))
    sweep_batches (chunks sweep_batch (idle_proofs running found))
