-- ===== src/Cashu/Reconcile/Sweep.antt =====
-- src/cashu.rs: `sweep_spent_proof_mappings` keeps the proofs that it needs to find mappings.
use ngx_l.Base.{
  ◌≡◌, refl, sym, ◌≢◌, ◌⊎◌, inl, inr, Bool, true, false, false≢true, Option, none, List, [], ◌∷◌,
  map, arith, if◌then◌else◌, Bool-cases, is_some, All,
}
use std.Path.{subst}
use ngx_l.Text.{Str, codes, str_eq}
use ngx_l.ReplayCache.{member}
use ngx_l.Outcome.{Result, ok, err, Action}
use ngx_l.Outcome.Keeps.{Keeps, Keeps-if}
use ngx_l.Outcome.Fallible.{Ensures, Keeps-try, Keeps-after, Keeps-succeed, Keeps-lift, Keeps-guard}
use ngx_l.World.{World, call}
use ngx_l.Redis.{Redis}
use ngx_l.Redis.Laws.{KeepsKey, with_pool_elim}
use ngx_l.Redis.Outside.{
  Outside, Outside-call, Outside-unchanged, Outside-redis_pool, Outside-with_pool,
}
use ngx_l.Replay.{Hashing}
use ngx_l.Cdk.{Cdk, State, spent, ProofInfo}
use ngx_l.Cashu.{Settings, try_call}
use ngx_l.Cashu.Tenants.{key_of, done, no_pool, no_conn, delete_keys, delete_mapping_keys}
use ngx_l.Cashu.Reconcile.{
  running_of, idle_proofs, idle, mapping_keys, sweep_one, sweep_batches, sweep_spent_proof_mappings,
}
use ngx_l.Base.Chunks.{flatten, chunks_complete, All-left, All-right}

err_ne_ok : {A : Type 0} {e : Str} {a : A} → ◌≢◌ {A = Result Str A} (err e) (ok a)
err_ne_ok h = cc

module _ {E : Type 0} (redis : Redis E) (hashing : Hashing) (cdk : Cdk E)
    (settings : Settings) where
  open cdk use {Proof}

  -- A proof with the point has the key: a point is a function of the secret.
  abbrev pub IsOwn : Str → Str → ProofInfo Proof → Type 0
  IsOwn key point p =
      str_eq p.y point ≡ true → str_eq (key_of redis hashing cdk settings p.proof) key ≡ true

  -- `Gone e`: Redis has no mapping under the key. `Stored e`: the database has the proof with the point.
  -- `DEL` removes a key that it names, and `update_proofs` only the points that it is given.
  pub record SweepLaws (key point : Str) (Gone Stored : E → Type 0) : Type 0 where
    pub deleted :
        (ks : List Str) (e : E)
        → member key ks ≡ true
        → (redis.del ks e).1 ≡ true
        → Gone (redis.del ks e).0
    pub gone_build : KeepsKey Gone redis.build_pool
    pub gone_conn : KeepsKey Gone redis.get_conn
    pub gone_del : (ks : List Str) → KeepsKey Gone (redis.del ks)
    pub gone_db : KeepsKey Gone cdk.get_db
    pub gone_proofs : (m : Option Str) (ss : List State) → KeepsKey Gone (cdk.get_proofs m ss)
    pub gone_saga : (op : Str) → KeepsKey Gone (cdk.saga_runs op)
    pub gone_update : (ys : List Str) → KeepsKey Gone (cdk.update_proofs [] ys)
    pub stored_build : KeepsKey Stored redis.build_pool
    pub stored_conn : KeepsKey Stored redis.get_conn
    pub stored_del : (ks : List Str) → KeepsKey Stored (redis.del ks)
    pub stored_db : KeepsKey Stored cdk.get_db
    pub stored_proofs : (m : Option Str) (ss : List State) → KeepsKey Stored (cdk.get_proofs m ss)
    pub stored_saga : (op : Str) → KeepsKey Stored (cdk.saga_runs op)
    pub stored_update :
        (ys : List Str) → member point ys ≡ false → KeepsKey Stored (cdk.update_proofs [] ys)
    pub own :
        (m : Option Str) (ss : List State) (e : E) (ps : List (ProofInfo Proof))
        → (cdk.get_proofs m ss e).1 ≡ ok ps
        → All (IsOwn key point) ps

  -- The mapping is gone, or the proof that leads to it is in the database.
  abbrev pub Findable : (E → Type 0) → (E → Type 0) → E → Type 0
  Findable Gone Stored e = Gone e ⊎ Stored e

  either :
      {A : Type 0} {Gone Stored : E → Type 0} (g : Action E A)
      → KeepsKey Gone g
      → KeepsKey Stored g
      → KeepsKey (Findable Gone Stored) g
  either g kg ks e (inl gone) = inl (kg e gone)
  either g kg ks e (inr stored) = inr (ks e stored)

  module _ (elapsed : Action E Bool) {key point : Str} {Gone Stored : E → Type 0}
      (laws : SweepLaws key point Gone Stored) where
    delete_keys-Keeps :
        {H : E → Type 0} (ks : List Str)
        → KeepsKey H (redis.del ks)
        → Keeps (Outside H) (delete_keys redis hashing cdk settings ks)
    delete_keys-Keeps ks k = record { at = λ w h. (Outside-call (redis.del ks) k).at w h }

    delete-Keeps :
        (ks : List Str)
        → Keeps (Outside (Findable Gone Stored)) (delete_mapping_keys redis hashing cdk settings ks)
    unfolding delete_mapping_keys
    delete-Keeps ks = Keeps-if _ _ _ (Keeps-succeed tt) (
        Outside-with_pool redis (either redis.build_pool laws.gone_build laws.stored_build)
          (either redis.get_conn laws.gone_conn laws.stored_conn)
          (no_pool redis hashing cdk settings) (no_conn redis hashing cdk settings) _
          (Outside-unchanged _)
          (delete_keys-Keeps ks (either (redis.del ks) (laws.gone_del ks) (laws.stored_del ks)))
          (Outside-unchanged _))

    done-eq-ok : (text : Str) (b : Bool) (u : Unit {0}) → done text b ≡ ok u → b ≡ true
    done-eq-ok text true u h = refl
    done-eq-ok text false u h = absurd (err_ne_ok h)

    deleted_now :
        (v : World E) (ks : List Str) (u : Unit {0})
        → member key ks ≡ true
        → (delete_keys redis hashing cdk settings ks v).1 ≡ ok u
        → Outside Gone (delete_keys redis hashing cdk settings ks v).0
    unfolding call
    deleted_now v ks u named h = record {
      holds = laws.deleted ks v.outside named (done-eq-ok _ _ u h);
    }

    -- A deletion that succeeds and names the key.
    delete-Gone :
        (ks : List Str)
        → member key ks ≡ true
        → Ensures
            (Outside (Findable Gone Stored))
            (λ s _. Outside Gone s)
            (delete_mapping_keys redis hashing cdk settings ks)
    unfolding delete_mapping_keys member
    delete-Gone [] named = absurd (false≢true named)
    delete-Gone (k ∷ ks) named = record {
      at = λ w h u.
          with_pool_elim redis {P = Outside (Findable Gone Stored)}
            (λ r. r.1 ≡ ok u → Outside Gone r.0) _ _ _
            (Outside-redis_pool redis (either redis.build_pool laws.gone_build laws.stored_build))
            (Outside-call redis.get_conn (either redis.get_conn laws.gone_conn laws.stored_conn))
            (λ v _ e. absurd (err_ne_ok e)) (λ v _ e. absurd (err_ne_ok e))
            (λ v _ e. deleted_now v (k ∷ ks) u named e) w h;
    }

    update-Keeps :
        {H : E → Type 0} (ys : List Str)
        → KeepsKey H (cdk.update_proofs [] ys)
        → Keeps (Outside H) (try_call (cdk.update_proofs [] ys))
    unfolding try_call
    update-Keeps ys k = Outside-call _ k

    key_named :
        (batch : List (ProofInfo Proof))
        → All (IsOwn key point) batch
        → member point (map (λ p. p.y) batch) ≡ true
        → member key (mapping_keys redis hashing cdk settings elapsed batch) ≡ true
    unfolding member
    key_named [] own h = absurd (false≢true h)
    key_named (p ∷ batch) own h = ground (arith, own.0, key_named batch own.1)

    sweep_one-Keeps :
        (batch : List (ProofInfo Proof))
        → All (IsOwn key point) batch
        → Keeps
            (Outside (Findable Gone Stored))
            (sweep_one redis hashing cdk settings elapsed batch)
    unfolding sweep_one
    sweep_one-Keeps batch own = elim (Bool-cases (member point (map (λ p. p.y) batch))) [
      | inl e ↦
          Keeps-after _ _ (delete-Keeps _) (delete-Gone _ (key_named batch own e)) (λ _ s gone.
            record {
              holds = inl ((update-Keeps {H = Gone} _ (laws.gone_update _)).at s gone).holds;
            })
      | inr e ↦ Keeps-try _ _ (delete-Keeps _) (λ _. update-Keeps _ (
          either (cdk.update_proofs [] (map (λ p. p.y) batch)) (laws.gone_update _)
            (laws.stored_update _ e)))
    ]

    sweep_batches-Keeps :
        (batches : List (List (ProofInfo Proof)))
        → All (IsOwn key point) (flatten batches)
        → Keeps
            (Outside (Findable Gone Stored))
            (sweep_batches redis hashing cdk settings elapsed batches)
    unfolding sweep_batches
    sweep_batches-Keeps [] own = Keeps-succeed tt
    sweep_batches-Keeps (batch ∷ batches) own =
        Keeps-try _ _ (sweep_one-Keeps batch (All-left _ batch (flatten batches) own))
          (λ _. sweep_batches-Keeps batches (All-right _ batch (flatten batches) own))

    idle_proofs-All :
        (running : List Str) (ps : List (ProofInfo Proof))
        → All (IsOwn key point) ps
        → All (IsOwn key point) (idle_proofs redis hashing cdk settings elapsed running ps)
    unfolding idle_proofs
    idle_proofs-All running [] own = tt
    idle_proofs-All running (p ∷ ps) own =
        by_test (idle redis hashing cdk settings elapsed running p) _
          (idle_proofs-All running ps own.1)
      where
        by_test :
            (b : Bool) (rest : List (ProofInfo Proof))
            → All (IsOwn key point) rest
            → All (IsOwn key point) (if b then p ∷ rest else rest)
        by_test true rest kept = (own.0, kept)
        by_test false rest kept = kept

    running_of-Keeps :
        (ops : List Str)
        → Keeps (Outside (Findable Gone Stored)) (running_of redis hashing cdk settings elapsed ops)
    unfolding running_of
    running_of-Keeps [] = Outside-unchanged _
    running_of-Keeps (op ∷ ops) = record {
      at = λ w h. (running_of-Keeps ops).at _ (
          (Outside-call (cdk.saga_runs op)
              (either (cdk.saga_runs op) (laws.gone_saga op) (laws.stored_saga op))).at
            w h);
    }

    -- The proofs that were found, each under its own key.
    Found : World E → List (ProofInfo Proof) → Type 0
    Found w found = Outside (Findable Gone Stored) w × All (IsOwn key point) found

    Found-Ensures :
        Ensures (Outside (Findable Gone Stored)) Found (try_call (cdk.get_proofs none (spent ∷ [])))
    unfolding try_call call Found
    Found-Ensures = record {
      at = λ w h found e. (
        (Outside-call (cdk.get_proofs none (spent ∷ [])) (
              either (cdk.get_proofs none (spent ∷ [])) (laws.gone_proofs _ _)
                (laws.stored_proofs _ _))).at
            w h,
        laws.own none (spent ∷ []) w.outside found e,
      );
    }

    -- Whatever fails on the way, a sweep leaves a mapping removed or the proof that leads to it in the
    -- database, where one of the two was so before it: no mapping is left behind for good.
    pub sweep-Findable :
        (w : World E)
        → Outside (Findable Gone Stored) w
        → Outside
            (Findable Gone Stored)
            (sweep_spent_proof_mappings redis hashing cdk settings elapsed w).0
    unfolding sweep_spent_proof_mappings try_call Found
    sweep-Findable w h =
        (Keeps-try _ _
            (record {
              at = λ v k.
                  (Keeps-guard {S = World E} {X = Str} {P = Outside (Findable Gone Stored)}
                      (is_some v.redis_url) (codes "")).at
                    v k;
            })
            (λ _.
              Keeps-try _ _
                (Outside-call cdk.get_db (either cdk.get_db laws.gone_db laws.stored_db))
                (λ _.
                  Keeps-after _ _
                    (Outside-call (cdk.get_proofs none (spent ∷ [])) (
                      either (cdk.get_proofs none (spent ∷ [])) (laws.gone_proofs _ _)
                        (laws.stored_proofs _ _)))
                    Found-Ensures
                    (λ found v k.
                      (Keeps-try _ _ (Keeps-lift _ (running_of-Keeps _)) (λ running.
                          sweep_batches-Keeps _ (
                            subst (All (IsOwn key point)) (sym (chunks_complete 499 _))
                              (idle_proofs-All running found k.1)))).at
                        v k.0)))).at
          w h
