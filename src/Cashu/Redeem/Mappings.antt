-- ===== src/Cashu/Redeem/Mappings.antt =====
-- src/cashu.rs: which mappings of proofs to addresses outlive a redemption.
use ngx_l.Base.{ℕ, ◌≡◌, false, Option, some, List, ℤ, All}
use ngx_l.Text.{Str, str_eq}
use ngx_l.ReplayCache.{member}
use ngx_l.Outcome.{ok}
use ngx_l.Outcome.Keeps.{Keeps}
use ngx_l.World.{World, Wallet}
use ngx_l.Redis.{Redis}
use ngx_l.Redis.Laws.{KeepsKey}
use ngx_l.Redis.Outside.{Outside}
use ngx_l.Replay.{Hashing}
use ngx_l.Fee.{Float}
use ngx_l.Cdk.{Cdk}
use ngx_l.Cashu.{Settings}
use ngx_l.Cashu.Tenants.{key_of}
use ngx_l.Cashu.MintInfo.{MeltConfig, Serde}
use ngx_l.Cashu.Redeem.{Payee}

module _ {E : Type 0} (redis : Redis E) (hashing : Hashing) (cdk : Cdk E)
    (settings : Settings) where
  -- No proof of the change of a melt is the proof of the key.
  abbrev pub IsFresh : Str → Option (List cdk.Proof) → Type 0
  IsFresh key change =
      (ps : List cdk.Proof)
      → change ≡ some ps
      → All (λ p. str_eq (key_of redis hashing cdk settings p) key ≡ false) ps

  -- `Held e`: in the state `e`, Redis maps the key to its address. A `SET` of the key and a `DEL` that names
  -- it may end that, and no other call does; the change of a melt has new secrets.
  pub record HoldsMapping (payee : Payee E) (key : Str) (Held : E → Type 0) : Type 0 where
    pub keep_build : KeepsKey Held redis.build_pool
    pub keep_conn : KeepsKey Held redis.get_conn
    pub keep_set : (k v : Str) → str_eq k key ≡ false → KeepsKey Held (redis.set k v)
    pub keep_del : (ks : List Str) → member key ks ≡ false → KeepsKey Held (redis.del ks)
    pub keep_fee : (v : Wallet) (ps : List cdk.Proof) → KeepsKey Held (cdk.get_proofs_fee v ps)
    pub keep_lnurl : (addr : Str) → KeepsKey Held (payee.lnurl_client addr)
    pub keep_client : KeepsKey Held payee.ln_client
    pub keep_invoice :
        (a : Option Str) (n : ℤ) (c : ℕ) (m d : Str)
        → KeepsKey Held (payee.generate_invoice a n c m d)
    pub keep_quote : (v : Wallet) (i : Str) → KeepsKey Held (cdk.melt_quote v i)
    pub keep_melt_proofs :
        (v : Wallet) (q : Str) (ps : List cdk.Proof) → KeepsKey Held (cdk.melt_proofs v q ps)
    pub keep_melt : (v : Wallet) (q : Str) → KeepsKey Held (cdk.melt v q)
    pub fresh_melt_proofs :
        (v : Wallet) (q : Str) (ps : List cdk.Proof) (e : E) (change : Option (List cdk.Proof))
        → (cdk.melt_proofs v q ps e).1 ≡ ok change
        → IsFresh key change
    pub fresh_melt :
        (v : Wallet) (q : Str) (e : E) (change : Option (List cdk.Proof))
        → (cdk.melt v q e).1 ≡ ok change
        → IsFresh key change

module _ {E : Type 0} (redis : Redis E) (hashing : Hashing) (cdk : Cdk E) (settings : Settings)
    (f : Float) (serde : Serde cdk.MintInfo) (payee : Payee E) (melt_settings : MeltConfig f.F64)
    {Held : E → Type 0} (key : Str)
    (laws : HoldsMapping redis hashing cdk settings payee key Held) where
  open cdk use {Proof}

  -- The change of a melt that succeeds is fresh.
  Fresh : World E → Option (List Proof) → Type 0
  Fresh s change = Outside Held s × IsFresh redis hashing cdk settings key change
