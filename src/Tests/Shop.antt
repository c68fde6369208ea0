-- ===== src/Tests/Shop.antt =====
-- The theorems on the mappings of proofs, applied to a server that maps keys to addresses and a database
-- that holds proofs.
use ngx_l.Base.{
  ◌≡◌, refl, ◌∙◌, inr, true, false, none, some, Option, List, [], ◌∷◌, map, if◌then◌else◌, All,
  Bool-cases, inl,
}
use std.Path.{subst}
use ngx_l.Text.{Str, codes, str_eq}
use ngx_l.Text.Laws.{str_eq_refl, eq_of_str_eq}
use ngx_l.ReplayCache.{member, with_capacity}
use ngx_l.Outcome.{ok}
use ngx_l.Outcome.Fallible.{payload}
use ngx_l.World.{World}
use ngx_l.Redis.{Redis}
use ngx_l.Redis.Outside.{Outside}
use ngx_l.Cdk.{Cdk, ProofInfo}
use ngx_l.Cashu.Tenants.{key_of}
use ngx_l.Cashu.Reconcile.{sweep_spent_proof_mappings}
use ngx_l.Cashu.Reconcile.Sweep.{IsOwn, SweepLaws, Findable, sweep-Findable}
use ngx_l.Tests.{hashing, erase_all, member-erase_all}
use ngx_l.Tests.Mint.{mint_over, info, settings}

-- The mappings that the server holds, and the points of the proofs in the database.
record Shop : Type 0 where
  maps : Str → Option Str
  points : List Str

abbrev store : Redis Shop
store = record {
  open_client = λ url. true;
  build_pool = λ e. (e, true);
  get_conn = λ e. (e, true);
  key_exists = λ k e. (e, some false);
  set_nx = λ k ttl e. (e, some true);
  del = λ ks e. (record e { maps = λ j. if member j ks then none else e.maps j }, true);
  get = λ k e. (e, some (e.maps k));
  set = λ k v e. (record e { maps = λ j. if str_eq k j then some v else e.maps j }, true);
  set_ex = λ k v ttl e. (e, true);
  incr_expire = λ k window e. (e, some 7);
  get_price_and_lnurl = λ k l e. (e, some (none, none));
}

abbrev info_of : Str → ProofInfo Str
info_of s = record info { proof = s; y = s }

-- A melt gives one proof of change.
abbrev bank : Cdk Shop
bank = record mint_over {
  get_proofs = λ m ss e. (e, ok (map info_of e.points));
  update_proofs = λ infos ys e. (record e { points = erase_all ys e.points }, ok tt);
  melt_proofs = λ v q ps e. (e, ok (some (codes "z" ∷ [])));
  melt = λ v q e. (e, ok (some (codes "z" ∷ [])));
}

abbrev shop_worker : Shop → World Shop
shop_worker shop = record {
  redis_url = some (codes "redis://r");
  pool_set = false;
  preimage_cache = with_capacity 3;
  processed_tokens = with_capacity 3;
  last_payment_method = none;
  module_set = true;
  wallets = [];
  outside = shop;
}

abbrev mapping : Str → Str
mapping = key_of store hashing bank settings

abbrev key_c : Str
key_c = mapping (codes "c")

-- The proof `c` belongs to the client `x`.
abbrev Mapped : Shop → Type 0
Mapped e = e.maps key_c ≡ some (codes "x")

abbrev mapped : Shop
mapped = record {
  maps = λ j. if str_eq j key_c then some (codes "x") else none;
  points = codes "c" ∷ [];
}

abbrev Unmapped : Shop → Type 0
Unmapped e = e.maps key_c ≡ none

abbrev Known : Shop → Type 0
Known e = member (codes "c") e.points ≡ true

All-IsOwn :
    (l : List Str) → All (IsOwn store hashing bank settings key_c (codes "c")) (map info_of l)
All-IsOwn [] = tt
All-IsOwn (s ∷ l) = (
  λ e.
      subst (λ t. str_eq (mapping s) (mapping t) ≡ true) (eq_of_str_eq s (codes "c") e)
        (str_eq_refl (mapping s)),
  All-IsOwn l,
)

sweep_laws : SweepLaws store hashing bank settings key_c (codes "c") Unmapped Known
sweep_laws = record {
  deleted = λ ks e named _. rw named refl;
  gone_build = λ e h. h;
  gone_conn = λ e h. h;
  gone_del = λ ks e h. elim (Bool-cases (member key_c ks)) [ inl i ↦ rw i refl | inr i ↦ rw i h ];
  gone_db = λ e h. h;
  gone_proofs = λ m ss e h. h;
  gone_saga = λ op e h. h;
  gone_update = λ ys e h. h;
  stored_build = λ e h. h;
  stored_conn = λ e h. h;
  stored_del = λ ks e h. h;
  stored_db = λ e h. h;
  stored_proofs = λ m ss e h. h;
  stored_saga = λ op e h. h;
  stored_update = λ ys absent e h. member-erase_all (codes "c") ys e.points ∙ rw (absent, h) refl;
  own = λ m ss e ps found. subst (All _) (payload found) (All-IsOwn e.points);
}

Known-c : Known mapped
unfolding member
Known-c = refl

sweep-Findable_example :
    Outside
      (Findable store hashing bank settings Unmapped Known)
      (sweep_spent_proof_mappings store hashing bank settings
        (λ e. (e, false))
        (shop_worker mapped)).0
sweep-Findable_example =
    sweep-Findable store hashing bank settings (λ e. (e, false)) sweep_laws (shop_worker mapped)
      (record { holds = inr Known-c })
