-- ===== src/Tests.antt =====
-- A small server, node and macaroon library, on which the theorems are applied in the files below. The
-- state outside the worker is the list of the keys that the server holds.
pub mod Access
pub mod Mint
pub mod Tokens
pub mod Payouts
pub mod Shop
pub mod Front
pub mod Plain
use ngx_l.Text.Laws.{str_eq_of_eq}
use ngx_l.Text.Laws.{eq_of_str_eq}
use ngx_l.Base.{
  ℕ, zero, suc, ◌+◌, ◌-◌, ◌*◌, ◌/◌, ◌%◌, ◌^◌, ◌≤◌, ◌<◌, min, max, ◌≡◌, refl, sym, ap, ◌∙◌, ◌≡⟨◌⟩◌,
  ◌∎, ◌≢◌, ◌↔◌, ◌⊎◌, inl, inr, Bool, true, false, not, ◌&&◌, ◌||◌, false≢true, Option, none, some,
  List, [], ◌∷◌, ◌++◌, map, append_assoc, append-nil, arith, ltb, leb, ◌==◌, if◌then◌else◌, leb→le,
  ==_iff, ==-refl, Bool-cases, Option-cases, ℤ, pos, negsuc, is_positive, is_negative, as_u64,
  is_some, unwrap_or, or_option, length, all, any, is_empty, first, length-append, All, All-append,
}
use std.Path.{subst}
use ngx_l.ReplayCache.Invariant.{member-erase_self, member-erase_ne}
use ngx_l.ReplayCache.{erase}
use ngx_l.Text.{Str, codes, str_eq}
use ngx_l.Text.Laws.{str_eq_refl}
use ngx_l.Outcome.{Result, ok, err}
use ngx_l.World.{World}
use ngx_l.Redis.{Redis}
use ngx_l.Redis.Laws.{HoldsKey}
use ngx_l.Replay.{Hashing, Ttls, preimage_redis_key}
use ngx_l.ReplayCache.{member}
use ngx_l.L402.{Middleware, Request, RequestBinding, path, VerifyCashu, unsettled}
use ngx_l.L402.SingleUse.{OthersKeep}

abbrev pub Keys : Type 0
Keys = List Str

abbrev store_once : Str → Keys → Keys × Option Bool
store_once k e = if member k e then (e, some false) else (k ∷ e, some true)

abbrev pub erase_all : List Str → Keys → Keys
erase_all [] e = e
erase_all (k ∷ ks) e = erase_all ks (ngx_l.ReplayCache.erase k e)

abbrev pub server : Redis Keys
server = record {
  open_client = λ url. true;
  build_pool = λ e. (e, true);
  get_conn = λ e. (e, true);
  key_exists = λ k e. (e, some (member k e));
  set_nx = λ k ttl e. store_once k e;
  del = λ ks e. (erase_all ks e, true);
  get = λ k e. (e, some none);
  set = λ k v e. (e, true);
  set_ex = λ k v ttl e. (e, true);
  incr_expire = λ k window e. (e, some 7);
  get_price_and_lnurl = λ k l e. (e, some (none, none));
}

abbrev pub hashing : Hashing
hashing = record { sha256_hex = λ s. s; hex_encode = λ s. s; hex_decode = λ s. some s }

abbrev pub ttls : Ttls
ttls = record { preimage_ttl = 60; cashu_token_ttl = 60 }

abbrev pub preimage : Str
preimage = codes "p"

abbrev pub middleware : Middleware Keys
middleware = record {
  Macaroon = Str;
  macaroon_from_string = λ s. some s;
  identifier = λ m. m;
  parse_l402_header = λ s. some (codes "m", preimage);
  verify_l402_binding = λ m b root p e. true;
  lookup_invoice = λ h e. (e, unsettled);
}

abbrev pub no_cashu : VerifyCashu Keys
no_cashu token amount lnurl w = (w, none)

-- The credential of a client that has paid.
abbrev pub paid : Request
paid = record {
  auth_header = some (codes "L402 m:p");
  amount_msat = pos 1000;
  binding = path (codes "/a") (codes "GET");
  lnurl_addr = none;
  auto_detect_payment = false;
  indefinite_access = false;
  macaroon_timeout = pos 0;
}

abbrev pub worker : World Keys
worker = record {
  redis_url = some (codes "redis://r");
  pool_set = false;
  preimage_cache = ngx_l.ReplayCache.with_capacity 3;
  processed_tokens = ngx_l.ReplayCache.with_capacity 3;
  last_payment_method = none;
  module_set = true;
  wallets = [];
  outside = [];
}

abbrev pub key : Str
key = preimage_redis_key server hashing ttls preimage

abbrev pub Holds : Str → Keys → Type 0
Holds k e = member k e ≡ true

abbrev pub Held : Keys → Type 0
Held = Holds key

erased : (k j : Str) (e : Keys) → member k (erase j e) ≡ (member k e && not (str_eq j k))
erased k j e = elim (Bool-cases (str_eq j k)) [
  | inl same ↦
      subst (λ t. member t (erase j e) ≡ (member t e && not (str_eq j t))) (eq_of_str_eq j k same)
        (member-erase_self j e ∙ rw (str_eq_refl j) (ground arith))
  | inr other ↦
      member-erase_ne j k e (λ eq. false≢true (sym other ∙ str_eq_of_eq j k eq))
      ∙ rw other (ground arith)
]

pub member-erase_all :
    (k : Str) (ks : List Str) (e : Keys)
    → member k (erase_all ks e) ≡ (member k e && not (member k ks))
unfolding member
member-erase_all k [] e = ground arith
member-erase_all k (j ∷ ks) e = ground (arith, member-erase_all k ks (erase j e), erased k j e)

store_once-stores :
    (k : Str) (e : Keys) → (store_once k e).1 ≡ some true → member k (store_once k e).0 ≡ true
unfolding member
store_once-stores k e h = elim (Bool-cases (member k e)) [
  | inl old ↦ rw old old
  | inr new ↦ rw (new, str_eq_refl k) refl
]

store_once-refuses : (k : Str) (e : Keys) → Holds k e → (store_once k e).1 ≢ some true
store_once-refuses k e h = rw h (λ a. cc)

store_once-keeps : (j k : Str) (e : Keys) → Holds j e → Holds j (store_once k e).0
unfolding member
store_once-keeps j k e h = elim (Bool-cases (member k e)) [
  | inl old ↦ rw old h
  | inr new ↦ rw (new, h) (ground arith)
]

pub store_laws : (k : Str) → HoldsKey server k (Holds k)
store_laws k = record {
  stores = λ ttl e. store_once-stores k e;
  refuses = λ ttl e. store_once-refuses k e;
  keep_build = λ e h. h;
  keep_conn = λ e h. h;
  keep_exists = λ _ e h. h;
  keep_set_nx = λ other ttl. store_once-keeps k other;
  keep_get = λ _ e h. h;
  keep_set = λ _ v other e h. h;
  keep_del = λ ks absent e h. member-erase_all k ks e ∙ rw (absent, h) refl;
  keep_set_ex = λ _ v ttl e h. h;
  keep_prices = λ _ l e h. h;
  keep_incr = λ _ window e h. h;
}

abbrev pub laws : HoldsKey server key Held
laws = store_laws key

pub others : OthersKeep server hashing ttls middleware [] no_cashu Held
others = record { lookup_keeps = λ h e k. k; cashu_keeps = λ t a l. record { at = λ w h. h } }
