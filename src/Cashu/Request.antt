-- ===== src/Cashu/Request.antt =====
-- src/cashu.rs: `generate_payment_request`. CBOR and base64 are a parameter.
use ngx_l.Base.{
  ℕ, ◌+◌, ◌-◌, ◌*◌, ◌/◌, ◌≤◌, ◌<◌, ◌≡◌, ap, Option, none, some, List, ◌++◌, arith, ltb,
  if◌then◌else◌, ℤ, pos, negsuc,
}
use ngx_l.Text.{Str, codes}
use ngx_l.Outcome.{Result, ok, and_then}
use ngx_l.Cashu.{Settings}
use ngx_l.Cashu.Redeem.{as_i64}

-- The fields of the request: the amount and its unit, the mints, and the kind and data of the lock.
pub record PaymentRequest : Type 0 where
  pub a : ℤ
  pub u : Str
  pub m : List Str
  pub nut10 : Option (Str × Str)

-- `/ 1000` of an i64, which rounds towards zero.
unfoldable pub div_1000 : ℤ → ℤ
div_1000 (pos n) = pos (n / 1000)
div_1000 (negsuc n) = if ltb n 999 then pos 0 else negsuc ((n + 1) / 1000 - 1)

-- `+ 999` of an i64, which wraps.
unfoldable pub add_999 : ℤ → ℤ
add_999 (pos n) = as_i64 (n + 999)
add_999 (negsuc n) = if ltb n 999 then pos (998 - n) else negsuc (n - 999)

unfoldable pub payment_request : Settings → ℤ → List Str → PaymentRequest
payment_request settings amount_msat mints = record {
  a = div_1000 (add_999 amount_msat);
  u = codes "sat";
  m = mints;
  nut10 = elim settings.p2pk_public_key [ none ↦ none | some key ↦ some (codes "P2PK", key) ];
}

unfoldable pub generate_payment_request :
    (PaymentRequest → Result Str Str) → Settings → ℤ → List Str → Result Str Str
generate_payment_request encode settings amount_msat mints =
    and_then (encode (payment_request settings amount_msat mints))
      (λ text. ok (codes "creqA" ++ text))

as_i64_small : (n : ℕ) → n < 9223372036854775808 → as_i64 n ≡ pos n
as_i64_small n h = ground arith

-- The amount that a client is asked for is the least number of sat that covers the price, for every price
-- that leaves room for the rounding.
pub request_covers :
    (settings : Settings) (price : ℕ) (mints : List Str)
    → price < 9223372036854774809
    → (a : ℕ) × ((payment_request settings (pos price) mints).a ≡ pos a)
      × (price ≤ a * 1000)
      × (a * 1000 < price + 1000)
unfolding payment_request div_1000 add_999
request_covers settings price mints small = (
  (price + 999) / 1000,
  ap div_1000 (as_i64_small (price + 999) (omega arith)),
  omega arith,
  omega arith,
)
