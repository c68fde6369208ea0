-- ===== src/Fee.antt =====
-- ngx_l402_core/src/fee.rs: the melt fee reserve and the conversion from sat to msat.
-- A u64 is a natural number below 2^64. `f64` is not source of the program: its type and the four
-- operations that the code uses are a parameter.
pub mod Bounds
use ngx_l.Text.{Str}
use ngx_l.Base.{
  ℕ, zero, suc, ◌+◌, ◌-◌, ◌*◌, ◌/◌, ◌%◌, ◌^◌, ◌≤◌, ◌<◌, min, max, ◌≡◌, refl, sym, ap, ◌∙◌, ◌≡⟨◌⟩◌,
  ◌∎, ◌≢◌, ◌↔◌, ◌⊎◌, inl, inr, Bool, true, false, not, ◌&&◌, ◌||◌, false≢true, Option, none, some,
  List, [], ◌∷◌, ◌++◌, map, append_assoc, append-nil, arith, ltb, leb, ◌==◌, if◌then◌else◌, leb→le,
  ==_iff, ==-refl, Bool-cases, Option-cases, is_some, unwrap_or, or_option, length, all, any,
  is_empty, first, length-append, All, All-append,
}

abbrev pub msat_per_sat : ℕ
msat_per_sat = 1000

abbrev pub u64_max : ℕ
u64_max = 18446744073709551615

-- `u64::saturating_mul`, `u64::saturating_add` and `u64::saturating_sub`.
abbrev pub saturating_mul : ℕ → ℕ → ℕ
saturating_mul a b = min (a * b) u64_max

abbrev pub saturating_add : ℕ → ℕ → ℕ
saturating_add a b = min (a + b) u64_max

abbrev pub saturating_sub : ℕ → ℕ → ℕ
saturating_sub a b = a - b

-- `u64::checked_mul`.
abbrev pub checked_mul : ℕ → ℕ → Option ℕ
checked_mul a b = if leb (a * b) u64_max then some (a * b) else none

unfoldable pub sat_to_msat : ℕ → ℕ
sat_to_msat sats = saturating_mul sats msat_per_sat

-- What the code uses of `f64`: `as f64`, `*`, `/`, the literals 1.0, 10.0 and 100.0, `parse`, and `as u64`.
pub record Float : Type 1 where
  pub F64 : Type 0
  pub of_u64 : ℕ → F64
  pub mul : F64 → F64 → F64
  pub div : F64 → F64 → F64
  pub one : F64
  pub ten : F64
  pub hundred : F64
  pub parse : Str → Option F64
  pub to_u64 : F64 → ℕ

-- `as u64` saturates, so it gives a u64 for every float.
abbrev pub CastSaturates : Float → Type 0
CastSaturates f = (x : f.F64) → f.to_u64 x ≤ u64_max

module _ (f : Float) where
  open f use {F64, of_u64, mul, div, hundred, to_u64}

  unfoldable pub fee_reserve_msat : ℕ → F64 → ℕ → ℕ
  fee_reserve_msat amount_msat percent min_reserve_msat =
      let percentage_fee = to_u64 (mul (of_u64 amount_msat) (div percent hundred)) in
      max percentage_fee min_reserve_msat

  unfoldable pub melt_reserve_msat : ℕ → F64 → ℕ → ℕ → ℕ
  unfolding fee_reserve_msat
  melt_reserve_msat amount_msat percent min_reserve_msat input_fee_msat =
      saturating_add (fee_reserve_msat amount_msat percent min_reserve_msat) input_fee_msat
