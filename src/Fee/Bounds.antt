-- ===== src/Fee/Bounds.antt =====
-- ngx_l402_core/src/fee.rs: the bounds of the two conversions and of the reserve.
use ngx_l.Base.{ℕ, ◌+◌, ◌*◌, ◌≤◌, ◌<◌, ◌≡◌, arith}
use ngx_l.Fee.{u64_max, sat_to_msat, Float, CastSaturates, fee_reserve_msat, melt_reserve_msat}

-- The conversion is exact as long as the product is a u64, is the largest u64 from there on, and is
-- monotone: a larger amount of sats never gives fewer msats.
pub sat_to_msat_saturates :
    (a b : ℕ)
    → (a * 1000 ≤ u64_max → sat_to_msat a ≡ a * 1000)
      × (u64_max < a * 1000 → sat_to_msat a ≡ u64_max)
      × (a ≤ b → sat_to_msat a ≤ sat_to_msat b)
unfolding sat_to_msat
sat_to_msat_saturates a b = (λ h. omega arith, λ h. omega arith, λ h. omega arith)

module _ (f : Float) (cast : CastSaturates f) where
  -- Where the minimum and the mint's input fee are u64s and the cast from a float saturates, the reserve
  -- for a melt is at least the minimum, the input fee and the Lightning reserve, is a u64, is exactly the
  -- sum of the Lightning reserve and the input fee where that is a u64, and else the largest u64.
  pub melt_reserve_msat_bounds :
      (amount : ℕ) (percent : f.F64) (floor input_fee : ℕ)
      → floor ≤ u64_max
      → input_fee ≤ u64_max
      → (floor ≤ melt_reserve_msat f amount percent floor input_fee)
        × (input_fee ≤ melt_reserve_msat f amount percent floor input_fee)
        × (melt_reserve_msat f amount percent floor input_fee ≤ u64_max)
        × (fee_reserve_msat f amount percent floor
            ≤ melt_reserve_msat f amount percent floor input_fee)
        × ((fee_reserve_msat f amount percent floor + input_fee ≤ u64_max)
            → melt_reserve_msat f amount percent floor input_fee
              ≡ fee_reserve_msat f amount percent floor + input_fee)
        × ((u64_max < fee_reserve_msat f amount percent floor + input_fee)
            → melt_reserve_msat f amount percent floor input_fee ≡ u64_max)
  unfolding melt_reserve_msat fee_reserve_msat
  melt_reserve_msat_bounds amount percent floor input_fee hf hi =
      let c = cast (f.mul (f.of_u64 amount) (f.div percent f.hundred)) in
      (omega arith, omega arith, omega arith, omega arith, λ h. omega arith, λ h. omega arith)
