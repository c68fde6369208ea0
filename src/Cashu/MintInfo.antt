-- ===== src/Cashu/MintInfo.antt =====
-- src/cashu.rs: `MeltConfig`, and what `redeem_to_lightning` takes from the information of a mint in its
-- place. JSON values of `serde_json` are a parameter.
use ngx_l.Base.{
  ℕ, Bool, false, ◌&&◌, Option, none, some, List, [], ◌∷◌, if◌then◌else◌, unwrap_or, or_option,
}
use ngx_l.Text.{Str, codes, str_eq, parse_unsigned}
use ngx_l.Outcome.{Result, ok, err}
use ngx_l.World.{CurrencyUnit, sat, msat, other}
use ngx_l.Fee.{Float, sat_to_msat}

pub record MeltConfig (F64 : Type 0) : Type 0 where
  pub min_balance_sats : ℕ
  pub fee_reserve_percent : F64
  pub min_fee_reserve_sats : ℕ
  -- 0 is no limit.
  pub max_proofs_per_melt : ℕ

-- `serde_json::Value`, with `to_value`.
pub record Serde (Info : Type 0) : Type 1 where
  pub Value : Type 0
  pub to_value : Info → Result Str Value
  pub get : Str → Value → Option Value
  pub as_str : Value → Option Str
  pub as_u64 : Value → Option ℕ
  pub as_array : Value → Option (List Value)

-- The parameters of the melts at one mint.
pub record Limits (F64 : Type 0) : Type 0 where
  pub percent : F64
  pub min_fee_reserve_msat : ℕ
  pub minimum_msat : ℕ

-- The values of CASHU_MELT_MIN_BALANCE_SATS, CASHU_MELT_FEE_RESERVE_PERCENT,
-- CASHU_MELT_MIN_FEE_RESERVE_SATS and CASHU_MAX_PROOFS_PER_MELT.
pub record MeltEnv : Type 0 where
  pub min_balance : Option Str
  pub percent : Option Str
  pub min_fee_reserve : Option Str
  pub max_proofs : Option Str

abbrev parsed : {A : Type 0} → (Str → Option A) → Option Str → A → A
parsed parse value default = elim value [ none ↦ default | some v ↦ unwrap_or (parse v) default ]

-- `str::parse` of a u64, and of a usize of 64 bits.
abbrev parse_u64 : Str → Option ℕ
parse_u64 s = parse_unsigned 18446744073709551616 s

module _ (f : Float) where
  open f use {F64}

  unfoldable pub capture_melt_config : MeltEnv → MeltConfig F64
  capture_melt_config env = record {
    min_balance_sats = parsed parse_u64 env.min_balance 10;
    fee_reserve_percent = parsed f.parse env.percent f.one;
    min_fee_reserve_sats = parsed parse_u64 env.min_fee_reserve 4;
    max_proofs_per_melt = parsed parse_u64 env.max_proofs 0;
  }

  unfoldable pub melt_config : Option (MeltConfig F64) → MeltConfig F64
  melt_config captured = unwrap_or captured (record {
    min_balance_sats = 10;
    fee_reserve_percent = f.one;
    min_fee_reserve_sats = 4;
    max_proofs_per_melt = 0;
  })

  unfoldable pub default_limits : MeltConfig F64 → Limits F64
  default_limits melt = record {
    percent = melt.fee_reserve_percent;
    min_fee_reserve_msat = sat_to_msat melt.min_fee_reserve_sats;
    minimum_msat = sat_to_msat melt.min_balance_sats;
  }

  module _ {Info : Type 0} (serde : Serde Info) where
    open serde use {Value}

    -- `v.get(key)` of a value that may be missing.
    abbrev field : Str → Option Value → Option Value
    field key none = none
    field key (some v) = serde.get key v

    abbrev text_of : Option Value → Option Str
    text_of none = none
    text_of (some v) = serde.as_str v

    abbrev number_of : Option Value → Option ℕ
    number_of none = none
    number_of (some v) = serde.as_u64 v

    abbrev items_of : Option Value → Option (List Value)
    items_of none = none
    items_of (some v) = serde.as_array v

    -- The settings of a NUT, under its number or its name.
    unfoldable pub nut : Str → Str → Value → Option Value
    nut number name info =
        let nuts = serde.get (codes "nuts") info in
        or_option (or_option (field number nuts) (field name nuts)) (serde.get name info)

    abbrev pub target_unit : CurrencyUnit → Str
    target_unit sat = codes "sat"
    target_unit msat = codes "msat"
    target_unit (other _) = codes "sat"

    abbrev unit_of : Value → Str
    unit_of v = unwrap_or (text_of (serde.get (codes "unit") v)) (codes "sat")

    -- An entry for BOLT11 in the unit.
    abbrev pub applies : CurrencyUnit → Value → Bool
    applies unit v =
        elim (text_of (serde.get (codes "method") v)) [
          | none ↦ false
          | some m ↦ str_eq m (codes "bolt11")
        ]
        && str_eq (unit_of v) (target_unit unit)

    abbrev in_msat : Value → ℕ → ℕ
    in_msat v n = if str_eq (unit_of v) (codes "sat") then sat_to_msat n else n

    -- NUT-05: the least amount of a melt.
    unfoldable pub melt_minimum : Value → Limits F64 → Limits F64
    melt_minimum v limits = elim (number_of (serde.get (codes "min_amount") v)) [
      | none ↦ limits
      | some n ↦ record limits { minimum_msat = in_msat v n }
    ]

    unfoldable pub melt_minimums : CurrencyUnit → List Value → Limits F64 → Limits F64
    melt_minimums unit [] limits = limits
    melt_minimums unit (v ∷ vs) limits =
        melt_minimums unit vs (if applies unit v then melt_minimum v limits else limits)

    -- NUT-08: the fee in parts per thousand, and the least fee.
    unfoldable pub quote_percent : Value → Limits F64 → Limits F64
    quote_percent v limits = elim (number_of (serde.get (codes "ppk") v)) [
      | none ↦ limits
      | some ppk ↦ record limits { percent = f.div (f.of_u64 ppk) f.ten }
    ]

    unfoldable pub quote_minimum : Value → Limits F64 → Limits F64
    quote_minimum v limits = elim (number_of (serde.get (codes "min") v)) [
      | none ↦ limits
      | some n ↦ record limits { min_fee_reserve_msat = in_msat v n }
    ]

    unfoldable pub quote_fees : CurrencyUnit → List Value → Limits F64 → Limits F64
    quote_fees unit [] limits = limits
    quote_fees unit (v ∷ vs) limits =
        quote_fees unit vs
          (if applies unit v then quote_minimum v (quote_percent v limits) else limits)

    unfoldable pub limits_from : CurrencyUnit → Value → Limits F64 → Limits F64
    limits_from unit info limits =
        let methods = items_of (field (codes "methods") (nut (codes "5") (codes "nut05") info)) in
        let entries = items_of (nut (codes "8") (codes "nut08") info) in
        quote_fees unit (unwrap_or entries []) (melt_minimums unit (unwrap_or methods []) limits)

    -- Without the information the configured parameters stay.
    unfoldable pub mint_limits : CurrencyUnit → Result Str Info → Limits F64 → Limits F64
    mint_limits unit (err _) limits = limits
    mint_limits unit (ok info) limits = elim (serde.to_value info) [
      | err _ ↦ limits
      | ok v ↦ limits_from unit v limits
    ]
