-- ===== src/RateLimit.antt =====
-- ngx_l402_core/src/rate_limit.rs: `parse_rate_limit`.
pub mod Range
use ngx_l.Base.{
  ℕ, zero, suc, ◌+◌, ◌-◌, ◌*◌, ◌/◌, ◌%◌, ◌^◌, ◌≤◌, ◌<◌, min, max, ◌≡◌, refl, sym, ap, ◌∙◌, ◌≡⟨◌⟩◌,
  ◌∎, ◌≢◌, ◌↔◌, ◌⊎◌, inl, inr, Bool, true, false, not, ◌&&◌, ◌||◌, false≢true, Option, none, some,
  List, [], ◌∷◌, ◌++◌, map, append_assoc, append-nil, arith, ltb, leb, ◌==◌, if◌then◌else◌, leb→le,
  ==_iff, ==-refl, Bool-cases, Option-cases, ℤ, pos, negsuc, is_positive, is_negative, as_u64,
  is_some, unwrap_or, or_option, length, all, any, is_empty, first, length-append, All, All-append,
}
use ngx_l.Text.{Str, codes, trim, strip_suffix, parse_unsigned}

-- The bound of u32.
abbrev pub u32_bound : ℕ
u32_bound = 4294967296

-- `n.parse::<u32>().ok().map(|c| (c, window))`.
unfoldable pub per_window : ℕ → Option ℕ → Option (ℕ × ℕ)
per_window window none = none
per_window window (some c) = some (c, window)

-- The three suffixes, in the order in which they are tried; each gets what its `strip_suffix` gave.
unfoldable pub per_second : Str → Option Str → Option (ℕ × ℕ)
per_second val (some n) = per_window 1 (parse_unsigned u32_bound (trim n))
per_second val none = per_window 60 (parse_unsigned u32_bound val)

unfoldable pub per_hour : Str → Option Str → Option (ℕ × ℕ)
per_hour val (some n) = per_window 3600 (parse_unsigned u32_bound (trim n))
per_hour val none = per_second val (strip_suffix (codes "r/s") val)

unfoldable pub per_minute : Str → Option Str → Option (ℕ × ℕ)
per_minute val (some n) = per_window 60 (parse_unsigned u32_bound (trim n))
per_minute val none = per_hour val (strip_suffix (codes "r/h") val)

unfoldable pub parse_rate_limit : Str → Option (ℕ × ℕ)
parse_rate_limit text = per_minute (trim text) (strip_suffix (codes "r/m") (trim text))
