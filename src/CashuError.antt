-- ===== src/CashuError.antt =====
-- ngx_l402_core/src/cashu_error.rs: why a Cashu token was not accepted, and the status it answers.
-- The messages of src/cashu.rs are kept as data: one constructor for each `format!` template, with the
-- values that it prints. What the two verification paths word differently is one constructor. An error of
-- a library call is its text.
use ngx_l.Base.{ℕ}
use ngx_l.Text.{Str}
use ngx_l.World.{CurrencyUnit}

pub data Message : Type 0 where
  already_used : Message
  failed_to_decode failed_to_get_value failed_to_get_mint_url failed_to_extract_proofs :
      Str → Message
  failed_to_load_keysets failed_to_get_input_fee failed_to_parse_public_key : Str → Message
  failed_to_compute_y failed_to_verify_state failed_to_store wallet_failed : Str → Message
  invalid_mint_url not_locked_to_us redis_unavailable mint_receive_failed : Str → Message
  amount_overflows no_currency_unit : Message
  unsupported_unit : CurrencyUnit → Message
  insufficient : ℕ → ℕ → Message
  insufficient_after_fee : ℕ → ℕ → ℕ → Message
  mint_not_whitelisted : Str → Message
  no_whitelisted_mints no_public_key : Message
  no_keys_for_keyset : Str → Message
  not_a_spending_condition : Str → Message
  not_p2pk has_locktime : Message
  no_mint_key : ℕ → Str → Message
  dleq_failed : Str → Message
  missing_dleq not_unspent : Message

pub data CashuError : Type 0 where
  bad_credential unacceptable internal : Message → CashuError

unfoldable pub http_status : CashuError → ℕ
http_status (bad_credential _) = 401
http_status (unacceptable _) = 400
http_status (internal _) = 500

-- `Display`: the message, whatever the variant.
unfoldable pub display : CashuError → Message
display (bad_credential m) = m
display (unacceptable m) = m
display (internal m) = m
