-- ===== src/Lib.antt =====
-- ngx_l402, an nginx module that sells access to HTTP locations over L402 (Lightning) and Cashu.
--
-- nginx calls `l402_access_handler_wrapper` (src/lib.rs) for every request of a location. The wrapper
-- reads the settings of the location, looks up a price in Redis, asks `l402_access_handler` about the
-- credential, and answers with the request let through, a refusal, or a challenge with an invoice. In
-- dry run it refuses no request and only reports. The credential check verifies a macaroon and
-- claims its preimage, in Redis or in a cache of the worker, so that one payment serves one request.
--
--   ReplayCache   ngx_l402_core/src/replay_cache.rs, the worker's cache of spent keys
--   Fee           ngx_l402_core/src/fee.rs
--   Tenant        ngx_l402_core/src/tenant.rs, `l402_tenant` and its registry
--   L402Header    ngx_l402_core/src/l402_header.rs
--   RateLimit     ngx_l402_core/src/rate_limit.rs
--   Escaping      ngx_l402_core/src/escaping.rs
--   CashuError    ngx_l402_core/src/cashu_error.rs
--   World         the statics and thread-locals of a worker, and the state outside of it
--   Redis         src/lib.rs: `redis_pool`, and the server as a parameter
--   Replay        src/lib.rs: `is_preimage_used` to `cache_settled_preimage`
--   L402          src/lib.rs: `l402_access_handler`
--   Gateway       src/lib.rs: `l402_access_handler_wrapper`, `handle_dry_run_passthrough`, and the
--                 challenge, limiter and dynamic price that they use
--   Config        src/lib.rs: `ModuleConfig` and `merge`
--   Cdk           the Cashu library `cdk`, its wallets and their database, as a parameter
--   Dleq, P2pk    ngx_l402_core/src/dleq.rs and p2pk.rs
--   Cashu         src/cashu.rs: the wallets of a worker; Mints, the whitelist; Tenants, the mapping of
--                 proofs to addresses; Verify and Fast, `verify_cashu_token` and its P2PK variant;
--                 Dispatch and Alone, their part in the access handler; MintInfo and Redeem,
--                 `redeem_to_lightning`; Reconcile, restore, reconciliation and the sweep of mappings;
--                 Request, the payment request; Start, `initialize_p2pk_mode`
--   Base, Text, Outcome    lists, numbers, strings as lists of code points, `Result`, and state passing
--   Tests         runs on small inputs, and each theorem applied
--
-- An operation on the state is a function from the state before it to the state after it and its result;
-- `do` chains them. Inside a file of theorems, the rules of Outcome.Keeps and Outcome.Ends follow the
-- shape of the code. The server, the Lightning node, macaroons, hashes and floats are not source of the
-- program: they are records of functions, which the definitions take as arguments, and what a theorem
-- relies on of them is a hypothesis. A u64 is a natural number, with its saturation written out.
-- Every loop runs over a list, but for `trim_start_matches` of Text, which runs on the length of the
-- text: each strip of a prefix shortens it; and for `chunks` of Base.Chunks, which runs on the
-- number of items.
--
-- A Cashu token is verified by a swap at its mint, or, in P2PK mode, by offline checks of its proofs, which
-- are then claimed in Redis and stored without a swap. Operations that may fail are those of
-- Outcome.Fallible: an error ends them and leaves the state as it was then.
--
-- Not modelled: the files of the wallet (its mnemonic, fingerprint and database); log events and timings; the nginx calls that send a response; metrics.rs,
-- manifest.rs, the payment page, and process start and exit.
pub mod Base
pub mod Text
pub mod Outcome
pub mod ReplayCache
pub mod Fee
pub mod L402Header
pub mod RateLimit
pub mod Escaping
pub mod CashuError
pub mod World
pub mod Redis
pub mod Replay
pub mod L402
pub mod Gateway
pub mod Tenant
pub mod Config
pub mod Cdk
pub mod Dleq
pub mod P2pk
pub mod Cashu
pub mod Tests
