-- ===== src/Tests/Access.antt =====
-- The theorems of the access handler and of replay protection, applied.
use ngx_l.Base.{false}
use ngx_l.Base.{arith}
use ngx_l.Base.{◌≡◌, refl, ◌≢◌, none, [], ◌∷◌, pos}
use ngx_l.Text.{codes}
use ngx_l.Text
use ngx_l.Outcome.{◌>>=◌}
use ngx_l.World.{World}
use ngx_l.Redis.{with_pool}
use ngx_l.Redis.Laws.{IsHeld}
use ngx_l.Replay.{declined, handle_preimage_claim, store_preimage_as_used, is_preimage_used}
use ngx_l.Replay.Once.{RedisAnswers, outage_fails_closed, spent_refused, store_marks}
use ngx_l.ReplayCache
use ngx_l.ReplayCache.{member}
use ngx_l.L402.{
  credential, l402_path, classic, admit_parsed, admit_fresh, admit, already_used,
  l402_access_handler,
}
use ngx_l.ReplayCache.Invariant.{IsValid, with_capacity-IsValid}
use ngx_l.Replay.Local.{claim_all, local_once}
use ngx_l.L402.Replays.{Shows, handle, traffic, single_use}
use ngx_l.L402Header.{is_l402_scheme}
use ngx_l.Tests.{
  Keys, server, hashing, ttls, preimage, middleware, no_cashu, paid, worker, key, Held, laws,
  others,
}

pub shows : Shows middleware preimage paid
unfolding is_l402_scheme ngx_l.Text.starts_with
shows = record {
  auth = codes "L402 m:p";
  mac = codes "m";
  present = refl;
  not_cashu = refl;
  is_l402 = refl;
  not_detected = refl;
  parsed = refl;
  single = refl;
}

admitted : (handle server hashing ttls middleware [] no_cashu paid worker).1 ≡ declined
unfolding l402_access_handler credential l402_path classic admit_parsed admit_fresh admit
    already_used ◌>>=◌ is_l402_scheme store_preimage_as_used is_preimage_used handle_preimage_claim
    with_pool ngx_l.Text.starts_with member
admitted = refl

single_use_example :
    (handle server hashing ttls middleware [] no_cashu paid (
      traffic server hashing ttls middleware [] no_cashu
        (paid ∷ [])
        (handle server hashing ttls middleware [] no_cashu paid worker).0)).1
    ≢ declined
single_use_example =
    single_use server hashing ttls middleware [] no_cashu preimage laws others paid paid (paid ∷ [])
      worker shows shows refl admitted

outage_fails_closed_example :
    RedisAnswers server hashing ttls preimage
      (pos 0)
      (handle_preimage_claim (store_preimage_as_used server hashing ttls preimage (pos 0) worker).1)
    × ((store_preimage_as_used server hashing ttls preimage (pos 0) worker).0.preimage_cache
        ≡ worker.preimage_cache)
outage_fails_closed_example = outage_fails_closed server hashing ttls preimage (pos 0) worker refl

claimed :
    handle_preimage_claim (store_preimage_as_used server hashing ttls preimage (pos 0) worker).1
    ≡ declined
unfolding store_preimage_as_used handle_preimage_claim with_pool ◌>>=◌ member
claimed = refl

-- The state after the first claim.
abbrev spent : World Keys
spent = (store_preimage_as_used server hashing ttls preimage (pos 0) worker).0

store_marks_example : IsHeld Held spent
store_marks_example = store_marks server hashing ttls preimage (pos 0) laws worker refl claimed

spent_refused_example :
    handle_preimage_claim (store_preimage_as_used server hashing ttls preimage (pos 0) spent).1
    ≢ declined
spent_refused_example =
    spent_refused server hashing ttls preimage (pos 0) laws spent
      (store_marks server hashing ttls preimage (pos 0) laws worker refl claimed)

-- A worker whose Redis was never configured.
abbrev alone : World Keys
alone = record worker { redis_url = none }

alone-IsValid : IsValid alone.preimage_cache
alone-IsValid = with_capacity-IsValid 3

unseen : ngx_l.ReplayCache.contains alone.preimage_cache key ≡ false
unfolding ngx_l.ReplayCache.contains ngx_l.ReplayCache.with_capacity member
unseen = refl

local_once_example :
    (handle_preimage_claim (store_preimage_as_used server hashing ttls preimage (pos 0) alone).1
      ≡ declined)
    × (handle_preimage_claim
          (store_preimage_as_used server hashing ttls preimage (pos 9) (
            claim_all server hashing ttls
              ((codes "q", pos 0) ∷ [])
              (store_preimage_as_used server hashing ttls preimage (pos 0) alone).0)).1
        ≢ declined)
unfolding ngx_l.ReplayCache.with_capacity
local_once_example =
    local_once server hashing ttls preimage (pos 0) (pos 9) ((codes "q", pos 0) ∷ []) alone
      (refl, refl) alone-IsValid unseen (omega arith)
