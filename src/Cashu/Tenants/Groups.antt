-- ===== src/Cashu/Tenants/Groups.antt =====
-- src/cashu.rs: where the proofs of a redemption go.
use ngx_l.Base.{◌≡◌, Option, List, [], ◌∷◌, if◌then◌else◌, unwrap_or}
use ngx_l.Text.{Str, str_eq}
use ngx_l.Outcome.{ok}
use ngx_l.World.{World}
use ngx_l.Redis.{Redis}
use ngx_l.Replay.{Hashing}
use ngx_l.Cdk.{Cdk}
use ngx_l.Cashu.{Settings}
use ngx_l.Cashu.Tenants.{get_lnurl_from_proof}

-- The group of an address.
abbrev pub group_of : {A : Type 0} → Str → List (Str × List A) → List A
group_of addr [] = []
group_of addr ((a, ps) ∷ grouped) = if str_eq a addr then ps else group_of addr grouped

-- The items whose destination is the address, in order.
abbrev pub share_of : {A : Type 0} → Str → List A → List Str → List A
share_of addr [] dests = []
share_of addr (p ∷ ps) [] = []
share_of addr (p ∷ ps) (d ∷ dests) =
    if str_eq d addr then p ∷ share_of addr ps dests else share_of addr ps dests

module _ {E : Type 0} (redis : Redis E) (hashing : Hashing) (cdk : Cdk E)
    (settings : Settings) where
  open cdk use {Proof}

  -- The destination of each proof: the address that its mapping gave, or the default one where no mapping
  -- was recorded.
  abbrev pub Routed : Str → List Proof → List Str → Type 0
  Routed default_lnurl [] [] = Unit
  Routed default_lnurl [] (_ ∷ _) = ⊥
  Routed default_lnurl (_ ∷ _) [] = ⊥
  Routed default_lnurl (p ∷ ps) (d ∷ dests) =
      ((mapped : Option Str) × (w : World E) × ((get_lnurl_from_proof redis hashing cdk settings p
            w).1
          ≡ ok mapped)
        × (d ≡ unwrap_or mapped default_lnurl))
      × Routed default_lnurl ps dests
