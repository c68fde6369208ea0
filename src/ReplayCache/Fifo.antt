-- ===== src/ReplayCache/Fifo.antt =====
-- ngx_l402_core/src/replay_cache.rs: what `claim` and `release` promise their callers.
use ngx_l.ReplayCache.{◌∷◌}
use ngx_l.ReplayCache.{ℕ}
use ngx_l.ReplayCache.{List}
use ngx_l.Base.{
  ℕ, suc, ◌+◌, ◌≤◌, ◌<◌, max, ◌≡◌, refl, sym, ap, ◌∙◌, ◌≢◌, inl, inr, true, false, not, List, [],
  ◌∷◌, ◌++◌, append_assoc, arith, leb, leb→le, Bool-cases, length, length-append,
}
use ngx_l.Text.{Str, str_eq}
use ngx_l.Text.Laws.{str_eq_iff, str_eq_refl}
use ngx_l.ReplayCache.{
  with_capacity, ReplayCache, member, remove_first, pop_oldest, make_room, push_back, claim,
  release, contains, len,
}
use ngx_l.ReplayCache.Invariant.{
  with_capacity-IsValid, IsValid, member-erase_self, member-erase_ne, member-insert, member-append,
  length-remove_first, claim-IsValid, release-IsValid,
}

contains-push_back : (c : ReplayCache) (k : Str) → contains (push_back c k) k ≡ true
unfolding contains push_back
contains-push_back c k = ground (arith, member-insert k k c.seen, str_eq_refl k)

-- A key is admitted exactly when the cache does not hold it, is held afterwards, and a second claim
-- of it is refused.
pub claim_once :
    (c : ReplayCache) (k : Str)
    → ((claim c k).1 ≡ not (contains c k))
      × (contains (claim c k).0 k ≡ true)
      × ((claim (claim c k).0 k).1 ≡ false)
unfolding claim contains
claim_once c k = elim (Bool-cases (member k c.seen)) [
  | inl old ↦ rw (old, old) (refl, refl, refl)
  | inr new ↦
      let held : member k (push_back (make_room c) k).seen ≡ true =
        contains-push_back (make_room c) k in
      rw (new, held) (refl, refl, refl)
]

-- After the release of a key that a valid cache holds, the cache does not hold it, has one entry less,
-- and holds the other keys as before.
pub release_lem :
    (c : ReplayCache) (k : Str)
    → IsValid c
    → contains c k ≡ true
    → (contains (release c k) k ≡ false)
      × (len (release c k) + 1 ≡ len c)
      × ((j : Str) → k ≢ j → contains (release c k) j ≡ contains c j)
unfolding release contains len
release_lem c k v held = rw held (
  member-erase_self k c.seen,
  length-remove_first k c.order (sym (v.same k) ∙ held),
  λ j h. member-erase_ne k j c.seen h,
)

-- The calls that other requests make between two uses of one key.
pub data Call : Type 0 where
  claims releases : Str → Call

unfoldable pub run : ReplayCache → List Call → ReplayCache
unfolding claim release
run c [] = c
run c (claims j ∷ calls) = run (claim c j).0 calls
run c (releases j ∷ calls) = run (release c j) calls

-- The calls that claim.
abbrev pub claim_count : List Call → ℕ
claim_count [] = 0
claim_count (claims _ ∷ calls) = suc (claim_count calls)
claim_count (releases _ ∷ calls) = claim_count calls

-- No call releases the key.
abbrev pub Keeps : Str → List Call → Type 0
Keeps k [] = Unit
Keeps k (claims _ ∷ calls) = Keeps k calls
Keeps k (releases j ∷ calls) = (j ≢ k) × Keeps k calls

-- The key stands in the queue with fewer than `n` keys behind it.
Within : Str → ℕ → List Str → Type 0
Within k n l = (front : List Str) × (back : List Str) × (l ≡ front ++ k ∷ back) × (length back < n)

member_of_Within : (k : Str) (n : ℕ) (l : List Str) → Within k n l → member k l ≡ true
unfolding Within member
member_of_Within k n l (front, back, e, _) =
    rw e (ground (arith, member-append k front (k ∷ back), str_eq_refl k))

Within-append : (k j : Str) (n : ℕ) (l : List Str) → Within k n l → Within k (suc n) (l ++ j ∷ [])
unfolding Within
Within-append k j n l (front, back, e, b) = (
  front,
  back ++ j ∷ [],
  rw e (append_assoc front (k ∷ back) (j ∷ [])),
  omega (arith, length-append {0} back (j ∷ [])),
)

-- Dropping the front of a queue with `n` keys or more leaves the key in place.
Within-tail : (k j : Str) (n : ℕ) (l : List Str) → Within k n (j ∷ l) → n ≤ length l → Within k n l
unfolding Within
Within-tail k j n l ([], back, e, b) h = absurd (omega (arith, ap (length {0}) e))
Within-tail k j n l (i ∷ front, back, e, b) h = (front, back, cc, b)

Within-cons : (k i : Str) (n : ℕ) (l : List Str) → Within k n l → Within k n (i ∷ l)
unfolding Within
Within-cons k i n l (front, back, e, b) = (i ∷ front, back, ap (◌∷◌ i) e, b)

length-remove_first-le : (j : Str) (l : List Str) → length (remove_first j l) ≤ length l
unfolding remove_first
length-remove_first-le j [] = omega arith
length-remove_first-le j (i ∷ l) = ground (arith, length-remove_first-le j l)

Within-remove_first_of_append :
    (k j : Str) (n : ℕ) (front back : List Str)
    → j ≢ k
    → length back < n
    → Within k n (remove_first j (front ++ k ∷ back))
unfolding remove_first Within
Within-remove_first_of_append k j n [] back h b = elim (Bool-cases (str_eq k j)) [
  | inl e ↦ absurd (h (sym ((str_eq_iff k j).0 e)))
  | inr e ↦ rw e ([], remove_first j back, refl, omega (arith, length-remove_first-le j back))
]
Within-remove_first_of_append k j n (i ∷ front) back h b = elim (Bool-cases (str_eq i j)) [
  | inl e ↦ rw e (front, back, refl, b)
  | inr e ↦ rw e (Within-cons k i n _ (Within-remove_first_of_append k j n front back h b))
]

Within-remove_first :
    (k j : Str) (n : ℕ) (l : List Str) → j ≢ k → Within k n l → Within k n (remove_first j l)
unfolding Within
Within-remove_first k j n l h (front, back, e, b) =
    rw e (Within-remove_first_of_append k j n front back h b)

Within-pop_oldest :
    (c : ReplayCache) (k : Str) (n : ℕ) (l : List Str)
    → c.order ≡ l
    → n < length l
    → Within k n l
    → Within k n (pop_oldest c l).order
unfolding pop_oldest
Within-pop_oldest c k n [] e h w = absurd (omega arith)
Within-pop_oldest c k n (j ∷ l) e h w = Within-tail k j n l w (omega arith)

Within-weaken : (k : Str) (n : ℕ) (l : List Str) → Within k n l → Within k (suc n) l
unfolding Within
Within-weaken k n l (front, back, e, b) = (front, back, e, omega arith)

Within-claim :
    (c : ReplayCache) (k j : Str) (n : ℕ)
    → n < c.cap
    → Within k n c.order
    → Within k (suc n) (claim c j).0.order
unfolding claim make_room push_back
Within-claim c k j n h w = elim (Bool-cases (member j c.seen)) [
  | inl old ↦ rw old (Within-weaken k n c.order w)
  | inr new ↦ rw new (elim (Bool-cases (leb c.cap (length c.order))) [
    | inl full ↦ rw full (
        Within-append k j n _
          (Within-pop_oldest c k n c.order refl (omega (arith, leb→le _ _ full)) w))
    | inr space ↦ rw space (Within-append k j n _ w)
  ])
]

cap-pop_oldest : (c : ReplayCache) (l : List Str) → (pop_oldest c l).cap ≡ c.cap
unfolding pop_oldest
cap-pop_oldest c [] = refl
cap-pop_oldest c (j ∷ l) = refl

cap-make_room : (c : ReplayCache) → (make_room c).cap ≡ c.cap
unfolding make_room
cap-make_room c = ground (arith, cap-pop_oldest c c.order)

cap-claim : (c : ReplayCache) (j : Str) → (claim c j).0.cap ≡ c.cap
unfolding claim make_room push_back
cap-claim c j = elim (Bool-cases (member j c.seen)) [
  | inl old ↦ rw old
  | inr new ↦ rw new (cap-make_room c)
]

cap-release : (c : ReplayCache) (j : Str) → (release c j).cap ≡ c.cap
unfolding release
cap-release c j = ground arith

Within-release :
    (c : ReplayCache) (k j : Str) (n : ℕ)
    → j ≢ k
    → Within k n c.order
    → Within k n (release c j).order
unfolding release
Within-release c k j n h w = elim (Bool-cases (member j c.seen)) [
  | inl held ↦ rw held (Within-remove_first k j n c.order h w)
  | inr absent ↦ rw absent w
]

run-Within :
    (k : Str) (calls : List Call) (c : ReplayCache) (n : ℕ)
    → IsValid c
    → n + claim_count calls ≤ c.cap
    → Keeps k calls
    → Within k n c.order
    → contains (run c calls) k ≡ true
unfolding run
run-Within k [] c n v h ks w = unfold contains in v.same k ∙ member_of_Within k n c.order w
run-Within k (claims j ∷ calls) c n v h ks w =
    run-Within k calls (claim c j).0 (suc n) (claim-IsValid c j v) (omega (arith, cap-claim c j)) ks
      (Within-claim c k j n (omega arith) w)
run-Within k (releases j ∷ calls) c n v h ks w =
    run-Within k calls (release c j) n (release-IsValid c j v) (omega (arith, cap-release c j)) ks.1
      (Within-release c k j n ks.0 w)

Within-claim_fresh :
    (c : ReplayCache) (k : Str) → contains c k ≡ false → Within k 1 (claim c k).0.order
unfolding claim push_back contains Within
Within-claim_fresh c k new = rw new ((make_room c).order, [], refl, omega arith)

-- A fresh key that a valid cache admitted is still refused after any calls that claim fewer than `cap`
-- keys and do not release it.
pub survives :
    (c : ReplayCache) (k : Str) (calls : List Call)
    → IsValid c
    → contains c k ≡ false
    → claim_count calls < c.cap
    → Keeps k calls
    → (claim (run (claim c k).0 calls) k).1 ≡ false
survives c k calls v new few ks =
    (claim_once _ k).0
    ∙ ap not (
        run-Within k calls (claim c k).0 1 (claim-IsValid c k v) (omega (arith, cap-claim c k)) ks
          (Within-claim_fresh c k new))

run-IsValid' :
    (c : ReplayCache) (calls : List Call)
    → IsValid c
    → IsValid (run c calls) × ((run c calls).cap ≡ c.cap)
unfolding run
run-IsValid' c [] v = (v, refl)
run-IsValid' c (claims j ∷ calls) v =
    let (v', e) = run-IsValid' (claim c j).0 calls (claim-IsValid c j v) in (v', e ∙ cap-claim c j)
run-IsValid' c (releases j ∷ calls) v =
    let (v', e) = run-IsValid' (release c j) calls (release-IsValid c j v) in
    (v', e ∙ cap-release c j)

-- Whatever is claimed and released, a cache made for `n` keys stays valid and never holds more than
-- `n` keys, or one if `n` is 0.
pub run-IsValid :
    (n : ℕ) (calls : List Call)
    → IsValid (run (with_capacity n) calls) × (len (run (with_capacity n) calls) ≤ max n 1)
run-IsValid n calls =
    let v = run-IsValid' (with_capacity n) calls (with_capacity-IsValid n) in
    (v.0, unfold len with_capacity in omega (arith, v.0.bounded, v.1))
