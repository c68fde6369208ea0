-- ===== src/ReplayCache/Invariant.antt =====
-- ngx_l402_core/src/replay_cache.rs: how the set and the queue of the cache belong together.
use ngx_l.Base.{leb}
use ngx_l.Base.{
  ℕ, ◌+◌, ◌≤◌, ◌<◌, ◌≡◌, refl, ◌≢◌, inl, inr, sym, ◌∙◌, true, false, List, [], ◌∷◌, ◌++◌, arith,
  length, length-append, ◌||◌, Bool-cases, false≢true,
}
use ngx_l.Text.{Str, str_eq}
use ngx_l.Text.Laws.{str_eq_iff}
use ngx_l.ReplayCache.{
  ReplayCache, member, erase, insert, remove_first, with_capacity, pop_oldest, make_room, push_back,
  claim, release,
}

-- No key stands twice in the list.
abbrev pub Distinct : List Str → Type 0
Distinct [] = Unit
Distinct (k ∷ s) = (member k s ≡ false) × Distinct s

pub record IsValid (c : ReplayCache) : Type 0 where
  pub same : (k : Str) → member k c.seen ≡ member k c.order
  pub distinct : Distinct c.order
  pub bounded : length c.order ≤ c.cap
  pub positive : 0 < c.cap

pub member-erase_self : (k : Str) (s : List Str) → member k (erase k s) ≡ false
unfolding member erase
member-erase_self k [] = refl
member-erase_self k (j ∷ s) = ground (arith, member-erase_self k s)

pub member-erase_ne : (k j : Str) (s : List Str) → k ≢ j → member j (erase k s) ≡ member j s
unfolding member erase
member-erase_ne k j [] h = refl
member-erase_ne k j (i ∷ s) h =
    ground (arith, member-erase_ne k j s h, str_eq_iff i k, str_eq_iff i j)

pub member-insert : (k j : Str) (s : List Str) → member j (insert k s) ≡ (str_eq k j || member j s)
unfolding member insert
member-insert k j s = ground (arith, str_eq_iff k j)

pub member-append : (j : Str) (s t : List Str) → member j (s ++ t) ≡ (member j s || member j t)
unfolding member
member-append j [] t = refl
member-append j (i ∷ s) t = ground (arith, member-append j s t)

pub remove_first_absent : (k : Str) (s : List Str) → member k s ≡ false → remove_first k s ≡ s
unfolding member remove_first
remove_first_absent k [] h = refl
remove_first_absent k (j ∷ s) h = ground (arith, remove_first_absent k s)

pub member-remove_first_self :
    (k : Str) (s : List Str) → Distinct s → member k (remove_first k s) ≡ false
unfolding member remove_first
member-remove_first_self k [] d = refl
member-remove_first_self k (j ∷ s) d =
    ground (arith, member-remove_first_self k s d.1, str_eq_iff j k)

pub member-remove_first_ne :
    (k j : Str) (s : List Str) → k ≢ j → member j (remove_first k s) ≡ member j s
unfolding member remove_first
member-remove_first_ne k j [] h = refl
member-remove_first_ne k j (i ∷ s) h =
    ground (arith, member-remove_first_ne k j s h, str_eq_iff i k, str_eq_iff i j)

member-remove_first-false :
    (k j : Str) (s : List Str) → member j s ≡ false → member j (remove_first k s) ≡ false
unfolding member remove_first
member-remove_first-false k j [] h = refl
member-remove_first-false k j (i ∷ s) h = ground (arith, member-remove_first-false k j s)

remove_first-Distinct : (k : Str) (s : List Str) → Distinct s → Distinct (remove_first k s)
unfolding remove_first
remove_first-Distinct k [] d = tt
remove_first-Distinct k (j ∷ s) d =
    ground (arith, remove_first-Distinct k s d.1, member-remove_first-false k j s d.0)

pub length-remove_first :
    (k : Str) (s : List Str) → member k s ≡ true → length (remove_first k s) + 1 ≡ length s
unfolding member remove_first
length-remove_first k [] h = cc
length-remove_first k (j ∷ s) h = ground (arith, length-remove_first k s)

Distinct-append :
    (s : List Str) (k : Str) → Distinct s → member k s ≡ false → Distinct (s ++ k ∷ [])
unfolding member
Distinct-append [] k d h = (refl, tt)
Distinct-append (j ∷ s) k d h = (
  ground (arith, member-append j s (k ∷ []), str_eq_iff k j, str_eq_iff j k),
  Distinct-append s k d.1 (ground arith),
)

-- A cache starts out valid, whatever capacity is asked for.
pub with_capacity-IsValid : (n : ℕ) → IsValid (with_capacity n)
unfolding with_capacity
with_capacity-IsValid n = record {
  same = λ k. refl;
  distinct = tt;
  bounded = omega arith;
  positive = omega arith;
}

-- A valid cache with room for one more key.
record HasRoom (c : ReplayCache) : Type 0 where
  valid : IsValid c
  room : length c.order < c.cap

pop_oldest-same :
    (seen : List Str) (j : Str) (l : List Str)
    → ((k : Str) → member k seen ≡ member k (j ∷ l))
    → member j l ≡ false
    → (k : Str) → member k (erase j seen) ≡ member k l
unfolding member
pop_oldest-same seen j l h d k = elim (Bool-cases (str_eq j k)) [
  | inl e ↦ let eq = (str_eq_iff j k).0 e in rw (← eq) (member-erase_self j seen ∙ sym d)
  | inr e ↦ member-erase_ne j k seen (λ p. false≢true (sym e ∙ (str_eq_iff j k).1 p)) ∙ (h k ∙ rw e)
]

pop_oldest-HasRoom :
    (c : ReplayCache) (l : List Str) → c.order ≡ l → IsValid c → HasRoom (pop_oldest c l)
unfolding pop_oldest
pop_oldest-HasRoom c [] e v = record { valid = v; room = rw e v.positive }
pop_oldest-HasRoom c (j ∷ l) e v =
    let d : Distinct (j ∷ l) = rw e at v.distinct in
    let b : length (j ∷ l) ≤ c.cap = rw e at v.bounded in
    record {
      valid = record {
        same = pop_oldest-same c.seen j l (λ k. rw e at (v.same k)) d.0;
        distinct = d.1;
        bounded = omega arith;
        positive = v.positive;
      };
      room = b;
    }

make_room-HasRoom : (c : ReplayCache) → IsValid c → HasRoom (make_room c)
unfolding make_room
make_room-HasRoom c v = elim (Bool-cases (leb c.cap (length c.order))) [
  | inl full ↦ rw full (pop_oldest-HasRoom c c.order refl v)
  | inr space ↦ rw space (record { valid = v; room = ground arith })
]

push_back-IsValid :
    (c : ReplayCache) (k : Str) → HasRoom c → member k c.order ≡ false → IsValid (push_back c k)
unfolding push_back member
push_back-IsValid c k h new = record {
  same = λ j.
      ground (arith, member-insert k j c.seen, member-append j c.order (k ∷ []), h.valid.same j);
  distinct = Distinct-append c.order k h.valid.distinct new;
  bounded = omega (arith, length-append c.order (k ∷ []), h.room);
  positive = h.valid.positive;
}

-- Making room drops keys and adds none.
make_room-fresh :
    (c : ReplayCache) (k : Str) → member k c.order ≡ false → member k (make_room c).order ≡ false
unfolding make_room pop_oldest member
make_room-fresh c k h = elim (Bool-cases (leb c.cap (length c.order))) [
  | inl full ↦ rw full (pop c.order refl)
  | inr space ↦ rw space h
]
  where
    pop : (l : List Str) → c.order ≡ l → member k (pop_oldest c l).order ≡ false
    pop [] e = h
    pop (j ∷ l) e = let m : member k (j ∷ l) ≡ false = rw e at h in ground arith

-- `claim` keeps the cache valid.
pub claim-IsValid : (c : ReplayCache) (k : Str) → IsValid c → IsValid (claim c k).0
unfolding claim
claim-IsValid c k v = elim (Bool-cases (member k c.seen)) [
  | inl old ↦ rw old v
  | inr new ↦ rw new (
      push_back-IsValid (make_room c) k (make_room-HasRoom c v)
        (make_room-fresh c k (sym (v.same k) ∙ new)))
]

-- `release` keeps the cache valid.
pub release-IsValid : (c : ReplayCache) (k : Str) → IsValid c → IsValid (release c k)
unfolding release
release-IsValid c k v = elim (Bool-cases (member k c.seen)) [
  | inl held ↦ rw held (record {
    same = λ j. elim (Bool-cases (str_eq k j)) [
      | inl e ↦
          let eq = (str_eq_iff k j).0 e in
          rw (← eq)
            (member-erase_self k c.seen ∙ sym (member-remove_first_self k c.order v.distinct))
      | inr e ↦
          let ne : k ≢ j = λ p. false≢true (sym e ∙ (str_eq_iff k j).1 p) in
          member-erase_ne k j c.seen ne ∙ (v.same j ∙ sym (member-remove_first_ne k j c.order ne))
    ];
    distinct = remove_first-Distinct k c.order v.distinct;
    bounded = omega (arith, length-remove_first k c.order (sym (v.same k) ∙ held), v.bounded);
    positive = v.positive;
  })
  | inr absent ↦ rw absent v
]
