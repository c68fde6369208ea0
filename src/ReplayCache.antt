-- ===== src/ReplayCache.antt =====
-- ngx_l402_core/src/replay_cache.rs: the bounded in-process replay cache.
-- `seen` is the `HashSet`, `order` the `VecDeque` with its front at the head. The order inside a hash
-- set is not observable here: the code asks for membership, inserts and removes.
pub mod Invariant
pub mod Fifo
use ngx_l.Base.{ℕ, Bool, true, false, ◌||◌, List, [], ◌∷◌, ◌++◌, leb, if◌then◌else◌, length, max}
use ngx_l.Text.{Str, str_eq}

-- `HashSet::contains`, `HashSet::remove` and `HashSet::insert`.
unfoldable pub member : Str → List Str → Bool
member k [] = false
member k (j ∷ s) = str_eq j k || member k s

unfoldable pub erase : Str → List Str → List Str
erase k [] = []
erase k (j ∷ s) = let rest = erase k s in if str_eq j k then rest else j ∷ rest

unfoldable pub insert : Str → List Str → List Str
insert k s = if member k s then s else k ∷ s

-- `position` of the first equal entry, then `VecDeque::remove` at that index.
unfoldable pub remove_first : Str → List Str → List Str
remove_first k [] = []
remove_first k (j ∷ s) = if str_eq j k then s else j ∷ remove_first k s

pub record ReplayCache : Type 0 where
  pub seen : List Str
  pub order : List Str
  pub cap : ℕ

abbrev pub default_replay_cache_cap : ℕ
default_replay_cache_cap = 10000

unfoldable pub with_capacity : ℕ → ReplayCache
with_capacity n = record { seen = []; order = []; cap = max n 1 }

unfoldable pub default : ReplayCache
unfolding with_capacity
default = with_capacity default_replay_cache_cap

unfoldable pub contains : ReplayCache → Str → Bool
unfolding member
contains c k = member k c.seen

-- `if let Some(oldest) = self.order.pop_front() { self.seen.remove(&oldest); }`
pub pop_oldest : ReplayCache → List Str → ReplayCache
unfolding erase
pop_oldest c [] = c
pop_oldest c (oldest ∷ rest) = record c { seen = erase oldest c.seen; order = rest }

pub make_room : ReplayCache → ReplayCache
unfolding pop_oldest
make_room c = if leb c.cap (length c.order) then pop_oldest c c.order else c

pub push_back : ReplayCache → Str → ReplayCache
unfolding insert member
push_back c k = record c { order = c.order ++ k ∷ []; seen = insert k c.seen }

unfoldable pub claim : ReplayCache → Str → ReplayCache × Bool
unfolding member make_room push_back
claim c k = if member k c.seen then (c, false) else (push_back (make_room c) k, true)

unfoldable pub release : ReplayCache → Str → ReplayCache
unfolding member erase remove_first
release c k =
    if member k c.seen
    then record c { seen = erase k c.seen; order = remove_first k c.order }
    else c

unfoldable pub len : ReplayCache → ℕ
len c = length c.order
