-- ===== src/Cashu/Fast/Sorting.antt =====
-- src/cashu.rs: the order that the points of a token's proofs are put in before they are hashed.
use ngx_l.Base.{◌≡◌, refl, ap, ◌∙◌, true, false, List, [], ◌∷◌, arith}
use mathlib.Core.List.{Permᴰ}
use ngx_l.Text.{Str}
use ngx_l.Cashu.Fast.{str_le, insert_sorted, sort_unstable}

str_le_total : (s t : Str) → str_le s t ≡ false → str_le t s ≡ true
unfolding str_le
str_le_total [] t h = cc
str_le_total (c ∷ s) [] h = refl
str_le_total (c ∷ s) (d ∷ t) h = ground (arith, str_le_total s t)

str_le_antisym : (s t : Str) → str_le s t ≡ true → str_le t s ≡ true → s ≡ t
unfolding str_le
str_le_antisym [] [] h k = refl
str_le_antisym [] (d ∷ t) h k = cc
str_le_antisym (c ∷ s) [] h k = cc
str_le_antisym (c ∷ s) (d ∷ t) h k = ground (arith, str_le_antisym s t)

str_le_trans : (s t u : Str) → str_le s t ≡ true → str_le t u ≡ true → str_le s u ≡ true
unfolding str_le
str_le_trans [] t u h k = refl
str_le_trans (c ∷ s) [] u h k = cc
str_le_trans (c ∷ s) (d ∷ t) [] h k = cc
str_le_trans (c ∷ s) (d ∷ t) (e ∷ u) h k = ground (arith, str_le_trans s t u)

insert-insert :
    (s t : Str) (l : List Str)
    → insert_sorted s (insert_sorted t l) ≡ insert_sorted t (insert_sorted s l)
unfolding insert_sorted
insert-insert s t [] = ground (arith, str_le_total s t, str_le_antisym s t)
insert-insert s t (u ∷ l) = ground (
  arith,
  str_le_total s t,
  str_le_antisym s t,
  str_le_trans s t u,
  str_le_trans t s u,
  insert-insert s t l,
)

-- The order of the points does not change what is hashed.
pub sort_unstable-Permᴰ : {l m : List Str} → Permᴰ l m → sort_unstable l ≡ sort_unstable m
unfolding sort_unstable
sort_unstable-Permᴰ Permᴰ.nil = refl
sort_unstable-Permᴰ (Permᴰ.cons {a = a} {b = b} {l₁ = l} e p) =
    ap (λ x. insert_sorted x (sort_unstable l)) e ∙ ap (insert_sorted b) (sort_unstable-Permᴰ p)
sort_unstable-Permᴰ (Permᴰ.swap {a = a} {b = b} {a' = c} {l = l} e f) =
    insert-insert a b (sort_unstable l)
    ∙ ap (λ x. insert_sorted x (insert_sorted a (sort_unstable l))) f
    ∙ ap (λ x. insert_sorted c (insert_sorted x (sort_unstable l))) e
sort_unstable-Permᴰ (Permᴰ.trans p q) = sort_unstable-Permᴰ p ∙ sort_unstable-Permᴰ q
