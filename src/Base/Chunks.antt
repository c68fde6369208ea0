-- ===== src/Base/Chunks.antt =====
-- `slice::chunks` of the standard library, and what it keeps of a list.
use ngx_l.Base.{ℕ, zero, suc, ◌≤◌, ◌≡◌, refl, ap, ◌∙◌, List, [], ◌∷◌, ◌++◌, arith, length, All}

-- `slice::chunks`: each step takes at least one item, so the number of items is fuel enough.
abbrev pub split_at : {A : Type 0} → ℕ → List A → List A × List A
split_at zero l = ([], l)
split_at (suc n) [] = ([], [])
split_at (suc n) (x ∷ l) = let rest = split_at n l in (x ∷ rest.0, rest.1)

unfoldable pub chunks_fuel : {A : Type 0} → ℕ → ℕ → List A → List (List A)
chunks_fuel zero size l = []
chunks_fuel (suc fuel) size [] = []
chunks_fuel (suc fuel) size (x ∷ l) =
    let parts = split_at size (x ∷ l) in let rest = chunks_fuel fuel size parts.1 in parts.0 ∷ rest

unfoldable pub chunks : {A : Type 0} → ℕ → List A → List (List A)
chunks size l = chunks_fuel (length l) size l

-- The items of a list, cut up and put together again.
abbrev pub flatten : {A : Type 0} → List (List A) → List A
flatten [] = []
flatten (l ∷ ls) = l ++ flatten ls

split_at_append : {A : Type 0} (n : ℕ) (l : List A) → (split_at n l).0 ++ (split_at n l).1 ≡ l
split_at_append zero l = refl
split_at_append (suc n) [] = refl
split_at_append (suc n) (x ∷ l) = ap (λ t. x ∷ t) (split_at_append n l)

length-split_at : {A : Type 0} (n : ℕ) (l : List A) → length (split_at n l).1 ≤ length l
length-split_at zero l = omega arith
length-split_at (suc n) [] = omega arith
length-split_at (suc n) (x ∷ l) = ground (arith, length-split_at n l)

-- The fuel of `chunks` is enough: no item is lost, for chunks of any positive size.
chunks_fuel_enough :
    {A : Type 0} (fuel size : ℕ) (l : List A)
    → length l ≤ fuel
    → flatten (chunks_fuel fuel (suc size) l) ≡ l
unfolding chunks_fuel
chunks_fuel_enough zero size [] h = refl
chunks_fuel_enough zero size (x ∷ l) h = absurd (omega arith)
chunks_fuel_enough (suc fuel) size [] h = refl
chunks_fuel_enough (suc fuel) size (x ∷ l) h =
    ap (λ t. x ∷ (split_at size l).0 ++ t)
      (chunks_fuel_enough fuel size (split_at size l).1 (ground (arith, length-split_at size l)))
    ∙ ap (λ t. x ∷ t) (split_at_append size l)

-- The chunks hold every item, in order: the fuel is enough.
pub chunks_complete : {A : Type 0} (size : ℕ) (l : List A) → flatten (chunks (suc size) l) ≡ l
unfolding chunks
chunks_complete size l = chunks_fuel_enough (length l) size l (omega arith)

module _ {A : Type 0} (P : A → Type 0) where
  pub All-left : (xs ys : List A) → All P (xs ++ ys) → All P xs
  All-left [] ys h = tt
  All-left (x ∷ xs) ys h = (h.0, All-left xs ys h.1)

  pub All-right : (xs ys : List A) → All P (xs ++ ys) → All P ys
  All-right [] ys h = h
  All-right (x ∷ xs) ys h = All-right xs ys h.1
