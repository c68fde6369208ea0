-- ===== src/Text/Laws.antt =====
-- Laws of the string operations.
use ngx_l.Base.{◌≡◌, refl, ◌↔◌, true, [], ◌∷◌, arith}
use ngx_l.Text.{Str, str_eq}

pub eq_of_str_eq : (s t : Str) → str_eq s t ≡ true → s ≡ t
eq_of_str_eq [] [] h = refl
eq_of_str_eq [] (_ ∷ _) h = cc
eq_of_str_eq (_ ∷ _) [] h = cc
eq_of_str_eq (a ∷ s) (b ∷ t) h = ground (arith, eq_of_str_eq s t)

pub str_eq_refl : (s : Str) → str_eq s s ≡ true
str_eq_refl [] = refl
str_eq_refl (a ∷ s) = ground (arith, str_eq_refl s)

pub str_eq_of_eq : (s t : Str) → s ≡ t → str_eq s t ≡ true
str_eq_of_eq s t h = rw h (str_eq_refl t)

pub str_eq_iff : (s t : Str) → (str_eq s t ≡ true) ↔ (s ≡ t)
str_eq_iff s t = (eq_of_str_eq s t, str_eq_of_eq s t)
