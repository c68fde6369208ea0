-- ===== src/RateLimit/Range.antt =====
-- ngx_l402_core/src/rate_limit.rs: what an accepted limit can be.
use ngx_l.Base.{
  ℕ, ◌<◌, ◌≡◌, refl, ap, ◌∙◌, ◌⊎◌, inl, inr, Option, none, some, [], ◌∷◌, ◌++◌, arith, ◌==◌,
  Bool-cases,
}
use ngx_l.Text.Laws.{eq_of_str_eq}
use ngx_l.Text.{Str, codes, str_eq, strip_suffix, trim, parse_unsigned, parse_digits, add_digit}
use ngx_l.RateLimit.{u32_bound, per_second, per_hour, per_minute, per_window, parse_rate_limit}

payload : {a b : ℕ} → ◌≡◌ {A = Option ℕ} (some a) (some b) → a ≡ b
payload h = cc

text : {a b : Str} → ◌≡◌ {A = Option Str} (some a) (some b) → a ≡ b
text h = cc

no_text : {b : Str} → ◌≡◌ {A = Option Str} none (some b) → ⊥
no_text h = cc

no_value : {b : ℕ} → ◌≡◌ {A = Option ℕ} none (some b) → ⊥
no_value h = cc

add_digit_bounded : (bound acc c m : ℕ) → add_digit bound acc c ≡ some m → m < bound
add_digit_bounded bound acc c m d = ground arith

parse_digits_bounded :
    (bound acc : ℕ) (s : Str) (n : ℕ) → acc < bound → parse_digits bound acc s ≡ some n → n < bound
unfolding parse_digits
parse_digits_bounded bound acc [] n h e = omega (arith, h, payload e)
parse_digits_bounded bound acc (c ∷ s) n h e =
    after (λ m. parse_digits_bounded bound m s n) _ refl e
  where
    after :
        ((m : ℕ) → m < bound → parse_digits bound m s ≡ some n → n < bound)
        → (o : Option ℕ) → add_digit bound acc c ≡ o
        → elim o [ none ↦ none | some k ↦ parse_digits bound k s ] ≡ some n
        → n < bound
    after rest none d k = absurd (no_value k)
    after rest (some m) d k = rest m (add_digit_bounded bound acc c m d) k

parse_unsigned_bounded :
    (bound : ℕ) (s : Str) (n : ℕ) → 0 < bound → parse_unsigned bound s ≡ some n → n < bound
unfolding parse_unsigned
parse_unsigned_bounded bound [] n h e = absurd (cc)
parse_unsigned_bounded bound (c ∷ []) n h e = parse_digits_bounded bound 0 (c ∷ []) n h e
parse_unsigned_bounded bound (c ∷ d ∷ s) n h e = elim (Bool-cases (c == b'+')) [
  | inl p ↦ parse_digits_bounded bound 0 (d ∷ s) n h (rw p at e)
  | inr p ↦ parse_digits_bounded bound 0 (c ∷ d ∷ s) n h (rw p at e)
]

-- What precedes a suffix, and the suffix, are the text.
strip_suffix-eq-some : (p s n : Str) → strip_suffix p s ≡ some n → s ≡ n ++ p
unfolding strip_suffix
strip_suffix-eq-some p [] n h = elim (Bool-cases (str_eq [] p)) [
  | inl e ↦ eq_of_str_eq [] p e ∙ ap (λ t. t ++ p) (text (rw e at h))
  | inr e ↦ absurd (no_text (rw e at h))
]
strip_suffix-eq-some p (c ∷ s) n h = elim (Bool-cases (str_eq (c ∷ s) p)) [
  | inl e ↦ eq_of_str_eq (c ∷ s) p e ∙ ap (λ t. t ++ p) (text (rw e at h))
  | inr e ↦ after (strip_suffix-eq-some p s) _ refl (rw e at h)
]
  where
    after :
        ((t : Str) → strip_suffix p s ≡ some t → s ≡ t ++ p)
        → (o : Option Str) → strip_suffix p s ≡ o
        → elim o [ none ↦ none | some t ↦ some (c ∷ t) ] ≡ some n
        → c ∷ s ≡ n ++ p
    after rest none d k = absurd (no_text k)
    after rest (some t) d k = ap (λ l. c ∷ l) (rest t d) ∙ ap (λ l. l ++ p) (text k)

-- Such a text is the number, around which there may be spaces, and the unit.
abbrev pub Reads : Str → Str → ℕ → Type 0
Reads val suffix count =
    (number : Str) × (val ≡ number ++ suffix)
    × (parse_unsigned u32_bound (trim number) ≡ some count)

-- The window goes by the unit; a number alone is a limit in a minute.
abbrev pub IsLimit : Str → ℕ → ℕ → Type 0
IsLimit val count window =
    (count < u32_bound)
    × ((Reads val (codes "r/m") count × (window ≡ 60))
        ⊎ (Reads val (codes "r/h") count × (window ≡ 3600))
        ⊎ (Reads val (codes "r/s") count × (window ≡ 1))
        ⊎ ((parse_unsigned u32_bound val ≡ some count) × (window ≡ 60)))

per_window-eq-some :
    (window : ℕ) (o : Option ℕ) (count w : ℕ)
    → per_window window o ≡ some (count, w)
    → (o ≡ some count) × (w ≡ window)
unfolding per_window
per_window-eq-some window none count w h = absurd (cc)
per_window-eq-some window (some c) count w h = (cc, cc)

counted :
    (window : ℕ) (s : Str) (count w : ℕ)
    → per_window window (parse_unsigned u32_bound s) ≡ some (count, w)
    → (count < u32_bound) × (parse_unsigned u32_bound s ≡ some count) × (w ≡ window)
counted window s count w h =
    let (n, k) = per_window-eq-some window (parse_unsigned u32_bound s) count w h in
    (parse_unsigned_bounded u32_bound s count (omega arith) n, n, k)

by_second :
    (val : Str) (o : Option Str) (count w : ℕ)
    → strip_suffix (codes "r/s") val ≡ o
    → per_second val o ≡ some (count, w)
    → IsLimit val count w
unfolding per_second
by_second val none count w e h =
    let (bounded, n, k) = counted 60 _ count w h in (bounded, inr (inr (inr (n, k))))
by_second val (some t) count w e h =
    let (bounded, n, k) = counted 1 _ count w h in
    (bounded, inr (inr (inl ((t, strip_suffix-eq-some _ val t e, n), k))))

by_hour :
    (val : Str) (o : Option Str) (count w : ℕ)
    → strip_suffix (codes "r/h") val ≡ o
    → per_hour val o ≡ some (count, w)
    → IsLimit val count w
unfolding per_hour
by_hour val none count w e h = by_second val _ count w refl h
by_hour val (some t) count w e h =
    let (bounded, n, k) = counted 3600 _ count w h in
    (bounded, inr (inl ((t, strip_suffix-eq-some _ val t e, n), k)))

by_minute :
    (val : Str) (o : Option Str) (count w : ℕ)
    → strip_suffix (codes "r/m") val ≡ o
    → per_minute val o ≡ some (count, w)
    → IsLimit val count w
unfolding per_minute
by_minute val none count w e h = by_hour val _ count w refl h
by_minute val (some t) count w e h =
    let (bounded, n, k) = counted 60 _ count w h in
    (bounded, inl ((t, strip_suffix-eq-some _ val t e, n), k))

-- A limit that is accepted is a count below 2^32 in a window that goes by the unit: the text without
-- the spaces around it is the number with `r/m` for a minute, `r/h` for an hour or `r/s` for a second,
-- or the number alone for a minute.
pub parse_rate_limit_range :
    (text : Str) (count window : ℕ)
    → parse_rate_limit text ≡ some (count, window)
    → IsLimit (trim text) count window
unfolding parse_rate_limit
parse_rate_limit_range text count window = by_minute (trim text) _ count window refl
