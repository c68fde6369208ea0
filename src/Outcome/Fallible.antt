-- ===== src/Outcome/Fallible.antt =====
-- Operations on a state that may fail: `?` inside a function that changes state. An error ends the
-- operation; what was done to the state before it stays done.
use ngx_l.Base.{◌≡◌, refl, ap, Bool, true, false, Option, none, some, arith, if◌then◌else◌}
use std.Path.{subst}
use ngx_l.Outcome.{Result, ok, err, Action, map_err, ok_or}
use ngx_l.Outcome.Keeps.{Keeps}

abbrev pub Fallible {ℓ} : Type ℓ → Type ℓ → Type ℓ → Type ℓ
Fallible S X A = Action S (Result X A)

module _ {ℓ} {S X A : Type ℓ} where
  unfoldable pub succeed : A → Fallible S X A
  succeed a s = (s, ok a)

  -- The value of a computation that does not touch the state.
  unfoldable pub of_result : Result X A → Fallible S X A
  of_result r s = (s, r)

  -- An operation that cannot fail.
  unfoldable pub lift : Action S A → Fallible S X A
  lift m s = ((m s).0, ok (m s).1)

module _ {ℓ} {S X : Type ℓ} where
  unfoldable pub guard : Bool → X → Fallible S X (Unit {ℓ})
  guard true e s = (s, ok tt)
  guard false e s = (s, err e)

module _ {ℓ} {S X A B : Type ℓ} where
  unfoldable pub continue : (A → Fallible S X B) → S × Result X A → S × Result X B
  continue f (s, ok a) = f a s
  continue f (s, err e) = (s, err e)

  infixl 5 ◌>>=◌ ◌>>◌
  unfoldable pub ◌>>=◌ : Fallible S X A → (A → Fallible S X B) → Fallible S X B
  unfolding continue
  ◌>>=◌ m f s = continue f (m s)

  abbrev pub ◌>>◌ : Fallible S X A → Fallible S X B → Fallible S X B
  m >> n = m >>= λ _. n

module _ {ℓ} {S X Y A : Type ℓ} where
  -- `map_err` on what an operation gives.
  unfoldable pub failing : (X → Y) → Fallible S X A → Fallible S Y A
  failing f m s = ((m s).0, map_err f (m s).1)

module _ {ℓ} {S X Y A : Type ℓ} where
  -- An operation whose error is only logged.
  unfoldable pub logged : Fallible S X A → Fallible S Y (Unit {ℓ})
  logged m s = ((m s).0, ok tt)

-- What holds after an operation that succeeds, of the state and the result, where `P` held before it.
pub record Ensures {ℓ} {S X A : Type ℓ} (P : S → Type ℓ) (Q : S → A → Type ℓ) (m : Fallible S X A)
    : Type ℓ where
  pub at : (s : S) → P s → (a : A) → (m s).1 ≡ ok a → Q (m s).0 a

pub payload {ℓ} : {X A : Type ℓ} {a b : A} → ◌≡◌ {A = Result X A} (ok a) (ok b) → a ≡ b
payload h = cc

module _ {ℓ} {S X A : Type ℓ} {P : S → Type ℓ} {Q : S → A → Type ℓ} where
  pub Ensures-succeed : (a : A) → ((s : S) → P s → Q s a) → Ensures {X = X} P Q (succeed a)
  unfolding succeed
  Ensures-succeed a h = record { at = λ s p b e. subst (Q s) (payload e) (h s p) }

  pub Ensures-of_result :
      (r : Result X A) → ((s : S) → P s → (a : A) → r ≡ ok a → Q s a) → Ensures P Q (of_result r)
  unfolding of_result
  Ensures-of_result r h = record { at = λ s p b e. h s p b e }

  pub Ensures-weaken :
      {R : S → A → Type ℓ} (m : Fallible S X A)
      → Ensures P R m
      → ((s : S) (a : A) → R s a → Q s a)
      → Ensures P Q m
  Ensures-weaken m h k = record { at = λ s p a e. k _ a (h.at s p a e) }

  pub Ensures-if :
      (b : Bool) (m n : Fallible S X A)
      → (b ≡ true → Ensures P Q m)
      → (b ≡ false → Ensures P Q n)
      → Ensures P Q (if b then m else n)
  Ensures-if true m n hm hn = hm refl
  Ensures-if false m n hm hn = hn refl

module _ {ℓ} {S X A B : Type ℓ} {P : S → Type ℓ} {Q : S → B → Type ℓ} where
  pub Ensures-bind :
      {R : S → A → Type ℓ} (m : Fallible S X A) (f : A → Fallible S X B)
      → Ensures P R m
      → ((a : A) → Ensures (λ s. R s a) Q (f a))
      → Ensures P Q (m >>= f)
  unfolding ◌>>=◌
  Ensures-bind {R = R} m f h k = record { at = λ s p b e. inner (m s) (h.at s p) b e }
    where
      inner :
          (r : S × Result X A)
          → ((a : A) → r.1 ≡ ok a → R r.0 a)
          → (b : B) → (continue f r).1 ≡ ok b
          → Q (continue f r).0 b
      inner (s, ok a) g b e = (k a).at s (g a refl) b e
      inner (s, err x) g b e = absurd (cc)

  -- The first operation keeps `P`; the rest may use that it succeeded with its argument.
  pub Ensures-step :
      (m : Fallible S X A) (f : A → Fallible S X B)
      → Keeps P m
      → ((s : S) → P s → (a : A) → (m s).1 ≡ ok a → Ensures P Q (f a))
      → Ensures P Q (m >>= f)
  unfolding ◌>>=◌
  Ensures-step m f km h = record { at = λ s p b e. inner (m s) (km.at s p) (h s p) b e }
    where
      inner :
          (r : S × Result X A)
          → P r.0
          → ((a : A) → r.1 ≡ ok a → Ensures P Q (f a))
          → (b : B) → (continue f r).1 ≡ ok b
          → Q (continue f r).0 b
      inner (s, ok a) p g b e = (g a refl).at s p b e
      inner (s, err x) p g b e = absurd (cc)

module _ {ℓ} {S X A B : Type ℓ} where
  pub bind-eq-ok :
      (m : Fallible S X A) (f : A → Fallible S X B) (s : S) {b : B}
      → ((m >>= f) s).1 ≡ ok b
      → (a : A) × ((m s).1 ≡ ok a) × ((f a (m s).0).1 ≡ ok b)
  unfolding ◌>>=◌
  bind-eq-ok m f s {b} h = inner (m s) h
    where
      inner :
          (r : S × Result X A)
          → (continue f r).1 ≡ ok b
          → (a : A) × (r.1 ≡ ok a) × ((f a r.0).1 ≡ ok b)
      inner (s, ok a) e = (a, refl, e)
      inner (s, err x) e = absurd (cc)

module _ {ℓ} {X Y A : Type ℓ} where
  pub map_err-eq-ok : (f : X → Y) (r : Result X A) {a : A} → map_err f r ≡ ok a → r ≡ ok a
  map_err-eq-ok f (ok b) h = ground arith
  map_err-eq-ok f (err e) h = absurd (cc)

module _ {ℓ} {S X Y A : Type ℓ} {P : S → Type ℓ} {Q : S → A → Type ℓ} where
  pub Ensures-failing : (f : X → Y) (m : Fallible S X A) → Ensures P Q m → Ensures P Q (failing f m)
  unfolding failing
  Ensures-failing f m h = record { at = λ s p a e. h.at s p a (map_err-eq-ok f (m s).1 e) }

module _ {ℓ} {X A : Type ℓ} where
  pub ok_or-eq-some : (e : X) (o : Option A) {a : A} → ok_or e o ≡ ok a → o ≡ some a
  ok_or-eq-some e none h = absurd (cc)
  ok_or-eq-some e (some b) h = ap some (payload h)

module _ {ℓ} {S X : Type ℓ} where
  pub guard-eq-ok : (b : Bool) (x : X) (s : S) (a : Unit {ℓ}) → (guard b x s).1 ≡ ok a → b ≡ true
  unfolding guard
  guard-eq-ok true x s a h = refl
  guard-eq-ok false x s a h = absurd (cc)

module _ {ℓ} {S X Y A : Type ℓ} {P : S → Type ℓ} where
  pub Keeps-failing : (f : X → Y) (m : Fallible S X A) → Keeps P m → Keeps P (failing f m)
  unfolding failing
  Keeps-failing f m k = record { at = λ s h. k.at s h }

module _ {ℓ} {S X A B : Type ℓ} {P : S → Type ℓ} where
  pub Keeps-try :
      (m : Fallible S X A) (f : A → Fallible S X B)
      → Keeps P m
      → ((a : A) → Keeps P (f a))
      → Keeps P (m >>= f)
  unfolding ◌>>=◌
  Keeps-try m f km kf = record { at = λ s h. inner (m s) (km.at s h) }
    where
      inner : (r : S × Result X A) → P r.0 → P (continue f r).0
      inner (s, ok a) h = (kf a).at s h
      inner (s, err x) h = h

module _ {ℓ} {S X A : Type ℓ} {P : S → Type ℓ} where
  pub Keeps-succeed : (a : A) → Keeps P (succeed {S = S} {X = X} a)
  unfolding succeed
  Keeps-succeed a = record { at = λ s h. h }

  pub Keeps-of_result : (r : Result X A) → Keeps P (of_result {S = S} r)
  unfolding of_result
  Keeps-of_result r = record { at = λ s h. h }

  pub Keeps-lift : (m : Action S A) → Keeps P m → Keeps P (lift {X = X} m)
  unfolding lift
  Keeps-lift m k = record { at = λ s h. k.at s h }

module _ {ℓ} {S X : Type ℓ} {P : S → Type ℓ} where
  pub Keeps-guard : (b : Bool) (x : X) → Keeps P (guard {S = S} b x)
  unfolding guard
  Keeps-guard true x = record { at = λ s h. h }
  Keeps-guard false x = record { at = λ s h. h }

module _ {ℓ} {S X Y A : Type ℓ} {P : S → Type ℓ} where
  pub Keeps-logged : (m : Fallible S X A) → Keeps P m → Keeps P (logged {Y = Y} m)
  unfolding logged
  Keeps-logged m k = record { at = λ s h. k.at s h }

module _ {ℓ} {S X A : Type ℓ} {P : S → Type ℓ} where
  pub Ensures-Keeps : (m : Fallible S X A) → Keeps P m → Ensures P (λ s _. P s) m
  Ensures-Keeps m k = record { at = λ s p _ _. k.at s p }

-- No condition on a state.
abbrev pub AnyState {ℓ} : {S : Type ℓ} → S → Type ℓ
AnyState s = Unit

pub AnyState-Keeps {ℓ} : {S A : Type ℓ} (m : Action S A) → Keeps AnyState m
AnyState-Keeps m = record { at = λ s h. tt }

module _ {ℓ} {S X A B : Type ℓ} {Q : S → B → Type ℓ} where
  -- What an operation is, whatever was done before it.
  pub anyway :
      (m : Fallible S X A) (f : A → Fallible S X B)
      → ((s : S) (a : A) → (m s).1 ≡ ok a → Ensures AnyState Q (f a))
      → Ensures AnyState Q (m >>= f)
  anyway m f h = Ensures-step m f (AnyState-Keeps m) (λ s _ a e. h s a e)

module _ {ℓ} {S X A : Type ℓ} {Q : Type ℓ} where
  pub granted : (m : Fallible S X A) → Q → Ensures AnyState (λ _ _. Q) m
  granted m q = record { at = λ _ _ _ _. q }

module _ {ℓ} {S X A B : Type ℓ} {P : S → Type ℓ} where
  -- The rest keeps `P` with what the first operation ensures where it succeeds.
  pub Keeps-after :
      {R : S → A → Type ℓ} (m : Fallible S X A) (f : A → Fallible S X B)
      → Keeps P m
      → Ensures P R m
      → ((a : A) (s : S) → R s a → P (f a s).0)
      → Keeps P (m >>= f)
  unfolding ◌>>=◌
  Keeps-after {R = R} m f km hm kf = record { at = λ s h. inner (m s) (km.at s h) (hm.at s h) }
    where
      inner : (r : S × Result X A) → P r.0 → ((a : A) → r.1 ≡ ok a → R r.0 a) → P (continue f r).0
      inner (s, ok a) h k = kf a s (k a refl)
      inner (s, err x) h k = h
