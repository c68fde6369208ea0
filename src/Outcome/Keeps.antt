-- ===== src/Outcome/Keeps.antt =====
-- Predicates on the state that an action keeps: one rule for each way to build an action.
use ngx_l.Base.{Bool, true, false, if◌then◌else◌}
use ngx_l.Outcome.{Action, pure, ◌>>=◌}

-- Whatever the state, if `P` holds before `m` it holds after it.
pub record Keeps {ℓ} {S A : Type ℓ} (P : S → Type ℓ) (m : Action S A) : Type ℓ where
  pub at : (s : S) → P s → P (m s).0

module _ {ℓ} {S A : Type ℓ} {P : S → Type ℓ} where
  pub Keeps-pure : (a : A) → Keeps P (pure a)
  unfolding pure
  Keeps-pure a = record { at = λ s h. h }

  pub Keeps-if :
      (b : Bool) (m n : Action S A) → Keeps P m → Keeps P n → Keeps P (if b then m else n)
  Keeps-if true m n km kn = km
  Keeps-if false m n km kn = kn

module _ {ℓ} {S A B : Type ℓ} {P : S → Type ℓ} where
  pub Keeps-bind :
      (m : Action S A) (f : A → Action S B)
      → Keeps P m
      → ((a : A) → Keeps P (f a))
      → Keeps P (m >>= f)
  unfolding ◌>>=◌
  Keeps-bind m f km kf = record { at = λ s h. (kf (m s).1).at (m s).0 (km.at s h) }

pub ruleset keeps_rules = (Keeps-pure, Keeps-if, Keeps-bind)
