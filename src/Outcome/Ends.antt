-- ===== src/Outcome/Ends.antt =====
-- What holds of every way an action can end, whatever the state that it starts from: one rule for each
-- way to build an action.
use ngx_l.Base.{◌≡◌, refl, Bool, true, false, if◌then◌else◌}
use ngx_l.Outcome.{Action, pure, ◌>>=◌}

pub record Ends {ℓ} {S A : Type ℓ} (Q : S × A → Type ℓ) (m : Action S A) : Type ℓ where
  pub at : (s : S) → Q (m s)

module _ {ℓ} {S A : Type ℓ} {Q : S × A → Type ℓ} where
  pub Ends-pure : (a : A) → ((s : S) → Q (s, a)) → Ends Q (pure a)
  unfolding pure
  Ends-pure a h = record { at = h }

  -- Each branch may use its test.
  pub Ends-if :
      (b : Bool) (m n : Action S A)
      → (b ≡ true → Ends Q m)
      → (b ≡ false → Ends Q n)
      → Ends Q (if b then m else n)
  Ends-if true m n hm hn = hm refl
  Ends-if false m n hm hn = hn refl

module _ {ℓ} {S A B : Type ℓ} {Q : S × B → Type ℓ} where
  -- The rest may use that its argument is a result of the first action.
  pub Ends-bind :
      (m : Action S A) (f : A → Action S B) → ((s : S) → Ends Q (f (m s).1)) → Ends Q (m >>= f)
  unfolding ◌>>=◌
  Ends-bind m f hf = record { at = λ s. (hf s).at (m s).0 }
