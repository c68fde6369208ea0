-- ===== src/Outcome/Traces.antt =====
-- An operation beside another that takes the same first steps from the same state.
use ngx_l.Base.{◌≡◌, refl}
use ngx_l.Outcome.{Result, ok, err}
use ngx_l.Outcome.Keeps.{Keeps}
use ngx_l.Outcome.Fallible.{Fallible, ◌>>=◌, continue, of_result, Ensures}

-- Where `m` succeeds from a state with `P`, so does `p` from that state, and `Q` holds of what both give.
pub record Traces {S X A B : Type 0} (P : S → Type 0) (Q : S → B → Type 0) (m : Fallible S X A)
    (p : Fallible S X B) : Type 0 where
  pub at : (s : S) → P s → (a : A) → (m s).1 ≡ ok a → (b : B) × ((p s).1 ≡ ok b) × Q (m s).0 b

module _ {S X A B C : Type 0} {P : S → Type 0} {Q : S → B → Type 0} where
  -- The same first step.
  pub Traces-step :
      (m : Fallible S X C) (f : C → Fallible S X A) (g : C → Fallible S X B)
      → Keeps P m
      → ((s : S) → P s → (c : C) → (m s).1 ≡ ok c → Traces P Q (f c) (g c))
      → Traces P Q (m >>= f) (m >>= g)
  unfolding ◌>>=◌
  Traces-step m f g km h = record { at = λ s p a e. inner (m s) (km.at s p) (h s p) a e }
    where
      inner :
          (r : S × Result X C)
          → P r.0
          → ((c : C) → r.1 ≡ ok c → Traces P Q (f c) (g c))
          → (a : A) → (continue f r).1 ≡ ok a
          → (b : B) × ((continue g r).1 ≡ ok b) × Q (continue f r).0 b
      inner (s, ok c) p k a e = (k c refl).at s p a e
      inner (s, err x) p k a e = absurd (cc)

module _ {S X A B : Type 0} {P : S → Type 0} {Q : S → B → Type 0} where
  -- The other one ends here.
  pub Traces-end :
      (m : Fallible S X A) (r : Result X B) (b : B)
      → r ≡ ok b
      → Ensures P (λ s _. Q s b) m
      → Traces P Q m (of_result r)
  unfolding of_result
  Traces-end m r b e h = record { at = λ s p a k. (b, e, h.at s p a k) }

module _ {S X A B C : Type 0} {P : S → Type 0} {Q : S → B → Type 0} where
  -- A step of `m` alone, which leaves the state.
  pub Traces-result :
      (r : Result X C) (f : C → Fallible S X A) (p : Fallible S X B)
      → ((c : C) → r ≡ ok c → Traces P Q (f c) p)
      → Traces P Q (of_result r >>= f) p
  unfolding ◌>>=◌ of_result
  Traces-result (ok c) f p h = record { at = λ s q a e. (h c refl).at s q a e }
  Traces-result (err x) f p h = record { at = λ s q a e. absurd (cc) }
