-- ===== src/Act/Gives.antt =====
-- What holds of the value of a step that succeeds, with a rule for each way to compose steps.
use rings_node.Base.{◌≡◌, ◌≢◌, refl, ap, Bool, true, false, Option, none, some, if◌then◌else◌}
use rings_node.Error.{Error, Result, ok-inj, ok, err, panic}
use rings_node.Act.{Act, bound, mapped, or_raise, rescued, raise, ◌>>=◌}

unfoldable pub Gives : {St A : Type 0} → (A → Type 0) → Act St A → Type 0
Gives {St = St} {A = A} Q m = (s : St) (a : A) → (m s).0 ≡ ok a → Q a

module _ {St A : Type 0} (Q : A → Type 0) where
  pub gives : (m : Act St A) → ((s : St) (a : A) → (m s).0 ≡ ok a → Q a) → Gives Q m
  unfolding Gives
  gives m h = h

  pub given : (m : Act St A) → Gives Q m → (s : St) (a : A) → (m s).0 ≡ ok a → Q a
  unfolding Gives
  given m h = h

  pub if-Gives : (b : Bool) (m n : Act St A) → Gives Q m → Gives Q n → Gives Q (if b then m else n)
  if-Gives true m n hm hn = hm
  if-Gives false m n hm hn = hn

module _ {St A B : Type 0} (Q : B → Type 0) where
  -- Only what the last step gives counts.
  pub bind-Gives : (m : Act St A) (f : A → Act St B) → ((a : A) → Gives Q (f a)) → Gives Q (m >>= f)
  unfolding Gives bound
  bind-Gives m f hf s b e = last (m s) e
    where
      last : (r : Result A × St) → (bound r f).0 ≡ ok b → Q b
      last (ok a, s') e' = hf a s' b e'
      last (err x, s') e' = cc
      last (panic, s') e' = cc

  pub option-Gives :
      (o : Option A) (m : Act St B) (f : A → Act St B)
      → Gives Q m
      → ((a : A) → Gives Q (f a))
      → Gives Q (elim o [ none ↦ m | some a ↦ f a ])
  option-Gives none m f hm hf = hm
  option-Gives (some a) m f hm hf = hf a

module _ {St A B : Type 0} (P : A → Type 0) (Q : B → Type 0) where
  pub then-Gives :
      (m : Act St A) (f : A → Act St B)
      → Gives P m
      → ((a : A) → P a → Gives Q (f a))
      → Gives Q (m >>= f)
  unfolding Gives bound
  then-Gives m f hm hf s b e = last (m s) (hm s) e
    where
      last : (r : Result A × St) → ((a : A) → r.0 ≡ ok a → P a) → (bound r f).0 ≡ ok b → Q b
      last (ok a, s') h e' = hf a (h a refl) s' b e'
      last (err x, s') h e' = cc
      last (panic, s') h e' = cc

-- What a chain that succeeds went through.
pub bound_steps :
    {St A B : Type 0} (r : Result A × St) (f : A → Act St B) (b : B) (s' : St)
    → bound r f ≡ (ok b, s')
    → (a : A) × (s : St) × (r ≡ (ok a, s)) × (f a s ≡ (ok b, s'))
unfolding bound
bound_steps (ok a, s) f b s' e = (a, s, refl, e)
bound_steps (err x, s) f b s' e = cc
bound_steps (panic, s) f b s' e = cc

pub mapped_ok :
    {St A : Type 0} (f : Error → Error) (r : Result A × St) (a : A) (s' : St)
    → mapped f r ≡ (ok a, s')
    → r ≡ (ok a, s')
mapped_ok f (ok a, s) b s' e = e
mapped_ok f (err x, s) b s' e = cc
mapped_ok f (panic, s) b s' e = cc

pub or_raise_ok :
    {St A : Type 0} (o : Option A) (x : Error) (s s' : St) (a : A)
    → or_raise o x s ≡ (ok a, s')
    → (o ≡ some a) × (s ≡ s')
or_raise_ok none x s s' a e = cc
or_raise_ok (some b) x s s' a e = (ap some (ok-inj (ap (λ p. p.0) e)), ap (λ p. p.1) e)

-- The same, for a proof that goes on with the parts.
pub through :
    {St A B Q : Type 0} (r : Result A × St) (f : A → Act St B) (b : B) (s' : St)
    → bound r f ≡ (ok b, s')
    → ((a : A) (s : St) → r ≡ (ok a, s) → f a s ≡ (ok b, s') → Q)
    → Q
unfolding bound
through (ok a, s) f b s' e k = k a s refl e
through (err x, s) f b s' e k = cc
through (panic, s) f b s' e k = cc

-- Where what is done on a failure only raises, the step itself has succeeded.
pub rescued_ok :
    {St A : Type 0} (r : Result A × St) (f : Error → Act St A) (a : A) (s' : St)
    → ((e : Error) (s : St) → f e s ≢ (ok a, s'))
    → rescued r f ≡ (ok a, s')
    → r ≡ (ok a, s')
rescued_ok (ok a, s) f b s' h e = e
rescued_ok (err x, s) f b s' h e = absurd (h x s e)
rescued_ok (panic, s) f b s' h e = cc

pub then_raise :
    {St A B : Type 0} (r : Result A × St) (x : Error) (b : B) (s' : St)
    → ◌≢◌ {A = Result B × St} (bound r (λ _. raise x)) (ok b, s')
unfolding bound
then_raise (ok a, s) x b s' e = cc
then_raise (err y, s) x b s' e = cc
then_raise (panic, s) x b s' e = cc
