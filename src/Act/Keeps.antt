-- ===== src/Act/Keeps.antt =====
-- What a step leaves true of the state, whatever its outcome, with a rule for each way to compose steps.
use rings_node.Base.{◌≡◌, refl, Bool, true, false, Option, none, some, if◌then◌else◌}
use rings_node.Error.{Error, Result, ok, err, panic}
use rings_node.Act.{Act, is_ok, caught, map_err, mapped, or_else, rescued, bound, ◌>>=◌}
use rings_node.Act.Gives.{Gives}

unfoldable pub Keeps : {St A : Type 0} → (St → Type 0) → Act St A → Type 0
Keeps P m = (s : _) → P s → P ((m s).1)

module _ {St A : Type 0} (P : St → Type 0) where
  pub keeps : (m : Act St A) → ((s : St) → P s → P ((m s).1)) → Keeps P m
  unfolding Keeps
  keeps m h = h

  pub after : (m : Act St A) → Keeps P m → (s : St) → P s → P ((m s).1)
  unfolding Keeps
  after m h = h

  pub if-Keeps : (b : Bool) (m n : Act St A) → Keeps P m → Keeps P n → Keeps P (if b then m else n)
  if-Keeps true m n hm hn = hm
  if-Keeps false m n hm hn = hn

  pub is_ok-Keeps : (m : Act St A) → Keeps P m → Keeps P (is_ok m)
  unfolding Keeps
  is_ok-Keeps m h s p = step (m s) (h s p)
    where
      step : (r : Result A × St) → P (r.1) → P ((caught r).1)
      step (ok a, s') q = q
      step (err e, s') q = q
      step (panic, s') q = q

  pub map_err-Keeps : (f : Error → Error) (m : Act St A) → Keeps P m → Keeps P (map_err f m)
  unfolding Keeps
  map_err-Keeps f m h s p = step (m s) (h s p)
    where
      step : (r : Result A × St) → P (r.1) → P ((mapped f r).1)
      step (ok a, s') q = q
      step (err e, s') q = q
      step (panic, s') q = q

  pub or_else-Keeps :
      (m : Act St A) (f : Error → Act St A)
      → Keeps P m
      → ((e : Error) → Keeps P (f e))
      → Keeps P (or_else m f)
  unfolding Keeps
  or_else-Keeps m f hm hf s p = step (m s) (hm s p)
    where
      step : (r : Result A × St) → P (r.1) → P ((rescued r f).1)
      step (ok a, s') q = q
      step (err e, s') q = hf e s' q
      step (panic, s') q = q

module _ {St A B : Type 0} (P : St → Type 0) where
  pub bind-Keeps :
      (m : Act St A) (f : A → Act St B) → Keeps P m → ((a : A) → Keeps P (f a)) → Keeps P (m >>= f)
  unfolding Keeps bound
  bind-Keeps m f hm hf s p = then_ (m s) (hm s p)
    where
      then_ : (r : Result A × St) → P (r.1) → P ((bound r f).1)
      then_ (ok a, s') q = hf a s' q
      then_ (err e, s') q = q
      then_ (panic, s') q = q

  pub option-Keeps :
      (o : Option A) (m : Act St B) (f : A → Act St B)
      → Keeps P m
      → ((a : A) → Keeps P (f a))
      → Keeps P (elim o [ none ↦ m | some a ↦ f a ])
  option-Keeps none m f hm hf = hm
  option-Keeps (some a) m f hm hf = hf a

  -- The step after may use what the step before gives.
  pub then-Keeps :
      (Q : A → Type 0) (m : Act St A) (f : A → Act St B)
      → Gives Q m
      → Keeps P m
      → ((a : A) → Q a → Keeps P (f a))
      → Keeps P (m >>= f)
  unfolding Keeps Gives bound
  then-Keeps Q m f g hm hf s p = then_ (m s) (g s) (hm s p)
    where
      then_ : (r : Result A × St) → ((a : A) → r.0 ≡ ok a → Q a) → P (r.1) → P ((bound r f).1)
      then_ (ok a, s') i q = hf a (i a refl) s' q
      then_ (err e, s') i q = q
      then_ (panic, s') i q = q
