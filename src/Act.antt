-- ===== src/Act.antt =====
-- The steps of code that keeps a state and may fail or panic: what was written stays written, also when
-- the step fails. The methods of rings-core/src/swarm.rs and of the message handlers are such steps.
pub mod Keeps
pub mod Gives
use rings_node.Base.{Bool, true, false, Option, none, some, if◌then◌else◌}
use rings_node.Error.{Error, Result, ok, err, panic}

abbrev pub Act : Type 0 → Type 0 → Type 0
Act St A = St → Result A × St

module _ {St A : Type 0} where
  abbrev pub pure : A → Act St A
  pure a s = (ok a, s)

  abbrev pub raise : Error → Act St A
  raise e s = (err e, s)

  -- A result of code that does not change the state.
  abbrev pub lift : Result A → Act St A
  lift r s = (r, s)

  abbrev pub gets : (St → A) → Act St A
  gets f s = (ok (f s), s)

  -- `ok_or`
  abbrev pub or_raise : Option A → Error → Act St A
  or_raise none e = raise e
  or_raise (some a) _ = pure a

  -- The step, and whether it succeeded: an error goes no further.
  abbrev pub caught : Result A × St → Result Bool × St
  caught (ok _, s) = (ok true, s)
  caught (err _, s) = (ok false, s)
  caught (panic, s) = (panic, s)

  abbrev pub is_ok : Act St A → Act St Bool
  is_ok m s = caught (m s)

  -- `map_err`
  abbrev pub mapped : (Error → Error) → Result A × St → Result A × St
  mapped f (ok a, s) = (ok a, s)
  mapped f (err e, s) = (err (f e), s)
  mapped f (panic, s) = (panic, s)

  abbrev pub map_err : (Error → Error) → Act St A → Act St A
  map_err f m s = mapped f (m s)

  -- The step, and what is done where it fails.
  abbrev pub rescued : Result A × St → (Error → Act St A) → Result A × St
  rescued (ok a, s) f = (ok a, s)
  rescued (err e, s) f = f e s
  rescued (panic, s) f = (panic, s)

  abbrev pub or_else : Act St A → (Error → Act St A) → Act St A
  or_else m f s = rescued (m s) f

module _ {St : Type 0} where
  abbrev pub modify : (St → St) → Act St (Unit {0})
  modify f s = (ok tt, f s)

  abbrev pub done : Act St (Unit {0})
  done = pure tt

module _ {St A B : Type 0} where
  unfoldable pub bound : Result A × St → (A → Act St B) → Result B × St
  bound (ok a, s) f = f a s
  bound (err e, s) f = (err e, s)
  bound (panic, s) f = (panic, s)

infixl 5 ◌>>=◌
abbrev pub ◌>>=◌ : {St A B : Type 0} → Act St A → (A → Act St B) → Act St B
◌>>=◌ m f s = bound (m s) f
