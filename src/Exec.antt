-- ===== src/Exec.antt =====
-- Go functions that mutate shared state and may return an error, exit the process or panic:
-- controllers/misc.go, and the conventions of github.com/pkg/errors that the operator follows.
-- What was written before a failure stays written, so the state comes back on every outcome.
pub mod Safe
pub mod Returns
pub mod Laws
use special_resource_operato.Prelude.{Bool, true, String, Option, none, some, Dict}

-- What the API server answers, as the `apierrors.Is...` tests tell the answers apart.
pub data ApiError : Type 0 where
  not_found forbidden conflict : ApiError
  other : String → ApiError

-- `errs.New`, an error of the API client, `errs.Wrap` around another error, and `fmt.Errorf` with
-- an error as its last argument, alone or behind a label.
pub data Error : Type 0 where
  new : String → Error
  api : ApiError → Error
  wrapped : Error → String → Error
  formatted : String → Error → Error
  formatted_label : String → Dict String → Error → Error

-- errs.Wrap(err, msg): nil stays nil
abbrev pub wrap_error : Option Error → String → Option Error
wrap_error none msg = none
wrap_error (some e) msg = some (wrapped e msg)

-- How a call ends: a value with a nil error, a non-nil error, os.Exit(1), or a panic.
-- `out_of_fuel` is no outcome of the program: it marks a loop that was cut off in the model.
pub data Outcome (A : Type 0) : Type 0 where
  ok : A → Outcome A
  err : Error → Outcome A
  exit : Outcome A
  panic : Outcome A
  out_of_fuel : Outcome A

abbrev pub Exec : Type 0 → Type 0 → Type 0
Exec S A = S → Outcome A × S

-- The combinators are shut: an invariant follows an action by rules (Exec/Safe), and a proof that
-- computes opens all of them with `◌>>=◌`.
module _ {S A : Type 0} where
  unfoldable pub pure : A → Exec S A
  pure a s = (ok a, s)

  unfoldable pub raise : Error → Exec S A
  raise e s = (err e, s)

  unfoldable pub os_exit : Exec S A
  os_exit s = (exit, s)

  unfoldable pub panicking : Exec S A
  panicking s = (panic, s)

  unfoldable pub gets : (S → A) → Exec S A
  gets f s = (ok (f s), s)

unfoldable pub modify : {S : Type 0} → (S → S) → Exec S (Unit {0})
modify f s = (ok tt, f s)

-- The `error` that a call returned, for code that looks at it: `if err := f(); err != nil`.
pub data Attempt (A : Type 0) : Type 0 where
  returned : A → Attempt A
  raised : Error → Attempt A

module _ {A : Type 0} where
  abbrev pub attempt_outcome : Outcome A → Outcome (Attempt A)
  attempt_outcome (ok a) = ok (returned a)
  attempt_outcome (err e) = ok (raised e)
  attempt_outcome exit = exit
  attempt_outcome panic = panic
  attempt_outcome out_of_fuel = out_of_fuel

  abbrev pub wrap_outcome : String → Outcome A → Outcome A
  wrap_outcome msg (ok a) = ok a
  wrap_outcome msg (err e) = err (wrapped e msg)
  wrap_outcome msg exit = exit
  wrap_outcome msg panic = panic
  wrap_outcome msg out_of_fuel = out_of_fuel

  abbrev pub exit_on_failure_outcome : Outcome A → Outcome A
  exit_on_failure_outcome (ok a) = ok a
  exit_on_failure_outcome (err e) = exit
  exit_on_failure_outcome exit = exit
  exit_on_failure_outcome panic = panic
  exit_on_failure_outcome out_of_fuel = out_of_fuel

module _ {S A : Type 0} where
  unfoldable pub attempt : Exec S A → Exec S (Attempt A)
  attempt m s = (attempt_outcome (m s).0, (m s).1)

  -- if err := f(); err != nil { return errs.Wrap(err, msg) }
  unfoldable pub wrap : String → Exec S A → Exec S A
  wrap msg m s = (wrap_outcome msg (m s).0, (m s).1)

  -- x, err = f(); exitOnError(err)
  unfoldable pub exit_on_failure : Exec S A → Exec S A
  exit_on_failure m s = (exit_on_failure_outcome (m s).0, (m s).1)

  -- a value and an error, as a call that touches no state returned them
  unfoldable pub lift : Attempt A → Exec S A
  lift (returned a) s = (ok a, s)
  lift (raised e) s = (err e, s)

module _ {S : Type 0} where
  unfoldable pub exit_on_error : Option Error → Exec S (Unit {0})
  exit_on_error none s = (ok tt, s)
  exit_on_error (some e) s = (exit, s)

  unfoldable pub exit_on_error_or_not_found : Bool → Option Error → Exec S (Unit {0})
  exit_on_error_or_not_found true none s = (ok tt, s)
  exit_on_error_or_not_found _ _ s = (exit, s)

module _ {S A B : Type 0} where
  abbrev pub continue : Outcome A → (A → Exec S B) → Exec S B
  continue (ok a) f s = f a s
  continue (err e) f s = (err e, s)
  continue exit f s = (exit, s)
  continue panic f s = (panic, s)
  continue out_of_fuel f s = (out_of_fuel, s)

  infixl 10 ◌>>=◌
  unfoldable pub ◌>>=◌ : Exec S A → (A → Exec S B) → Exec S B
  unfolding pure raise os_exit panicking gets modify attempt wrap exit_on_failure lift exit_on_error
      exit_on_error_or_not_found
  ◌>>=◌ m f s = continue (m s).0 f (m s).1

infixl 10 ◌>>◌
abbrev pub ◌>>◌ : {S A : Type 0} → Exec S (Unit {0}) → Exec S A → Exec S A
m >> n = m >>= λ _. n
