-- ===== src/Exec/Safe.antt =====
-- A property of the state that an action keeps on every outcome, together with the fact that none
-- of its loops is cut off. One rule for each way to build an action.
use special_resource_operato.Prelude.{
  ◌≡◌, refl, Bool, true, false, String, Option, none, some, if◌then◌else◌,
}
use special_resource_operato.Exec.{
  Error, Outcome, ok, err, exit, panic, out_of_fuel, Exec, pure, raise, os_exit, panicking, gets,
  modify, Attempt, returned, raised, attempt, attempt_outcome, wrap_outcome,
  exit_on_failure_outcome, wrap, exit_on_failure, lift, exit_on_error, exit_on_error_or_not_found,
  continue, ◌>>=◌,
}

abbrev pub Ends : {A : Type 0} → Outcome A → Type 0
Ends (ok a) = Unit
Ends (err e) = Unit
Ends exit = Unit
Ends panic = Unit
Ends out_of_fuel = ⊥

-- From a state with `P`, the action ends, in a state with `P`.
pub record Safe {S A : Type 0} (P : S → Type 0) (m : Exec S A) : Type 0 where
  pub keeps : (s : S) → P s → P (m s).1
  pub ends : (s : S) → P s → Ends (m s).0

module _ {A : Type 0} where
  Ends-attempt : (r : Outcome A) → Ends r → Ends (attempt_outcome r)
  Ends-attempt (ok a) h = tt
  Ends-attempt (err e) h = tt
  Ends-attempt exit h = tt
  Ends-attempt panic h = tt
  Ends-attempt out_of_fuel h = h

  Ends-wrap : (msg : String) (r : Outcome A) → Ends r → Ends (wrap_outcome msg r)
  Ends-wrap msg (ok a) h = tt
  Ends-wrap msg (err e) h = tt
  Ends-wrap msg exit h = tt
  Ends-wrap msg panic h = tt
  Ends-wrap msg out_of_fuel h = h

  Ends-exit_on_failure : (r : Outcome A) → Ends r → Ends (exit_on_failure_outcome r)
  Ends-exit_on_failure (ok a) h = tt
  Ends-exit_on_failure (err e) h = tt
  Ends-exit_on_failure exit h = tt
  Ends-exit_on_failure panic h = tt
  Ends-exit_on_failure out_of_fuel h = h

module _ {S A : Type 0} {P : S → Type 0} where
  pub Safe-pure : (a : A) → Safe P (pure a)
  unfolding ◌>>=◌
  Safe-pure a = record { keeps = λ s h. h; ends = λ s h. tt }

  pub Safe-raise : (e : Error) → Safe P (raise {A = A} e)
  unfolding ◌>>=◌
  Safe-raise e = record { keeps = λ s h. h; ends = λ s h. tt }

  pub Safe-os_exit : Safe P (os_exit {A = A})
  unfolding ◌>>=◌
  Safe-os_exit = record { keeps = λ s h. h; ends = λ s h. tt }

  pub Safe-panicking : Safe P (panicking {A = A})
  unfolding ◌>>=◌
  Safe-panicking = record { keeps = λ s h. h; ends = λ s h. tt }

  pub Safe-gets : (f : S → A) → Safe P (gets f)
  unfolding ◌>>=◌
  Safe-gets f = record { keeps = λ s h. h; ends = λ s h. tt }

  pub Safe-attempt : (m : Exec S A) → Safe P m → Safe P (attempt m)
  unfolding ◌>>=◌
  Safe-attempt m h = record { keeps = h.keeps; ends = λ s p. Ends-attempt (m s).0 (h.ends s p) }

  pub Safe-wrap : (msg : String) (m : Exec S A) → Safe P m → Safe P (wrap msg m)
  unfolding ◌>>=◌
  Safe-wrap msg m h = record { keeps = h.keeps; ends = λ s p. Ends-wrap msg (m s).0 (h.ends s p) }

  pub Safe-exit_on_failure : (m : Exec S A) → Safe P m → Safe P (exit_on_failure m)
  unfolding ◌>>=◌
  Safe-exit_on_failure m h = record {
    keeps = h.keeps;
    ends = λ s p. Ends-exit_on_failure (m s).0 (h.ends s p);
  }

  pub Safe-lift : (r : Attempt A) → Safe P (lift r)
  unfolding ◌>>=◌
  Safe-lift (returned a) = record { keeps = λ s h. h; ends = λ s h. tt }
  Safe-lift (raised e) = record { keeps = λ s h. h; ends = λ s h. tt }

  pub Safe-if :
      (b : Bool) (m n : Exec S A)
      → (b ≡ true → Safe P m)
      → (b ≡ false → Safe P n)
      → Safe P (if b then m else n)
  Safe-if true m n km kn = km refl
  Safe-if false m n km kn = kn refl

module _ {S : Type 0} {P : S → Type 0} where
  pub Safe-modify : (f : S → S) → ((s : S) → P s → P (f s)) → Safe P (modify f)
  unfolding ◌>>=◌
  Safe-modify f h = record { keeps = h; ends = λ s p. tt }

  pub Safe-exit_on_error : (e : Option Error) → Safe P (exit_on_error e)
  unfolding ◌>>=◌
  Safe-exit_on_error none = record { keeps = λ s h. h; ends = λ s h. tt }
  Safe-exit_on_error (some e) = record { keeps = λ s h. h; ends = λ s h. tt }

  pub Safe-exit_on_error_or_not_found :
      (found : Bool) (e : Option Error) → Safe P (exit_on_error_or_not_found found e)
  unfolding ◌>>=◌
  Safe-exit_on_error_or_not_found true none = record { keeps = λ s h. h; ends = λ s h. tt }
  Safe-exit_on_error_or_not_found true (some e) = record { keeps = λ s h. h; ends = λ s h. tt }
  Safe-exit_on_error_or_not_found false e = record { keeps = λ s h. h; ends = λ s h. tt }

module _ {S A B : Type 0} {P : S → Type 0} where
  continue-keeps :
      (r : Outcome A) (f : A → Exec S B) (s : S)
      → ((a : A) → Safe P (f a))
      → P s
      → Ends r
      → P (continue r f s).1 × Ends (continue r f s).0
  continue-keeps (ok a) f s h p e = ((h a).keeps s p, (h a).ends s p)
  continue-keeps (err e) f s h p _ = (p, tt)
  continue-keeps exit f s h p e = (p, tt)
  continue-keeps panic f s h p e = (p, tt)
  continue-keeps out_of_fuel f s h p e = absurd e

  pub Safe-bind :
      (m : Exec S A) (f : A → Exec S B) → Safe P m → ((a : A) → Safe P (f a)) → Safe P (m >>= f)
  unfolding ◌>>=◌
  Safe-bind m f km kf = record {
    keeps = λ s h. (continue-keeps (m s).0 f (m s).1 kf (km.keeps s h) (km.ends s h)).0;
    ends = λ s h. (continue-keeps (m s).0 f (m s).1 kf (km.keeps s h) (km.ends s h)).1;
  }

  -- the rest may use what holds of every value that the first action returns from such a state
  pub Safe-bind_post :
      (Q : A → Type 0) (m : Exec S A) (f : A → Exec S B)
      → ((s : S) (a : A) → P s → (m s).0 ≡ ok a → Q a)
      → Safe P m
      → ((a : A) → Q a → Safe P (f a))
      → Safe P (m >>= f)
  unfolding ◌>>=◌
  Safe-bind_post Q m f post km kf = record {
    keeps = λ s h. (go s h (m s).0 refl (km.keeps s h) (km.ends s h)).0;
    ends = λ s h. (go s h (m s).0 refl (km.keeps s h) (km.ends s h)).1;
  }
    where
      go :
          (s : S)
          → P s
          → (r : Outcome A) → (m s).0 ≡ r
          → P (m s).1
          → Ends r
          → P (continue r f (m s).1).1 × Ends (continue r f (m s).1).0
      go s h (ok a) e p t =
          ((kf a (post s a h e)).keeps (m s).1 p, (kf a (post s a h e)).ends (m s).1 p)
      go s h (err x) e p t = (p, tt)
      go s h exit e p t = (p, tt)
      go s h panic e p t = (p, tt)
      go s h out_of_fuel e p t = absurd t

pub ruleset safe_rules = (
  Safe-pure, Safe-raise, Safe-os_exit, Safe-panicking, Safe-gets, Safe-attempt, Safe-wrap,
  Safe-exit_on_failure, Safe-lift, Safe-if, Safe-exit_on_error, Safe-exit_on_error_or_not_found,
  Safe-bind,
)
