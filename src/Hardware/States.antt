-- ===== src/Hardware/States.antt =====
-- Carrying out the states of a configuration, one after the other: `ReconcileHardwareStates` of
-- controllers/resources.go.
use mathlib.Core.Path.{subst}
use special_resource_operato.Prelude.{
  ◌≡◌, ◌⊎◌, inl, inr, refl, sym, ap, String, List, [], ◌∷◌, ◌++◌, Dict, lookup, Option, none, some,
}
use special_resource_operato.Exec.{
  Error, Outcome, ok, err, exit, panic, out_of_fuel, wrapped, Exec, gets, wrap, wrap_outcome,
  continue, ◌>>=◌, ◌>>◌,
}
use special_resource_operato.Value.{Value, string}
use special_resource_operato.State.{State}
use special_resource_operato.Env.{Env}
use special_resource_operato.Create.{create_from_yaml}
use special_resource_operato.Hardware.{manifest_of, execute_state, execute_states}

module _ {W : Type 0} (env : Env W) (manifests : Dict Value) where
  abbrev pub create : String → Exec (State W) (Unit {0})
  create yaml s = create_from_yaml env yaml s.specialresource.spec.namespace s

  -- From the first to the second state of the program, the manifests of the states were created, in
  -- this order and each without an error.
  pub data CarriesOut : List String → State W → State W → Type 0 where
    none_left : {s : State W} → CarriesOut [] s s
    carried :
        {state yaml : String} {rest : List String} {s t u : State W}
        → lookup state manifests ≡ some (string yaml)
        → create yaml s ≡ (ok tt, t)
        → CarriesOut rest t u
        → CarriesOut (state ∷ rest) s u

  -- The manifest of the state is created with an error, which is passed on with what it is about.
  pub record Fails (state : String) (s t : State W) (e : Error) : Type 0 where
    pub yaml : String
    pub cause : Error
    pub manifest : lookup state manifests ≡ some (string yaml)
    pub failed : create yaml s ≡ (err cause, t)
    pub passed_on : e ≡ wrapped cause "Failed to create resources"

  abbrev carry : Option Value → Exec (State W) (Unit {0}) → Exec (State W) (Unit {0})
  carry value rest =
      (do
        yaml ← manifest_of env value
        namespace ← gets (λ (s : State W). s.specialresource.spec.namespace)
        wrap "Failed to create resources" (create_from_yaml env yaml namespace))
      >> rest

  -- A manifest was created, and the rest ended as the whole; or nothing came after it.
  abbrev Carried :
      Option Value → Exec (State W) (Unit {0}) → Outcome (Unit {0}) → State W → State W → Type 0
  Carried value rest out s t =
      (yaml : String) × (value ≡ some (string yaml))
      × (((u : State W) × (create yaml s ≡ (ok tt, u)) × (rest u ≡ (out, t)))
          ⊎ ((cause : Error) × (create yaml s ≡ (err cause, t))
              × (out ≡ err (wrapped cause "Failed to create resources"))))

  -- The outcomes of an action that neither ends the process nor is cut off.
  abbrev Returned : Outcome (Unit {0}) → Type 0
  Returned (ok u) = Unit
  Returned (err e) = Unit
  Returned _ = ⊥

  carry-Carried :
      (value : Option Value) (rest : Exec (State W) (Unit {0})) (out : Outcome (Unit {0}))
      (s t : State W)
      → Returned out
      → carry value rest s ≡ (out, t)
      → Carried value rest out s t
  unfolding manifest_of ◌>>=◌
  carry-Carried (some (string yaml)) rest out s t r h =
      (yaml, refl, by_outcome (create yaml s).0 refl h)
    where
      w : State W
      w = (create yaml s).1

      by_outcome :
          (o : Outcome (Unit {0}))
          → (create yaml s).0 ≡ o
          → continue (wrap_outcome "Failed to create resources" o) (λ _. rest) w ≡ (out, t)
          → ((u : State W) × (create yaml s ≡ (ok tt, u)) × (rest u ≡ (out, t)))
            ⊎ ((cause : Error) × (create yaml s ≡ (err cause, t))
                × (out ≡ err (wrapped cause "Failed to create resources")))
      by_outcome (ok u) e h = inl (w, (λ i. (e i, w)), h)
      by_outcome (err x) e h = inr (x, (λ i. (e i, (h i).1)), sym (ap (λ p. p.0) h))
      by_outcome exit e h = absurd (subst Returned (sym (ap (λ p. p.0) h)) r)
      by_outcome panic e h = absurd (subst Returned (sym (ap (λ p. p.0) h)) r)
      by_outcome out_of_fuel e h = absurd (subst Returned (sym (ap (λ p. p.0) h)) r)
  carry-Carried none rest out s t r h = absurd (subst Returned (sym (ap (λ p. p.0) h)) r)
  carry-Carried (some _) rest out s t r h = absurd (subst Returned (sym (ap (λ p. p.0) h)) r)

  pub states-CarriesOut :
      (states : List String) (s t : State W)
      → execute_states env manifests states s ≡ (ok tt, t)
      → CarriesOut states s t
  unfolding execute_states execute_state ◌>>=◌
  states-CarriesOut [] s t h = subst (CarriesOut [] s) (ap (λ p. p.1) h) none_left
  states-CarriesOut (x ∷ rest) s t h =
      let (yaml, there, how) =
        carry-Carried (lookup x manifests) (execute_states env manifests rest) (ok tt) s t tt h in
      elim how [
        | inl (u, done, later) ↦ carried there done (states-CarriesOut rest u t later)
        | inr (cause, failed, e) ↦ cc
      ]

  pub CarriesOut-states :
      (states : List String) (s t : State W)
      → CarriesOut states s t
      → execute_states env manifests states s ≡ (ok tt, t)
  unfolding execute_states execute_state manifest_of ◌>>=◌
  CarriesOut-states [] s _ none_left = refl
  CarriesOut-states (x ∷ rest) s t (carried {t = u} there done later) =
      rw (there, done) (CarriesOut-states rest u t later)

  -- The states up to one were carried out, that one fails, and those behind it were not begun.
  pub record StopsAt (states : List String) (s t : State W) (e : Error) : Type 0 where
    pub before : List String
    pub state : String
    pub behind : List String
    pub reached : State W
    pub listed : states ≡ before ++ state ∷ behind
    pub carried_out : CarriesOut before s reached
    pub fails : Fails state reached t e

  step-Carried :
      (x : String) (rest : List String) (out : Outcome (Unit {0})) (s t : State W)
      → Returned out
      → execute_states env manifests (x ∷ rest) s ≡ (out, t)
      → Carried (lookup x manifests) (execute_states env manifests rest) out s t
  unfolding execute_states execute_state
  step-Carried x rest out s t r h =
      carry-Carried (lookup x manifests) (execute_states env manifests rest) out s t r h

  no_error_left : (s t : State W) (e : Error) → execute_states env manifests [] s ≡ (err e, t) → ⊥
  unfolding execute_states ◌>>=◌
  no_error_left s t e h = cc

  StopsAt-here :
      (x yaml : String) (rest : List String) (s t : State W) (e cause : Error)
      → lookup x manifests ≡ some (string yaml)
      → create yaml s ≡ (err cause, t)
      → (o : Outcome (Unit {0})) → o ≡ err e
      → o ≡ err (wrapped cause "Failed to create resources")
      → StopsAt (x ∷ rest) s t e
  StopsAt-here x yaml rest s t e cause there failed o p q = record {
    before = [];
    state = x;
    behind = rest;
    reached = s;
    listed = refl;
    carried_out = none_left;
    fails = record {
      yaml = yaml;
      cause = cause;
      manifest = there;
      failed = failed;
      passed_on = cc;
    };
  }

  StopsAt-later :
      (x yaml : String) (rest : List String) (s u t : State W) (e : Error)
      → lookup x manifests ≡ some (string yaml)
      → create yaml s ≡ (ok tt, u)
      → StopsAt rest u t e
      → StopsAt (x ∷ rest) s t e
  StopsAt-later x yaml rest s u t e there done stop = record {
    before = x ∷ stop.before;
    state = stop.state;
    behind = stop.behind;
    reached = stop.reached;
    listed = ap (λ l. x ∷ l) stop.listed;
    carried_out = carried there done stop.carried_out;
    fails = stop.fails;
  }

  pub states-StopsAt :
      (states : List String) (s t : State W) (e : Error)
      → execute_states env manifests states s ≡ (err e, t)
      → StopsAt states s t e
  states-StopsAt [] s t e h = absurd (no_error_left s t e h)
  states-StopsAt (x ∷ rest) s t e h =
      let (yaml, there, how) = step-Carried x rest (err e) s t tt h in
      elim how [
        | inl (u, done, later) ↦
            StopsAt-later x yaml rest s u t e there done (states-StopsAt rest u t e later)
        | inr (cause, failed, same) ↦
            StopsAt-here x yaml rest s t e cause there failed (err e) refl same
      ]

  stopped :
      (before behind : List String) (state : String) (s u t : State W) (e : Error)
      → CarriesOut before s u
      → Fails state u t e
      → execute_states env manifests (before ++ state ∷ behind) s ≡ (err e, t)
  unfolding execute_states execute_state manifest_of ◌>>=◌
  stopped [] behind state s _ t e none_left f = rw (f.manifest, f.failed, f.passed_on)
  stopped (x ∷ rest) behind state s u t e (carried {t = v} there done later) f =
      rw (there, done) (stopped rest behind state v u t e later f)

  pub StopsAt-states :
      (states : List String) (s t : State W) (e : Error)
      → StopsAt states s t e
      → execute_states env manifests states s ≡ (err e, t)
  StopsAt-states states s t e stop =
      rw stop.listed
        (stopped stop.before stop.behind stop.state s stop.reached t e stop.carried_out stop.fails)
