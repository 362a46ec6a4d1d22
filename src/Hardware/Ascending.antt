-- ===== src/Hardware/Ascending.antt =====
-- `ReconcileHardwareStates` of controllers/resources.go: what it carries out, and in which order.
use mathlib.Core.List.{Perm}
use special_resource_operato.Prelude.{
  ◌≡◌, ◌≢◌, ◌↔◌, refl, sym, ap, ◌∙◌, Bool, true, false, String, List, [], ◌∷◌, Dict, Option, none,
  some,
}
use special_resource_operato.Exec.{
  Error, Outcome, ok, err, exit, exit_on_error_or_not_found, ◌>>=◌, ◌>>◌,
}
use special_resource_operato.Value.{Value, Fields}
use special_resource_operato.State.{State}
use special_resource_operato.Env.{Env}
use special_resource_operato.Hardware.{keys, execute_states, reconcile_hardware_states}
use special_resource_operato.Hardware.Order.{sort_strings, insert_string}
use special_resource_operato.Hardware.Sorted.{IsSorted, IsFirst, sort_strings_lem}
use special_resource_operato.Hardware.Permuted.{sort_strings-Perm}
use special_resource_operato.Hardware.States.{
  CarriesOut, states-CarriesOut, CarriesOut-states, StopsAt, states-StopsAt, StopsAt-states,
}

insert_string-sorted : (s : String) (ts : List String) → IsFirst s ts → insert_string s ts ≡ s ∷ ts
unfolding insert_string IsFirst
insert_string-sorted s [] h = refl
insert_string-sorted s (t ∷ ts) h = rw h

sort_strings-sorted : (xs : List String) → IsSorted xs → sort_strings xs ≡ xs
unfolding sort_strings IsSorted
sort_strings-sorted [] h = refl
sort_strings-sorted (x ∷ xs) (first, h) =
    ap (insert_string x) (sort_strings-sorted xs h) ∙ insert_string-sorted x xs first

module _ {W : Type 0} (env : Env W) (config : Fields) where
  -- The names of the data's entries, in ascending order.
  pub record Ascending (data' : Dict Value) (states : List String) : Type 0 where
    pub given : env.nested_map config ("data" ∷ []) ≡ (data', true, none)
    pub sorted : IsSorted states
    pub same : Perm states (keys env data')

  of_sorted :
      (data' : Dict Value) (states : List String)
      → Ascending data' states
      → reconcile_hardware_states env config ≡ execute_states env data' states
  unfolding reconcile_hardware_states ◌>>=◌
  of_sorted data' states a = rw (a.given) (
      ap (execute_states env data') (
        sym (sort_strings-Perm states (keys env data') a.same)
        ∙ sort_strings-sorted states a.sorted))

  given_data :
      (out : Outcome (Unit {0})) (s t : State W)
      → out ≢ exit
      → reconcile_hardware_states env config s ≡ (out, t)
      → (data' : Dict Value) × (states : List String) × Ascending data' states
        × (execute_states env data' states s ≡ (out, t))
  unfolding reconcile_hardware_states ◌>>=◌
  given_data out s t n h =
      let d = env.nested_map config ("data" ∷ []) in
      let (found, fine, run) = there d.0 d.1 d.2 h in
      let (sorted, same) = sort_strings_lem (keys env d.0) in
      (
        d.0,
        sort_strings (keys env d.0),
        record { given = λ i. (d.0, found i, fine i); sorted = sorted; same = same },
        run,
      )
    where
      there :
          (d : Dict Value) (found : Bool) (e : Option Error)
          → (exit_on_error_or_not_found found e >> execute_states env d (sort_strings (keys env d)))
              s
            ≡ (out, t)
          → (found ≡ true)
            × (e ≡ none)
            × (execute_states env d (sort_strings (keys env d)) s ≡ (out, t))
      there d true none h = (refl, refl, h)
      there d true (some e) h = absurd (n (sym (ap (λ p. p.0) h)))
      there d false e h = absurd (n (sym (ap (λ p. p.0) h)))

  -- The states are reconciled with no error, from one state of the program to another, exactly where the
  -- ConfigMap has data and the manifests of all its entries, which are texts, are created one after the
  -- other with no error, by the names of the entries in ascending order, each starting in the state in
  -- which the one before ended.
  pub reconcile_hardware_states_iff :
      (s t : State W)
      → (reconcile_hardware_states env config s ≡ (ok tt, t)) ↔ (
          (data' : Dict Value) × (states : List String) × Ascending data' states
          × CarriesOut env data' states s t)
  reconcile_hardware_states_iff s t = (
    λ h.
        let (d, states, a, run) = given_data (ok tt) s t (λ e. cc) h in
        (d, states, a, states-CarriesOut env d states s t run),
    λ (d, states, a, run).
        ap (λ m. m s) (of_sorted d states a) ∙ CarriesOut-states env d states s t run,
  )

  -- The states are reconciled with an error exactly where the ConfigMap has data and, by the names of its
  -- entries in ascending order, the manifests up to one are created with no error, that one is created
  -- with an error, and those behind it are not begun; the error is that one's, wrapped.
  pub reconcile_hardware_states_err_iff :
      (s t : State W) (e : Error)
      → (reconcile_hardware_states env config s ≡ (err e, t)) ↔ (
          (data' : Dict Value) × (states : List String) × Ascending data' states
          × StopsAt env data' states s t e)
  reconcile_hardware_states_err_iff s t e = (
    λ h.
        let (d, states, a, run) = given_data (err e) s t (λ e. cc) h in
        (d, states, a, states-StopsAt env d states s t e run),
    λ (d, states, a, stop).
        ap (λ m. m s) (of_sorted d states a) ∙ StopsAt-states env d states s t e stop,
  )
