-- ===== src/Hardware/Ranges.antt =====
-- `ReconcileHardwareStates` of controllers/resources.go and the order in which its `range` over a
-- configuration's data meets the entries.
use mathlib.Core.List.{Perm}
use special_resource_operato.Prelude.{
  ◌≡◌, refl, ap, ◌∙◌, true, String, List, [], ◌∷◌, Dict, none, lookup,
}
use special_resource_operato.Exec.{◌>>◌, exit_on_error_or_not_found}
use special_resource_operato.Value.{Value, Fields}
use special_resource_operato.Env.{Env}
use special_resource_operato.Hardware.{
  keys, execute_state, execute_states, reconcile_hardware_states,
}
use special_resource_operato.Hardware.Order.{sort_strings}
use special_resource_operato.Hardware.Permuted.{sort_strings-Perm}

module _ {W : Type 0} (env : Env W) where
  execute_state-lookup :
      (d d' : Dict Value) (state : String)
      → lookup state d ≡ lookup state d'
      → execute_state env d state ≡ execute_state env d' state
  unfolding execute_state
  execute_state-lookup d d' state h = rw h refl

  execute_states-lookup :
      (d d' : Dict Value) (states : List String)
      → ((k : String) → lookup k d ≡ lookup k d')
      → execute_states env d states ≡ execute_states env d' states
  unfolding execute_states
  execute_states-lookup d d' [] h = refl
  execute_states-lookup d d' (state ∷ rest) h =
      λ i. execute_state-lookup d d' state (h state) i >> execute_states-lookup d d' rest h i

  -- Two configurations whose data have the same keys, in any order, and the same value at each key are
  -- reconciled in the same way, from every state: the order in which `range` meets the entries of the
  -- map has no effect.
  pub reconcile_hardware_states-Perm :
      (config config' : Fields) (d d' : Dict Value)
      → env.nested_map config ("data" ∷ []) ≡ (d, true, none)
      → env.nested_map config' ("data" ∷ []) ≡ (d', true, none)
      → Perm (keys env d) (keys env d')
      → ((k : String) → lookup k d ≡ lookup k d')
      → reconcile_hardware_states env config ≡ reconcile_hardware_states env config'
  unfolding reconcile_hardware_states
  reconcile_hardware_states-Perm config config' d d' h h' p same =
      rw (h, h')
        (ap (λ states. exit_on_error_or_not_found true none >> execute_states env d states)
            (sort_strings-Perm (keys env d) (keys env d') p)
          ∙ ap (λ m. exit_on_error_or_not_found true none >> m)
              (execute_states-lookup d d' (sort_strings (keys env d')) same))
