-- ===== src/Hardware/Dropped.antt =====
-- What becomes of an error of the read of a resource's ConfigMap: controllers/resources.go.
use special_resource_operato.Prelude.{◌≡◌, ◌≢◌, refl, false, String, [], ◌∷◌}
use special_resource_operato.Exec.{ApiError, not_found, exit, ◌>>=◌, pure}
use special_resource_operato.Value.{Fields}
use special_resource_operato.State.{State}
use special_resource_operato.Env.{Env, refused}
use special_resource_operato.Cluster.{ask}
use special_resource_operato.Runtime.{new_object}
use special_resource_operato.Hardware.{
  found_configuration, get_hardware_configuration, reconcile_hardware_states,
}

module _ {W : Type 0} (env : Env W) where
  abbrev pub empty_config_map : Fields
  empty_config_map = new_object env "v1" "ConfigMap"

  -- Any error but NotFound leaves the empty ConfigMap.
  found_configuration-refused :
      (name : String) (cm : Fields) (e : ApiError) (s : State W)
      → e ≢ not_found
      → found_configuration env name cm (refused e) s ≡ pure cm s
  unfolding found_configuration
  found_configuration-refused name cm not_found s n = absurd (n refl)
  found_configuration-refused name cm _ s n = refl

  -- An empty ConfigMap without data ends the process.
  reconcile_hardware_states-empty :
      (cm : Fields) (s : State W)
      → (env.nested_map cm ("data" ∷ [])).1 ≡ false
      → reconcile_hardware_states env cm s ≡ (exit, s)
  unfolding reconcile_hardware_states ◌>>=◌
  reconcile_hardware_states-empty cm s h = rw h

  -- An API error of the read of the ConfigMap that is not NotFound is dropped: the states of the empty
  -- ConfigMap are reconciled instead, which has no data, and so the process exits.
  pub get_hardware_configuration-refused :
      (e : ApiError) (s : State W) (w : W)
      → e ≢ not_found
      → env.client.get empty_config_map
          (record { namespace = s.specialresource.spec.namespace; name = s.specialresource.name })
          s.world
        ≡ (refused e, w)
      → (env.nested_map empty_config_map ("data" ∷ [])).1 ≡ false
      → (get_hardware_configuration env >>= reconcile_hardware_states env) s
        ≡ (exit, record s { world = w })
  unfolding get_hardware_configuration ask ◌>>=◌
  get_hardware_configuration-refused e s w other read no_data = rw (
    read,
    found_configuration-refused s.specialresource.name empty_config_map e (record s { world = w })
        other,
    reconcile_hardware_states-empty empty_config_map (record s { world = w }) no_data,
  )
