-- ===== src/Tests/Ranges.antt =====
-- One configuration whose entries are met in two orders.
use mathlib.Core.List.Perm
use special_resource_operato.Prelude.{◌≡◌, refl, String, [], ◌∷◌, Dict, lookup, arith, eq_iff}
use special_resource_operato.Value.{Value, Fields, field, empty, string, object}
use special_resource_operato.Hardware.{reconcile_hardware_states}
use special_resource_operato.Hardware.Ranges.{reconcile_hardware_states-Perm}
use special_resource_operato.Tests.Server.{test_env}

abbrev ascending : Dict Value
ascending = ("0000-a.yaml", string "Pod") ∷ ("0001-b.yaml", string "Service") ∷ []

abbrev descending : Dict Value
descending = ("0001-b.yaml", string "Service") ∷ ("0000-a.yaml", string "Pod") ∷ []

abbrev pub config_of : Fields → Fields
config_of content = field "kind" (string "ConfigMap") (field "data" (object content) empty)

abbrev config : Fields
config =
    config_of (field "0000-a.yaml" (string "Pod") (field "0001-b.yaml" (string "Service") empty))

abbrev pub config' : Fields
config' =
    config_of (field "0001-b.yaml" (string "Service") (field "0000-a.yaml" (string "Pod") empty))

same_values : (k : String) → lookup k ascending ≡ lookup k descending
unfolding lookup
same_values k =
    ground
      (arith, eq_iff "0000-a.yaml" k, eq_iff "0001-b.yaml" k, eq_iff "0000-a.yaml" "0001-b.yaml")

reconcile_hardware_states-Perm_example :
    reconcile_hardware_states test_env config ≡ reconcile_hardware_states test_env config'
reconcile_hardware_states-Perm_example =
    reconcile_hardware_states-Perm test_env config config' ascending descending refl refl
      (Perm.swap "0001-b.yaml" "0000-a.yaml" []) same_values
