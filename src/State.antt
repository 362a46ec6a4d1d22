-- ===== src/State.antt =====
-- What the operator keeps between calls: the fields of `SpecialResourceReconciler`
-- (controllers/specialresource_controller.go), the package variables `node`
-- (controllers/resources.go) and `runInfo` (controllers/runtime.go), and the cluster outside.
use special_resource_operato.Prelude.{List, []}
use special_resource_operato.Prelude.Int.{ℤ, pos}
use special_resource_operato.Value.{Fields}
use special_resource_operato.Api.{SpecialResource, SpecialResourceDependency, zero_resource}
use special_resource_operato.RuntimeInfo.{RuntimeInformation, initial_run_info}

-- `list` holds the items of the node list, `count` is an int64.
pub record Nodes : Type 0 where
  pub list : List Fields
  pub count : ℤ

-- `world` is everything behind the API client; it changes by calls of the client alone, which
-- may also let other controllers move in between.
pub record State (W : Type 0) : Type 0 where
  pub world : W
  pub specialresource : SpecialResource
  pub parent : SpecialResource
  pub dependency : SpecialResourceDependency
  pub run_info : RuntimeInformation
  pub node : Nodes

-- The state when the process starts.
abbrev pub initial : {W : Type 0} → W → State W
initial w = record {
  world = w;
  specialresource = zero_resource;
  parent = zero_resource;
  dependency = record { name = ""; image_reference = "" };
  run_info = initial_run_info;
  node = record { list = []; count = pos 0xDEADBEEF };
}
