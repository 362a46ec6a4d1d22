-- ===== src/DeepCopy/Types.antt =====
-- The types of api/v1beta1/specialresource_types.go as they lie in memory: a slice is nil or leads to
-- an array, and structs without slices are those of Api. Metadata is a type of its own, `M` for an
-- object and `L` for a list.
use special_resource_operato.Prelude.{ℕ, String}
use special_resource_operato.Api.{
  SpecialResourcePaths, SpecialResourceClaims, SpecialResourceNode, SpecialResourceRunArgs,
  SpecialResourceBuildArgs, SpecialResourceSource, SpecialResourceDependency, SpecialResourceStatus,
}

-- The address of an array, which the slice shows from its start to its end.
pub data Slice (T : Type 0) : Type 0 where
  nil_slice : Slice T
  array : ℕ → Slice T

pub record Images : Type 0 where
  pub name : String
  pub kind : String
  pub namespace : String
  pub pull_secret : String
  pub paths : Slice SpecialResourcePaths

pub record Artifacts : Type 0 where
  pub host_paths : Slice SpecialResourcePaths
  pub images : Slice Images
  pub claims : Slice SpecialResourceClaims

pub record Configuration : Type 0 where
  pub name : String
  pub value : Slice String

pub record DriverContainer : Type 0 where
  pub source : SpecialResourceSource
  pub build_args : Slice SpecialResourceBuildArgs
  pub run_args : Slice SpecialResourceRunArgs
  pub artifacts : Artifacts

pub record Spec : Type 0 where
  pub namespace : String
  pub configuration : Slice Configuration
  pub driver_container : DriverContainer
  pub node : SpecialResourceNode
  pub depends_on : Slice SpecialResourceDependency

-- metav1.TypeMeta
pub record TypeMeta : Type 0 where
  pub kind : String
  pub api_version : String

pub record Resource (M : Type 0) : Type 0 where
  pub type_meta : TypeMeta
  pub object_meta : M
  pub spec : Spec
  pub status : SpecialResourceStatus

pub record ResourceList (M L : Type 0) : Type 0 where
  pub type_meta : TypeMeta
  pub list_meta : L
  pub items : Slice (Resource M)
