-- ===== src/Api.antt =====
-- api/v1beta1/specialresource_types.go: the custom resource that the operator reconciles.
-- Of the embedded metadata the program reads the name alone.
use special_resource_operato.Prelude.{String, List, []}

pub record SpecialResourcePaths : Type 0 where
  pub source_path : String
  pub destination_dir : String

pub record SpecialResourceImages : Type 0 where
  pub name : String
  pub kind : String
  pub namespace : String
  pub pull_secret : String
  pub paths : List SpecialResourcePaths

pub record SpecialResourceClaims : Type 0 where
  pub name : String
  pub mount_path : String

pub record SpecialResourceArtifacts : Type 0 where
  pub host_paths : List SpecialResourcePaths
  pub images : List SpecialResourceImages
  pub claims : List SpecialResourceClaims

pub record SpecialResourceNode : Type 0 where
  pub selector : String

pub record SpecialResourceRunArgs : Type 0 where
  pub name : String
  pub value : String

pub record SpecialResourceBuildArgs : Type 0 where
  pub name : String
  pub value : String

pub record SpecialResourceConfiguration : Type 0 where
  pub name : String
  pub value : List String

pub record SpecialResourceGit : Type 0 where
  pub ref : String
  pub uri : String

pub record SpecialResourceSource : Type 0 where
  pub git : SpecialResourceGit

pub record SpecialResourceDriverContainer : Type 0 where
  pub source : SpecialResourceSource
  pub build_args : List SpecialResourceBuildArgs
  pub run_args : List SpecialResourceRunArgs
  pub artifacts : SpecialResourceArtifacts

pub record SpecialResourceDependency : Type 0 where
  pub name : String
  pub image_reference : String

pub record SpecialResourceSpec : Type 0 where
  pub namespace : String
  pub configuration : List SpecialResourceConfiguration
  pub driver_container : SpecialResourceDriverContainer
  pub node : SpecialResourceNode
  pub depends_on : List SpecialResourceDependency

pub record SpecialResourceStatus : Type 0 where
  pub state : String

pub record SpecialResource : Type 0 where
  pub name : String
  pub spec : SpecialResourceSpec
  pub status : SpecialResourceStatus

-- The zero value of the type, `SpecialResource{}`.
abbrev pub zero_driver_container : SpecialResourceDriverContainer
zero_driver_container = record {
  source = record { git = record { ref = ""; uri = "" } };
  build_args = [];
  run_args = [];
  artifacts = record { host_paths = []; images = []; claims = [] };
}

abbrev pub zero_resource : SpecialResource
zero_resource = record {
  name = "";
  spec = record {
    namespace = "";
    configuration = [];
    driver_container = zero_driver_container;
    node = record { selector = "" };
    depends_on = [];
  };
  status = record { state = "" };
}
