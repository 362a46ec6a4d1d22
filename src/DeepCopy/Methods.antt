-- ===== src/DeepCopy/Methods.antt =====
-- api/v1beta1/zz_generated.deepcopy.go: the methods DeepCopyInto, DeepCopy and DeepCopyObject of each
-- type. DeepCopyInto starts with `*out = *in` and then writes fields of `out`: here it is an action
-- that returns `out`. A pointer to a struct is nil, as `none`, or stands for the struct.
use special_resource_operato.Prelude.{Option, none, some}
use special_resource_operato.Api.{
  SpecialResourcePaths, SpecialResourceClaims, SpecialResourceNode, SpecialResourceRunArgs,
  SpecialResourceBuildArgs, SpecialResourceGit, SpecialResourceSource, SpecialResourceDependency,
  SpecialResourceStatus,
}
use special_resource_operato.DeepCopy.Types.{
  Images, Artifacts, Configuration, DriverContainer, Spec, Resource, ResourceList,
}
use special_resource_operato.DeepCopy.Memory.{
  Copy, pure, ◌>>=◌, copy_each, copy_slice, string_array, path_array, image_array, claim_array,
  build_arg_array, run_arg_array, configuration_array, dependency_array, resource_array,
}

-- What DeepCopyObject returns when it is not nil.
pub data Object (M L : Type 0) : Type 0 where
  resource : Resource M → Object M L
  resource_list : ResourceList M L → Object M L

module _ {M : Type 0} where
  -- if in == nil { return nil }; out := new(T); in.DeepCopyInto(out); return out
  abbrev pub allocated : {T : Type 0} → (T → Copy M T) → Option T → Copy M (Option T)
  allocated deep_copy_into none = pure none
  allocated deep_copy_into (some x) = do out ← deep_copy_into x; pure (some out)

  unfoldable pub deep_copy_into_git : SpecialResourceGit → Copy M SpecialResourceGit
  deep_copy_into_git x = pure x

  unfoldable pub deep_copy_git : Option SpecialResourceGit → Copy M (Option SpecialResourceGit)
  deep_copy_git = allocated deep_copy_into_git

  unfoldable pub deep_copy_into_source : SpecialResourceSource → Copy M SpecialResourceSource
  deep_copy_into_source x = pure (record x { git = x.git })

  unfoldable pub deep_copy_source :
      Option SpecialResourceSource → Copy M (Option SpecialResourceSource)
  deep_copy_source = allocated deep_copy_into_source

  unfoldable pub deep_copy_into_paths : SpecialResourcePaths → Copy M SpecialResourcePaths
  deep_copy_into_paths x = pure x

  unfoldable pub deep_copy_paths :
      Option SpecialResourcePaths → Copy M (Option SpecialResourcePaths)
  deep_copy_paths = allocated deep_copy_into_paths

  unfoldable pub deep_copy_into_claims : SpecialResourceClaims → Copy M SpecialResourceClaims
  deep_copy_into_claims x = pure x

  unfoldable pub deep_copy_claims :
      Option SpecialResourceClaims → Copy M (Option SpecialResourceClaims)
  deep_copy_claims = allocated deep_copy_into_claims

  unfoldable pub deep_copy_into_build_args :
      SpecialResourceBuildArgs → Copy M SpecialResourceBuildArgs
  deep_copy_into_build_args x = pure x

  unfoldable pub deep_copy_build_args :
      Option SpecialResourceBuildArgs → Copy M (Option SpecialResourceBuildArgs)
  deep_copy_build_args = allocated deep_copy_into_build_args

  unfoldable pub deep_copy_into_run_args : SpecialResourceRunArgs → Copy M SpecialResourceRunArgs
  deep_copy_into_run_args x = pure x

  unfoldable pub deep_copy_run_args :
      Option SpecialResourceRunArgs → Copy M (Option SpecialResourceRunArgs)
  deep_copy_run_args = allocated deep_copy_into_run_args

  unfoldable pub deep_copy_into_node : SpecialResourceNode → Copy M SpecialResourceNode
  deep_copy_into_node x = pure x

  unfoldable pub deep_copy_node : Option SpecialResourceNode → Copy M (Option SpecialResourceNode)
  deep_copy_node = allocated deep_copy_into_node

  unfoldable pub deep_copy_into_dependency :
      SpecialResourceDependency → Copy M SpecialResourceDependency
  deep_copy_into_dependency x = pure x

  unfoldable pub deep_copy_dependency :
      Option SpecialResourceDependency → Copy M (Option SpecialResourceDependency)
  deep_copy_dependency = allocated deep_copy_into_dependency

  unfoldable pub deep_copy_into_status : SpecialResourceStatus → Copy M SpecialResourceStatus
  deep_copy_into_status x = pure x

  unfoldable pub deep_copy_status :
      Option SpecialResourceStatus → Copy M (Option SpecialResourceStatus)
  deep_copy_status = allocated deep_copy_into_status

  unfoldable pub deep_copy_into_images : Images → Copy M Images
  deep_copy_into_images x = do
    paths ← copy_slice path_array x.paths
    pure (record x { paths = paths })

  unfoldable pub deep_copy_images : Option Images → Copy M (Option Images)
  deep_copy_images = allocated deep_copy_into_images

  unfoldable pub deep_copy_into_artifacts : Artifacts → Copy M Artifacts
  deep_copy_into_artifacts x = do
    host_paths ← copy_slice path_array x.host_paths
    images ← copy_each image_array deep_copy_into_images x.images
    claims ← copy_slice claim_array x.claims
    pure (record x { host_paths = host_paths; images = images; claims = claims })

  unfoldable pub deep_copy_artifacts : Option Artifacts → Copy M (Option Artifacts)
  deep_copy_artifacts = allocated deep_copy_into_artifacts

  unfoldable pub deep_copy_into_configuration : Configuration → Copy M Configuration
  deep_copy_into_configuration x = do
    value ← copy_slice string_array x.value
    pure (record x { value = value })

  unfoldable pub deep_copy_configuration : Option Configuration → Copy M (Option Configuration)
  deep_copy_configuration = allocated deep_copy_into_configuration

  unfoldable pub deep_copy_into_driver_container : DriverContainer → Copy M DriverContainer
  deep_copy_into_driver_container x = do
    build_args ← copy_slice build_arg_array x.build_args
    run_args ← copy_slice run_arg_array x.run_args
    artifacts ← deep_copy_into_artifacts x.artifacts
    pure (record x {
      source = x.source;
      build_args = build_args;
      run_args = run_args;
      artifacts = artifacts;
    })

  unfoldable pub deep_copy_driver_container :
      Option DriverContainer → Copy M (Option DriverContainer)
  deep_copy_driver_container = allocated deep_copy_into_driver_container

  unfoldable pub deep_copy_into_spec : Spec → Copy M Spec
  deep_copy_into_spec x = do
    configuration ← copy_each configuration_array deep_copy_into_configuration x.configuration
    driver_container ← deep_copy_into_driver_container x.driver_container
    depends_on ← copy_slice dependency_array x.depends_on
    pure (record x {
      configuration = configuration;
      driver_container = driver_container;
      node = x.node;
      depends_on = depends_on;
    })

  unfoldable pub deep_copy_spec : Option Spec → Copy M (Option Spec)
  deep_copy_spec = allocated deep_copy_into_spec

-- The embedded metadata are copied by methods of k8s.io/apimachinery.
module _ {M L : Type 0} (copy_meta : M → Copy M M) (copy_list_meta : L → Copy M L) where
  unfoldable pub deep_copy_into_resource : Resource M → Copy M (Resource M)
  deep_copy_into_resource x = do
    object_meta ← copy_meta x.object_meta
    spec ← deep_copy_into_spec x.spec
    pure (record x {
      type_meta = x.type_meta;
      object_meta = object_meta;
      spec = spec;
      status = x.status;
    })

  unfoldable pub deep_copy_resource : Option (Resource M) → Copy M (Option (Resource M))
  deep_copy_resource = allocated deep_copy_into_resource

  unfoldable pub deep_copy_object_resource : Option (Resource M) → Copy M (Option (Object M L))
  deep_copy_object_resource x = do
    c ← deep_copy_resource x
    elim c [ some out ↦ pure (some (resource out)) | none ↦ pure none ]

  unfoldable pub deep_copy_into_resource_list : ResourceList M L → Copy M (ResourceList M L)
  deep_copy_into_resource_list x = do
    list_meta ← copy_list_meta x.list_meta
    items ← copy_each resource_array deep_copy_into_resource x.items
    pure (record x { type_meta = x.type_meta; list_meta = list_meta; items = items })

  unfoldable pub deep_copy_resource_list :
      Option (ResourceList M L) → Copy M (Option (ResourceList M L))
  deep_copy_resource_list = allocated deep_copy_into_resource_list

  unfoldable pub deep_copy_object_resource_list :
      Option (ResourceList M L) → Copy M (Option (Object M L))
  deep_copy_object_resource_list x = do
    c ← deep_copy_resource_list x
    elim c [ some out ↦ pure (some (resource_list out)) | none ↦ pure none ]
