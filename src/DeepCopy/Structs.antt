-- ===== src/DeepCopy/Structs.antt =====
-- What the structs of api/v1beta1 denote in a memory, and that DeepCopyInto copies each of them.
use special_resource_operato.Prelude.{◌≡◌, refl, String}
use special_resource_operato.Api.{
  SpecialResourcePaths, SpecialResourceClaims, SpecialResourceNode, SpecialResourceRunArgs,
  SpecialResourceBuildArgs, SpecialResourceSource, SpecialResourceDependency, SpecialResourceStatus,
}
use special_resource_operato.DeepCopy.Types.{
  Slice, Images, Artifacts, Configuration, DriverContainer, Spec, TypeMeta, Resource, ResourceList,
}
use special_resource_operato.DeepCopy.Memory.{
  Heap, string_array, path_array, image_array, claim_array, build_arg_array, run_arg_array,
  configuration_array, dependency_array, resource_array,
}
use special_resource_operato.DeepCopy.Methods.{
  deep_copy_into_images, deep_copy_into_artifacts, deep_copy_into_configuration,
  deep_copy_into_driver_container, deep_copy_into_spec, deep_copy_into_resource,
  deep_copy_into_resource_list,
}
use special_resource_operato.DeepCopy.Copiers.{Copier, same_value, ◌then◌, values, each, struct}

abbrev pub images_fields : Images → (String × String × String × String) × Slice SpecialResourcePaths
images_fields x = ((x.name, x.kind, x.namespace, x.pull_secret), x.paths)

abbrev pub artifacts_fields :
    Artifacts → Slice SpecialResourcePaths × (Slice Images × Slice SpecialResourceClaims)
artifacts_fields x = (x.host_paths, (x.images, x.claims))

abbrev pub configuration_fields : Configuration → String × Slice String
configuration_fields x = (x.name, x.value)

abbrev pub driver_container_fields :
    DriverContainer
    → SpecialResourceSource
      × (Slice SpecialResourceBuildArgs × (Slice SpecialResourceRunArgs × Artifacts))
driver_container_fields x = (x.source, (x.build_args, (x.run_args, x.artifacts)))

abbrev pub spec_fields :
    Spec
    → (String × SpecialResourceNode)
      × (Slice Configuration × (DriverContainer × Slice SpecialResourceDependency))
spec_fields x = ((x.namespace, x.node), (x.configuration, (x.driver_container, x.depends_on)))

abbrev pub resource_fields :
    {M : Type 0} → Resource M → (TypeMeta × SpecialResourceStatus) × (M × Spec)
resource_fields x = ((x.type_meta, x.status), (x.object_meta, x.spec))

abbrev pub resource_list_fields :
    {M L : Type 0} → ResourceList M L → TypeMeta × (L × Slice (Resource M))
resource_list_fields x = (x.type_meta, (x.list_meta, x.items))

module _ {M : Type 0} where
  pub images_copied :
      (x : Images) (h : Heap M)
      → (same_value then values path_array).copy (images_fields x) h
        ≡ (images_fields (deep_copy_into_images x h).0, (deep_copy_into_images x h).1)
  unfolding deep_copy_into_images
  images_copied x h = refl

  abbrev pub images_copier : Copier M Images
  images_copier =
      struct images_fields (same_value then values path_array) deep_copy_into_images images_copied

  pub artifacts_copied :
      (x : Artifacts) (h : Heap M)
      → (values path_array then each image_array images_copier then values claim_array).copy
          (artifacts_fields x)
          h
        ≡ (artifacts_fields (deep_copy_into_artifacts x h).0, (deep_copy_into_artifacts x h).1)
  unfolding deep_copy_into_artifacts
  artifacts_copied x h = refl

  abbrev pub artifacts_copier : Copier M Artifacts
  artifacts_copier =
      struct artifacts_fields
        (values path_array then each image_array images_copier then values claim_array)
        deep_copy_into_artifacts artifacts_copied

  pub configuration_copied :
      (x : Configuration) (h : Heap M)
      → (same_value then values string_array).copy (configuration_fields x) h ≡ (
        configuration_fields (deep_copy_into_configuration x h).0,
        (deep_copy_into_configuration x h).1,
      )
  unfolding deep_copy_into_configuration
  configuration_copied x h = refl

  abbrev pub configuration_copier : Copier M Configuration
  configuration_copier =
      struct configuration_fields (same_value then values string_array) deep_copy_into_configuration
        configuration_copied

  pub driver_container_copied :
      (x : DriverContainer) (h : Heap M)
      → (same_value
            then values build_arg_array
            then values run_arg_array
            then artifacts_copier).copy
          (driver_container_fields x)
          h
        ≡ (
          driver_container_fields (deep_copy_into_driver_container x h).0,
          (deep_copy_into_driver_container x h).1,
        )
  unfolding deep_copy_into_driver_container
  driver_container_copied x h = refl

  abbrev pub driver_container_copier : Copier M DriverContainer
  driver_container_copier =
      struct driver_container_fields
        (same_value then values build_arg_array then values run_arg_array then artifacts_copier)
        deep_copy_into_driver_container driver_container_copied

  pub spec_copied :
      (x : Spec) (h : Heap M)
      → (same_value
            then each configuration_array configuration_copier
            then driver_container_copier
            then values dependency_array).copy
          (spec_fields x)
          h
        ≡ (spec_fields (deep_copy_into_spec x h).0, (deep_copy_into_spec x h).1)
  unfolding deep_copy_into_spec
  spec_copied x h = refl

  abbrev pub spec_copier : Copier M Spec
  spec_copier =
      struct spec_fields
        (same_value
          then each configuration_array configuration_copier
          then driver_container_copier
          then values dependency_array)
        deep_copy_into_spec spec_copied

-- The methods of k8s.io/apimachinery that copy the metadata are copiers too.
module _ {M L : Type 0} (metadata : Copier M M) (list_metadata : Copier M L) where
  pub resource_copied :
      (x : Resource M) (h : Heap M)
      → (same_value then metadata then spec_copier).copy (resource_fields x) h ≡ (
        resource_fields (deep_copy_into_resource metadata.copy list_metadata.copy x h).0,
        (deep_copy_into_resource metadata.copy list_metadata.copy x h).1,
      )
  unfolding deep_copy_into_resource
  resource_copied x h = refl

  abbrev pub resource_copier : Copier M (Resource M)
  resource_copier =
      struct resource_fields (same_value then metadata then spec_copier)
        (deep_copy_into_resource metadata.copy list_metadata.copy) resource_copied

  pub resource_list_copied :
      (x : ResourceList M L) (h : Heap M)
      → (same_value then list_metadata then each resource_array resource_copier).copy
          (resource_list_fields x)
          h
        ≡ (
          resource_list_fields
              (deep_copy_into_resource_list metadata.copy list_metadata.copy x h).0,
          (deep_copy_into_resource_list metadata.copy list_metadata.copy x h).1,
        )
  unfolding deep_copy_into_resource_list
  resource_list_copied x h = refl

  abbrev pub resource_list_copier : Copier M (ResourceList M L)
  resource_list_copier =
      struct resource_list_fields
        (same_value then list_metadata then each resource_array resource_copier)
        (deep_copy_into_resource_list metadata.copy list_metadata.copy) resource_list_copied
