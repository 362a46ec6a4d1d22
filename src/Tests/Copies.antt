-- ===== src/Tests/Copies.antt =====
-- A list of one resource in a memory of five arrays, whose metadata are the finalizers, in the test of
-- DeepCopy.
use special_resource_operato.Prelude.{◌≡◌, sym, String, [], ◌∷◌, Option, some, arith}
use mathlib.Core.Option
use special_resource_operato.DeepCopy.Types.{
  Slice, nil_slice, array, Images, Resource, ResourceList,
}
use special_resource_operato.DeepCopy.Memory.{
  Cells, Heap, strings, paths, images, configurations, resources, string_array, update,
}
use special_resource_operato.DeepCopy.Arrays.{update-above, update-below}
use special_resource_operato.DeepCopy.Methods.{resource_list, deep_copy_object_resource_list}
use special_resource_operato.DeepCopy.Copiers.{Copier, values, same_value}
use special_resource_operato.DeepCopy.Structs.{resource_copier, resource_list_copier}
use special_resource_operato.DeepCopy.Independent.{deep_copy_resource_list_lem}

abbrev gpu_images : Images
gpu_images = record {
  name = "driver";
  kind = "ImageStreamTag";
  namespace = "gpu";
  pull_secret = "";
  paths = array 0;
}

abbrev gpu_resource : Resource (Slice String)
gpu_resource = record {
  type_meta = record { kind = "SpecialResource"; api_version = "sro.openshift.io/v1beta1" };
  object_meta = array 1;
  spec = record {
    namespace = "gpu";
    configuration = array 3;
    driver_container = record {
      source = record { git = record { ref = "master"; uri = "https://example.com/gpu" } };
      build_args = nil_slice;
      run_args = nil_slice;
      artifacts = record { host_paths = nil_slice; images = array 2; claims = nil_slice };
    };
    node = record { selector = "" };
    depends_on = nil_slice;
  };
  status = record { state = "" };
}

abbrev gpu_list : ResourceList (Slice String) String
gpu_list = record {
  type_meta = record { kind = "SpecialResourceList"; api_version = "sro.openshift.io/v1beta1" };
  list_meta = "12";
  items = array 5;
}

abbrev gpu_cells : Cells (Slice String)
gpu_cells =
    update
      (update
        (update
          (update
            (update
              (update (λ a. strings []) 0
                (paths (record { source_path = "/lib"; destination_dir = "/opt" } ∷ [])))
              1 (strings ("finalizer" ∷ [])))
            2 (images (gpu_images ∷ [])))
          3 (configurations (record { name = "debug"; value = array 4 } ∷ [])))
        4 (strings ("yes" ∷ "no" ∷ [])))
      5 (resources (gpu_resource ∷ []))

abbrev gpu_heap : Heap (Slice String)
gpu_heap = record { next = 6; cell = gpu_cells }

abbrev finalizers : Copier (Slice String) (Slice String)
finalizers = values string_array

abbrev version : Copier (Slice String) String
version = same_value

abbrev after_list : Cells (Slice String)
after_list =
    (deep_copy_object_resource_list finalizers.copy version.copy (some gpu_list) gpu_heap).1.cell

-- The program writes the original's array 4 after the copy, ...
abbrev list_written : Cells (Slice String)
list_written = update after_list 4 (strings [])

-- ... or the first array that the copy allocated.
abbrev copy_written : Cells (Slice String)
copy_written = update after_list 6 (resources [])

gpu_resource-Reach : (resource_copier finalizers version).shape.Reach 0 6 gpu_cells gpu_resource
gpu_resource-Reach = (
  tt,
  (
    (omega arith, omega arith, (tt, tt)),
    (
      tt,
      (
        (omega arith, omega arith, ((tt, (omega arith, omega arith, (tt, (tt, tt)))), tt)),
        (
          (
            tt,
            (
              tt,
              (
                tt,
                (
                  tt,
                  (
                    (omega arith, omega arith, ((tt, (omega arith, omega arith, (tt, tt))), tt)),
                    tt,
                  ),
                ),
              ),
            ),
          ),
          tt,
        ),
      ),
    ),
  ),
)

deep_copy_resource_list_lem_example :
    ((q : Option (ResourceList (Slice String) String)) × ((deep_copy_object_resource_list
          finalizers.copy version.copy
          (some gpu_list)
          gpu_heap).0
        ≡ Option.map resource_list q)
      × (Option.map ((resource_list_copier finalizers version).shape.view list_written) q
          ≡ Option.map
              ((resource_list_copier finalizers version).shape.view gpu_cells)
              (some gpu_list)))
    × (Option.map
          ((resource_list_copier finalizers version).shape.view copy_written)
          (some gpu_list)
        ≡ Option.map
            ((resource_list_copier finalizers version).shape.view gpu_cells)
            (some gpu_list))
deep_copy_resource_list_lem_example =
    deep_copy_resource_list_lem finalizers version (some gpu_list) gpu_heap list_written
      copy_written (tt, (tt, (omega arith, omega arith, (gpu_resource-Reach, tt))))
      (λ a l u. sym (update-above after_list a 4 (strings []) (omega arith)))
      (λ a l u. sym (update-below after_list a 6 (resources []) u))
