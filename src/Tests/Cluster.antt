-- ===== src/Tests/Cluster.antt =====
-- A cluster with a node, a secret and two special resources, one of which depends on the other.
use special_resource_operato.Prelude.{false, String, [], ◌∷◌}
use special_resource_operato.Value.{Fields, field, empty, string, object}
use special_resource_operato.Api.{SpecialResource, zero_resource}
use special_resource_operato.Tests.Server.{World, object_with}

abbrev pub plain : SpecialResource
plain = record zero_resource { name = "simple-kmod" }

abbrev pub relying : SpecialResource
relying = record zero_resource {
  name = "nvidia-gpu";
  spec = record zero_resource.spec {
    depends_on = record { name = "simple-kmod"; image_reference = "false" } ∷ [];
  };
}

abbrev config_map : String → String → Fields → Fields
config_map namespace name content = field "kind" (string "ConfigMap") (
    field "metadata"
      (object (field "name" (string name) (field "namespace" (string namespace) empty)))
      (field "data" (object content) empty))

abbrev pub secret : Fields
secret =
    field "kind" (string "Secret")
      (field "metadata" (object (field "name" (string "builder-dockercfg-x7k") empty)) empty)

abbrev pub node : Fields
node =
    object_with "Node"
      (("feature.node.kubernetes.io/kernel-version.full", "4.18.0")
        ∷ ("feature.node.kubernetes.io/system-os_release.ID", "rhcos")
        ∷ ("feature.node.kubernetes.io/system-os_release.VERSION_ID.major", "4")
        ∷ ("feature.node.kubernetes.io/system-os_release.VERSION_ID.minor", "5")
        ∷ [])
      []

-- The resources' manifests are there, and nodes, secrets and the image that the manifests refer to.
abbrev pub cluster : World
cluster = record {
  objects =
      config_map "openshift-machine-config-operator" "machine-config-osimageurl"
        (field "osImageURL" (string "quay.io/os") empty)
      ∷ config_map "nvidia-gpu" "nvidia-gpu" (field "0000-state.yaml" (string "Service") empty)
      ∷ config_map "simple-kmod" "simple-kmod" (field "0000-state.yaml" (string "Secret") empty)
      ∷ [];
  lists = ("NodeList", node ∷ []) ∷ ("SecretList", secret ∷ []) ∷ [];
  updates = [];
  writes = [];
  resources = relying ∷ plain ∷ [];
  conflicting = false;
}
