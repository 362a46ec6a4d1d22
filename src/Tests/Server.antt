-- ===== src/Tests/Server.antt =====
-- A small API server that keeps the updates that it was sent, and the other parameters of the model.
use special_resource_operato.Prelude.{
  refl, Bool, true, ◌&&◌, String, List, [], ◌∷◌, Dict, Option, none, some, lookup, ◌==◌,
  if◌then◌else◌,
}
use special_resource_operato.Exec.{new, returned, raised, not_found, conflict}
use special_resource_operato.Value.{string, object, Fields, empty, field}
use special_resource_operato.Api.{SpecialResource}
use special_resource_operato.Env.{
  Env, Client, NamespacedName, Answer, answered, refused, UpdateHistory, document, rendered,
}
use special_resource_operato.Safety.{poll_rounds, PollsInRounds}
use special_resource_operato.Crud.Log.{Write, created, updated, LogsWrites}
use special_resource_operato.Cluster.Log.{LogsUpdates}
use special_resource_operato.Tests.Accessors.{accessors, of_texts}

-- The objects that a read finds, the lists that a listing answers by their kind, the updates and the
-- writes that were sent, and whether an update meets a conflict.
pub record World : Type 0 where
  pub objects : List Fields
  pub lists : Dict (List Fields)
  pub updates : List Fields
  pub writes : List Write
  pub resources : List SpecialResource
  pub conflicting : Bool

abbrev pub read : Fields → NamespacedName → List Fields → Answer Fields
read o k [] = refused not_found
read o k (x ∷ xs) =
    if accessors.kind x == accessors.kind o
      && accessors.name x == k.name
      && accessors.namespace x == k.namespace
    then answered x
    else read o k xs

abbrev pub history : List UpdateHistory
history =
    record { state = "Partial"; version = "4.6.1" }
    ∷ record { state = "Completed"; version = "4.5.16" }
    ∷ []

abbrev pub listed_items : Option (List Fields) → List Fields
listed_items none = []
listed_items (some items) = items

abbrev pub client : Client World
client = record {
  get = λ o k w. (read o k w.objects, w);
  list = λ version kind o w. (answered (listed_items (lookup kind w.lists)), w);
  create = λ o w. (answered o, record w { objects = o ∷ w.objects; writes = created o ∷ w.writes });
  update = λ o w. (
    if w.conflicting then refused conflict else answered o,
    record w { updates = o ∷ w.updates; writes = updated o ∷ w.writes },
  );
  update_status = λ r w. (answered r, w);
  list_special_resources = λ w. (answered w.resources, w);
  cluster_version = λ w. (answered history, w);
  secret = λ k w. (answered [], w);
  open_logs = λ k w. (answered (returned []), w);
}

-- An object of a kind, with its labels and annotations.
abbrev pub object_with : String → Dict String → Dict String → Fields
object_with kind labels annotations = field "kind" (string kind) (
    field "metadata"
      (object (
        field "name" (string "x") (
          field "namespace" (string "ns") (
            field "labels" (object (of_texts labels))
              (field "annotations" (object (of_texts annotations)) empty)))))
      empty)

-- Each document stands for an object of the kind that it spells, for the vendor "acme".
abbrev pub test_env : Env World
test_env = record {
  unstructured = accessors;
  client = client;
  set_controller_reference =
      λ owner obj. accessors.set_nested_field (string owner.name) ("metadata" ∷ "owner" ∷ []) obj;
  yaml_reader = λ s. document s ∷ [];
  yaml_to_json = λ s. returned s;
  unmarshal_json = λ s.
      returned
        (object_with s [] (("specialresource.openshift.io/driver-container-vendor", "acme") ∷ []));
  json_unmarshal = λ s. raised (new "no JSON");
  execute_template = λ s info. rendered s;
  match_string = λ pattern logs. true;
  poll = λ interval timeout condition. poll_rounds 3 condition;
  read_directory = λ path. none;
}

pub test_env-PollsInRounds : PollsInRounds test_env
test_env-PollsInRounds = record { rounds = λ interval timeout condition s. (3, refl) }

abbrev pub updates_of : World → List Fields
updates_of w = w.updates

pub test_env-LogsUpdates : LogsUpdates test_env updates_of
test_env-LogsUpdates = record {
  get = λ o k w. refl;
  list = λ version kind o w. refl;
  create = λ o w. refl;
  update = λ o w. refl;
  update_status = λ r w. refl;
  list_special_resources = λ w. refl;
  cluster_version = λ w. refl;
  secret = λ k w. refl;
  open_logs = λ k w. refl;
}

abbrev pub writes_of : World → List Write
writes_of w = w.writes

pub test_env-LogsWrites : LogsWrites test_env writes_of
test_env-LogsWrites = record { get = λ o k w. refl; create = λ o w. refl; update = λ o w. refl }
