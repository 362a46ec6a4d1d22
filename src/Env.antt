-- ===== src/Env.antt =====
-- What the operator calls and this repository does not implement: the Kubernetes client and its
-- `unstructured` accessors, owner references, YAML and JSON decoding, templates, regular
-- expressions, `wait.Poll` and the recipes in the container image. Each is a field, of which the
-- definitions assume nothing.
use special_resource_operato.Prelude.{ℕ, String, Bool, List, Option, Dict}
use special_resource_operato.Prelude.Int.{ℤ}
use special_resource_operato.Exec.{ApiError, Error, Exec, Attempt}
use special_resource_operato.Value.{Value, Fields}
use special_resource_operato.Api.{SpecialResource}
use special_resource_operato.RuntimeInfo.{RuntimeInformation}
use special_resource_operato.State.{State}

-- (value, found, err)
abbrev pub Nested : Type 0 → Type 0
Nested A = A × Bool × Option Error

-- k8s.io/apimachinery/pkg/apis/meta/v1/unstructured. A `none` among the maps is a nil map. The
-- getters return copies, so that writing to a result changes no object.
pub record Unstructured : Type 0 where
  pub kind : Fields → String
  pub namespace : Fields → String
  pub name : Fields → String
  pub annotations : Fields → Option (Dict String)
  pub labels : Fields → Option (Dict String)
  pub set_api_version : String → Fields → Fields
  pub set_kind : String → Fields → Fields
  pub set_name : String → Fields → Fields
  pub set_namespace : String → Fields → Fields
  pub set_labels : Dict String → Fields → Fields
  pub nested_string : Fields → List String → Nested String
  pub nested_int64 : Fields → List String → Nested ℤ
  pub nested_slice : Fields → List String → Nested (List Value)
  pub nested_map : Fields → List String → Nested (Dict Value)
  pub set_nested_field : Value → List String → Fields → Attempt Fields
  pub set_nested_slice : List Value → List String → Fields → Attempt Fields
  pub set_nested_string_map : Dict String → List String → Fields → Attempt Fields

pub record NamespacedName : Type 0 where
  pub namespace : String
  pub name : String

-- client.InNamespace and client.MatchingLabels
pub record ListOptions : Type 0 where
  pub in_namespace : Option String
  pub matching_labels : Dict String

pub data Answer (A : Type 0) : Type 0 where
  answered : A → Answer A
  refused : ApiError → Answer A

-- An entry of a ClusterVersion's status.history.
pub record UpdateHistory : Type 0 where
  pub state : String
  pub version : String

-- The API client. `get` and `list` name the kind by the object or the list that they fill.
-- `create` and `update` answer with the object as the server returned it; `open_logs` opens the
-- log of a pod, whose bytes may then fail to arrive.
pub record Client (W : Type 0) : Type 0 where
  pub get : Fields → NamespacedName → W → Answer Fields × W
  pub list : String → String → ListOptions → W → Answer (List Fields) × W
  pub create : Fields → W → Answer Fields × W
  pub update : Fields → W → Answer Fields × W
  pub update_status : SpecialResource → W → Answer SpecialResource × W
  pub list_special_resources : W → Answer (List SpecialResource) × W
  pub cluster_version : W → Answer (List UpdateHistory) × W
  pub secret : NamespacedName → W → Answer (Dict String) × W
  pub open_logs : NamespacedName → W → Answer (Attempt (List ℕ)) × W

-- The answers of a k8syaml.YAMLReader, one by one; after them comes io.EOF.
pub data Read : Type 0 where
  document : String → Read
  nil_document : Read
  failed : Error → Read

-- html/template: `Parse` fails (template.Must panics), or `Execute` fails, or neither.
pub data Rendered : Type 0 where
  bad_template : Rendered
  bad_execution : Error → Rendered
  rendered : String → Rendered

-- An entry of a directory of the image as filepath.Walk meets it: a file with what ioutil.ReadFile
-- makes of it, a directory, or an entry that the walk has no information about.
pub data Entry : Type 0 where
  file : String → Attempt String → Entry
  directory : String → Entry
  unreadable : String → Entry

pub record Env (W : Type 0) : Type 0 where
  pub unstructured : Unstructured
  pub open unstructured use *
  pub client : Client W
  pub set_controller_reference : SpecialResource → Fields → Attempt Fields
  pub yaml_reader : String → List Read
  pub yaml_to_json : String → Attempt String
  pub unmarshal_json : String → Attempt Fields
  pub json_unmarshal : String → Attempt Fields
  pub execute_template : String → RuntimeInformation → Rendered
  pub match_string : String → List ℕ → Bool
  pub poll : ℕ → ℕ → Exec (State W) Bool → Exec (State W) (Unit {0})
  pub read_directory : String → Option (List Entry)
