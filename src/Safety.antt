-- ===== src/Safety.antt =====
-- A guard on the updates that the operator sends to the API server, and what it says of the state.
-- The functions of the program are treated in the modules below.
pub mod Objects
pub mod Nodes
pub mod Waiting
pub mod Hooks
pub mod Manifests
pub mod Facts
pub mod Requests
pub mod Updates
use mathlib.Core.Path.{subst}
use special_resource_operato.Prelude.{
  ℕ, zero, suc, ◌≡◌, refl, ◌∙◌, ◌⊎◌, ◌<>◌, ◌++◌, All, none, some, lookup, insert, sym, ◌≢◌, Bool,
  true, false, String, List, ◌∷◌, [], Dict,
}
use special_resource_operato.Exec.{
  ok, new, Error, Outcome, Exec, pure, raise, Attempt, returned, ◌>>=◌,
}
use special_resource_operato.Exec.Safe.{
  Ends, Safe, Safe-bind, Safe-raise, Safe-pure, Safe-modify, safe_rules,
}
use special_resource_operato.Value.{Value, Fields}
use special_resource_operato.Api.{SpecialResource}
use special_resource_operato.State.{State}
use special_resource_operato.Env.{Env, Unstructured, NamespacedName, ListOptions, Answer, answered}
use special_resource_operato.Cluster.{ask}
use special_resource_operato.Crud.{object_key, update_resource_version}
use special_resource_operato.RoleBinding.{new_subject, set_subjects, role_binding_template}
use special_resource_operato.RuntimeInfo.{initial_run_info}
use mathlib.Core.List.{append_assoc}

-- An object that the API server answered when nodes were listed.
pub data IsListed {W : Type 0} (env : Env W) (node : Fields) : Type 0 where
  listed :
      (o : ListOptions) (w : W) (items before after : List Fields)
      → (env.client.list "v1" "NodeList" o w).0 ≡ answered items
      → items ≡ before ++ node ∷ after
      → IsListed env node

-- A role binding that the API server answered under the name system:image-puller.
pub data IsPuller {W : Type 0} (env : Env W) (rb : Fields) : Type 0 where
  puller :
      (namespace : String) (w : W)
      → (env.client.get
          (role_binding_template env)
          (record { namespace = namespace; name = "system:image-puller" })
          w).0
        ≡ answered rb
      → IsPuller env rb

-- The key of a state's label: one of four prefixes, a dash and the name of a resource.
abbrev pub IsStateKey : String → Type 0
IsStateKey k =
    (hw : String) × ((k ≡ "specialresource.openshift.io/driver-container" <> "-" <> hw)
      ⊎ (k ≡ "specialresource.openshift.io/runtime-enablement" <> "-" <> hw)
      ⊎ (k ≡ "specialresource.openshift.io/device-plugin" <> "-" <> hw)
      ⊎ (k ≡ "specialresource.openshift.io/device-monitoring" <> "-" <> hw))

-- A SpecialResource, or an object that got a reference to one as its owner.
pub data IsOwned {W : Type 0} (env : Env W) (obj : Fields) : Type 0 where
  parent : env.kind obj ≡ "SpecialResource" → IsOwned env obj
  child :
      (owner : SpecialResource) (base : Fields)
      → env.set_controller_reference owner base ≡ returned obj
      → IsOwned env obj

-- The updates that the operator may send: of an owned object that is no ServiceAccount, Pod or
-- BuildConfig and that the API server answered under its name, with what is copied from the answer;
-- of a listed node with one label more than it has, a state's; and of the role binding for image
-- pullers with one subject more than it has.
pub data IsPermitted {W : Type 0} (env : Env W) (obj : Fields) : Type 0 where
  updatable :
      (base owned found : Fields) (w : W) (s : State W)
      → IsOwned env owned
      → (env.client.get base (object_key env owned) w).0 ≡ answered found
      → (update_resource_version env owned found s).0 ≡ ok obj
      → env.kind obj ≢ "ServiceAccount"
      → env.kind obj ≢ "Pod"
      → env.kind obj ≢ "BuildConfig"
      → IsPermitted env obj
  relabelled :
      (labels : Dict String) (node : Fields) (k : String)
      → IsListed env node
      → IsStateKey k
      → env.labels node ≡ some labels
      → lookup k labels ≡ none
      → obj ≡ env.set_labels (insert k "ready" labels) node
      → IsPermitted env obj
  rebound :
      (namespace : String) (rb : Fields)
      → IsPuller env rb
      → obj
        ≡ set_subjects env
            ((env.nested_slice rb ("subjects" ∷ [])).0 ++ new_subject namespace ∷ [])
            rb
      → IsPermitted env obj

-- The condition of wait.Poll, run until it returns true, an error, or the rounds are used up.
unfoldable pub poll_rounds : {S : Type 0} → ℕ → Exec S Bool → Exec S (Unit {0})
poll_rounds zero condition = raise (new "timed out waiting for the condition")
poll_rounds (suc n) condition =
    condition >>= elim [ true ↦ pure tt | false ↦ poll_rounds n condition ]

-- wait.Poll, as documented: it runs the condition again and again, for some number of rounds.
pub record PollsInRounds {W : Type 0} (env : Env W) : Type 0 where
  pub rounds :
      (interval timeout : ℕ) (condition : Exec (State W) Bool) (s : State W)
      → (n : ℕ) × (env.poll interval timeout condition s ≡ poll_rounds n condition s)

-- Setting a field of `metadata` or `spec` leaves the kind of the object alone.
pub record KeepsKind (u : Unstructured) : Type 0 where
  pub kind_kept :
      (value : Value) (first : String) (rest : List String) (obj obj' : Fields)
      → first ≢ "kind"
      → u.set_nested_field value (first ∷ rest) obj ≡ returned obj'
      → u.kind obj' ≡ u.kind obj

-- A property of the cluster that reads, creations, status writes and permitted updates keep.
pub record IsGuarded {W : Type 0} (env : Env W) (P : W → Type 0) : Type 0 where
  pub get : (o : Fields) (k : NamespacedName) (w : W) → P w → P (env.client.get o k w).1
  pub list :
      (version kind : String) (o : ListOptions) (w : W)
      → P w
      → P (env.client.list version kind o w).1
  pub create : (o : Fields) (w : W) → P w → P (env.client.create o w).1
  pub update : (o : Fields) → IsPermitted env o → (w : W) → P w → P (env.client.update o w).1
  pub update_status : (r : SpecialResource) (w : W) → P w → P (env.client.update_status r w).1
  pub list_special_resources : (w : W) → P w → P (env.client.list_special_resources w).1
  pub cluster_version : (w : W) → P w → P (env.client.cluster_version w).1
  pub secret : (k : NamespacedName) (w : W) → P w → P (env.client.secret k w).1
  pub open_logs : (k : NamespacedName) (w : W) → P w → P (env.client.open_logs k w).1

-- The guarded property, and what the operator's own state keeps besides: the prefixes of the labels
-- are those it started with, and the cached nodes were listed.
abbrev pub On : {W : Type 0} (env : Env W) → (W → Type 0) → State W → Type 0
On env P s =
    P s.world
    × (s.run_info.state_name ≡ initial_run_info.state_name)
    × All (IsListed env) s.node.list

pub Safe-ask :
    {W A : Type 0} {env : Env W} {P : W → Type 0} (call : W → A × W)
    → ((w : W) → P w → P (call w).1)
    → Safe (On env P) (ask call)
unfolding ask
Safe-ask call h = record { keeps = λ s p. (h s.world p.0, p.1, p.2); ends = λ s p. tt }

All-rest :
    {W : Type 0} (env : Env W) (o : ListOptions) (w : W) (items before rest : List Fields)
    → (env.client.list "v1" "NodeList" o w).0 ≡ answered items
    → items ≡ before ++ rest
    → All (IsListed env) rest
All-rest env o w items before [] h e = tt
All-rest env o w items before (node ∷ rest) h e = (
  listed o w items before rest h e,
  All-rest env o w items (before ++ node ∷ []) rest h
      (e ∙ sym (append_assoc before (node ∷ []) rest)),
)

pub All-IsListed :
    {W : Type 0} (env : Env W) (o : ListOptions) (w : W) (items : List Fields)
    → (env.client.list "v1" "NodeList" o w).0 ≡ answered items
    → All (IsListed env) items
All-IsListed env o w items h = All-rest env o w items [] items h refl

poll_rounds-Safe :
    {S : Type 0} {P : S → Type 0} (n : ℕ) (condition : Exec S Bool)
    → Safe P condition
    → Safe P (poll_rounds n condition)
unfolding poll_rounds
poll_rounds-Safe zero condition h = Safe-raise (new "timed out waiting for the condition")
poll_rounds-Safe (suc n) condition h =
    Safe-bind condition (elim [ true ↦ pure tt | false ↦ poll_rounds n condition ]) h
      (elim [ true ↦ Safe-pure tt | false ↦ poll_rounds-Safe n condition h ])

pub Safe-poll :
    {W : Type 0} {P : State W → Type 0} (env : Env W) (p : PollsInRounds env) (interval timeout : ℕ)
    (condition : Exec (State W) Bool)
    → Safe P condition
    → Safe P (env.poll interval timeout condition)
Safe-poll {P = P} env p interval timeout condition h = record {
  keeps = λ s x.
      let (n, e) = p.rounds interval timeout condition s in
      subst (λ (r : Outcome (Unit {0}) × State _). P r.1) (sym e)
        ((poll_rounds-Safe n condition h).keeps s x);
  ends = λ s x.
      let (n, e) = p.rounds interval timeout condition s in
      subst (λ (r : Outcome (Unit {0}) × State _). Ends r.0) (sym e)
        ((poll_rounds-Safe n condition h).ends s x);
}

pub ruleset guarded_rules = (safe_rules, Safe-ask, Safe-modify)
