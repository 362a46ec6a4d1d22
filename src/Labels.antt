-- ===== src/Labels.antt =====
-- controllers/scale_up_down.go: once a DaemonSet is up, the nodes get the label of its state, which
-- lets the next state's pods be scheduled.
pub mod Updates
use special_resource_operato.Prelude.{
  true, String, ◌<>◌, Option, none, some, List, [], ◌∷◌, Dict, lookup, insert, index, index_or,
  ◌==◌, if◌then◌else◌,
}
use special_resource_operato.Exec.{
  new, api, formatted, formatted_label, forbidden, conflict, Exec, pure, raise, panicking, gets,
  ◌>>=◌, ◌>>◌, attempt,
}
use special_resource_operato.Value.{Fields}
use special_resource_operato.RuntimeInfo.{ResourceStateName}
use special_resource_operato.State.{State}
use special_resource_operato.Env.{Env, Answer, answered, refused}
use special_resource_operato.Cluster.{ask}
use special_resource_operato.Nodes.{cache_nodes, update_status}

-- Each state's label, by the state's name; `hw` is the name of the resource.
unfoldable pub state_labels : ResourceStateName → String → Dict (Dict String)
state_labels st hw =
    ("driver-container", (st.driver_container <> "-" <> hw, "ready") ∷ [])
    ∷ ("runtime-enablement", (st.runtime_enablement <> "-" <> hw, "ready") ∷ [])
    ∷ ("device-plugin", (st.device_plugin <> "-" <> hw, "ready") ∷ [])
    ∷ ("device-monitoring", (st.device_monitoring <> "-" <> hw, "ready") ∷ [])
    ∷ []

module _ {W : Type 0} (env : Env W) where
  -- How an update of a node ended. A conflict fetches the nodes once more.
  unfoldable pub after_node_update : Dict String → Answer Fields → Exec (State W) (Unit {0})
  after_node_update label (answered node) = pure tt
  after_node_update label (refused forbidden) =
      raise
        (formatted "Forbidden check Role, ClusterRole and Bindings for operator %s" (api forbidden))
  after_node_update label (refused conflict) = do
    _ ← attempt (cache_nodes env true)
    raise (formatted_label "Node Conflict Label %s err %s" label (api conflict))
  after_node_update label (refused e) = raise (new "Couldn't Update Node")

  -- `labels[k] = "ready"` and the update of the node; writing to a nil map panics.
  unfoldable pub set_label :
      Dict String → Fields → Option (Dict String) → String → Exec (State W) (Dict String)
  set_label label node none k = panicking
  set_label label node (some labels) k = do
    let labels' = insert k "ready" labels
    answer ← ask (env.client.update (env.set_labels labels' node))
    after_node_update label answer
    pure labels'

  -- The body of the inner loop: the labels as it leaves them.
  unfoldable pub label_unless_there :
      Dict String
      → Fields
      → Option (Dict String)
      → String
      → Option String
      → Exec (State W) (Option (Dict String))
  label_unless_there label node labels k (some found) = do update_status env label; pure labels
  label_unless_there label node labels k none = do
    labels' ← set_label label node labels k
    update_status env label
    pure (some labels')

  unfoldable pub label_key :
      Dict String → Fields → Option (Dict String) → String → Exec (State W) (Option (Dict String))
  label_key label node labels k = label_unless_there label node labels k (index labels k)

  -- The inner loop, over the keys of the state's label.
  unfoldable pub label_keys :
      Dict String → Fields → Dict String → Option (Dict String) → Exec (State W) (Unit {0})
  label_keys label node [] labels = pure tt
  label_keys label node ((k, v) ∷ rest) labels = do
    labels' ← label_key label node labels k
    label_keys label node rest labels'

  -- One node and what comes after it. A state with no label ends the loop.
  unfoldable pub label_node :
      Option (Dict String) → Fields → Exec (State W) (Unit {0}) → Exec (State W) (Unit {0})
  label_node none node next = pure tt
  label_node (some label) node next = do label_keys label node label (env.labels node); next

  -- The outer loop, over the nodes.
  unfoldable pub label_nodes : Dict (Dict String) → String → List Fields → Exec (State W) (Unit {0})
  label_nodes table state [] = pure tt
  label_nodes table state (node ∷ rest) =
      label_node (lookup state table) node (label_nodes table state rest)

  unfoldable pub label_nodes_according_to_state : Fields → Exec (State W) (Unit {0})
  label_nodes_according_to_state obj =
      if env.kind obj == "DaemonSet"
      then (do
        _ ← attempt (cache_nodes env true)
        s ← gets (λ s. s)
        label_nodes (state_labels s.run_info.state_name s.specialresource.name)
            (index_or (env.annotations obj) "specialresource.openshift.io/state") s.node.list)
      else pure tt
