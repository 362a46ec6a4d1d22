-- ===== src/Tests/Labelling.antt =====
-- The labelling of nodes at two nodes, one of which has its label.
use special_resource_operato.Prelude.{
  false, if◌then◌else◌, length, ◌≡◌, refl, String, List, [], ◌∷◌, Dict, some, lookup, true,
}
use special_resource_operato.Prelude.Int.{int_eq, pos}
use special_resource_operato.Exec
use special_resource_operato.Exec.{ok, Exec, ◌>>=◌, pure, gets, modify, attempt, raise, panicking}
use special_resource_operato.Value.{Fields}
use special_resource_operato.State.{State, initial}
use special_resource_operato.Cluster.{accept, ask}
use special_resource_operato.Nodes.{fetch_nodes, cache_nodes, node_labels, update_status, first_key}
use special_resource_operato.Nodes.Cache.{cache_nodes-again}
use special_resource_operato.Labels.{
  label_nodes, label_node, label_keys, label_key, label_unless_there, set_label, after_node_update,
}
use special_resource_operato.Labels.Updates.{calls_for, label_nodes-updates}
use special_resource_operato.Tests.Cluster.{cluster, node}
use special_resource_operato.Tests.Server.{
  World, test_env, test_env-LogsUpdates, updates_of, object_with,
}

abbrev plugin_label : String
plugin_label = "specialresource.openshift.io/device-plugin-simple-kmod"

abbrev plugin_table : Dict (Dict String)
plugin_table = ("device-plugin", (plugin_label, "ready") ∷ []) ∷ []

abbrev two_nodes : List Fields
two_nodes = node ∷ object_with "Node" ((plugin_label, "ready") ∷ []) [] ∷ []

abbrev labelled : Exec.Outcome (Unit {0}) × State World
labelled = label_nodes test_env plugin_table "device-plugin" two_nodes (initial cluster)

nodes_labelled : labelled.0 ≡ ok tt
unfolding label_nodes label_node label_keys label_key label_unless_there set_label after_node_update
    ask update_status first_key lookup ◌>>=◌
nodes_labelled = refl

plugin_found : lookup "device-plugin" plugin_table ≡ some ((plugin_label, "ready") ∷ [])
unfolding lookup
plugin_found = refl

label_nodes-updates_example :
    labelled.1.world.updates ≡ calls_for test_env updates_of plugin_label two_nodes []
label_nodes-updates_example =
    label_nodes-updates test_env updates_of test_env-LogsUpdates plugin_table "device-plugin"
      plugin_label two_nodes (initial cluster) plugin_found nodes_labelled

abbrev one_expected : State World
one_expected = record (initial cluster) { node = record { list = []; count = pos 1 } }

nodes_fetched : (cache_nodes test_env true one_expected).0 ≡ ok (node ∷ [])
unfolding cache_nodes fetch_nodes node_labels ask accept lookup ◌>>=◌
nodes_fetched = refl

-- The state afterwards, with the nodes of the cluster gone.
abbrev without_nodes : State World
without_nodes = record (cache_nodes test_env true one_expected).1 {
  world = record cluster { lists = [] };
}

cache_nodes-again_example :
    (without_nodes.node.list ≡ node ∷ [])
    × (without_nodes.node.count ≡ pos 1)
    × (cache_nodes test_env false without_nodes ≡ (
        if int_eq (pos (length (node ∷ []))) (pos 1)
        then (ok (node ∷ []), without_nodes)
        else fetch_nodes test_env without_nodes))
cache_nodes-again_example =
    cache_nodes-again test_env true one_expected without_nodes (node ∷ []) nodes_fetched refl
