-- ===== src/Nodes.antt =====
-- `cacheNodes` of controllers/resources.go, and `updateStatus` of controllers/status.go.
pub mod Cache
use special_resource_operato.Prelude.{
  Bool, not, ◌&&◌, String, none, List, [], ◌∷◌, Dict, length, ◌==◌, if◌then◌else◌,
}
use special_resource_operato.Prelude.Int.{pos, int_eq}
use special_resource_operato.Exec.{Exec, pure, panicking, gets, modify, ◌>>=◌, ◌>>◌}
use special_resource_operato.Value.{Fields}
use special_resource_operato.Api.{SpecialResource}
use special_resource_operato.State.{State}
use special_resource_operato.Env.{Env, Answer, answered, refused}
use special_resource_operato.Cluster.{ask, accept}

-- The label by which the nodes are listed: the selector of the resource, or the worker role.
unfoldable pub node_labels : String → Dict String
node_labels selector =
    if not (selector == "")
    then (selector, "true") ∷ []
    else ("node-role.kubernetes.io/worker", "") ∷ []

module _ {W : Type 0} (env : Env W) where
  unfoldable pub fetch_nodes : Exec (State W) (List Fields)
  unfolding node_labels
  fetch_nodes = do
    selector ← gets (λ s. s.specialresource.spec.node.selector)
    answer ← ask (
        env.client.list "v1" "NodeList"
          (record { in_namespace = none; matching_labels = node_labels selector }))
    items ← accept "Client cannot get NodeList" answer
    modify (λ s. record s { node = record s.node { list = items } })
    pure items

  unfoldable pub cache_nodes : Bool → Exec (State W) (List Fields)
  unfolding fetch_nodes
  cache_nodes force = do
    node ← gets (λ s. s.node)
    (if int_eq (pos (length node.list)) node.count && not force
        then pure node.list
        else fetch_nodes)

  abbrev pub write_back : Answer SpecialResource → Exec (State W) (Unit {0})
  write_back (answered r) = modify (λ s. record s { specialresource = r })
  write_back (refused e) = pure tt

  unfoldable pub first_key : Dict String → Exec (State W) String
  first_key [] = panicking
  first_key ((k, v) ∷ rest) = pure k

  -- The state of the resource becomes the label's key. A failed write of it is logged only.
  unfoldable pub update_status : Dict String → Exec (State W) (Unit {0})
  unfolding first_key
  update_status label = do
    current ← first_key label
    modify λ s. record s {
      specialresource = record s.specialresource { status = record { state = current } };
    }
    resource ← gets (λ s. s.specialresource)
    answer ← ask (env.client.update_status resource)
    write_back answer
