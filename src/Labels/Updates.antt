-- ===== src/Labels/Updates.antt =====
-- Which nodes are written to when the nodes are labelled: controllers/scale_up_down.go.
use special_resource_operato.Prelude.{
  true, ◌≡◌, ◌≢◌, refl, ap, ◌∙◌, String, List, [], ◌∷◌, Dict, Option, none, some, lookup, index,
  insert,
}
use special_resource_operato.Exec.{
  Error, raise, attempt, not_found, other, ok, Exec, ◌>>=◌, forbidden, conflict,
}
use special_resource_operato.Exec.Returns.{bind-ok, pure-state}
use special_resource_operato.Value.{Fields}
use special_resource_operato.Api.{SpecialResource}
use special_resource_operato.State.{State}
use special_resource_operato.Env.{Env, Answer, answered, refused}
use special_resource_operato.Cluster.{ask, ask-world}
use special_resource_operato.Cluster.Log.{LogsUpdates}
use special_resource_operato.Nodes.{cache_nodes, write_back, update_status}
use special_resource_operato.Labels.{
  after_node_update, set_label, label_unless_there, label_key, label_keys, label_node, label_nodes,
}

module _ {W : Type 0} (env : Env W) (log : W → List Fields) where
  -- The node as it is sent: nothing, if it has the label or no labels at all.
  abbrev added : Fields → String → Option (Dict String) → Option String → List Fields → List Fields
  added node k (some labels) none sent = env.set_labels (insert k "ready" labels) node ∷ sent
  added node k _ _ sent = sent

  -- The updates that labelling the nodes calls for, the last one first: each node that has labels, and
  -- not this one, with the label added to its own.
  pub calls_for : String → List Fields → List Fields → List Fields
  calls_for k [] sent = sent
  calls_for k (node ∷ rest) sent =
      calls_for k rest (added node k (env.labels node) (index (env.labels node) k) sent)

  added-found :
      (node : Fields) (k : String) (labels : Option (Dict String)) (v : String) (sent : List Fields)
      → sent ≡ added node k labels (some v) sent
  added-found node k none v sent = refl
  added-found node k (some labels) v sent = refl

  at : {s t : State W} → s ≡ t → log s.world ≡ log t.world
  at e = ap (λ u. log u.world) e

  write_back-world :
      (answer : Answer SpecialResource) (s : State W) → (write_back env answer s).1.world ≡ s.world
  unfolding ◌>>=◌
  write_back-world (answered r) s = refl
  write_back-world (refused e) s = refl

  raises :
      {A : Type 0} (m : Exec (State W) A) (e : Error) (s : State W) (u : Unit {0})
      → ((m >>= λ _. raise e) s).0 ≢ ok u
  unfolding ◌>>=◌
  raises m e s u h = let (a, first, second, whole) = bind-ok m (λ _. raise e) s u h in cc

  after_node_update-world :
      (label : Dict String) (answer : Answer Fields) (s : State W)
      → (after_node_update env label answer s).0 ≡ ok tt
      → (after_node_update env label answer s).1.world ≡ s.world
  unfolding after_node_update ◌>>=◌
  after_node_update-world label (answered node) s h = refl
  after_node_update-world label (refused forbidden) s h = cc
  after_node_update-world label (refused conflict) s h =
      absurd (raises (attempt (cache_nodes env true)) _ s tt h)
  after_node_update-world label (refused not_found) s h = cc
  after_node_update-world label (refused (other msg)) s h = cc

  module _ (laws : LogsUpdates env log) where
    update_status-log :
        (label : Dict String) (s : State W) → log (update_status env label s).1.world ≡ log s.world
    unfolding update_status ask ◌>>=◌
    update_status-log [] s = refl
    update_status-log ((k, v) ∷ rest) s =
        ap log (write_back-world _ _) ∙ laws.update_status _ s.world

    set_label-log :
        (label : Dict String) (node : Fields) (labels : Option (Dict String)) (k : String)
        (s : State W) (labels' : Dict String)
        → (set_label env label node labels k s).0 ≡ ok labels'
        → log (set_label env label node labels k s).1.world ≡ added node k labels none (log s.world)
    unfolding set_label
    set_label-log label node none k s labels' h = unfold ◌>>=◌ in cc
    set_label-log label node (some labels) k s labels' h =
        let node' = env.set_labels (insert k "ready" labels) node in
        let (answer, asked, rest, e) = bind-ok _ _ s labels' h in
        let (u, done, last, e') = bind-ok (after_node_update env label answer) _ _ labels' rest in
        at e
        ∙ at e'
        ∙ at (pure-state (insert k "ready" labels) _)
        ∙ ap log (after_node_update-world label answer _ done)
        ∙ ap log (ask-world (env.client.update node') s)
        ∙ laws.update node' s.world

    label_unless_there-log :
        (label : Dict String) (node : Fields) (labels : Option (Dict String)) (k : String)
        (there : Option String) (s : State W) (r : Option (Dict String))
        → (label_unless_there env label node labels k there s).0 ≡ ok r
        → log (label_unless_there env label node labels k there s).1.world
          ≡ added node k labels there (log s.world)
    unfolding label_unless_there
    label_unless_there-log label node labels k (some v) s r h =
        let (u, first, last, e) = bind-ok (update_status env label) _ s r h in
        at e
        ∙ at (pure-state labels _)
        ∙ update_status-log label s
        ∙ added-found node k labels v (log s.world)
    label_unless_there-log label node labels k none s r h =
        let (labels', first, rest, e) = bind-ok (set_label env label node labels k) _ s r h in
        let (u, second, last, e') = bind-ok (update_status env label) _ _ r rest in
        at e
        ∙ at e'
        ∙ at (pure-state (some labels') _)
        ∙ update_status-log label _
        ∙ set_label-log label node labels k s labels' first

    label_node-log :
        (k : String) (node : Fields) (next : Exec (State W) (Unit {0})) (s : State W)
        → (label_node env (some ((k, "ready") ∷ [])) node next s).0 ≡ ok tt
        → (t : State W) × ((next t).0 ≡ ok tt)
          × (log t.world ≡ added node k (env.labels node) (index (env.labels node) k) (log s.world))
          × ((label_node env (some ((k, "ready") ∷ [])) node next s).1 ≡ (next t).1)
    unfolding label_node label_keys label_key
    label_node-log k node next s h =
        let label : Dict String = (k, "ready") ∷ [] in
        let (u, keyed, rest, e) =
          bind-ok (label_keys env label node label (env.labels node)) _ s tt h in
        let (r, first, last, e') =
          bind-ok (label_key env label node (env.labels node) k) _ s u keyed in
        (
          (label_keys env label node label (env.labels node) s).1,
          rest,
          at e'
              ∙ at (pure-state tt _)
              ∙ label_unless_there-log label node (env.labels node) k (index (env.labels node) k) s
                  r first,
          e,
        )

    -- The nodes have been labelled for a state with a label, without an error: the server was sent one
    -- update for each node that has labels and lacks this one, with the label added to those of the
    -- node and in the order of the nodes, and no other update.
    pub label_nodes-updates :
        (table : Dict (Dict String)) (state k : String) (nodes : List Fields) (s : State W)
        → lookup state table ≡ some ((k, "ready") ∷ [])
        → (label_nodes env table state nodes s).0 ≡ ok tt
        → log (label_nodes env table state nodes s).1.world ≡ calls_for k nodes (log s.world)
    unfolding label_nodes calls_for
    label_nodes-updates table state k [] s l h = at (pure-state tt s)
    label_nodes-updates table state k (node ∷ rest) s l h =
        let next = label_nodes env table state rest in
        let (t, done, first, e) = label_node-log k node next s (rw l at h) in
        rw l (at e ∙ label_nodes-updates table state k rest t l done ∙ ap (calls_for k rest) first)
