-- ===== src/Safety/Nodes.antt =====
-- The guard on updates, for controllers/scale_up_down.go.
use mathlib.Core.Path.{subst}
use special_resource_operato.Prelude.{
  ◌≡◌, sym, All, index, if◌then◌else◌, ◌==◌, Bool, true, false, inl, inr, refl, String, List, [],
  ◌∷◌, Option, none, some, Dict, lookup,
}
use special_resource_operato.Exec.{ok, gets, ◌>>=◌, Exec, forbidden, conflict}
use special_resource_operato.Exec.Safe.{
  Safe, Safe-pure, Safe-raise, Safe-bind, Safe-panicking, Safe-if, Safe-gets, Safe-attempt,
  Safe-bind_post, safe_rules,
}
use special_resource_operato.Value.{Fields}
use special_resource_operato.State.{State}
use special_resource_operato.Env.{Env, Answer, answered, refused}
use special_resource_operato.Labels.{
  state_labels, after_node_update, set_label, label_unless_there, label_key, label_keys, label_node,
  label_nodes, label_nodes_according_to_state,
}
use special_resource_operato.Safety.{IsListed, IsStateKey, relabelled, IsGuarded, On, Safe-ask}
use special_resource_operato.RuntimeInfo.{ResourceStateName, initial_run_info}
use special_resource_operato.Safety.Objects.{Safe-cache_nodes, Safe-update_status}

-- The label of a state: none, or one with the key of a state and the value "ready".
abbrev IsStateLabel : Option (Dict String) → Type 0
IsStateLabel none = Unit
IsStateLabel (some label) = (k : String) × (label ≡ (k, "ready") ∷ []) × IsStateKey k

IsStateLabel-if :
    (b : Bool) (x y : Option (Dict String))
    → IsStateLabel x
    → IsStateLabel y
    → IsStateLabel (if b then x else y)
IsStateLabel-if true x y h k = h
IsStateLabel-if false x y h k = k

IsStateLabel-lookup :
    (state named k : String) (rest : Dict (Dict String))
    → IsStateKey k
    → IsStateLabel (lookup state rest)
    → IsStateLabel (lookup state ((named, (k, "ready") ∷ []) ∷ rest))
unfolding lookup
IsStateLabel-lookup state named k rest key h =
    IsStateLabel-if (named == state) (some ((k, "ready") ∷ [])) (lookup state rest) (k, refl, key) h

IsStateLabel-nil : (state : String) → IsStateLabel (lookup state [])
unfolding lookup
IsStateLabel-nil state = tt

initial_labels-IsStateLabel :
    (hw state : String) → IsStateLabel (lookup state (state_labels initial_run_info.state_name hw))
unfolding state_labels
initial_labels-IsStateLabel hw state =
    IsStateLabel-lookup state _ _ _ (hw, inl refl)
      (IsStateLabel-lookup state _ _ _ (hw, inr (inl refl))
        (IsStateLabel-lookup state _ _ _ (hw, inr (inr (inl refl)))
          (IsStateLabel-lookup state _ _ _ (hw, inr (inr (inr refl))) (IsStateLabel-nil state))))

state_labels-IsStateLabel :
    (st : ResourceStateName) (hw state : String)
    → st ≡ initial_run_info.state_name
    → IsStateLabel (lookup state (state_labels st hw))
state_labels-IsStateLabel st hw state e = rw e (initial_labels-IsStateLabel hw state)

gets-same : {S : Type 0} (P : S → Type 0) (s a : S) → P s → (gets (λ (t : S). t) s).0 ≡ ok a → P a
unfolding ◌>>=◌
gets-same P s a p h = subst P (cc) p

module _ {W : Type 0} (env : Env W) {P : W → Type 0} (g : IsGuarded env P) where
  Safe-after_node_update :
      (label : Dict String) (answer : Answer Fields)
      → Safe (On env P) (after_node_update env label answer)
  unfolding after_node_update
  Safe-after_node_update label (answered node) = Safe-pure tt
  Safe-after_node_update label (refused forbidden) = Safe-raise _
  Safe-after_node_update label (refused conflict) = search (safe_rules, Safe-cache_nodes env g)
  Safe-after_node_update label (refused _) = Safe-raise _

  Safe-set_label :
      (label : Dict String) (node : Fields) (labels : Option (Dict String)) (k : String)
      → IsListed env node
      → IsStateKey k
      → env.labels node ≡ labels
      → index labels k ≡ none
      → Safe (On env P) (set_label env label node labels k)
  unfolding set_label
  Safe-set_label label node none k l key e missing = Safe-panicking
  Safe-set_label label node (some labels) k l key e missing =
      Safe-bind _ _
        (Safe-ask (env.client.update _)
          (g.update _ (relabelled labels node k l key e missing refl)))
        (λ answer. Safe-bind _ _ (Safe-after_node_update label answer) (λ _. Safe-pure _))

  Safe-label_unless_there :
      (label : Dict String) (node : Fields) (labels : Option (Dict String)) (k : String)
      (there : Option String)
      → IsListed env node
      → IsStateKey k
      → env.labels node ≡ labels
      → index labels k ≡ there
      → Safe (On env P) (label_unless_there env label node labels k there)
  unfolding label_unless_there
  Safe-label_unless_there label node labels k (some v) l key e missing =
      search (safe_rules, Safe-update_status env g)
  Safe-label_unless_there label node labels k none l key e missing =
      Safe-bind _ _ (Safe-set_label label node labels k l key e missing)
        (λ labels'. Safe-bind _ _ (Safe-update_status env g label) (λ _. Safe-pure _))

  -- A state's label has one key.
  Safe-label_keys :
      (label : Dict String) (node : Fields) (k : String)
      → IsListed env node
      → IsStateKey k
      → Safe (On env P) (label_keys env label node ((k, "ready") ∷ []) (env.labels node))
  unfolding label_keys label_key
  Safe-label_keys label node k l key =
      Safe-bind _ _ (Safe-label_unless_there label node _ k _ l key refl refl)
        (λ labels'. Safe-pure tt)

  Safe-label_node :
      (label : Option (Dict String)) (node : Fields) (next : Exec (State W) (Unit {0}))
      → IsListed env node
      → IsStateLabel label
      → Safe (On env P) next
      → Safe (On env P) (label_node env label node next)
  unfolding label_node
  Safe-label_node none node next l key h = Safe-pure tt
  Safe-label_node (some label) node next l (k, e, key) h =
      Safe-bind _ _
        (subst (λ keys. Safe (On env P) (label_keys env label node keys (env.labels node))) (sym e)
          (Safe-label_keys label node k l key))
        (λ _. h)

  Safe-label_nodes :
      (table : Dict (Dict String)) (state : String) (nodes : List Fields)
      → IsStateLabel (lookup state table)
      → All (IsListed env) nodes
      → Safe (On env P) (label_nodes env table state nodes)
  unfolding label_nodes
  Safe-label_nodes table state [] key all = Safe-pure tt
  Safe-label_nodes table state (node ∷ rest) key (l, all) =
      Safe-label_node (lookup state table) node _ l key (Safe-label_nodes table state rest key all)

  pub Safe-label_nodes_according_to_state :
      (obj : Fields) → Safe (On env P) (label_nodes_according_to_state env obj)
  unfolding label_nodes_according_to_state
  Safe-label_nodes_according_to_state obj =
      Safe-if (env.kind obj == "DaemonSet") _ _
        (λ e. Safe-bind _ _ (Safe-attempt _ (Safe-cache_nodes env g true)) (λ _.
          Safe-bind_post (On env P) _ _ (gets-same (On env P)) (Safe-gets (λ s. s)) (λ s p.
            Safe-label_nodes _ _ s.node.list
              (state_labels-IsStateLabel s.run_info.state_name _ _ p.1) p.2)))
        (λ e. Safe-pure tt)
