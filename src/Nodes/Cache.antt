-- ===== src/Nodes/Cache.antt =====
-- How long the list of nodes that `cacheNodes` of controllers/resources.go keeps is used.
use special_resource_operato.Prelude.{
  arith, refl, ap, ◌∙◌, ◌≡◌, Bool, true, false, List, length, if◌then◌else◌,
}
use special_resource_operato.Prelude.Int.{pos, int_eq}
use special_resource_operato.Exec.{ok, pure, ◌>>=◌}
use special_resource_operato.Value.{Fields}
use special_resource_operato.State.{State}
use special_resource_operato.Env.{Env}
use special_resource_operato.Cluster.{ask, accept}
use special_resource_operato.Nodes.{fetch_nodes, cache_nodes}

module _ {W : Type 0} (env : Env W) where
  fetched-node :
      (force : Bool) (s : State W) (items : List Fields)
      → (cache_nodes env force s).0 ≡ ok items
      → (cache_nodes env force s).1.node ≡ record s.node { list = items }
  unfolding cache_nodes fetch_nodes ask accept ◌>>=◌
  fetched-node force s items h = ground arith

  cache_nodes-unforced :
      (s : State W)
      → cache_nodes env false s
        ≡ (if int_eq (pos (length s.node.list)) s.node.count
              then pure s.node.list
              else fetch_nodes env)
            s
  unfolding cache_nodes ◌>>=◌
  cache_nodes-unforced s = ground arith

  -- After a list of nodes was returned, by force or not, it is the one that is kept, and node.count is
  -- as before. Asking again without force, in whatever world and for whatever resource, returns that
  -- list with no call and no change where it has as many nodes as node.count says, so that a node that
  -- joined since is not in it, and lists the nodes anew where it has not.
  pub cache_nodes-again :
      (force : Bool) (s u : State W) (items : List Fields)
      → (cache_nodes env force s).0 ≡ ok items
      → u.node ≡ (cache_nodes env force s).1.node
      → (u.node.list ≡ items)
        × (u.node.count ≡ s.node.count)
        × (cache_nodes env false u ≡ (
            if int_eq (pos (length items)) s.node.count then (ok items, u) else fetch_nodes env u))
  unfolding ◌>>=◌
  cache_nodes-again force s u items h same =
      let node = same ∙ fetched-node force s items h in
      let listed = ap (λ n. n.list) node in
      let counted = ap (λ n. n.count) node in
      let test : int_eq (pos (length u.node.list)) u.node.count
          ≡ int_eq (pos (length items)) s.node.count =
        ap (λ n. int_eq (pos (length n.list)) n.count) node in
      (
        listed,
        counted,
        cache_nodes-unforced u
            ∙ ap (λ b. (if b then pure u.node.list else fetch_nodes env) u) test
            ∙ ap
                (λ l.
                  (if int_eq (pos (length items)) s.node.count then pure l else fetch_nodes env) u)
                listed
            ∙ by_test _,
      )
    where
      by_test :
          (b : Bool)
          → (if b then pure items else fetch_nodes env) u
            ≡ (if b then (ok items, u) else fetch_nodes env u)
      by_test true = refl
      by_test false = refl
