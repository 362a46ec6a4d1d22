-- ===== src/Safety/Objects.antt =====
-- The guard on updates, for `CRUD` and `cacheNodes` of controllers/resources.go and for
-- controllers/status.go.
use special_resource_operato.Prelude.{
  ◌≡◌, ap, ◌≢◌, refl, ◌∙◌, Bool, false, Bool-cases, inl, inr, String, List, [], ◌∷◌, All, none,
  Dict, ◌==◌, eq_iff, arith,
}
use special_resource_operato.Exec.{ok, not_found, forbidden, ◌>>=◌}
use special_resource_operato.Exec.Safe.{
  Safe, Safe-wrap, Safe-panicking, Safe-bind, Safe-bind_post, Safe-modify, Safe-if, Safe-pure,
  Safe-raise, Safe-gets, safe_rules,
}
use special_resource_operato.Exec.Returns.{
  Returns, Returns-pure, Returns-if, Returns-wrap, Returns-bind, Returns-bind_any, Returns-lift,
  wrap-ok,
}
use special_resource_operato.Api.{SpecialResource}
use special_resource_operato.Value.{string, Fields}
use special_resource_operato.State.{State}
use special_resource_operato.Env.{ListOptions, Env, Answer, answered, refused}
use special_resource_operato.Cluster.{ask, accept, ask-answer, accept-answered}
use special_resource_operato.Nodes.{
  node_labels, cache_nodes, fetch_nodes, write_back, first_key, update_status,
}
use special_resource_operato.Crud.{
  object_key, need_to_update_resource_version, never_updated, copy_field, update_resource_version,
  own, update_found, create_or_update, crud,
}
use special_resource_operato.Safety.{
  IsListed, All-IsListed, IsOwned, parent, child, updatable, KeepsKind, IsGuarded, On, Safe-ask,
}
use mathlib.Core.Path.{subst}

module _ {W A : Type 0} {P : State W → Type 0} where
  pub Safe-accept : (msg : String) (answer : Answer A) → Safe P (accept msg answer)
  unfolding accept
  Safe-accept msg (answered a) = record { keeps = λ s p. p; ends = λ s p. tt }
  Safe-accept msg (refused e) = record { keeps = λ s p. p; ends = λ s p. tt }

module _ {W : Type 0} (env : Env W) (k : KeepsKind env.unstructured) where
  Returns-copy_field :
      (msg first : String) (rest : List String) (req found : Fields)
      → first ≢ "kind"
      → Returns {S = State W}
          (λ r. env.kind r ≡ env.kind req)
          (copy_field env msg (first ∷ rest) req found)
  unfolding copy_field ◌>>=◌
  Returns-copy_field msg first rest req found n = record {
    post = λ s r h.
        ground
          (arith, k.kind_kept (string (env.nested_string found (first ∷ rest)).0) first rest req r);
  }

  kind-update_resource_version :
      (req found : Fields)
      → Returns {S = State W}
          (λ r. env.kind r ≡ env.kind req)
          (update_resource_version env req found)
  unfolding update_resource_version
  kind-update_resource_version req found =
      Returns-bind (λ r. env.kind r ≡ env.kind req) _ _
        (Returns-if (need_to_update_resource_version (env.kind found)) _ _
          (Returns-copy_field "Couldn't update ResourceVersion" "metadata" _ req found
            (ground (arith, eq_iff "metadata" "kind")))
          (Returns-pure req refl))
        (λ r e.
          Returns-if (env.kind found == "Service") _ _
            (rw (← e) (
              Returns-copy_field "Couldn't update clusterIP" "spec" _ r found
                (ground (arith, eq_iff "spec" "kind"))))
            (Returns-pure r e))

-- The object that gets an owner, where it is no parent itself.
own-IsOwned :
    {W : Type 0} (env : Env W) (obj : Fields) → Returns {S = State W} (IsOwned env) (own env obj)
unfolding own
own-IsOwned env obj = elim (Bool-cases (env.kind obj == "SpecialResource")) [
  | inl e ↦ rw e (Returns-pure obj (parent ((eq_iff _ _).0 e)))
  | inr e ↦ rw e (
      Returns-bind_any _ _
        (λ owner. Returns-wrap _ _ (Returns-lift _ (λ owned h. child owner obj h))))
]

never_updated-others :
    (kind : String)
    → never_updated kind ≡ false
    → (kind ≢ "ServiceAccount") × (kind ≢ "Pod") × (kind ≢ "BuildConfig")
unfolding never_updated
never_updated-others kind h = (
  λ e. ground (arith, eq_iff kind "ServiceAccount"),
  λ e. ground (arith, eq_iff kind "Pod"),
  λ e. ground (arith, eq_iff kind "BuildConfig"),
)

cache_nodes-cached :
    {W : Type 0} (env : Env W) (force : Bool) (s : State W) (nodes : List Fields)
    → (cache_nodes env force s).0 ≡ ok nodes
    → (cache_nodes env force s).1.node.list ≡ nodes
unfolding cache_nodes fetch_nodes ask accept ◌>>=◌
cache_nodes-cached env force s nodes h = ground arith

module _ {W : Type 0} (env : Env W) {P : W → Type 0} (g : IsGuarded env P) where
  Safe-copy_field :
      (msg : String) (path : List String) (req found : Fields)
      → Safe (On env P) (copy_field env msg path req found)
  unfolding copy_field
  Safe-copy_field msg path req found = search safe_rules

  Safe-update_resource_version :
      (req found : Fields) → Safe (On env P) (update_resource_version env req found)
  unfolding update_resource_version
  Safe-update_resource_version req found = search (safe_rules, Safe-copy_field)

  -- The result of the copy, in some state.
  abbrev Copied : Fields → Fields → Fields → Type 0
  Copied owned found r = (s : State W) × ((update_resource_version env owned found s).0 ≡ ok r)

  Safe-own : (obj : Fields) → Safe (On env P) (own env obj)
  unfolding own
  Safe-own obj = search safe_rules

  Safe-update_found :
      KeepsKind env.unstructured
      → (base owned found : Fields) (w : W) → IsOwned env owned
      → (env.client.get base (object_key env owned) w).0 ≡ answered found
      → Safe (On env P) (update_found env owned found)
  unfolding update_found
  Safe-update_found k base owned found w has_owner known =
      Safe-if (never_updated (env.kind owned)) _ _ (λ e. Safe-pure owned)
        (λ e.
          Safe-bind_post (Copied owned found) _ _
            (λ s r p h. (s, wrap-ok "Couldn't Update ResourceVersion" _ s r h))
            (Safe-wrap _ _ (Safe-update_resource_version owned found))
            (λ r (s, copied).
              let kept = (kind-update_resource_version env k owned found).post s r copied in
              let (sa, pod, build) = never_updated-others _ (ap never_updated kept ∙ e) in
              Safe-bind _ _
                (Safe-ask (env.client.update r)
                  (g.update r (updatable base owned found w s has_owner known copied sa pod build)))
                (λ answer.
                  Safe-bind _ _ (Safe-accept "Couldn't Update Resource" answer)
                    (λ _. Safe-pure owned))))

  Safe-create_or_update :
      KeepsKind env.unstructured
      → (base owned : Fields) (w : W) (answer : Answer Fields) → IsOwned env owned
      → (env.client.get base (object_key env owned) w).0 ≡ answer
      → Safe (On env P) (create_or_update env owned answer)
  unfolding create_or_update
  Safe-create_or_update k base owned w (answered found) has_owner known =
      Safe-update_found k base owned found w has_owner known
  Safe-create_or_update k base owned w (refused not_found) has_owner known =
      Safe-bind _ _ (Safe-ask (env.client.create owned) (g.create owned))
        (λ answer. Safe-accept "Couldn't Create Resource" answer)
  Safe-create_or_update k base owned w (refused forbidden) has_owner known = Safe-raise _
  Safe-create_or_update k base owned w (refused _) has_owner known = Safe-raise _

  pub Safe-crud : KeepsKind env.unstructured → (obj : Fields) → Safe (On env P) (crud env obj)
  unfolding crud
  Safe-crud k obj =
      Safe-bind_post (IsOwned env) _ _ (λ s owned p e. (own-IsOwned env obj).post s owned e)
        (Safe-own obj)
        (λ owned has_owner.
          let key = object_key env owned in
          Safe-bind_post (λ answer. (w : W) × ((env.client.get obj key w).0 ≡ answer)) _ _
            (λ s answer p e. (s.world, ask-answer (env.client.get obj key) s answer e))
            (Safe-ask (env.client.get obj key) (g.get obj key))
            (λ answer (w, known). Safe-create_or_update k obj owned w answer has_owner known))

  Safe-fetch_nodes : Safe (On env P) (fetch_nodes env)
  unfolding fetch_nodes
  Safe-fetch_nodes = Safe-bind _ _ (Safe-gets _) (λ selector.
      let o : ListOptions = record {
        in_namespace = none;
        matching_labels = node_labels selector;
      } in
      Safe-bind_post (λ answer. (w : W) × ((env.client.list "v1" "NodeList" o w).0 ≡ answer)) _ _
        (λ s answer p e. (s.world, ask-answer (env.client.list "v1" "NodeList" o) s answer e))
        (Safe-ask (env.client.list "v1" "NodeList" o) (g.list "v1" "NodeList" o))
        (λ answer (w, known).
          Safe-bind_post (All (IsListed env)) _ _
            (λ s items p e. All-IsListed env o w items (known ∙ accept-answered _ answer s items e))
            (Safe-accept "Client cannot get NodeList" answer)
            (λ items all.
              Safe-bind _ _ (Safe-modify _ (λ s p. (p.0, p.1, all))) (λ _. Safe-pure items))))

  pub Safe-cache_nodes : (force : Bool) → Safe (On env P) (cache_nodes env force)
  unfolding cache_nodes
  Safe-cache_nodes force = search (safe_rules, Safe-fetch_nodes)

  -- What is returned is what is cached, and so it was listed.
  pub cache_nodes-IsListed :
      (force : Bool) (s : State W) (nodes : List Fields)
      → On env P s
      → (cache_nodes env force s).0 ≡ ok nodes
      → All (IsListed env) nodes
  cache_nodes-IsListed force s nodes p h =
      subst (All (IsListed env)) (cache_nodes-cached env force s nodes h)
        ((Safe-cache_nodes force).keeps s p).2

  Safe-write_back : (answer : Answer SpecialResource) → Safe (On env P) (write_back env answer)
  Safe-write_back (answered r) = Safe-modify _ (λ s p. p)
  Safe-write_back (refused e) = Safe-pure tt

  Safe-first_key : (label : Dict String) → Safe (On env P) (first_key env label)
  unfolding first_key
  Safe-first_key [] = Safe-panicking
  Safe-first_key ((k, v) ∷ rest) = Safe-pure k

  pub Safe-update_status : (label : Dict String) → Safe (On env P) (update_status env label)
  unfolding update_status
  Safe-update_status label =
      search (safe_rules, Safe-ask, Safe-modify, Safe-first_key, Safe-write_back, g.update_status)
        depth 12
