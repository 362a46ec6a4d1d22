-- ===== src/Crud/Store.antt =====
-- What `CRUD` of controllers/resources.go makes of the objects in the cluster: a refinement of one step
-- on a store, a function from keys to objects.
use mathlib.Core.Path.{subst}
use special_resource_operato.Prelude.{
  ◌≡◌, inl, inr, refl, sym, ap, ◌∙◌, Bool, ◌&&◌, Bool-cases, Option, none, some, ◌==◌,
  if◌then◌else◌,
}
use special_resource_operato.Exec.{ok, not_found, forbidden, pure, wrap, ◌>>=◌}
use special_resource_operato.Exec.Returns.{bind-ok, wrap-ok, pure-state}
use special_resource_operato.Value.{Fields}
use special_resource_operato.State.{State}
use special_resource_operato.Env.{Env, NamespacedName, Answer, answered, refused}
use special_resource_operato.Cluster.{ask, accept, ask-world, ask-answer, accept-answered}
use special_resource_operato.Crud.{
  object_key, never_updated, update_resource_version, own, update_found, create_or_update, crud,
}
use special_resource_operato.Crud.Steps.{
  IsFrozen, never_updated-IsFrozen, IsFrozen-never_updated, accept-state, own-state, crud-reads,
  update_resource_version-state, wrapped-state, raised-nothing,
}
use special_resource_operato.Crud.Keys.{Key, key_of, KeepsKey, own-key, update_resource_version-key}

abbrev pub key_eq : Key → Key → Bool
key_eq a b = a.kind == b.kind && a.namespace == b.namespace && a.name == b.name

abbrev pub Store : Type 0
Store = Key → Option Fields

abbrev pub put : Key → Fields → Store → Store
put key o store k = if key_eq key k then some o else store k

-- The API server keeps a store: a read answers from it and leaves it as it is, and what a creation or
-- an update answers with stands there under the key of the object sent, all other keys as before.
pub record KeepsStore {W : Type 0} (env : Env W) (store : W → Store) : Type 0 where
  pub found :
      (o x : Fields) (k : NamespacedName) (w : W)
      → (env.client.get o k w).0 ≡ answered x
      → store w (record { kind = env.kind o; namespace = k.namespace; name = k.name }) ≡ some x
  pub missing :
      (o : Fields) (k : NamespacedName) (w : W)
      → (env.client.get o k w).0 ≡ refused not_found
      → store w (record { kind = env.kind o; namespace = k.namespace; name = k.name }) ≡ none
  pub read : (o : Fields) (k : NamespacedName) (w : W) → store (env.client.get o k w).1 ≡ store w
  pub create :
      (o x : Fields) (w : W)
      → (env.client.create o w).0 ≡ answered x
      → store (env.client.create o w).1 ≡ put (key_of env o) x (store w)
  pub update :
      (o x : Fields) (w : W)
      → (env.client.update o w).0 ≡ answered x
      → store (env.client.update o w).1 ≡ put (key_of env o) x (store w)

-- The step on the store for an object with this key. `stored` is what the server keeps of the object that
-- was sent.
pub data Applied (key : Key) : Store → Store → Type 0 where
  created :
      {before : Store} (stored : Fields)
      → before key ≡ none
      → Applied key before (put key stored before)
  left :
      {before : Store} (found : Fields)
      → before key ≡ some found
      → IsFrozen key.kind
      → Applied key before before
  updated :
      {before : Store} (found stored : Fields)
      → before key ≡ some found
      → ¬ IsFrozen key.kind
      → Applied key before (put key stored before)

module _ {W : Type 0} (env : Env W) (store : W → Store) (keys : KeepsKey env)
    (server : KeepsStore env store) where
  at : {s t : State W} → s ≡ t → store s.world ≡ store t.world
  at e = ap (λ u. store u.world) e

  -- An answered update of an object with the key.
  updated-store :
      (required owned r : Fields) (s : State W)
      → ((ask (env.client.update required) >>= λ answer.
            accept "Couldn't Update Resource" answer >>= λ _. pure owned)
          s).0
        ≡ ok r
      → (stored : Fields) × (store
            ((ask (env.client.update required) >>= λ answer.
                accept "Couldn't Update Resource" answer >>= λ _. pure owned)
              s).1.world
          ≡ put (key_of env required) stored (store s.world))
  updated-store required owned r s h =
      let (answer, first, rest, e) = bind-ok (ask (env.client.update required)) _ s r h in
      let (o, second, last, e') = bind-ok (accept "Couldn't Update Resource" answer) _ _ r rest in
      let sent =
        ask-answer (env.client.update required) s answer first
        ∙ accept-answered "Couldn't Update Resource" answer _ o second in
      (
        o,
        at e
            ∙ at e'
            ∙ at (pure-state owned _)
            ∙ at (accept-state env "Couldn't Update Resource" answer _)
            ∙ ap store (ask-world (env.client.update required) s)
            ∙ server.update required o s.world sent,
      )

  update_found-Applied :
      (owned found r : Fields) (s : State W)
      → store s.world (key_of env owned) ≡ some found
      → (update_found env owned found s).0 ≡ ok r
      → Applied (key_of env owned) (store s.world) (store (update_found env owned found s).1.world)
  unfolding update_found
  update_found-Applied owned found r s there h =
      elim (Bool-cases (never_updated (env.kind owned))) [
        | inl e ↦ rw e (
            subst (Applied (key_of env owned) (store s.world)) (sym (at (pure-state owned s)))
              (left found there (never_updated-IsFrozen _ e)))
        | inr e ↦
            let m =
              wrap "Couldn't Update ResourceVersion" (update_resource_version env owned found) in
            let (required, first, rest, end) = bind-ok m _ s r (rw e at h) in
            let copied = wrap-ok _ (update_resource_version env owned found) s required first in
            let kept = update_resource_version-state env owned found required s copied in
            let (stored, sent) = updated-store required owned r (m s).1 rest in
            let key = update_resource_version-key env keys owned found required s copied in
            let same =
              wrapped-state env "Couldn't Update ResourceVersion"
                (update_resource_version env owned found) s
              ∙ kept in
            rw e (
              subst (Applied (key_of env owned) (store s.world))
                (sym (
                  at end
                  ∙ sent
                  ∙ ap (λ k. put k stored (store (m s).1.world)) key
                  ∙ ap (put (key_of env owned) stored) (at same)))
                (updated found stored there (IsFrozen-never_updated _ e)))
      ]

  -- What an answer to the read says of the store.
  abbrev AsRead : Answer Fields → Option Fields → Type 0
  AsRead (answered x) before = before ≡ some x
  AsRead (refused not_found) before = before ≡ none
  AsRead (refused e) before = Unit {0}

  create_or_update-Applied :
      (owned r : Fields) (answer : Answer Fields) (s : State W)
      → AsRead answer (store s.world (key_of env owned))
      → (create_or_update env owned answer s).0 ≡ ok r
      → Applied
          (key_of env owned)
          (store s.world)
          (store (create_or_update env owned answer s).1.world)
  unfolding create_or_update
  create_or_update-Applied owned r (answered found) s there h =
      update_found-Applied owned found r s there h
  create_or_update-Applied owned r (refused not_found) s gone h =
      let (answer, first, rest, e) = bind-ok (ask (env.client.create owned)) _ s r h in
      let sent =
        ask-answer (env.client.create owned) s answer first
        ∙ accept-answered "Couldn't Create Resource" answer _ r rest in
      subst (Applied (key_of env owned) (store s.world))
        (sym (
          at e
          ∙ at (accept-state env "Couldn't Create Resource" answer _)
          ∙ ap store (ask-world (env.client.create owned) s)
          ∙ server.create owned r s.world sent))
        (created r gone)
  create_or_update-Applied owned r (refused forbidden) s there h =
      absurd (raised-nothing env _ s r h)
  create_or_update-Applied owned r (refused _) s there h = absurd (raised-nothing env _ s r h)

  as_read :
      (obj owned : Fields) (s : State W)
      → key_of env owned ≡ key_of env obj
      → AsRead
          (env.client.get obj (object_key env owned) s.world).0
          (store (env.client.get obj (object_key env owned) s.world).1 (key_of env owned))
  as_read obj owned s same = by_answer (env.client.get obj (object_key env owned) s.world).0 refl
    where
      key : Key
      key = record { kind = env.kind obj; namespace = env.namespace owned; name = env.name owned }

      moved : key ≡ key_of env owned
      moved = λ i. record {
        kind = (sym same i).kind;
        namespace = env.namespace owned;
        name = env.name owned;
      }

      kept :
          store (env.client.get obj (object_key env owned) s.world).1 (key_of env owned)
          ≡ store s.world key
      kept = λ i. server.read obj (object_key env owned) s.world i (sym moved i)

      by_answer :
          (a : Answer Fields)
          → (env.client.get obj (object_key env owned) s.world).0 ≡ a
          → AsRead a
              (store (env.client.get obj (object_key env owned) s.world).1 (key_of env owned))
      by_answer (answered x) e = kept ∙ server.found obj x (object_key env owned) s.world e
      by_answer (refused not_found) e = kept ∙ server.missing obj (object_key env owned) s.world e
      by_answer (refused forbidden) e = tt
      by_answer (refused _) e = tt

  -- Where `CRUD` returns an object without an error, the cluster's store made one step for the object's
  -- key: the object was created where there was none; it was left alone where there was one and its kind
  -- is ServiceAccount, Pod or BuildConfig; and else what was there was replaced. No other key changed.
  -- The server keeps a store, and setting a field or the owner keeps the key.
  pub crud-Applied :
      (obj r : Fields) (s : State W)
      → (crud env obj s).0 ≡ ok r
      → Applied (key_of env obj) (store s.world) (store (crud env obj s).1.world)
  unfolding crud
  crud-Applied obj r s h =
      let (owned, first, rest, e) = bind-ok (own env obj) _ s r h in
      let owning : own env obj s ≡ (ok owned, s) = λ i. (first i, own-state env obj s i) in
      let k = object_key env owned in
      let (answer, w) = env.client.get obj k s.world in
      let t = record s { world = w } in
      let run = crud-reads env obj owned s owning in
      let same = own-key env keys obj owned s first in
      let step =
        create_or_update-Applied owned r answer t (as_read obj owned s same)
          (sym (ap (λ p. p.0) run) ∙ h) in
      subst (λ key. Applied key (store s.world) (store (crud env obj s).1.world)) same
        (subst (λ before. Applied (key_of env owned) before (store (crud env obj s).1.world))
          (server.read obj k s.world)
          (subst (Applied (key_of env owned) (store w)) (sym (at (ap (λ p. p.1) run))) step))
