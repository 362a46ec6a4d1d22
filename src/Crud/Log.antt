-- ===== src/Crud/Log.antt =====
-- What `CRUD` of controllers/resources.go writes when it succeeds, against a log of the writes.
use mathlib.Core.Path.{subst}
use special_resource_operato.Prelude.{◌≡◌, inl, inr, sym, ap, ◌∙◌, Bool-cases, List, ◌∷◌}
use special_resource_operato.Exec.{ok, not_found, forbidden, pure, wrap, ◌>>=◌}
use special_resource_operato.Exec.Returns.{bind-ok, wrap-ok, pure-state}
use special_resource_operato.Value.{Fields}
use special_resource_operato.State.{State}
use special_resource_operato.Env.{Env, NamespacedName, Answer, answered, refused}
use special_resource_operato.Cluster.{ask, accept, ask-world}
use special_resource_operato.Crud.{
  object_key, never_updated, update_resource_version, own, update_found, create_or_update, crud,
}
use special_resource_operato.Crud.Steps.{
  IsFrozen, never_updated-IsFrozen, IsFrozen-never_updated, accept-state, own-state,
  update_resource_version-state, crud-reads, wrapped-state, raised-nothing,
}

pub data Write : Type 0 where
  created updated : Fields → Write

-- A log of the objects that the server was asked to create or to update, the last one first.
pub record LogsWrites {W : Type 0} (env : Env W) (log : W → List Write) : Type 0 where
  pub get : (o : Fields) (k : NamespacedName) (w : W) → log (env.client.get o k w).1 ≡ log w
  pub create : (o : Fields) (w : W) → log (env.client.create o w).1 ≡ created o ∷ log w
  pub update : (o : Fields) (w : W) → log (env.client.update o w).1 ≡ updated o ∷ log w

module _ {W : Type 0} (env : Env W) where
  -- What is written for an object with its owner, by the answer to the read before it.
  pub data Writes (owned : Fields) (s : State W) (before : List Write)
      : Answer Fields → List Write → Type 0 where
    creates : Writes owned s before (refused not_found) (created owned ∷ before)
    leaves :
        {found : Fields} → IsFrozen (env.kind owned) → Writes owned s before (answered found) before
    updates :
        {found : Fields} (required : Fields)
        → ¬ IsFrozen (env.kind owned)
        → update_resource_version env owned found s ≡ (ok required, s)
        → Writes owned s before (answered found) (updated required ∷ before)

module _ {W : Type 0} (env : Env W) (log : W → List Write) (laws : LogsWrites env log) where
  at : {s t : State W} → s ≡ t → log s.world ≡ log t.world
  at e = ap (λ u. log u.world) e

  -- An update that was answered: the object as required was sent.
  sent :
      (required owned r : Fields) (s : State W)
      → ((ask (env.client.update required) >>= λ answer.
            accept "Couldn't Update Resource" answer >>= λ _. pure owned)
          s).0
        ≡ ok r
      → log
          ((ask (env.client.update required) >>= λ answer.
              accept "Couldn't Update Resource" answer >>= λ _. pure owned)
            s).1.world
        ≡ updated required ∷ log s.world
  sent required owned r s h =
      let (answer, first, rest, e) = bind-ok (ask (env.client.update required)) _ s r h in
      let (o, second, last, e') = bind-ok (accept "Couldn't Update Resource" answer) _ _ r rest in
      at e
      ∙ at e'
      ∙ at (pure-state owned _)
      ∙ at (accept-state env "Couldn't Update Resource" answer _)
      ∙ ap log (ask-world (env.client.update required) s)
      ∙ laws.update required s.world

  update_found-log :
      (owned found r : Fields) (s : State W)
      → (update_found env owned found s).0 ≡ ok r
      → Writes env owned s
          (log s.world)
          (answered found)
          (log (update_found env owned found s).1.world)
  unfolding update_found
  update_found-log owned found r s h = elim (Bool-cases (never_updated (env.kind owned))) [
    | inl e ↦ rw e (
        subst (Writes env owned s (log s.world) (answered found)) (sym (at (pure-state owned s)))
          (leaves (never_updated-IsFrozen _ e)))
    | inr e ↦
        let m = wrap "Couldn't Update ResourceVersion" (update_resource_version env owned found) in
        let (required, first, rest, end) = bind-ok m _ s r (rw e at h) in
        let copied = wrap-ok _ (update_resource_version env owned found) s required first in
        let kept = update_resource_version-state env owned found required s copied in
        let same =
          wrapped-state env "Couldn't Update ResourceVersion"
            (update_resource_version env owned found) s
          ∙ kept in
        rw e (
          subst (Writes env owned s (log s.world) (answered found))
            (sym (
              at end
              ∙ sent required owned r (m s).1 rest
              ∙ ap (λ t. updated required ∷ log t.world) same))
            (updates required (IsFrozen-never_updated _ e) (λ i. (copied i, kept i))))
  ]

  create_or_update-log :
      (owned r : Fields) (answer : Answer Fields) (s : State W)
      → (create_or_update env owned answer s).0 ≡ ok r
      → Writes env owned s (log s.world) answer (log (create_or_update env owned answer s).1.world)
  unfolding create_or_update
  create_or_update-log owned r (answered found) s h = update_found-log owned found r s h
  create_or_update-log owned r (refused not_found) s h =
      let (answer, first, rest, e) = bind-ok (ask (env.client.create owned)) _ s r h in
      subst (Writes env owned s (log s.world) (refused not_found))
        (sym (
          at e
          ∙ at (accept-state env "Couldn't Create Resource" answer _)
          ∙ ap log (ask-world (env.client.create owned) s)
          ∙ laws.create owned s.world))
        creates
  create_or_update-log owned r (refused forbidden) s h = absurd (raised-nothing env _ s r h)
  create_or_update-log owned r (refused _) s h = absurd (raised-nothing env _ s r h)

  -- Where `CRUD` returns an object without an error, one write or none was sent, as the answer to the
  -- read of the object says: its creation, with its owner, if it is missing; nothing if it was found
  -- and is a ServiceAccount, a Pod or a BuildConfig; and if it was found and is of another kind, the
  -- update to what updateResourceVersion makes of it and the object that was found.
  pub crud-log :
      (obj r : Fields) (s : State W)
      → (crud env obj s).0 ≡ ok r
      → (owned : Fields) × (own env obj s ≡ (ok owned, s))
        × (let (answer, w) = env.client.get obj (object_key env owned) s.world in
            Writes env owned
              (record s { world = w })
              (log s.world)
              answer
              (log (crud env obj s).1.world))
  unfolding crud
  crud-log obj r s h =
      let (owned, first, rest, e) = bind-ok (own env obj) _ s r h in
      let owning : own env obj s ≡ (ok owned, s) = λ i. (first i, own-state env obj s i) in
      let key = object_key env owned in
      let (answer, w) = env.client.get obj key s.world in
      let t = record s { world = w } in
      let run = crud-reads env obj owned s owning in
      (
        owned,
        owning,
        subst (λ before. Writes env owned t before answer (log (crud env obj s).1.world))
            (laws.get obj key s.world)
            (subst (λ after. Writes env owned t (log w) answer after) (sym (at (ap (λ p. p.1) run)))
              (create_or_update-log owned r answer t (sym (ap (λ p. p.0) run) ∙ h))),
      )
