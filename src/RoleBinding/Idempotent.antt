-- ===== src/RoleBinding/Idempotent.antt =====
-- A role binding for image pullers that the operator meets again: controllers/resources.go.
use special_resource_operato.Prelude.{
  ◌≡◌, refl, Bool, true, false, String, List, [], ◌∷◌, ◌++◌, Option, none, some, ◌==◌, eq_refl,
  arith, if◌then◌else◌,
}
use special_resource_operato.Exec.{pure, exit_on_error, ◌>>◌, ok, Error, Exec, returned, ◌>>=◌}
use special_resource_operato.Value.{Value, object, Fields}
use special_resource_operato.State.{State}
use special_resource_operato.Env.{Env, Unstructured}
use special_resource_operato.Cluster.{ask, accept}
use special_resource_operato.RoleBinding.{
  new_subject, set_subjects, has_subject, update_object, update_role_binding,
}

-- The accessors, as documented, where the role binding needs them: the namespace of a subject that
-- the operator builds, and the subjects that it has set.
pub record ReadsSubjects (u : Unstructured) : Type 0 where
  pub subject_namespace :
      (namespace : String) (subject : Fields)
      → new_subject namespace ≡ object subject
      → u.nested_string subject ("namespace" ∷ []) ≡ (namespace, true, none)
  pub subjects_again :
      (subjects : List Value) (rb rb' : Fields)
      → u.set_nested_slice subjects ("subjects" ∷ []) rb ≡ returned rb'
      → u.nested_slice rb' ("subjects" ∷ []) ≡ (subjects, true, none)

module _ {W : Type 0} (env : Env W) where
  has_subject-step :
      (e : Option Error) (here : Bool) (m n : Exec (State W) Bool) (s : State W) (b : Bool)
      → (exit_on_error e >> (if here then pure true else m)) s ≡ (ok b, s)
      → (m s ≡ (ok b, s) → n s ≡ (ok true, s))
      → (exit_on_error e >> (if here then pure true else n)) s ≡ (ok true, s)
  unfolding ◌>>=◌
  has_subject-step none true m n s b h k = refl
  has_subject-step none false m n s b h k = k h
  has_subject-step (some e) here m n s b h k = cc

  has_subject-append :
      (laws : ReadsSubjects env.unstructured) (namespace : String) (subjects : List Value)
      (s : State W) (b : Bool)
      → has_subject env namespace subjects s ≡ (ok b, s)
      → has_subject env namespace (subjects ++ new_subject namespace ∷ []) s ≡ (ok true, s)
  unfolding has_subject new_subject ◌>>=◌
  has_subject-append laws namespace [] s b h =
      ground (arith, laws.subject_namespace namespace _ refl, eq_refl namespace)
  has_subject-append laws namespace (object subject ∷ rest) s b h =
      has_subject-step (env.nested_string subject ("namespace" ∷ [])).2
        ((env.nested_string subject ("namespace" ∷ [])).0 == namespace)
        (has_subject env namespace rest)
        (has_subject env namespace (rest ++ new_subject namespace ∷ [])) s b h
        (has_subject-append laws namespace rest s b)
  has_subject-append laws namespace (_ ∷ rest) s b h = has_subject-append laws namespace rest s b h

  set_subjects-returned :
      (subjects : List Value) (rb rb' : Fields)
      → env.set_nested_slice subjects ("subjects" ∷ []) rb ≡ returned rb'
      → set_subjects env subjects rb ≡ rb'
  unfolding set_subjects
  set_subjects-returned subjects rb rb' e = rw (e, set_subjects)

  update-world :
      (obj : Fields) (s : State W)
      → (update_object env obj s).1 ≡ record s { world = (env.client.update obj s.world).1 }
  unfolding update_object ask accept ◌>>=◌
  update-world obj s = ground arith

  -- The binding that the cluster has does not name the namespace yet: one update is sent, of the
  -- binding with the namespace's builder behind its subjects; and when the operator meets that
  -- binding again, in any state, it sends nothing.
  pub update_role_binding-twice :
      (laws : ReadsSubjects env.unstructured) (parent : String) (rb rb' : Fields)
      (subjects : List Value) (s t : State W)
      → env.nested_slice rb ("subjects" ∷ []) ≡ (subjects, true, none)
      → ((u : State W) → has_subject env parent subjects u ≡ (ok false, u))
      → env.set_nested_slice (subjects ++ new_subject parent ∷ []) ("subjects" ∷ []) rb
        ≡ returned rb'
      → ((update_role_binding env parent rb s).1
          ≡ record s { world = (env.client.update rb' s.world).1 })
        × (update_role_binding env parent rb' t ≡ (ok tt, t))
  unfolding update_role_binding ◌>>=◌
  update_role_binding-twice laws parent rb rb' subjects s t n h e = (
    rw (n, h, set_subjects-returned _ rb rb' e, update-world rb' s),
    rw (laws.subjects_again _ rb rb' e, has_subject-append laws parent subjects t false (h t)),
  )
