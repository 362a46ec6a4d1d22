-- ===== src/Crud/Steps.antt =====
-- What the parts of `CRUD` of controllers/resources.go leave as it is.
use special_resource_operato.Prelude.{
  ◌≡◌, ◌≢◌, ◌⊎◌, inl, inr, refl, ◌∙◌, Bool, true, false, Bool-cases, String, List, ◌==◌, eq_iff,
  arith, if◌then◌else◌,
}
use special_resource_operato.Exec.{
  Error, ok, raise, Exec, Attempt, returned, raised, pure, wrap, lift, ◌>>=◌,
}
use special_resource_operato.Exec.Returns.{bind-ok, pure-state}
use special_resource_operato.Value.{Fields}
use special_resource_operato.State.{State}
use special_resource_operato.Env.{Env, Answer, answered, refused}
use special_resource_operato.Cluster.{ask, accept}
use special_resource_operato.Crud.{
  object_key, need_to_update_resource_version, never_updated, copy_field, update_resource_version,
  own, create_or_update, crud,
}

abbrev pub IsFrozen : String → Type 0
IsFrozen kind = (kind ≡ "ServiceAccount") ⊎ (kind ≡ "Pod") ⊎ (kind ≡ "BuildConfig")

pub never_updated-IsFrozen : (kind : String) → never_updated kind ≡ true → IsFrozen kind
unfolding never_updated
never_updated-IsFrozen kind h = elim (Bool-cases (kind == "ServiceAccount")) [
  | inl e ↦ inl ((eq_iff _ _).0 e)
  | inr e ↦ elim (Bool-cases (kind == "Pod")) [
    | inl p ↦ inr (inl ((eq_iff _ _).0 p))
    | inr p ↦ inr (inr (ground (arith, eq_iff kind "BuildConfig")))
  ]
]

pub IsFrozen-never_updated : (kind : String) → never_updated kind ≡ false → ¬ IsFrozen kind
unfolding never_updated
IsFrozen-never_updated kind h =
    ground (arith, eq_iff kind "ServiceAccount", eq_iff kind "Pod", eq_iff kind "BuildConfig")

module _ {W : Type 0} (env : Env W) where
  pub accept-state :
      {A : Type 0} (msg : String) (answer : Answer A) (s : State W) → (accept msg answer s).1 ≡ s
  unfolding accept
  accept-state msg (answered a) s = refl
  accept-state msg (refused e) s = refl

  lifted-state : (msg : String) (r : Attempt Fields) (s : State W) → (wrap msg (lift r) s).1 ≡ s
  unfolding ◌>>=◌
  lifted-state msg (returned a) s = refl
  lifted-state msg (raised e) s = refl

  pub own-state : (obj : Fields) (s : State W) → (own env obj s).1 ≡ s
  unfolding own ◌>>=◌
  own-state obj s = elim (Bool-cases (env.kind obj == "SpecialResource")) [
    | inl e ↦ rw e refl
    | inr e ↦ rw e (
        lifted-state "Failed to set controller reference"
          (env.set_controller_reference s.specialresource obj) s)
  ]

  copy_field-state :
      (msg : String) (path : List String) (req found r : Fields) (s : State W)
      → (copy_field env msg path req found s).0 ≡ ok r
      → (copy_field env msg path req found s).1 ≡ s
  unfolding copy_field ◌>>=◌
  copy_field-state msg path req found r s h = ground arith

  if-state :
      (b : Bool) (m : Exec (State W) Fields) (x r : Fields) (s : State W)
      → ((m s).0 ≡ ok r → (m s).1 ≡ s)
      → ((if b then m else pure x) s).0 ≡ ok r
      → ((if b then m else pure x) s).1 ≡ s
  if-state true m x r s k h = k h
  if-state false m x r s k h = pure-state x s

  pub update_resource_version-state :
      (req found r : Fields) (s : State W)
      → (update_resource_version env req found s).0 ≡ ok r
      → (update_resource_version env req found s).1 ≡ s
  unfolding update_resource_version
  update_resource_version-state req found r s h =
      let (r', first, second, e) = bind-ok _ _ s r h in
      let one =
        if-state (need_to_update_resource_version (env.kind found)) _ req r' s
          (copy_field-state _ _ req found r' s) first in
      e
      ∙ if-state (env.kind found == "Service") _ r' r _ (copy_field-state _ _ r' found r _) second
      ∙ one

  pub crud-reads :
      (obj owned : Fields) (s : State W)
      → own env obj s ≡ (ok owned, s)
      → let (answer, w) = env.client.get obj (object_key env owned) s.world in
        crud env obj s ≡ create_or_update env owned answer (record s { world = w })
  unfolding crud ask ◌>>=◌
  crud-reads obj owned s o = rw o refl

  pub wrapped-state :
      (msg : String) (m : Exec (State W) Fields) (s : State W) → (wrap msg m s).1 ≡ (m s).1
  unfolding ◌>>=◌
  wrapped-state msg m s = refl

  pub raised-nothing : (e : Error) (s : State W) (r : Fields) → (raise e s).0 ≢ ok r
  unfolding ◌>>=◌
  raised-nothing e s r h = cc
