-- ===== src/Runtime/Secrets.antt =====
-- Which secret `getPushSecretName` of controllers/runtime.go settles on.
use special_resource_operato.Prelude.{
  ◌≡◌, refl, ap, Bool-cases, inl, inr, String, List, [], ◌∷◌, ◌++◌, All, contains, IsPart,
  contains-IsPart, not-IsPart,
}
use special_resource_operato.Exec.{Attempt, returned, raised}
use special_resource_operato.Value.{Fields}
use special_resource_operato.Env.{Env}
use special_resource_operato.Runtime.{find_push_secret}

abbrev pub marker : String
marker = "builder-dockercfg"

module _ {W : Type 0} (env : Env W) where
  -- The first secret whose name has the marker in it, or an error where there is none.
  abbrev pub IsFirstMarked : List Fields → Attempt String → Type 0
  IsFirstMarked secrets (returned name) =
      (before : List Fields) × (secret : Fields) × (after : List Fields) × (secrets
        ≡ before ++ secret ∷ after)
      × (name ≡ env.name secret)
      × IsPart marker name
      × All (λ s. ¬ IsPart marker (env.name s)) before
  IsFirstMarked secrets (raised e) = All (λ s. ¬ IsPart marker (env.name s)) secrets

  behind :
      (secret : Fields) (rest : List Fields) (r : Attempt String)
      → ¬ IsPart marker (env.name secret)
      → IsFirstMarked rest r
      → IsFirstMarked (secret ∷ rest) r
  behind secret rest (returned name) n (before, found, after, e, same, part, none_before) =
      (secret ∷ before, found, after, ap (λ l. secret ∷ l) e, same, part, (n, none_before))
  behind secret rest (raised e) n all = (n, all)

  -- The name is that of the first secret whose name has builder-dockercfg somewhere in it; there is
  -- an error exactly where no secret has it.
  pub find_push_secret-IsFirstMarked :
      (secrets : List Fields) → IsFirstMarked secrets (find_push_secret env secrets)
  unfolding find_push_secret
  find_push_secret-IsFirstMarked [] = tt
  find_push_secret-IsFirstMarked (secret ∷ rest) =
      elim (Bool-cases (contains (env.name secret) marker)) [
        | inl e ↦
            rw e ([], secret, rest, refl, refl, contains-IsPart (env.name secret) marker e, tt)
        | inr e ↦ rw e (
            behind secret rest _ (not-IsPart (env.name secret) marker e)
              (find_push_secret-IsFirstMarked rest))
      ]
