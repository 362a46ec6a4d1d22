-- ===== src/Manifests/Assets.antt =====
-- Which files of a recipe are its manifests, and in which order: the walk and the reads of
-- controllers/manifests.go, against a relation between a directory and its assets.
use mathlib.Core.Path.{subst}
use mathlib.Core.Option.{some-injective}
use special_resource_operato.Prelude.{
  ◌≡◌, ◌↔◌, ◌⊎◌, refl, sym, ap, ◌∙◌, true, Bool-cases, inl, inr, String, List, [], ◌∷◌, Option,
  none, some, ◌==◌, eq_iff, arith,
}
use special_resource_operato.Exec.{Attempt, returned, raised}
use special_resource_operato.Env.{Entry, file, directory, unreadable}
use special_resource_operato.Manifests.{AssetsFromFile, ext, is_numbered, assets_of}
use special_resource_operato.Manifests.Names.{IsManifest, kept_iff}

-- The assets of a directory, entry by entry: the readable manifests and nothing else, in order.
pub data Collects : List Entry → List AssetsFromFile → Type 0 where
  nothing : Collects [] []
  skip_directory :
      {entries : List Entry} {assets : List AssetsFromFile} (name : String)
      → Collects entries assets
      → Collects (directory name ∷ entries) assets
  skip_file :
      {entries : List Entry} {assets : List AssetsFromFile} (name : String)
      (content : Attempt String)
      → ¬ IsManifest name
      → Collects entries assets
      → Collects (file name content ∷ entries) assets
  keep :
      {entries : List Entry} {assets : List AssetsFromFile} (name content : String)
      → IsManifest name
      → Collects entries assets
      → Collects
          (file name (returned content) ∷ entries)
          (record { name = name; content = content } ∷ assets)

IsManifest-cases : (name : String) → IsManifest name ⊎ ¬ IsManifest name
IsManifest-cases name = elim (Bool-cases (ext name == ".yaml")) [
  | inr miss ↦ inr (λ m. cc ((eq_iff (ext name) ".yaml").1 ((kept_iff name).1 m).0))
  | inl e ↦ elim (Bool-cases (is_numbered name)) [
    | inr miss ↦ inr (λ m. cc (((kept_iff name).1 m).1))
    | inl n ↦ inl ((kept_iff name).0 ((eq_iff (ext name) ".yaml").0 e, n))
  ]
]

-- The walk and the reads in one recursion.
with_asset : String → Attempt String → Option (List AssetsFromFile) → Option (List AssetsFromFile)
with_asset name (raised e) later = none
with_asset name (returned content) none = none
with_asset name (returned content) (some assets) =
    some (record { name = name; content = content } ∷ assets)

assets_of-kept :
    (name : String) (content : Attempt String) (rest : List Entry)
    → IsManifest name
    → assets_of (file name content ∷ rest) ≡ with_asset name content (assets_of rest)
unfolding assets_of with_asset
assets_of-kept name (returned content) rest m =
    let kept = (kept_iff name).1 m in ground (arith, eq_iff (ext name) ".yaml")
assets_of-kept name (raised e) rest m =
    let kept = (kept_iff name).1 m in ground (arith, eq_iff (ext name) ".yaml")

assets_of-skipped :
    (name : String) (content : Attempt String) (rest : List Entry)
    → ¬ IsManifest name
    → assets_of (file name content ∷ rest) ≡ assets_of rest
unfolding assets_of
assets_of-skipped name content rest m = ground (
  arith,
  eq_iff (ext name) ".yaml",
  λ (h : (ext name ≡ ".yaml") × (is_numbered name ≡ true)). m ((kept_iff name).0 h),
)

assets_of-nil : assets_of [] ≡ some []
unfolding assets_of
assets_of-nil = refl

assets_of-directory :
    (name : String) (rest : List Entry) → assets_of (directory name ∷ rest) ≡ assets_of rest
unfolding assets_of
assets_of-directory name rest = refl

assets_of-unreadable :
    (name : String) (rest : List Entry) → assets_of (unreadable name ∷ rest) ≡ none
unfolding assets_of
assets_of-unreadable name rest = refl

collected :
    (entries : List Entry) (assets : List AssetsFromFile)
    → Collects entries assets
    → assets_of entries ≡ some assets
unfolding with_asset
collected [] assets nothing = assets_of-nil
collected (_ ∷ entries) assets (skip_directory name c) =
    assets_of-directory name entries ∙ collected entries assets c
collected (_ ∷ entries) assets (skip_file name content m c) =
    assets_of-skipped name content entries m ∙ collected entries assets c
collected (_ ∷ entries) (_ ∷ assets) (keep name content m c) =
    assets_of-kept name (returned content) entries m
    ∙ ap (with_asset name (returned content)) (collected entries assets c)

kept_asset :
    (name : String) (content : Attempt String) (entries : List Entry) (assets : List AssetsFromFile)
    (later : Option (List AssetsFromFile))
    → IsManifest name
    → ((tail : List AssetsFromFile) → later ≡ some tail → Collects entries tail)
    → with_asset name content later ≡ some assets
    → Collects (file name content ∷ entries) assets
unfolding with_asset
kept_asset name (raised e) entries assets later m ih h = cc
kept_asset name (returned content) entries assets none m ih h = cc
kept_asset name (returned content) entries assets (some tail) m ih h =
    subst (λ t. Collects (file name (returned content) ∷ entries) t) (some-injective _ _ h)
      (keep name content m (ih tail refl))

collects :
    (entries : List Entry) (assets : List AssetsFromFile)
    → assets_of entries ≡ some assets
    → Collects entries assets
collects [] assets h = subst (Collects []) (some-injective _ _ (sym assets_of-nil ∙ h)) nothing
collects (unreadable name ∷ rest) assets h = cc (assets_of-unreadable name rest)
collects (directory name ∷ rest) assets h =
    skip_directory name (collects rest assets (sym (assets_of-directory name rest) ∙ h))
collects (file name content ∷ rest) assets h = elim (IsManifest-cases name) [
  | inl m ↦
      kept_asset name content rest assets (assets_of rest) m (λ tail k. collects rest tail k)
        (sym (assets_of-kept name content rest m) ∙ h)
  | inr m ↦
      skip_file name content m
        (collects rest assets (sym (assets_of-skipped name content rest m) ∙ h))
]

-- A directory is read without a failure, with some list of assets, exactly where that list has its
-- manifests, the readable files named NNNN-*.yaml, and nothing else, in the directory's order:
-- other files and directories are passed over, and an unreadable manifest or an entry without
-- information is no such list.
pub assets_of_iff :
    (entries : List Entry) (assets : List AssetsFromFile)
    → (assets_of entries ≡ some assets) ↔ Collects entries assets
assets_of_iff entries assets = (collects entries assets, collected entries assets)
