-- ===== src/Manifests.antt =====
-- controllers/manifests.go: the manifests of a recipe in the container image.
pub mod Assets
pub mod Names
use Prim.Native.Char.{code}
use mathlib.Core.Option
use special_resource_operato.Prelude.{
  ℕ, Bool, false, ◌&&◌, String, Option, none, some, List, [], ◌∷◌, leb, nat_eq, ◌==◌, if◌then◌else◌,
}
use special_resource_operato.Exec.{Attempt, returned, raised, Exec, pure, os_exit, panicking}
use special_resource_operato.State.{State}
use special_resource_operato.Env.{Env, Entry, file, directory, unreadable}

pub record AssetsFromFile : Type 0 where
  pub name : String
  pub content : String

-- filepath.Ext: the text from the last dot on.
unfoldable pub last_dot : String → Option String
last_dot String.[] = none
last_dot (String.◌∷◌ c s) = elim (last_dot s) [
  | some e ↦ some e
  | none ↦ if nat_eq (code c) b'.' then some (String.◌∷◌ c s) else none
]

unfoldable pub ext : String → String
unfolding last_dot
ext path = elim (last_dot path) [ none ↦ "" | some e ↦ e ]

abbrev pub is_digit : ℕ → Bool
is_digit c = leb b'0' c && leb c b'9'

-- filepath.Match("[0-9][0-9][0-9][0-9]-*.yaml", name), for a name with no `/` that ends in `.yaml`.
unfoldable pub is_numbered : String → Bool
is_numbered (String.◌∷◌ a (String.◌∷◌ b (String.◌∷◌ c (String.◌∷◌ d (String.◌∷◌ dash rest))))) =
    is_digit (code a)
    && is_digit (code b)
    && is_digit (code c)
    && is_digit (code d)
    && nat_eq (code dash) b'-'
    && ext rest == ".yaml"
is_numbered name = false

-- What is kept of a walk: the base names, each with what reading the file gives.
abbrev pub Found : Type 0
Found = List (String × Attempt String)

-- The visit of filepath.Walk to the entries below the root: directories are skipped. Without any
-- information about an entry the visit dereferences nil: `none`.
unfoldable pub file_path_walk_dir : List Entry → Option Found
unfolding ext is_numbered
file_path_walk_dir [] = some []
file_path_walk_dir (unreadable name ∷ rest) = none
file_path_walk_dir (directory name ∷ rest) = file_path_walk_dir rest
file_path_walk_dir (file name content ∷ rest) =
    let later = file_path_walk_dir rest in
    if ext name == ".yaml"
    then (if is_numbered name then Option.map (λ found. (name, content) ∷ found) later else later)
    else later

-- The files are read one by one; one that cannot be read is a panic: `none`.
unfoldable pub read_files : Found → Option (List AssetsFromFile)
read_files [] = some []
read_files ((name, raised e) ∷ rest) = none
read_files ((name, returned content) ∷ rest) =
    Option.map (λ assets. record { name = name; content = content } ∷ assets) (read_files rest)

unfoldable pub assets_of : List Entry → Option (List AssetsFromFile)
unfolding file_path_walk_dir read_files
assets_of entries = elim (file_path_walk_dir entries) [
  | none ↦ none
  | some found ↦ read_files found
]

module _ {W : Type 0} (env : Env W) where
  abbrev pub unless_panic : Option (List AssetsFromFile) → Exec (State W) (List AssetsFromFile)
  unless_panic none = panicking
  unless_panic (some assets) = pure assets

  -- A directory that is not there ends the process.
  unfoldable pub read_assets : Option (List Entry) → Exec (State W) (List AssetsFromFile)
  read_assets none = os_exit
  read_assets (some entries) = unless_panic (assets_of entries)

  unfoldable pub get_assets_from : String → Exec (State W) (List AssetsFromFile)
  get_assets_from assets = read_assets (env.read_directory assets)
