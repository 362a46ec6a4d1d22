-- ===== src/OperatingSystem.antt =====
-- `renderOperatingSystem` and `getOperatingSystem` of controllers/runtime.go: the names of the
-- operating system by the labels that node feature discovery puts on a node.
pub mod Names
use Prim.Native.Char.{code}
use special_resource_operato.Prelude.{
  ℕ, zero, suc, ◌+◌, ◌-◌, ◌*◌, ◌^◌, Bool, true, ◌&&◌, ◌||◌, String, ◌<>◌, Option, none, some, List,
  [], ◌∷◌, index_or, ltb, leb, nat_eq, ◌==◌, if◌then◌else◌,
}
use special_resource_operato.Prelude.Int.{ℤ, pos, negsuc}
use special_resource_operato.Exec.{new, Attempt, returned, raised}
use special_resource_operato.Value.{Fields}
use special_resource_operato.Env.{Unstructured}

-- The digits of strconv.Atoi: `none` where one is not a digit. Past the range of uint64 the reading
-- stops, whatever is left of the text.
unfoldable pub digits : ℕ → String → Option ℕ
digits n String.[] = some n
digits n (String.◌∷◌ c s) =
    let next : ℕ = n * 10 + (code c - b'0') in
    let rest = digits next s in
    if leb b'0' (code c) && leb (code c) b'9'
    then (if ltb (2 ^ 64 - 1) next then some next else rest)
    else none

-- An empty text has no digits. A number out of range is cut to the largest int64.
unfoldable pub magnitude : ℕ → String → ℕ
unfolding digits
magnitude limit String.[] = 0
magnitude limit (String.◌∷◌ c s) = elim (digits 0 (String.◌∷◌ c s)) [
  | none ↦ 0
  | some n ↦ if leb limit n then limit else n
]

unfoldable pub minus : ℕ → ℤ
minus zero = pos zero
minus (suc n) = negsuc n

-- num, _ := strconv.Atoi(s)
unfoldable pub atoi : String → ℤ
unfolding magnitude minus
atoi String.[] = pos 0
atoi (String.◌∷◌ c s) =
    if nat_eq (code c) b'-'
    then minus (magnitude (2 ^ 63) s)
    else if nat_eq (code c) b'+'
    then pos (magnitude (2 ^ 63 - 1) s)
    else pos (magnitude (2 ^ 63 - 1) (String.◌∷◌ c s))

abbrev pub int_ltb : ℤ → ℕ → Bool
int_ltb (pos a) n = ltb a n
int_ltb (negsuc a) n = true

pub record OperatingSystem : Type 0 where
  pub major : String
  pub major_minor : String
  pub decimal : String

unfoldable pub render_operating_system : String → String → String → OperatingSystem
unfolding atoi
render_operating_system rel maj min =
    if rel == "rhcos"
    then (if maj == "4" && int_ltb (atoi min) 4
        then record { major = "rhel8"; major_minor = "rhel8.0"; decimal = "8.0" }
        else if maj == "4" && min == "4"
        then record { major = "rhel8"; major_minor = "rhel8.1"; decimal = "8.1" }
        else if maj == "4" && min == "5"
        then record { major = "rhel8"; major_minor = "rhel8.2"; decimal = "8.2" }
        else record { major = "rhel8"; major_minor = "rhel8.2"; decimal = "8.2" })
    else if min == ""
    then record { major = rel <> maj; major_minor = rel <> maj; decimal = maj }
    else record {
      major = rel <> maj;
      major_minor = rel <> maj <> "." <> min;
      decimal = maj <> "." <> min;
    }

-- What the labels of the first node say; with no node every part is empty.
module _ (u : Unstructured) where
  unfoldable pub get_operating_system : List Fields → Attempt OperatingSystem
  unfolding render_operating_system
  get_operating_system [] = returned (render_operating_system "" "" "")
  get_operating_system (node ∷ rest) =
      let labels = u.labels node in
      let rel = index_or labels "feature.node.kubernetes.io/system-os_release.ID" in
      let maj = index_or labels "feature.node.kubernetes.io/system-os_release.VERSION_ID.major" in
      let min = index_or labels "feature.node.kubernetes.io/system-os_release.VERSION_ID.minor" in
      if rel == "" || maj == ""
      then raised (
          new
            "Cannot extract feature.node.kubernetes.io/system-os_release.*, is NFD running? Check node labels")
      else returned (render_operating_system rel maj min)
