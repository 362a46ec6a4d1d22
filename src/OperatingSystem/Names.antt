-- ===== src/OperatingSystem/Names.antt =====
-- How the names that `renderOperatingSystem` of controllers/runtime.go gives hang together.
use special_resource_operato.Prelude.{
  ◌≡◌, refl, ◌&&◌, Bool, true, false, String, ◌<>◌, ◌==◌, if◌then◌else◌,
}
use special_resource_operato.OperatingSystem.{
  OperatingSystem, int_ltb, atoi, render_operating_system,
}

abbrev pub rhel : String → OperatingSystem
rhel decimal = record { major = "rhel8"; major_minor = "rhel" <> decimal; decimal = decimal }

-- The branches of the function over the answers of its tests.
abbrev branches : (r a b c e : Bool) → String → String → String → OperatingSystem
branches r a b c e rel maj min =
    if r
    then (if a then rhel "8.0" else if b then rhel "8.1" else if c then rhel "8.2" else rhel "8.2")
    else if e
    then record { major = rel <> maj; major_minor = rel <> maj; decimal = maj }
    else record {
      major = rel <> maj;
      major_minor = rel <> maj <> "." <> min;
      decimal = maj <> "." <> min;
    }

branches-major_minor :
    (r a b c e : Bool) (rel maj min : String)
    → (branches r a b c e rel maj min).major_minor
      ≡ (if r then "rhel" else rel) <> (branches r a b c e rel maj min).decimal
branches-major_minor true true b c e rel maj min = refl
branches-major_minor true false true c e rel maj min = refl
branches-major_minor true false false true e rel maj min = refl
branches-major_minor true false false false e rel maj min = refl
branches-major_minor false a b c true rel maj min = refl
branches-major_minor false a b c false rel maj min = refl

-- For any release, major and minor version: the longer name is the release with the decimal
-- version, where the release of Red Hat CoreOS is called rhel.
pub render_major_minor :
    (rel maj min : String)
    → (render_operating_system rel maj min).major_minor
      ≡ (if rel == "rhcos" then "rhel" else rel) <> (render_operating_system rel maj min).decimal
unfolding render_operating_system
render_major_minor rel maj min =
    branches-major_minor (rel == "rhcos") (maj == "4" && int_ltb (atoi min) 4)
      (maj == "4" && min == "4") (maj == "4" && min == "5") (min == "") rel maj min
