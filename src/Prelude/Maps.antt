-- ===== src/Prelude/Maps.antt =====
-- A Go `map[string]V` as an association list. A key is looked up at its first entry.
use Prim.Native.String.{String}
use mathlib.Core.Option.{Option, none, some}
use mathlib.Core.List.{List, [], ◌∷◌}
use text.Mathlib.Text.{◌==◌}
use special_resource_operato.Prelude.Tests.{if◌then◌else◌}

abbrev pub Dict {ℓ} : Type ℓ → Type ℓ
Dict V = List (String × V)

module _ {ℓ} {V : Type ℓ} where
  -- v, ok := m[key]
  unfoldable pub lookup : String → Dict V → Option V
  lookup key [] = none
  lookup key (entry ∷ rest) = if entry.0 == key then some entry.1 else lookup key rest

  -- m[key] = new
  unfoldable pub insert : String → V → Dict V → Dict V
  insert key new [] = (key, new) ∷ []
  insert key new (entry ∷ rest) =
      if entry.0 == key then (key, new) ∷ rest else entry ∷ insert key new rest

  -- m[k] of a map that may be nil
  abbrev pub index : Option (Dict V) → String → Option V
  index none k = none
  index (some m) k = lookup k m

-- m[k], the zero value if there is no such key
abbrev pub index_or : Option (Dict String) → String → String
index_or m k = elim (index m k) [ none ↦ "" | some v ↦ v ]
