-- ===== src/Hardware/Order.antt =====
-- `sort.Strings`, as insertion by the byte order of the texts.
use Prim.Native.Nat.{Ordering}
use Prim.Native.String.{compare}
use special_resource_operato.Prelude.{Bool, true, false, String, List, [], ◌∷◌, if◌then◌else◌}

unfoldable pub string_leb : String → String → Bool
string_leb s t = elim (compare s t) [ Ordering.gt ↦ false | _ ↦ true ]

unfoldable pub insert_string : String → List String → List String
unfolding string_leb
insert_string s [] = s ∷ []
insert_string s (t ∷ ts) = if string_leb s t then s ∷ t ∷ ts else t ∷ insert_string s ts

unfoldable pub sort_strings : List String → List String
unfolding insert_string
sort_strings [] = []
sort_strings (s ∷ ts) = insert_string s (sort_strings ts)
