-- ===== src/Tests/Files.antt =====
-- The files of a recipe and the documents of a manifest.
use special_resource_operato.Prelude.{◌≡◌, ◌↔◌, refl, true, false, List, [], ◌∷◌, none, some, arith}
use special_resource_operato.Exec.{ok, panic, returned}
use special_resource_operato.Env.{Entry, file, directory, Read, document}
use special_resource_operato.Manifests.{AssetsFromFile, ext, is_numbered, assets_of}
use special_resource_operato.Manifests.Names.{IsManifest, kept_iff}
use special_resource_operato.Manifests.Assets.{Collects, assets_of_iff}
use special_resource_operato.Scanner.{Scanner, scan}
use special_resource_operato.Scanner.Empties.{nils, scan_skips_empties, scan_panics_on_empties}
use special_resource_operato.Create.{create_from_yaml}
use special_resource_operato.Create.Loop.{create_all, create_from_yaml-all}
use special_resource_operato.Tests.Server.{test_env}

kept_iff_example :
    ((ext "0000-state.yaml" ≡ ".yaml") × (is_numbered "0000-state.yaml" ≡ true))
    ↔ IsManifest "0000-state.yaml"
kept_iff_example = kept_iff "0000-state.yaml"

abbrev recipe : List Entry
recipe =
    directory "manifests"
    ∷ file "README.md" (returned "")
    ∷ file "0000-state.yaml" (returned "kind: Pod")
    ∷ []

abbrev recipe_assets : List AssetsFromFile
recipe_assets = record { name = "0000-state.yaml"; content = "kind: Pod" } ∷ []

assets_of_iff_example : (assets_of recipe ≡ some recipe_assets) ↔ Collects recipe recipe_assets
assets_of_iff_example = assets_of_iff recipe recipe_assets

abbrev scanner_of : List Read → Scanner
scanner_of reads = record {
  reader = reads;
  token = "";
  stopped_by = none;
  empties = 0;
  done = false;
}

abbrev gaps : Scanner
gaps = scanner_of (nils 100 (document "kind: Pod" ∷ []))

scan_skips_empties_example :
    scan gaps ≡ (ok true, record gaps { reader = []; token = "kind: Pod"; empties = 0 })
scan_skips_empties_example = scan_skips_empties 100 "kind: Pod" [] gaps refl refl (omega arith)

abbrev longer_gaps : Scanner
longer_gaps = scanner_of (nils 101 (document "kind: Pod" ∷ []))

scan_panics_on_empties_example : (scan longer_gaps).0 ≡ panic
scan_panics_on_empties_example =
    scan_panics_on_empties 101 (document "kind: Pod" ∷ []) longer_gaps refl refl (omega arith)
      (omega arith)

create_from_yaml-all_example :
    create_from_yaml test_env "Service" "ns" ≡ create_all test_env "ns" ("Service" ∷ [])
create_from_yaml-all_example = create_from_yaml-all test_env "Service" "ns" ("Service" ∷ []) refl
