-- ===== src/Create/Loop.antt =====
-- The loop of `createFromYAML` over the scanner, with its fuel, against the plain recursion over the
-- documents.
use mathlib.Core.Path.{fun_ext}
use special_resource_operato.Prelude.{
  ℕ, zero, suc, ◌<◌, ◌≡◌, refl, ap, true, false, String, List, [], ◌∷◌, map, length, arith, some,
}
use special_resource_operato.Exec.{Exec, ok, pure, ◌>>=◌}
use special_resource_operato.State.{State}
use special_resource_operato.Env.{Env, document}
use special_resource_operato.Scanner.{Scanner, eof, new_yaml_scanner, scan_err, scan}
use special_resource_operato.Create.{
  create_object, go_on, create_next, create_objects, create_from_yaml,
}

module _ {W : Type 0} (env : Env W) where
  -- The objects of a list of documents, until one says to stop.
  abbrev pub create_all : String → List String → Exec (State W) (Unit {0})
  create_all namespace [] = pure tt
  create_all namespace (doc ∷ rest) =
      create_object env namespace doc >>= λ go. go_on env go (create_all namespace rest)

  -- A scanner that is not done, in front of documents alone.
  abbrev IsAt : Scanner → List String → Type 0
  IsAt sc docs = (sc.done ≡ false) × (sc.reader ≡ map document docs) × (sc.empties ≡ 0)

  abbrev after : Scanner → String → List String → Scanner
  after sc doc rest = record sc { reader = map document rest; token = doc; empties = 0 }

  scan-document :
      (sc : Scanner) (doc : String) (rest : List String)
      → IsAt sc (doc ∷ rest)
      → scan sc ≡ (ok true, after sc doc rest)
  unfolding scan
  scan-document sc doc rest at = simp (at.0, at.1)

  scan-end :
      (sc : Scanner)
      → IsAt sc []
      → scan sc ≡ (ok false, record sc { reader = []; done = true; stopped_by = some eof })
  unfolding scan
  scan-end sc at = simp (at.0, at.1)

  create_objects-all :
      (docs : List String) (fuel : ℕ) (namespace : String) (sc : Scanner)
      → length docs < fuel
      → IsAt sc docs
      → create_objects env fuel namespace sc ≡ create_all namespace docs
  unfolding create_objects create_next scan_err ◌>>=◌
  create_objects-all docs zero namespace sc h at = absurd (omega arith)
  create_objects-all [] (suc fuel) namespace sc h at = fun_ext (λ s. rw (scan-end sc at))
  create_objects-all (doc ∷ rest) (suc fuel) namespace sc h at =
      let ih =
        create_objects-all rest fuel namespace (after sc doc rest) (omega arith)
          (at.0, refl, refl) in
      fun_ext (λ s. rw (scan-document sc doc rest at, ih))

  length-documents : (docs : List String) → length (map document docs) ≡ length docs
  length-documents [] = refl
  length-documents (doc ∷ rest) = ap suc (length-documents rest)

  -- On a manifest that the reader splits into documents, with no failed and no nil answer, the loop
  -- over the scanner does what the plain recursion over the documents does, from every state: the
  -- fuel is never used up.
  pub create_from_yaml-all :
      (yaml_file namespace : String) (docs : List String)
      → env.yaml_reader yaml_file ≡ map document docs
      → create_from_yaml env yaml_file namespace ≡ create_all namespace docs
  unfolding create_from_yaml new_yaml_scanner
  create_from_yaml-all yaml_file namespace docs h = rw h (
      create_objects-all docs _ namespace _ (omega (arith, length-documents docs))
        (refl, refl, refl))
