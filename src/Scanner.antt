-- ===== src/Scanner.antt =====
-- yamlutil/scan.go: the documents of a manifest, one by one, in the manner of bufio.Scanner.
pub mod Rounds
pub mod Empties
use special_resource_operato.Prelude.{
  ℕ, suc, Bool, true, false, String, Option, none, some, List, [], ◌∷◌, ltb, if◌then◌else◌,
}
use special_resource_operato.Exec.{Error, Exec, ok, panic}
use special_resource_operato.Env.{Read, document, nil_document, failed}

abbrev pub max_executive_empties : ℕ
max_executive_empties = 100

-- What `s.err` holds: io.EOF, or another error of the reader.
pub data ScanError : Type 0 where
  eof : ScanError
  broken : Error → ScanError

pub record Scanner : Type 0 where
  pub reader : List Read
  pub token : String
  pub stopped_by : Option ScanError
  pub empties : ℕ
  pub done : Bool

unfoldable pub new_yaml_scanner : List Read → Scanner
new_yaml_scanner reads = record {
  reader = reads;
  token = "";
  stopped_by = none;
  empties = 0;
  done = false;
}

-- Err: the end of the input is no error.
unfoldable pub scan_err : Scanner → Option Error
scan_err s = elim s.stopped_by [ none ↦ none | some eof ↦ none | some (broken e) ↦ some e ]

-- The loop of `Scan`, on the answers that the reader has left.
unfoldable pub scan_loop : List Read → Exec Scanner Bool
scan_loop [] s = (ok false, record s { reader = []; done = true; stopped_by = some eof })
scan_loop (failed e ∷ rest) s = (ok false, record s { reader = rest; stopped_by = some (broken e) })
scan_loop (nil_document ∷ rest) s =
    let next = scan_loop rest (record s { reader = rest; empties = suc s.empties }) in
    if ltb max_executive_empties (suc s.empties)
    then (panic, record s { reader = rest; empties = suc s.empties })
    else next
scan_loop (document tok ∷ rest) s = (ok true, record s { reader = rest; token = tok; empties = 0 })

unfoldable pub scan : Exec Scanner Bool
unfolding scan_loop
scan s = if s.done then (ok false, s) else scan_loop s.reader s
