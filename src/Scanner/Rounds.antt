-- ===== src/Scanner/Rounds.antt =====
-- What a scan of yamlutil/scan.go uses up of the reader.
use special_resource_operato.Prelude.{suc, ◌<◌, ◌≡◌, true, List, [], ◌∷◌, length, arith}
use special_resource_operato.Exec.{ok}
use special_resource_operato.Exec.Safe.{Ends}
use special_resource_operato.Env.{Read, document, nil_document, failed}
use special_resource_operato.Scanner.{Scanner, scan_loop, scan}

scan_loop-shorter :
    (reads : List Read) (s : Scanner)
    → (scan_loop reads s).0 ≡ ok true
    → length (scan_loop reads s).1.reader < length reads
unfolding scan_loop
scan_loop-shorter [] s h = cc
scan_loop-shorter (failed e ∷ rest) s h = cc
scan_loop-shorter (document tok ∷ rest) s h = omega arith
scan_loop-shorter (nil_document ∷ rest) s h =
    ground (arith, scan_loop-shorter rest (record s { reader = rest; empties = suc s.empties }))

pub scan-shorter : (s : Scanner) → (scan s).0 ≡ ok true → length (scan s).1.reader < length s.reader
unfolding scan
scan-shorter s h = ground (arith, scan_loop-shorter s.reader s)

scan_loop-Ends : (reads : List Read) (s : Scanner) → Ends (scan_loop reads s).0
unfolding scan_loop
scan_loop-Ends [] s = tt
scan_loop-Ends (failed e ∷ rest) s = tt
scan_loop-Ends (document tok ∷ rest) s = tt
scan_loop-Ends (nil_document ∷ rest) s =
    ground (arith, scan_loop-Ends rest (record s { reader = rest; empties = suc s.empties }))

pub scan-Ends : (s : Scanner) → Ends (scan s).0
unfolding scan
scan-Ends s = ground (arith, scan_loop-Ends s.reader s)
