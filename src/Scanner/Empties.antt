-- ===== src/Scanner/Empties.antt =====
-- How a scan passes over the reader's nil answers.
use special_resource_operato.Prelude.{
  ℕ, zero, suc, ◌+◌, ◌<◌, ◌≤◌, ◌≡◌, ap, refl, ◌∙◌, true, false, String, List, ◌∷◌, arith,
}
use special_resource_operato.Exec.{ok, panic}
use special_resource_operato.Env.{Read, document, nil_document}
use special_resource_operato.Scanner.{Scanner, max_executive_empties, scan_loop, scan}

-- `n` nil answers in front of the others.
abbrev pub nils : ℕ → List Read → List Read
nils zero reads = reads
nils (suc n) reads = nil_document ∷ nils n reads

scan_loop-nils :
    (n : ℕ) (tok : String) (rest : List Read) (s : Scanner)
    → s.empties + n ≤ max_executive_empties
    → scan_loop (nils n (document tok ∷ rest)) s
      ≡ (ok true, record s { reader = rest; token = tok; empties = 0 })
unfolding scan_loop
scan_loop-nils zero tok rest s h = refl
scan_loop-nils (suc n) tok rest s h = ground (
  arith,
  scan_loop-nils n tok rest
      (record s { reader = nils n (document tok ∷ rest); empties = suc s.empties }),
)

scan-reads :
    (s : Scanner) (reads : List Read)
    → s.done ≡ false
    → s.reader ≡ reads
    → scan s ≡ scan_loop reads s
unfolding scan
scan-reads s reads d r = simp (d, r)

-- With at most 100 nil answers in a row, counted together with those seen before, `Scan` returns
-- true with the next document as its token, and the count starts again.
pub scan_skips_empties :
    (n : ℕ) (tok : String) (rest : List Read) (s : Scanner)
    → s.done ≡ false
    → s.reader ≡ nils n (document tok ∷ rest)
    → s.empties + n ≤ max_executive_empties
    → scan s ≡ (ok true, record s { reader = rest; token = tok; empties = 0 })
scan_skips_empties n tok rest s d r h = scan-reads s _ d r ∙ scan_loop-nils n tok rest s h

scan_loop-panic :
    (n : ℕ) (rest : List Read) (s : Scanner)
    → s.empties ≤ max_executive_empties
    → max_executive_empties < s.empties + n
    → (scan_loop (nils n rest) s).0 ≡ panic
unfolding scan_loop
scan_loop-panic zero rest s h k = absurd (omega arith)
scan_loop-panic (suc n) rest s h k =
    ground
      (arith, scan_loop-panic n rest (record s { reader = nils n rest; empties = suc s.empties }))

-- One nil answer more, whatever comes after it, and `Scan` panics.
pub scan_panics_on_empties :
    (n : ℕ) (rest : List Read) (s : Scanner)
    → s.done ≡ false
    → s.reader ≡ nils n rest
    → s.empties ≤ max_executive_empties
    → max_executive_empties < s.empties + n
    → (scan s).0 ≡ panic
scan_panics_on_empties n rest s d r h k =
    ap (λ o. o.0) (scan-reads s _ d r) ∙ scan_loop-panic n rest s h k
