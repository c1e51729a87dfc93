-- ===== src/Report/Lines.antt =====
-- How a reader of a TAP report takes it: line by line, by the beginning of each.
use criterion.Common.{
  Bool, true, false, ◌&&◌, List, [], ◌∷◌, ◌++◌, Bytes, codes, ◌==◌, if◌then◌else◌,
}
use criterion.Report.Statistics.{concat}

abbrev pub lines : Bytes → List Bytes
lines [] = []
lines (c ∷ s) =
    let rest = lines s in
    if c == 10 then [] ∷ rest else elim rest [ [] ↦ (c ∷ []) ∷ [] | l ∷ ls ↦ (c ∷ l) ∷ ls ]

abbrev pub starts_with : Bytes → Bytes → Bool
starts_with [] l = true
starts_with (c ∷ s) [] = false
starts_with (c ∷ s) (d ∷ l) = c == d && starts_with s l

-- Whether a line says that a test has passed, or that it has failed, or neither.
abbrev pub verdict : Bytes → List Bool
verdict l =
    if starts_with (codes "not ok ") l
    then false ∷ []
    else if starts_with (codes "ok ") l
    then true ∷ []
    else []

abbrev pub all_verdicts : List Bytes → List Bool
all_verdicts [] = []
all_verdicts (l ∷ ls) = verdict l ++ all_verdicts ls

-- The verdicts of a report.
abbrev pub verdicts : List Bytes → List Bool
verdicts texts = all_verdicts (lines (concat texts))
