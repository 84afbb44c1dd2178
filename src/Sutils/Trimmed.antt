-- ===== src/Sutils/Trimmed.antt =====
-- strings.TrimSpace and the scanner on lines, for FormatNginxConf (sutils/sutils.go).
use gosutils.Prelude.{ℕ, zero, suc, ◌≡◌, ◌≢◌, refl, ap, ◌∙◌, arith, List, [], ◌∷◌, ◌++◌, replicate}
use gosutils.Prelude.Text.{Text, drop_return, All}
use gosutils.Sutils.Lines.{raw_lines, scan_lines, scan}
use gosutils.Sutils.Inserted.{unlines}
use gosutils.Sutils.Nginx.{trim_left, trim_right, trim_space}

trim_right_idem : (s : Text) → trim_right (trim_right s) ≡ trim_right s
unfolding trim_right
trim_right_idem [] = refl
trim_right_idem (c ∷ cs) = ground (arith, trim_right_idem cs)

trim_left-right : (s : Text) → trim_left (trim_right (trim_left s)) ≡ trim_right (trim_left s)
unfolding trim_left trim_right
trim_left-right [] = refl
trim_left-right (c ∷ cs) = ground (arith, trim_left-right cs)

pub trim_space_idem : (s : Text) → trim_space (trim_space s) ≡ trim_space s
unfolding trim_space
trim_space_idem s = ap trim_right (trim_left-right s) ∙ trim_right_idem (trim_left s)

pub trim_space-tabs : (n : ℕ) (s : Text) → trim_space (replicate n b'\t' ++ s) ≡ trim_space s
unfolding trim_space trim_left
trim_space-tabs zero s = refl
trim_space-tabs (suc n) s = trim_space-tabs n s

trim_right-drop_return : (s : Text) → trim_right (drop_return s) ≡ trim_right s
unfolding trim_right
trim_right-drop_return [] = refl
trim_right-drop_return (c ∷ []) = ground arith
trim_right-drop_return (c ∷ d ∷ ds) = ground (arith, trim_right-drop_return (d ∷ ds))

trim_both-drop_return :
    (s : Text) → trim_right (trim_left (drop_return s)) ≡ trim_right (trim_left s)
unfolding trim_left trim_right
trim_both-drop_return [] = refl
trim_both-drop_return (c ∷ []) = ground arith
trim_both-drop_return (c ∷ d ∷ ds) =
    ground (arith, trim_both-drop_return (d ∷ ds), trim_right-drop_return (d ∷ ds))

pub trim_space-drop_return : (s : Text) → trim_space (drop_return s) ≡ trim_space s
unfolding trim_space
trim_space-drop_return s = trim_both-drop_return s

-- No line end stands in it.
abbrev pub IsLine : Text → Type 0
IsLine s = All (λ c. c ≢ b'\n') s

pub raw_lines-IsLine : (s : Text) → All IsLine (raw_lines s)
unfolding raw_lines
raw_lines-IsLine [] = tt
raw_lines-IsLine (c ∷ cs) = ground (arith, raw_lines-IsLine cs)

pub raw_lines-line : (l s : Text) → IsLine l → raw_lines (l ++ b'\n' ∷ s) ≡ l ∷ raw_lines s
unfolding raw_lines
raw_lines-line [] s h = ground arith
raw_lines-line (c ∷ cs) s h = ground (arith, raw_lines-line cs s h.1)

pub raw_lines-unlines : (ls : List Text) → All IsLine ls → raw_lines (unlines ls) ≡ ls
unfolding unlines
raw_lines-unlines [] h = unfold raw_lines in refl
raw_lines-unlines (l ∷ ls) h =
    raw_lines-line l (unlines ls) h.0 ∙ ap (λ t. l ∷ t) (raw_lines-unlines ls h.1)

pub trim_left-IsLine : (s : Text) → IsLine s → IsLine (trim_left s)
unfolding trim_left
trim_left-IsLine [] h = tt
trim_left-IsLine (c ∷ cs) h = ground (arith, trim_left-IsLine cs h.1)

pub trim_right-IsLine : (s : Text) → IsLine s → IsLine (trim_right s)
unfolding trim_right
trim_right-IsLine [] h = tt
trim_right-IsLine (c ∷ cs) h = ground (arith, trim_right-IsLine cs h.1)

drop_return-IsLine : (l : Text) → IsLine l → IsLine (drop_return l)
drop_return-IsLine [] h = tt
drop_return-IsLine (c ∷ []) h = ground arith
drop_return-IsLine (c ∷ d ∷ ds) h = (h.0, drop_return-IsLine (d ∷ ds) h.1)

pub scan_lines-IsLine : (ls : List Text) → All IsLine ls → All IsLine (scan_lines ls).lines
unfolding scan_lines
scan_lines-IsLine [] h = tt
scan_lines-IsLine (l ∷ ls) h = ground (arith, drop_return-IsLine l h.0, scan_lines-IsLine ls h.1)

pub tabs-IsLine : (n : ℕ) (t : Text) → IsLine t → IsLine (replicate n b'\t' ++ t)
tabs-IsLine zero t h = h
tabs-IsLine (suc n) t h = (omega arith, tabs-IsLine n t h)

pub scan-IsLine : (s : Text) → All IsLine (scan s).lines
unfolding scan
scan-IsLine s = scan_lines-IsLine (raw_lines s) (raw_lines-IsLine s)
