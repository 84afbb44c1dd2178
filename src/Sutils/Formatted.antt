-- ===== src/Sutils/Formatted.antt =====
-- What FormatNginxConf keeps of a text (sutils/sutils.go).
use gosutils.Prelude.{
  ℕ, ◌≡◌, refl, sym, ap, subst, ◌∙◌, arith, Bool, true, false, ◌&&◌, List, [], ◌∷◌, ◌++◌, ◌==◌,
  if◌then◌else◌, Option, none, some, replicate, Bool-cases, Option-cases, inl, inr,
}
use gosutils.Prelude.Text.{Text, is_empty, All}
use gosutils.Sutils.Lines.{raw_lines, scan_lines, scan}
use gosutils.Sutils.Inserted.{unlines}
use gosutils.Sutils.Nginx.{
  trim_left, trim_space, closes, indent_at, indent_after, put_line, format_loop, format_nginx_conf,
}
use gosutils.Sutils.Trimmed.{
  IsLine, trim_space_idem, trim_space-tabs, trim_space-drop_return, raw_lines-unlines,
  trim_left-IsLine, trim_right-IsLine, tabs-IsLine, scan-IsLine,
}

-- The lines that are not blank, without the blanks round them.
unfoldable pub contents : List Text → List Text
contents [] = []
contents (l ∷ ls) =
    let rest = contents ls in if is_empty (trim_space l) then rest else trim_space l ∷ rest

-- The lines that are written for them.
indented : ℕ → List Text → Option (List Text)
indented n [] = some []
indented n (t ∷ ts) =
    let rest = indented (indent_after n t) ts in
    if closes t && n == 0
    then none
    else elim rest [ none ↦ none | some ls ↦ some ((replicate (indent_at n t) b'\t' ++ t) ∷ ls) ]

abbrev text_of : Option (List Text) → Option Text
text_of none = none
text_of (some ls) = some (unlines ls)

empty-nil : (s : Text) → is_empty s ≡ true → s ≡ []
empty-nil [] e = refl
empty-nil (c ∷ cs) e = cc

put_line-text_of :
    (stop : Bool) (line : Text) (rest : Option (List Text))
    → (if stop then none else put_line line (text_of rest))
      ≡ text_of (if stop then none else elim rest [ none ↦ none | some ls ↦ some (line ∷ ls) ])
unfolding unlines
put_line-text_of true line rest = refl
put_line-text_of false line none = refl
put_line-text_of false line (some ls) = refl

format_loop-indented :
    (n : ℕ) (ls : List Text) → format_loop n ls ≡ text_of (indented n (contents ls))
unfolding format_loop indented contents
format_loop-indented n [] = unfold unlines in refl
format_loop-indented n (l ∷ ls) = elim (Bool-cases (is_empty (trim_space l))) [
  | inl e ↦ rw (empty-nil (trim_space l) e) (format_loop-indented n ls)
  | inr e ↦
      let t = trim_space l in
      rw (e, format_loop-indented (indent_after n t) ls)
        (put_line-text_of (closes t && n == 0) (replicate (indent_at n t) b'\t' ++ t)
          (indented (indent_after n t) (contents ls)))
]

-- A line without blanks round it, that is not blank.
abbrev IsContent : Text → Type 0
IsContent t = (trim_space t ≡ t) × (is_empty t ≡ false) × IsLine t

indented-cons :
    (n : ℕ) (t : Text) (ts out : List Text)
    → indented n (t ∷ ts) ≡ some out
    → (ls : List Text) × (indented (indent_after n t) ts ≡ some ls)
      × (out ≡ (replicate (indent_at n t) b'\t' ++ t) ∷ ls)
unfolding indented
indented-cons n t ts out e = elim (Option-cases (indented (indent_after n t) ts)) [
  | inl r ↦ absurd (ground arith)
  | inr (ls, r) ↦ (ls, r, ground arith)
]

contents-cons :
    (x t : Text) (ls ts : List Text)
    → trim_space x ≡ t
    → is_empty t ≡ false
    → contents ls ≡ ts
    → contents (x ∷ ls) ≡ t ∷ ts
unfolding contents
contents-cons x t ls ts p q r = rw (p, q, r) refl

-- The lines that are written hold the same contents.
contents-indented :
    (n : ℕ) (ts out : List Text)
    → All IsContent ts
    → indented n ts ≡ some out
    → (contents out ≡ ts) × All IsLine out
contents-indented n [] out h e =
    let e' : [] ≡ out = unfold indented in ground arith in
    subst (λ o. (contents o ≡ []) × All IsLine o) e' (unfold contents in refl, tt)
contents-indented n (t ∷ ts) out h e =
    let c = indented-cons n t ts out e in
    let ih = contents-indented (indent_after n t) ts c.0 h.1 c.1 in
    let k = indent_at n t in
    subst (λ o. (contents o ≡ t ∷ ts) × All IsLine o) (sym c.2)
      (
        contents-cons (replicate k b'\t' ++ t) t c.0 ts (trim_space-tabs k t ∙ h.0.0) h.0.1 ih.0,
        (tabs-IsLine k t h.0.2, ih.1),
      )

contents-IsContent : (ls : List Text) → All IsLine ls → All IsContent (contents ls)
unfolding contents trim_space
contents-IsContent [] h = tt
contents-IsContent (l ∷ ls) h = elim (Bool-cases (is_empty (trim_space l))) [
  | inl e ↦ rw e (contents-IsContent ls h.1)
  | inr e ↦ rw e (
    (trim_space_idem l, e, trim_right-IsLine (trim_left l) (trim_left-IsLine l h.0)),
    contents-IsContent ls h.1,
  )
]

-- The scanner, where no line is too long for it, changes no contents.
contents-scan_lines :
    (ls : List Text)
    → (scan_lines ls).too_long ≡ false
    → contents (scan_lines ls).lines ≡ contents ls
unfolding scan_lines contents
contents-scan_lines [] h = refl
contents-scan_lines (l ∷ ls) h = ground (arith, trim_space-drop_return l, contents-scan_lines ls)

contents-scan :
    (ls : List Text)
    → All IsLine ls
    → (scan (unlines ls)).too_long ≡ false
    → contents (scan (unlines ls)).lines ≡ contents ls
unfolding scan
contents-scan ls h short =
    contents-scan_lines (raw_lines (unlines ls)) short ∙ ap contents (raw_lines-unlines ls h)

format_nginx_conf-indented :
    (conf : Text) → format_nginx_conf conf ≡ text_of (indented 0 (contents (scan conf).lines))
unfolding format_nginx_conf
format_nginx_conf-indented conf = format_loop-indented 0 (scan conf).lines

-- The text that is written stands for itself.
written-same :
    (conf : Text) (ls : List Text)
    → indented 0 (contents (scan conf).lines) ≡ some ls
    → (scan (unlines ls)).too_long ≡ false
    → (contents (scan (unlines ls)).lines ≡ contents (scan conf).lines)
      × (format_nginx_conf (unlines ls) ≡ some (unlines ls))
written-same conf ls r short =
    let ts = contents (scan conf).lines in
    let back =
      contents-indented 0 ts ls (contents-IsContent (scan conf).lines (scan-IsLine conf)) r in
    let same = contents-scan ls back.1 short ∙ back.0 in
    (
      same,
      format_nginx_conf-indented (unlines ls)
          ∙ ap (λ t. text_of (indented 0 t)) same
          ∙ ap text_of r,
    )

-- What FormatNginxConf gives, where no line of it is too long for the scanner, has the lines that it
-- read, without the blank ones and the blanks round each, and formatting it again changes nothing. The
-- blanks are those of ASCII, which are the only ones in a text of ASCII.
pub format_nginx_conf-same :
    (conf out : Text)
    → format_nginx_conf conf ≡ some out
    → (scan out).too_long ≡ false
    → (contents (scan out).lines ≡ contents (scan conf).lines) × (format_nginx_conf out ≡ some out)
format_nginx_conf-same conf out e short =
    let given = sym (format_nginx_conf-indented conf) ∙ e in
    elim (Option-cases (indented 0 (contents (scan conf).lines))) [
      | inl r ↦ absurd (ground (arith, given, r))
      | inr (ls, r) ↦
          let o : unlines ls ≡ out = ground (arith, given, r) in
          subst
            (λ t.
              (contents (scan t).lines ≡ contents (scan conf).lines)
              × (format_nginx_conf t ≡ some t))
            o (written-same conf ls r (ap (λ t. (scan t).too_long) o ∙ short))
    ]
