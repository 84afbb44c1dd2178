-- ===== src/Sutils/Nginx.antt =====
-- sutils/sutils.go: FormatNginxConf. The text is ASCII.
use gosutils.Prelude.{
  ℕ, ◌+◌, ◌-◌, Bool, false, not, ◌&&◌, List, [], ◌∷◌, ◌++◌, ◌==◌, if◌then◌else◌, Option, none, some,
  replicate,
}
use gosutils.Prelude.Text.{Text, is_empty, is_white_space}
use gosutils.Sutils.Lines.{scan}

-- strings.TrimSpace on ASCII: the blanks beyond it, which it cuts too, are bytes like others here.
unfoldable pub trim_left : Text → Text
trim_left [] = []
trim_left (c ∷ cs) = let rest = trim_left cs in if is_white_space c then rest else c ∷ cs

unfoldable pub trim_right : Text → Text
trim_right [] = []
trim_right (c ∷ cs) =
    let rest = trim_right cs in if is_white_space c && is_empty rest then [] else c ∷ rest

unfoldable pub trim_space : Text → Text
unfolding trim_left trim_right
trim_space s = trim_right (trim_left s)

-- strings.HasPrefix and strings.HasSuffix with a text of one character.
abbrev pub has_prefix : ℕ → Text → Bool
has_prefix c [] = false
has_prefix c (x ∷ xs) = x == c

abbrev pub has_suffix : ℕ → Text → Bool
has_suffix c [] = false
has_suffix c (x ∷ []) = x == c
has_suffix c (x ∷ y ∷ ys) = has_suffix c (y ∷ ys)

-- The lines that end a block, and those that begin one.
abbrev pub closes : Text → Bool
closes line = not (has_prefix b'#' line) && has_prefix b'}' line

abbrev pub opens : Text → Bool
opens line = not (has_prefix b'#' line) && has_suffix b'{' line

-- `cntIndent` at a line, and behind it.
abbrev pub indent_at : ℕ → Text → ℕ
indent_at indent line = if closes line then indent - 1 else indent

abbrev pub indent_after : ℕ → Text → ℕ
indent_after indent line = if opens line then indent_at indent line + 1 else indent_at indent line

abbrev pub put_line : Text → Option Text → Option Text
put_line line none = none
put_line line (some rest) = some (line ++ b'\n' ∷ rest)

-- The loop: none is the panic of strings.Repeat at a negative count.
unfoldable pub format_loop : ℕ → List Text → Option Text
unfolding trim_space
format_loop indent [] = some []
format_loop indent (text ∷ texts) =
    let line = trim_space text in
    let rest = format_loop (indent_after indent line) texts in
    if is_empty line
    then rest
    else if closes line && indent == 0
    then none
    else put_line (replicate (indent_at indent line) b'\t' ++ line) rest

-- `FormatNginxConf`: a line that is too long for the scanner ends the text.
unfoldable pub format_nginx_conf : Text → Option Text
unfolding scan format_loop
format_nginx_conf conf = format_loop 0 (scan conf).lines
