-- ===== src/ShellWords/Tests.antt =====
-- Runs of cmdshellwords at concrete inputs, and its theorems at concrete inputs.
use gosutils.Prelude.{◌≡◌, refl, arith, true, List, [], ◌∷◌, some}
use gosutils.Prelude.Text.{Text, codes}
use gosutils.ShellWords.Parser.{
  Result, ok, err, invalid_line, slice_panic, shell_error, append_arg, parse_posix, new_parser,
  parse, split,
}
use gosutils.ShellWords.Escape.{is_safe, escape, join}
use gosutils.ShellWords.RoundTrip.{split-join, split-escape_lost}
use gosutils.ShellWords.Guards.{parse-no_shell}

abbrev no_shell : Text → Result Text
no_shell line = err (shell_error line)

abbrev echo : Text → Result Text
echo line = ok line

abbrev keep : (Text → Text) → Text → Text
keep f s = s

abbrev run : Text → Result (List Text)
run line = split keep no_shell (λ v. []) line

abbrev words : List Text
words = codes "cp" ∷ codes "a b" ∷ codes "" ∷ codes "$HOME;x" ∷ []

join-words : join words ≡ codes "cp a\\ b '' \\$HOME\\;x"
unfolding join
join-words = refl

run_quotes : run (codes "a 'b c' \"d\\\"e\"") ≡ ok (codes "a" ∷ codes "b c" ∷ codes "d\"e" ∷ [])
unfolding split
run_quotes = refl

run_redirect :
    parse keep no_shell (new_parser (λ v. v)) (codes "ls 2>&1") ≡ ok (codes "ls" ∷ [], some 3)
unfolding parse
run_redirect = refl

run_unbalanced : run (codes "a 'b") ≡ err invalid_line
unfolding split
run_unbalanced = refl

-- The space in quotes stays in the command text, and the slice at `)` is out of range.
run_panic : parse_posix true echo append_arg (codes "' ' $(x)") ≡ err slice_panic
unfolding parse_posix append_arg
run_panic = refl

split-join_example : split keep no_shell (λ v. []) (join words) ≡ ok words
unfolding is_safe
split-join_example =
    split-join keep no_shell (λ v. []) words (omega arith) (refl, (refl, (refl, (refl, tt))))

escaped_word_lost : split keep no_shell (λ v. []) (escape (codes "* ")) ≡ ok []
unfolding is_safe
escaped_word_lost = split-escape_lost keep no_shell (λ v. []) (codes "* ") (omega arith) refl

parse-no_shell_example :
    parse keep no_shell (new_parser (λ v. v)) (codes "a `b` $(c)")
    ≡ parse keep echo (new_parser (λ v. v)) (codes "a `b` $(c)")
parse-no_shell_example =
    parse-no_shell keep no_shell echo (new_parser (λ v. v)) (codes "a `b` $(c)") refl
