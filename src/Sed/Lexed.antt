-- ===== src/Sed/Lexed.antt =====
-- The loop of gosed/lex.go: what its tokens carry, and the bound on its rounds.
use gosutils.Prelude.{ℕ, zero, suc, ◌+◌, ◌<◌, ◌≡◌, ◌≢◌, arith, length}
use gosutils.Prelude.Text.{Text, All}
use gosutils.Sed.Reader.{stuck, skip_ws}
use gosutils.Sed.Lexer.{lex_token, lex_loop, lex}
use gosutils.Sed.Readings.{
  Fits, lex_token-Fits, IsShort, skip_ws-IsShort, read_number-first, read_delimited-IsShort,
  read_identifier-IsShort, read_multi_line-IsShort, read_substitution-IsShort,
  read_translation-IsShort,
}

-- A round leaves no more of the script than stood behind its first rune.
lex_token-IsShort : (cur : ℕ) (text : Text) → IsShort (length text) (lex_token cur text)
unfolding lex_token
lex_token-IsShort cur text = ground (
  arith,
  read_delimited-IsShort b'/' text,
  read_identifier-IsShort text,
  read_substitution-IsShort text,
  read_translation-IsShort text,
  read_multi_line-IsShort text,
  read_number-first cur text,
)

-- What the lexer sends, by the bound on its rounds.
lex_loop-Fits : (fuel : ℕ) (text : Text) → All Fits (lex_loop fuel text).0
unfolding lex_loop
lex_loop-Fits zero text = tt
lex_loop-Fits (suc fuel) text =
    let s = skip_ws text in
    let t = lex_token s.value.0 s.rest in
    ground (arith, lex_token-Fits s.value.0 s.rest, lex_loop-Fits fuel t.rest)

lex_loop-ne-stuck : (fuel : ℕ) (text : Text) → length text < fuel → (lex_loop fuel text).1 ≢ stuck
unfolding lex_loop
lex_loop-ne-stuck zero text h = absurd (omega arith)
lex_loop-ne-stuck (suc fuel) text h =
    let s = skip_ws text in
    let t = lex_token s.value.0 s.rest in
    ground (
      arith,
      skip_ws-IsShort text,
      lex_token-IsShort s.value.0 s.rest,
      lex_loop-ne-stuck fuel t.rest,
    )

-- Every token that the lexer sends carries at least the arguments that the compiler reads of it.
pub lex-Fits : (script : Text) → All Fits (lex script).0
unfolding lex
lex-Fits script = lex_loop-Fits (length script + 1) script

lex_loop-fuel :
    (m n : ℕ) (text : Text) → length text < m → length text < n → lex_loop m text ≡ lex_loop n text
unfolding lex_loop
lex_loop-fuel zero n text h k = absurd (omega arith)
lex_loop-fuel (suc m) zero text h k = absurd (omega arith)
lex_loop-fuel (suc m) (suc n) text h k =
    let s = skip_ws text in
    let t = lex_token s.value.0 s.rest in
    ground
      (arith, skip_ws-IsShort text, lex_token-IsShort s.value.0 s.rest, lex_loop-fuel m n t.rest)

-- The rounds of the loop are at most the runes of the script and one: with that bound it does not
-- run out, and every larger one gives the same tokens and the same end.
pub lex-ends :
    (fuel : ℕ) (script : Text)
    → length script < fuel
    → (lex_loop fuel script ≡ lex script) × ((lex script).1 ≢ stuck)
unfolding lex
lex-ends fuel script h = (
  lex_loop-fuel fuel (length script + 1) script h (omega arith),
  lex_loop-ne-stuck (length script + 1) script (omega arith),
)
