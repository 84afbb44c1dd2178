-- ===== src/Sconv/RoundTrip.antt =====
-- StringToArgs of sconv/sconv.go on what ArgsToString made.
use gosutils.Prelude.{
  ℕ, zero, suc, ◌≤◌, ◌≡◌, refl, ap, ◌∙◌, arith, List, [], ◌∷◌, ◌++◌, length, append-nil,
  append_assoc, length-append,
}
use gosutils.Prelude.Text.{Text}
use gosutils.Sconv.Split.{ok, word, split_from, split_word, look, args_loop, string_to_args}
use gosutils.Sconv.Quote.{quote, args_tail, args_to_string}
use gosutils.Sconv.Unquote.{raw-quote}
use gosutils.Sconv.Begins.{quote-StartsWord}

split_word-quote :
    (w : Text) (ws : List Text) → split_word (quote w ++ args_tail ws) ≡ ok (w, args_to_string ws)
unfolding split_word args_to_string args_tail
split_word-quote w [] = raw-quote [] w [] ∙ (unfold split_from in rw append-nil refl)
split_word-quote w (x ∷ xs) = raw-quote [] w _ ∙ (unfold split_from in rw append-nil refl)

-- One round of the loop on a word.
args_loop-word :
    (fuel c : ℕ) (cs : Text) (words : List Text) {w rest : Text}
    → look (c ∷ cs) ≡ word
    → split_word (c ∷ cs) ≡ ok (w, rest)
    → args_loop (suc fuel) (c ∷ cs) words ≡ args_loop fuel rest (words ++ w ∷ [])
unfolding args_loop
args_loop-word fuel c cs words h k = rw (h, args_loop) (rw (k, args_loop) refl)

tail-le : (ws : List Text) → length (args_to_string ws) ≤ length (args_tail ws)
unfolding args_to_string args_tail
tail-le [] = omega arith
tail-le (w ∷ ws) = omega arith

-- The line of a list of words begins with the quoted first word.
line_opened :
    (w : Text) (ws : List Text)
    → (c : ℕ) × (t : Text) × (args_to_string (w ∷ ws) ≡ c ∷ t)
      × (look (c ∷ t) ≡ word)
      × (length (args_to_string ws) ≤ length t)
unfolding args_to_string
line_opened w ws =
    let (c, t, e, starts) = quote-StartsWord w in
    (
      c,
      t ++ args_tail ws,
      ap (λ q. q ++ args_tail ws) e,
      starts (args_tail ws),
      omega (arith, length-append t (args_tail ws), tail-le ws),
    )

args_loop-args_to_string :
    (ws : List Text) (fuel : ℕ) (words : List Text)
    → length (args_to_string ws) ≤ fuel
    → args_loop fuel (args_to_string ws) words ≡ ok (words ++ ws)
args_loop-args_to_string [] zero words h = unfold args_loop args_to_string in rw append-nil
args_loop-args_to_string [] (suc fuel) words h = unfold args_loop args_to_string in rw append-nil
args_loop-args_to_string (w ∷ ws) zero words h =
    let (c, t, e, starts, shorter) = line_opened w ws in absurd (omega (arith, ap length e))
args_loop-args_to_string (w ∷ ws) (suc fuel) words h =
    let (c, t, e, starts, shorter) = line_opened w ws in
    let split : split_word (c ∷ t) ≡ ok (w, args_to_string ws) =
      rw (← e) (unfold args_to_string in split_word-quote w ws) in
    rw e (args_loop-word fuel c t words starts split)
    ∙ args_loop-args_to_string ws fuel (words ++ w ∷ []) (omega (arith, ap length e))
    ∙ ap ok (append_assoc words (w ∷ []) ws)

-- Splitting a line that `ArgsToString` made of any list of words gives that list of words.
pub string_to_args-args_to_string :
    (words : List Text) → string_to_args (args_to_string words) ≡ ok words
unfolding string_to_args
string_to_args-args_to_string words =
    args_loop-args_to_string words (length (args_to_string words)) [] (omega arith)
