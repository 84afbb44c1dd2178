-- ===== src/Sconv/Tests.antt =====
-- Runs of sconv/sconv.go at concrete inputs, and its theorems at concrete inputs.
use gosutils.Prelude.{◌≡◌, refl, List, [], ◌∷◌, ◌⊎◌}
use gosutils.Prelude.Text.{Text, codes}
use gosutils.Sconv.Split.{
  SplitError, ok, err, unterminated_double_quote, unterminated_escape, string_to_args,
}
use gosutils.Sconv.Quote.{args_to_string}
use gosutils.Sconv.RoundTrip.{string_to_args-args_to_string}
use gosutils.Sconv.Ends.{string_to_args-total}

abbrev words : List Text
words = codes "it's" ∷ codes "a 'b'" ∷ codes "" ∷ codes "~x*" ∷ []

quote_words : args_to_string words ≡ codes "it\\'s 'a '\\''b'\\' '' \\~x\\*"
unfolding args_to_string
quote_words = refl

split_quotes :
    string_to_args (codes " a\\ b\t\"c\\\"\\d\"'e'\\\nf ")
    ≡ ok (codes "a b" ∷ codes "c\"\\def" ∷ [])
unfolding string_to_args
split_quotes = refl

split_errors :
    (string_to_args (codes "a \"b\\") ≡ err unterminated_double_quote)
    × (string_to_args (codes "a \\") ≡ err unterminated_escape)
unfolding string_to_args
split_errors = (refl, refl)

string_to_args-args_to_string_example : string_to_args (args_to_string words) ≡ ok words
string_to_args-args_to_string_example = string_to_args-args_to_string words

string_to_args-total_example :
    ((ws : List Text) × (string_to_args (codes "a \"b") ≡ ok ws))
    ⊎ ((e : SplitError) × (string_to_args (codes "a \"b") ≡ err e))
string_to_args-total_example = string_to_args-total (codes "a \"b")
