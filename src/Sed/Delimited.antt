-- ===== src/Sed/Delimited.antt =====
-- gosed/lex.go: what readDelimited reads.
use gosutils.Prelude.{
  ℕ, ◌≡◌, ◌≢◌, ◌↔◌, arith, Bool, true, not, ◌||◌, ◌&&◌, [], ◌∷◌, ◌++◌, ◌==◌, none,
}
use gosutils.Prelude.Text.{Text}
use gosutils.Sed.Reader.{Reading, delimited_from, read_delimited}

-- Where a text may stand before its delimiter, by the rune in front of it: no line ends in it, every
-- delimiter in it follows a backslash, and it does not end with a backslash.
abbrev pub is_body : ℕ → ℕ → Text → Bool
is_body d previous [] = not (previous == b'\\')
is_body d previous (c ∷ cs) =
    not (c == b'\n') && (not (c == d) || previous == b'\\') && is_body d c cs

abbrev read_all : Text → Text → Reading Text
read_all s rest = record { value = s; err = none; rest = rest }

delimited_from-body :
    (d previous : ℕ) (s rest : Text)
    → d ≢ b'\n'
    → is_body d previous s ≡ true
    → delimited_from d previous (s ++ d ∷ rest) ≡ read_all s rest
unfolding delimited_from
delimited_from-body d p [] rest h b = ground arith
delimited_from-body d p (c ∷ cs) rest h b = ground (arith, delimited_from-body d c cs rest h)

body-delimited_from :
    (d previous : ℕ) (text : Text)
    → (delimited_from d previous text).err ≡ none
    → (is_body d previous (delimited_from d previous text).value ≡ true)
      × ((delimited_from d previous text).value ++ d ∷ (delimited_from d previous text).rest ≡ text)
unfolding delimited_from
body-delimited_from d p [] h = cc
body-delimited_from d p (c ∷ cs) h = ground (arith, body-delimited_from d c cs)

-- A text in front of a delimiter, which is no line end, is what readDelimited reads, with the script
-- behind the delimiter left, exactly when the text has no line end, has the delimiter only behind a
-- backslash, and does not itself end with a backslash.
pub read_delimited-body :
    (d : ℕ) (s rest : Text)
    → d ≢ b'\n'
    → (read_delimited d (s ++ d ∷ rest) ≡ record { value = s; err = none; rest = rest })
      ↔ (is_body d 0 s ≡ true)
unfolding read_delimited
read_delimited-body d s rest h = (
  λ e. let b = body-delimited_from d 0 (s ++ d ∷ rest) in ground (arith, b),
  delimited_from-body d 0 s rest h,
)
