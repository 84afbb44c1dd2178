-- ===== src/Sconv/Unquote.antt =====
-- How splitWord of sconv/sconv.go reads what quote writes.
use gosutils.Prelude.{
  ℕ, ◌≡◌, ◌≢◌, refl, ◌∙◌, arith, Bool, true, false, ◌||◌, [], ◌∷◌, ◌++◌, if◌then◌else◌, none, some,
  append-nil, append_assoc, Bool-cases, inl, inr,
}
use gosutils.Prelude.Text.{Text, All}
use gosutils.Sconv.Split.{raw, single, split_from}
use gosutils.Sconv.Quote.{is_special, is_extra, backslash_loop, quote_loop, quote}

-- At `raw` and `single` only the concatenation of buffer and segment matters.
raw_segment : (buf seg cur : Text) → split_from raw buf seg cur ≡ split_from raw (buf ++ seg) [] cur
unfolding split_from
raw_segment buf seg [] = rw append-nil
raw_segment buf seg (c ∷ cur) = ground (
  arith,
  append-nil (buf ++ seg),
  append_assoc buf seg (c ∷ []),
  raw_segment buf (seg ++ c ∷ []) cur,
  raw_segment (buf ++ seg) (c ∷ []) cur,
)

-- A backslash takes the next character as it is.
escaped_char :
    (buf rest : Text) (c : ℕ)
    → c ≢ b'\n'
    → split_from raw buf [] (b'\\' ∷ c ∷ rest) ≡ split_from raw (buf ++ c ∷ []) [] rest
unfolding split_from
escaped_char buf rest c h = ground (arith, append-nil buf)

-- A character with no meaning to the shell stands for itself.
plain_char :
    (buf rest : Text) (c : ℕ)
    → is_special false c ≡ false
    → is_extra c ≡ false
    → split_from raw buf [] (c ∷ rest) ≡ split_from raw (buf ++ c ∷ []) [] rest
unfolding split_from is_special is_extra
plain_char buf rest c h k = ground (arith, raw_segment buf (c ∷ []) rest)

pub special-ne : (a : Bool) (c : ℕ) → is_special a c ≡ true → c ≢ b'\n'
unfolding is_special
special-ne a c h = ground arith

pub special_anywhere : (a : Bool) (c : ℕ) → is_special a c ≡ false → is_special false c ≡ false
unfolding is_special
special_anywhere a c h = ground arith

-- What the first loop of `quote` writes for the rest of a word with no extra special character.
unfoldable pub escaped : Bool → Text → Text
escaped a [] = []
escaped a (c ∷ cur) =
    if is_special a c then b'\\' ∷ c ∷ escaped false cur else c ∷ escaped false cur

unfoldable pub any_extra : Bool → Text → Bool
any_extra a [] = false
any_extra a (c ∷ cur) =
    if is_special a c then any_extra false cur else is_extra c || any_extra false cur

backslash_loop_lem :
    (a : Bool) (out prev cur : Text)
    → backslash_loop a out prev cur
      ≡ (if any_extra a cur then none else some (out ++ (prev ++ escaped a cur)))
unfolding backslash_loop any_extra escaped
backslash_loop_lem a out prev [] = rw append-nil
backslash_loop_lem a out prev (c ∷ cur) = ground (
  arith,
  backslash_loop_lem false ((out ++ prev) ++ b'\\' ∷ c ∷ []) [] cur,
  backslash_loop_lem false out (prev ++ c ∷ []) cur,
  append_assoc out prev (b'\\' ∷ c ∷ []),
  append_assoc out (prev ++ b'\\' ∷ c ∷ []) (escaped false cur),
  append_assoc prev (b'\\' ∷ c ∷ []) (escaped false cur),
  append_assoc prev (c ∷ []) (escaped false cur),
)

abbrev LacksQuote : Text → Type 0
LacksQuote = All (λ c. c ≢ b'\'')

-- Splitting reads an escaped word back.
raw-escaped :
    (a : Bool) (buf w rest : Text)
    → any_extra a w ≡ false
    → split_from raw buf [] (escaped a w ++ rest) ≡ split_from raw (buf ++ w) [] rest
unfolding any_extra escaped
raw-escaped a buf [] rest h = rw append-nil
raw-escaped a buf (c ∷ w) rest h = elim (Bool-cases (is_special a c)) [
  | inl s ↦ ground (
    arith,
    special-ne a c,
    escaped_char buf (escaped false w ++ rest) c,
    raw-escaped false (buf ++ c ∷ []) w rest,
    append_assoc buf (c ∷ []) w,
  )
  | inr p ↦ ground (
    arith,
    special_anywhere a c,
    plain_char buf (escaped false w ++ rest) c,
    raw-escaped false (buf ++ c ∷ []) w rest,
    append_assoc buf (c ∷ []) w,
  )
]

-- The inside of single quotes.
single_segment :
    (buf seg cur rest : Text)
    → LacksQuote cur
    → split_from single buf seg (cur ++ b'\'' ∷ rest) ≡ split_from raw (buf ++ (seg ++ cur)) [] rest
unfolding split_from
single_segment buf seg [] rest h = rw append-nil
single_segment buf seg (c ∷ cur) rest h =
    ground (arith, single_segment buf (seg ++ c ∷ []) cur rest, append_assoc seg (c ∷ []) cur)

single_quoted :
    (buf seg rest : Text)
    → LacksQuote seg
    → split_from raw buf [] (b'\'' ∷ (seg ++ b'\'' ∷ rest)) ≡ split_from raw (buf ++ seg) [] rest
single_quoted buf seg rest h = open_quote ∙ single_segment buf [] seg rest h
  where
    open_quote :
        split_from raw buf [] (b'\'' ∷ (seg ++ b'\'' ∷ rest))
        ≡ split_from single buf [] (seg ++ b'\'' ∷ rest)
    open_quote = unfold split_from in rw append-nil refl

LacksQuote-append : (s t : Text) → LacksQuote s → LacksQuote t → LacksQuote (s ++ t)
LacksQuote-append [] t h k = k
LacksQuote-append (c ∷ s) t h k = (h.0, LacksQuote-append s t h.1 k)

-- A quoted part that ends before a quote, and that quote.
quoted_then_quote :
    (buf seg q rest : Text)
    → LacksQuote seg
    → split_from raw buf [] (b'\'' ∷ (((seg ++ b'\'' ∷ b'\\' ∷ b'\'' ∷ []) ++ q) ++ rest))
      ≡ split_from raw ((buf ++ seg) ++ b'\'' ∷ []) [] (q ++ rest)
quoted_then_quote buf seg q rest h = ground (
  arith,
  append_assoc seg (b'\'' ∷ b'\\' ∷ b'\'' ∷ []) q,
  append_assoc seg (b'\'' ∷ b'\\' ∷ b'\'' ∷ q) rest,
  single_quoted buf seg (b'\\' ∷ b'\'' ∷ (q ++ rest)) h,
  escaped_char (buf ++ seg) (q ++ rest) b'\'',
)

raw-quote_loop :
    (buf seg w rest : Text)
    → LacksQuote seg
    → split_from raw buf [] (quote_loop false seg w ++ rest)
      ≡ split_from raw (buf ++ (seg ++ w)) [] rest
unfolding quote_loop
raw-quote_loop buf [] [] rest h = rw append-nil
raw-quote_loop buf (x ∷ xs) [] rest h =
    ground
      (arith, append-nil xs, append_assoc xs (b'\'' ∷ []) rest, single_quoted buf (x ∷ xs) rest h)
raw-quote_loop buf [] (c ∷ w) rest h = ground (
  arith,
  escaped_char buf (quote_loop false [] w ++ rest) c,
  raw-quote_loop (buf ++ c ∷ []) [] w rest tt,
  raw-quote_loop buf (c ∷ []) w rest,
  append_assoc buf (c ∷ []) w,
)
raw-quote_loop buf (x ∷ xs) (c ∷ w) rest h = ground (
  arith,
  quoted_then_quote buf (x ∷ xs) (quote_loop false [] w) rest h,
  raw-quote_loop ((buf ++ x ∷ xs) ++ b'\'' ∷ []) [] w rest tt,
  append_assoc (buf ++ x ∷ xs) (b'\'' ∷ []) w,
  append_assoc buf (x ∷ xs) (b'\'' ∷ w),
  LacksQuote-append (x ∷ xs) (c ∷ []) h,
  raw-quote_loop buf (x ∷ (xs ++ c ∷ [])) w rest,
  append_assoc xs (c ∷ []) w,
)

pub quote_cases :
    (c : ℕ) (w : Text)
    → quote (c ∷ w)
      ≡ (if any_extra true (c ∷ w) then quote_loop false [] (c ∷ w) else escaped true (c ∷ w))
unfolding quote
quote_cases c w = ground (arith, backslash_loop_lem true [] [] (c ∷ w))

-- Splitting reads a quoted word back into the buffer, whatever follows it.
pub raw-quote :
    (buf w rest : Text)
    → split_from raw buf [] (quote w ++ rest) ≡ split_from raw (buf ++ w) [] rest
unfolding quote
raw-quote buf [] rest = ground (arith, single_quoted buf [] rest tt)
raw-quote buf (c ∷ w) rest = ground (
  arith,
  quote_cases c w,
  raw-escaped true buf (c ∷ w) rest,
  raw-quote_loop buf [] (c ∷ w) rest tt,
)
