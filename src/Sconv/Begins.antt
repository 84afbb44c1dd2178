-- ===== src/Sconv/Begins.antt =====
-- What quote of sconv/sconv.go writes begins a word, whatever follows it.
use gosutils.Prelude.{
  ℕ, ◌≡◌, ◌≢◌, refl, sym, arith, true, false, [], ◌∷◌, ◌++◌, ◌==◌, Bool-cases, inl, inr, subst,
}
use gosutils.Prelude.Text.{Text}
use gosutils.Sconv.Split.{word, look}
use gosutils.Sconv.Quote.{is_special, is_extra, quote_loop, quote}
use gosutils.Sconv.Unquote.{special-ne, special_anywhere, escaped, any_extra, quote_cases}

-- A text that starts a word, whatever follows it.
abbrev pub StartsWord : Text → Type 0
StartsWord s = (c : ℕ) × (t : Text) × (s ≡ c ∷ t) × ((rest : Text) → look (c ∷ (t ++ rest)) ≡ word)

look_plain :
    (c : ℕ) (t : Text) → is_special false c ≡ false → is_extra c ≡ false → look (c ∷ t) ≡ word
unfolding look is_special is_extra
look_plain c [] h k = ground arith
look_plain c (x ∷ t) h k = ground arith

look_escape : (c : ℕ) (t : Text) → c ≢ b'\n' → look (b'\\' ∷ c ∷ t) ≡ word
unfolding look
look_escape c t h = ground arith

look_quoted : (t : Text) → look (b'\'' ∷ t) ≡ word
unfolding look
look_quoted [] = refl
look_quoted (x ∷ t) = refl

escaped-StartsWord :
    (c : ℕ) (w : Text) → any_extra true (c ∷ w) ≡ false → StartsWord (escaped true (c ∷ w))
unfolding any_extra escaped
escaped-StartsWord c w h = elim (Bool-cases (is_special true c)) [
  | inl s ↦ (
    b'\\',
    c ∷ escaped false w,
    rw s refl,
    λ rest. look_escape c (escaped false w ++ rest) (special-ne true c s),
  )
  | inr p ↦ (
    c,
    escaped false w,
    rw p refl,
    λ rest. look_plain c (escaped false w ++ rest) (special_anywhere true c p) (ground arith),
  )
]

quote_loop_opened : (x : ℕ) (xs w : Text) → (t : Text) × (quote_loop false (x ∷ xs) w ≡ b'\'' ∷ t)
unfolding quote_loop
quote_loop_opened x xs [] = (_, refl)
quote_loop_opened x xs (c ∷ w) = elim (Bool-cases (c == b'\'')) [
  | inl e ↦ (((x ∷ xs) ++ b'\'' ∷ b'\\' ∷ b'\'' ∷ []) ++ quote_loop false [] w, rw e refl)
  | inr n ↦ rw n (quote_loop_opened x (xs ++ c ∷ []) w)
]

quote_loop-StartsWord : (c : ℕ) (w : Text) → StartsWord (quote_loop false [] (c ∷ w))
unfolding quote_loop
quote_loop-StartsWord c w = elim (Bool-cases (c == b'\'')) [
  | inl e ↦ (
    b'\\',
    b'\'' ∷ quote_loop false [] w,
    rw e refl,
    λ rest. look_escape b'\'' (quote_loop false [] w ++ rest) (omega arith),
  )
  | inr n ↦
      let (t, opened) = quote_loop_opened c [] w in
      (b'\'', t, rw n opened, λ rest. look_quoted (t ++ rest))
]

pub quote-StartsWord : (w : Text) → StartsWord (quote w)
unfolding quote
quote-StartsWord [] = (b'\'', b'\'' ∷ [], refl, λ rest. look_quoted (b'\'' ∷ rest))
quote-StartsWord (c ∷ w) = elim (Bool-cases (any_extra true (c ∷ w))) [
  | inl e ↦ subst StartsWord (sym (cc (quote_cases c w))) (quote_loop-StartsWord c w)
  | inr n ↦ subst StartsWord (sym (cc (quote_cases c w))) (escaped-StartsWord c w n)
]
