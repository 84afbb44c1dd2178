-- ===== src/Scp/Printed.antt =====
-- The header lines are read back as they were printed.
use gosutils.Prelude.{
  if◌then◌else◌, ℕ, zero, suc, ◌+◌, ◌*◌, ◌-◌, ◌/◌, ◌%◌, ◌^◌, ◌≤◌, ◌<◌, ◌≡◌, refl, ◌∙◌, ap, Bool,
  true, false, ◌&&◌, List, [], ◌∷◌, ◌++◌, ◌==◌, none, some, map, arith, Bool-cases, inl, inr, leb,
  Option-cases, append_assoc,
}
use gosutils.Prelude.Text.{Text, drop_return, is_empty, is_empty-append}
use gosutils.Sutils.Token.{digits, digit, format_int}
use gosutils.Scp.Header.{
  octal, size_text, header_line, cut_blank, split3, value, parse_uint, parse_mode,
}
use gosutils.Scp.Stream.{cut_line}

-- The digits of a number have its value.
value-digits :
    (fuel n : ℕ) (acc : List ℕ)
    → n ≤ fuel
    → value 10 (map digit (digits 10 fuel n acc)) 0 ≡ value 10 (map digit acc) n
unfolding digits value
value-digits zero n acc h = ap (value 10 (map digit acc)) (omega arith)
value-digits (suc fuel) n acc h = elim (Bool-cases (n == 0)) [
  | inl e ↦ ground arith
  | inr e ↦ rw e (value-digits fuel (n / 10) ((n % 10) ∷ acc) (ground arith) ∙ ground arith)
]

pub value-size_text : (n : ℕ) → value 10 (size_text n) 0 ≡ some n
unfolding size_text format_int value
value-size_text zero = refl
value-size_text (suc n) = value-digits (suc n) (suc n) [] (omega arith)

-- Digits hold no blank and no line end.
cut_blank-value :
    (base : ℕ) (s t : Text) (n m : ℕ)
    → base < 200
    → value base s n ≡ some m
    → cut_blank (s ++ b' ' ∷ t) ≡ (s, some t)
unfolding value cut_blank
cut_blank-value base [] t n m b h = refl
cut_blank-value base (c ∷ s) t n m b h =
    ground (arith, cut_blank-value base s t (n * base + (c - b'0')) m b)

cut_line-value :
    (base : ℕ) (s t l r : Text) (n m : ℕ)
    → value base s n ≡ some m
    → cut_line t ≡ some (l, r)
    → cut_line (s ++ t) ≡ some (s ++ l, r)
unfolding value cut_line
cut_line-value base [] t l r n m h e = e
cut_line-value base (c ∷ s) t l r n m h e =
    ground (arith, cut_line-value base s t l r (n * base + (c - b'0')) m)

not_empty : (s : Text) (n : ℕ) → value 10 s 0 ≡ some (suc n) → is_empty s ≡ false
unfolding value
not_empty [] n h = ground arith
not_empty (c ∷ s) n h = refl

not_empty-size_text : (n : ℕ) → is_empty (size_text n) ≡ false
unfolding size_text format_int
not_empty-size_text zero = refl
not_empty-size_text (suc n) = not_empty _ n (value-size_text (suc n))

fits_uint : (n : ℕ) → n < 2 ^ 63 → leb n (2 ^ 64 - 1) ≡ true
fits_uint n h = ground (arith)

pub parse_uint-size_text : (n : ℕ) → n < 2 ^ 63 → parse_uint (size_text n) ≡ some n
unfolding parse_uint
parse_uint-size_text n h = rw (not_empty-size_text n, value-size_text n, fits_uint n h)

-- The test passes on the permissions below `m`.
passes : (ℕ → Bool) → ℕ → Bool
passes test zero = true
passes test (suc m) = let below = passes test m in if test m then below else false

passes_lem : (test : ℕ → Bool) (m k : ℕ) → k < m → passes test m ≡ true → test k ≡ true
unfolding passes
passes_lem test zero k small all = elim small [ ]
passes_lem test (suc m) k small all = elim (Bool-cases (test m)) [
  | inl e ↦ ground (arith, passes_lem test m k)
  | inr e ↦ ground arith
]

-- The permissions, by trying them all.
is_octal : ℕ → Bool
is_octal m = elim (value 8 (octal m) 0) [
  | none ↦ false
  | some k ↦ elim (parse_mode (octal m)) [ none ↦ false | some j ↦ k == m && j == m ]
]

octal_table : passes is_octal 512 ≡ true
unfolding passes is_octal octal digits parse_mode value
octal_table = refl

value-octal : (m : ℕ) → m < 512 → value 8 (octal m) 0 ≡ some m
unfolding is_octal
value-octal m h = ground (arith, passes_lem is_octal 512 m h octal_table)

pub parse_mode-octal : (m : ℕ) → m < 512 → parse_mode (octal m) ≡ some m
unfolding is_octal
parse_mode-octal m h = ground (arith, passes_lem is_octal 512 m h octal_table)

split3_lem :
    (s t a b c : Text)
    → cut_blank s ≡ (a, some t)
    → cut_blank t ≡ (b, some c)
    → split3 s ≡ a ∷ b ∷ c ∷ []
unfolding split3
split3_lem s t a b c e f = ground arith

pub split3-header_line :
    (mode size : ℕ) (name : Text)
    → mode < 512
    → split3 (header_line mode size name) ≡ octal mode ∷ size_text size ∷ name ∷ []
split3-header_line mode size name h =
    let fields = size_text size ++ (b' ' ∷ name) in
    split3_lem (header_line mode size name) fields (octal mode) (size_text size) name
      (cut_blank-value 8 (octal mode) fields 0 mode (omega arith) (value-octal mode h))
      (cut_blank-value 10 (size_text size) name 0 size (omega arith) (value-size_text size))

cut_line-blank :
    (t l r : Text) → cut_line t ≡ some (l, r) → cut_line (b' ' ∷ t) ≡ some (b' ' ∷ l, r)
unfolding cut_line
cut_line-blank t l r e = ground arith

-- A name that a header can carry: one line, and no "\r" at its end.
abbrev pub IsOneLine : Text → Type 0
IsOneLine name =
    (cut_line (name ++ b'\n' ∷ []) ≡ some (name, []))
    × (drop_return name ≡ name)
    × (is_empty name ≡ false)

drop_return-append :
    (s name : Text) → is_empty name ≡ false → drop_return (s ++ name) ≡ s ++ drop_return name
drop_return-append [] name h = refl
drop_return-append (c ∷ []) (d ∷ name) h = refl
drop_return-append (c ∷ []) [] h = cc
drop_return-append (c ∷ d ∷ s) name h = ap (λ l. c ∷ l) (drop_return-append (d ∷ s) name h)

pub cut_line-header_line :
    (mode size : ℕ) (name : Text)
    → mode < 512
    → IsOneLine name
    → cut_line (header_line mode size name ++ b'\n' ∷ []) ≡ some (header_line mode size name, [])
cut_line-header_line mode size name h one =
    let behind : Text = b' ' ∷ name in
    let fields = size_text size ++ behind in
    let e1 = cut_line-blank (name ++ b'\n' ∷ []) name [] one.0 in
    let e2 =
      cut_line-value 10 (size_text size) (behind ++ b'\n' ∷ []) behind [] 0 size
        (value-size_text size) e1 in
    let e3 = cut_line-blank (size_text size ++ (behind ++ b'\n' ∷ [])) fields [] e2 in
    let e4 =
      cut_line-value 8 (octal mode) (b' ' ∷ (size_text size ++ (behind ++ b'\n' ∷ [])))
        (b' ' ∷ fields) [] 0 mode (value-octal mode h) e3 in
    let shape : header_line mode size name ++ b'\n' ∷ []
        ≡ octal mode ++ (b' ' ∷ (size_text size ++ (behind ++ b'\n' ∷ []))) =
      append_assoc (octal mode) (b' ' ∷ fields) (b'\n' ∷ [])
      ∙ ap (λ (t : Text). octal mode ++ (b' ' ∷ t))
          (append_assoc (size_text size) behind (b'\n' ∷ [])) in
    ap cut_line shape ∙ e4

pub drop_return-header_line :
    (mode size : ℕ) (name : Text)
    → IsOneLine name
    → drop_return (header_line mode size name) ≡ header_line mode size name
drop_return-header_line mode size name one =
    let behind : Text = b' ' ∷ name in
    let e1 = drop_return-append (b' ' ∷ []) name one.2 ∙ ap (λ (t : Text). b' ' ∷ t) one.1 in
    let e2 = drop_return-append (size_text size) behind refl ∙ ap (λ t. size_text size ++ t) e1 in
    let e3 =
      drop_return-append (b' ' ∷ []) (size_text size ++ behind)
        (is_empty-append (size_text size) b' ' name)
      ∙ ap (λ (t : Text). b' ' ∷ t) e2 in
    drop_return-append (octal mode) (b' ' ∷ (size_text size ++ behind)) refl
    ∙ ap (λ t. octal mode ++ t) e3

-- What stands behind a line does not change it.
pub cut_line-more :
    (s t : Text)
    → cut_line (s ++ b'\n' ∷ []) ≡ some (s, [])
    → cut_line (s ++ b'\n' ∷ t) ≡ some (s, t)
unfolding cut_line
cut_line-more [] t e = refl
cut_line-more (c ∷ s) t e = elim (Option-cases (cut_line (s ++ b'\n' ∷ []))) [
  | inl n ↦ ground arith
  | inr ((l, r), n) ↦ ground (arith, cut_line-more s t)
]
