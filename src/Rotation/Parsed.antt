-- ===== src/Rotation/Parsed.antt =====
-- What timeFromName gives for a name that is made of a prefix, a text and an extension.
use gosutils.Prelude.{
  if_true, ℕ, ◌-◌, ◌≤◌, ◌≡◌, refl, sym, ap, ◌∙◌, subst, Bool, true, ◌&&◌, ◌++◌, leb, Option, some,
  length, take, drop, take-append, drop-append, length-append, append_assoc, arith,
}
use gosutils.Prelude.Text.{Text, text_eq, text_eq_refl}
use gosutils.Rotation.Names.{starts_with, ends_with, slice, stamp_of, time_from_name}

starts_with-append : (p s : Text) → starts_with (p ++ s) p ≡ true
starts_with-append p s = ap (λ t. text_eq t p) (take-append p s) ∙ text_eq_refl p

ends_with-append : (s e : Text) → ends_with (s ++ e) e ≡ true
ends_with-append s e =
    let l : length (s ++ e) - length e ≡ length s = omega (arith, length-append s e) in
    ap (λ n. text_eq (drop n (s ++ e)) e) l
    ∙ ap (λ t. text_eq t e) (drop-append s e)
    ∙ text_eq_refl e

le→leb : (m n : ℕ) → m ≤ n → leb m n ≡ true
le→leb m n h = ground arith

both_true : {a b : Bool} → a ≡ true → b ≡ true → a && b ≡ true
both_true h k = rw (h, k) refl

slice-append :
    (p s e : Text) → slice (p ++ s ++ e) (length p) (length (p ++ s ++ e) - length e) ≡ some s
unfolding slice
slice-append p s e =
    let lp = length-append p s in
    let ls = length-append (p ++ s) e in
    let l : length (p ++ s ++ e) - length e - length p ≡ length s = omega arith in
    if_true _ _ (le→leb (length p) (length (p ++ s ++ e) - length e) (omega arith))
    ∙ ap some (
        ap (λ t. take (length (p ++ s ++ e) - length e - length p) (drop (length p) t))
          (append_assoc p s e)
        ∙ ap (λ t. take (length (p ++ s ++ e) - length e - length p) t) (drop-append p (s ++ e))
        ∙ ap (λ n. take n (s ++ e)) l
        ∙ take-append s e)

-- A name with the prefix in front and the extension behind gives the time between them.
pub time_from_name-made :
    (parse : Text → Option ℕ) (p s e : Text)
    → time_from_name parse (p ++ s ++ e) p e ≡ some (parse s)
unfolding time_from_name
time_from_name-made parse p s e =
    if_true _ _ (
      both_true
        (subst (λ t. starts_with t p ≡ true) (sym (append_assoc p s e))
          (starts_with-append p (s ++ e)))
        (ends_with-append (p ++ s) e))
    ∙ ap (stamp_of parse) (slice-append p s e)
