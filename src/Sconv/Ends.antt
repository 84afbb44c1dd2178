-- ===== src/Sconv/Ends.antt =====
-- The fuel of StringToArgs (sconv/sconv.go).
use gosutils.Prelude.{
  ℕ, zero, suc, ◌≤◌, ◌≡◌, refl, ap, arith, Bool, true, false, List, [], ◌∷◌, ◌++◌, ◌==◌,
  if◌then◌else◌, length, inl, inr, ◌⊎◌,
}
use gosutils.Prelude.Text.{Text}
use gosutils.Sconv.Split.{
  Label, SplitError, raw, escape, single, double, Result, ok, err, stuck, Round, skip, fail, word,
  split_from, split_word, look, args_loop, string_to_args,
}

-- The length of what is left behind a word.
abbrev left : Result (Text × Text) → ℕ
left (ok (w, rest)) = length rest
left (err e) = 0
left stuck = 0

abbrev is_stuck {ℓ} : {A : Type ℓ} → Result A → Bool
is_stuck (ok a) = false
is_stuck (err e) = false
is_stuck stuck = true

abbrev Ends : Label → Text → Text → Text → Type 0
Ends l buf seg cur =
    (left (split_from l buf seg cur) ≤ length cur) × (is_stuck (split_from l buf seg cur) ≡ false)

split_from-Ends : (l : Label) (buf seg cur : Text) → Ends l buf seg cur
unfolding split_from
split_from-Ends raw buf seg [] = (omega arith, refl)
split_from-Ends raw buf seg (c ∷ cur) = ground (
  arith,
  split_from-Ends single (buf ++ seg) [] cur,
  split_from-Ends double (buf ++ seg) [] cur,
  split_from-Ends escape (buf ++ seg) [] cur,
  split_from-Ends raw buf (seg ++ c ∷ []) cur,
)
split_from-Ends escape buf seg [] = (omega arith, refl)
split_from-Ends escape buf seg (c ∷ cur) =
    ground (arith, split_from-Ends raw (if c == b'\n' then buf else buf ++ c ∷ []) [] cur)
split_from-Ends single buf seg [] = (omega arith, refl)
split_from-Ends single buf seg (c ∷ cur) =
    ground (
      arith,
      split_from-Ends raw (buf ++ seg) [] cur,
      split_from-Ends single buf (seg ++ c ∷ []) cur,
    )
split_from-Ends double buf seg [] = (omega arith, refl)
split_from-Ends double buf seg (c ∷ []) = ground arith
split_from-Ends double buf seg (c ∷ c2 ∷ cur) = ground (
  arith,
  split_from-Ends raw (buf ++ seg) [] (c2 ∷ cur),
  split_from-Ends double (if c2 == b'\n' then buf ++ seg else (buf ++ seg) ++ c2 ∷ []) [] cur,
  split_from-Ends double buf (seg ++ c ∷ c2 ∷ []) cur,
  split_from-Ends double buf (seg ++ c ∷ []) (c2 ∷ cur),
)

look-shorter :
    (c : ℕ) (cs : Text) {rest : Text} → look (c ∷ cs) ≡ skip rest → length rest ≤ length cs
unfolding look
look-shorter c [] h = ground arith
look-shorter c (c2 ∷ cs) h = ground arith

-- A word takes its first character.
split_word-Ends :
    (c : ℕ) (cs : Text)
    → (left (split_word (c ∷ cs)) ≤ length cs) × (is_stuck (split_word (c ∷ cs)) ≡ false)
unfolding split_word split_from
split_word-Ends c cs = ground (
  arith,
  split_from-Ends single [] [] cs,
  split_from-Ends double [] [] cs,
  split_from-Ends escape [] [] cs,
  split_from-Ends raw [] (c ∷ []) cs,
)

Round-cases : (r : Round) → ((t : Text) × (r ≡ skip t)) ⊎ (r ≡ fail) ⊎ (r ≡ word)
Round-cases (skip t) = inl (t, refl)
Round-cases fail = inr (inl refl)
Round-cases word = inr (inr refl)

Result-cases {ℓ} :
    {A : Type ℓ} (r : Result A)
    → is_stuck r ≡ false
    → ((a : A) × (r ≡ ok a)) ⊎ ((e : SplitError) × (r ≡ err e))
Result-cases (ok a) h = inl (a, refl)
Result-cases (err e) h = inr (e, refl)
Result-cases stuck h = cc

args_loop-is_stuck :
    (fuel : ℕ) (input : Text) (words : List Text)
    → length input ≤ fuel
    → is_stuck (args_loop fuel input words) ≡ false
unfolding args_loop
args_loop-is_stuck zero [] words h = refl
args_loop-is_stuck zero (c ∷ cs) words h = absurd (omega arith)
args_loop-is_stuck (suc fuel) [] words h = refl
args_loop-is_stuck (suc fuel) (c ∷ cs) words h =
    let (shorter, ends) = split_word-Ends c cs in
    elim (Round-cases (look (c ∷ cs))) [
      | inl (t, e) ↦
          rw (e, args_loop) (args_loop-is_stuck fuel t words (omega (arith, look-shorter c cs e)))
      | inr (inl e) ↦ rw (e, args_loop) refl
      | inr (inr e) ↦ elim (Result-cases (split_word (c ∷ cs)) ends) [
        | inl ((w, t), k) ↦
            rw (e, args_loop)
              (rw (k, args_loop)
                (args_loop-is_stuck fuel t (words ++ w ∷ []) (omega (arith, ap left k))))
        | inr (x, k) ↦ rw (e, args_loop) (rw (k, args_loop) refl)
      ]
    ]

-- `StringToArgs` ends on every input, with a list of words or one of its errors.
pub string_to_args-total :
    (input : Text)
    → ((words : List Text) × (string_to_args input ≡ ok words))
      ⊎ ((e : SplitError) × (string_to_args input ≡ err e))
unfolding string_to_args
string_to_args-total input =
    Result-cases (string_to_args input) (args_loop-is_stuck (length input) input [] (omega arith))
