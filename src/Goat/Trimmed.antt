-- ===== src/Goat/Trimmed.antt =====
-- The lines of an answer that GetPDP takes apart again (goat/goat.go).
use gosutils.Prelude.{
  ℕ, ◌≡◌, refl, sym, ap, ◌∙◌, arith, true, false, List, [], ◌∷◌, ◌++◌, append_assoc, ◌==◌,
}
use gosutils.Prelude.Text.{Text, All, HasNo, is_white_space}
use gosutils.Sutils.Inserted.{unlines}
use gosutils.Sutils.Nginx.{trim_left, trim_right, trim_space}
use gosutils.Sutils.Paths.{split_paths, join_paths}
use gosutils.Sutils.Removed.{split_paths-plain, split_paths-sep}
use gosutils.Goat.Serial.{trim_front, trim_back, trim_newline_space}

-- A text whose last character is no blank, and one whose first is none.
abbrev pub IsClosed : Text → Type 0
IsClosed [] = ⊥
IsClosed (c ∷ []) = is_white_space c ≡ false
IsClosed (c ∷ d ∷ ds) = IsClosed (d ∷ ds)

abbrev pub IsOpened : Text → Type 0
IsOpened [] = ⊥
IsOpened (c ∷ cs) = is_white_space c ≡ false

pub IsClosed-append : (s t : Text) → IsClosed t → IsClosed (s ++ t)
IsClosed-append [] t h = h
IsClosed-append (c ∷ []) [] h = absurd h
IsClosed-append (c ∷ []) (d ∷ ds) h = h
IsClosed-append (c ∷ d ∷ s) t h = IsClosed-append (d ∷ s) t h

IsOpened-append : (s t : Text) → IsOpened s → IsOpened (s ++ t)
IsOpened-append [] t h = absurd h
IsOpened-append (c ∷ s) t h = h

trim_right-closed : (t : Text) → IsClosed t → trim_right (t ++ b'\n' ∷ []) ≡ t
unfolding trim_right
trim_right-closed [] h = absurd h
trim_right-closed (c ∷ []) h = ground (arith, h)
trim_right-closed (c ∷ d ∷ ds) h = rw (trim_right-closed (d ∷ ds) h) (ground arith)

trim_left-opened : (t : Text) → IsOpened t → trim_left t ≡ t
unfolding trim_left
trim_left-opened [] h = absurd h
trim_left-opened (c ∷ cs) h = ground (arith, h)

blank_is_other : (x c : ℕ) → is_white_space x ≡ true → is_white_space c ≡ false → c == x ≡ false
blank_is_other x c w h = ground (arith, ap is_white_space)

trim_front-opened : (x : ℕ) (t : Text) → is_white_space x ≡ true → IsOpened t → trim_front x t ≡ t
unfolding trim_front
trim_front-opened x [] w h = absurd h
trim_front-opened x (c ∷ cs) w h = rw (blank_is_other x c w h) refl

trim_back-closed : (x : ℕ) (t : Text) → is_white_space x ≡ true → IsClosed t → trim_back x t ≡ t
unfolding trim_back
trim_back-closed x [] w h = absurd h
trim_back-closed x (c ∷ []) w h = rw (blank_is_other x c w h) refl
trim_back-closed x (c ∷ d ∷ ds) w h = rw (trim_back-closed x (d ∷ ds) w h) (ground arith)

join-IsClosed :
    (l : Text) (ls : List Text) → All IsClosed (l ∷ ls) → IsClosed (join_paths b'\n' (l ∷ ls))
unfolding join_paths
join-IsClosed l [] h = h.0
join-IsClosed l (m ∷ ls) h =
    IsClosed-append l _
      (IsClosed-append (b'\n' ∷ []) (join_paths b'\n' (m ∷ ls)) (join-IsClosed m ls h.1))

join-IsOpened : (l : Text) (ls : List Text) → IsOpened l → IsOpened (join_paths b'\n' (l ∷ ls))
unfolding join_paths
join-IsOpened l [] h = h
join-IsOpened l (m ∷ ls) h = IsOpened-append l _ h

unlines-join :
    (l : Text) (ls : List Text) → unlines (l ∷ ls) ≡ join_paths b'\n' (l ∷ ls) ++ b'\n' ∷ []
unfolding unlines join_paths
unlines-join l [] = refl
unlines-join l (m ∷ ls) =
    ap (λ t. l ++ b'\n' ∷ t) (unlines-join m ls) ∙ sym (append_assoc l _ (b'\n' ∷ []))

split-join :
    (l : Text) (ls : List Text)
    → All (HasNo b'\n') (l ∷ ls)
    → split_paths b'\n' (join_paths b'\n' (l ∷ ls)) ≡ l ∷ ls
unfolding join_paths
split-join l [] h = split_paths-plain b'\n' l h.0
split-join l (m ∷ ls) h = split_paths-sep b'\n' l _ h.0 ∙ ap (λ t. l ∷ t) (split-join m ls h.1)

-- Lines that begin and end with no blank come apart as they were.
pub split-trimmed :
    (l : Text) (ls : List Text)
    → IsOpened l
    → All IsClosed (l ∷ ls)
    → All (HasNo b'\n') (l ∷ ls)
    → split_paths b'\n' (trim_newline_space (unlines (l ∷ ls))) ≡ l ∷ ls
unfolding trim_newline_space trim_space
split-trimmed l ls opened closed plain =
    let o = join-IsOpened l ls opened in
    let c = join-IsClosed l ls closed in
    let t = join_paths b'\n' (l ∷ ls) in
    ap (λ u. split_paths b'\n' (trim_newline_space u)) (unlines-join l ls)
    ∙ ap (λ u. split_paths b'\n' u)
        (ap
            (λ u.
              trim_back b'\r'
                (trim_front b'\r' (trim_back b'\n' (trim_front b'\n' (trim_right u)))))
            (trim_left-opened (t ++ b'\n' ∷ []) (IsOpened-append t _ o))
          ∙ ap (λ u. trim_back b'\r' (trim_front b'\r' (trim_back b'\n' (trim_front b'\n' u))))
              (trim_right-closed t c)
          ∙ ap (λ u. trim_back b'\r' (trim_front b'\r' (trim_back b'\n' u)))
              (trim_front-opened b'\n' t refl o)
          ∙ ap (λ u. trim_back b'\r' (trim_front b'\r' u)) (trim_back-closed b'\n' t refl c)
          ∙ ap (λ u. trim_back b'\r' u) (trim_front-opened b'\r' t refl o)
          ∙ trim_back-closed b'\r' t refl c)
    ∙ split-join l ls plain
