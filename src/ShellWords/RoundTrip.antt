-- ===== src/ShellWords/RoundTrip.antt =====
-- How parserposix of cmdshellwords/util.go reads what Join writes.
use gosutils.Prelude.{
  ℕ, ◌+◌, ◌<◌, ◌≡◌, refl, ap, ◌∙◌, arith, Bool, true, false, ◌||◌, List, [], ◌∷◌, ◌++◌, ◌==◌,
  if◌then◌else◌, Option, none, append-nil, append_assoc, Bool-cases, inl, inr,
}
use gosutils.Prelude.Text.{Text, All}
use gosutils.ShellWords.Parser.{
  Result, ok, ◌>>=◌, State, start, next, step, loop, finish, parse_posix, rune_len, new_parser,
  emit_arg, parse, split,
}
use gosutils.ShellWords.Escape.{is_safe, escape_byte, escape_loop, escape, join_tail, join}

abbrev IsAscii : ℕ → Type 0
IsAscii b = b < 128

-- Between quotes and escapes, with an argument begun or not.
abbrev plain : List Text → Text → Text → Bool → State
plain args buf backtick got = record start {
  args = args;
  buf = buf;
  backtick = backtick;
  got = got;
}

-- Whether an escaped byte counts as part of an argument for the parser.
abbrev keeps : Bool → ℕ → Bool
keeps got b = is_safe b || (b == b'\n' || got)

-- The position behind an escaped byte.
abbrev after : ℕ → ℕ → ℕ
after i b =
    if is_safe b then i + rune_len b else if b == b'\n' then i + 1 + 1 + 1 else i + 1 + rune_len b

abbrev seen : Text → ℕ → Text
seen bt b = if is_safe b then bt else if b == b'\n' then bt ++ b ∷ [] else bt

abbrev keeps_all : Bool → Text → Bool
keeps_all got [] = got
keeps_all got (b ∷ w) = keeps_all (keeps got b) w

-- Whether the parser takes what `Escape` wrote for a word as an argument.
abbrev pub keeps_word : Text → Bool
keeps_word [] = true
keeps_word (b ∷ w) = keeps_all false (b ∷ w)

module _ (pb : Bool) (shell_run : Text → Result Text)
    (emit : Text → List Text → Result (List Text)) where
  abbrev scan : ℕ → Text → State → Result (State × Option ℕ)
  scan = loop pb shell_run emit

  step_safe :
      (i b : ℕ) (args : List Text) (buf bt : Text) (got : Bool)
      → is_safe b ≡ true
      → step pb shell_run emit i b (plain args buf bt got)
        ≡ next (plain args (buf ++ b ∷ []) bt true)
  unfolding step is_safe
  step_safe i b args buf bt got h = ground arith

  step_backslash :
      (i : ℕ) (args : List Text) (buf bt : Text) (got : Bool)
      → step pb shell_run emit i b'\\' (plain args buf bt got)
        ≡ next (record (plain args buf bt got) { escaped = true })
  unfolding step
  step_backslash i args buf bt got = refl

  step_escaped :
      (i b : ℕ) (args : List Text) (buf bt : Text) (got : Bool)
      → step pb shell_run emit i b (record (plain args buf bt got) { escaped = true })
        ≡ next (plain args (buf ++ b ∷ []) bt got)
  unfolding step
  step_escaped i b args buf bt got = refl

  scan_newline :
      (i : ℕ) (args : List Text) (buf bt rest : Text) (got : Bool)
      → scan i (b'\'' ∷ b'\n' ∷ b'\'' ∷ rest) (plain args buf bt got)
        ≡ scan (i + 1 + 1 + 1) rest (plain args (buf ++ b'\n' ∷ []) (bt ++ b'\n' ∷ []) true)
  unfolding loop step rune_len
  scan_newline i args buf bt rest got = refl

  scan_escaped :
      (i b : ℕ) (args : List Text) (buf bt rest : Text) (got : Bool)
      → scan i (b'\\' ∷ b ∷ rest) (plain args buf bt got)
        ≡ scan (i + 1 + rune_len b) rest (plain args (buf ++ b ∷ []) bt got)
  unfolding loop step rune_len
  scan_escaped i b args buf bt rest got = refl

  -- The loop on an escaped byte.
  scan-escape_byte :
      (i b : ℕ) (args : List Text) (buf bt rest : Text) (got : Bool)
      → scan i (escape_byte b ++ rest) (plain args buf bt got)
        ≡ scan (after i b) rest (plain args (buf ++ b ∷ []) (seen bt b) (keeps got b))
  unfolding escape_byte
  scan-escape_byte i b args buf bt rest got = elim (Bool-cases (is_safe b)) [
    | inl e ↦ rw e (unfold loop in rw (step_safe i b args buf bt got e, loop) refl)
    | inr e ↦ elim (Bool-cases (b == b'\n')) [
      | inl n ↦ ground (arith, scan_newline i args buf bt rest got)
      | inr n ↦ rw (e, n) (scan_escaped i b args buf bt rest got)
    ]
  ]

  scan-escape_loop :
      (i : ℕ) (w : Text) (args : List Text) (buf bt rest : Text) (got : Bool)
      → (j : ℕ) × (bt' : Text) × (scan i (escape_loop w ++ rest) (plain args buf bt got)
          ≡ scan j rest (plain args (buf ++ w) bt' (keeps_all got w)))
  unfolding escape_loop
  scan-escape_loop i [] args buf bt rest got = (i, bt, rw append-nil)
  scan-escape_loop i (b ∷ w) args buf bt rest got =
      let (j, bt', e) =
        scan-escape_loop (after i b) w args (buf ++ b ∷ []) (seen bt b) rest (keeps got b) in
      (
        j,
        bt',
        ground (
          arith,
          append_assoc (escape_byte b) (escape_loop w) rest,
          scan-escape_byte i b args buf bt (escape_loop w ++ rest) got,
          append_assoc buf (b ∷ []) w,
        ),
      )

  scan-escape :
      (i : ℕ) (w : Text) (args : List Text) (bt rest : Text)
      → (j : ℕ) × (bt' : Text) × (scan i (escape w ++ rest) (plain args [] bt false)
          ≡ scan j rest (plain args w bt' (keeps_word w)))
  unfolding escape
  scan-escape i [] args bt rest = (i + 1 + 1, bt, unfold loop step rune_len in refl)
  scan-escape i (b ∷ w) args bt rest = scan-escape_loop i (b ∷ w) args [] bt rest false

  abbrev complete : ℕ → Text → State → Result (List Text × Option ℕ)
  complete i line s = scan i line s >>= λ r. finish pb shell_run emit r.0 r.1

  module _
      (emit_lem : (buf : Text) (args : List Text) → emit buf args ≡ ok (args ++ buf ∷ [])) where
    scan_space :
        (i : ℕ) (args : List Text) (w bt rest : Text)
        → scan i (b' ' ∷ rest) (plain args w bt true)
          ≡ scan (i + 1) rest (plain (args ++ w ∷ []) [] bt false)
    unfolding loop step rune_len
    scan_space i args w bt rest = ground (arith, emit_lem w args)

    complete-join_tail :
        (ws : List Text) (i : ℕ) (args : List Text) (w bt : Text)
        → All (λ x. keeps_word x ≡ true) ws
        → complete i (join_tail ws) (plain args w bt true) ≡ ok (args ++ w ∷ ws, none)
    unfolding join_tail
    complete-join_tail [] i args w bt h = unfold loop finish in rw emit_lem refl
    complete-join_tail (x ∷ xs) i args w bt h =
        let (j, bt', e) = scan-escape (i + 1) x (args ++ w ∷ []) bt (join_tail xs) in
        ap (λ r. r >>= λ s. finish pb shell_run emit s.0 s.1)
          (scan_space i args w bt (escape x ++ join_tail xs) ∙ e)
        ∙ rw h.0 (complete-join_tail xs j (args ++ w ∷ []) x bt' h.1)
        ∙ ap (λ a. ok (a, none)) (append_assoc args (w ∷ []) (x ∷ xs))

    complete-join :
        (ws : List Text)
        → All (λ x. keeps_word x ≡ true) ws
        → complete 0 (join ws) start ≡ ok (ws, none)
    unfolding join
    complete-join [] h = unfold loop finish in refl
    complete-join (w ∷ ws) h =
        let (j, bt, e) = scan-escape 0 w [] [] (join_tail ws) in
        ap (λ r. r >>= λ s. finish pb shell_run emit s.0 s.1) e
        ∙ rw h.0 (complete-join_tail ws j [] w bt h.1)

  -- A word of escaped bytes alone is dropped.
  complete-dropped : (w : Text) → keeps_word w ≡ false → complete 0 (escape w) start ≡ ok ([], none)
  complete-dropped w h =
      let (j, bt, e) = scan-escape 0 w [] [] [] in
      ap (λ r. r >>= λ s. finish pb shell_run emit s.0 s.1) (rw append-nil at e)
      ∙ rw h (unfold loop finish in refl)

module _ (replace_all : (Text → Text) → Text → Text) (shell_run : Text → Result Text)
    (getenv : Text → Text) where
  -- Splitting a joined list of ASCII words gives the words back, if each word is empty or holds a
  -- newline or one of the characters that `Escape` leaves as they are.
  pub split-join :
      (words : List Text)
      → All (All IsAscii) words
      → All (λ w. keeps_word w ≡ true) words
      → split replace_all shell_run getenv (join words) ≡ ok words
  unfolding split parse parse_posix emit_arg
  split-join words ascii kept =
      ap (λ r. r >>= λ x. ok x.0)
        (complete-join false shell_run (emit_arg replace_all shell_run (new_parser getenv))
          (λ buf args. refl) words kept)

  -- An ASCII word of which `Escape` puts a backslash before each byte is lost: splitting gives no
  -- argument at all.
  pub split-escape_lost :
      (w : Text)
      → All IsAscii w
      → keeps_word w ≡ false
      → split replace_all shell_run getenv (escape w) ≡ ok []
  unfolding split parse parse_posix emit_arg
  split-escape_lost w ascii lost =
      ap (λ r. r >>= λ x. ok x.0)
        (complete-dropped false shell_run (emit_arg replace_all shell_run (new_parser getenv)) w
          lost)
