-- ===== src/Sed/Output.antt =====
-- What the instructions of gosed/instructions.go and gosed/substitution.go write, and the buffer of
-- `Read` (gosed/engine.go).
use gosutils.Prelude.{
  ℕ, ◌+◌, ◌-◌, ◌≡◌, refl, sym, arith, true, false, List, [], ◌∷◌, ◌⊎◌, inl, inr, Bool-cases,
  Option-cases, ◌++◌, ◌&&◌, if◌then◌else◌, Option, none, some, length, take, drop, take-append-drop,
  append-nil, append_assoc, ltb, ◌∙◌,
}
use gosutils.Prelude.Text.{Text}
use gosutils.Sed.Host.{Host}
use gosutils.Sed.Vm.{Vm, Outcome, write_string}
use gosutils.Sed.Conditions.{is_last_line, guard_at}
use gosutils.Sed.Instructions.{
  Instr, quit, swap, get, hold, getapp, holdapp, print, print_first_line, delete_first_line, lineno,
  fill_next, fill_next_append, branch, changed_branch, simple_cond, two_cond, changer, appender,
  inserter, writer, substitute, translate, exec, first_line, write_line, Substitute, select,
  replace_all, cmd_substitute, cmd_fill_next, cmd_append, cmd_delete_first_line, advance, refill,
  flushed, index_newline,
}
use gosutils.Sed.Engine.{prepare}

-- All that was written since the last `Read` began: in the buffer, and waiting for the next.
abbrev pub stream : Vm → Text
stream v = v.produced ++ v.overflow

-- What waits, waits because the buffer is full.
abbrev pub IsTight : Vm → Type 0
IsTight v = (v.overflow ≡ []) ⊎ (v.room ≡ 0)

-- From `v` to `v'`, the text `s` was written.
abbrev pub Writes : Vm → Text → Vm → Type 0
Writes v s v' = (stream v' ≡ stream v ++ s) × IsTight v'

silent : (v : Vm) → IsTight v → Writes v [] v
silent v tight = (sym (append-nil (stream v)), tight)

-- A text that does not fit.
spill :
    (p o : Text) (room : ℕ) (s : Text)
    → (o ≡ []) ⊎ (room ≡ 0)
    → (p ++ take room s) ++ (o ++ drop room s) ≡ (p ++ o) ++ s
spill p o room s (inl e) = rw e (simp (append-nil, append_assoc, take-append-drop))
spill p o room s (inr e) = rw e (simp (append-nil, append_assoc))

fits :
    (p o : Text) (room : ℕ) (s : Text)
    → ltb room (length s) ≡ false
    → (o ≡ []) ⊎ (room ≡ 0)
    → (p ++ s) ++ o ≡ (p ++ o) ++ s
fits p o room s h (inl e) = rw e (simp (append-nil, append_assoc))
fits p o room [] h (inr e) = simp (append-nil, append_assoc)
fits p o room (x ∷ s) h (inr e) = ground arith

still_tight : (o : Text) (room k : ℕ) → (o ≡ []) ⊎ (room ≡ 0) → (o ≡ []) ⊎ (room - k ≡ 0)
still_tight o room k (inl e) = inl e
still_tight o room k (inr e) = inr (omega arith)

pub write_string-Writes : (v : Vm) (s : Text) → IsTight v → Writes v s (write_string v s).0
unfolding write_string
write_string-Writes v s tight = elim (Bool-cases (ltb v.room (length s))) [
  | inl e ↦ rw e (spill v.produced v.overflow v.room s tight, inr refl)
  | inr e ↦
      rw e (
        fits v.produced v.overflow v.room s e tight,
        still_tight v.overflow v.room (length s) tight,
      )
]

Writes-trans :
    (v v' v'' : Vm) (s t : Text) → Writes v s v' → Writes v' t v'' → Writes v (s ++ t) v''
Writes-trans v v' v'' s t (e, _) (e', tight) = (rw (e', e) (append_assoc (stream v) s t), tight)

write_line-Writes : (v : Vm) (s : Text) → IsTight v → Writes v (s ++ b'\n' ∷ []) (write_line v s).0
write_line-Writes v s tight =
    let first = write_string-Writes v s tight in
    Writes-trans v (write_string v s).0 (write_line v s).0 s (b'\n' ∷ []) first
      (write_string-Writes (write_string v s).0 (b'\n' ∷ []) first.1)

input-cases : {A : Type 0} (l : List A) → (l ≡ []) ⊎ ((x : A) × (xs : List A) × (l ≡ x ∷ xs))
input-cases [] = inl refl
input-cases (x ∷ xs) = inr (x, xs, refl)

refill-Writes : (v : Vm) → IsTight v → Writes v [] (refill v)
unfolding refill
refill-Writes v tight = elim (input-cases v.input) [
  | inl e ↦ rw (e, refill) (silent v tight)
  | inr (x, xs, e) ↦ rw (e, refill) (silent v tight)
]

advance-Writes : (v : Vm) → IsTight v → Writes v [] (advance v).0
unfolding advance
advance-Writes v tight = elim (Bool-cases v.lastl) [
  | inl e ↦ rw (e, advance) (silent v tight)
  | inr e ↦
      rw (e, advance)
        (refill-Writes
          (record v {
            ip = v.ip + 1;
            pat = v.nxtl;
            lineno = if v.started then v.lineno + 1 else 0;
            started = true;
            modified = false;
          })
          tight)
]

-- The appended text that is due at the next line.
abbrev pub due : Option Text → Text
due none = []
due (some text) = text

flushed-Writes : (v : Vm) (s : Text) (o : Outcome) → Writes v s o.0 → Writes v s (flushed o).0
unfolding flushed
flushed-Writes v s (v', none) w =
    let w' = advance-Writes (record v' { appl = none }) w.1 in
    (w'.0 ∙ append-nil (stream v') ∙ w.0, w'.1)
flushed-Writes v s (v', some e) w = w

cmd_fill_next-Writes : (v : Vm) → IsTight v → Writes v (due v.appl) (cmd_fill_next v).0
unfolding cmd_fill_next
cmd_fill_next-Writes v tight = elim (Option-cases v.appl) [
  | inl e ↦ rw (e, cmd_fill_next) (advance-Writes v tight)
  | inr (text, e) ↦
      rw (e, cmd_fill_next)
        (flushed-Writes v text (write_string v text) (write_string-Writes v text tight))
]

module _ (h : Host) where
  open h use {Regexp, find_all, format_int}

  -- What an instruction writes, were the buffer endless.
  unfoldable pub text_of : Instr Regexp → Vm → Text
  text_of print v = v.pat ++ b'\n' ∷ []
  text_of print_first_line v = first_line v.pat ++ b'\n' ∷ []
  text_of lineno v = format_int v.lineno ++ b'\n' ∷ []
  text_of fill_next v = due v.appl
  text_of fill_next_append v = due v.appl
  text_of (changer text none) v = text
  text_of (changer text (some k)) v = if is_last_line (guard_at v k) v.lineno then text else []
  text_of (inserter text) v = text
  text_of (substitute s) v =
      if ltb s.which (length (find_all s.pattern v.pat)) && s.pflag
      then replace_all h v.pat s 0 (select h s (find_all s.pattern v.pat)) ++ b'\n' ∷ []
      else []
  text_of _ v = []

  -- The pattern space behind a substitution with the flag `p`.
  abbrev printed : Substitute Regexp → Vm → Text
  printed s v =
      replace_all h v.pat (record s { pflag = true }) 0 (select h s (find_all s.pattern v.pat))

  -- From a state in which text waits only for room, each instruction adds to what was written, in
  -- the buffer and beyond it, the text that it would write to an endless buffer, and nothing else;
  -- what waits still waits only for room.
  pub exec-Writes : (i : Instr Regexp) (v : Vm) → IsTight v → Writes v (text_of i v) (exec h i v).0
  unfolding text_of exec
  exec-Writes quit v tight = silent v tight
  exec-Writes swap v tight = silent v tight
  exec-Writes get v tight = silent v tight
  exec-Writes hold v tight = silent v tight
  exec-Writes getapp v tight = silent v tight
  exec-Writes holdapp v tight = silent v tight
  exec-Writes print v tight = write_line-Writes (record v { ip = v.ip + 1 }) v.pat tight
  exec-Writes print_first_line v tight =
      write_line-Writes (record v { ip = v.ip + 1 }) (first_line v.pat) tight
  exec-Writes delete_first_line v tight = elim (Option-cases (index_newline v.pat)) [
    | inl e ↦ rw (e, cmd_delete_first_line) (silent v tight)
    | inr (i, e) ↦ rw (e, cmd_delete_first_line) (silent v tight)
  ]
  exec-Writes lineno v tight =
      write_string-Writes (record v { ip = v.ip + 1 }) (format_int v.lineno ++ b'\n' ∷ []) tight
  exec-Writes fill_next v tight = cmd_fill_next-Writes v tight
  exec-Writes fill_next_append v tight = cmd_fill_next-Writes v tight
  exec-Writes (branch target) v tight = silent v tight
  exec-Writes (changed_branch target) v tight = elim (Bool-cases v.modified) [
    | inl e ↦ rw (e, exec) (silent v tight)
    | inr e ↦ rw (e, exec) (silent v tight)
  ]
  exec-Writes (simple_cond c met unmet) v tight = silent v tight
  exec-Writes (two_cond k start end met unmet) v tight = silent v tight
  exec-Writes (changer text none) v tight = write_string-Writes (record v { ip = 0 }) text tight
  exec-Writes (changer text (some k)) v tight =
      elim (Bool-cases (is_last_line (guard_at v k) v.lineno)) [
        | inl e ↦ rw (e, exec) (write_string-Writes (record v { ip = 0 }) text tight)
        | inr e ↦ rw (e, exec) (silent v tight)
      ]
  exec-Writes (appender text) v tight = elim (Option-cases v.appl) [
    | inl e ↦ rw (e, cmd_append) (silent v tight)
    | inr (old, e) ↦ rw (e, cmd_append) (silent v tight)
  ]
  exec-Writes (inserter text) v tight = write_string-Writes (record v { ip = v.ip + 1 }) text tight
  exec-Writes (writer file) v tight = elim (Bool-cases (h.can_write file)) [
    | inl e ↦ rw (e, exec) (silent v tight)
    | inr e ↦ rw (e, exec) (silent v tight)
  ]
  exec-Writes (substitute s) v tight =
      elim (Bool-cases (ltb s.which (length (find_all s.pattern v.pat)))) [
        | inr e ↦ rw (e, cmd_substitute) (silent v tight)
        | inl e ↦ elim (Bool-cases s.pflag) [
          | inr e' ↦ rw (e, e', cmd_substitute) (silent v tight)
          | inl e' ↦
              rw (e, e', cmd_substitute)
                (write_line-Writes (record v { pat = printed s v; ip = v.ip + 1; modified = true })
                  (printed s v) tight)
        ]
      ]
  exec-Writes (translate pairs) v tight = silent v tight

  -- A later `Read`, with a buffer of any size, begins with the text that waited and no other, and
  -- what still waits then waits for room.
  pub prepare-Writes :
      (n : ℕ) (v : Vm)
      → v.started ≡ true
      → (stream (prepare h n v).0 ≡ v.overflow) × IsTight (prepare h n v).0
  unfolding prepare
  prepare-Writes n v started = elim (input-cases v.overflow) [
    | inl e ↦ rw (started, e, prepare) (refl, inl refl)
    | inr (c, cs, e) ↦
        rw (started, e, prepare)
          (write_string-Writes (record v { produced = []; room = n; overflow = []; started = true })
            (c ∷ cs) (inl refl))
  ]
