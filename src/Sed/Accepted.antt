-- ===== src/Sed/Accepted.antt =====
-- The programs that gosed/parse.go accepts, in the loop of gosed/engine.go.
use gosutils.Prelude.{
  ℕ, zero, suc, ◌≤◌, ◌<◌, ◌≡◌, refl, sym, arith, Bool, List, [], ◌∷◌, ◌++◌, ◌==◌, some, length, set,
  length-set, get_elem?, get_elem?-set_ne, inl, inr, Bool-cases, Option-cases, subst, ◌∙◌,
}
use gosutils.Prelude.Text.{Text, All}
use gosutils.Sed.Host.{Host}
use gosutils.Sed.Vm.{Vm}
use gosutils.Sed.Instructions.{Instr, branch}
use gosutils.Sed.Parse.{
  Token, WaitingBranch, ParseState, push, end_of_program_label, print_unless_quiet, find_label,
  branch_of, resolve_branches,
}
use gosutils.Sed.Commands.{State}
use gosutils.Sed.Compile.{parse_toplevel, program, initial, complete, conclude, parse}
use gosutils.Sed.Engine.{read}
use gosutils.Sed.Safety.{Targets, IsSafe, Inside, read-Inside}
use gosutils.Sed.Growth.{
  IsGood, All-set, All_weaken, All_snoc, length_snoc, print_unless_quiet-Grows,
}
use gosutils.Sed.Compiled.{toplevel-Grows}

find_label-All :
    (n : ℕ) (t : Text) (ls : List (Text × ℕ)) (place : ℕ)
    → All (λ l. l.1 < n) ls
    → find_label t ls ≡ some place
    → place < n
unfolding find_label
find_label-All n t [] place h e = cc
find_label-All n t ((k, p) ∷ ls) place h e = ground (arith, find_label-All n t ls place h.1)

branch_of-Targets :
    (R : Type 0) (letter place n : ℕ) → place < n → Targets {R = R} n (branch_of letter place)
branch_of-Targets R letter place n h = elim (Bool-cases (letter == b'b')) [
  | inl e ↦ rw e h
  | inr e ↦ rw e h
]

module _ {R : Type 0} where
  get_elem?-snoc :
      (xs : List (Instr R)) (x : Instr R) (k : ℕ)
      → k ≡ length xs
      → get_elem? (xs ++ x ∷ []) k ≡ some x
  get_elem?-snoc [] x zero e = refl
  get_elem?-snoc [] x (suc k) e = absurd (omega arith)
  get_elem?-snoc (y ∷ ys) x zero e = absurd (omega arith)
  get_elem?-snoc (y ∷ ys) x (suc k) e = get_elem?-snoc ys x k (omega arith)

  snoc-IsSafe :
      (xs : List (Instr R))
      → 1 ≤ length xs
      → All (Targets (suc (length xs))) xs
      → IsSafe (xs ++ branch 0 ∷ [])
  snoc-IsSafe xs begun ts =
      let grown : length (xs ++ branch 0 ∷ []) ≡ suc (length xs) = length_snoc xs (branch 0) in
      record {
        two = omega (arith, grown);
        targets = rw grown (All_snoc (Targets (suc (length xs))) xs (branch 0) ts (omega arith));
        last = λ k e. get_elem?-snoc xs (branch 0) k (omega (arith, grown));
      }

  set-IsSafe :
      (xs : List (Instr R)) (k : ℕ) (i : Instr R)
      → suc k < length xs
      → Targets (length xs) i
      → IsSafe xs
      → IsSafe (set xs k i)
  set-IsSafe xs k i inside t safe =
      let same : length (set xs k i) ≡ length xs = length-set xs k i in
      record {
        two = omega (arith, same, safe.two);
        targets = rw same (All-set (Targets (length xs)) xs k i safe.targets t);
        last =
            λ j e. get_elem?-set_ne xs i (omega (arith, same)) ∙ safe.last j (omega (arith, same));
      }

  resolve-IsSafe :
      (ws : List WaitingBranch) (ps : ParseState R)
      → IsSafe ps.ins
      → All (λ w. suc w.ip < length ps.ins) ws
      → All (λ l. l.1 < length ps.ins) ps.labels
      → IsSafe (resolve_branches ws ps).ins
  unfolding resolve_branches
  resolve-IsSafe [] ps safe wait labels = safe
  resolve-IsSafe (w ∷ ws) ps safe wait labels =
      elim (Option-cases (find_label w.target ps.labels)) [
        | inl e ↦ rw (e, resolve_branches) safe
        | inr (place, e) ↦
            let i : Instr R = branch_of w.letter place in
            let same : length (set ps.ins w.ip i) ≡ length ps.ins = length-set ps.ins w.ip i in
            let inside = find_label-All (length ps.ins) w.target ps.labels place labels e in
            rw (e, resolve_branches)
              (resolve-IsSafe ws (record ps { ins = set ps.ins w.ip i })
                (set-IsSafe ps.ins w.ip i wait.0
                  (branch_of-Targets R w.letter place (length ps.ins) inside) safe)
                (rw same wait.1) (rw same labels))
      ]

module _ (h : Host) where
  open h use {Regexp}

  complete-IsSafe : (ps : State h) → IsGood ps → IsSafe (complete h ps).ins
  unfolding complete
  complete-IsSafe ps g =
      let ps' : State h = record ps {
        labels = (end_of_program_label, length ps.ins) ∷ ps.labels;
      } in
      let labelled : IsGood ps' = record {
        begun = g.begun;
        targets = g.targets;
        labels = (omega arith, g.labels);
        waiting = g.waiting;
      } in
      let q = print_unless_quiet-Grows ps' labelled in
      let good = q.good in
      let grown = length_snoc (print_unless_quiet ps').ins (branch 0) in
      resolve-IsSafe ps.branches (push (branch 0) (print_unless_quiet ps'))
        (snoc-IsSafe (print_unless_quiet ps').ins good.begun good.targets)
        (All_weaken _ _ (λ w lt. omega (arith, grown, q.longer)) ps.branches g.waiting)
        (rw grown good.labels)

  conclude-program :
      (ps : State h) (ins : List (Instr Regexp))
      → conclude h ps ≡ program ins
      → ins ≡ (complete h ps).ins
  unfolding conclude
  conclude-program ps ins e = ground arith

  parse-IsSafe :
      (toks : List Token) (quiet : Bool) (ins : List (Instr Regexp))
      → parse h toks quiet ≡ program ins
      → IsSafe ins
  parse-IsSafe toks quiet ins e =
      let begun : IsGood (initial h toks quiet) = record {
        begun = omega arith;
        targets = (tt, tt);
        labels = tt;
        waiting = tt;
      } in
      let top = toplevel-Grows h (length toks) (initial h toks quiet) begun in
      let ps : State h = parse_toplevel h (length toks) (initial h toks quiet) in
      let whole : ins ≡ (complete h ps).ins = conclude-program ps ins (unfold parse in e) in
      subst IsSafe (sym whole) (complete-IsSafe ps top.good)

  -- Any program that the compiler accepts, run on any input by calls of `Read` with buffers of any
  -- size: `v.ins[v.ip]` is never out of range, in this call or, since `ip` stays inside the
  -- program, in a later one.
  pub read-parse-Inside :
      (toks : List Token) (quiet : Bool) (ins : List (Instr Regexp)) (fuel n : ℕ) (v : Vm)
      → parse h toks quiet ≡ program ins
      → v.ip < length ins
      → Inside (length ins) (read h fuel ins n v)
  read-parse-Inside toks quiet ins fuel n v e here =
      read-Inside h fuel n ins v (parse-IsSafe toks quiet ins e) here
