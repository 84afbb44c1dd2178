-- ===== src/Sed/Growth.antt =====
-- The invariant of the compiler of gosed/parse.go, and the state changes that keep it.
use gosutils.Prelude.{
  ℕ, zero, suc, ◌≤◌, ◌<◌, ◌≡◌, arith, Bool, true, false, List, [], ◌∷◌, ◌++◌, if◌then◌else◌, Option,
  some, length, set, length-set, length-append,
}
use gosutils.Prelude.Text.{All, is_empty}
use gosutils.Sed.Instructions.{Instr, print, branch, changed_branch, simple_cond, two_cond}
use gosutils.Sed.Parse.{
  Token, ParseError, bad_label, ParseState, fail, push, arg, compile_label, compile_branch_target,
  print_unless_quiet,
}
use gosutils.Sed.Safety.{Targets}

-- Whatever a list's elements have, they have in a weaker form.
pub All_weaken {ℓ} :
    {A : Type ℓ} (P Q : A → Type 0) → ((a : A) → P a → Q a) → (xs : List A) → All P xs → All Q xs
All_weaken P Q f [] h = tt
All_weaken P Q f (x ∷ xs) h = (f x h.0, All_weaken P Q f xs h.1)

pub All_snoc {ℓ} :
    {A : Type ℓ} (P : A → Type 0) (xs : List A) (x : A) → All P xs → P x → All P (xs ++ x ∷ [])
All_snoc P [] x h p = (p, tt)
All_snoc P (y ∷ ys) x h p = (h.0, All_snoc P ys x h.1 p)

pub All-set {ℓ} :
    {A : Type ℓ} (P : A → Type 0) (xs : List A) (k : ℕ) (x : A)
    → All P xs
    → P x
    → All P (set xs k x)
All-set P [] k x h p = tt
All-set P (y ∷ ys) zero x h p = (p, h.1)
All-set P (y ∷ ys) (suc k) x h p = (h.0, All-set P ys k x h.1 p)

pub length_snoc {ℓ} : {A : Type ℓ} (xs : List A) (x : A) → length (xs ++ x ∷ []) ≡ suc (length xs)
length_snoc xs x = omega (arith, length-append xs (x ∷ []))

module _ {R : Type 0} where
  pub Targets-mono : (n m : ℕ) (i : Instr R) → n ≤ m → Targets n i → Targets m i
  Targets-mono n m (branch t) le h = omega arith
  Targets-mono n m (changed_branch t) le h = omega arith
  Targets-mono n m (simple_cond c a b) le h = omega arith
  Targets-mono n m (two_cond k c d a b) le h = omega arith
  Targets-mono n m _ le h = ground arith

  -- Jumps and labels are at most the place behind the last instruction, and the branches that wait
  -- stand inside.
  pub record IsGood (ps : ParseState R) : Type 0 where
    pub begun : 1 ≤ length ps.ins
    pub targets : All (Targets (suc (length ps.ins))) ps.ins
    pub labels : All (λ l. l.1 < suc (length ps.ins)) ps.labels
    pub waiting : All (λ w. w.ip < length ps.ins) ps.branches

  -- What each part of the compiler does to a state.
  pub record Grows (ps ps' : ParseState R) : Type 0 where
    pub good : IsGood ps'
    pub longer : length ps.ins ≤ length ps'.ins

  abbrev pub Keeps : (ParseState R → ParseState R) → Type 0
  Keeps f = (ps : ParseState R) → IsGood ps → Grows ps (f ps)

  pub Grows_trans : {a b c : ParseState R} → Grows a b → Grows b c → Grows a c
  Grows_trans x y = record { good = y.good; longer = omega (arith, x.longer, y.longer) }

  -- A state with the same instructions, labels and branches.
  pub kept :
      (ps : ParseState R) (toks : List Token) (level : ℕ) (err : Option ParseError) (guards : ℕ)
      → IsGood ps
      → Grows ps (record ps { toks = toks; block_level = level; err = err; guards = guards })
  kept ps toks level err guards g = record {
    good = record { begun = g.begun; targets = g.targets; labels = g.labels; waiting = g.waiting };
    longer = omega arith;
  }

  pub failed-Grows : (e : ParseError) → Keeps (fail e)
  failed-Grows e ps g = kept ps ps.toks ps.block_level (some e) ps.guards g

  pub push-Grows :
      (i : Instr R) (ps : ParseState R)
      → Targets (suc (suc (length ps.ins))) i
      → IsGood ps
      → Grows ps (push i ps)
  push-Grows i ps t g =
      let grown : length (ps.ins ++ i ∷ []) ≡ suc (length ps.ins) = length_snoc ps.ins i in
      record {
        good = record {
          begun = omega (arith, grown);
          targets =
              All_snoc (Targets _) ps.ins i
                (All_weaken (Targets _) (Targets _)
                  (λ j h. Targets-mono (suc (length ps.ins)) _ j (omega (arith, grown)) h) ps.ins
                  g.targets)
                (Targets-mono _ _ i (omega (arith, grown)) t);
          labels =
              All_weaken (λ l. l.1 < suc (length ps.ins)) _ (λ l h. omega (arith, grown)) ps.labels
                g.labels;
          waiting =
              All_weaken (λ w. w.ip < length ps.ins) _ (λ w h. omega (arith, grown)) ps.branches
                g.waiting;
        };
        longer = omega (arith, grown);
      }

  -- A branch on a test.
  pub if-Grows :
      {ps : ParseState R} {a b : ParseState R} (c : Bool)
      → Grows ps a
      → Grows ps b
      → Grows ps (if c then a else b)
  if-Grows true x y = x
  if-Grows false x y = y

  pub label-Grows : (t : Token) → Keeps (compile_label t)
  unfolding compile_label
  label-Grows t ps g = if-Grows (is_empty (arg t 0)) (failed-Grows bad_label ps g) (record {
    good = record {
      begun = g.begun;
      targets = g.targets;
      labels = (omega arith, g.labels);
      waiting = g.waiting;
    };
    longer = omega arith;
  })

  pub print_unless_quiet-Grows : Keeps print_unless_quiet
  print_unless_quiet-Grows ps g =
      if-Grows ps.quiet (kept ps ps.toks ps.block_level ps.err ps.guards g)
        (push-Grows print ps tt g)

  -- A branch that waits, with its placeholder.
  pub branch-Grows : (t : Token) → Keeps (λ ps. push (branch 0) (compile_branch_target t ps))
  unfolding compile_branch_target
  branch-Grows t ps g =
      let pushed = push-Grows (branch 0) ps (omega arith) g in
      let good = pushed.good in
      let grown : length (ps.ins ++ branch 0 ∷ []) ≡ suc (length ps.ins) =
        length_snoc ps.ins (branch 0) in
      record {
        good = record {
          begun = good.begun;
          targets = good.targets;
          labels = good.labels;
          waiting =
              All_snoc (λ w. w.ip < length (ps.ins ++ branch 0 ∷ [])) ps.branches _ good.waiting
                (omega (arith, grown));
        };
        longer = pushed.longer;
      }

  -- An instruction in the place of another.
  pub set-Grows :
      (k : ℕ) (i : Instr R) (ps : ParseState R)
      → Targets (suc (length ps.ins)) i
      → IsGood ps
      → Grows ps (record ps { ins = set ps.ins k i })
  set-Grows k i ps t g =
      let same : length (set ps.ins k i) ≡ length ps.ins = length-set ps.ins k i in
      record {
        good = record {
          begun = omega (arith, same, g.begun);
          targets = rw same (All-set (Targets (suc (length ps.ins))) ps.ins k i g.targets t);
          labels = rw same g.labels;
          waiting = rw same g.waiting;
        };
        longer = omega (arith, same);
      }
