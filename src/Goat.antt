-- ===== src/Goat.antt =====
-- The commands to a modem of goat/goat.go. Serial models those over the serial line, Manager those over
-- ModemManager. The line, the commands of gonmmm and the shell act on a state that is a parameter, as
-- are sregexp, strconv.Atoi and os.Stat. How long a call waits is left out.
-- One Read gives at most 1024 bytes, and no more are read.
pub mod Answered
pub mod Configured
pub mod Listing
pub mod Manager
pub mod Serial
pub mod Silent
pub mod Tests
pub mod Trimmed
use gosutils.Prelude.{ℕ, zero, suc, Bool, List, [], ◌∷◌, Option, none, some, get_elem?}
use gosutils.Prelude.Int.{ℤ}
use gosutils.Prelude.Text.{Text}

-- `find_submatch pattern s` is FindStringSubmatch: nothing where there is no match, else the match and
-- its groups. Of a call that fails, only that it fails is kept.
pub record Host (S : Type 0) : Type 0 where
  pub find_submatch : Text → Text → List Text
  pub find_string : Text → Text → Text
  pub atoi : Text → Option ℤ
  pub exists : S → Text → Bool
  pub open_port : Text → S → Bool × S
  pub write_port : Text → S → Bool × S
  pub read_port : S → Option Text × S
  pub close_port : S → S
  pub mm_send : Text → S → Option Text × S
  pub mm_run : Text → S → Option Text × S
  pub shell : Text → S → Option Text × S

-- How a function ends: with a value and no error, with an error, or with a panic.
pub data Answer (A : Type 0) : Type 0 where
  answer : A → Answer A
  failed : Answer A
  panicked : Answer A

abbrev pub Action : Type 0 → Type 0 → Type 0
Action S A = S → Answer A × S

-- What goes on behind an answer.
abbrev pub then_do : {S A B : Type 0} → Answer A × S → (A → Action S B) → Answer B × S
then_do (answer a, s) f = f a s
then_do (failed, s) f = (failed, s)
then_do (panicked, s) f = (panicked, s)

-- `retregex[i]` where there is a match, and the error where there is none.
abbrev pub indexed : Option Text → Answer Text
indexed none = panicked
indexed (some t) = answer t

abbrev pub group_of : ℕ → List Text → Answer Text
group_of i [] = failed
group_of i (t ∷ ts) = indexed (get_elem? (t ∷ ts) i)
