-- ===== src/Scp/Tests.antt =====
-- Runs of the two sides of the protocol, and the theorems at a small tree.
use gosutils.Prelude.{
  ℕ, ◌+◌, Bool, true, false, ◌≡◌, refl, ap, List, [], ◌∷◌, ◌++◌, if◌then◌else◌, none, some, ◌==◌,
  arith,
}
use gosutils.Prelude.Text.{Text, codes, contains_rune, text_eq}
use gosutils.Scp.Header.{header, octal, size_text}
use gosutils.Scp.Stream.{total, cut_line}
use gosutils.Scp.Send.{Node, file, dir, nil, cons, scp_to_client, scp_to_remote, already_closed}
use gosutils.Scp.Sink.{Host, Sink, Ended, finished, failed, end_of_file}
use gosutils.Scp.Serve.{scp_from_client, ends_in_slash}
use gosutils.Scp.Framed.{IsHeader, IsSendable, frames}
use gosutils.Scp.Placed.{IsUsual, IsNamed, place}
use gosutils.Scp.RoundTrip.{scp_from_client-to_remote}
use gosutils.Scp.Terminates.{scp_from_client-ends}
use gosutils.Scp.Stopped.{scp_to_client-stops}
use gosutils.Scp.RunOn.{scp_from_client-run_on}

-- What is in front of the last slash, and whether there is one.
abbrev cut_last : Text → Bool × Text
cut_last [] = (false, [])
cut_last (c ∷ cs) = let (found, p) = cut_last cs in if found then (true, c ∷ p) else (c == b'/', [])

cut_last-none : (n : Text) → contains_rune n b'/' ≡ false → cut_last n ≡ (false, [])
cut_last-none [] h = refl
cut_last-none (c ∷ n) h = ground (arith, cut_last-none n)

cut_last-append : (d n : Text) → contains_rune n b'/' ≡ false → cut_last (d ++ b'/' ∷ n) ≡ (true, d)
cut_last-append [] n h = ground (arith, cut_last-none n h)
cut_last-append (c ∷ d) n h = ground (arith, cut_last-append d n h)

-- A disk that keeps what it is given: paths, permissions and contents.
abbrev Entries : Type 0
Entries = List (Text × ℕ × Text)

abbrev change_mode : ℕ → Entries → Entries
change_mode m [] = []
change_mode m ((q, n, t) ∷ es) = (q, m, t) ∷ es

abbrev host : Host
host = record {
  Disk = Entries;
  join_path = λ d n. d ++ b'/' ∷ n;
  parent = λ p. (cut_last p).1;
  base = λ p. p;
  is_file = λ d p. false;
  is_writeable = λ d p. true;
  creates = λ d p. true;
  accepts = λ d p. true;
  install = λ p t d. some ((p, 0, t) ∷ d);
  chmod = λ p m d. change_mode m d;
  mkdir_all = λ p m d. some ((p, m, []) ∷ d);
}

usual : IsUsual host
usual = record {
  clean = λ d. d;
  parent-join_path = λ d n is_name. ap (λ r. r.1) (cut_last-append d n is_name.0);
  join_path-clean = λ d n. refl;
  clean-join_path = λ d n. refl;
  clean-clean = λ d. refl;
  creates_all = λ disk n. refl;
  accepts_all = λ disk b. refl;
}

abbrev open_pipe : ℕ → Bool
open_pipe n = true

abbrev first_file : Node
first_file = file (codes "a b") 420 true 5 (codes "he" ∷ codes "llo" ∷ [])

abbrev last_file : Node
last_file = file (codes "e") 384 true 0 []

abbrev tree : Node
tree = dir (codes "t") 493 true (cons first_file (cons last_file nil))

header_text : header b'C' 420 15 (codes "x") ≡ codes "C0644 15 x\n"
unfolding header
header_text = refl

placed : Entries
placed =
    (codes "d//t/e", 384, [])
    ∷ (codes "d//t/a b", 420, codes "hello")
    ∷ (codes "d//t", 493, [])
    ∷ []

tree-placed : place host (codes "d//t") tree [] ≡ some placed
unfolding place placed
tree-placed = refl

IsHeader-a : IsHeader 420 5 (codes "a")
unfolding octal size_text cut_line
IsHeader-a = (omega arith, omega arith, (refl, refl, refl), omega arith)

tree-IsSendable : IsSendable tree
unfolding IsSendable octal size_text cut_line total
tree-IsSendable = (
  (omega arith, omega arith, (refl, refl, refl), omega arith),
  refl,
  (
    ((omega arith, omega arith, (refl, refl, refl), omega arith), refl, refl, (refl, (refl, tt))),
    (((omega arith, omega arith, (refl, refl, refl), omega arith), refl, refl, tt), tt),
  ),
)

tree-IsNamed : IsNamed tree
unfolding IsNamed text_eq
tree-IsNamed = ((refl, refl, refl, refl), tt, ((refl, refl, refl, refl), tt, tt))

scp_from_client-to_remote_example :
    (bound : ℕ) × (s : Sink host) × ((more : ℕ)
      → scp_from_client host
          (bound + more)
          false
          (codes "d/")
          open_pipe
          (scp_to_remote {E = ℕ} none open_pipe true true true false (some tree)).1
          []
        ≡ some (finished, s))
    × (s.disk ≡ placed)
unfolding ends_in_slash text_eq
scp_from_client-to_remote_example =
    scp_from_client-to_remote host usual open_pipe (λ n. refl) none true false false (codes "d/")
      tree [] placed refl tree-IsSendable tree-IsNamed (refl, refl, refl, refl) tree-placed

scp_from_client-ends_example :
    (e : Ended) × (s : Sink host) × (scp_from_client host 7 true
        (codes "d")
        open_pipe
        (codes "\u{1}" ∷ codes "E\n" ∷ [])
        []
      ≡ some (e, s))
scp_from_client-ends_example =
    scp_from_client-ends host 7 true (codes "d") open_pipe (codes "\u{1}" ∷ codes "E\n" ∷ []) []
      (unfold total in omega arith)

scp_to_client-stops_example :
    (scp_to_client open_pipe true true false (some first_file)
      ≡ (some already_closed, frames first_file))
    × (scp_to_client open_pipe true true false (some tree)
        ≡ (some already_closed, header b'D' 493 0 (codes "t") ∷ frames first_file))
scp_to_client-stops_example =
    scp_to_client-stops open_pipe (λ n. refl) true true (codes "a b") (codes "t") 420 493 5
      (codes "he" ∷ codes "llo" ∷ []) (cons last_file nil) (refl, (refl, tt))

scp_from_client-run_on_example :
    (s : Sink host) × (scp_from_client host
        (0 + 2)
        false
        (codes "d/")
        open_pipe
        ((header b'C' 420 5 (codes "a") ++ codes "hello") ∷ (0 ∷ []) ∷ [])
        placed
      ≡ some (failed end_of_file, s))
    × (s.disk ≡ placed)
scp_from_client-run_on_example =
    scp_from_client-run_on host usual open_pipe (λ n. refl) false (codes "d/") (codes "a")
      (codes "hello") 420 5 0 ((0 ∷ []) ∷ []) placed IsHeader-a
      (unfold octal size_text in omega arith) (unfold total in omega arith) refl
