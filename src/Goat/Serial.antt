-- ===== src/Goat/Serial.antt =====
-- goat/goat.go: the commands over the serial line. `find_at_port` is the variable of ConfigAutoPort.
use gosutils.Prelude.{
  ℕ, Bool, true, false, ◌&&◌, ◌||◌, not, List, [], ◌∷◌, ◌++◌, ◌==◌, if◌then◌else◌, Option, none,
  some, get_elem?,
}
use gosutils.Prelude.Int.{ℤ, pos, ◌-ℤ◌}
use gosutils.Prelude.Text.{Text, codes, is_empty}
use gosutils.Sutils.Nginx.{trim_space}
use gosutils.Sutils.Paths.{split_paths}
use gosutils.Sutils.Token.{format_int}
use gosutils.Goat.{Host, Answer, answer, failed, panicked, Action, then_do, group_of}

-- strings.Replace of a separator of two characters by one, everywhere.
unfoldable pub replace_pair : ℕ → ℕ → ℕ → Text → Text
replace_pair a b new [] = []
replace_pair a b new (x ∷ []) = x ∷ []
replace_pair a b new (x ∷ y ∷ ys) =
    let skipped = replace_pair a b new ys in
    let kept = replace_pair a b new (y ∷ ys) in if x == a && y == b then new ∷ skipped else x ∷ kept

-- strings.TrimPrefix and TrimSuffix of a line end.
abbrev pub trim_prefix : Text → Text
trim_prefix [] = []
trim_prefix (c ∷ cs) = if c == b'\n' then cs else c ∷ cs

unfoldable pub trim_suffix : Text → Text
trim_suffix [] = []
trim_suffix (c ∷ []) = if c == b'\n' then [] else c ∷ []
trim_suffix (c ∷ d ∷ ds) = c ∷ trim_suffix (d ∷ ds)

unfoldable pub clean : Text → Text
unfolding replace_pair trim_suffix
clean s =
    trim_prefix (trim_suffix (replace_pair b'\n' b'\n' b'\n' (replace_pair b'\r' b'\n' b'\n' s)))

-- strings.Trim of one character, of both ends.
unfoldable pub trim_front : ℕ → Text → Text
trim_front c [] = []
trim_front c (x ∷ xs) = let rest = trim_front c xs in if x == c then rest else x ∷ xs

unfoldable pub trim_back : ℕ → Text → Text
trim_back c [] = []
trim_back c (x ∷ xs) = let rest = trim_back c xs in if x == c && is_empty rest then [] else x ∷ rest

-- `StringTrimLeftRightNewlineSpace` of sutils/sutils.go.
unfoldable pub trim_newline_space : Text → Text
unfolding trim_space trim_front trim_back
trim_newline_space input =
    trim_back b'\r' (trim_front b'\r' (trim_back b'\n' (trim_front b'\n' (trim_space input))))

-- strings.Replace of a quote by nothing.
unfoldable pub without_quotes : Text → Text
without_quotes [] = []
without_quotes (c ∷ cs) = let rest = without_quotes cs in if c == b'"' then rest else c ∷ rest

-- What goes on behind a call whose results are dropped.
abbrev pub ignoring : {S A B : Type 0} → Answer A × S → Action S B → Answer B × S
ignoring (panicked, s) f = (panicked, s)
ignoring (_, s) f = f s

abbrev pub or_zero : Option ℤ → ℤ
or_zero none = pos 0
or_zero (some i) = i

module _ {S : Type 0} (h : Host S) (find_at_port : Bool) where
  open h use {
    find_submatch, find_string, atoi, exists, open_port, write_port, read_port, close_port,
  }

  -- The device two numbers below, for the groups of its name and its number.
  abbrev pub below : Text → Option Text → Option Text → S → Answer Text
  below dev none number s = panicked
  below dev (some name) none s = panicked
  below dev (some name) (some number) s =
      let atpath = name ++ format_int (or_zero (atoi number) -ℤ pos 2) in
      answer (if exists s atpath then atpath else dev)

  unfoldable pub get_tty_at : Text → Action S Text
  unfolding format_int ◌-ℤ◌
  get_tty_at dev s =
      let retregex = find_submatch (codes "(^.+)([0-9]+)$") dev in
      if not find_at_port || is_empty retregex
      then (answer dev, s)
      else (below dev (get_elem? retregex 1) (get_elem? retregex 2) s, s)

  abbrev pub on_read : Option Text × S → Answer Text × S
  on_read (none, s) = (failed, s)
  on_read (some buf, s) = (group_of 1 (find_submatch (codes "((?s:.*))OK") (clean buf)), s)

  abbrev pub on_written : Bool × S → Answer Text × S
  on_written (false, s) = (failed, s)
  on_written (true, s) = on_read (read_port s)

  abbrev pub close : Answer Text × S → Answer Text × S
  close (a, s) = (a, close_port s)

  abbrev pub on_opened : Text → Bool × S → Answer Text × S
  on_opened cmd (false, s) = (failed, s)
  on_opened cmd (true, s) = close (on_written (write_port cmd s))

  unfoldable pub send_at_command : Text → Text → Action S Text
  unfolding get_tty_at clean
  send_at_command dev cmd s =
      then_do (get_tty_at dev s) λ devat s1. on_opened cmd (open_port devat s1)

  -- `PDPdEL`, whose errors are dropped.
  unfoldable pub pdp_del : Text → List ℤ → Action S Unit
  unfolding send_at_command
  pdp_del dev [] s = (answer tt, s)
  pdp_del dev (v ∷ indexs) s =
      ignoring (send_at_command dev (codes "AT+CGDCONT=" ++ format_int v ++ b'\r' ∷ []) s)
        λ s1. pdp_del dev indexs s1

  unfoldable pub init_modem : Text → Action S Text
  unfolding send_at_command
  init_modem dev = send_at_command dev (codes "AT+CFUN=1\r")

  unfoldable pub ate1 : Text → Action S Text
  unfolding send_at_command
  ate1 dev = send_at_command dev (codes "ATE1\r")

  unfoldable pub ate0 : Text → Action S Text
  unfolding send_at_command
  ate0 dev = send_at_command dev (codes "ATE0\r")

  abbrev pub apn_command : ℤ → Text → Text
  apn_command i apn =
      codes "AT+CGDCONT=" ++ format_int i ++ codes ",\"IP\",\"" ++ apn ++ codes "\"\r"

  -- One round of SetApn: `err` says whether an error is set, which the round asks before its own.
  abbrev pub set_apn_round : Text → Bool → Answer Text × S → Answer (Text × Bool) × S
  set_apn_round retstr err (panicked, s) = (panicked, s)
  set_apn_round retstr err (answer ret, s) =
      (answer (if err then (retstr ++ ret, false) else (retstr, err)), s)
  set_apn_round retstr err (failed, s) = (answer (if err then (retstr, true) else (retstr, err)), s)

  unfoldable pub set_apn_loop : Text → Text → List ℤ → Text × Bool → Action S Text
  unfolding send_at_command
  set_apn_loop dev apn [] (retstr, err) s = (if err then failed else answer retstr, s)
  set_apn_loop dev apn (i ∷ is) (retstr, err) s =
      then_do (set_apn_round retstr err (send_at_command dev (apn_command i apn) s))
        λ r s1. set_apn_loop dev apn is r s1

  unfoldable pub set_apn : Text → Text → Action S Text
  unfolding set_apn_loop
  set_apn dev apn s = set_apn_loop dev apn (pos 0 ∷ pos 1 ∷ []) ([], false) s

  -- What the loop of GetPDP does with the first and the third field of a line.
  abbrev pub delete_index : Text → Option ℤ → Action S Unit
  delete_index dev none s = (answer tt, s)
  delete_index dev (some id) s = pdp_del dev (id ∷ []) s

  abbrev pub on_apn : Text → Text → Text → List Text → Action S (List Text)
  on_apn dev first [] pdps s =
      let index = find_string (codes "[0-9]+") first in
      if is_empty index
      then (answer pdps, s)
      else then_do (delete_index dev (atoi index) s) λ _ s1. (answer pdps, s1)
  on_apn dev first (c ∷ cs) pdps s = (answer (pdps ++ without_quotes (c ∷ cs) ∷ []), s)

  -- A line of six fields or more.
  abbrev pub on_fields : Text → List Text → List Text → Action S (List Text)
  on_fields dev (first ∷ kind ∷ apn ∷ a ∷ b ∷ c ∷ rest) pdps s = on_apn dev first apn pdps s
  on_fields dev _ pdps s = (answer pdps, s)

  unfoldable pub get_pdp_loop : Text → List Text → List Text → Action S (List Text)
  unfolding split_paths without_quotes pdp_del
  get_pdp_loop dev [] pdps s = (answer pdps, s)
  get_pdp_loop dev (line ∷ split) pdps s =
      then_do (on_fields dev (split_paths b',' line) pdps s)
        λ pdps' s1. get_pdp_loop dev split pdps' s1

  unfoldable pub get_pdp : Text → Action S (List Text)
  unfolding get_pdp_loop trim_newline_space split_paths send_at_command
  get_pdp dev s =
      then_do (send_at_command dev (codes "AT+CGDCONT?\r") s)
        λ tmpstring s1. get_pdp_loop dev (split_paths b'\n' (trim_newline_space tmpstring)) [] s1

  -- A command, and the first group of a pattern in what it answers.
  abbrev pub asked : Text → Text → Text → Action S Text
  asked dev cmd pattern s =
      then_do (send_at_command dev cmd s)
        λ retstr s1. (group_of 1 (find_submatch pattern retstr), s1)

  unfoldable pub get_sim_number : Text → Action S Text
  unfolding send_at_command
  get_sim_number dev = asked dev (codes "AT+CNUM\r") (codes ",\"(.+)\",")

  unfoldable pub get_list_network : Text → Action S Text
  unfolding send_at_command
  get_list_network dev = asked dev (codes "AT+COPS=?\r") (codes "\\+COPS:\\s+(.+)")

  unfoldable pub get_current_operator : Text → Action S Text
  unfolding send_at_command
  get_current_operator dev = asked dev (codes "AT+COPS?\r") (codes "\\+COPS:\\s+(.+)")

  unfoldable pub get_emei : Text → Action S Text
  unfolding send_at_command
  get_emei dev = asked dev (codes "AT+CGSN\r") (codes "[^\\s]+$")

  unfoldable pub get_network_signal_strength : Text → Action S Text
  unfolding send_at_command
  get_network_signal_strength dev = asked dev (codes "AT+CSQ\r") (codes "[0-9]+")
