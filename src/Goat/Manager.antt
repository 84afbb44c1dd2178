-- ===== src/Goat/Manager.antt =====
-- goat/goat.go: the commands over ModemManager. MMSendAtCommand and MMRunCommand of gonmmm and
-- ExecCommandShell are `mm_send`, `mm_run` and `shell` of the host; `order` is the order in which a range
-- goes through a map.
use gosutils.Prelude.{
  ℕ, ◌+◌, Bool, true, false, List, [], ◌∷◌, ◌++◌, ◌==◌, if◌then◌else◌, Option, none, some,
  get_elem?,
}
use gosutils.Prelude.Int.{ℤ}
use gosutils.Prelude.Text.{Text, codes, is_empty, text_eq}
use gosutils.Sutils.Lines.{string2lines}
use gosutils.Sutils.Token.{format_int}
use gosutils.Goat.{Host, Answer, answer, failed, panicked, Action, then_do, group_of}
use gosutils.Goat.Serial.{trim_newline_space}

-- The contexts by their index: the kind and the name.
abbrev pub Pdps : Type 0
Pdps = List (Text × (Text × Text))

-- A write into a map.
unfoldable pub put : Text → Text × Text → Pdps → Pdps
unfolding text_eq
put k v [] = (k, v) ∷ []
put k v ((j, w) ∷ pdps) =
    let rest = put k v pdps in if text_eq j k then (k, v) ∷ pdps else (j, w) ∷ rest

-- What ends a function with an error, or goes on with the text of a command.
abbrev pub of_command : {S : Type 0} → Option Text × S → Answer Text × S
of_command (none, s) = (failed, s)
of_command (some t, s) = (answer t, s)

abbrev pub pdp_pattern : Text
pdp_pattern = codes "\\+CGDCONT:\\s+([0-9]+),\"([^\"]+)\",\"([^\"]+)\""

abbrev pub stats_script : Text
stats_script =
    codes "index=$(mmcli -L | grep -oPe 'org[^\\s]+' | grep -Poe '[0-9]+$')\n"
    ++ codes "\t[[ $index ]] && mmcli -m ${index}\n\t"

module _ {S : Type 0} (h : Host S) (order : Pdps → Pdps) where
  open h use {find_submatch, mm_send, mm_run, shell}

  -- The groups of a line of the answer.
  abbrev pub put_groups : Option Text → Option Text → Option Text → Pdps → Answer Pdps
  put_groups (some index) (some kind) (some apn) pdps = answer (put index (kind, apn) pdps)
  put_groups _ _ _ pdps = panicked

  abbrev pub on_line : List Text → Pdps → Answer Pdps
  on_line [] pdps = answer pdps
  on_line (m ∷ groups) pdps =
      put_groups (get_elem? groups 0) (get_elem? groups 1) (get_elem? groups 2) pdps

  unfoldable pub mm_get_pdp_loop : List Text → Pdps → Action S Pdps
  unfolding put
  mm_get_pdp_loop [] pdps s = (answer pdps, s)
  mm_get_pdp_loop (pdp ∷ lines) pdps s =
      then_do (on_line (find_submatch pdp_pattern pdp) pdps, s)
        λ pdps' s1. mm_get_pdp_loop lines pdps' s1

  unfoldable pub mm_get_pdp : Action S Pdps
  unfolding mm_get_pdp_loop string2lines trim_newline_space
  mm_get_pdp s =
      then_do (of_command (mm_send (codes "+CGDCONT?") s))
        λ tmpstring s1. mm_get_pdp_loop (string2lines (trim_newline_space tmpstring)) [] s1

  -- `MMPDPdEL`: the indices whose command fails.
  unfoldable pub mm_pdp_del : List ℤ → S → List ℤ × S
  unfolding format_int
  mm_pdp_del [] s = ([], s)
  mm_pdp_del (v ∷ indexs) s =
      let (sent, s1) = mm_send (codes "+CGDCONT=" ++ format_int v) s in
      let (errindex, s2) = mm_pdp_del indexs s1 in
      (elim sent [ none ↦ v ∷ errindex | some t ↦ errindex ], s2)

  unfoldable pub mm_pdp_del_all_loop : Pdps → Bool → S → Bool × S
  mm_pdp_del_all_loop [] flag s = (flag, s)
  mm_pdp_del_all_loop ((k, v) ∷ pdps) flag s =
      let (sent, s1) = mm_send (codes "+CGDCONT=" ++ k) s in
      mm_pdp_del_all_loop pdps (elim sent [ none ↦ false | some t ↦ flag ]) s1

  -- `MMPDPDelAll`, where an error of MMGetPDP is dropped.
  abbrev pub del_listed : Answer Pdps × S → Answer Bool × S
  del_listed (answer pdps, s) =
      let (flag, s1) = mm_pdp_del_all_loop (order pdps) true s in (answer flag, s1)
  del_listed (failed, s) = (answer true, s)
  del_listed (panicked, s) = (panicked, s)

  unfoldable pub mm_pdp_del_all : Action S Bool
  unfolding mm_pdp_del_all_loop mm_get_pdp
  mm_pdp_del_all s = del_listed (mm_get_pdp s)

  -- The loop of `MMPDPIsConfigured`, which stops at the third context of the name.
  unfoldable pub configured_loop : Text → Pdps → ℕ → Bool
  unfolding text_eq
  configured_loop apn [] cnt = false
  configured_loop apn ((k, (kind, name)) ∷ pdps) cnt =
      let same = configured_loop apn pdps (cnt + 1) in
      let rest = configured_loop apn pdps cnt in
      if text_eq name apn then (if cnt + 1 == 3 then true else same) else rest

  abbrev pub is_configured : Text → Answer Pdps × S → Answer Bool × S
  is_configured apn (answer pdps, s) =
      (answer (if is_empty pdps then false else configured_loop apn (order pdps) 0), s)
  is_configured apn (failed, s) = (answer false, s)
  is_configured apn (panicked, s) = (panicked, s)

  unfoldable pub mm_pdp_is_configured : Text → Action S Bool
  unfolding configured_loop mm_get_pdp
  mm_pdp_is_configured apn s = is_configured apn (mm_get_pdp s)

  -- The functions that pass a command on: whether it failed, or its text.
  abbrev pub without_text : Option Text × S → Bool × S
  without_text (none, s) = (true, s)
  without_text (some t, s) = (false, s)

  unfoldable pub mm_create_bearer : Text → Text → Text → S → Bool × S
  mm_create_bearer apn username password s = without_text (
      mm_run
        (codes "--create-bearer='apn="
          ++ apn
          ++ codes ",user="
          ++ username
          ++ codes ",password="
          ++ password
          ++ codes "'")
        s)

  unfoldable pub mm_delete_bearer : Text → S → Bool × S
  mm_delete_bearer bindex s = without_text (mm_run (codes "--delete-bearer=" ++ bindex) s)

  unfoldable pub mm_config_operator : Text → Action S Text
  mm_config_operator mccmnc s =
      let number = if is_empty mccmnc then codes "44010" else mccmnc in
      of_command (mm_run (codes "--3gpp-register-in-operator=" ++ number) s)

  -- `MMResetGSM`: true where the command fails.
  unfoldable pub mm_reset_gsm : S → Bool × S
  mm_reset_gsm s = without_text (mm_run (codes "-r") s)

  abbrev pub or_empty : Option Text × S → Text × S
  or_empty (none, s) = ([], s)
  or_empty (some t, s) = (t, s)

  unfoldable pub mm_stats_gsm : S → Text × S
  mm_stats_gsm s = or_empty (shell stats_script s)

  -- The first group of a pattern in the report of mmcli.
  abbrev pub in_stats : Text → Text × S → Answer Text × S
  in_stats pattern (stats, s) = (group_of 1 (find_submatch pattern stats), s)

  unfoldable pub mm_get_current_operator : Action S Text
  unfolding mm_stats_gsm
  mm_get_current_operator s = in_stats (codes "operator name:\\s+(.+)$") (mm_stats_gsm s)

  unfoldable pub mm_get_emei : Action S Text
  unfolding mm_stats_gsm
  mm_get_emei s = in_stats (codes "imei:\\s+(.+)$") (mm_stats_gsm s)

  -- The two that give an empty text in place of an error.
  abbrev pub or_nothing : Answer Text × S → Answer Text × S
  or_nothing (failed, s) = (answer [], s)
  or_nothing (a, s) = (a, s)

  unfoldable pub mm_get_sim_number : Action S Text
  unfolding mm_stats_gsm
  mm_get_sim_number s = or_nothing (in_stats (codes "(?:Numbers.+ )(\\+?[0-9]+)") (mm_stats_gsm s))

  unfoldable pub mm_get_network_signal_strength : Action S Text
  unfolding mm_stats_gsm
  mm_get_network_signal_strength s =
      or_nothing (in_stats (codes "signal quality:\\s+([0-9]+)") (mm_stats_gsm s))
