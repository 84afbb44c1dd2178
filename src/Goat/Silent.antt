-- ===== src/Goat/Silent.antt =====
-- Commands over the serial line that report nothing of a failure, or never a value (goat/goat.go).
use gosutils.Prelude.{
  ◌≡◌, ◌≢◌, refl, Bool, true, false, List, [], ◌∷◌, Option, none, some, ◌⊎◌, inl, inr, ap,
}
use gosutils.Prelude.Int.{pos}
use gosutils.Prelude.Text.{Text, codes}
use gosutils.Goat.{Host, Answer, answer, failed, panicked, then_do, group_of}
use gosutils.Goat.Serial.{
  on_opened, on_read, on_written, send_at_command, get_tty_at, clean, apn_command, set_apn_round,
  set_apn_loop, set_apn, get_emei, get_network_signal_strength,
}

-- A pattern of one group: where it matches there is the match and the group.
abbrev pub HasGroup : (Text → Text → List Text) → Text → Type 0
HasGroup find_submatch pattern =
    (t : Text)
    → (find_submatch pattern t ≡ [])
      ⊎ ((m : Text) × (g : Text) × (find_submatch pattern t ≡ m ∷ g ∷ []))

-- A pattern without a group: where it matches there is only the match.
abbrev pub HasNoGroup : (Text → Text → List Text) → Text → Type 0
HasNoGroup find_submatch pattern =
    (t : Text) → (find_submatch pattern t ≡ []) ⊎ ((m : Text) × (find_submatch pattern t ≡ m ∷ []))

module _ {S : Type 0} (h : Host S) where
  group_of-HasGroup :
      (pattern t : Text)
      → HasGroup h.find_submatch pattern
      → group_of 1 (h.find_submatch pattern t) ≢ panicked
  group_of-HasGroup pattern t law = elim (law t) [
    | inl e ↦ rw e (λ x. cc)
    | inr (m, g, e) ↦ rw e (λ x. cc)
  ]

  -- What asking for the first group of a pattern without groups gives for what a command gave: a
  -- failure or a panic of the command passes on, and behind an answer there is the error where the
  -- pattern does not match, and a panic where it does.
  pub IsRefused : Text → Answer Text × S → Answer Text × S → Type 0
  IsRefused pattern (answer retstr, s) r =
      ((h.find_submatch pattern retstr ≡ []) × (r ≡ (failed, s)))
      ⊎ ((h.find_submatch pattern retstr ≢ []) × (r ≡ (panicked, s)))
  IsRefused pattern (failed, s) r = r ≡ (failed, s)
  IsRefused pattern (panicked, s) r = r ≡ (panicked, s)

  module _ (groups : HasGroup h.find_submatch (codes "((?s:.*))OK")) where
    on_read-panic : (r : Option Text × S) → (on_read h false r).0 ≢ panicked
    on_read-panic (none, s) = λ x. cc
    on_read-panic (some t, s) = group_of-HasGroup (codes "((?s:.*))OK") (clean t) groups

    on_written-panic : (r : Bool × S) → (on_written h false r).0 ≢ panicked
    on_written-panic (false, s) = λ x. cc
    on_written-panic (true, s) = on_read-panic (h.read_port s)

    on_opened-panic : (cmd : Text) (r : Bool × S) → (on_opened h false cmd r).0 ≢ panicked
    on_opened-panic cmd (false, s) = λ x. cc
    on_opened-panic cmd (true, s) = on_written-panic (h.write_port cmd s)

    send_at_command-panic :
        (dev cmd : Text) (s : S) → (send_at_command h false dev cmd s).0 ≢ panicked
    unfolding send_at_command get_tty_at
    send_at_command-panic dev cmd s = on_opened-panic cmd (h.open_port dev s)

    round_kept :
        (retstr : Text) (r : Answer Text × S)
        → r.0 ≢ panicked
        → set_apn_round h false retstr false r ≡ (answer (retstr, false), r.1)
    round_kept retstr (answer ret, s) ok = refl
    round_kept retstr (failed, s) ok = refl
    round_kept retstr (panicked, s) ok = absurd (ok refl)

    -- SetApn, which sends its two commands whatever the first one gives, reports no error and no
    -- text, whether the line opens and whatever the modem answers. It is assumed that ConfigAutoPort
    -- is not on, and that the pattern of SendAtCommand gives its group where it matches.
    pub set_apn-silent :
        (dev apn : Text) (s : S)
        → set_apn h false dev apn s ≡ (
          answer [],
          (send_at_command h false dev
              (apn_command h false (pos 1) apn)
              (send_at_command h false dev (apn_command h false (pos 0) apn) s).1).1,
        )
    unfolding set_apn set_apn_loop
    set_apn-silent dev apn s =
        let first = send_at_command h false dev (apn_command h false (pos 0) apn) s in
        let second = send_at_command h false dev (apn_command h false (pos 1) apn) first.1 in
        rw
          (
            round_kept [] first (send_at_command-panic dev (apn_command h false (pos 0) apn) s),
            round_kept [] second
                (send_at_command-panic dev (apn_command h false (pos 1) apn) first.1),
          )
          refl

  group_behind :
      (pattern : Text) (r : Answer Text × S)
      → HasNoGroup h.find_submatch pattern
      → IsRefused pattern r
          (then_do r (λ retstr s1. (group_of 1 (h.find_submatch pattern retstr), s1)))
  unfolding IsRefused
  group_behind pattern (answer retstr, s) law = elim (law retstr) [
    | inl e ↦ inl (e, ap (λ g. (group_of 1 g, s)) e)
    | inr (m, e) ↦ inr (λ none. absurd (cc), ap (λ g. (group_of 1 g, s)) e)
  ]
  group_behind pattern (failed, s) law = refl
  group_behind pattern (panicked, s) law = refl

  -- GetNetworkSignalStrength and GetEMEI never return a value: they ask for the first group of a
  -- pattern that has none. What their command AT+CSQ or AT+CGSN gives decides: its error or panic is
  -- theirs, and behind its answer they give an error where the pattern does not match and panic where
  -- it does. It is assumed that FindStringSubmatch gives only the match for a pattern without a group.
  pub get_network_signal_strength-none :
      (find_at_port : Bool) (dev : Text) (s : S)
      → HasNoGroup h.find_submatch (codes "[0-9]+")
      → HasNoGroup h.find_submatch (codes "[^\\s]+$")
      → IsRefused
          (codes "[0-9]+")
          (send_at_command h find_at_port dev (codes "AT+CSQ\r") s)
          (get_network_signal_strength h find_at_port dev s)
        × IsRefused
            (codes "[^\\s]+$")
            (send_at_command h find_at_port dev (codes "AT+CGSN\r") s)
            (get_emei h find_at_port dev s)
  unfolding get_network_signal_strength get_emei
  get_network_signal_strength-none find_at_port dev s digits words = (
    group_behind (codes "[0-9]+") (send_at_command h find_at_port dev (codes "AT+CSQ\r") s) digits,
    group_behind (codes "[^\\s]+$") (send_at_command h find_at_port dev (codes "AT+CGSN\r") s)
        words,
  )
