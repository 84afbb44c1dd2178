-- ===== src/Goat/Tests.antt =====
-- Runs on a modem that opens, takes what is written and gives the same bytes at each Read.
use mathlib.Core.List.Permᴰ
use gosutils.Prelude.{
  ◌-◌, ◌≡◌, refl, Bool, true, false, List, [], ◌∷◌, ◌++◌, none, some, length, length-append, take,
  take-append, leb, ◌&&◌, if◌then◌else◌, arith, inl, inr, ◌⊎◌, Bool-cases,
}
use gosutils.Prelude.Int.{pos}
use gosutils.Prelude.Text.{Text, codes, text_eq, is_empty}
use gosutils.Goat.{Host, answer, panicked}
use gosutils.Goat.Answered.{response}
use gosutils.Goat.Serial.{
  apn_command, set_apn, get_pdp, send_at_command, get_network_signal_strength, get_emei,
}
use gosutils.Goat.Manager.{pdp_pattern, mm_get_pdp, mm_pdp_is_configured, mm_reset_gsm}
use gosutils.Goat.Silent.{
  HasGroup, HasNoGroup, IsRefused, set_apn-silent, get_network_signal_strength-none,
}
use gosutils.Goat.Listing.{Context, line_of, get_pdp-apns}
use gosutils.Goat.Configured.{named, mm_pdp_is_configured-named}

abbrev ok_pattern : Text
ok_pattern = codes "((?s:.*))OK"

unfoldable numbers : Text → Text
numbers [] = []
numbers (c ∷ cs) = let rest = numbers cs in if leb b'0' c && leb c b'9' then c ∷ rest else rest

abbrev before_ok : Text → List Text
before_ok s = if leb 2 (length s) then s ∷ take (length s - 2) s ∷ [] else []

abbrev as_match : Text → List Text
as_match t = if is_empty t then [] else t ∷ []

-- The matches_of of this file's patterns on texts that end with OK, have one number, and lines of a list.
unfoldable matches_of : Text → Text → List Text
unfolding text_eq numbers
matches_of pattern s =
    if text_eq pattern ok_pattern
    then before_ok s
    else if text_eq pattern pdp_pattern
    then s ∷ s ∷ codes "IP" ∷ codes "net" ∷ []
    else as_match (numbers s)

unfoldable modem : Bool → Text → Host (List Text)
unfolding matches_of
modem opens bytes = record {
  find_submatch = matches_of;
  find_string = λ pattern s. numbers s;
  atoi = λ t. none;
  exists = λ s t. false;
  open_port = λ dev s. (opens, s);
  write_port = λ cmd s. (true, s ++ cmd ∷ []);
  read_port = λ s. (some bytes, s);
  close_port = λ s. s;
  mm_send = λ cmd s. (some (codes "1\n2\n3\n"), s ++ cmd ∷ []);
  mm_run = λ cmd s. (none, s);
  shell = λ cmd s. (none, s);
}

one_match : (t : Text) → (as_match t ≡ []) ⊎ ((m : Text) × (as_match t ≡ m ∷ []))
one_match [] = inl refl
one_match (c ∷ cs) = inr (c ∷ cs, refl)

with_group :
    (t : Text) → (before_ok t ≡ []) ⊎ ((m : Text) × (g : Text) × (before_ok t ≡ m ∷ g ∷ []))
with_group t = elim (Bool-cases (leb 2 (length t))) [
  | inl long ↦ inr (t, take (length t - 2) t, rw long refl)
  | inr short ↦ inl (rw short refl)
]

before_ok-append : (t : Text) → before_ok (t ++ codes "OK") ≡ (t ++ codes "OK") ∷ t ∷ []
before_ok-append t =
    let l = length-append t (codes "OK") in
    let long : leb 2 (length (t ++ codes "OK")) ≡ true = ground (arith, l) in
    let n : length (t ++ codes "OK") - 2 ≡ length t = omega (arith, l) in
    rw (long, n, take-append t (codes "OK")) refl

has_group : HasGroup matches_of ok_pattern
unfolding matches_of text_eq
has_group t = with_group t

no_digits : HasNoGroup matches_of (codes "[0-9]+")
unfolding matches_of text_eq
no_digits t = one_match (numbers t)

no_words : HasNoGroup matches_of (codes "[^\\s]+$")
unfolding matches_of text_eq
no_words t = one_match (numbers t)

-- SetApn on a line that does not open.
set_apn-silent_example : set_apn (modem false []) false (codes "tty") (codes "net") [] ≡ (
  answer [],
  (send_at_command
      (modem false [])
      false
      (codes "tty")
      (apn_command (modem false []) false (pos 1) (codes "net"))
      (send_at_command
        (modem false [])
        false
        (codes "tty")
        (apn_command (modem false []) false (pos 0) (codes "net"))
        []).1).1,
)
unfolding modem
set_apn-silent_example = set_apn-silent (modem false []) has_group (codes "tty") (codes "net") []

abbrev signal : Text
signal = codes "\r\n+CSQ: 15\r\n\r\nOK\r\n"

signal_panics :
    (get_network_signal_strength (modem true signal) false (codes "tty") []).0 ≡ panicked
unfolding get_network_signal_strength modem text_eq
signal_panics = refl

get_network_signal_strength-none_example :
    IsRefused
      (modem true signal)
      (codes "[0-9]+")
      (send_at_command (modem true signal) false (codes "tty") (codes "AT+CSQ\r") [])
      (get_network_signal_strength (modem true signal) false (codes "tty") [])
    × IsRefused
        (modem true signal)
        (codes "[^\\s]+$")
        (send_at_command (modem true signal) false (codes "tty") (codes "AT+CGSN\r") [])
        (get_emei (modem true signal) false (codes "tty") [])
unfolding modem
get_network_signal_strength-none_example =
    get_network_signal_strength-none (modem true signal) false (codes "tty") [] no_digits no_words

abbrev plain_context : Context
plain_context = record { index = codes "0"; kind = codes "IP"; apn = codes "net"; address = [] }

abbrev empty_context : Context
empty_context = record { index = codes "1"; kind = codes "IP"; apn = []; address = [] }

greedy : (t : Text) → matches_of ok_pattern (t ++ codes "OK") ≡ (t ++ codes "OK") ∷ t ∷ []
unfolding matches_of text_eq
greedy t = before_ok-append t

get_pdp-apns_example :
    get_pdp
      (modem true (response (line_of plain_context ∷ line_of empty_context ∷ [])))
      false
      (codes "tty")
      []
    ≡ (answer (codes "net" ∷ [] ∷ []), codes "AT+CGDCONT?\r" ∷ [])
unfolding modem
get_pdp-apns_example =
    get_pdp-apns (modem true (response (line_of plain_context ∷ line_of empty_context ∷ [])))
      (codes "tty") plain_context (empty_context ∷ []) [] [] (codes "AT+CGDCONT?\r" ∷ [])
      (codes "AT+CGDCONT?\r" ∷ []) greedy (omega arith) refl refl refl

abbrev three : List (Text × (Text × Text))
three =
    (codes "1", (codes "IP", codes "net"))
    ∷ (codes "2", (codes "IP", codes "net"))
    ∷ (codes "3", (codes "IP", codes "net"))
    ∷ []

listed : mm_get_pdp (modem true []) (λ l. l) [] ≡ (answer three, codes "+CGDCONT?" ∷ [])
unfolding mm_get_pdp modem text_eq
listed = refl

mm_pdp_is_configured-named_example :
    mm_pdp_is_configured (modem true []) (λ l. l) (codes "net") []
    ≡ (answer (leb 3 (named (codes "net") three)), codes "+CGDCONT?" ∷ [])
mm_pdp_is_configured-named_example =
    mm_pdp_is_configured-named (modem true []) (λ l. l) (codes "net") three []
      (codes "+CGDCONT?" ∷ []) listed (Permᴰ.refl three)

-- A reset that fails gives true.
reset_failed : (mm_reset_gsm (modem true []) (λ l. l) []).0 ≡ true
unfolding mm_reset_gsm modem
reset_failed = refl
