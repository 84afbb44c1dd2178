-- ===== src/Goat/Listing.antt =====
-- What GetPDP makes of the list of contexts that a modem answers (goat/goat.go).
use gosutils.Prelude.{
  ℕ, ◌≡◌, ◌≢◌, refl, sym, ap, ◌∙◌, arith, true, false, List, [], ◌∷◌, ◌++◌, map, some, append_assoc,
  append-nil,
}
use gosutils.Prelude.Text.{Text, codes, All, HasNo, HasNo-append}
use gosutils.Sutils.Inserted.{unlines}
use gosutils.Sutils.Paths.{split_paths}
use gosutils.Sutils.Removed.{split_paths-sep}
use gosutils.Goat.{Host, answer, then_do}
use gosutils.Goat.Answered.{response, IsPlain, clean-response}
use gosutils.Goat.Trimmed.{IsClosed, IsOpened, IsClosed-append, split-trimmed}
use gosutils.Goat.Serial.{
  trim_newline_space, without_quotes, send_at_command, get_tty_at, on_fields, get_pdp_loop, get_pdp,
}

-- A context of the modem, and the line that it prints for it.
pub record Context : Type 0 where
  pub index : Text
  pub kind : Text
  pub apn : Text
  pub address : Text

abbrev quoted : Text → Text
quoted s = b'"' ∷ s ++ b'"' ∷ []

unfoldable pub line_of : Context → Text
line_of c =
    (codes "+CGDCONT: " ++ c.index)
    ++ b','
      ∷ (quoted c.kind
          ++ b',' ∷ (quoted c.apn ++ b',' ∷ (quoted c.address ++ b',' ∷ codes "0,0,0,0,0,0")))

-- What stands in a field: no comma, line end or quote.
abbrev pub IsField : Text → Type 0
IsField t = HasNo b',' t × HasNo b'\n' t × HasNo b'\r' t × HasNo b'"' t

abbrev pub IsContext : Context → Type 0
IsContext c = IsField c.index × IsField c.kind × IsField c.apn × IsField c.address

HasNo-quoted : (d : ℕ) (s : Text) → b'"' ≢ d → HasNo d s → HasNo d (quoted s)
HasNo-quoted d s ne h = (ne, HasNo-append d s (b'"' ∷ []) h (ne, tt))

without_quotes-append :
    (s t : Text) → HasNo b'"' s → without_quotes (s ++ t) ≡ s ++ without_quotes t
unfolding without_quotes
without_quotes-append [] t h = refl
without_quotes-append (c ∷ s) t h = ground (arith, without_quotes-append s t h.1)

without_quotes-quoted : (s : Text) → HasNo b'"' s → without_quotes (quoted s) ≡ s
unfolding without_quotes
without_quotes-quoted s h = without_quotes-append s (b'"' ∷ []) h ∙ append-nil s

split-line_of :
    (c : Context)
    → IsContext c
    → split_paths b',' (line_of c)
      ≡ (codes "+CGDCONT: " ++ c.index)
        ∷ quoted c.kind
        ∷ quoted c.apn
        ∷ quoted c.address
        ∷ split_paths b',' (codes "0,0,0,0,0,0")
unfolding line_of
split-line_of c h =
    split_paths-sep b',' (codes "+CGDCONT: " ++ c.index) _
      (HasNo-append b',' (codes "+CGDCONT: ") c.index (omega arith) h.0.0)
    ∙ ap (λ t. (codes "+CGDCONT: " ++ c.index) ∷ t)
        (split_paths-sep b',' (quoted c.kind) _ (HasNo-quoted b',' c.kind (omega arith) h.1.0)
          ∙ ap (λ t. quoted c.kind ∷ t)
              (split_paths-sep b',' (quoted c.apn) _ (HasNo-quoted b',' c.apn (omega arith) h.2.0)
                ∙ ap (λ t. quoted c.apn ∷ t)
                    (split_paths-sep b',' (quoted c.address) _
                      (HasNo-quoted b',' c.address (omega arith) h.3.0))))

line_of-HasNo :
    (d : ℕ) (c : Context)
    → HasNo d (codes "+CGDCONT: ")
    → HasNo d (codes ",0,0,0,0,0,0")
    → b'"' ≢ d
    → HasNo d c.index
    → HasNo d c.kind
    → HasNo d c.apn
    → HasNo d c.address
    → HasNo d (line_of c)
unfolding line_of
line_of-HasNo d c front back quote index kind apn address =
    HasNo-append d (codes "+CGDCONT: " ++ c.index) _
      (HasNo-append d (codes "+CGDCONT: ") c.index front index)
      (
        back.0,
        HasNo-append d (quoted c.kind) _ (HasNo-quoted d c.kind quote kind) (
          back.0,
          HasNo-append d (quoted c.apn) _ (HasNo-quoted d c.apn quote apn) (
            back.0,
            HasNo-append d (quoted c.address) _ (HasNo-quoted d c.address quote address) back,
          ),
        ),
      )

line_of-IsPlain : (c : Context) → IsContext c → IsPlain (line_of c)
unfolding line_of
line_of-IsPlain c h = (
  λ e. cc,
  line_of-HasNo b'\r' c (omega arith) (omega arith) (omega arith) h.0.2 h.1.2 h.2.2 h.3.2,
  line_of-HasNo b'\n' c (omega arith) (omega arith) (omega arith) h.0.1 h.1.1 h.2.1 h.3.1,
)

module _ {S : Type 0} (h : Host S) where
  -- A context adds its name, whatever it is.
  on_fields-line_of :
      (dev : Text) (c : Context) (pdps : List Text) (s : S)
      → IsContext c
      → on_fields h false dev (split_paths b',' (line_of c)) pdps s
        ≡ (answer (pdps ++ c.apn ∷ []), s)
  unfolding split_paths
  on_fields-line_of dev c pdps s ok =
      ap (λ fields. on_fields h false dev fields pdps s) (split-line_of c ok)
      ∙ ap (λ t. (answer (pdps ++ t ∷ []), s)) (without_quotes-quoted c.apn ok.2.3)

  get_pdp_loop-lines :
      (dev : Text) (cs : List Context) (pdps : List Text) (s : S)
      → All IsContext cs
      → get_pdp_loop h false dev (map line_of cs) pdps s
        ≡ (answer (pdps ++ map (λ (c : Context). c.apn) cs), s)
  unfolding get_pdp_loop
  get_pdp_loop-lines dev [] pdps s ok = ap (λ l. (answer l, s)) (sym (append-nil pdps))
  get_pdp_loop-lines dev (c ∷ cs) pdps s ok =
      ap (λ r. then_do r λ pdps' s1. get_pdp_loop h false dev (map line_of cs) pdps' s1)
        (on_fields-line_of dev c pdps s ok.0)
      ∙ get_pdp_loop-lines dev cs (pdps ++ c.apn ∷ []) s ok.1
      ∙ ap (λ l. (answer l, s)) (append_assoc pdps (c.apn ∷ []) (map (λ (c : Context). c.apn) cs))

  -- What the modem sends for these contexts, as SendAtCommand hands it on.
  send_at_command-response :
      (dev cmd : Text) (ls : List Text) (s s1 s2 s3 : S)
      → ((t : Text)
          → h.find_submatch (codes "((?s:.*))OK") (t ++ codes "OK") ≡ (t ++ codes "OK") ∷ t ∷ [])
      → All IsPlain ls
      → h.open_port dev s ≡ (true, s1)
      → h.write_port cmd s1 ≡ (true, s2)
      → h.read_port s2 ≡ (some (response ls), s3)
      → send_at_command h false dev cmd s ≡ (answer (unlines ls), h.close_port s3)
  unfolding send_at_command get_tty_at
  send_at_command-response dev cmd ls s s1 s2 s3 greedy plain opens writes reads =
      rw (opens, writes, reads, clean-response ls plain, greedy (unlines ls)) refl

  lines-IsPlain : (cs : List Context) → All IsContext cs → All IsPlain (map line_of cs)
  lines-IsPlain [] ok = tt
  lines-IsPlain (c ∷ cs) ok = (line_of-IsPlain c ok.0, lines-IsPlain cs ok.1)

  lines-HasNo : (ls : List Text) → All IsPlain ls → All (HasNo b'\n') ls
  lines-HasNo [] ok = tt
  lines-HasNo (l ∷ ls) ok = (ok.0.2, lines-HasNo ls ok.1)

  field-IsClosed : (s t : Text) → IsClosed t → IsClosed (s ++ b',' ∷ t)
  field-IsClosed s t h = IsClosed-append s (b',' ∷ t) (IsClosed-append (b',' ∷ []) t h)

  line_of-IsClosed : (c : Context) → IsClosed (line_of c)
  unfolding line_of
  line_of-IsClosed c =
      let zeros = codes "0,0,0,0,0,0" in
      let address = quoted c.address ++ b',' ∷ zeros in
      let apn = quoted c.apn ++ b',' ∷ address in
      let kind = quoted c.kind ++ b',' ∷ apn in
      field-IsClosed (codes "+CGDCONT: " ++ c.index) kind (
        field-IsClosed (quoted c.kind) apn
          (field-IsClosed (quoted c.apn) address (field-IsClosed (quoted c.address) zeros refl)))

  lines-IsClosed : (cs : List Context) → All IsClosed (map line_of cs)
  lines-IsClosed [] = tt
  lines-IsClosed (c ∷ cs) = (line_of-IsClosed c, lines-IsClosed cs)

  line_of-IsOpened : (c : Context) → IsOpened (line_of c)
  unfolding line_of
  line_of-IsOpened c = refl

  -- GetPDP on a line that opens and takes the question, and where one Read gives the whole answer, a
  -- list of one context or more: it gives the name of each context, in their order, an empty name
  -- too, and does no more than send the question, so no context is deleted, although GetPDP is said
  -- to delete the empty ones: the field of an empty name is not empty, since it holds the quotes. It
  -- is assumed that ConfigAutoPort is not on, that a field holds no comma, quote or line end, and
  -- that .* is greedy.
  pub get_pdp-apns :
      (dev : Text) (c : Context) (cs : List Context) (s s1 s2 s3 : S)
      → ((t : Text)
          → h.find_submatch (codes "((?s:.*))OK") (t ++ codes "OK") ≡ (t ++ codes "OK") ∷ t ∷ [])
      → All IsContext (c ∷ cs)
      → h.open_port dev s ≡ (true, s1)
      → h.write_port (codes "AT+CGDCONT?\r") s1 ≡ (true, s2)
      → h.read_port s2 ≡ (some (response (map line_of (c ∷ cs))), s3)
      → get_pdp h false dev s ≡ (answer (map (λ (c : Context). c.apn) (c ∷ cs)), h.close_port s3)
  unfolding get_pdp
  get_pdp-apns dev c cs s s1 s2 s3 greedy ok opens writes reads =
      let plain = lines-IsPlain (c ∷ cs) ok in
      ap
        (λ r. then_do r λ tmpstring s1.
          get_pdp_loop h false dev (split_paths b'\n' (trim_newline_space tmpstring)) [] s1)
        (send_at_command-response dev (codes "AT+CGDCONT?\r") (map line_of (c ∷ cs)) s s1 s2 s3
          greedy plain opens writes reads)
      ∙ ap (λ split. get_pdp_loop h false dev split [] (h.close_port s3))
          (split-trimmed (line_of c) (map line_of cs) (line_of-IsOpened c) (lines-IsClosed (c ∷ cs))
            (lines-HasNo (map line_of (c ∷ cs)) plain))
      ∙ get_pdp_loop-lines dev (c ∷ cs) [] (h.close_port s3) ok
