-- ===== src/Scp/Terminates.antt =====
-- The loop of the sink ends, whatever the peer sends.
use gosutils.Prelude.{
  ℕ, zero, suc, ◌+◌, ◌*◌, ◌≤◌, ◌<◌, ◌≡◌, refl, Bool, false, ◌||◌, not, [], ◌∷◌, ◌==◌, some, length,
  arith, Bool-cases, Option-cases, inl, inr,
}
use gosutils.Prelude.Text.{Text}
use gosutils.Scp.Header.{split3}
use gosutils.Scp.Stream.{Stream, next_read, total, Scanner, scan}
use gosutils.Scp.Sink.{
  Host, Sink, Ended, Phase, reading, dispatching, Outcome, go, stop, turn, read_command,
  switch_command, take_line, on_entry, on_end, on_command, run, on_remote_error, next_command,
  on_token, scanned, jumped_line, on_byte, failed, finished, no_reply,
}
use gosutils.Scp.Serve.{scp_from_client, ends_in_slash, at_start}
use gosutils.Scp.Consumed.{next_read-total, next_read-nonempty, held, scan-held}
use gosutils.Scp.Falls.{Falls, stops, goes, left_of, weight, if-Falls, Falls-mono, on_parts-Falls}

module _ (h : Host) (ign_err : Bool) (dst : Text) (specified : Bool) (takes : ℕ → Bool) where
  on_end-Falls :
      (s : Sink h)
      → Falls h ign_err dst specified takes
          (2 * left_of h ign_err dst specified takes s + 1)
          (on_end h ign_err dst specified takes s)
  unfolding on_end
  on_end-Falls s = if-Falls h ign_err dst specified takes _ (goes _ _ (omega arith)) (stops _ _)

  on_token-Falls :
      {m : ℕ} (t : Text) (s : Sink h)
      → 2 * (length t + left_of h ign_err dst specified takes s) < m
      → Falls h ign_err dst specified takes m (on_token h ign_err dst specified takes t s)
  on_token-Falls [] s le = stops _ _
  on_token-Falls (c ∷ t) s le = goes _ _ (omega arith)

  next_command-Falls :
      (sc : Scanner) (cs : Stream) (s : Sink h)
      → length sc.token + held (sc, cs) ≤ left_of h ign_err dst specified takes s
      → Falls h ign_err dst specified takes
          (2 * left_of h ign_err dst specified takes s + 1)
          (next_command h ign_err dst specified takes (sc, cs) s)
  next_command-Falls sc cs s le =
      if-Falls h ign_err dst specified takes _ (stops _ _) (on_token-Falls sc.token _ (omega arith))

  on_remote_error-Falls :
      (full : Text) (s : Sink h)
      → Falls h ign_err dst specified takes
          (2 * left_of h ign_err dst specified takes s + 1)
          (on_remote_error h ign_err dst specified takes full s)
  unfolding on_remote_error
  on_remote_error-Falls [] s = stops _ _
  on_remote_error-Falls (c ∷ message) s =
      if-Falls h ign_err dst specified takes _
        (next_command-Falls (scan s.scanner s.inp).0 (scan s.scanner s.inp).1 s
          (scan-held s.scanner s.inp))
        (stops _ _)

  on_line-Falls :
      (full : Text) (s : Sink h)
      → Falls h ign_err dst specified takes
          (2 * left_of h ign_err dst specified takes s + 1)
          (on_command h ign_err dst specified takes full s)
  unfolding on_entry
  on_line-Falls full s = if-Falls h ign_err dst specified takes _ (on_end-Falls s) (
      if-Falls h ign_err dst specified takes _ (on_remote_error-Falls full s)
        (on_parts-Falls h ign_err dst specified takes (split3 full) s))

  scanned-Falls :
      (sc : Scanner) (cs : Stream) (s : Sink h)
      → length sc.token + held (sc, cs) ≤ left_of h ign_err dst specified takes s
      → Falls h ign_err dst specified takes
          (2 * left_of h ign_err dst specified takes s + 1)
          (scanned h ign_err dst specified takes (sc, cs) s)
  scanned-Falls sc cs s le = if-Falls h ign_err dst specified takes _ (stops _ _) (
      Falls-mono h ign_err dst specified takes (omega arith)
        (on_line-Falls sc.token (record s { scanner = sc; inp = cs })))

  jumped_line-Falls :
      (header_line : Text) (s : Sink h)
      → Falls h ign_err dst specified takes
          (2 * left_of h ign_err dst specified takes s + 1)
          (jumped_line h ign_err dst specified takes header_line s)
  jumped_line-Falls [] s = stops _ _
  jumped_line-Falls (c ∷ cs) s = on_line-Falls cs (record s { jumped = false })

  take_line-Falls :
      (s : Sink h)
      → Falls h ign_err dst specified takes
          (2 * left_of h ign_err dst specified takes s + 1)
          (take_line h ign_err dst specified takes s)
  unfolding take_line
  take_line-Falls s =
      if-Falls h ign_err dst specified takes _ (jumped_line-Falls s.scanner.token s) (
        scanned-Falls (scan s.scanner s.inp).0 (scan s.scanner s.inp).1 s
          (scan-held s.scanner s.inp))

  switch_command-Falls :
      (s : Sink h)
      → Falls h ign_err dst specified takes
          (2 * left_of h ign_err dst specified takes s + 1)
          (switch_command h ign_err dst specified takes s)
  unfolding switch_command
  switch_command-Falls s =
      if-Falls h ign_err dst specified takes (s.cmd == 0)
        (goes reading (record s { first = false }) (omega arith))
        (if-Falls h ign_err dst specified takes (s.cmd == b'\n')
          (if-Falls h ign_err dst specified takes (takes s.acks)
            (stops finished (record s { acks = s.acks + 1 })) (stops (failed no_reply) s))
          (if-Falls h ign_err dst specified takes
            (s.cmd == 1 || (s.cmd == b'D' || (s.cmd == b'C' || s.cmd == b'E'))) (take_line-Falls s)
            (stops finished s)))

  on_byte-Falls :
      {m : ℕ} (b : Text) (s : Sink h)
      → 0 < length b
      → 2 * (length b + left_of h ign_err dst specified takes s) ≤ m
      → Falls h ign_err dst specified takes m (on_byte h ign_err dst specified takes b s)
  on_byte-Falls [] s p le = stops _ _
  on_byte-Falls (c ∷ b) s p le = goes _ _ (omega arith)

  read_command-Falls :
      (s : Sink h)
      → Falls h ign_err dst specified takes
          (2 * left_of h ign_err dst specified takes s)
          (read_command h ign_err dst specified takes s)
  unfolding read_command
  read_command-Falls s = elim (Option-cases (next_read 1 s.inp)) [
    | inl e ↦ rw (read_command, e) (stops _ _)
    | inr ((b, cs), e) ↦
        rw (read_command, e)
          (on_byte-Falls b (record s { inp = cs }) (next_read-nonempty 1 s.inp (omega arith) e)
            (omega (arith, next_read-total 1 s.inp e)))
  ]

  -- Each step of the loop ends it, or leaves it less to do.
  turn-Falls :
      (p : Phase) (s : Sink h)
      → Falls h ign_err dst specified takes
          (weight h ign_err dst specified takes p s)
          (turn h ign_err dst specified takes p s)
  unfolding turn
  turn-Falls reading s = read_command-Falls s
  turn-Falls dispatching s = switch_command-Falls s

  abbrev Ends : ℕ → Phase → Sink h → Type 0
  Ends fuel p s =
      (e : Ended) × (t : Sink h) × (run h ign_err dst specified takes fuel p s ≡ some (e, t))

  after_step :
      (fuel : ℕ) (p : Phase) (s : Sink h) (o : Outcome h)
      → turn h ign_err dst specified takes p s ≡ o
      → Falls h ign_err dst specified takes (weight h ign_err dst specified takes p s) o
      → weight h ign_err dst specified takes p s ≤ fuel
      → ((q : Phase) (t : Sink h) → weight h ign_err dst specified takes q t < fuel → Ends fuel q t)
      → Ends (suc fuel) p s
  unfolding run
  after_step fuel p s (stop e t) eq f le rest = (e, t, rw (run, eq) refl)
  after_step fuel p s (go q t) eq (goes _ _ w) le rest =
      let (e, u, r) = rest q t (omega arith) in (e, u, rw (run, eq) r)

  -- The loop ends.
  pub run-Ends :
      (fuel : ℕ) (p : Phase) (s : Sink h)
      → weight h ign_err dst specified takes p s < fuel
      → Ends fuel p s
  run-Ends zero p s le = absurd (omega arith)
  run-Ends (suc fuel) p s le =
      after_step fuel p s (turn h ign_err dst specified takes p s) refl (turn-Falls p s)
        (omega arith) (λ q t w. run-Ends fuel q t w)

-- scpFromClient ends, with or without an error or by a panic, on whatever a peer sends until it
-- closes its side: two steps for each byte and one more are enough.
pub scp_from_client-ends :
    (h : Host) (fuel : ℕ) (ign_err : Bool) (dst : Text) (takes : ℕ → Bool) (inp : Stream)
    (disk : Host.Disk h)
    → 2 * total inp < fuel
    → (e : Ended) × (s : Sink h) × (scp_from_client h fuel ign_err dst takes inp disk ≡ some (e, s))
unfolding scp_from_client
scp_from_client-ends h fuel ign_err dst takes inp disk le =
    let specified = not (ends_in_slash dst) in
    elim (Bool-cases (takes 0)) [
      | inl e ↦ rw e (
          run-Ends h ign_err dst specified takes fuel reading (at_start h specified dst inp disk)
            (omega arith))
      | inr e ↦ rw e (_, _, refl)
    ]
