-- ===== src/Scp/Falls.antt =====
-- What the commands of the sink leave of the bytes of the peer.
use gosutils.Prelude.{
  ℕ, zero, suc, ◌+◌, ◌*◌, ◌-◌, ◌≤◌, ◌<◌, Bool, true, false, ◌&&◌, not, List, [], ◌∷◌, ◌++◌, ◌==◌,
  Option, none, some, length, arith, Option-cases, inl, inr, ltb, if◌then◌else◌,
}
use gosutils.Prelude.Text.{Text}
use gosutils.Scp.Header.{parse_mode, parse_uint, size_of}
use gosutils.Scp.Stream.{Stream, next_read, total}
use gosutils.Scp.Sink.{
  Host, Sink, Ended, Phase, reading, dispatching, Outcome, go, stop, on_named, on_parts, on_size,
  on_name, receive_file, enter_dir, receive, received, broken, Received, finish_file, on_received,
}
use gosutils.Scp.Consumed.{next_read-total, held}

if_both : {A : Type 0} (P : A → Type 0) (b : Bool) (x y : A) → P x → P y → P (if b then x else y)
if_both P true x y p q = p
if_both P false x y p q = q

abbrev stream_of : Received → Stream
stream_of (received contents cs) = cs
stream_of (broken e cs) = cs

abbrev after : Option (Text × Stream) → Stream
after none = []
after (some (b, cs)) = cs

total-next_read : (n : ℕ) (cs : Stream) → total (after (next_read n cs)) ≤ total cs
total-next_read n cs = elim (Option-cases (next_read n cs)) [
  | inl e ↦ rw e (unfold total in omega arith)
  | inr ((b, cs'), e) ↦ rw e (omega (arith, next_read-total n cs e))
]

total-receive :
    (h : Host) (disk : Host.Disk h) (fuel bs left : ℕ) (got : Text) (cs : Stream)
    → total (stream_of (receive h disk fuel bs left got cs)) ≤ total cs
unfolding receive
total-receive h disk zero bs left got cs = omega arith
total-receive h disk (suc fuel) bs left got cs =
    let n = if ltb left bs then left else bs in
    if_both (λ r. total (stream_of r) ≤ total cs) (left == 0) (received got cs) _ (omega arith)
      (elim (Option-cases (next_read n cs)) [
        | inl e ↦ rw e (unfold total in omega arith)
        | inr ((b, cs'), e) ↦ rw e (
            if_both (λ r. total (stream_of r) ≤ total cs) (Host.accepts h disk b) _ _
              (omega (
                arith,
                next_read-total n cs e,
                total-receive h disk fuel n (left - length b) (got ++ b) cs',
              ))
              (omega (arith, next_read-total n cs e)))
      ])

module _ (h : Host) (ign_err : Bool) (dst : Text) (specified : Bool) (takes : ℕ → Bool) where
  -- The bytes of the peer that the sink has not used.
  abbrev pub left_of : Sink h → ℕ
  left_of s = held (s.scanner, s.inp)

  abbrev pub weight : Phase → Sink h → ℕ
  weight reading s = 2 * left_of s
  weight dispatching s = 2 * left_of s + 1

  -- The outcome ends the loop, or leaves it with less than so much to do.
  pub data Falls (m : ℕ) : Outcome h → Type 0 where
    stops : (e : Ended) (s : Sink h) → Falls m (stop e s)
    goes : (p : Phase) (s : Sink h) → weight p s < m → Falls m (go p s)

  pub if-Falls :
      {m : ℕ} (b : Bool) {x y : Outcome h} → Falls m x → Falls m y → Falls m (if b then x else y)
  if-Falls true p q = p
  if-Falls false p q = q

  pub Falls-mono : {m n : ℕ} {o : Outcome h} → m ≤ n → Falls m o → Falls n o
  Falls-mono le (stops e s) = stops e s
  Falls-mono le (goes p s w) = goes p s (omega arith)

  finish_file-Falls :
      (path : Text) (mode : ℕ) (contents : Text) (s : Sink h)
      → Falls (2 * left_of s + 1) (finish_file h ign_err dst specified takes path mode contents s)
  finish_file-Falls path mode contents s =
      elim (Option-cases (Host.install h path contents s.disk)) [
        | inl e ↦ rw (finish_file, e) (stops _ _)
        | inr (d, e) ↦
            rw (finish_file, e)
              (elim (Option-cases (next_read 1 s.inp)) [
                | inl r ↦ rw r (stops _ _)
                | inr ((b, cs), r) ↦
                    rw r
                      (if-Falls _ (goes _ _ (omega (arith, next_read-total 1 s.inp r))) (stops _ _))
              ])
      ]

  on_received-Falls :
      (path : Text) (mode : ℕ) (r : Received) (s : Sink h)
      → total (stream_of r) ≤ total s.inp
      → Falls (2 * left_of s + 1) (on_received h ign_err dst specified takes path mode r s)
  on_received-Falls path mode (broken e cs) s le = (stops _ _)
  on_received-Falls path mode (received contents cs) s le =
      Falls-mono (omega arith) (finish_file-Falls path mode contents (record s { inp = cs }))

  receive_file-Falls :
      (mode size : ℕ) (name : Text) (s : Sink h)
      → Falls (2 * left_of s + 1) (receive_file h ign_err dst specified takes mode size name s)
  unfolding receive_file
  receive_file-Falls mode size name s =
      let path = Host.join_path h s.dst_dir name in
      if-Falls (Host.is_file h s.disk path && not (Host.is_writeable h s.disk path)) (stops _ s) (
        if-Falls (not (Host.creates h s.disk name)) (stops _ s) (
          on_received-Falls (Host.join_path h s.dst_dir name) mode
            (receive h s.disk (suc size) 4096 size [] s.inp) s
            (total-receive h s.disk (suc size) 4096 size [] s.inp)))

  enter_dir-Falls :
      (mode : ℕ) (name : Text) (s : Sink h)
      → Falls (2 * left_of s + 1) (enter_dir h ign_err dst specified takes mode name s)
  unfolding enter_dir
  enter_dir-Falls mode name s =
      elim (Option-cases (Host.mkdir_all h (Host.join_path h s.dst_dir name) mode s.disk)) [
        | inl e ↦ rw (enter_dir, e) (stops _ _)
        | inr (d, e) ↦ rw (enter_dir, e) (goes _ _ (omega arith))
      ]

  on_named-Falls :
      (mode size : ℕ) (name : Text) (s : Sink h)
      → Falls (2 * left_of s + 1) (on_named h ign_err dst specified takes mode size name s)
  on_named-Falls mode size name s =
      let s' = record s { acks = s.acks + 1 } in
      if-Falls _
        (if-Falls _ (receive_file-Falls mode (size_of size) _ s') (enter_dir-Falls mode _ s'))
        (stops _ _)

  on_name-Falls :
      (mode size : ℕ) (parts : List Text) (s : Sink h)
      → Falls (2 * left_of s + 1) (on_name h ign_err dst specified takes mode size parts s)
  on_name-Falls mode size [] s = (stops _ _)
  on_name-Falls mode size (c ∷ cs) s = on_named-Falls mode size c s

  on_size-Falls :
      (mode : ℕ) (parts : List Text) (s : Sink h)
      → Falls (2 * left_of s + 1) (on_size h ign_err dst specified takes mode parts s)
  on_size-Falls mode [] s = (stops _ _)
  on_size-Falls mode (b ∷ parts) s = elim (Option-cases (parse_uint b)) [
    | inl e ↦ rw (on_size, e) (stops _ _)
    | inr (size, e) ↦ rw (on_size, e) (on_name-Falls mode size parts s)
  ]

  pub on_parts-Falls :
      (parts : List Text) (s : Sink h)
      → Falls (2 * left_of s + 1) (on_parts h ign_err dst specified takes parts s)
  on_parts-Falls [] s = (stops _ _)
  on_parts-Falls (a ∷ parts) s = elim (Option-cases (parse_mode a)) [
    | inl e ↦ rw (on_parts, e) (stops _ _)
    | inr (mode, e) ↦ rw (on_parts, e) (on_size-Falls mode parts s)
  ]
