-- ===== src/Scp/Stream.antt =====
-- What a peer has written, as Read gives it, and the bufio.Scanner over it (the standard library's,
-- with ScanLines) that scpFromClient of sshserver/scp.go reads the header lines with.
use gosutils.Prelude.{
  ℕ, zero, suc, ◌+◌, ◌-◌, ◌*◌, ◌/◌, Bool, true, false, ◌&&◌, ◌||◌, List, [], ◌∷◌, ◌++◌, ◌==◌, ltb,
  leb, if◌then◌else◌, Option, none, some, length, take, drop,
}
use gosutils.Prelude.Text.{Text, is_empty, drop_return}

-- The Writes of the peer that have not been read, the first perhaps in part.
abbrev pub Stream : Type 0
Stream = List Text

abbrev pub rest_of : Text → Stream → Stream
rest_of r cs = if is_empty r then cs else r ∷ cs

-- A Read into `n` bytes: none at the end. It gives no bytes of two Writes at once, as an io.Pipe.
unfoldable pub next_read : ℕ → Stream → Option (Text × Stream)
next_read n [] = none
next_read n ([] ∷ cs) = next_read n cs
next_read n ((b ∷ bs) ∷ cs) = some (take n (b ∷ bs), rest_of (drop n (b ∷ bs)) cs)

-- The bytes that are left.
unfoldable pub total : Stream → ℕ
total [] = 0
total (c ∷ cs) = length c + total cs

-- The unread bytes of the buffer, where they begin in it, its size, the token, whether the reader is
-- at its end, and whether the line was too long.
pub record Scanner : Type 0 where
  pub pending : Text
  pub begins : ℕ
  pub size : ℕ
  pub token : Text
  pub ended : Bool
  pub too_long : Bool

abbrev pub new_scanner : Scanner
new_scanner = record {
  pending = [];
  begins = 0;
  size = 0;
  token = [];
  ended = false;
  too_long = false;
}

-- bufio.ScanLines: the bytes in front of the first line end, and those behind it.
unfoldable pub cut_line : Text → Option (Text × Text)
cut_line [] = none
cut_line (c ∷ cs) =
    let rest = cut_line cs in
    if c == b'\n' then some ([], cs) else elim rest [ none ↦ none | some (l, r) ↦ some (c ∷ l, r) ]

unfoldable pub next_token : Bool → Text → Option (Text × Text)
unfolding cut_line
next_token at_end s = elim (cut_line s) [
  | some (l, r) ↦ some (l, r)
  | none ↦ if at_end && ltb 0 (length s) then some (s, []) else none
]

-- Before a Read: the bytes move to the front if the buffer ends there, or more than half of it is
-- used up, and a full buffer is doubled, up to bufio.MaxScanTokenSize.
unfoldable pub make_room : Scanner → Scanner
make_room s =
    let stop = s.begins + length s.pending in
    if ltb 0 s.begins && (stop == s.size || ltb (s.size / 2) s.begins)
    then record s { begins = 0 }
    else s

abbrev pub max_token_size : ℕ
max_token_size = 65536

unfoldable pub grow : Scanner → Scanner
grow s =
    if s.begins + length s.pending == s.size
    then if leb max_token_size s.size then record s { too_long = true } else record s {
      begins = 0;
      size =
          if s.size == 0
          then 4096
          else if leb max_token_size (s.size * 2)
          then max_token_size
          else s.size * 2;
    }
    else s

-- A Read into the free part of the buffer.
abbrev pub fill : Scanner → Option (Text × Stream) → Scanner × Stream
fill s none = (record s { ended = true }, [])
fill s (some (bs, cs)) = (record s { pending = s.pending ++ bs }, cs)

abbrev pub taken : Scanner → Text → Text → Scanner
taken s l r = record s {
  token = drop_return l;
  pending = r;
  begins = s.begins + (length s.pending - length r);
}

-- Scan gives false: there is no token.
abbrev pub no_token : Scanner → Scanner
no_token s = record s { token = []; pending = []; begins = 0 }

-- Where there is no token yet: `s'` has room, and `rest` goes on behind a Read.
abbrev pub without_token : Scanner → Scanner → Stream → Scanner × Stream → Scanner × Stream
without_token s s' cs rest =
    if s.ended
    then (no_token s, cs)
    else if s'.too_long
    then (record s' { token = [] }, cs)
    else rest

-- The loop of `Scan`, with fuel.
unfoldable pub scan_loop : ℕ → Scanner → Stream → Scanner × Stream
unfolding next_token make_room grow next_read
scan_loop zero s cs = (no_token s, cs)
scan_loop (suc fuel) s cs = elim (next_token s.ended s.pending) [
  | some (l, r) ↦ (taken s l r, cs)
  | none ↦
      let s' = grow (make_room s) in
      let filled = fill s' (next_read (s'.size - (s'.begins + length s'.pending)) cs) in
      let rest = scan_loop fuel filled.0 filled.1 in without_token s s' cs rest
]

-- `Scan`: each Read takes a byte at least, and one turn follows the end.
unfoldable pub scan : Scanner → Stream → Scanner × Stream
unfolding scan_loop total
scan s cs = scan_loop (total cs + 3) s cs
