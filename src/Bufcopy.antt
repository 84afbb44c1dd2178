-- ===== src/Bufcopy.antt =====
-- The package bufcopy (bufcopy/bufcopy.go): Copy from a reader to a writer. What the Reads give is a
-- list; the writer is a parameter, and so are WriteTo and ReadFrom, where the two have them.
pub mod Copied
pub mod Tests
use gosutils.Prelude.{ℕ, ◌+◌, Bool, List, [], ◌∷◌, ◌==◌, if◌then◌else◌, Option, none, some, length}
use gosutils.Prelude.Text.{Text, is_empty}

-- How a Read ended: with more to come, at the end of the input, or with an error.
pub data ReadEnd (E : Type 0) : Type 0 where
  more eof : ReadEnd E
  broken : E → ReadEnd E

pub data CopyError (E : Type 0) : Type 0 where
  read_error write_error : E → CopyError E
  short_write : CopyError E

-- A Read: its bytes, and how it ended. A reader that has no more of them is at its end.
abbrev pub Reader : Type 0 → Type 0
Reader E = List (Text × ReadEnd E)

-- The number of bytes, the error, and the writer behind it.
abbrev pub Copying : Type 0 → Type 0 → Type 0
Copying E W = ℕ × Option (CopyError E) × W

-- A Write of `io.Writer`: how many bytes it took, and the error.
abbrev pub Write : Type 0 → Type 0 → Type 0
Write E W = Text → W → ℕ × Option E × W

module _ {E W : Type 0} (write : Write E W) where
  -- The error of a Write of some bytes that took `nw` of them.
  abbrev pub write_result : Option E → Bool → Option (CopyError E)
  write_result (some e) whole = some (write_error e)
  write_result none whole = if whole then none else some short_write

  -- The body of the loop under `nr > 0`: the error and the variables behind it.
  unfoldable pub put_read : Text → ℕ → W → Copying E W
  put_read p written w =
      let (nw, ew, w') = write p w in
      if is_empty p
      then (written, none, w)
      else (written + nw, write_result ew (nw == length p), w')

  -- The rest of the body, and `loop` for the next turn.
  abbrev pub after_read : Copying E W → ReadEnd E → (ℕ → W → Copying E W) → Copying E W
  after_read (written, some e, w) er loop = (written, some e, w)
  after_read (written, none, w) more loop = loop written w
  after_read (written, none, w) eof loop = (written, none, w)
  after_read (written, none, w) (broken e) loop = (written, some (read_error e), w)

  -- The loop of `BufCopy.Copy`: `written` bytes are copied.
  unfoldable pub copy_loop : Reader E → ℕ → W → Copying E W
  unfolding put_read
  copy_loop [] written w = (written, none, w)
  copy_loop ((p, er) ∷ reads) written w =
      after_read (put_read p written w) er (λ written' w'. copy_loop reads written' w')

  -- `BufCopy.Copy`, where the reader may have WriteTo and the writer ReadFrom.
  unfoldable pub copy :
      Option (W → Copying E W) → Option (Reader E → W → Copying E W) → Reader E → W → Copying E W
  unfolding copy_loop
  copy (some write_to) read_from src dst = write_to dst
  copy none (some read_from) src dst = read_from src dst
  copy none none src dst = copy_loop src 0 dst
