-- ===== src/Scp/Sink.antt =====
-- The sink: scpFromClient of sshserver/scp.go, as a machine that takes one step for a command byte
-- and one for the command. The paths of gofilepath, the files of the system and FileIWriteable of
-- gosystem are parameters.
use gosutils.Prelude.{
  ℕ, zero, suc, ◌+◌, ◌-◌, Bool, true, false, ◌&&◌, ◌||◌, not, List, [], ◌∷◌, ◌++◌, ◌==◌, ltb,
  if◌then◌else◌, Option, none, some, length,
}
use gosutils.Prelude.Text.{Text}
use gosutils.Scp.Header.{split3, parse_mode, parse_uint, size_of}
use gosutils.Scp.Stream.{Stream, next_read, Scanner, scan}

-- The file system of the sink. `accepts` is a write of these bytes to the temporary file, `install`
-- its Rename to a path, with its contents.
pub record Host : Type 1 where
  pub Disk : Type 0
  pub join_path : Text → Text → Text
  pub parent : Text → Text
  pub base : Text → Text
  pub is_file : Disk → Text → Bool
  pub is_writeable : Disk → Text → Bool
  pub creates : Disk → Text → Bool
  pub accepts : Disk → Text → Bool
  pub install : Text → Text → Disk → Option Disk
  pub chmod : Text → ℕ → Disk → Disk
  pub mkdir_all : Text → ℕ → Disk → Option Disk

pub data SinkError : Type 0 where
  no_reply line_too_long bad_mode bad_size read_only not_created end_of_file not_written : SinkError
  not_renamed no_directory : SinkError
  remote : Text → SinkError

-- How the sink ends: without an error, with one, or at an index out of range.
pub data Ended : Type 0 where
  finished : Ended
  failed : SinkError → Ended
  panicked : Ended

-- At the top of the loop, and at `from0x1`.
pub data Phase : Type 0 where
  reading dispatching : Phase

-- A call of fw.Write in the loop over the contents.
pub data Received : Type 0 where
  received : Text → Stream → Received
  broken : SinkError → Stream → Received

module _ (h : Host) where
  open h use {
    Disk, join_path, parent, base, is_file, is_writeable, creates, accepts, install, chmod,
    mkdir_all,
  }

  -- The variables of the loop, the disk, and how many zero bytes have been sent.
  pub record Sink : Type 0 where
    pub inp : Stream
    pub scanner : Scanner
    pub cmd : ℕ
    pub jumped : Bool
    pub first : Bool
    pub dst_dir : Text
    pub disk : Disk
    pub acks : ℕ

  pub data Outcome : Type 0 where
    go : Phase → Sink → Outcome
    stop : Ended → Sink → Outcome

  -- The loop that reads the contents: at most 4096 bytes with each Read.
  unfoldable pub receive : Disk → ℕ → ℕ → ℕ → Text → Stream → Received
  receive disk zero buffer_size left got cs = received got cs
  receive disk (suc fuel) buffer_size left got cs =
      let buffer_size' = if ltb left buffer_size then left else buffer_size in
      let rest = elim (next_read buffer_size' cs) as (λ _. Received) [
        | none ↦ broken end_of_file []
        | some (b, cs') ↦
            let more = receive disk fuel buffer_size' (left - length b) (got ++ b) cs' in
            if accepts disk b then more else broken not_written cs'
      ] in
      if left == 0 then received got cs else rest

  -- The flag `ignErr`, the destination, `useSpecifiedFilename`, and which of the bytes that the sink
  -- sends the pipe takes.
  module _ (ign_err : Bool) (dst_file : Text) (use_specified : Bool) (takes : ℕ → Bool) where
    -- `sendByte(scp.inPipe, 0)`.
    abbrev pub ack : Sink → (Sink → Outcome) → Outcome
    ack s k = if takes s.acks then k (record s { acks = s.acks + 1 }) else stop (failed no_reply) s

    -- Behind the contents: Rename, Chmod, and the byte that follows the file.
    abbrev pub finish_file : Text → ℕ → Text → Sink → Outcome
    finish_file path mode contents s = elim (install path contents s.disk) as (λ _. Outcome) [
      | none ↦ stop (failed not_renamed) (record s { disk = chmod path mode s.disk })
      | some disk ↦
          let s' = record s { disk = chmod path mode disk } in
          elim (next_read 1 s'.inp) as (λ _. Outcome) [
            | none ↦ stop (failed end_of_file) (record s' { inp = [] })
            | some (b, cs) ↦
                ack (record s' { inp = cs }) (λ s''. go reading (record s'' { first = false }))
          ]
    ]

    abbrev pub on_received : Text → ℕ → Received → Sink → Outcome
    on_received path mode (broken e cs) s = stop (failed e) (record s { inp = cs })
    on_received path mode (received contents cs) s =
        finish_file path mode contents (record s { inp = cs })

    -- The command 'C', behind the reply to its header.
    unfoldable pub receive_file : ℕ → ℕ → Text → Sink → Outcome
    unfolding receive
    receive_file mode size filename s =
        let path = join_path s.dst_dir filename in
        if is_file s.disk path && not (is_writeable s.disk path)
        then stop (failed read_only) s
        else if not (creates s.disk filename)
        then stop (failed not_created) s
        else on_received path mode (receive s.disk (suc size) 4096 size [] s.inp) s

    -- The command 'D', behind the reply to its header.
    unfoldable pub enter_dir : ℕ → Text → Sink → Outcome
    enter_dir mode filename s =
        let path = join_path s.dst_dir filename in
        elim (mkdir_all path mode s.disk) as (λ _. Outcome) [
          | none ↦ stop (failed no_directory) s
          | some disk ↦ go reading (record s { disk = disk; dst_dir = path; first = false })
        ]

    -- The commands 'D' and 'C'.
    abbrev pub on_named : ℕ → ℕ → Text → Sink → Outcome
    on_named mode size received_name s =
        let filename = if use_specified && s.first then base dst_file else received_name in
        ack s (λ s'.
          if s.cmd == b'C'
          then receive_file mode (size_of size) filename s'
          else enter_dir mode filename s')

    -- `parts[0]`, `parts[1]` and `parts[2]`.
    abbrev pub on_name : ℕ → ℕ → List Text → Sink → Outcome
    on_name mode size [] s = stop panicked s
    on_name mode size (c ∷ cs) s = on_named mode size c s

    abbrev pub on_size : ℕ → List Text → Sink → Outcome
    on_size mode [] s = stop panicked s
    on_size mode (b ∷ parts) s = elim (parse_uint b) as (λ _. Outcome) [
      | none ↦ stop (failed bad_size) s
      | some size ↦ on_name mode size parts s
    ]

    abbrev pub on_parts : List Text → Sink → Outcome
    on_parts [] s = stop panicked s
    on_parts (a ∷ parts) s = elim (parse_mode a) as (λ _. Outcome) [
      | none ↦ stop (failed bad_mode) s
      | some mode ↦ on_size mode parts s
    ]

    unfoldable pub on_entry : Text → Sink → Outcome
    unfolding receive_file enter_dir split3 parse_mode parse_uint
    on_entry full s = on_parts (split3 full) s

    -- The command 'E'.
    unfoldable pub on_end : Sink → Outcome
    on_end s =
        ack (record s { dst_dir = parent s.dst_dir })
          (λ s'. go reading (record s' { first = false }))

    -- The command 1: with `ignErr` the line behind it is taken as the next command, and an error of
    -- the scanner is dropped.
    abbrev pub on_token : Text → Sink → Outcome
    on_token [] s = stop panicked s
    on_token (c ∷ cs) s = go dispatching (record s { jumped = true; cmd = c })

    abbrev pub next_command : Scanner × Stream → Sink → Outcome
    next_command (sc, cs) s =
        let s' = record s { scanner = sc; inp = cs } in
        if sc.too_long then stop finished s' else on_token sc.token s'

    unfoldable pub on_remote_error : Text → Sink → Outcome
    unfolding scan
    on_remote_error [] s = stop panicked s
    on_remote_error (c ∷ message) s =
        if ign_err then next_command (scan s.scanner s.inp) s else stop (failed (remote message)) s

    abbrev pub on_command : Text → Sink → Outcome
    on_command full s =
        if s.cmd == b'E'
        then on_end s
        else if s.cmd == 1
        then on_remote_error full s
        else on_entry full s

    -- `cmdFull`: the rest of the line, or of the one that was read behind an error message.
    abbrev pub scanned : Scanner × Stream → Sink → Outcome
    scanned (sc, cs) s =
        let s' = record s { scanner = sc; inp = cs } in
        if sc.too_long then stop (failed line_too_long) s' else on_command sc.token s'

    abbrev pub jumped_line : Text → Sink → Outcome
    jumped_line [] s = stop panicked s
    jumped_line (c ∷ cs) s = on_command cs (record s { jumped = false })

    unfoldable pub take_line : Sink → Outcome
    unfolding scan on_entry on_end on_remote_error
    take_line s =
        if s.jumped then jumped_line s.scanner.token s else scanned (scan s.scanner s.inp) s

    -- The switch.
    unfoldable pub switch_command : Sink → Outcome
    unfolding take_line
    switch_command s =
        if s.cmd == 0
        then go reading (record s { first = false })
        else if s.cmd == b'\n'
        then ack s (λ s'. stop finished s')
        else if s.cmd == 1 || (s.cmd == b'D' || (s.cmd == b'C' || s.cmd == b'E'))
        then take_line s
        else stop finished s

    -- The Read of a command byte.
    abbrev pub on_byte : Text → Sink → Outcome
    on_byte [] s = stop finished s
    on_byte (c ∷ cs) s = go dispatching (record s { cmd = c })

    unfoldable pub read_command : Sink → Outcome
    unfolding next_read
    read_command s = elim (next_read 1 s.inp) as (λ _. Outcome) [
      | none ↦ stop finished (record s { inp = [] })
      | some (b, cs) ↦ on_byte b (record s { inp = cs })
    ]

    unfoldable pub turn : Phase → Sink → Outcome
    unfolding read_command switch_command
    turn reading s = read_command s
    turn dispatching s = switch_command s

    -- The loop, with fuel for its steps.
    unfoldable pub run : ℕ → Phase → Sink → Option (Ended × Sink)
    unfolding turn
    run zero phase s = none
    run (suc fuel) phase s = elim (turn phase s) [
      | stop e s' ↦ some (e, s')
      | go phase' s' ↦ run fuel phase' s'
    ]
