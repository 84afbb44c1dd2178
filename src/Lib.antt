-- ===== src/Lib.antt =====
-- Verification of gosutils: the parts of the repository whose logic is their own, as functions
-- and step relations on explicit states, with the theorems that make them correct.
--
-- The parts. Each Go package is a separate library, and the model has a module for each:
-- Sconv: sconv/sconv.go, splitting a command line as a shell does, and quoting words for it.
--   Split holds StringToArgs and splitWord, Quote holds ArgsToString and quote; Unquote, Begins,
--   RoundTrip and Ends hold proofs.
-- ShellWords: cmdshellwords/parser.go, util.go and cmdshellwords.go, the other splitter, with
--   environment variables and commands in backquotes. Parser holds parserposix as a state and a
--   step for each character, Escape holds Escape and Join; RoundTrip and Guards hold proofs.
-- Sed: gosed, a compiler of sed scripts and a machine that runs them. Vm is the machine of
--   engine.go and its writeString, Conditions and Instructions are conditions.go, instructions.go
--   and substitution.go, Reader and Lexer are lex.go, Parse, Commands and Compile are parse.go,
--   Engine is the loop of Read, Make is makeEngine, which joins the lexer and the compiler, and
--   Channel is the goroutine and the channel between the two. An instruction is a closure in Go
--   and a constructor of Instr here; exec is what the closures do. The proofs are in Readings,
--   Lexed and Delimited (about the tokens), Safety, Growth, Compiled and Accepted (about `ip`),
--   Sparing and Enough (about the rounds of the compiler), Output and Transcript (about the
--   buffer), Ranges (about two addresses), Made (about makeEngine) and Delivered (about the
--   channel). The lexer and the compiler meet in the list of tokens, the compiler and the machine
--   in the list of instructions.
-- Cron: cron/cron.go. Job holds the jobs and the operations on their list, Round the rounds of
--   processJobs with the goroutines that they start, and what is reached by all of them; Update
--   and Running hold proofs.
-- Sched: sched/sched.go. Schedule holds the schedules and their next runs, Job the calls that
--   build a job, parseTime and Run, Waits the loop of the goroutine of Run by what its selects
--   take, with a proof, Runs the goroutines of runJob as steps; Days, Time, Chain and Overlap hold
--   proofs.
-- Endec: endec/aes.go, endec/d3des.go and part of endec/endec.go. Padding holds Pkcs7Padding and
--   Pkcs7Unpadding and PLPPadding, Cbc holds AESCBCEncrypt and AESCBCDecrypt; Unpadded and
--   RoundTrip hold proofs. Gcm holds the functions of endec/aes.go and endec/endec.go that use
--   AES in Galois/Counter mode, Sealed proofs. Des holds endec/d3des.go, Blocks and Triple its
--   proof.
-- Unique: sutils/unique.go. Front holds ToFront, UniqueSorted and IsUniqued; Runs and Checked
--   hold proofs.
-- Sutils: sutils/sutils.go, with gogrep/gogrep.go and FileReplaceRegex of gosed/gosed.go. Paths
--   holds the lists of paths, Lines the scanner and FileInsertStringAtLine on the contents of a
--   file, Files the operations on files that use both and gogrep, Nginx holds FormatNginxConf,
--   Secrets holds StringEncrypt, StringDecrypt and the key of a text, Token holds TokenCreate and
--   TokenIsMatch, Strings holds helpers on slices and maps, Container the search for the id of a
--   container. The proofs are in Removed (about paths), Inserted and Updated (about files),
--   Trimmed and Formatted (about configurations), Decrypted and Mismatch.
-- Scp: sshserver/scp.go and the sending half of sshclient/scp.go. Header holds the header lines,
--   Stream what Read gives of the peer's Writes and the bufio.Scanner over it, Send holds
--   processDir, sendDir, sendFile and sendEndDir with scpToClient and scpToRemote, which differ
--   in how sendFile closes its file and in what becomes of the error, Sink the loop of
--   scpFromClient as a machine with two places to be (the Read of a command byte, and `from0x1`),
--   and Serve scpFromClient and SCP around it. The two sides meet in the list of Writes. The
--   proofs are in Printed, Scanned, Contents, Framed, Placed, Steps, Delivered and RoundTrip
--   (from one side to the other), Consumed, Enough, Falls and Terminates (about the end of the
--   loops), Stopped and RunOn (about two faults).
-- Rotation: the rotation of log files in slogrus/logrotation_utils.go. Names has the names that tell
--   a backup, the file itself which backups are kept, Check RotateLogCheck and RotateLogsCheck with
--   copyFile, and Dirs RotateDirsCheck, which looks for logs and calls them. Shares, Kept, Parsed,
--   Found, Tried and West hold proofs.
-- Goat: the commands to a modem of goat/goat.go. Serial has those over the serial line, which all go
--   through SendAtCommand, and Manager those over ModemManager. Answered, Trimmed, Listing,
--   Configured and Silent hold proofs. Goat shares the lines and blanks of Sutils, as the code does.
-- Bufcopy: Copy of bufcopy/bufcopy.go, which Scp uses; Copied holds proofs.
-- Prelude: shared names, lists and integers over the native numbers, int64 and texts. The modules
--   called Tests run the definitions at concrete inputs.
--
-- What stands outside. Go's libraries and other packages are arguments: shellRun and the
-- variables of the environment (ShellWords), regexp, strconv, os and strings.Replacer (Sed.Host),
-- sort.Sort and random names (Cron), time.Date, the clock and Atoi (Sched), crypto/aes and
-- crypto/cipher (Endec.Cbc, with their round trip as a law; Endec.Des and Endec.Gcm, likewise;
-- base64 and MD5 there are arguments too), os.Stat and the environment (Sutils.Paths), regexp and
-- which files can be read and written (Sutils.Files.Host), SHA-1, the clock and random bytes
-- (arguments in Sutils), the paths of gofilepath, the file system and FileIWriteable
-- (Scp.Sink.Host), which Writes a pipe takes (Scp, Bufcopy), what os, io, GzipFile of endec and
-- the clock do to the files in Rotation, and there sort.Sort and time.Parse, and in Goat the
-- serial line, gonmmm, the shell and sregexp. The disk of Sutils is a map from paths to the
-- contents of regular files. A string is a list of code points in Sconv and ShellWords, but of
-- bytes in Escape, and a list of bytes in Sed, Endec, Sutils, Scp, Rotation and Goat. An int is a
-- natural number where the code keeps it at 0 or above, as the line number of sed, which starts
-- at -1 and is the flag `started` there, and an integer elsewhere; none is taken to come near its
-- bounds, but for the days of Rotation, the durations of a recurrent job in Sched and the times of
-- the tokens in Sutils, which wrap round in 64 bits. Locks are held for a whole
-- operation, so an operation is one step, but for runJob of sched.
--
-- Bounds. The loops go through their lists, except nine. The digits of a number take the number
-- as their fuel, since each round divides it, and the blocks of DES are counted by their number.
-- The loop of lex takes a rune or more in each round, so its fuel is the length of the script and
-- one. The loop of StringToArgs takes a character or more in each round, so its fuel is the
-- length of the line. `parse_toplevel` calls itself and takes a token before each call, so its
-- fuel is the number of tokens. The loop of `Read` takes fuel, since a script may run forever,
-- and with its fuel used up it gives the state it has reached. The sink of Scp takes two steps
-- for a byte at most, so that twice the bytes that arrive and one more are fuel enough; the Reads
-- of a Scan, and those of the contents of a file, take a byte each.
--
-- Not modelled: scpFromRemote of sshclient, which is the sink of sshserver with its errors in a
-- channel, Copy2Way and the pool of bufcopy, the monitors and LoggerRotate of slogrus, the parts
-- of goat that run scripts, the calls of sutils that reach processes, mail, HTTP, XML and JSON,
-- files that change while they are read, SkipIfWait and the lock of sched, the lock of cron,
-- scripts of gosed and configurations that are not ASCII, the text of error messages, bytes that are not UTF-8 in
-- Sconv, and the packages that are input and output, reflection, or copies of other projects.
pub mod Bufcopy
pub mod Cron
pub mod Endec
pub mod Goat
pub mod Prelude
pub mod Rotation
pub mod Sconv
pub mod Scp
pub mod Sched
pub mod Sed
pub mod ShellWords
pub mod Sutils
pub mod Unique
