-- ===== src/ShellWords.antt =====
-- cmdshellwords: splitting a command line the way of the Bourne shell (util.go, parser.go), and
-- escaping and joining words (cmdshellwords.go, util.go). A string is the list of its code points.
pub mod Parser
pub mod Escape
pub mod RoundTrip
pub mod Guards
mod Tests
