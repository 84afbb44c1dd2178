-- ===== src/Sed.antt =====
-- gosed: the sed interpreter. A string is the list of its bytes.
-- `Vm` is the machine of engine.go, `Conditions` and `Instructions` are what conditions.go,
-- instructions.go and substitution.go do to it, `Parse`, `Commands` and `Compile` are the
-- compiler of parse.go, `Engine` is the loop of engine.go. The other modules hold proofs.
pub mod Host
pub mod Vm
pub mod Conditions
pub mod Instructions
pub mod Engine
pub mod Safety
pub mod Growth
pub mod Compiled
pub mod Accepted
pub mod Output
pub mod Transcript
pub mod Reader
pub mod Lexer
pub mod Lexed
pub mod Readings
pub mod Delimited
pub mod Make
pub mod Channel
pub mod Delivered
pub mod Made
pub mod Sparing
pub mod Enough
pub mod Ranges
mod Tests
mod Scripts
pub mod Commands
pub mod Compile
pub mod Parse
