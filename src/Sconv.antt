-- ===== src/Sconv.antt =====
-- sconv/sconv.go: splitting a line into shell words, and quoting words into a line.
-- A string is the list of its code points; bytes that are not UTF-8 are outside the model.
pub mod Split
pub mod Quote
pub mod Unquote
pub mod Begins
pub mod RoundTrip
pub mod Ends
mod Tests
