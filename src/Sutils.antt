-- ===== src/Sutils.antt =====
-- sutils/sutils.go, gogrep/gogrep.go and FileReplaceRegex of gosed/gosed.go: lists of paths, lines of a
-- file, tokens, configurations and secrets.
pub mod Paths
pub mod Removed
pub mod Lines
pub mod Files
pub mod Inserted
pub mod Updated
pub mod Nginx
pub mod Trimmed
pub mod Formatted
pub mod Secrets
pub mod Decrypted
pub mod Strings
pub mod Container
pub mod Token
pub mod Mismatch
mod Tests
mod TokenTests
