-- ===== src/Scp.antt =====
-- The SCP protocol of sshserver/scp.go and sshclient/scp.go: what the sender writes, and the sink
-- that reads it.
pub mod Header
pub mod Stream
pub mod Send
pub mod Sink
pub mod Serve
pub mod Framed
pub mod Printed
pub mod Scanned
pub mod Contents
pub mod Placed
pub mod Steps
pub mod Delivered
pub mod RoundTrip
pub mod Consumed
pub mod Enough
pub mod Falls
pub mod Terminates
pub mod Stopped
pub mod RunOn
pub mod Tests
