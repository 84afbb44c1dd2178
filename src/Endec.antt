-- ===== src/Endec.antt =====
-- endec/aes.go and endec/endec.go: padding, and AES in CBC and in Galois/Counter mode; endec/d3des.go.
pub mod Padding
pub mod Cbc
pub mod Unpadded
pub mod RoundTrip
pub mod Gcm
pub mod Sealed
pub mod Des
pub mod Triple
pub mod Blocks
mod Tests
