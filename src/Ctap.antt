-- ===== src/Ctap.antt =====
-- The virtual security key of crates/blackbag-core/src/ctap.
pub mod Hid
pub mod Cbor
pub mod Authenticator
