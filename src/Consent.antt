-- ===== src/Consent.antt =====
-- crates/blackbag-core/src/consent.rs: passkey ceremonies that wait for a human. `Ceremony` has the data,
-- `Desk` the operations; the other modules prove what holds of them.
pub mod Ceremony
pub mod Desk
pub mod Pending
pub mod Soundness
pub mod Invariant
pub mod Answers
pub mod Guesses
pub mod Trace
pub mod Provenance
mod Examples
