-- ===== src/Session.antt =====
-- crates/blackbag-core/src/session.rs: the agent. `Step` is what a handler may do to it, `State` the agent,
-- `Life` how it locks; the handlers of the requests follow, by subject, and `Dispatch` puts them together.
pub mod Step
pub mod State
pub mod Life
pub mod Messages
pub mod Records
pub mod Access
pub mod Items
pub mod SshKeys
pub mod Passkeys
pub mod Dispatch
pub mod Keeps
pub mod Expiry
pub mod Sealed
pub mod Earned
mod Examples
pub mod Draft
pub mod Reveal
pub mod Hex
