-- ===== src/Ssh.antt =====
-- crates/blackbag-core/src/ssh: the wire format, the agent protocol and the keys.
pub mod Wire
pub mod Agent
pub mod Key
