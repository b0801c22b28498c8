-- ===== src/Lib.antt =====
-- Black-Bag: a model of the parts of the program that decide who gets what, and what is proved of them.
--
-- Black-Bag keeps passwords, passkeys and keys in an encrypted vault, behind an agent that other
-- programs reach over sockets. What stands between such a program and a secret is pure code in
-- crates/blackbag-core, and that code is modelled here:
--
-- - Ctap.Hid, crates/blackbag-core/src/ctap/hid.rs: a browser talks to the software authenticator in
--   packets of 64 bytes. `push` takes one packet and answers with a message, an error or nothing;
--   `Reassembler` holds the channels with a message under way. `to_packets` cuts an answer up.
-- - Ctap.Cbor and Ctap.Authenticator, crates/blackbag-core/src/ctap/cbor.rs and authenticator.rs: a
--   message of a channel is parsed into a `Request`, and `dispatch` answers it. The backend that asks
--   a person and holds the credentials is a parameter, as is the library of CBOR values.
-- - Consent, crates/blackbag-core/src/consent.rs: a passkey ceremony waits on the `Desk` until the
--   owner approves it with a proof, refuses it, or it lapses; the surface that asked collects the
--   answer with `take_answered`. Consent.Ceremony has the data and Consent.Desk the operations. The
--   clock is the argument `now` of each operation, as in the source.
-- - Policy, crates/blackbag-core/src/policy.rs: `consider` says whether a program is let through,
--   refused or asked about, from the grants, the trusted programs and the lockdown in `Approvals`.
-- - Audit, crates/blackbag-core/src/audit.rs: each decision is an `Entry` whose digest covers the
--   digest of the entry before it. `append` adds one and `verify` walks the chain.
-- - Ssh.Wire and Ssh.Agent, crates/blackbag-core/src/ssh/wire.rs and agent.rs: `respond` answers one
--   request of an SSH client, read by a `Reader` and written by a `Writer`.
-- - Ssh.Key, crates/blackbag-core/src/ssh/key.rs: a key from its seed, over the Ed25519 library.
-- - Totp, crates/blackbag-core/src/totp.rs: `hotp` and `totp_at` over an HMAC that is a parameter.
-- - Record and Vault, crates/blackbag-core/src/record.rs and vault.rs: the records of an open vault. The
--   file, its keys and its witness are the record `Disk`, as one request finds them.
-- - Session, crates/blackbag-core/src/session.rs: the agent, which puts the parts above together.
--   Session.Step is what a handler may do: change the agent, then answer or fail, and what it changed
--   stays. Session.State has the agent and the `World` of a request, Session.Life what locks it
--   (`opened` is the gate of every request that reads the vault), and Records, Reveal, Items, SshKeys,
--   Passkeys, Access the handlers; Session.Dispatch joins them to `dispatch` and `happens`. Reports on
--   the records, passkey.rs and the backup log are interfaces (`Reports`, `Authenticator`). Each clock
--   is read once for a request. Session.Keeps has the triples that the proofs are made of; Sealed,
--   Expiry, Earned and Draft.Keys prove what holds of the agent.
-- - Common: numbers, lists, bytes, sets, association lists and results that these share.
--
-- A struct is a record, an enum a data type, a `Vec` or a slice a list, a `HashMap` an association
-- list without double keys, a `HashSet` a list without repetition. A function that changes `self`
-- takes the state and returns it beside its result. A number is a natural number; where the source
-- wraps, the model writes the remainder, and the lengths that the source casts to 32 bits are
-- written by four remainders. An `anyhow` error is a constructor of the component's own error type.
-- The map of a CTAP response takes a proof that no key of it makes the conversion panic.
-- A text that is only compared or concatenated is a string of the language; a text whose bytes are
-- hashed or sent is its bytes.
--
-- Every loop runs over a list, except that of `allocate`, which tries channel numbers: it runs on
-- fuel three, which is enough, as only two numbers are passed over.
--
-- Not modelled: the vault's file and its encryption (vault.rs, crypto.rs), the agent's socket and the
-- text forms of TOTP secrets (session.rs), passkey.rs, the generators and reports (generate.rs,
-- hygiene.rs, status.rs, backup.rs, breach.rs), sleepwatch.rs, and the command line; protected
-- memory (secmem.rs, memlock.rs, harden.rs), which is system calls; the desktop, the plugin and the
-- browser extension, which are user interfaces. SHA-256, HMAC, Ed25519, the signing of the vault, CBOR,
-- UTF-8, base64, and the printing of times and pids are parameters. Files and JSON are left out of
-- the audit log: its state is the list of entries with the head that is recorded beside it.
pub mod Common
pub mod Ctap
pub mod Consent
pub mod Policy
pub mod Audit
pub mod Ssh
pub mod Totp
pub mod Record
pub mod Vault
pub mod Session
