-- ===== src/Audit.antt =====
-- crates/blackbag-core/src/audit.rs: the hash chain of the audit log. A text is its bytes. The log is
-- its list of entries, oldest first, with the head that the sidecar file records; reading and writing
-- the files, and JSON, are not modelled. SHA-256 and the printing of times and numbers are parameters.
pub mod Digest
pub mod Chain
pub mod Tampering
mod Examples
use blackbag.Common.{
  ℕ, suc, ◌+◌, ◌-◌, ◌/◌, ◌%◌, Bool, true, false, not, ◌&&◌, ◌⊎◌, inl, inr, Option, none, some, List,
  [], ◌∷◌, ◌++◌, ltb, if◌then◌else◌, length, any, replicate,
}
use blackbag.Common.Bytes.{Bytes, bytes_eq, be64}
use blackbag.Common.Int.{ℤ}

-- Sixty-four times the digit 0.
abbrev pub genesis : Bytes
genesis = replicate 64 b'0'

pub data Surface : Type 0 where
  socket passkey secret_service ssh_agent : Surface

unfoldable pub surface_str : Surface → Bytes
surface_str socket = b's' ∷ b'o' ∷ b'c' ∷ b'k' ∷ b'e' ∷ b't' ∷ []
surface_str passkey = b'p' ∷ b'a' ∷ b's' ∷ b's' ∷ b'k' ∷ b'e' ∷ b'y' ∷ []
surface_str secret_service =
    b's' ∷ b'e' ∷ b'c' ∷ b'r' ∷ b'e' ∷ b't' ∷ b'-' ∷ b's' ∷ b'e' ∷ b'r' ∷ b'v' ∷ b'i' ∷ b'c' ∷ b'e'
    ∷ []
surface_str ssh_agent = b's' ∷ b's' ∷ b'h' ∷ b'-' ∷ b'a' ∷ b'g' ∷ b'e' ∷ b'n' ∷ b't' ∷ []

pub data Decision : Type 0 where
  approved refused remembered blocked lapsed revoked : Decision

unfoldable pub decision_str : Decision → Bytes
decision_str approved = b'a' ∷ b'p' ∷ b'p' ∷ b'r' ∷ b'o' ∷ b'v' ∷ b'e' ∷ b'd' ∷ []
decision_str refused = b'r' ∷ b'e' ∷ b'f' ∷ b'u' ∷ b's' ∷ b'e' ∷ b'd' ∷ []
decision_str remembered = b'r' ∷ b'e' ∷ b'm' ∷ b'e' ∷ b'm' ∷ b'b' ∷ b'e' ∷ b'r' ∷ b'e' ∷ b'd' ∷ []
decision_str blocked = b'b' ∷ b'l' ∷ b'o' ∷ b'c' ∷ b'k' ∷ b'e' ∷ b'd' ∷ []
decision_str lapsed = b'l' ∷ b'a' ∷ b'p' ∷ b's' ∷ b'e' ∷ b'd' ∷ []
decision_str revoked = b'r' ∷ b'e' ∷ b'v' ∷ b'o' ∷ b'k' ∷ b'e' ∷ b'd' ∷ []

pub record Who : Type 0 where
  pub uid : ℕ
  pub pid : ℤ
  pub program : Option Bytes

-- What the digest rests on and the source does not implement.
pub record Formats : Type 1 where
  pub Time : Type 0
  pub to_rfc3339 : Time → Bytes
  pub show_u32 : ℕ → Bytes
  pub show_i32 : ℤ → Bytes
  pub sha256 : Bytes → Bytes

-- `format!("{b:02x}")` for each byte.
abbrev pub hex_digit : ℕ → ℕ
hex_digit d = if ltb d 10 then b'0' + d else b'a' + (d - 10)

unfoldable pub hex : Bytes → Bytes
hex [] = []
hex (b ∷ bs) = hex_digit (b / 16) ∷ hex_digit (b % 16) ∷ hex bs

-- The closure `part` of `compute`: what it feeds to the hash.
abbrev pub part : Bytes → Bytes
part s = be64 (length s) ++ s

abbrev pub or_empty : Option Bytes → Bytes
or_empty none = []
or_empty (some s) = s

module _ (f : Formats) where
  open f use {Time, to_rfc3339, show_u32, show_i32, sha256}

  pub record Entry : Type 0 where
    pub at : Time
    pub who : Who
    pub surface : Surface
    pub decision : Decision
    pub subject : Bytes
    pub detail : Option Bytes
    pub prev : Bytes
    pub digest : Bytes

  -- The parts that `compute` hashes, in their order.
  unfoldable pub parts : Entry → List Bytes
  parts e =
      to_rfc3339 e.at
      ∷ show_u32 e.who.uid
      ∷ show_i32 e.who.pid
      ∷ or_empty e.who.program
      ∷ surface_str e.surface
      ∷ decision_str e.decision
      ∷ e.subject
      ∷ or_empty e.detail
      ∷ e.prev
      ∷ []

abbrev pub frame : List Bytes → Bytes
frame [] = []
frame (p ∷ ps) = part p ++ frame ps

module _ (f : Formats) where
  open f use {Time, sha256}

  unfoldable pub compute : Entry f → Bytes
  compute e = hex (sha256 (frame (parts f e)))

  pub record Log : Type 0 where
    pub entries : List (Entry f)
    pub recorded_head : Option Bytes

  unfoldable pub new : Log
  new = record { entries = []; recorded_head = none }

  -- The digest of the last entry, or `GENESIS`.
  unfoldable pub last_digest : Bytes → List (Entry f) → Bytes
  last_digest d [] = d
  last_digest d (e ∷ es) = last_digest e.digest es

  unfoldable pub head : Log → Bytes
  head log = last_digest genesis log.entries

  -- `head_written` says whether `write_head` succeeded; its failure is reported and not returned.
  unfoldable pub append :
      Log → Who → Surface → Decision → Bytes → Option Bytes → Time → Bool → Log × Bytes
  append log who surface decision subject detail now head_written =
      let draft : Entry f = record {
        at = now;
        who = who;
        surface = surface;
        decision = decision;
        subject = subject;
        detail = detail;
        prev = head log;
        digest = [];
      } in
      let entry : Entry f = record draft { digest = compute draft } in
      (
        record {
          entries = log.entries ++ entry ∷ [];
          recorded_head = if head_written then some entry.digest else log.recorded_head;
        },
        entry.digest,
      )

  pub data Why : Type 0 where
    does_not_follow contents_differ : Why

  pub data Verdict : Type 0 where
    intact : ℕ → Bytes → Verdict
    broken : ℕ → Why → Verdict
    truncated : ℕ → Verdict

  -- The loop of `verify` from entry `i` on, the one before it being `prev`: where it stops, or the
  -- last digest.
  unfoldable pub walk : ℕ → Bytes → List (Entry f) → (ℕ × Why) ⊎ Bytes
  walk i prev [] = inr prev
  walk i prev (e ∷ es) =
      let rest = walk (i + 1) e.digest es in
      if not (bytes_eq e.prev prev)
      then inl (i + 1, does_not_follow)
      else if not (bytes_eq e.digest (compute e))
      then inl (i + 1, contents_differ)
      else rest

  -- The end of `verify`, when the chain holds.
  unfoldable pub compare_head : List (Entry f) → Bytes → Option Bytes → Verdict
  compare_head es prev none = intact (length es) prev
  compare_head es prev (some want) =
      if not (bytes_eq want prev) && not (any (λ e. bytes_eq e.digest want) es)
      then truncated (length es)
      else intact (length es) prev

  abbrev pub verdict_of : List (Entry f) → Option Bytes → (ℕ × Why) ⊎ Bytes → Verdict
  verdict_of es expected (inl (at, why)) = broken at why
  verdict_of es expected (inr prev) = compare_head es prev expected

  unfoldable pub verify : Log → Option Bytes → Verdict
  verify log expected_head = verdict_of log.entries expected_head (walk 0 genesis log.entries)
