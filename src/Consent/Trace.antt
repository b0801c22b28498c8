-- ===== src/Consent/Trace.antt =====
-- A history of the desk, newest operation first, and where a ceremony on it comes from: the request is
-- one that was registered, and an approval is one that was given with the passphrase, in time.
use blackbag.Common.{ℕ, ◌≡◌, Bool, true, false, Option, List, [], ◌∷◌, String}
use blackbag.Common.Bytes.{Bytes}
use blackbag.Common.Result.{ok}
use blackbag.Consent.Ceremony.{awaiting_human, approved, Ceremony, is_expired}
use blackbag.Consent.Desk.{
  Desk, new, register, choose, approve, refuse, defer, take_answered, clear,
}
use mathlib.Core.List.{Memᴰ}

pub data Event : Type 0 where
  registers : Ceremony → ℕ → Event
  approves : String → Option Bytes → Bool → ℕ → Event
  refuses : String → String → ℕ → Event
  defers : String → ℕ → Event
  takes : String → Option String → ℕ → Event
  clears : Event

unfoldable pub apply : Event → Desk → Desk
apply (registers c now) d = (register d c now).0
apply (approves nonce credential_id proof_ok now) d = (approve d nonce credential_id proof_ok now).0
apply (refuses nonce reason now) d = (refuse d nonce reason now).0
apply (defers nonce now) d = (defer d nonce now).0
apply (takes nonce collector now) d = (take_answered d nonce collector now).0
apply clears d = clear d

unfoldable pub after : List Event → Desk
after [] = new
after (e ∷ past) = apply e (after past)

-- All of a ceremony that is fixed when it is registered.
abbrev pub request : Ceremony → Ceremony
request c = record c { attempts = 0; state = awaiting_human }

pub record WasRegistered (past : List Event) (c : Ceremony) : Type 0 where
  pub asked : Ceremony
  pub at : ℕ
  pub event : Memᴰ (registers asked at) past
  pub same : request c ≡ request (record asked { registered_at = at })

-- An approval that carried the proof, before the ceremony's deadline, and chose this credential.
pub record WasApproved (past : List Event) (c : Ceremony) (id : Bytes) : Type 0 where
  pub named : Option Bytes
  pub at : ℕ
  pub event : Memᴰ (approves c.nonce named true at) past
  pub in_time : is_expired c at ≡ false
  pub chosen : choose c.choices named ≡ ok id

pub record IsTraced (past : List Event) (c : Ceremony) : Type 0 where
  pub registered : WasRegistered past c
  pub approval : (id : Bytes) → c.state ≡ approved id → WasApproved past c id
