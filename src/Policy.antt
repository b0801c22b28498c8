-- ===== src/Policy.antt =====
-- crates/blackbag-core/src/policy.rs: which program may have what without being asked about. A client
-- key and an item are texts; a `HashSet` is a list without repetition.
pub mod History
pub mod Clients
mod Examples
use blackbag.Common.{
  ℕ, ◌-◌, Bool, true, false, not, ◌&&◌, Option, none, some, List, [], ◌∷◌, String, arith, ◌≡◌, ◌↔◌,
  refl, if◌then◌else◌, str_eq, str_eq_iff, length, filter,
}
use blackbag.Common.Sets.{member, set_insert, set_remove}
use Prim.Native.String.{◌++◌ as ◌<>◌}

pub data Capability : Type 0 where
  reveal copy ssh_sign secret_service : Capability

-- The names that the audit log writes.
unfoldable pub as_str : Capability → String
as_str reveal = "reveal"
as_str copy = "copy"
as_str ssh_sign = "ssh-sign"
as_str secret_service = "secret-service"

abbrev pub capability_eq : Capability → Capability → Bool
capability_eq reveal reveal = true
capability_eq copy copy = true
capability_eq ssh_sign ssh_sign = true
capability_eq secret_service secret_service = true
capability_eq _ _ = false

abbrev pub ClientKey : Type 0
ClientKey = String

-- `ClientKey::of`
unfoldable pub key_of : Option String → ClientKey
key_of (some program) = program
key_of none = "unidentified"

-- How a pid is printed is the formatter's: a parameter.
module _ {Pid : Type 0} (show_pid : Pid → String) where
  unfoldable pub for_peer : Option String → Pid → ClientKey
  for_peer none pid = "pid:" <> show_pid pid
  for_peer (some name) pid = if not (str_eq name "") then name else "pid:" <> show_pid pid

pub record Grant : Type 0 where
  pub client : ClientKey
  pub item : String
  pub capability : Capability

unfoldable pub grant_eq : Grant → Grant → Bool
grant_eq g h =
    str_eq g.client h.client && str_eq g.item h.item && capability_eq g.capability h.capability

pub data Verdict : Type 0 where
  remembered must_ask blocked : Verdict

pub record Approvals : Type 0 where
  pub granted : List Grant
  pub lockdown : Bool
  pub trusted : List ClientKey

unfoldable pub new : Approvals
new = record { granted = []; lockdown = false; trusted = [] }

unfoldable pub consider : Approvals → ClientKey → String → Capability → Verdict
consider a client item capability =
    if member str_eq client a.trusted
    then remembered
    else if a.lockdown
    then blocked
    else if member grant_eq (record { client = client; item = item; capability = capability })
        a.granted
    then remembered
    else must_ask

unfoldable pub grant : Approvals → ClientKey → String → Capability → Approvals
grant a client item capability = record a {
  granted =
      set_insert grant_eq (record { client = client; item = item; capability = capability })
        a.granted;
}

-- `HashSet::remove` tells whether the grant was there.
unfoldable pub revoke : Approvals → ClientKey → String → Capability → Approvals × Bool
revoke a client item capability =
    let g : Grant = record { client = client; item = item; capability = capability } in
    (record a { granted = set_remove grant_eq g a.granted }, member grant_eq g a.granted)

unfoldable pub revoke_client : Approvals → ClientKey → Approvals × ℕ
revoke_client a client =
    let before = length a.granted in
    let kept = filter (λ g. not (str_eq g.client client)) a.granted in
    (
      record a { granted = kept; trusted = set_remove str_eq client a.trusted },
      before - length kept,
    )

unfoldable pub set_lockdown : Approvals → Bool → Approvals
set_lockdown a on = record a { lockdown = on; trusted = if on then [] else a.trusted }

unfoldable pub trust : Approvals → ClientKey → Approvals
trust a client =
    if not a.lockdown then record a { trusted = set_insert str_eq client a.trusted } else a

unfoldable pub is_trusted : Approvals → ClientKey → Bool
is_trusted a client = member str_eq client a.trusted

unfoldable pub clear : Approvals → Approvals
clear a = record a { granted = []; trusted = [] }

pub grant_eq_iff : (g h : Grant) → (grant_eq g h ≡ true) ↔ (g ≡ h)
unfolding grant_eq
grant_eq_iff g h = (
  λ e. ground (arith, str_eq_iff g.client h.client, str_eq_iff g.item h.item),
  λ e. ground (arith, str_eq_iff g.client h.client, str_eq_iff g.item h.item),
)
