-- ===== src/Policy/History.antt =====
-- The approvals as a function of what the owner did: an abstract account of the history that the two
-- sets and the flag implement.
use blackbag.Common.{
  ◌≡◌, refl, ◌∙◌, Bool, false, not, ◌&&◌, ◌||◌, List, [], ◌∷◌, String, arith, if◌then◌else◌, str_eq,
  str_eq_iff,
}
use blackbag.Common.Sets.{member, member-set_insert, member-set_remove, member-filter}
use blackbag.Policy.{
  Capability, ClientKey, Grant, grant_eq, grant_eq_iff, remembered, must_ask, blocked, Approvals,
  new, consider, grant, revoke, revoke_client, set_lockdown, trust, clear,
}

-- What can happen to the approvals of one session.
pub data Event : Type 0 where
  grants : ClientKey → String → Capability → Event
  revokes : ClientKey → String → Capability → Event
  revokes_client : ClientKey → Event
  locks_down : Bool → Event
  trusts : ClientKey → Event
  clears : Event

pub apply : Event → Approvals → Approvals
apply (grants client item capability) a = grant a client item capability
apply (revokes client item capability) a = (revoke a client item capability).0
apply (revokes_client client) a = (revoke_client a client).0
apply (locks_down on) a = set_lockdown a on
apply (trusts client) a = trust a client
apply clears a = clear a

-- The newest event comes first.
unfoldable pub after : List Event → Approvals
unfolding apply
after [] = new
after (e ∷ past) = apply e (after past)

-- Whether lockdown is on: what the owner said last.
abbrev pub locked : List Event → Bool
locked [] = false
locked (locks_down on ∷ past) = on
locked (_ ∷ past) = locked past

-- Whether a program is trusted: the owner said so while lockdown was off, and neither lockdown nor a
-- withdrawal nor a lock of the vault came after it.
abbrev pub trusting : ClientKey → List Event → Bool
trusting c [] = false
trusting c (trusts client ∷ past) = (not (locked past) && str_eq client c) || trusting c past
trusting c (revokes_client client ∷ past) = not (str_eq c client) && trusting c past
trusting c (locks_down on ∷ past) = not on && trusting c past
trusting c (clears ∷ past) = false
trusting c (grants _ _ _ ∷ past) = trusting c past
trusting c (revokes _ _ _ ∷ past) = trusting c past

-- Whether a grant stands: it was given, and neither it nor its program was withdrawn, nor the vault
-- locked, after that.
abbrev pub stands : Grant → List Event → Bool
stands g [] = false
stands g (grants client item capability ∷ past) =
    grant_eq (record { client = client; item = item; capability = capability }) g || stands g past
stands g (revokes client item capability ∷ past) =
    not (grant_eq g (record { client = client; item = item; capability = capability }))
    && stands g past
stands g (revokes_client client ∷ past) = not (str_eq g.client client) && stands g past
stands g (clears ∷ past) = false
stands g (locks_down _ ∷ past) = stands g past
stands g (trusts _ ∷ past) = stands g past

lockdown-after : (past : List Event) → (after past).lockdown ≡ locked past
unfolding after grant revoke revoke_client set_lockdown trust clear new
lockdown-after [] = refl
lockdown-after (grants _ _ _ ∷ past) = lockdown-after past
lockdown-after (revokes _ _ _ ∷ past) = lockdown-after past
lockdown-after (revokes_client _ ∷ past) = lockdown-after past
lockdown-after (locks_down _ ∷ past) = refl
lockdown-after (trusts _ ∷ past) = ground (arith, lockdown-after past)
lockdown-after (clears ∷ past) = lockdown-after past

trusted-after :
    (past : List Event) (c : ClientKey) → member str_eq c (after past).trusted ≡ trusting c past
unfolding after grant revoke revoke_client set_lockdown trust clear new member
trusted-after [] c = refl
trusted-after (grants _ _ _ ∷ past) c = trusted-after past c
trusted-after (revokes _ _ _ ∷ past) c = trusted-after past c
trusted-after (revokes_client client ∷ past) c =
    rw (member-set_remove str_eq str_eq_iff client c (after past).trusted, trusted-after past c)
      refl
trusted-after (locks_down on ∷ past) c = ground (arith, trusted-after past c)
trusted-after (trusts client ∷ past) c = ground (
  arith,
  lockdown-after past,
  trusted-after past c,
  member-set_insert str_eq str_eq_iff client c (after past).trusted,
)
trusted-after (clears ∷ past) c = refl

granted-after :
    (past : List Event) (g : Grant) → member grant_eq g (after past).granted ≡ stands g past
unfolding after grant revoke revoke_client set_lockdown trust clear new member
granted-after [] g = refl
granted-after (grants client item capability ∷ past) g =
    member-set_insert grant_eq grant_eq_iff
      (record { client = client; item = item; capability = capability }) g (after past).granted
    ∙ rw (granted-after past g) refl
granted-after (revokes client item capability ∷ past) g =
    member-set_remove grant_eq grant_eq_iff
      (record { client = client; item = item; capability = capability }) g (after past).granted
    ∙ rw (granted-after past g) refl
granted-after (revokes_client client ∷ past) g =
    member-filter grant_eq grant_eq_iff (λ h. not (str_eq h.client client)) g (after past).granted
    ∙ rw (granted-after past g) refl
granted-after (locks_down on ∷ past) g = granted-after past g
granted-after (trusts client ∷ past) g = ground (arith, granted-after past g)
granted-after (clears ∷ past) g = refl

-- The verdict is the one that the history asks for: a trusted program is let through, then lockdown
-- refuses all, then a grant of just this program, item and capability is remembered, and any other
-- request is asked about.
pub consider-after :
    (past : List Event) (client : ClientKey) (item : String) (capability : Capability)
    → consider (after past) client item capability ≡ (
        if trusting client past
        then remembered
        else if locked past
        then blocked
        else if stands (record { client = client; item = item; capability = capability }) past
        then remembered
        else must_ask)
unfolding consider
consider-after past client item capability =
    rw
      (
        trusted-after past client,
        lockdown-after past,
        granted-after past (record { client = client; item = item; capability = capability }),
      )
      refl
