-- ===== src/Policy/Clients.antt =====
-- Withdrawals, and how a caller is told from another.
use Prim.Native.String.{◌++◌ as ◌<>◌}
use text.Mathlib.TextLemmas.{append_cancel_left}
use blackbag.Common.{
  if◌then◌else◌, ◌+◌, ◌≡◌, ◌≢◌, refl, ◌∙◌, ◌⊎◌, inl, inr, Bool, true, false, not, Option, none,
  some, List, [], ◌∷◌, String, arith, Bool-cases, str_eq, str_eq_iff, length, filter,
}
use blackbag.Common.Sets.{member, set_remove, member-set_insert, member-set_remove, member-filter}
use blackbag.Policy.{
  blocked, Capability, ClientKey, Grant, grant_eq, grant_eq_iff, for_peer, remembered, must_ask,
  Approvals, consider, grant, revoke, revoke_client,
}

-- A withdrawal answers whether there was something to withdraw; after it the request of a program
-- that is not trusted is asked about again, lockdown aside, and a second withdrawal answers no.
pub revoke_lem :
    (a : Approvals) (client : ClientKey) (item : String) (capability : Capability)
    → member str_eq client a.trusted ≡ false
    → a.lockdown ≡ false
    → let (a', was) = revoke a client item capability in
      (was ≡ true → consider a client item capability ≡ remembered)
      × (was ≡ false → consider a client item capability ≡ must_ask)
      × (consider a' client item capability ≡ must_ask)
      × ((revoke a' client item capability).1 ≡ false)
unfolding revoke consider
revoke_lem a client item capability ht hl =
    let g : Grant = record { client = client; item = item; capability = capability } in
    let gone : member grant_eq g (set_remove grant_eq g a.granted) ≡ false =
      member-set_remove grant_eq grant_eq_iff g g a.granted ∙ rw ((grant_eq_iff g g).1 refl) refl in
    ground (arith, gone)

split_length :
    (p : Grant → Bool) (gs : List Grant)
    → length (filter p gs) + length (filter (λ g. not (p g)) gs) ≡ length gs
split_length p [] = omega arith
split_length p (g ∷ gs) = ground (arith, split_length p gs)

-- Withdrawing a program counts its grants, changes no verdict on another program, and leaves the
-- program neither a grant nor trust: each of its requests is blocked under lockdown, else asked about.
pub revoke_client_lem :
    (a : Approvals) (client other : ClientKey) (item : String) (capability : Capability)
    → client ≢ other
    → ((revoke_client a client).1 ≡ length (filter (λ g. str_eq g.client client) a.granted))
      × (consider (revoke_client a client).0 other item capability
          ≡ consider a other item capability)
      × (consider (revoke_client a client).0 client item capability
          ≡ (if a.lockdown then blocked else must_ask))
unfolding revoke_client consider
revoke_client_lem a client other item capability ne =
    let p : Grant → Bool = λ g. not (str_eq g.client client) in
    let g : Grant = record { client = other; item = item; capability = capability } in
    let h : Grant = record { client = client; item = item; capability = capability } in
    let self : str_eq client client ≡ true = (str_eq_iff client client).1 refl in
    let differs : str_eq other client ≡ false = ground (arith, str_eq_iff other client) in
    (
      omega (arith, split_length (λ x. str_eq x.client client) a.granted),
      ground (
        arith,
        differs,
        member-set_remove str_eq str_eq_iff client other a.trusted,
        member-filter grant_eq grant_eq_iff p g a.granted,
      ),
      ground (
        arith,
        self,
        member-set_remove str_eq str_eq_iff client client a.trusted,
        member-filter grant_eq grant_eq_iff p h a.granted,
      ),
    )

module _ {Pid : Type 0} (show_pid : Pid → String) where
  -- A caller that cannot be named: no program was found, or its name is empty.
  abbrev pub IsUnnamed : Option String → Type 0
  IsUnnamed name = (name ≡ none) ⊎ (name ≡ some "")

  unnamed-key :
      (name : Option String) (pid : Pid)
      → IsUnnamed name
      → for_peer show_pid name pid ≡ ("pid:" <> show_pid pid)
  unfolding for_peer
  unnamed-key name pid (inl e) = rw e refl
  unnamed-key name pid (inr e) = rw e refl

  unnamed-apart :
      (name other : Option String) (pid own : Pid)
      → ((a b : Pid) → show_pid a ≡ show_pid b → a ≡ b)
      → IsUnnamed name
      → IsUnnamed other
      → pid ≢ own
      → str_eq (for_peer show_pid name pid) (for_peer show_pid other own) ≡ false
  unnamed-apart name other pid own inj h k ne =
      let key : for_peer show_pid name pid ≡ ("pid:" <> show_pid pid) = unnamed-key name pid h in
      let key' : for_peer show_pid other own ≡ ("pid:" <> show_pid own) = unnamed-key other own k in
      rw (key, key')
        (elim (Bool-cases (str_eq ("pid:" <> show_pid pid) ("pid:" <> show_pid own))) [
          | inl e ↦
              let one : ("pid:" <> show_pid pid) ≡ ("pid:" <> show_pid own) =
                (str_eq_iff ("pid:" <> show_pid pid) ("pid:" <> show_pid own)).0 e in
              absurd
                (ne (inj pid own (append_cancel_left "pid:" (show_pid pid) (show_pid own) one)))
          | inr e ↦ e
        ])

  -- What is approved for a caller that cannot be named, because no program was found or because its
  -- name is empty, changes no verdict on a caller of another process that cannot be named either. It
  -- is remembered for the caller itself, except that under lockdown the verdict stays what it was. The
  -- formatter is taken to print different pids differently.
  pub grant-unnamed :
      (a : Approvals) (name other : Option String) (pid own : Pid) (item asked : String)
      (capability wanted : Capability)
      → ((p q : Pid) → show_pid p ≡ show_pid q → p ≡ q)
      → IsUnnamed name
      → IsUnnamed other
      → pid ≢ own
      → let a' = grant a (for_peer show_pid name pid) item capability in
        (consider a' (for_peer show_pid other own) asked wanted
          ≡ consider a (for_peer show_pid other own) asked wanted)
        × (consider a' (for_peer show_pid name pid) item capability ≡ (
            if a.lockdown
            then consider a (for_peer show_pid name pid) item capability
            else remembered))
  unfolding consider grant
  grant-unnamed a name other pid own item asked capability wanted inj h k ne =
      let apart : str_eq (for_peer show_pid name pid) (for_peer show_pid other own) ≡ false =
        unnamed-apart name other pid own inj h k ne in
      let g : Grant = record {
        client = for_peer show_pid name pid;
        item = item;
        capability = capability;
      } in
      let g' : Grant = record {
        client = for_peer show_pid other own;
        item = asked;
        capability = wanted;
      } in
      let differ : grant_eq g g' ≡ false = unfold grant_eq in rw apart refl in
      let same : grant_eq g g ≡ true = (grant_eq_iff g g).1 refl in
      (
        ground (arith, differ, member-set_insert grant_eq grant_eq_iff g g' a.granted),
        ground (arith, same, member-set_insert grant_eq grant_eq_iff g g a.granted),
      )
