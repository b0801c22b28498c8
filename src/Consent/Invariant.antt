-- ===== src/Consent/Invariant.antt =====
-- What holds of the desk between two operations, and that every operation keeps it.
use blackbag.Common.{
  ℕ, ◌≤◌, ◌≡◌, ◌≢◌, refl, Bool, false, Option, [], ◌∷◌, map, String, arith, length, length-append,
  length-map, length-filter, All, All-filter,
}
use blackbag.Common.Bytes.{Bytes}
use blackbag.Common.Result.{Result, ok, err}
use blackbag.Consent.Ceremony.{
  max_pending, State, approved, refused, deferred, Ceremony, is_awaiting,
}
use blackbag.Consent.Desk.{
  DeskError, Desk, new, lapse, retained, expire, check_register, fresh, admit, register,
  approve_one, set_state, collectable, on_first, approve, refuse, defer, take_answered, clear,
}
use blackbag.Consent.Pending.{
  Distinct, All-map, Distinct-filter, Distinct-lapse, All-append, Distinct-append, All-on_first,
  length-on_first, Distinct-on_first, All-take_first, length-take_first, Distinct-take_first,
}
use blackbag.Consent.Soundness.{
  IsSound, lapse-IsSound, check_register-ok, fresh-IsSound, answered-IsSound, approve_one-IsSound,
  nonce-approve_one,
}

pub record IsValid (d : Desk) : Type 0 where
  pub sound : All IsSound d.pending
  pub capped : length d.pending ≤ max_pending
  pub distinct : Distinct d.pending

pub expire-IsValid : (now : ℕ) (d : Desk) → IsValid d → IsValid (expire now d)
unfolding expire
expire-IsValid now d h = record {
  sound =
      All-filter IsSound (retained now) (map (lapse now) d.pending)
        (All-map IsSound (lapse now) (lapse-IsSound now) d.pending h.sound);
  capped = omega (
    arith,
    length-filter (retained now) (map (lapse now) d.pending),
    length-map (lapse now) d.pending,
    h.capped,
  );
  distinct =
      Distinct-filter (retained now) (map (lapse now) d.pending)
        (Distinct-lapse now d.pending h.distinct);
}

on_first-IsValid :
    (f : Ceremony → Ceremony × Result DeskError (Unit {0}))
    → ((c : Ceremony) → (f c).0.nonce ≡ c.nonce)
    → ((c : Ceremony) → IsSound c → IsSound (f c).0)
    → (nonce : String) (d : Desk) → IsValid d
    → IsValid (record { pending = (on_first nonce f d.pending).0 })
on_first-IsValid f keeps keep nonce d h = record {
  sound = All-on_first f keeps IsSound nonce (λ c _. keep c) d.pending h.sound;
  capped = omega (arith, length-on_first f keeps nonce d.pending, h.capped);
  distinct = Distinct-on_first f keeps nonce d.pending h.distinct;
}

admit-IsValid :
    (d : Desk) (c : Ceremony) (now : ℕ) (r : Result DeskError (Unit {0}))
    → check_register d c ≡ r
    → IsValid d
    → IsValid (admit d c now r).0
unfolding admit
admit-IsValid d c now (err x) e h = h
admit-IsValid d c now (ok _) e h =
    let (room, long, unused, offers, binding) = check_register-ok d c e in
    record {
      sound =
          All-append IsSound d.pending (fresh now c) h.sound
            (fresh-IsSound now c long offers binding);
      capped = omega (arith, length-append d.pending (fresh now c ∷ []));
      distinct = Distinct-append d.pending (fresh now c) h.distinct (unfold fresh in unused);
    }

pub register-IsValid :
    (d : Desk) (c : Ceremony) (now : ℕ) → IsValid d → IsValid (register d c now).0
unfolding register
register-IsValid d c now h =
    admit-IsValid (expire now d) c now (check_register (expire now d) c) refl
      (expire-IsValid now d h)

-- `approve`, whatever the proof and the outcome.
pub approve-IsValid :
    (d : Desk) (nonce : String) (credential_id : Option Bytes) (proof_ok : Bool) (now : ℕ)
    → IsValid d
    → IsValid (approve d nonce credential_id proof_ok now).0
unfolding approve
approve-IsValid d nonce credential_id proof_ok now h =
    on_first-IsValid (λ c. approve_one c credential_id proof_ok)
      (nonce-approve_one credential_id proof_ok) (approve_one-IsSound credential_id proof_ok) nonce
      (expire now d) (expire-IsValid now d h)

set_state-IsValid :
    (d : Desk) (nonce : String) (state : State) (now : ℕ)
    → is_awaiting state ≡ false
    → ((id : Bytes) → state ≢ approved id)
    → IsValid d
    → IsValid (set_state d nonce state now).0
unfolding set_state
set_state-IsValid d nonce state now answered other h =
    on_first-IsValid (λ c. (record c { state = state }, ok tt)) (λ c. refl)
      (λ c s. answered-IsSound c c.attempts state s s.attempts_bound answered other) nonce
      (expire now d) (expire-IsValid now d h)

pub refuse-IsValid :
    (d : Desk) (nonce reason : String) (now : ℕ) → IsValid d → IsValid (refuse d nonce reason now).0
unfolding refuse
refuse-IsValid d nonce reason now = set_state-IsValid d nonce (refused reason) now refl (λ id e. cc)

pub defer-IsValid :
    (d : Desk) (nonce : String) (now : ℕ) → IsValid d → IsValid (defer d nonce now).0
unfolding defer
defer-IsValid d nonce now = set_state-IsValid d nonce deferred now refl (λ id e. cc)

pub take_answered-IsValid :
    (d : Desk) (nonce : String) (collector : Option String) (now : ℕ)
    → IsValid d
    → IsValid (take_answered d nonce collector now).0
unfolding take_answered
take_answered-IsValid d nonce collector now h =
    let v : IsValid (expire now d) = expire-IsValid now d h in
    let p : Ceremony → Bool = collectable nonce collector in
    record {
      sound = All-take_first IsSound p (expire now d).pending v.sound;
      capped = omega (arith, length-take_first p (expire now d).pending, v.capped);
      distinct = Distinct-take_first p (expire now d).pending v.distinct;
    }

pub new-IsValid : IsValid new
unfolding new
new-IsValid = record { sound = tt; capped = omega arith; distinct = tt }

pub clear-IsValid : (d : Desk) → IsValid (clear d)
unfolding clear
clear-IsValid d = record { sound = tt; capped = omega arith; distinct = tt }
