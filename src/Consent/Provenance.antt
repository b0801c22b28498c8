-- ===== src/Consent/Provenance.antt =====
-- Every operation keeps the provenance of the ceremonies on the desk, so what is collected was asked for
-- and approved.
use blackbag.Common.{
  ℕ, ◌≡◌, ◌≢◌, refl, ap, ◌∙◌, inl, inr, Bool, true, false, not, ◌&&◌, Option, List, [], ◌∷◌, map,
  String, arith, leb, subst, Bool-cases, if◌then◌else◌, str_eq, str_eq_iff, All, All-filter,
}
use blackbag.Common.Bytes.{Bytes}
use blackbag.Common.Result.{Result, ok, err}
use blackbag.Consent.Ceremony.{
  State, approved, refused, deferred, Ceremony, is_awaiting, is_expired, max_proof_attempts,
}
use blackbag.Consent.Desk.{
  DeskError, expired_reason, guesses_reason, count_attempt, Desk, new, lapse, retained, expire,
  check_register, fresh, admit, register, choose, wrong_proof, approve_chosen, approve_one,
  on_first, approve, set_state, refuse, defer, collectable, take_answered, clear,
}
use blackbag.Consent.Pending.{All-append, All-on_first, All-take_first}
use mathlib.Core.List.{Memᴰ}
use blackbag.Consent.Trace.{
  Event, registers, approves, refuses, defers, takes, clears, apply, after, WasApproved, IsTraced,
}

IsTraced-later :
    (e : Event) (past : List Event) (c : Ceremony) → IsTraced past c → IsTraced (e ∷ past) c
IsTraced-later e past c h = record {
  registered = record {
    asked = h.registered.asked;
    at = h.registered.at;
    event = Memᴰ.tail h.registered.event;
    same = h.registered.same;
  };
  approval = λ id s.
      let a : WasApproved past c id = h.approval id s in
      record {
        named = a.named;
        at = a.at;
        event = Memᴰ.tail a.event;
        in_time = a.in_time;
        chosen = a.chosen;
      };
}

-- A change of the attempts and of the state, to one that is no approval.
IsTraced-answered :
    (past : List Event) (c : Ceremony) (n : ℕ) (state : State)
    → IsTraced past c
    → ((id : Bytes) → state ≡ approved id → c.state ≡ approved id)
    → IsTraced past (record c { attempts = n; state = state })
IsTraced-answered past c n state h old = record {
  registered = record {
    asked = h.registered.asked;
    at = h.registered.at;
    event = h.registered.event;
    same = h.registered.same;
  };
  approval = λ id s.
      let a : WasApproved past c id = h.approval id (old id s) in
      record {
        named = a.named;
        at = a.at;
        event = a.event;
        in_time = unfold is_expired in a.in_time;
        chosen = a.chosen;
      };
}

-- After `expire now` no ceremony that waits is past its deadline.
pub record IsTimely (now : ℕ) (past : List Event) (c : Ceremony) : Type 0 where
  pub traced : IsTraced past c
  pub in_time : is_awaiting c.state ≡ true → is_expired c now ≡ false

lapse-IsTimely :
    (now : ℕ) (past : List Event) (c : Ceremony) → IsTraced past c → IsTimely now past (lapse now c)
unfolding lapse is_expired
lapse-IsTimely now past c h = elim (Bool-cases (is_awaiting c.state && is_expired c now)) [
  | inl gone ↦ rw gone (record {
    traced = IsTraced-answered past c c.attempts (refused expired_reason) h (λ id e. cc);
    in_time = λ e. cc;
  })
  | inr still ↦ rw still (record { traced = h; in_time = λ e. ground arith })
]

expire-IsTimely :
    (now : ℕ) (past : List Event) (d : Desk)
    → All (IsTraced past) d.pending
    → All (IsTimely now past) (expire now d).pending
unfolding expire
expire-IsTimely now past d h =
    All-filter (IsTimely now past) (retained now) (map (lapse now) d.pending) (lapsed d.pending h)
  where
    lapsed :
        (cs : List Ceremony) → All (IsTraced past) cs → All (IsTimely now past) (map (lapse now) cs)
    lapsed [] g = g
    lapsed (c ∷ cs) (gc, gcs) = (lapse-IsTimely now past c gc, lapsed cs gcs)

timely-later :
    (e : Event) (now : ℕ) (past : List Event) (cs : List Ceremony)
    → All (IsTimely now past) cs
    → All (IsTraced (e ∷ past)) cs
timely-later e now past [] h = h
timely-later e now past (c ∷ cs) (hc, hcs) =
    (IsTraced-later e past c hc.traced, timely-later e now past cs hcs)

fresh-IsTraced :
    (past : List Event) (c : Ceremony) (now : ℕ) → IsTraced (registers c now ∷ past) (fresh now c)
unfolding fresh
fresh-IsTraced past c now = record {
  registered = record { asked = c; at = now; event = Memᴰ.head refl; same = refl };
  approval = λ id e. absurd (cc e);
}

admit-IsTraced :
    (past : List Event) (d : Desk) (c : Ceremony) (now : ℕ) (r : Result DeskError (Unit {0}))
    → All (IsTimely now past) d.pending
    → All (IsTraced (registers c now ∷ past)) (admit d c now r).0.pending
unfolding admit
admit-IsTraced past d c now (err x) h = timely-later (registers c now) now past d.pending h
admit-IsTraced past d c now (ok _) h =
    All-append (IsTraced (registers c now ∷ past)) d.pending (fresh now c)
      (timely-later (registers c now) now past d.pending h) (fresh-IsTraced past c now)

-- The approval that chose a credential, at an instant when the ceremony is not past its deadline.
approve_chosen-IsTraced :
    (past : List Event) (c : Ceremony) (named : Option Bytes) (at : ℕ) (r : Result DeskError Bytes)
    → choose c.choices named ≡ r
    → is_expired c at ≡ false
    → IsTraced (approves c.nonce named true at ∷ past) c
    → IsTraced (approves c.nonce named true at ∷ past) (approve_chosen c r).0
unfolding approve_chosen
approve_chosen-IsTraced past c named at (err x) e fit h = h
approve_chosen-IsTraced past c named at (ok chosen) e fit h = record {
  registered = record {
    asked = h.registered.asked;
    at = h.registered.at;
    event = h.registered.event;
    same = h.registered.same;
  };
  approval = λ id s. record {
    named = named;
    at = at;
    event = Memᴰ.head refl;
    in_time = unfold is_expired in fit;
    chosen = let same : chosen ≡ id = cc in e ∙ ap ok same;
  };
}

wrong_proof-IsTraced :
    (past : List Event) (c : Ceremony) → IsTraced past c → IsTraced past (wrong_proof c).0
unfolding wrong_proof
wrong_proof-IsTraced past c h =
    elim (Bool-cases (leb max_proof_attempts (count_attempt c.attempts))) [
      | inl out ↦ rw out (
          IsTraced-answered past c (count_attempt c.attempts) (refused guesses_reason) h
            (λ id e. cc))
      | inr few ↦ rw few (IsTraced-answered past c (count_attempt c.attempts) c.state h (λ id e. e))
    ]

approve_one-IsTraced :
    (past : List Event) (named : Option Bytes) (proof_ok : Bool) (now : ℕ) (c : Ceremony)
    → IsTimely now past c
    → IsTraced (approves c.nonce named proof_ok now ∷ past) (approve_one c named proof_ok).0
unfolding approve_one
approve_one-IsTraced past named proof_ok now c h = elim (Bool-cases (is_awaiting c.state)) [
  | inr answered ↦ rw answered (IsTraced-later _ past c h.traced)
  | inl awaits ↦ rw awaits (proved proof_ok (h.in_time awaits))
]
  where
    proved :
        (b : Bool)
        → is_expired c now ≡ false
        → IsTraced
            (approves c.nonce named b now ∷ past)
            (if not b then wrong_proof c else approve_chosen c (choose c.choices named)).0
    proved false fit = wrong_proof-IsTraced _ c (IsTraced-later _ past c h.traced)
    proved true fit =
        approve_chosen-IsTraced past c named now (choose c.choices named) refl fit
          (IsTraced-later _ past c h.traced)

-- Every ceremony on the desk is one that was registered, and an approved one was approved with proof
-- before its deadline.
on_first-IsTraced :
    (past : List Event) (named : Option Bytes) (proof_ok : Bool) (now : ℕ) (nonce : String)
    (cs : List Ceremony)
    → All (IsTimely now past) cs
    → All
        (IsTraced (approves nonce named proof_ok now ∷ past))
        (on_first nonce (λ c. approve_one c named proof_ok) cs).0
unfolding on_first
on_first-IsTraced past named proof_ok now nonce [] h = h
on_first-IsTraced past named proof_ok now nonce (c ∷ cs) (hc, hcs) =
    elim (Bool-cases (str_eq c.nonce nonce)) [
      | inl hit ↦ rw hit (
        subst
            (λ k. IsTraced (approves k named proof_ok now ∷ past) (approve_one c named proof_ok).0)
            ((str_eq_iff c.nonce nonce).0 hit) (approve_one-IsTraced past named proof_ok now c hc),
        timely-later _ now past cs hcs,
      )
      | inr miss ↦ rw miss (
        IsTraced-later _ past c hc.traced,
        on_first-IsTraced past named proof_ok now nonce cs hcs,
      )
    ]

All-set_state :
    (past : List Event) (d : Desk) (nonce : String) (state : State) (now : ℕ)
    → ((id : Bytes) → state ≢ approved id)
    → (e : Event) → All (IsTraced past) d.pending
    → All (IsTraced (e ∷ past)) (set_state d nonce state now).0.pending
unfolding set_state
All-set_state past d nonce state now other e h =
    All-on_first (λ c. (record c { state = state }, ok tt)) (λ c. refl) (IsTraced (e ∷ past)) nonce
      (λ c _ t. IsTraced-answered (e ∷ past) c c.attempts state t (λ id q. absurd (other id q)))
      (expire now d).pending
      (timely-later e now past (expire now d).pending (expire-IsTimely now past d h))

apply-IsTraced :
    (e : Event) (past : List Event) (d : Desk)
    → All (IsTraced past) d.pending
    → All (IsTraced (e ∷ past)) (apply e d).pending
unfolding apply register approve refuse defer take_answered clear
apply-IsTraced (registers c now) past d h =
    admit-IsTraced past (expire now d) c now (check_register (expire now d) c)
      (expire-IsTimely now past d h)
apply-IsTraced (approves nonce named proof_ok now) past d h =
    on_first-IsTraced past named proof_ok now nonce (expire now d).pending
      (expire-IsTimely now past d h)
apply-IsTraced (refuses nonce reason now) past d h =
    All-set_state past d nonce (refused reason) now (λ id e. cc) (refuses nonce reason now) h
apply-IsTraced (defers nonce now) past d h =
    All-set_state past d nonce deferred now (λ id e. cc) (defers nonce now) h
apply-IsTraced (takes nonce collector now) past d h =
    All-take_first (IsTraced (takes nonce collector now ∷ past)) (collectable nonce collector)
      (expire now d).pending
      (timely-later _ now past (expire now d).pending (expire-IsTimely now past d h))
apply-IsTraced clears past d h = tt

-- Every ceremony that stands on the desk, after any history, is one that was registered, with all
-- that it asked for unchanged; and if it is approved for a credential, an approval with its nonce and
-- the proof was given before its deadline, and chose that credential among its choices.
pub after-IsTraced : (past : List Event) → All (IsTraced past) (after past).pending
unfolding after new
after-IsTraced [] = tt
after-IsTraced (e ∷ past) = apply-IsTraced e past (after past) (after-IsTraced past)
