-- ===== src/Session/Examples/Closing.antt =====
-- Tests of how the agent of crates/blackbag-core/src/session.rs locks and expires.
use blackbag.Common.{◌≡◌, ◌⊎◌, true, refl, inl, none, some, List, [], ◌∷◌, arith}
use blackbag.Consent.Desk as Desk
use blackbag.Policy as Policy
use blackbag.Session.Dispatch.{dispatch, Event, round, signals, asks, after, happens}
use blackbag.Session.Expiry.{IsOver, IsClosed}
use blackbag.Session.Expiry.Answers.{dispatch-IsOver, asks_state, TellsNothing, round-IsClosed}
use blackbag.Session.Access as Access
use blackbag.Session.Keeps.Parts.{held}
use blackbag.Session.Life as Life
use blackbag.Session.Life.{client_of, publish}
use blackbag.Session.Step.{◌>>=◌, modify, gets, pure}
use blackbag.Session.Messages.{Request, reveal, unlock, lock}
use blackbag.Session.Sealed.{IsClear}
use blackbag.Session.Sealed.Invariant.{after-IsClear}
use blackbag.Session.State.{World, session_lock, new}
use blackbag.Session.Examples.{K, reports, parts, at_time, unlocked, caller}

abbrev script : List (World K × Event parts)
script =
    (at_time 0, asks (unlock "open"))
    ∷ (at_time 1, caller)
    ∷ (at_time 2, asks (reveal "mail" "password" none (some "open")))
    ∷ (at_time 3, signals session_lock)
    ∷ (at_time 4, round)
    ∷ (at_time 5, asks lock)
    ∷ []

after-IsClear_example : IsClear (after parts script (new 600))
unfolding new Policy.new Desk.new after happens dispatch Access.lock_now ◌>>=◌ modify publish gets
    pure Life.lock
after-IsClear_example = after-IsClear parts script (new 600) (refl, refl, refl, refl, refl) refl

abbrev asked : Request reports
asked = reveal "mail" "password" none (some "open")

late-IsOver : IsOver (at_time 20) unlocked
unfolding IsOver held
late-IsOver = inl (omega arith)

dispatch-IsOver_example :
    IsOver (at_time 20) (dispatch parts (at_time 20) asked unlocked).0
    × ((asks_state asked ≡ true)
        ⊎ TellsNothing parts (at_time 20) (dispatch parts (at_time 20) asked unlocked).1)
dispatch-IsOver_example = dispatch-IsOver parts (at_time 20) asked unlocked refl late-IsOver

round-IsClosed_example : IsClosed (happens parts (at_time 20) round unlocked)
round-IsClosed_example = round-IsClosed parts (at_time 20) unlocked late-IsOver
