-- ===== src/Policy/Examples.antt =====
-- Runs of the approvals, and their theorems at concrete inputs.
use blackbag.Common.{
  ◌≡◌, ◌≢◌, inl, inr, refl, true, false, none, some, List, [], ◌∷◌, String, str_eq, str_eq_iff,
  length, filter,
}
use blackbag.Common.Sets.{member}
use blackbag.Policy.{
  reveal, copy, for_peer, remembered, must_ask, blocked, Approvals, consider, grant, revoke,
  revoke_client,
}
use blackbag.Policy.History.{Event, grants, locks_down, trusts, after, consider-after}
use blackbag.Policy.Clients.{revoke_lem, revoke_client_lem, grant-unnamed}

abbrev day : List Event
day = locks_down true ∷ grants "brave" "rec-1" reveal ∷ trusts "deck" ∷ []

consider-after_example : consider (after day) "deck" "rec-1" reveal ≡ blocked
consider-after_example = consider-after day "deck" "rec-1" reveal

abbrev two_grants : Approvals
two_grants = record {
  granted =
      record { client = "brave"; item = "rec-1"; capability = reveal }
      ∷ record { client = "curl"; item = "rec-1"; capability = reveal }
      ∷ [];
  lockdown = false;
  trusted = [];
}

revoke_lem_example :
    let (a', was) = revoke two_grants "brave" "rec-1" reveal in
    (was ≡ true → consider two_grants "brave" "rec-1" reveal ≡ remembered)
    × (was ≡ false → consider two_grants "brave" "rec-1" reveal ≡ must_ask)
    × (consider a' "brave" "rec-1" reveal ≡ must_ask)
    × ((revoke a' "brave" "rec-1" reveal).1 ≡ false)
unfolding member
revoke_lem_example = revoke_lem two_grants "brave" "rec-1" reveal refl refl

brave_not_curl : ◌≢◌ {A = String} "brave" "curl"
brave_not_curl e = cc ((str_eq_iff "brave" "curl").1 e)

revoke_client_lem_example :
    ((revoke_client two_grants "brave").1
      ≡ length (filter (λ g. str_eq g.client "brave") two_grants.granted))
    × (consider (revoke_client two_grants "brave").0 "curl" "rec-1" reveal
        ≡ consider two_grants "curl" "rec-1" reveal)
    × (consider (revoke_client two_grants "brave").0 "brave" "rec-1" reveal ≡ must_ask)
revoke_client_lem_example =
    revoke_client_lem two_grants "brave" "curl" "rec-1" reveal brave_not_curl

-- A formatter of pids, for texts as pids.
abbrev same_text : String → String
same_text s = s

two_pids : ◌≢◌ {A = String} "111" "222"
two_pids e = cc ((str_eq_iff "111" "222").1 e)

grant-unnamed_example :
    (consider (grant two_grants "pid:111" "rec-1" copy) "pid:222" "rec-1" copy
      ≡ consider two_grants "pid:222" "rec-1" copy)
    × (consider (grant two_grants "pid:111" "rec-1" copy) "pid:111" "rec-1" copy ≡ remembered)
unfolding for_peer
grant-unnamed_example =
    grant-unnamed same_text two_grants none (some "") "111" "222" "rec-1" "rec-1" copy copy
      (λ p q e. e) (inl refl) (inr refl) two_pids
