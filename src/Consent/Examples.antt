-- ===== src/Consent/Examples.antt =====
-- Runs of the desk, and its theorems at concrete inputs.
use blackbag.Common.{
  ◌≡◌, ◌≢◌, ◌⊎◌, refl, true, false, none, some, List, [], ◌∷◌, String, arith, All,
}
use blackbag.Common.Bytes.{bytes_eq}
use blackbag.Common.Result.{ok}
use blackbag.Consent.Ceremony.{Ceremony, assert, awaiting_human, approved, is_awaiting, is_expired}
use blackbag.Consent.Desk.{
  new, lapse, retained, expire, check_binding, check_register, fresh, admit, register, choose,
  wrong_proof, approve_chosen, approve_one, on_first, approve, collectable, take_first,
  take_answered,
}
use blackbag.Consent.Invariant.{IsValid, new-IsValid, register-IsValid, approve-IsValid}
use blackbag.Consent.Answers.{take_answered_lem, take_answered_once}
use blackbag.Consent.Trace.{Event, registers, approves, apply, after, IsTraced}
use blackbag.Consent.Provenance.{after-IsTraced}
use blackbag.Consent.Guesses.{after-IsValid, apply_all, apply_all-IsValid, guesses_run_out}

abbrev key : String
key = "0123456789abcdef0123456789abcdef"

abbrev ask : Ceremony
ask = record {
  nonce = key;
  operation = assert;
  origin = "https://example.com";
  rp_id = "example.com";
  rp_name = none;
  choices = record { record_id = "r1"; credential_id = 1 ∷ 2 ∷ []; label = "ada" } ∷ [];
  challenge = "AAAA";
  cross_origin = false;
  client_data_hash = none;
  user_handle = none;
  user_name = none;
  user_display_name = none;
  algorithms = [];
  want_prf = false;
  prf_first_salt = none;
  prf_second_salt = none;
  owner = some "brave";
  requester = some "brave";
  registered_at = 0;
  attempts = 0;
  state = awaiting_human;
}

-- Asked at instant 5, guessed wrong at 6, approved at 7.
abbrev history : List Event
history = approves key none true 7 ∷ approves key none false 6 ∷ registers ask 5 ∷ []

abbrev signed : Ceremony
signed = record ask { registered_at = 5; attempts = 1; state = approved (1 ∷ 2 ∷ []) }

runs_to_approval : (take_answered (after history) key (some "brave") 8).1 ≡ some signed
unfolding after apply take_answered register approve expire new lapse retained check_register
    check_binding fresh admit choose wrong_proof approve_chosen approve_one on_first collectable
    take_first is_expired bytes_eq
runs_to_approval = refl

-- Another program gets nothing.
runs_for_stranger : (take_answered (after history) key (some "curl") 8).1 ≡ none
unfolding after apply take_answered register approve expire new lapse retained check_register
    check_binding fresh admit choose wrong_proof approve_chosen approve_one on_first collectable
    take_first is_expired bytes_eq
runs_for_stranger = refl

after-IsTraced_example : All (IsTraced history) (after history).pending
after-IsTraced_example = after-IsTraced history

take_answered_lem_example :
    (signed.nonce ≡ key)
    × (is_awaiting signed.state ≡ false)
    × ((signed.owner ≡ none) ⊎ (signed.owner ≡ some "brave"))
take_answered_lem_example =
    take_answered_lem (after history) key (some "brave") 8 signed runs_to_approval

take_answered_once_example :
    (take_answered (take_answered (after history) key (some "brave") 8).0 key none 9).1 ≡ none
take_answered_once_example =
    take_answered_once (after history) key (some "brave") none 8 9 signed (after-IsValid history)
      runs_to_approval

after-IsValid_example : IsValid (after history)
after-IsValid_example = after-IsValid history

approve-IsValid_example : IsValid (approve new key none true 7).0
approve-IsValid_example = approve-IsValid new key none true 7 new-IsValid

register-IsValid_example : IsValid (register new ask 5).0
register-IsValid_example = register-IsValid new ask 5 new-IsValid

apply_all-IsValid_example : IsValid (apply_all history new)
apply_all-IsValid_example = apply_all-IsValid history new new-IsValid

abbrev three_guesses : List Event
three_guesses =
    approves key none false 9 ∷ approves key none false 8 ∷ approves key none false 7 ∷ []

guesses_run_out_example :
    (approve (apply_all three_guesses (register new ask 5).0) key none true 10).1 ≢ ok tt
guesses_run_out_example =
    guesses_run_out key three_guesses (register new ask 5).0 none true 10
      (register-IsValid new ask 5 new-IsValid) refl (omega arith)
