-- ===== src/Consent/Desk.antt =====
-- The operations of `Desk` in crates/blackbag-core/src/consent.rs. `pending` is the source's vector,
-- oldest first. An operation returns the desk that it leaves beside its result, since it expires old
-- ceremonies on its error paths too.
use Prim.Native.String.{len}
use blackbag.Common.{
  ℕ, ◌+◌, Bool, not, ◌&&◌, ◌||◌, Option, none, some, List, [], ◌∷◌, ◌++◌, map, String, min, ltb,
  leb, ◌==◌, if◌then◌else◌, str_eq, length, any, filter, find,
}
use blackbag.Common.Bytes.{Bytes, bytes_eq}
use blackbag.Common.Assoc.{is_some}
use blackbag.Common.Result.{Result, ok, err, ensure, ◌>>◌}
use blackbag.Consent.Ceremony.{
  seconds, ceremony_ttl_secs, max_pending, max_proof_attempts, Choice, State, awaiting_human,
  approved, refused, deferred, Ceremony, is_awaiting, is_assert, is_empty, opt_str_eq, expires_at,
  is_expired, Summary, summary,
}

-- A reason for `bail!`, one for each in the source.
pub data DeskError : Type 0 where
  too_many_pending short_nonce nonce_in_use no_credential : DeskError
  bad_hash_length hash_with_origin no_binding : DeskError
  not_waiting already_answered wrong_passphrase request_refused : DeskError
  not_a_choice must_name_choice : DeskError

pub record Desk : Type 0 where
  pub pending : List Ceremony

unfoldable pub new : Desk
new = record { pending = [] }

abbrev pub expired_reason : String
expired_reason = "the request expired before it was answered"

abbrev pub guesses_reason : String
guesses_reason = "too many wrong passphrases; the request was refused"

-- The body of the loop of `expire`, and the test of its `retain`.
unfoldable pub lapse : ℕ → Ceremony → Ceremony
unfolding is_expired
lapse now c =
    if is_awaiting c.state && is_expired c now
    then record c { state = refused expired_reason }
    else c

unfoldable pub retained : ℕ → Ceremony → Bool
unfolding expires_at
retained now c = ltb now (expires_at c + seconds ceremony_ttl_secs)

unfoldable pub expire : ℕ → Desk → Desk
expire now d = record { pending = filter (retained now) (map (lapse now) d.pending) }

-- The binding of a ceremony: a hash of 32 bytes alone, or an origin and a challenge.
unfoldable pub check_binding : Ceremony → Option Bytes → Result DeskError (Unit {0})
check_binding c (some hash) = do
  ensure (length hash == 32) bad_hash_length
  ensure (str_eq c.origin "" && str_eq c.challenge "") hash_with_origin
check_binding c none = ensure (not (str_eq c.origin "") && not (str_eq c.challenge "")) no_binding

-- The tests of `register` on a desk that is already expired, in their order.
unfoldable pub check_register : Desk → Ceremony → Result DeskError (Unit {0})
check_register d c = do
  ensure (ltb (length d.pending) max_pending) too_many_pending
  ensure (leb 32 (len c.nonce)) short_nonce
  ensure (not (any (λ p. str_eq p.nonce c.nonce) d.pending)) nonce_in_use
  ensure (not (is_assert c.operation && is_empty c.choices)) no_credential
  check_binding c c.client_data_hash

-- What `register` pushes.
unfoldable pub fresh : ℕ → Ceremony → Ceremony
fresh now c = record c { state = awaiting_human; registered_at = now; attempts = 0 }

-- The end of `register`, after its tests.
unfoldable pub admit :
    Desk → Ceremony → ℕ → Result DeskError (Unit {0}) → Desk × Result DeskError String
admit d c now (ok _) = (record { pending = d.pending ++ fresh now c ∷ [] }, ok c.nonce)
admit d c now (err e) = (d, err e)

unfoldable pub register : Desk → Ceremony → ℕ → Desk × Result DeskError String
register d c now = admit (expire now d) c now (check_register (expire now d) c)

-- Which credential an approval names.
unfoldable pub choose : List Choice → Option Bytes → Result DeskError Bytes
choose choices (some id) = elim (find (λ c. bytes_eq c.credential_id id) choices) [
  | some c ↦ ok c.credential_id
  | none ↦ err not_a_choice
]
choose [] none = ok []
choose (only ∷ []) none = ok only.credential_id
choose (_ ∷ _ ∷ _) none = err must_name_choice

-- `attempts.saturating_add(1)` on a `u8`.
abbrev pub count_attempt : ℕ → ℕ
count_attempt n = min (n + 1) 255

-- The branch of `approve` for a false proof.
unfoldable pub wrong_proof : Ceremony → Ceremony × Result DeskError (Unit {0})
wrong_proof c =
    if leb max_proof_attempts (count_attempt c.attempts)
    then (
      record c { attempts = count_attempt c.attempts; state = refused guesses_reason },
      err request_refused,
    )
    else (record c { attempts = count_attempt c.attempts }, err wrong_passphrase)

-- The end of `approve`, with the credential that was chosen.
unfoldable pub approve_chosen :
    Ceremony → Result DeskError Bytes → Ceremony × Result DeskError (Unit {0})
approve_chosen c (ok chosen) = (record c { state = approved chosen }, ok tt)
approve_chosen c (err e) = (c, err e)

-- What `approve` does to the ceremony that it found.
unfoldable pub approve_one : Ceremony → Option Bytes → Bool → Ceremony × Result DeskError (Unit {0})
approve_one c credential_id proof_ok =
    if not (is_awaiting c.state)
    then (c, err already_answered)
    else if not proof_ok
    then wrong_proof c
    else approve_chosen c (choose c.choices credential_id)

-- `iter_mut().find(|c| c.nonce == nonce)` and a change of the ceremony found.
unfoldable pub on_first :
    String
    → (Ceremony → Ceremony × Result DeskError (Unit {0}))
    → List Ceremony
    → List Ceremony × Result DeskError (Unit {0})
on_first nonce f [] = ([], err not_waiting)
on_first nonce f (c ∷ cs) =
    let (c', r) = f c in
    let (cs', r') = on_first nonce f cs in
    if str_eq c.nonce nonce then (c' ∷ cs, r) else (c ∷ cs', r')

unfoldable pub approve :
    Desk → String → Option Bytes → Bool → ℕ → Desk × Result DeskError (Unit {0})
approve d nonce credential_id proof_ok now =
    let (cs, r) =
      on_first nonce (λ c. approve_one c credential_id proof_ok) (expire now d).pending in
    (record { pending = cs }, r)

unfoldable pub set_state : Desk → String → State → ℕ → Desk × Result DeskError (Unit {0})
set_state d nonce state now =
    let (cs, r) =
      on_first nonce (λ c. (record c { state = state }, ok tt)) (expire now d).pending in
    (record { pending = cs }, r)

unfoldable pub refuse : Desk → String → String → ℕ → Desk × Result DeskError (Unit {0})
unfolding set_state
refuse d nonce reason now = set_state d nonce (refused reason) now

unfoldable pub defer : Desk → String → ℕ → Desk × Result DeskError (Unit {0})
unfolding set_state
defer d nonce now = set_state d nonce deferred now

-- The test of `position` in `take_answered`.
unfoldable pub collectable : String → Option String → Ceremony → Bool
collectable nonce collector c =
    str_eq c.nonce nonce
    && not (is_awaiting c.state)
    && (not (is_some c.owner) || opt_str_eq c.owner collector)

-- `position` and `Vec::remove` together.
unfoldable pub take_first : (Ceremony → Bool) → List Ceremony → List Ceremony × Option Ceremony
take_first p [] = ([], none)
take_first p (c ∷ cs) = let (cs', r) = take_first p cs in if p c then (cs, some c) else (c ∷ cs', r)

unfoldable pub take_answered : Desk → String → Option String → ℕ → Desk × Option Ceremony
take_answered d nonce collector now =
    let (cs, r) = take_first (collectable nonce collector) (expire now d).pending in
    (record { pending = cs }, r)

unfoldable pub is_waiting : Desk → String → Bool
is_waiting d nonce = any (λ c. str_eq c.nonce nonce && is_awaiting c.state) d.pending

unfoldable pub summaries : Desk → ℕ → List Summary
summaries d now =
    map summary (filter (λ c. is_awaiting c.state && not (is_expired c now)) d.pending)

unfoldable pub clear : Desk → Desk
clear d = record { pending = [] }
