-- ===== src/Consent/Ceremony.antt =====
-- The data of crates/blackbag-core/src/consent.rs. An instant is a count of nanoseconds.
use blackbag.Common.{
  ℕ, ◌+◌, ◌*◌, Bool, true, false, Option, none, some, List, [], ◌∷◌, String, leb, str_eq,
}
use blackbag.Common.Bytes.{Bytes}
use blackbag.Common.Assoc.{is_some}
use blackbag.Common.Int.{ℤ}

-- `Duration::seconds`
abbrev pub seconds : ℕ → ℕ
seconds n = n * 1_000_000_000

abbrev pub ceremony_ttl_secs : ℕ
ceremony_ttl_secs = 120

abbrev pub max_pending : ℕ
max_pending = 8

abbrev pub max_proof_attempts : ℕ
max_proof_attempts = 3

pub data Operation : Type 0 where
  create assert : Operation

pub record Choice : Type 0 where
  pub record_id : String
  pub credential_id : Bytes
  pub label : String

pub data State : Type 0 where
  awaiting_human : State
  approved : Bytes → State
  refused : String → State
  deferred : State

pub record Ceremony : Type 0 where
  pub nonce : String
  pub operation : Operation
  pub origin : String
  pub rp_id : String
  pub rp_name : Option String
  pub choices : List Choice
  pub challenge : String
  pub cross_origin : Bool
  pub client_data_hash : Option Bytes
  pub user_handle : Option Bytes
  pub user_name : Option String
  pub user_display_name : Option String
  pub algorithms : List ℤ
  pub want_prf : Bool
  pub prf_first_salt : Option Bytes
  pub prf_second_salt : Option Bytes
  pub owner : Option String
  pub requester : Option String
  pub registered_at : ℕ
  pub attempts : ℕ
  pub state : State

abbrev pub is_awaiting : State → Bool
is_awaiting awaiting_human = true
is_awaiting _ = false

abbrev pub is_assert : Operation → Bool
is_assert assert = true
is_assert create = false

abbrev pub is_empty {ℓ} : {A : Type ℓ} → List A → Bool
is_empty [] = true
is_empty (x ∷ xs) = false

-- `Option<&str> == Option<&str>`
abbrev pub opt_str_eq : Option String → Option String → Bool
opt_str_eq none none = true
opt_str_eq (some a) (some b) = str_eq a b
opt_str_eq _ _ = false

unfoldable pub expires_at : Ceremony → ℕ
expires_at c = c.registered_at + seconds ceremony_ttl_secs

unfoldable pub is_expired : Ceremony → ℕ → Bool
unfolding expires_at
is_expired c now = leb (expires_at c) now

pub record Summary : Type 0 where
  pub nonce : String
  pub operation : Operation
  pub origin : String
  pub via_security_key : Bool
  pub rp_id : String
  pub rp_name : Option String
  pub account : Option String
  pub requester : Option String
  pub choices : List Choice
  pub want_prf : Bool
  pub expires_at : ℕ

-- `user_name.clone().or_else(|| choices.first().map(|c| c.label.clone()))`
abbrev account_of : Option String → List Choice → Option String
account_of (some name) choices = some name
account_of none [] = none
account_of none (c ∷ cs) = some c.label

unfoldable pub summary : Ceremony → Summary
summary c = record {
  nonce = c.nonce;
  operation = c.operation;
  origin = c.origin;
  via_security_key = is_some c.client_data_hash;
  rp_id = c.rp_id;
  rp_name = c.rp_name;
  account = account_of c.user_name c.choices;
  requester = c.requester;
  choices = c.choices;
  want_prf = c.want_prf;
  expires_at = expires_at c;
}
