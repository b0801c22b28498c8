-- ===== src/Ssh/Agent.antt =====
-- crates/blackbag-core/src/ssh/agent.rs: the answer to one request of a client. The vault that lists
-- the keys and signs is a parameter, with a state of its own. A comment is its bytes.
pub mod Requests
pub mod Answers
mod Examples
use blackbag.Common.{
  ℕ, ◌≡◌, Bool, true, false, Option, none, some, List, [], ◌∷◌, ◌++◌, ltb, ◌==◌, not, if◌then◌else◌,
  length,
}
use blackbag.Common.Bytes.{Bytes}
use blackbag.Common.Result.{Result, ok, err, to_option, and_then}
use blackbag.Ssh.Wire.{
  Reader, WireError, new, is_empty, u8, u32, string, Writer, new_writer, put_u8, put_u32,
  put_string, into_bytes,
}

abbrev pub request_identities : ℕ
request_identities = 11

abbrev pub sign_request : ℕ
sign_request = 13

abbrev pub reply_failure : ℕ
reply_failure = 5

abbrev pub reply_identities_answer : ℕ
reply_identities_answer = 12

abbrev pub reply_sign_response : ℕ
reply_sign_response = 14

pub record Identity : Type 0 where
  pub key_blob : Bytes
  pub comment : Bytes

-- The trait `Signer`, over the state of the vault.
pub record Signer (S : Type 0) : Type 0 where
  pub identities : S → List Identity × S
  pub sign : Bytes → Bytes → ℕ → S → Option Bytes × S

unfoldable pub parse_sign : Reader → Option (Bytes × Bytes × ℕ)
parse_sign r = and_then (to_option (string r)) λ (key_blob, r).
    and_then (to_option (string r)) λ (bytes, r).
      and_then (to_option (u32 r))
        λ (flags, r). if not (is_empty r) then none else some (key_blob, bytes, flags)

unfoldable pub failure : Bytes
failure = into_bytes (put_u8 new_writer reply_failure)

-- The loop of `identities_answer`.
abbrev pub put_identities : Writer → List Identity → Writer
put_identities w [] = w
put_identities w (id ∷ ids) = put_identities (put_string (put_string w id.key_blob) id.comment) ids

unfoldable pub identities_answer : List Identity → Bytes
identities_answer ids =
    into_bytes
      (put_identities (put_u32 (put_u8 new_writer reply_identities_answer) (length ids)) ids)

unfoldable pub sign_response : Bytes → Bytes
sign_response signature_blob =
    into_bytes (put_string (put_u8 new_writer reply_sign_response) signature_blob)

module _ {S : Type 0} (signer : Signer S) where
  open signer use {identities, sign}

  -- What `respond` makes of the answer of `sign`.
  abbrev pub signed : Option Bytes × S → Bytes × S
  signed (some sig, s) = (sign_response sig, s)
  signed (none, s) = (failure, s)

  abbrev pub respond_sign : Option (Bytes × Bytes × ℕ) → S → Bytes × S
  respond_sign none s = (failure, s)
  respond_sign (some (key_blob, bytes, flags)) s = signed (sign key_blob bytes flags s)

  abbrev pub respond_identities : List Identity × S → Bytes × S
  respond_identities (ids, s) = (identities_answer ids, s)

  -- The arms for the other requests all answer `failure`.
  abbrev pub respond_kind : ℕ → Reader → S → Bytes × S
  respond_kind kind r s =
      if kind == request_identities
      then respond_identities (identities s)
      else if kind == sign_request
      then respond_sign (parse_sign r) s
      else (failure, s)

  abbrev pub respond_read : Result WireError (ℕ × Reader) → S → Bytes × S
  respond_read (err e) s = (failure, s)
  respond_read (ok (kind, r)) s = respond_kind kind r s

  unfoldable pub respond : Bytes → S → Bytes × S
  respond request s = respond_read (u8 (new request)) s
