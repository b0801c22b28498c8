-- ===== src/Record.antt =====
-- crates/blackbag-core/src/record.rs: the records of a vault. A secret is its bytes, a `Uuid` its
-- canonical text, a time a count of nanoseconds.
use blackbag.Common.{
  ℕ, ◌*◌, Bool, true, false, not, ◌&&◌, ◌||◌, Option, none, some, List, [], ◌∷◌, String, ltb, leb,
  ◌==◌, if◌then◌else◌, str_eq, length, any, find,
}
use blackbag.Common.Bytes.{Bytes}
use blackbag.Common.Int.{ℤ}
use blackbag.Common.Result.{Result, ok, ensure, ◌>>◌}
use blackbag.Common.Text.{codes, lower_codes, codes_eq, contains}
use blackbag.Totp.{TotpAlgorithm, sha1}
use Prim.Native.String.{len, ◌++◌ as ◌<>◌}

pub data Kind : Type 0 where
  login totp api ssh pgp wallet bank wifi id contact note recovery passkey : Kind

-- The place of a kind in `Kind::ALL`.
abbrev pub ordinal : Kind → ℕ
ordinal login = 0
ordinal totp = 1
ordinal api = 2
ordinal ssh = 3
ordinal pgp = 4
ordinal wallet = 5
ordinal bank = 6
ordinal wifi = 7
ordinal id = 8
ordinal contact = 9
ordinal note = 10
ordinal recovery = 11
ordinal passkey = 12

abbrev pub kind_eq : Kind → Kind → Bool
kind_eq a b = ordinal a == ordinal b

-- `Kind::ALL`
abbrev pub all_kinds : List Kind
all_kinds =
    login ∷ totp ∷ api ∷ ssh ∷ pgp ∷ wallet ∷ bank ∷ wifi ∷ id ∷ contact ∷ note ∷ recovery ∷ passkey
    ∷ []

unfoldable pub kind_str : Kind → String
kind_str login = "login"
kind_str totp = "totp"
kind_str api = "api"
kind_str ssh = "ssh"
kind_str pgp = "pgp"
kind_str wallet = "wallet"
kind_str bank = "bank"
kind_str wifi = "wifi"
kind_str id = "id"
kind_str contact = "contact"
kind_str note = "note"
kind_str recovery = "recovery"
kind_str passkey = "passkey"

-- `FromStr`: the name of a kind, in any case.
abbrev named : String → List Kind → Option Kind
named name ks = find (λ k. codes_eq (lower_codes name) (codes (kind_str k))) ks

unfoldable pub parse_kind : String → Option Kind
parse_kind name = named name all_kinds

abbrev pub Uuid : Type 0
Uuid = String

pub record Field : Type 0 where
  pub name : String
  pub secret : Bytes

pub record TotpConfig : Type 0 where
  pub issuer : Option String
  pub account : Option String
  pub digits : ℕ
  pub step : ℕ
  pub skew : ℕ
  pub algorithm : TotpAlgorithm

unfoldable pub default_totp : TotpConfig
default_totp = record {
  issuer = none;
  account = none;
  digits = 6;
  step = 30;
  skew = 1;
  algorithm = sha1;
}

-- `PasskeyConfig` of crates/blackbag-core/src/passkey.rs, and its `describe`.
pub record PasskeyConfig : Type 0 where
  pub credential_id : Bytes
  pub rp_id : String
  pub rp_name : Option String
  pub user_handle : Bytes
  pub user_name : Option String
  pub user_display_name : Option String
  pub algorithm : ℤ
  pub prf : Bool

unfoldable pub describe : PasskeyConfig → String
describe p = elim p.user_name [
  | some name ↦ if not (str_eq name "") then name <> " at " <> p.rp_id else p.rp_id
  | none ↦ p.rp_id
]

pub record Record : Type 0 where
  pub id : Uuid
  pub kind : Kind
  pub created_at : ℕ
  pub updated_at : ℕ
  pub title : Option String
  pub tags : List String
  pub attributes : List (String × String)
  pub fields : List Field
  pub totp : Option TotpConfig
  pub passkey : Option PasskeyConfig
  pub created_epoch : Option ℕ
  pub notes : Option Bytes

-- `Record::new`; the new `Uuid` and the time come from outside.
unfoldable pub new : Uuid → ℕ → Kind → Option String → Record
new uuid now kind title = record {
  id = uuid;
  kind = kind;
  created_at = now;
  updated_at = now;
  title = title;
  tags = [];
  attributes = [];
  fields = [];
  totp = none;
  passkey = none;
  created_epoch = none;
  notes = none;
}

abbrev pub value_of : Option (String × String) → Option String
value_of none = none
value_of (some (k, v)) = some v

unfoldable pub attribute : Record → String → Option String
attribute r name = value_of (find (λ kv. str_eq kv.0 name) r.attributes)

abbrev pub secret_of : Option Field → Option Bytes
secret_of none = none
secret_of (some f) = some f.secret

unfoldable pub field : Record → String → Option Bytes
field r name = secret_of (find (λ f. str_eq f.name name) r.fields)

abbrev in_title : (String → Bool) → Option String → Bool
in_title has none = false
in_title has (some t) = has t

-- `matches`: the needle is in the title, a tag, the kind's name or an attribute, whatever the case.
unfoldable pub matches : Record → String → Bool
matches r needle =
    let has : String → Bool = λ text. contains (lower_codes needle) (lower_codes text) in
    in_title has r.title
    || any has r.tags
    || contains (lower_codes needle) (codes (kind_str r.kind))
    || any (λ (k, v). has k || has v) r.attributes

-- `iter_mut().find` with the assignment to the one found, or a push.
unfoldable pub put_field : List Field → String → Bytes → List Field
put_field [] name secret = record { name = name; secret = secret } ∷ []
put_field (f ∷ fs) name secret =
    let rest = put_field fs name secret in
    if str_eq f.name name then record f { secret = secret } ∷ fs else f ∷ rest

unfoldable pub set_field : ℕ → Record → String → Bytes → Record
set_field now r name secret = record r { fields = put_field r.fields name secret; updated_at = now }

abbrev pub max_field_bytes : ℕ
max_field_bytes = 8 * 1024

abbrev pub max_note_bytes : ℕ
max_note_bytes = 256 * 1024

abbrev pub max_records : ℕ
max_records = 100_000

abbrev pub max_tags_per_record : ℕ
max_tags_per_record = 64

abbrev pub max_tag_len : ℕ
max_tag_len = 128

abbrev pub max_title_len : ℕ
max_title_len = 256

pub data VaultError : Type 0 where
  title_too_long too_many_tags tag_too_long attribute_too_large field_too_large : VaultError
  notes_too_large bad_totp_digits zero_totp_step vault_full not_found : VaultError
  -- what the file, its keys or the witness refused
  storage : String → VaultError

abbrev within : ℕ → Option ℕ → Bool
within limit none = true
within limit (some n) = leb n limit

abbrev map_length : Option Bytes → Option ℕ
map_length none = none
map_length (some b) = some (length b)

abbrev map_len : Option String → Option ℕ
map_len none = none
map_len (some t) = some (len t)

abbrev check_totp : Option TotpConfig → Result VaultError (Unit {0})
check_totp none = ok tt
check_totp (some t) = do
  ensure (leb 6 t.digits && leb t.digits 8) bad_totp_digits
  ensure (not (t.step == 0)) zero_totp_step

unfoldable pub validate : Record → Result VaultError (Unit {0})
validate r = do
  ensure (within max_title_len (map_len r.title)) title_too_long
  ensure (leb (length r.tags) max_tags_per_record) too_many_tags
  ensure (not (any (λ t. ltb max_tag_len (len t)) r.tags)) tag_too_long
  ensure (not (any (λ (k, v). ltb max_tag_len (len k) || ltb max_field_bytes (len v)) r.attributes))
      attribute_too_large
  ensure (not (any (λ f. ltb max_note_bytes (length f.secret)) r.fields)) field_too_large
  ensure (within max_note_bytes (map_length r.notes)) notes_too_large
  check_totp r.totp
