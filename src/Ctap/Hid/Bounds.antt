-- ===== src/Ctap/Hid/Bounds.antt =====
-- What holds of the reassembler between two reports: the table of half-finished transactions stays
-- below its cap, and each of them lacks at least a byte of a message that fits.
use blackbag.Common.{
  ℕ, ◌+◌, ◌-◌, ◌*◌, ◌%◌, ◌≤◌, ◌<◌, ◌≡◌, ◌≢◌, refl, min, bit_and, Option, none, some, List, [], ◌∷◌,
  ◌++◌, arith, length, take, length-take, length-append, All,
}
use blackbag.Common.Bytes.{Bytes, from_be32, low_bits}
use blackbag.Common.Assoc.{
  get, insert, remove, contains_key-get, Unique, Unique-remove, Unique-insert, All-remove,
  All-insert, All-get, length-remove, length-insert,
}
use blackbag.Ctap.Hid.{
  max_message, max_open_channels, Partial, Reassembler, Step, done, new, push_init, push_part,
  push_cont, push_on, push, push_all,
}

pub record IsOpen (e : ℕ × Partial) : Type 0 where
  pub unfinished : length e.1.payload < e.1.expect
  pub fits : e.1.expect ≤ max_message
  pub seq_bound : e.1.next_seq < 128

pub record IsValid (r : Reassembler) : Type 0 where
  pub partials : All IsOpen r.opened
  pub capped : length r.opened ≤ max_open_channels
  pub unique : Unique r.opened

pub new-IsValid : IsValid new
unfolding new
new-IsValid = record { partials = tt; capped = omega arith; unique = tt }

remove-IsValid :
    (cid : ℕ) (r : Reassembler) → IsValid r → IsValid (record r { opened = remove cid r.opened })
remove-IsValid cid r h = record {
  partials = All-remove IsOpen cid r.opened h.partials;
  capped = omega (arith, length-remove cid r.opened, h.capped);
  unique = Unique-remove cid r.opened h.unique;
}

insert-IsValid :
    (cid : ℕ) (p : Partial) (r : Reassembler)
    → IsOpen (cid, p)
    → length (insert cid p r.opened) ≤ max_open_channels
    → IsValid r
    → IsValid (record r { opened = insert cid p r.opened })
insert-IsValid cid p r hp cap h = record {
  partials = All-insert IsOpen cid p r.opened hp h.partials;
  capped = cap;
  unique = Unique-insert cid p r.opened h.unique;
}

push_init-IsValid :
    (r : Reassembler) (cid cmd hi lo : ℕ) (rest : Bytes)
    → IsValid r
    → IsValid (push_init r cid cmd hi lo rest).0
unfolding push_init
push_init-IsValid r cid cmd hi lo rest h =
    let part : Partial = record {
      cmd = cmd;
      expect = hi * 256 + lo;
      payload = take (min (hi * 256 + lo) (length rest)) rest;
      next_seq = 0;
    } in
    ground (
      arith,
      remove-IsValid cid r h,
      length-take (min (hi * 256 + lo) (length rest)) rest,
      length-insert cid part r.opened,
      insert-IsValid cid part r,
    )

-- The transaction after one more continuation.
push_part-IsValid :
    (r : Reassembler) (cid seq : ℕ) (rest : Bytes) (part : Partial)
    → IsValid r
    → get cid r.opened ≡ some part
    → IsValid (push_part r cid seq rest part).0
unfolding push_part
push_part-IsValid r cid seq rest part h e =
    let have : ℕ = min (part.expect - length part.payload) (length rest) in
    let grown : Partial = record part {
      payload = part.payload ++ take have rest;
      next_seq = bit_and ((part.next_seq + 1) % 256) 0x7f;
    } in
    let was : IsOpen (cid, part) = All-get IsOpen cid part r.opened h.partials e in
    ground (
      arith,
      remove-IsValid cid r h,
      was,
      length-take have rest,
      length-append part.payload (take have rest),
      low_bits ((part.next_seq + 1) % 256),
      contains_key-get cid r.opened,
      length-insert cid grown r.opened,
      insert-IsValid cid grown r,
    )

push_cont-IsValid :
    (r : Reassembler) (cid seq : ℕ) (rest : Bytes) (found : Option Partial)
    → IsValid r
    → get cid r.opened ≡ found
    → IsValid (push_cont r cid seq rest found).0
unfolding push_cont
push_cont-IsValid r cid seq rest none h e = h
push_cont-IsValid r cid seq rest (some part) h e = push_part-IsValid r cid seq rest part h e

push_on-IsValid :
    (r : Reassembler) (cid byte hi lo : ℕ) (rest : Bytes)
    → IsValid r
    → IsValid (push_on r cid byte hi lo rest).0
unfolding push_on
push_on-IsValid r cid byte hi lo rest h = ground (
  arith,
  push_init-IsValid r cid (bit_and byte 0x7f) hi lo rest h,
  push_cont-IsValid r cid (bit_and byte 0x7f) (hi ∷ lo ∷ rest) (get cid r.opened) h refl,
)

pub push-IsValid : (r : Reassembler) (p : Bytes) → IsValid r → IsValid (push r p).0
unfolding push
push-IsValid r (a ∷ b ∷ c ∷ d ∷ byte ∷ hi ∷ lo ∷ rest) h = push_on-IsValid r _ byte hi lo rest h
push-IsValid r _ h = h

push_all-IsValid : (r : Reassembler) (ps : List Bytes) → IsValid r → IsValid (push_all r ps).0
unfolding push_all
push_all-IsValid r [] h = h
push_all-IsValid r (p ∷ ps) h = push_all-IsValid (push r p).0 ps (push-IsValid r p h)

-- A message that `push` hands over names a channel other than 0 and fits the specification's limit.
abbrev pub IsDelivered : Step → Type 0
IsDelivered (done m) = (m.cid ≢ 0) × (length m.payload ≤ max_message)
IsDelivered _ = Unit {0}

push_init-IsDelivered :
    (r : Reassembler) (cid cmd hi lo : ℕ) (rest : Bytes)
    → cid ≢ 0
    → IsDelivered (push_init r cid cmd hi lo rest).1
unfolding push_init
push_init-IsDelivered r cid cmd hi lo rest h =
    ground (arith, length-take (min (hi * 256 + lo) (length rest)) rest)

push_cont-IsDelivered :
    (r : Reassembler) (cid seq : ℕ) (rest : Bytes) (found : Option Partial)
    → cid ≢ 0
    → IsValid r
    → get cid r.opened ≡ found
    → IsDelivered (push_cont r cid seq rest found).1
unfolding push_cont push_part
push_cont-IsDelivered r cid seq rest none h v e = tt
push_cont-IsDelivered r cid seq rest (some part) h v e =
    let was : IsOpen (cid, part) = All-get IsOpen cid part r.opened v.partials e in
    ground (arith, was)

pub push-IsDelivered : (r : Reassembler) (p : Bytes) → IsValid r → IsDelivered (push r p).1
unfolding push push_on
push-IsDelivered r (a ∷ b ∷ c ∷ d ∷ byte ∷ hi ∷ lo ∷ rest) v =
    let cid : ℕ = from_be32 a b c d in
    let cmd : ℕ = bit_and byte 0x7f in
    ground (
      arith,
      push_init-IsDelivered r cid cmd hi lo rest,
      push_cont-IsDelivered r cid cmd (hi ∷ lo ∷ rest) (get cid r.opened),
    )
push-IsDelivered r _ v = tt

-- After any reports whatever, the table holds at most 64 transactions, one for each channel.
pub push_all-capped :
    (ps : List Bytes)
    → (length (push_all new ps).0.opened ≤ max_open_channels) × Unique (push_all new ps).0.opened
push_all-capped ps =
    let v : IsValid (push_all new ps).0 = push_all-IsValid new ps new-IsValid in
    (v.capped, v.unique)
