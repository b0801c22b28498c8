-- ===== src/Ctap/Hid.antt =====
-- crates/blackbag-core/src/ctap/hid.rs: messages split into 64-byte reports, and the reassembler
-- that puts them together again, one transaction per channel. A byte string is a list of numbers,
-- and `HashMap<u32, Partial>` is an association list. The field that the source calls `data` is
-- `payload` here. Arithmetic on `u8` and `u32` wraps where the source's does.
pub mod Bounds
pub mod Channels
mod Continuations
pub mod RoundTrip
mod Examples
use blackbag.Common.{
  ℕ, zero, suc, ◌+◌, ◌-◌, ◌*◌, ◌/◌, ◌%◌, ◌<◌, ◌≤◌, min, bit_and, bit_or, Bool, true, false, not,
  ◌&&◌, Option, none, some, List, [], ◌∷◌, ◌++◌, ltb, leb, ◌==◌, if◌then◌else◌, length, take, drop,
  replicate,
}
use blackbag.Common.Bytes.{Bytes, be32, from_be32}
use blackbag.Common.Assoc.{Assoc, get, contains_key, insert, remove}

-- `PACKET`
abbrev pub packet_len : ℕ
packet_len = 64

abbrev pub max_message : ℕ
max_message = 7609

abbrev pub max_open_channels : ℕ
max_open_channels = 64

abbrev pub broadcast_cid : ℕ
broadcast_cid = 0xffff_ffff

-- `cmd::INIT` and `cmd::CANCEL`, the two commands that the framing looks at.
abbrev pub cmd_init : ℕ
cmd_init = 0x06

abbrev pub cmd_cancel : ℕ
cmd_cancel = 0x11

-- The codes of `err` that the reassembler answers with.
abbrev pub invalid_len : ℕ
invalid_len = 0x03

abbrev pub invalid_seq : ℕ
invalid_seq = 0x04

abbrev pub channel_busy : ℕ
channel_busy = 0x06

abbrev pub invalid_channel : ℕ
invalid_channel = 0x0b

pub record Message : Type 0 where
  pub cid : ℕ
  pub cmd : ℕ
  pub payload : Bytes

-- The continuation packets for what is left to send, `data[sent..len]`. Each round sends a byte at
-- least, so as many rounds as bytes are enough.
pub cont_packets : ℕ → ℕ → ℕ → Bytes → List Bytes
cont_packets zero cid seq left = []
cont_packets (suc fuel) cid seq [] = []
cont_packets (suc fuel) cid seq (b ∷ bs) =
    let left = b ∷ bs in
    let n = min (length left) (packet_len - 5) in
    (be32 cid ++ bit_and seq 0x7f ∷ take n left ++ replicate (packet_len - 5 - n) 0)
    ∷ cont_packets fuel cid ((seq + 1) % 256) (drop n left)

-- `len >> 8` and `len & 0xff` are `len / 256` and `len % 256`; the length is below 2 ^ 16.
pub to_packets : Message → List Bytes
unfolding cont_packets
to_packets m =
    let len = min (length m.payload) max_message in
    let first = min len (packet_len - 7) in
    let sent = take len m.payload in
    (be32 m.cid
      ++ bit_or m.cmd 0x80 ∷ len / 256 ∷ len % 256 ∷ take first sent
      ++ replicate (packet_len - 7 - first) 0)
    ∷ cont_packets (len - first) m.cid 0 (drop first sent)

pub data Step : Type 0 where
  continue : Step
  done : Message → Step
  error : ℕ → ℕ → Step

pub record Partial : Type 0 where
  pub cmd : ℕ
  pub expect : ℕ
  pub payload : Bytes
  pub next_seq : ℕ

pub record Reassembler : Type 0 where
  pub opened : Assoc Partial
  pub next_cid : ℕ

unfoldable pub new : Reassembler
new = record { opened = []; next_cid = 0 }

-- The loop passes over 0xffff_ffff and 0, so it makes three rounds at most.
allocate_loop : ℕ → Reassembler → Reassembler × Option ℕ
allocate_loop zero r = (r, none)
allocate_loop (suc fuel) r =
    let next = (r.next_cid + 1) % 4294967296 in
    let r' = record r { next_cid = next } in
    let again = allocate_loop fuel r' in
    if not (next == 0) && not (next == broadcast_cid) then (r', some next) else again

pub allocate : Reassembler → Reassembler × Option ℕ
unfolding allocate_loop
allocate r = allocate_loop 3 r

pub cancel : Reassembler → ℕ → Reassembler
cancel r cid = record r { opened = remove cid r.opened }

pub is_busy : Reassembler → ℕ → Bool
is_busy r cid = contains_key cid r.opened

-- The branch of `push` for a packet whose fifth byte has the top bit; `hi` and `lo` are bytes 5 and
-- 6, and `rest` is `packet[7..]`.
pub push_init : Reassembler → ℕ → ℕ → ℕ → ℕ → Bytes → Reassembler × Step
push_init r cid cmd hi lo rest =
    let expect = hi * 256 + lo in
    let have = min expect (length rest) in
    let payload = take have rest in
    if cmd == cmd_cancel
    then (
      record r { opened = remove cid r.opened },
      done (record { cid = cid; cmd = cmd; payload = [] }),
    )
    else if contains_key cid r.opened && not (cmd == cmd_init)
    then (r, error cid channel_busy)
    else if ltb max_message expect
    then (r, error cid invalid_len)
    else if cid == broadcast_cid && not (cmd == cmd_init)
    then (r, error cid invalid_channel)
    else if have == expect
    then (
      record r { opened = remove cid r.opened },
      done (record { cid = cid; cmd = cmd; payload = payload }),
    )
    else if not (contains_key cid r.opened) && leb max_open_channels (length r.opened)
    then (r, error cid channel_busy)
    else (
      record r {
        opened =
            insert cid (record { cmd = cmd; expect = expect; payload = payload; next_seq = 0 })
              r.opened;
      },
      continue,
    )

-- A continuation for the transaction `part` of the channel; `rest` is `packet[5..]`. The mutable
-- borrow of the entry is written back by `insert`.
pub push_part : Reassembler → ℕ → ℕ → Bytes → Partial → Reassembler × Step
push_part r cid seq rest part =
    let next_seq = bit_and ((part.next_seq + 1) % 256) 0x7f in
    let have = min (part.expect - length part.payload) (length rest) in
    let payload = part.payload ++ take have rest in
    if not (seq == part.next_seq)
    then (record r { opened = remove cid r.opened }, error cid invalid_seq)
    else if length payload == part.expect
    then (
      record r { opened = remove cid r.opened },
      done (record { cid = cid; cmd = part.cmd; payload = payload }),
    )
    else (
      record r {
        opened = insert cid (record part { payload = payload; next_seq = next_seq }) r.opened;
      },
      continue,
    )

pub push_cont : Reassembler → ℕ → ℕ → Bytes → Option Partial → Reassembler × Step
push_cont r cid seq rest none = (r, continue)
push_cont r cid seq rest (some part) = push_part r cid seq rest part

-- The tests of `push` after the header is read.
pub push_on : Reassembler → ℕ → ℕ → ℕ → ℕ → Bytes → Reassembler × Step
push_on r cid byte hi lo rest =
    if cid == 0
    then (r, error cid invalid_channel)
    else if not (bit_and byte 0x80 == 0)
    then push_init r cid (bit_and byte 0x7f) hi lo rest
    else push_cont r cid (bit_and byte 0x7f) (hi ∷ lo ∷ rest) (get cid r.opened)

-- The last clause is a packet of fewer than seven bytes.
unfoldable pub push : Reassembler → Bytes → Reassembler × Step
push r (a ∷ b ∷ c ∷ d ∷ byte ∷ hi ∷ lo ∷ rest) = push_on r (from_be32 a b c d) byte hi lo rest
push r short = (r, continue)

-- A run of reports, with the step that each gave.
unfoldable pub push_all : Reassembler → List Bytes → Reassembler × List Step
push_all r [] = (r, [])
push_all r (p ∷ ps) = let (r', s) = push r p in let (r'', ss) = push_all r' ps in (r'', s ∷ ss)

-- The response to INIT. The three numbers of the version come from the package's build environment.
unfoldable pub init_response : (major minor patch : ℕ) → Bytes → ℕ → ℕ → Bytes
init_response major minor patch nonce cid capabilities =
    nonce ++ be32 cid ++ 2 ∷ major ∷ minor ∷ patch ∷ capabilities ∷ []
