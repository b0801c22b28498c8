-- ===== src/Ctap/Hid/Examples.antt =====
-- Runs of the framing, and its theorems at concrete inputs.
use blackbag.Common.{
  ◌≤◌, ◌<◌, ◌≡◌, ◌≢◌, refl, some, List, [], ◌∷◌, ◌++◌, map, arith, inr, length, take, replicate,
  All,
}
use blackbag.Common.Bytes.{Bytes}
use blackbag.Common.Assoc.{get, insert, remove, contains_key, Unique}
use blackbag.Ctap.Hid.{
  packet_len, max_message, max_open_channels, broadcast_cid, channel_busy, Message, Reassembler,
  continue, done, error, to_packets, new, is_busy, allocate, push_init, push_part, push_cont,
  push_on, push, push_all,
}
use blackbag.Ctap.Hid.Bounds.{
  IsValid, IsDelivered, new-IsValid, push-IsValid, push-IsDelivered, push_all-capped,
}
use blackbag.Ctap.Hid.Channels.{
  answers, push-get_other, push_busy, next_id, allocate_lem, allocate_times, allocate_counts,
}
use blackbag.Ctap.Hid.RoundTrip.{to_packets-length, IsSendable, deliver}

-- A PING of sixty bytes on channel 9, and a short one on channel 7.
abbrev long_ping : Message
long_ping = record { cid = 9; cmd = 1; payload = replicate 60 5 }

abbrev short_ping : Bytes
short_ping = 0 ∷ 0 ∷ 0 ∷ 7 ∷ 129 ∷ 0 ∷ 1 ∷ 42 ∷ []

abbrev head : List Bytes → Bytes
head [] = []
head (p ∷ ps) = p

abbrev rest : List Bytes → List Bytes
rest [] = []
rest (p ∷ ps) = ps

abbrev first_of : Message → Bytes
first_of m = head (to_packets m)

-- The short ping arrives between the two reports of the long one.
runs_interleaved :
    (push_all new (first_of long_ping ∷ short_ping ∷ rest (to_packets long_ping))).1
    ≡ continue ∷ done (record { cid = 7; cmd = 1; payload = 42 ∷ [] }) ∷ done long_ping ∷ []
unfolding push_all push push_on push_init push_cont push_part to_packets new get contains_key insert
    remove
runs_interleaved = refl

push-IsValid_example : IsValid (push new short_ping).0
push-IsValid_example = push-IsValid new short_ping new-IsValid

push_all-capped_example :
    (length (push_all new (short_ping ∷ short_ping ∷ [])).0.opened ≤ max_open_channels)
    × Unique (push_all new (short_ping ∷ short_ping ∷ [])).0.opened
push_all-capped_example = push_all-capped (short_ping ∷ short_ping ∷ [])

push-IsDelivered_example : IsDelivered (push new short_ping).1
push-IsDelivered_example = push-IsDelivered new short_ping new-IsValid

push-get_other_example : get 9 (push new short_ping).0.opened ≡ get 9 new.opened
push-get_other_example = push-get_other new short_ping 9 refl

abbrev on_zero : Bytes
on_zero = 0 ∷ 0 ∷ 0 ∷ 0 ∷ 129 ∷ 0 ∷ 1 ∷ 42 ∷ []

abbrev half_open : Reassembler
half_open = record {
  opened = (9, record { cmd = 1; expect = 60; payload = replicate 57 5; next_seq = 0 }) ∷ [];
  next_cid = 0;
}

push_busy_example :
    push half_open (0 ∷ 0 ∷ 0 ∷ 9 ∷ 129 ∷ 0 ∷ 1 ∷ 42 ∷ []) ≡ (half_open, error 9 channel_busy)
unfolding is_busy contains_key
push_busy_example =
    push_busy half_open 0 0 0 9 1 0 1 (42 ∷ []) (omega arith) (omega arith) refl (omega arith)
      (omega arith)

allocate_lem_example :
    (allocate (record { opened = []; next_cid = 0xffff_fffe })
      ≡ (record { opened = []; next_cid = 1 }, some 1))
    × (next_id 0xffff_fffe ≢ 0)
    × (next_id 0xffff_fffe < broadcast_cid)
allocate_lem_example = allocate_lem (record { opened = []; next_cid = 0xffff_fffe }) (omega arith)

-- All ids were handed out once.
allocate_counts_example : (allocate (allocate_times 4294967294 new)).1 ≡ some 1
allocate_counts_example = allocate_counts 4294967294

to_packets-length_example : All (λ p. length p ≡ packet_len) (to_packets long_ping)
to_packets-length_example = to_packets-length long_ping

long_ping-IsSendable : IsSendable new long_ping
unfolding new contains_key
long_ping-IsSendable = record {
  word = omega arith;
  nonzero = omega arith;
  cmd_bound = omega arith;
  not_cancel = omega arith;
  broadcast = omega arith;
  room = inr (refl, omega arith);
}

deliver_example :
    answers 9 new (first_of long_ping ∷ short_ping ∷ rest (to_packets long_ping))
    ≡ map (λ _. continue) (rest (to_packets long_ping))
      ++ done (record long_ping { payload = take max_message long_ping.payload }) ∷ []
unfolding to_packets
deliver_example =
    deliver new long_ping (first_of long_ping) (rest (to_packets long_ping))
      (short_ping ∷ rest (to_packets long_ping)) long_ping-IsSendable refl refl
