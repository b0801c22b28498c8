-- ===== src/Ctap/Hid/RoundTrip.antt =====
-- `push` puts together what `to_packets` took apart, whatever the other channels send meanwhile.
use blackbag.Common.{
  ℕ, zero, suc, ◌+◌, ◌-◌, ◌*◌, ◌/◌, ◌%◌, ◌^◌, ◌≤◌, ◌<◌, ◌≡◌, ◌≢◌, refl, ap, ◌∙◌, min, bit_and,
  bit_or, true, false, List, [], ◌∷◌, ◌++◌, map, arith, inl, inr, Bool-cases, leb, leb→le, ◌⊎◌,
  length, take, drop, replicate, filter, length-take, length-append, length-replicate, length-drop,
  take-take-append, take_all, take-min, All,
}
use blackbag.Common.Bytes.{Bytes, be32, from_be32-be32, low_bits, top_bit, set_top_bit}
use blackbag.Common.Assoc.{insert, remove, contains_key}
use blackbag.Ctap.Hid.{
  packet_len, max_message, max_open_channels, broadcast_cid, cmd_init, cmd_cancel, Message,
  Reassembler, Step, continue, done, cont_packets, to_packets, push_init, push_on, push,
}
use blackbag.Ctap.Hid.Channels.{is_on, answers, answers_on, answers_none}
use blackbag.Ctap.Hid.Continuations.{
  sending, whole, accepted, conts_answers, get-accepted, whole_regroup, drop_all, cont_packets-nil,
}

-- Every report that `to_packets` writes has exactly 64 bytes.
cont_packets-length :
    (fuel cid seq : ℕ) (left : Bytes)
    → All (λ p. length p ≡ packet_len) (cont_packets fuel cid seq left)
unfolding cont_packets
cont_packets-length zero cid seq left = tt
cont_packets-length (suc fuel) cid seq [] = tt
cont_packets-length (suc fuel) cid seq (b ∷ bs) =
    let left : Bytes = b ∷ bs in
    let n : ℕ = min (length left) 59 in
    (
      omega (
        arith,
        length-append (take n left) (replicate (59 - n) 0),
        length-take n left,
        length-replicate {A = ℕ} (59 - n) 0,
      ),
      cont_packets-length fuel cid ((seq + 1) % 256) (drop n left),
    )

pub to_packets-length : (m : Message) → All (λ p. length p ≡ packet_len) (to_packets m)
unfolding to_packets
to_packets-length m =
    let len : ℕ = min (length m.payload) max_message in
    let first : ℕ = min len 57 in
    let sent : Bytes = take len m.payload in
    (
      omega (
        arith,
        length-append (take first sent) (replicate (57 - first) 0),
        length-take first sent,
        length-take len m.payload,
        length-replicate {A = ℕ} (57 - first) 0,
      ),
      cont_packets-length (len - first) m.cid 0 (drop first sent),
    )

-- A message that the reassembler can take at this moment: a real channel, a command that a report can
-- carry and that is not CANCEL, and a channel that is free, with room in the table, or that INIT
-- interrupts.
pub record IsSendable (r : Reassembler) (m : Message) : Type 0 where
  pub word : m.cid < 2 ^ 32
  pub nonzero : m.cid ≢ 0
  pub cmd_bound : m.cmd < 128
  pub not_cancel : m.cmd ≢ cmd_cancel
  pub broadcast : m.cid ≡ broadcast_cid → m.cmd ≡ cmd_init
  pub room :
      ((contains_key m.cid r.opened ≡ true) × (m.cmd ≡ cmd_init))
      ⊎ ((contains_key m.cid r.opened ≡ false) × (length r.opened < max_open_channels))

-- The bytes of a message that are sent, and those of the first report behind its header.
abbrev sent : Message → Bytes
sent m = take (min (length m.payload) max_message) m.payload

abbrev first_bytes : Bytes → Bytes
first_bytes left = let n = min (length left) 57 in take n left ++ replicate (57 - n) 0

cmd_byte :
    (cmd : ℕ)
    → cmd < 128
    → (bit_and (bit_or cmd 0x80) 0x80 ≡ 128) × (bit_and (bit_or cmd 0x80) 0x7f ≡ cmd)
cmd_byte cmd h = ground (arith, set_top_bit cmd, top_bit (cmd + 128), low_bits (cmd + 128))

push-first :
    (r : Reassembler) (cid cmd len : ℕ) (rest : Bytes)
    → cid < 2 ^ 32
    → cid ≢ 0
    → cmd < 128
    → push r (be32 cid ++ bit_or cmd 0x80 ∷ len / 256 ∷ len % 256 ∷ rest)
      ≡ push_init r cid cmd (len / 256) (len % 256) rest
unfolding push push_on
push-first r cid cmd len rest word nz hc = ground (arith, from_be32-be32 cid word, cmd_byte cmd hc)

length-first_bytes : (left : Bytes) → length (first_bytes left) ≡ 57
length-first_bytes left =
    let n : ℕ = min (length left) 57 in
    omega (
      arith,
      length-append (take n left) (replicate (57 - n) 0),
      length-take n left,
      length-replicate {A = ℕ} (57 - n) 0,
    )

take-first_bytes :
    (left : Bytes)
    → take (min (length left) 57) (first_bytes left) ≡ take (min (length left) 57) left
take-first_bytes left =
    let n : ℕ = min (length left) 57 in take-take-append n left (replicate (57 - n) 0) (omega arith)

-- The first report, as `push_init` reads it: it opens a transaction, or it is the whole message.
push_init_single :
    (r : Reassembler) (m : Message) (left : Bytes)
    → IsSendable r m
    → length left ≤ 57
    → push_init r m.cid m.cmd (length left / 256) (length left % 256) (first_bytes left)
      ≡ (record r { opened = remove m.cid r.opened }, whole m.cid m.cmd [] left)
unfolding push_init
push_init_single r m left s h = ground (
  arith,
  s.broadcast,
  length-first_bytes left,
  take-first_bytes left,
  take_all (min (length left) 57) left,
)

push_init_more :
    (r : Reassembler) (m : Message) (hi lo : ℕ) (rest payload : Bytes)
    → IsSendable r m
    → hi * 256 + lo ≤ max_message
    → length rest < hi * 256 + lo
    → take (min (hi * 256 + lo) (length rest)) rest ≡ payload
    → push_init r m.cid m.cmd hi lo rest ≡ (
      record r {
        opened =
            insert m.cid
              (record { cmd = m.cmd; expect = hi * 256 + lo; payload = payload; next_seq = 0 })
              r.opened;
      },
      continue,
    )
unfolding push_init
push_init_more r m hi lo rest payload s fits more e = ground (arith, s.broadcast)

push_init_opens :
    (r : Reassembler) (m : Message) (left : Bytes)
    → IsSendable r m
    → 57 < length left
    → length left ≤ max_message
    → push_init r m.cid m.cmd (length left / 256) (length left % 256) (first_bytes left) ≡ (
      record r { opened = insert m.cid (sending m.cmd 0 (take 57 left) (drop 57 left)) r.opened },
      continue,
    )
push_init_opens r m left s h k =
    let len : length left / 256 * 256 + length left % 256
        ≡ length (take 57 left) + length (drop 57 left) =
      omega (arith, length-take 57 left, length-drop 57 left) in
    let m57 : min (length left) 57 ≡ 57 = omega arith in
    let n : min (length left / 256 * 256 + length left % 256) (length (first_bytes left))
        ≡ min (length left) 57 =
      omega (arith, length-first_bytes left) in
    push_init_more r m (length left / 256) (length left % 256) (first_bytes left) (take 57 left) s
      (omega arith) (omega (arith, length-first_bytes left))
      (rw n (take-first_bytes left ∙ ap (λ j. take j left) m57))
    ∙ rw len refl

module _ (r : Reassembler) (m : Message) (s : IsSendable r m) where
  length-sent : length (sent m) ≡ min (length m.payload) max_message
  length-sent = omega (arith, length-take (min (length m.payload) max_message) m.payload)

  -- Both halves of what `to_packets` writes, over the bytes that are sent.
  to_packets-sent :
      to_packets m
      ≡ (be32 m.cid
          ++ bit_or m.cmd 0x80
            ∷ length (sent m) / 256
            ∷ length (sent m) % 256
            ∷ first_bytes (sent m))
        ∷ cont_packets
            (length (sent m) - min (length (sent m)) 57)
            m.cid
            0
            (drop (min (length (sent m)) 57) (sent m))
  unfolding to_packets
  to_packets-sent = rw length-sent refl

  is_on-first :
      (rest : Bytes) (byte hi lo : ℕ) → is_on m.cid (be32 m.cid ++ byte ∷ hi ∷ lo ∷ rest) ≡ true
  is_on-first rest byte hi lo = ground (arith, from_be32-be32 m.cid s.word)

  -- The transaction, or the message, that the first report makes of the bytes `left`.
  abbrev after_first : Bytes → Reassembler × Step
  after_first left =
      push_init r m.cid m.cmd (length left / 256) (length left % 256) (first_bytes left)

  answers-first :
      (first : Bytes) (sched : List Bytes)
      → first
        ≡ be32 m.cid
          ++ bit_or m.cmd 0x80
            ∷ length (sent m) / 256
            ∷ length (sent m) % 256
            ∷ first_bytes (sent m)
      → answers m.cid r (first ∷ sched)
        ≡ (after_first (sent m)).1 ∷ answers m.cid (after_first (sent m)).0 sched
  answers-first first sched e =
      let left : Bytes = sent m in
      let step : push r first ≡ after_first left =
        ap (push r) e
        ∙ push-first r m.cid m.cmd (length left) (first_bytes left) s.word s.nonzero s.cmd_bound in
      let on : is_on m.cid first ≡ true = rw e (
        is_on-first (first_bytes left) (bit_or m.cmd 0x80) (length left / 256)
          (length left % 256)) in
      answers_on m.cid r first sched on ∙ rw step refl

  deliver_single :
      (conts sched : List Bytes)
      → length (sent m) ≤ 57
      → conts
        ≡ cont_packets
            (length (sent m) - min (length (sent m)) 57)
            m.cid
            0
            (drop (min (length (sent m)) 57) (sent m))
      → filter (is_on m.cid) sched ≡ conts
      → (after_first (sent m)).1 ∷ answers m.cid (after_first (sent m)).0 sched
        ≡ map (λ _. continue) conts ++ whole m.cid m.cmd [] (sent m) ∷ []
  deliver_single conts sched h e f =
      let left : Bytes = sent m in
      let none_left : conts ≡ [] =
        e ∙ rw (drop_all (min (length left) 57) left (omega arith)) (cont_packets-nil _ m.cid 0) in
      rw (push_init_single r m left s h) (
        rw none_left
          (ap (λ t. whole m.cid m.cmd [] left ∷ t) (answers_none m.cid _ sched (f ∙ none_left))))

  deliver_split :
      (conts sched : List Bytes)
      → 57 < length (sent m)
      → conts
        ≡ cont_packets
            (length (sent m) - min (length (sent m)) 57)
            m.cid
            0
            (drop (min (length (sent m)) 57) (sent m))
      → filter (is_on m.cid) sched ≡ conts
      → (after_first (sent m)).1 ∷ answers m.cid (after_first (sent m)).0 sched
        ≡ map (λ _. continue) conts ++ whole m.cid m.cmd [] (sent m) ∷ []
  deliver_split conts sched h e f =
      let left : Bytes = sent m in
      let m57 : min (length left) 57 ≡ 57 = omega arith in
      let e' : conts ≡ cont_packets (length left - 57) m.cid 0 (drop 57 left) = rw m57 at e in
      rw (push_init_opens r m left s h (omega (arith, length-sent))) (
        conts_answers m.cid m.cmd s.word s.nonzero (length left - 57) 0 (take 57 left)
          (drop 57 left) sched
          (accepted m.cid m.cmd s.word s.nonzero r (take 57 left) 0 (drop 57 left)) (omega arith)
          (omega (arith, length-drop 57 left)) (omega (arith, length-drop 57 left))
          (get-accepted m.cid m.cmd s.word s.nonzero r (take 57 left) 0 (drop 57 left)) (f ∙ e')
        ∙ rw (e', whole_regroup m.cid m.cmd 57 [] left) refl)

  -- Reports of other channels may come between those of the message, in any number and order.
  deliver_lem :
      (first : Bytes) (conts sched : List Bytes)
      → to_packets m ≡ first ∷ conts
      → filter (is_on m.cid) sched ≡ conts
      → answers m.cid r (first ∷ sched)
        ≡ map (λ _. continue) conts ++ whole m.cid m.cmd [] (sent m) ∷ []
  deliver_lem first conts sched e f =
      answers-first first sched (cc (e, to_packets-sent))
      ∙ elim (Bool-cases (leb (length (sent m)) 57)) [
        | inl short ↦ deliver_single conts sched (leb→le _ _ short) (cc (e, to_packets-sent)) f
        | inr long ↦ deliver_split conts sched (ground arith) (cc (e, to_packets-sent)) f
      ]

-- A message that the reassembler can take is delivered once, whole up to the limit of 7609 bytes: the
-- first of its reports and those of `to_packets` that follow it are answered with `Continue`, but for
-- the last, which is answered with the message. Between the first and the last, reports of other
-- channels may come in any number and order.
pub deliver :
    (r : Reassembler) (m : Message) (first : Bytes) (conts sched : List Bytes)
    → IsSendable r m
    → to_packets m ≡ first ∷ conts
    → filter (is_on m.cid) sched ≡ conts
    → answers m.cid r (first ∷ sched)
      ≡ map (λ _. continue) conts ++ done (record m { payload = take max_message m.payload }) ∷ []
deliver r m first conts sched s e f =
    deliver_lem r m s first conts sched e f
    ∙ ap (λ t. map (λ _. continue) conts ++ done (record m { payload = t }) ∷ [])
        (take-min max_message m.payload)
