-- ===== src/Ctap/Hid/Continuations.antt =====
-- Continuation reports: one round of the reassembler on a report that `to_packets` wrote, and a run of
-- reports in which those of one channel are the continuations of one message.
use blackbag.Common.{
  ℕ, zero, suc, ◌+◌, ◌-◌, ◌/◌, ◌%◌, ◌^◌, ◌≤◌, ◌<◌, ◌≡◌, ◌≢◌, refl, ap, ◌∙◌, min, bit_and, true,
  some, List, [], ◌∷◌, ◌++◌, map, arith, inl, inr, Bool-cases, leb, leb→le, ==_self, length, take,
  drop, replicate, filter, length-take, length-append, length-replicate, length-drop,
  take-take-append, take_all, take-append-drop,
}
use blackbag.Common.Bytes.{Bytes, be32, from_be32, from_be32-be32, low_bits, top_bit}
use blackbag.Common.Assoc.{get, insert, remove, get-insert}
use blackbag.Ctap.Hid.{
  Partial, Reassembler, Step, continue, done, cont_packets, push_part, push_cont, push_on, push,
}
use blackbag.Ctap.Hid.Channels.{
  is_on, push-get_other, answers, answers_on, answers_off, answers_none,
}
use mathlib.Core.List.{append_assoc}

-- A continuation of any length from seven bytes on is read by its header.
push-cont :
    (r : Reassembler) (a b c d byte : ℕ) (rest : Bytes)
    → 2 ≤ length rest
    → from_be32 a b c d ≢ 0
    → bit_and byte 0x80 ≡ 0
    → push r (a ∷ b ∷ c ∷ d ∷ byte ∷ rest)
      ≡ push_cont r (from_be32 a b c d) (bit_and byte 0x7f) rest (get (from_be32 a b c d) r.opened)
unfolding push push_on
push-cont r a b c d byte [] h nz top = absurd (omega arith)
push-cont r a b c d byte (x ∷ []) h nz top = absurd (omega arith)
push-cont r a b c d byte (x ∷ y ∷ rest) h nz top = ground arith

-- The bytes that a continuation carries: a chunk of what is left, and the padding.
abbrev pub chunk : Bytes → Bytes
chunk left = let n = min (length left) 59 in take n left ++ replicate (59 - n) 0

take-chunk :
    (left : Bytes) → take (min (length left) 59) (chunk left) ≡ take (min (length left) 59) left
take-chunk left =
    let n : ℕ = min (length left) 59 in take-take-append n left (replicate (59 - n) 0) (omega arith)

length-chunk : (left : Bytes) → length (chunk left) ≡ 59
length-chunk left =
    let n : ℕ = min (length left) 59 in
    omega (
      arith,
      length-append (take n left) (replicate (59 - n) 0),
      length-take n left,
      length-replicate {A = ℕ} (59 - n) 0,
    )

seq_byte :
    (seq : ℕ)
    → seq < 256
    → (bit_and (bit_and seq 0x7f) 0x80 ≡ 0) × (bit_and (bit_and seq 0x7f) 0x7f ≡ bit_and seq 0x7f)
seq_byte seq h = ground (arith, low_bits seq, low_bits (seq % 128), top_bit (seq % 128))

next_seq_byte :
    (seq : ℕ)
    → seq < 256
    → bit_and ((bit_and seq 0x7f + 1) % 256) 0x7f ≡ bit_and ((seq + 1) % 256) 0x7f
next_seq_byte seq h =
    ground (arith, low_bits seq, low_bits ((seq % 128 + 1) % 256), low_bits ((seq + 1) % 256))

abbrev packet : ℕ → ℕ → Bytes → Bytes
packet cid seq left = be32 cid ++ bit_and seq 0x7f ∷ chunk left

push-packet :
    (r : Reassembler) (cid seq : ℕ) (left : Bytes) (part : Partial)
    → cid < 2 ^ 32
    → cid ≢ 0
    → seq < 256
    → get cid r.opened ≡ some part
    → push r (packet cid seq left) ≡ push_part r cid (bit_and seq 0x7f) (chunk left) part
unfolding push_cont
push-packet r cid seq left part word nz hs e =
    let step =
      push-cont r (cid / 16777216 % 256) (cid / 65536 % 256) (cid / 256 % 256) (cid % 256)
        (bit_and seq 0x7f) (chunk left) in
    ground (arith, step, from_be32-be32 cid word, seq_byte seq hs, length-chunk left)

-- The transaction that has `sofar` and waits for `left`.
abbrev pub sending : ℕ → ℕ → Bytes → Bytes → Partial
sending cmd seq sofar left = record {
  cmd = cmd;
  expect = length sofar + length left;
  payload = sofar;
  next_seq = bit_and seq 0x7f;
}

push_part_last :
    (r : Reassembler) (cid cmd seq : ℕ) (sofar left : Bytes)
    → length left ≤ 59
    → push_part r cid (bit_and seq 0x7f) (chunk left) (sending cmd seq sofar left) ≡ (
      record r { opened = remove cid r.opened },
      done (record { cid = cid; cmd = cmd; payload = sofar ++ left }),
    )
unfolding push_part
push_part_last r cid cmd seq sofar left h = ground (
  arith,
  length-chunk left,
  take-chunk left,
  take_all (min (length left) 59) left,
  length-append sofar left,
)

-- A continuation in order that does not complete its message.
push_part_step :
    (r : Reassembler) (cid seq : ℕ) (rest : Bytes) (part : Partial) (payload : Bytes)
    → seq ≡ part.next_seq
    → part.payload ++ take (min (part.expect - length part.payload) (length rest)) rest ≡ payload
    → length payload < part.expect
    → push_part r cid seq rest part ≡ (
      record r {
        opened =
            insert cid
              (record part {
                payload = payload;
                next_seq = bit_and ((part.next_seq + 1) % 256) 0x7f;
              })
              r.opened;
      },
      continue,
    )
unfolding push_part
push_part_step r cid seq rest part payload hs e h = ground arith

full_chunk :
    (sofar left : Bytes)
    → 59 < length left
    → take (min (length sofar + length left - length sofar) (length (chunk left))) (chunk left)
      ≡ take 59 left
full_chunk sofar left h =
    let n : min (length sofar + length left - length sofar) (length (chunk left))
        ≡ min (length left) 59 =
      omega (arith, length-chunk left) in
    let m : min (length left) 59 ≡ 59 = omega arith in
    rw n (take-chunk left ∙ ap (λ k. take k left) m)

push_part_more :
    (r : Reassembler) (cid cmd seq : ℕ) (sofar left : Bytes)
    → seq < 256
    → 59 < length left
    → push_part r cid (bit_and seq 0x7f) (chunk left) (sending cmd seq sofar left) ≡ (
      record r {
        opened =
            insert cid
              (sending cmd ((seq + 1) % 256) (sofar ++ take 59 left) (drop 59 left))
              r.opened;
      },
      continue,
    )
push_part_more r cid cmd seq sofar left hs h =
    let took : take (min (length sofar + length left - length sofar) (length (chunk left)))
          (chunk left)
        ≡ take 59 left =
      full_chunk sofar left h in
    let size : length sofar + length left ≡ length (sofar ++ take 59 left) + length (drop 59 left) =
      omega (arith, length-append sofar (take 59 left), length-take 59 left, length-drop 59 left) in
    let short : length (sofar ++ take 59 left) < length sofar + length left =
      omega (arith, length-append sofar (take 59 left), length-take 59 left) in
    push_part_step r cid (bit_and seq 0x7f) (chunk left) (sending cmd seq sofar left)
      (sofar ++ take 59 left) refl (ap (λ t. sofar ++ t) took) short
    ∙ rw (size, next_seq_byte seq hs) refl

pub cont_packets-nil : (fuel cid seq : ℕ) → cont_packets fuel cid seq [] ≡ []
unfolding cont_packets
cont_packets-nil zero cid seq = refl
cont_packets-nil (suc fuel) cid seq = refl

pub drop_all : (n : ℕ) (xs : Bytes) → length xs ≤ n → drop n xs ≡ []
drop_all zero [] h = refl
drop_all zero (x ∷ xs) h = absurd (omega arith)
drop_all (suc n) [] h = refl
drop_all (suc n) (x ∷ xs) h = drop_all n xs (omega arith)

abbrev pub whole : ℕ → ℕ → Bytes → Bytes → Step
whole cid cmd sofar left = done (record { cid = cid; cmd = cmd; payload = sofar ++ left })

pub whole_regroup :
    (cid cmd k : ℕ) (sofar left : Bytes)
    → whole cid cmd (sofar ++ take k left) (drop k left) ≡ whole cid cmd sofar left
whole_regroup cid cmd k sofar left =
    ap (λ t. done (record { cid = cid; cmd = cmd; payload = t }))
      (append_assoc sofar (take k left) (drop k left)
        ∙ ap (λ t. sofar ++ t) (take-append-drop k left))

module _ (cid cmd : ℕ) (word : cid < 2 ^ 32) (nz : cid ≢ 0) where
  -- The report that `push` is given next on the channel is the last one.
  answer_last :
      (r : Reassembler) (seq : ℕ) (sofar left : Bytes) (q : Bytes) (qs : List Bytes)
      → seq < 256
      → length left ≤ 59
      → get cid r.opened ≡ some (sending cmd seq sofar left)
      → is_on cid q ≡ true
      → q ≡ packet cid seq left
      → filter (is_on cid) qs ≡ []
      → answers cid r (q ∷ qs) ≡ whole cid cmd sofar left ∷ []
  answer_last r seq sofar left q qs hs h e on p none_left =
      let step : push r q ≡ _ =
        ap (push r) p
        ∙ push-packet r cid seq left (sending cmd seq sofar left) word nz hs e
        ∙ push_part_last r cid cmd seq sofar left h in
      answers_on cid r q qs on
      ∙ rw step (ap (λ t. whole cid cmd sofar left ∷ t) (answers_none cid _ qs none_left))

  -- The state after a report that is not the last one.
  abbrev pub accepted : Reassembler → Bytes → ℕ → Bytes → Reassembler
  accepted r sofar seq left = record r { opened = insert cid (sending cmd seq sofar left) r.opened }

  pub get-accepted :
      (r : Reassembler) (sofar : Bytes) (seq : ℕ) (left : Bytes)
      → get cid (accepted r sofar seq left).opened ≡ some (sending cmd seq sofar left)
  get-accepted r sofar seq left = rw get-insert (rw (==_self cid) refl)

  answer_more :
      (r : Reassembler) (seq : ℕ) (sofar left q : Bytes)
      → seq < 256
      → 59 < length left
      → get cid r.opened ≡ some (sending cmd seq sofar left)
      → q ≡ packet cid seq left
      → push r q ≡ (accepted r (sofar ++ take 59 left) ((seq + 1) % 256) (drop 59 left), continue)
  answer_more r seq sofar left q hs h e p =
      ap (push r) p
      ∙ push-packet r cid seq left (sending cmd seq sofar left) word nz hs e
      ∙ push_part_more r cid cmd seq sofar left hs h

  pub conts_answers :
      (fuel seq : ℕ) (sofar left : Bytes) (sched : List Bytes) (r : Reassembler)
      → seq < 256
      → length left ≤ fuel
      → 0 < length left
      → get cid r.opened ≡ some (sending cmd seq sofar left)
      → filter (is_on cid) sched ≡ cont_packets fuel cid seq left
      → continue ∷ answers cid r sched
        ≡ map (λ _. continue) (cont_packets fuel cid seq left) ++ whole cid cmd sofar left ∷ []
  unfolding cont_packets
  conts_answers zero seq sofar left sched r hs hf h e f = absurd (omega arith)
  conts_answers (suc fuel) seq sofar [] sched r hs hf h e f = absurd (omega arith)
  conts_answers (suc fuel) seq sofar (b ∷ bs) [] r hs hf h e f = cc
  conts_answers (suc fuel) seq sofar (b ∷ bs) (q ∷ qs) r hs hf h e f =
      elim (Bool-cases (is_on cid q)) [
        | inl on ↦
            let left : Bytes = b ∷ bs in
            let f' : q ∷ filter (is_on cid) qs ≡ cont_packets (suc fuel) cid seq left =
              rw on at f in
            let same : q ≡ packet cid seq left = cc f' in
            elim (Bool-cases (leb (length left) 59)) [
              | inl last ↦
                  let small : length left ≤ 59 = leb→le _ _ last in
                  let over : cont_packets fuel cid ((seq + 1) % 256)
                        (drop (min (length left) 59) left)
                      ≡ [] =
                    rw (drop_all (min (length left) 59) left (omega arith))
                      (cont_packets-nil fuel cid _) in
                  rw over (
                    ap (λ t. continue ∷ t)
                      (answer_last r seq sofar left q qs hs small e on same (cc (f', over))))
              | inr more ↦
                  let big : 59 < length left = ground arith in
                  let n : min (length left) 59 ≡ 59 = omega arith in
                  let took : Bytes = sofar ++ take 59 left in
                  let seq' : ℕ = (seq + 1) % 256 in
                  let left' : Bytes = drop 59 left in
                  let step : push r q ≡ (accepted r took seq' left', continue) =
                    answer_more r seq sofar left q hs big e same in
                  let rest : continue ∷ answers cid (accepted r took seq' left') qs ≡ _ =
                    conts_answers fuel seq' took left' qs (accepted r took seq' left') (omega arith)
                      (omega (arith, length-drop 59 left)) (omega (arith, length-drop 59 left))
                      (get-accepted r took seq' left')
                      (cc (f', ap (λ k. cont_packets fuel cid seq' (drop k left)) n)) in
                  rw n (
                    ap (λ t. continue ∷ t)
                      (answers_on cid r q qs on
                        ∙ rw step (rest ∙ rw (whole_regroup cid cmd 59 sofar left) refl)))
            ]
        | inr off ↦
            ap (λ t. continue ∷ t) (answers_off cid r q qs off)
            ∙ conts_answers (suc fuel) seq sofar (b ∷ bs) qs (push r q).0 hs hf h
                (push-get_other r q cid off ∙ e) (rw off at f)
      ]
