-- ===== src/Ssh/Agent/Answers.antt =====
-- The list of identities as a client reads it back.
use blackbag.Common.{
  ℕ, zero, suc, ◌^◌, ◌<◌, ◌≤◌, ◌≡◌, refl, ap, sym, ◌∙◌, true, List, [], ◌∷◌, ◌++◌, arith, ◌==◌,
  length, append_assoc, append_nil, All,
}
use blackbag.Common.Bytes.{Bytes, be32}
use blackbag.Common.Result.{Result, ok, ensure, ◌>>=◌, ◌>>◌}
use blackbag.Ssh.Wire.{
  max_string, Reader, WireError, new, is_empty, remaining, u8, u32, string, Writer, put_string,
  expected_byte,
}
use blackbag.Ssh.Wire.Reading.{
  rest, advance, u8_lem, u32_lem, string_lem, remaining_lem, rest-advance,
}
use blackbag.Ssh.Agent.{Identity, put_identities, identities_answer, reply_identities_answer}

-- A client's reading of so many identities, by the same reader.
abbrev pub read_identities : ℕ → Reader → Result WireError (List Identity × Reader)
read_identities zero r = ok ([], r)
read_identities (suc n) r = string r >>= λ a. string a.1 >>= λ b.
    read_identities n b.1 >>= λ c. ok (record { key_blob = a.0; comment = b.0 } ∷ c.0, c.1)

-- A client's reading of the whole answer.
abbrev pub read_answer : Bytes → Result WireError (List Identity)
read_answer answer = u8 (new answer) >>= λ a.
    ensure (a.0 == reply_identities_answer) expected_byte
    >> (u32 a.1 >>= λ n.
        read_identities n.0 n.1 >>= λ b. ensure (is_empty b.1) expected_byte >> ok b.0)

abbrev encoded : Bytes → Bytes
encoded s = be32 (length s) ++ s

encode_all : List Identity → Bytes
encode_all [] = []
encode_all (id ∷ ids) = encoded id.key_blob ++ (encoded id.comment ++ encode_all ids)

put_string_lem : (w : Writer) (s : Bytes) → (put_string w s).written ≡ w.written ++ encoded s
put_string_lem w s = append_assoc w.written (be32 (length s)) s

put_identities_lem :
    (w : Writer) (ids : List Identity)
    → (put_identities w ids).written ≡ w.written ++ encode_all ids
unfolding encode_all
put_identities_lem w [] = sym (append_nil w.written)
put_identities_lem w (id ∷ ids) =
    let w1 = put_string w id.key_blob in
    let w2 = put_string w1 id.comment in
    put_identities_lem w2 ids
    ∙ ap (λ t. t ++ encode_all ids) (put_string_lem w1 id.comment)
    ∙ ap (λ t. (t ++ encoded id.comment) ++ encode_all ids) (put_string_lem w id.key_blob)
    ∙ append_assoc (w.written ++ encoded id.key_blob) (encoded id.comment) (encode_all ids)
    ∙ append_assoc w.written (encoded id.key_blob) (encoded id.comment ++ encode_all ids)

abbrev pub FitsCap : Identity → Type 0
FitsCap id = (length id.key_blob ≤ max_string) × (length id.comment ≤ max_string)

read_identities_lem :
    (ids : List Identity) (r : Reader)
    → All FitsCap ids
    → rest r ≡ encode_all ids
    → (s : Reader) × (read_identities (length ids) r ≡ ok (ids, s)) × (rest s ≡ [])
unfolding encode_all
read_identities_lem [] r fit h = (r, refl, h)
read_identities_lem (id ∷ ids) r ((hk, hc), fit) h =
    let (r1, first, rest1) = string_lem r id.key_blob (encoded id.comment ++ encode_all ids) hk h in
    let (r2, second, rest2) = string_lem r1 id.comment (encode_all ids) hc rest1 in
    let (r3, others, rest3) = read_identities_lem ids r2 fit rest2 in
    (r3, rw (first, second, others) refl, rest3)

-- A client reads exactly the identities back from the answer, in their order, and nothing is left
-- over, if there are fewer than 2 ^ 32 and no blob or comment is over the cap on a string.
pub read_answer-identities_answer :
    (ids : List Identity)
    → All FitsCap ids
    → length ids < 2 ^ 32
    → read_answer (identities_answer ids) ≡ ok ids
unfolding identities_answer
read_answer-identities_answer ids fit few =
    let answer = reply_identities_answer ∷ (be32 (length ids) ++ encode_all ids) in
    let written : identities_answer ids ≡ answer = put_identities_lem _ ids in
    let r1 = advance (new answer) 1 in
    let r2 = advance r1 4 in
    let kind =
      u8_lem (new answer) reply_identities_answer (be32 (length ids) ++ encode_all ids) refl in
    let count = u32_lem r1 (length ids) (encode_all ids) few refl in
    let (r3, read, nothing_left) = read_identities_lem ids r2 fit (rest-advance r1 4) in
    let empty : remaining r3 ≡ 0 = remaining_lem r3 ∙ ap length nothing_left in
    let done : is_empty r3 ≡ true = ground arith in
    ap read_answer written ∙ rw (kind, count, read, done) refl
