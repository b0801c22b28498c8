-- ===== src/Ssh/Wire/Reading.antt =====
-- What the reader returns is what the writer wrote: each read succeeds exactly if the rest of the
-- buffer starts with what it returns.
use blackbag.Common.{
  ℕ, zero, suc, ◌+◌, ◌-◌, ◌/◌, ◌%◌, ◌^◌, ◌<◌, ◌≤◌, ◌≡◌, refl, ap, sym, ◌∙◌, false, [], ◌∷◌, ◌++◌,
  arith, subst, ltb, length, length-append, length-drop, take, drop, take-append, drop-append,
  take-append-drop, length-take, min, All, Bool-cases, inl, inr,
}
use blackbag.Common.Bytes.{Bytes, IsByte, be32, from_be32, from_be32-be32}
use blackbag.Common.Result.{Result, ok, bind_inv}
use native.Mathlib.Numerals.{unary_clauses}
use blackbag.Ssh.Wire.{
  max_string, Reader, WireError, remaining, byte_at, u8, u32, string_of, string,
}

-- The bytes not yet read.
abbrev pub rest : Reader → Bytes
rest r = drop r.pos r.buf

abbrev pub advance : Reader → ℕ → Reader
advance r n = record r { pos = r.pos + n }

drop-add : (m n : ℕ) (xs : Bytes) → drop (m + n) xs ≡ drop n (drop m xs)
drop-add zero n xs = let same : 0 + n ≡ n = omega arith in ap (λ k. drop k xs) same
drop-add (suc m) zero [] = simp unary_clauses refl
drop-add (suc m) (suc n) [] = simp unary_clauses refl
drop-add (suc m) n (x ∷ xs) =
    let same : suc m + n ≡ suc (m + n) = omega arith in
    ap (λ k. drop k (x ∷ xs)) same ∙ drop-add m n xs

pub remaining_lem : (r : Reader) → remaining r ≡ length (rest r)
unfolding remaining
remaining_lem r = sym (length-drop r.pos r.buf)

pub rest-advance : (r : Reader) (n : ℕ) → rest (advance r n) ≡ drop n (rest r)
rest-advance r n = drop-add r.pos n r.buf

drop-byte_at : (i : ℕ) (xs : Bytes) → i < length xs → drop i xs ≡ byte_at xs i ∷ drop (i + 1) xs
drop-byte_at i [] h = absurd (omega arith)
drop-byte_at zero (x ∷ xs) h = refl
drop-byte_at (suc i) (x ∷ xs) h =
    let ih = drop-byte_at i xs (omega arith) in simp unary_clauses (simp unary_clauses at ih)

pub u8_lem : (r : Reader) (b : ℕ) (bs : Bytes) → rest r ≡ b ∷ bs → u8 r ≡ ok (b, advance r 1)
unfolding u8 remaining
u8_lem r b bs h =
    let some_left : length (rest r) ≡ suc (length bs) = ap length h in
    let left : r.pos < length r.buf = omega (arith, length-drop r.pos r.buf) in
    let first : b ∷ bs ≡ byte_at r.buf r.pos ∷ drop (r.pos + 1) r.buf =
      sym h ∙ drop-byte_at r.pos r.buf left in
    ground arith

abbrev u8_ok : ℕ × Reader → Result WireError (ℕ × Reader)
u8_ok = ok

pub u8_inv : (r s : Reader) (b : ℕ) → u8 r ≡ ok (b, s) → (rest r ≡ b ∷ rest s) × (s ≡ advance r 1)
unfolding u8 remaining
u8_inv r s b h = elim (Bool-cases (ltb (length r.buf - r.pos) 1)) [
  | inl none_left ↦ cc (rw none_left at h)
  | inr left ↦
      let out : u8_ok (byte_at r.buf r.pos, advance r 1) ≡ ok (b, s) = rw left at h in
      let s_lem : s ≡ advance r 1 = cc in
      let b_lem : byte_at r.buf r.pos ≡ b = cc in
      (
        drop-byte_at r.pos r.buf (ground arith)
            ∙ ap (λ t. t ∷ drop (r.pos + 1) r.buf) b_lem
            ∙ ap (λ t. b ∷ rest t) (sym s_lem),
        s_lem,
      )
]

split4 :
    (i : ℕ) (xs : Bytes)
    → i + 3 < length xs
    → drop i xs
      ≡ byte_at xs i
        ∷ byte_at xs (i + 1)
        ∷ byte_at xs (i + 2)
        ∷ byte_at xs (i + 3)
        ∷ drop (i + 4) xs
split4 i [] h = absurd (omega arith)
split4 (suc i) (x ∷ xs) h =
    let ih = split4 i xs (omega arith) in simp unary_clauses (simp unary_clauses at ih)
split4 zero (a ∷ b ∷ c ∷ d ∷ xs) h = refl
split4 zero (a ∷ b ∷ c ∷ []) h = absurd (omega arith)
split4 zero (a ∷ b ∷ []) h = absurd (omega arith)
split4 zero (a ∷ []) h = absurd (omega arith)

pub u32_lem :
    (r : Reader) (v : ℕ) (bs : Bytes)
    → v < 2 ^ 32
    → rest r ≡ be32 v ++ bs
    → u32 r ≡ ok (v, advance r 4)
unfolding u32 remaining
u32_lem r v bs small h =
    let some_left : length (rest r) ≡ 4 + length bs = omega (arith, ap length h) in
    let left : r.pos + 3 < length r.buf = omega (arith, length-drop r.pos r.buf) in
    let four = sym h ∙ split4 r.pos r.buf left in
    let enough : ltb (length r.buf - r.pos) 4 ≡ false = ground arith in
    let value : from_be32 (byte_at r.buf r.pos) (byte_at r.buf (r.pos + 1))
          (byte_at r.buf (r.pos + 2)) (byte_at r.buf (r.pos + 3))
        ≡ v =
      cc (four, from_be32-be32 v small) in
    rw (enough, value) refl

be32-from_be32 :
    (a b c d : ℕ)
    → a < 256
    → b < 256
    → c < 256
    → d < 256
    → (be32 (from_be32 a b c d) ≡ a ∷ b ∷ c ∷ d ∷ []) × (from_be32 a b c d < 2 ^ 32)
be32-from_be32 a b c d ha hb hc hd =
    let top : from_be32 a b c d / 16777216 % 256 ≡ a = omega arith in
    let second : from_be32 a b c d / 65536 % 256 ≡ b = omega arith in
    let third : from_be32 a b c d / 256 % 256 ≡ c = omega arith in
    let fourth : from_be32 a b c d % 256 ≡ d = omega arith in
    (cc (top, second, third, fourth), omega arith)

pub u32_inv :
    (r s : Reader) (v : ℕ)
    → All IsByte (rest r)
    → u32 r ≡ ok (v, s)
    → (rest r ≡ be32 v ++ rest s) × (s ≡ advance r 4) × (v < 2 ^ 32)
unfolding u32 remaining
u32_inv r s v are h = elim (Bool-cases (ltb (length r.buf - r.pos) 4)) [
  | inl too_few ↦ cc (rw too_few at h)
  | inr enough ↦
      let left : r.pos + 3 < length r.buf = ground arith in
      let four = split4 r.pos r.buf left in
      let out : u8_ok (
        from_be32 (byte_at r.buf r.pos) (byte_at r.buf (r.pos + 1)) (byte_at r.buf (r.pos + 2))
            (byte_at r.buf (r.pos + 3)),
        advance r 4,
      )
          ≡ ok (v, s) =
        rw enough at h in
      let s_lem : s ≡ advance r 4 = cc in
      let (ha, (hb, (hc, (hd, others)))) = subst (λ t. All IsByte t) four are in
      let (bytes, small) = be32-from_be32 _ _ _ _ ha hb hc hd in
      let value : from_be32 (byte_at r.buf r.pos) (byte_at r.buf (r.pos + 1))
            (byte_at r.buf (r.pos + 2)) (byte_at r.buf (r.pos + 3))
          ≡ v =
        cc in
      (
        four
            ∙ ap (λ t. t ++ drop (r.pos + 4) r.buf) (sym bytes)
            ∙ ap (λ t. be32 t ++ drop (r.pos + 4) r.buf) value
            ∙ ap (λ t. be32 v ++ rest t) (sym s_lem),
        s_lem,
        subst (λ t. t < 2 ^ 32) value small,
      )
]

-- A reader before the encoding of `bytes` and then `bs` reads `bytes` and stands before `bs`.
pub string_lem :
    (r : Reader) (bytes bs : Bytes)
    → length bytes ≤ max_string
    → rest r ≡ (be32 (length bytes) ++ bytes) ++ bs
    → (s : Reader) × (string r ≡ ok (bytes, s)) × (rest s ≡ bs)
unfolding string string_of
string_lem r bytes bs short h =
    let len = length bytes in
    let after = advance r 4 in
    let rest_after : rest after ≡ bytes ++ bs = rest-advance r 4 ∙ ap (λ t. drop 4 t) h in
    let left : remaining after ≡ len + length bs =
      remaining_lem after ∙ ap length rest_after ∙ length-append bytes bs in
    let capped : ltb max_string len ≡ false = ground arith in
    let enough : ltb (remaining after) len ≡ false = ground arith in
    let out : take len (drop after.pos after.buf) ≡ bytes =
      ap (take len) rest_after ∙ take-append bytes bs in
    (
      advance after len,
      rw (u32_lem r len (bytes ++ bs) (omega arith) h, capped, enough, out) refl,
      rest-advance after len ∙ ap (drop len) rest_after ∙ drop-append bytes bs,
    )

abbrev string_ok : Bytes × Reader → Result WireError (Bytes × Reader)
string_ok = ok

string_of_inv :
    (len : ℕ) (r s : Reader) (bytes : Bytes)
    → string_of len r ≡ ok (bytes, s)
    → (rest r ≡ bytes ++ rest s) × (length bytes ≡ len) × (len ≤ max_string)
unfolding string_of
string_of_inv len r s bytes h = elim (Bool-cases (ltb max_string len)) [
  | inl over ↦ cc (rw over at h)
  | inr within ↦ elim (Bool-cases (ltb (remaining r) len)) [
    | inl short ↦ cc (rw (within, short) at h)
    | inr enough ↦
        let out : string_ok (take len (rest r), advance r len) ≡ ok (bytes, s) =
          rw (within, enough) at h in
        let s_lem : s ≡ advance r len = cc in
        let taken : take len (rest r) ≡ bytes = cc in
        let rest_s : drop len (rest r) ≡ rest s = sym (rest-advance r len) ∙ ap rest (sym s_lem) in
        let many : length bytes ≡ min len (length (rest r)) =
          ap length (sym taken) ∙ length-take len (rest r) in
        let left : remaining r ≡ length (rest r) = remaining_lem r in
        (
          sym (take-append-drop len (rest r))
              ∙ ap (λ t. t ++ drop len (rest r)) taken
              ∙ ap (λ t. bytes ++ t) rest_s,
          ground arith,
          ground arith,
        )
  ]
]

-- A string that was read stood there, within the cap.
pub string_inv :
    (r s : Reader) (bytes : Bytes)
    → All IsByte (rest r)
    → string r ≡ ok (bytes, s)
    → (rest r ≡ (be32 (length bytes) ++ bytes) ++ rest s) × (length bytes ≤ max_string)
unfolding string
string_inv r s bytes are h =
    let ((len, after), first, second) = bind_inv (u32 r) (λ a. string_of a.0 a.1) (bytes, s) h in
    let (before, at, small) = u32_inv r after len are first in
    let (after_lem, many, within) = string_of_inv len after s bytes second in
    (
      before ∙ ap (λ t. be32 len ++ t) after_lem ∙ ap (λ n. be32 n ++ bytes ++ rest s) (sym many),
      omega arith,
    )

All-append : (ys zs : Bytes) → All IsByte (ys ++ zs) → All IsByte zs
All-append [] zs are = are
All-append (y ∷ ys) zs (here, are) = All-append ys zs are

pub rest-IsByte : (xs ys zs : Bytes) → All IsByte xs → xs ≡ ys ++ zs → All IsByte zs
rest-IsByte xs ys zs are h = All-append ys zs (subst (λ t. All IsByte t) h are)
