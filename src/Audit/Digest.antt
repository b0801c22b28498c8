-- ===== src/Audit/Digest.antt =====
-- The digest says what was hashed: the frame of the parts can be taken apart, and so can the hex.
use blackbag.Common.{
  ℕ, ◌/◌, ◌%◌, ◌^◌, ◌<◌, ◌≡◌, ◌≢◌, ◌⊎◌, inl, inr, Bool-cases, refl, List, [], ◌∷◌, ◌++◌, arith,
  length, All,
}
use blackbag.Common.Bytes.{Bytes, bytes_eq, bytes_eq_iff, IsByte, be64, be64_inj}
use blackbag.Audit.{genesis, Formats, hex_digit, hex, part, frame, Entry, parts, compute}

append_cancel :
    (xs ys us vs : Bytes) → length xs ≡ length ys → xs ++ us ≡ ys ++ vs → (xs ≡ ys) × (us ≡ vs)
append_cancel [] [] us vs h e = (refl, e)
append_cancel [] (y ∷ ys) us vs h e = absurd (omega arith)
append_cancel (x ∷ xs) [] us vs h e = absurd (omega arith)
append_cancel (x ∷ xs) (y ∷ ys) us vs h e =
    let (p, q) = append_cancel xs ys us vs (omega arith) (cc e) in (cc (e, p), q)

part_cancel :
    (p q us vs : Bytes)
    → length p < 2 ^ 64
    → length q < 2 ^ 64
    → part p ++ us ≡ part q ++ vs
    → (p ≡ q) × (us ≡ vs)
part_cancel p q us vs hp hq e =
    let (n, rest) = append_cancel (be64 (length p)) (be64 (length q)) (p ++ us) (q ++ vs) refl e in
    append_cancel p q us vs (be64_inj (length p) (length q) hp hq n) rest

abbrev pub IsShort : Bytes → Type 0
IsShort p = length p < 2 ^ 64

-- The frame of as many parts, each shorter than 2 ^ 64 bytes, tells the parts.
pub frame_inj :
    (ps qs : List Bytes)
    → length ps ≡ length qs
    → All IsShort ps
    → All IsShort qs
    → frame ps ≡ frame qs
    → ps ≡ qs
frame_inj [] [] n hp hq e = refl
frame_inj [] (q ∷ qs) n hp hq e = absurd (omega arith)
frame_inj (p ∷ ps) [] n hp hq e = absurd (omega arith)
frame_inj (p ∷ ps) (q ∷ qs) n (hp, hps) (hq, hqs) e =
    let (same, rest) = part_cancel p q (frame ps) (frame qs) hp hq e in
    cc (same, frame_inj ps qs (omega arith) hps hqs rest)

hex_digit_inj : (a b : ℕ) → a < 16 → b < 16 → hex_digit a ≡ hex_digit b → a ≡ b
hex_digit_inj a b ha hb e = ground arith

pub hex_inj : (a b : Bytes) → All IsByte a → All IsByte b → hex a ≡ hex b → a ≡ b
unfolding hex
hex_inj [] [] ha hb e = refl
hex_inj [] (y ∷ ys) ha hb e = cc
hex_inj (x ∷ xs) [] ha hb e = cc
hex_inj (x ∷ xs) (y ∷ ys) (hx, hxs) (hy, hys) e =
    let hi : x / 16 ≡ y / 16 = hex_digit_inj (x / 16) (y / 16) (omega arith) (omega arith) (cc e) in
    let lo : x % 16 ≡ y % 16 = hex_digit_inj (x % 16) (y % 16) (omega arith) (omega arith) (cc e) in
    let rest : xs ≡ ys = hex_inj xs ys hxs hys (cc e) in
    let same : x ≡ y = omega arith in cc (same, rest)

-- The hash gives bytes.
abbrev pub IsHash : Formats → Type 0
IsHash f = (m : Bytes) → All IsByte (f.sha256 m)

-- What breaks the hash: two messages with one output, or one with the digest of sixty-four zeros.
pub data HasBreak (f : Formats) : Type 0 where
  collision : (m n : Bytes) → m ≢ n → f.sha256 m ≡ f.sha256 n → HasBreak f
  genesis_hit : (m : Bytes) → hex (f.sha256 m) ≡ genesis → HasBreak f

-- One digest, one list of parts, or a collision.
pub compute_inj :
    (f : Formats) (d e : Entry f)
    → IsHash f
    → All IsShort (parts f d)
    → All IsShort (parts f e)
    → compute f d ≡ compute f e
    → (parts f d ≡ parts f e) ⊎ HasBreak f
unfolding compute
compute_inj f d e h hd he q =
    let m = frame (parts f d) in
    let n = frame (parts f e) in
    let outputs : f.sha256 m ≡ f.sha256 n = hex_inj (f.sha256 m) (f.sha256 n) (h m) (h n) q in
    elim (Bool-cases (bytes_eq m n)) [
      | inl same ↦ inl (
          frame_inj (parts f d) (parts f e) (unfold parts in refl) hd he
            ((bytes_eq_iff m n).0 same))
      | inr differ ↦
          inr (collision m n (λ e. absurd (ground (arith, (bytes_eq_iff m n).1 e))) outputs)
    ]

-- Each part of each entry is shorter than 2 ^ 64 bytes.
abbrev pub AreShort : (f : Formats) → List (Entry f) → Type 0
AreShort f es = All (λ e. All IsShort (parts f e)) es
