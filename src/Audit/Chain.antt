-- ===== src/Audit/Chain.antt =====
-- `verify` accepts exactly the chains from the genesis digest, and every log that `append` wrote.
use blackbag.Common.{
  ℕ, ◌+◌, ◌≡◌, ◌↔◌, subst, refl, sym, ap, ◌∙◌, ◌⊎◌, inl, inr, Bool, true, false, Option, none, some,
  List, [], ◌∷◌, ◌++◌, arith, Bool-cases, if◌then◌else◌, length, length-append, any,
}
use blackbag.Common.Bytes.{Bytes, bytes_eq, bytes_eq_iff}
use blackbag.Audit.{
  genesis, Surface, Decision, Who, Formats, Entry, compute, Log, new, last_digest, head, append,
  parts, Why, intact, walk, compare_head, verdict_of, verify,
}

module _ (f : Formats) where
  -- Each entry follows the one before it and has the digest of its contents.
  abbrev pub Chain : Bytes → List (Entry f) → Type 0
  Chain prev [] = Unit {0}
  Chain prev (e ∷ es) = (e.prev ≡ prev) × (e.digest ≡ compute f e) × Chain e.digest es

  walk-Chain :
      (i : ℕ) (prev : Bytes) (es : List (Entry f))
      → Chain prev es
      → walk f i prev es ≡ inr (last_digest f prev es)
  unfolding walk last_digest
  walk-Chain i prev [] h = refl
  walk-Chain i prev (e ∷ es) (follows, holds, rest) =
      rw
        (
          (bytes_eq_iff e.prev prev).1 follows,
          (bytes_eq_iff e.digest (compute f e)).1 holds,
          walk-Chain (i + 1) e.digest es rest,
        )
        refl

  Chain-walk :
      (i : ℕ) (prev : Bytes) (es : List (Entry f)) {last : Bytes}
      → walk f i prev es ≡ inr last
      → Chain prev es × (last ≡ last_digest f prev es)
  unfolding walk last_digest
  Chain-walk i prev [] h = (tt, cc)
  Chain-walk i prev (e ∷ es) h = elim (Bool-cases (bytes_eq e.prev prev)) [
    | inr cut ↦ cc (rw cut at h)
    | inl follows ↦ elim (Bool-cases (bytes_eq e.digest (compute f e))) [
      | inr edited ↦ cc (rw (follows, edited) at h)
      | inl holds ↦
          let (rest, last) = Chain-walk (i + 1) e.digest es (rw (follows, holds) at h) in
          (
            (
              (bytes_eq_iff e.prev prev).0 follows,
              (bytes_eq_iff e.digest (compute f e)).0 holds,
              rest,
            ),
            last,
          )
    ]
  ]

  -- The expected head is the last digest, or the log has grown past it.
  abbrev pub Known : List (Entry f) → Bytes → Option Bytes → Type 0
  Known es last none = Unit {0}
  Known es last (some want) = (want ≡ last) ⊎ (any (λ e. bytes_eq e.digest want) es ≡ true)

  compare_head_iff :
      (es : List (Entry f)) (prev : Bytes) (expected : Option Bytes) (n : ℕ) (h : Bytes)
      → (compare_head f es prev expected ≡ intact n h)
        ↔ ((n ≡ length es) × (h ≡ prev) × Known es prev expected)
  unfolding compare_head
  compare_head_iff es prev none n h =
      (λ e. (cc, cc, tt), λ k. let count : n ≡ length es = k.0 in let last : h ≡ prev = k.1 in cc)
  compare_head_iff es prev (some want) n h =
      (λ e. ground (arith, bytes_eq_iff want prev), λ k. ground (arith, bytes_eq_iff want prev))

  verdict_iff :
      (es : List (Entry f)) (expected : Option Bytes) (n : ℕ) (h : Bytes) (w : (ℕ × Why f) ⊎ Bytes)
      → walk f 0 genesis es ≡ w
      → (verdict_of f es expected w ≡ intact n h) ↔ (
          Chain genesis es
          × (n ≡ length es)
          × (h ≡ last_digest f genesis es)
          × Known es (last_digest f genesis es) expected)
  verdict_iff es expected n h (inl (at, why)) q = (
    λ e. absurd (cc e),
    λ k.
        let stops : walk f 0 genesis es ≡ inr (last_digest f genesis es) =
          walk-Chain 0 genesis es k.0 in
        absurd (cc),
  )
  verdict_iff es expected n h (inr prev) q =
      let (chain, last) = Chain-walk 0 genesis es q in
      let (to, from) = compare_head_iff es prev expected n h in
      (
        λ e. let (a, b, c) = to e in (chain, a, b ∙ last, subst (λ p. Known es p expected) last c),
        λ k. from (k.1, k.2 ∙ sym last, subst (λ p. Known es p expected) (sym last) k.3),
      )

  -- A log verifies as intact exactly if its entries are a chain from the genesis digest and the head
  -- that is expected, if any, is the last digest or that of some entry. The verdict then has the
  -- number of entries and the last digest.
  pub verify-intact_iff :
      (log : Log f) (expected : Option Bytes) (n : ℕ) (h : Bytes)
      → (verify f log expected ≡ intact n h) ↔ (
          Chain genesis log.entries
          × (n ≡ length log.entries)
          × (h ≡ head f log)
          × Known log.entries (head f log) expected)
  unfolding verify head
  verify-intact_iff log expected n h =
      verdict_iff log.entries expected n h (walk f 0 genesis log.entries) refl

  Chain-append :
      (prev : Bytes) (xs ys : List (Entry f))
      → Chain prev xs
      → Chain (last_digest f prev xs) ys
      → Chain prev (xs ++ ys)
  unfolding last_digest
  Chain-append prev [] ys hx hy = hy
  Chain-append prev (x ∷ xs) ys (follows, holds, rest) hy =
      (follows, holds, Chain-append x.digest xs ys rest hy)

  last_digest-append :
      (prev : Bytes) (xs ys : List (Entry f))
      → last_digest f prev (xs ++ ys) ≡ last_digest f (last_digest f prev xs) ys
  unfolding last_digest
  last_digest-append prev [] ys = refl
  last_digest-append prev (x ∷ xs) ys = last_digest-append x.digest xs ys

  any-append :
      (p : Entry f → Bool) (xs ys : List (Entry f)) → any p xs ≡ true → any p (xs ++ ys) ≡ true
  any-append p [] ys h = absurd (cc)
  any-append p (x ∷ xs) ys h = elim (Bool-cases (p x)) [
    | inl here ↦ rw here refl
    | inr not_here ↦ rw not_here (any-append p xs ys (rw not_here at h))
  ]

  -- The head that is recorded, if any, is the digest of some entry.
  abbrev pub Recorded : List (Entry f) → Option Bytes → Type 0
  Recorded es none = Unit {0}
  Recorded es (some want) = any (λ e. bytes_eq e.digest want) es ≡ true

  -- A log as `append` writes it.
  abbrev pub IsWritten : Log f → Type 0
  IsWritten log = Chain genesis log.entries × Recorded log.entries log.recorded_head

  pub new-IsWritten : IsWritten (new f)
  unfolding new
  new-IsWritten = (tt, tt)

  Recorded-append :
      (es ds : List (Entry f)) (recorded : Option Bytes)
      → Recorded es recorded
      → Recorded (es ++ ds) recorded
  Recorded-append es ds none k = tt
  Recorded-append es ds (some want) k = any-append (λ e. bytes_eq e.digest want) es ds k

  any-last :
      (p : Entry f → Bool) (es : List (Entry f)) (e : Entry f)
      → p e ≡ true
      → any p (es ++ e ∷ []) ≡ true
  any-last p [] e h = rw h refl
  any-last p (x ∷ es) e h = elim (Bool-cases (p x)) [
    | inl here ↦ rw here refl
    | inr not_here ↦ rw not_here (any-last p es e h)
  ]

  Recorded-head :
      (es : List (Entry f)) (e : Entry f) (recorded : Option Bytes) (head_written : Bool)
      → Recorded es recorded
      → Recorded (es ++ e ∷ []) (if head_written then some e.digest else recorded)
  Recorded-head es e recorded true k =
      any-last (λ d. bytes_eq d.digest e.digest) es e ((bytes_eq_iff e.digest e.digest).1 refl)
  Recorded-head es e recorded false k = Recorded-append es (e ∷ []) recorded k

  -- A log that `append` wrote, the empty one first of all, is a chain after one more `append`, and its
  -- recorded head, if any, is the digest of some entry, whether or not the head is written. The
  -- digest it returns is the new head.
  pub append-IsWritten :
      (log : Log f) (who : Who) (surface : Surface) (decision : Decision) (subject : Bytes)
      (detail : Option Bytes) (now : f.Time) (head_written : Bool)
      → IsWritten log
      → IsWritten (append f log who surface decision subject detail now head_written).0
        × (head f (append f log who surface decision subject detail now head_written).0
            ≡ (append f log who surface decision subject detail now head_written).1)
  unfolding append head compute parts last_digest
  append-IsWritten log who surface decision subject detail now head_written (chain, known) = (
    (
      Chain-append genesis log.entries _ chain (refl, refl, tt),
      Recorded-head log.entries _ log.recorded_head head_written known,
    ),
    last_digest-append genesis log.entries _,
  )

  Recorded-Known :
      (es : List (Entry f)) (last : Bytes) (recorded : Option Bytes)
      → Recorded es recorded
      → Known es last recorded
  Recorded-Known es last none k = tt
  Recorded-Known es last (some want) k = inr k

  verify-IsWritten :
      (log : Log f)
      → IsWritten log
      → verify f log log.recorded_head ≡ intact (length log.entries) (head f log)
  verify-IsWritten log (chain, known) =
      (verify-intact_iff log log.recorded_head (length log.entries) (head f log)).1
        (chain, refl, refl, Recorded-Known log.entries (head f log) log.recorded_head known)

  -- What one call of `append` is given, and whether it could write the head.
  pub record Call : Type 0 where
    pub who : Who
    pub surface : Surface
    pub decision : Decision
    pub subject : Bytes
    pub detail : Option Bytes
    pub now : f.Time
    pub head_written : Bool

  abbrev pub append_call : Log f → Call → Log f × Bytes
  append_call log c =
      append f log c.who c.surface c.decision c.subject c.detail c.now c.head_written

  -- The log after calls, the oldest first.
  abbrev pub appends : Log f → List Call → Log f
  appends log [] = log
  appends log (c ∷ cs) = appends (append_call log c).0 cs

  appends-IsWritten : (log : Log f) (cs : List Call) → IsWritten log → IsWritten (appends log cs)
  appends-IsWritten log [] h = h
  appends-IsWritten log (c ∷ cs) h =
      appends-IsWritten (append_call log c).0 cs
        (append-IsWritten log c.who c.surface c.decision c.subject c.detail c.now c.head_written
          h).0

  length-append_call :
      (log : Log f) (c : Call) → length (append_call log c).0.entries ≡ length log.entries + 1
  unfolding append
  length-append_call log c = length-append log.entries _

  length-appends :
      (log : Log f) (cs : List Call)
      → length (appends log cs).entries ≡ length log.entries + length cs
  length-appends log [] = omega arith
  length-appends log (c ∷ cs) =
      omega (arith, length-appends (append_call log c).0 cs, length-append_call log c)

  -- Whatever is appended to an empty log, and at whichever of the appends the head could not be
  -- written, the log verifies as intact against the head that is recorded then, with one entry for
  -- each call.
  pub verify-appends :
      (cs : List Call)
      → verify f (appends (new f) cs) (appends (new f) cs).recorded_head
        ≡ intact (length cs) (head f (appends (new f) cs))
  unfolding new
  verify-appends cs =
      verify-IsWritten (appends (new f) cs) (appends-IsWritten (new f) cs new-IsWritten)
      ∙ ap (λ n. intact n (head f (appends (new f) cs))) (omega (arith, length-appends (new f) cs))
