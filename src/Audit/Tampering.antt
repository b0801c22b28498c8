-- ===== src/Audit/Tampering.antt =====
-- What the chain protects: under one head stands one history, and a log that knows an older head
-- holds the log of that head as its beginning.
use blackbag.Common.{
  ℕ, zero, suc, ◌<◌, ◌≡◌, refl, ap, sym, ◌∙◌, ◌⊎◌, inl, inr, true, Bool-cases, Option, some, List,
  [], ◌∷◌, map, arith, ltb, length, take, any,
}
use blackbag.Common.Bytes.{Bytes, bytes_eq, bytes_eq_iff}
use blackbag.Audit.{
  genesis, Formats, frame, Entry, Log, parts, compute, last_digest, head, intact, verify,
}
use blackbag.Audit.Digest.{IsHash, HasBreak, genesis_hit, AreShort, compute_inj}
use blackbag.Audit.Chain.{Chain, Known, verify-intact_iff}

module _ (f : Formats) (h : IsHash f) where
  parts-prev : (d e : Entry f) → parts f d ≡ parts f e → d.prev ≡ e.prev
  unfolding parts
  parts-prev d e q = cc

  -- Two chains of one length with one last digest have one start and one content.
  same_length :
      (p q : Bytes) (ds es : List (Entry f))
      → Chain f p ds
      → Chain f q es
      → AreShort f ds
      → AreShort f es
      → length ds ≡ length es
      → last_digest f p ds ≡ last_digest f q es
      → ((p ≡ q) × (map (parts f) ds ≡ map (parts f) es)) ⊎ HasBreak f
  unfolding last_digest
  same_length p q [] [] cd ce sd se n last = inl (last, refl)
  same_length p q [] (e ∷ es) cd ce sd se n last = absurd (omega arith)
  same_length p q (d ∷ ds) [] cd ce sd se n last = absurd (omega arith)
  same_length p q (d ∷ ds) (e ∷ es) (fd, hd, cd) (fe, he, ce) (s1, sd) (s2, se) n last =
      elim (same_length d.digest e.digest ds es cd ce sd se (omega arith) last) [
        | inr break ↦ inr break
        | inl (digests, rest) ↦ elim (compute_inj f d e h s1 s2 (sym hd ∙ digests ∙ he)) [
          | inr break ↦ inr break
          | inl same ↦
              let prevs : d.prev ≡ e.prev = parts-prev d e same in
              inl (cc (fd, fe, prevs), cc (same, rest))
        ]
      ]

  -- A chain with the last digest of a longer one starts at a digest.
  longer :
      (p q : Bytes) (ds es : List (Entry f))
      → Chain f p ds
      → Chain f q es
      → AreShort f ds
      → AreShort f es
      → length ds < length es
      → last_digest f p ds ≡ last_digest f q es
      → ((e : Entry f) × (p ≡ compute f e)) ⊎ HasBreak f
  unfolding last_digest
  longer p q ds [] cd ce sd se n last = absurd (omega arith)
  longer p q ds (e ∷ es) cd (fe, he, ce) sd (s2, se) n last =
      elim (Bool-cases (ltb (length ds) (length es))) [
        | inl less ↦ longer p e.digest ds es cd ce sd se (ground arith) last
        | inr not_less ↦ elim (same_length p e.digest ds es cd ce sd se (ground arith) last) [
          | inr break ↦ inr break
          | inl (start, rest) ↦ inl (e, start ∙ he)
        ]
      ]

  compute-genesis : (e : Entry f) → genesis ≡ compute f e → HasBreak f
  unfolding compute
  compute-genesis e q = genesis_hit (frame (parts f e)) (sym q)

  start : ((e : Entry f) × (genesis ≡ compute f e)) ⊎ HasBreak f → HasBreak f
  start (inl (e, q)) = compute-genesis e q
  start (inr break) = break

  pub one_history :
      (ds es : List (Entry f))
      → Chain f genesis ds
      → Chain f genesis es
      → AreShort f ds
      → AreShort f es
      → last_digest f genesis ds ≡ last_digest f genesis es
      → (map (parts f) ds ≡ map (parts f) es) ⊎ HasBreak f
  one_history ds es cd ce sd se last = elim (Bool-cases (ltb (length ds) (length es))) [
    | inl less ↦ inr (start (longer genesis genesis ds es cd ce sd se (ground arith) last))
    | inr not_less ↦ elim (Bool-cases (ltb (length es) (length ds))) [
      | inl more ↦ inr (start (longer genesis genesis es ds ce cd se sd (ground arith) (sym last)))
      | inr not_more ↦ elim (same_length genesis genesis ds es cd ce sd se (ground arith) last) [
        | inl (p, same) ↦ inl same
        | inr break ↦ inr break
      ]
    ]
  ]

  Chain-take : (k : ℕ) (p : Bytes) (es : List (Entry f)) → Chain f p es → Chain f p (take k es)
  Chain-take zero p es c = tt
  Chain-take (suc k) p [] c = tt
  Chain-take (suc k) p (e ∷ es) (a, b, c) = (a, b, Chain-take k e.digest es c)

  AreShort-take : (k : ℕ) (es : List (Entry f)) → AreShort f es → AreShort f (take k es)
  AreShort-take zero es s = tt
  AreShort-take (suc k) [] s = tt
  AreShort-take (suc k) (e ∷ es) (a, s) = (a, AreShort-take k es s)

  -- The entries up to the one with a given digest.
  any-take :
      (p want : Bytes) (es : List (Entry f))
      → any (λ e. bytes_eq e.digest want) es ≡ true
      → (k : ℕ) × (last_digest f p (take k es) ≡ want)
  unfolding last_digest
  any-take p want [] found = absurd (cc)
  any-take p want (e ∷ es) found = elim (Bool-cases (bytes_eq e.digest want)) [
    | inl here ↦ (1, (bytes_eq_iff e.digest want).0 here)
    | inr not_here ↦
        let (k, last) = any-take e.digest want es (rw not_here at found) in (suc k, last)
  ]

  take-length : (es : List (Entry f)) → take (length es) es ≡ es
  take-length [] = refl
  take-length (e ∷ es) = ap (λ r. e ∷ r) (take-length es)

  Known-take :
      (es : List (Entry f)) (want : Bytes)
      → Known f es (last_digest f genesis es) (some want)
      → (k : ℕ) × (last_digest f genesis (take k es) ≡ want)
  Known-take es want (inl last) =
      (length es, ap (last_digest f genesis) (take-length es) ∙ sym last)
  Known-take es want (inr found) = any-take genesis want es found

  -- Let one log verify as intact with a head, and another verify as intact against that head. Then
  -- the other begins with the first, entry by entry in all that is hashed, or the hash is broken:
  -- two messages with one output are given, or one whose digest is sixty-four zeros. The hash is
  -- assumed to give bytes, and the hashed parts to be shorter than 2 ^ 64 bytes.
  pub verify-prefix :
      (old new : Log f) (expected : Option Bytes) (n m : ℕ) (known last : Bytes)
      → AreShort f old.entries
      → AreShort f new.entries
      → verify f old expected ≡ intact n known
      → verify f new (some known) ≡ intact m last
      → ((k : ℕ) × (map (parts f) (take k new.entries) ≡ map (parts f) old.entries)) ⊎ HasBreak f
  unfolding head
  verify-prefix old new expected n m known last so sn vo vn =
      let (co, count, ho, ko) = (verify-intact_iff f old expected n known).0 vo in
      let (cn, count_new, hn, kn) = (verify-intact_iff f new (some known) m last).0 vn in
      let (k, at) = Known-take new.entries known kn in
      elim (one_history (take k new.entries) old.entries (Chain-take k genesis new.entries cn) co
        (AreShort-take k new.entries sn) so (at ∙ ho)) [
          | inl same ↦ inl (k, same)
          | inr break ↦ inr break
        ]
