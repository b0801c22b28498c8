-- ===== src/Session/Earned/Signatures.antt =====
-- Signatures of SSH keys: only for a standing grant, and by the key that was named.
use blackbag.Common.{
  ◌≡◌, refl, sym, subst, Bool, true, false, Option, none, some, List, [], ◌∷◌, String,
}
use blackbag.Common.Bytes.{Bytes, bytes_eq_iff}
use blackbag.Common.Result.{Result, ok, err}
use blackbag.Policy as Policy
use blackbag.Policy.{Verdict, remembered, must_ask, blocked, consider}
use blackbag.Record.{Record}
use blackbag.Ssh.Key.{Ed25519, SshKey, public_blob, sign_blob}
use blackbag.Session.Earned.{
  Fixed, Any, Triple-any, Triple-known, opened-Fixed, start-Fixed, verdict-Fixed,
}
use blackbag.Session.Hex.{HexError, hex, unhex}
use blackbag.Session.Keeps.{After, Triple, Triple-bind, Triple-from, Triple-pure, Triple-fail}
use blackbag.Session.Messages.{Reports, Response, ssh_signature}
use blackbag.Session.SshKeys as SshKeys
use blackbag.Session.State.{Agent, AgentError, World}
use blackbag.Session.Step.{pure, fail}

module _ {S : Type 0} (ed : Ed25519 S) (fp : Bytes → String) where
  pick-public_blob :
      (want : Bytes) (r : Record) (k : Option (SshKey ed)) (named : Bool)
      (rest : Option (SshKey ed × String)) (key : SshKey ed) (comment : String)
      → named ≡ SshKeys.names_blob ed fp want k
      → (rest ≡ some (key, comment) → public_blob ed key ≡ want)
      → SshKeys.pick ed fp k r named rest ≡ some (key, comment)
      → public_blob ed key ≡ want
  pick-public_blob want r (some k) true rest key comment n h e =
      let blob : public_blob ed k ≡ want = (bytes_eq_iff (public_blob ed k) want).0 (sym n) in cc
  pick-public_blob want r (some k) false rest key comment n h e = h e
  pick-public_blob want r none true rest key comment n h e = h e
  pick-public_blob want r none false rest key comment n h e = h e

  -- The key that is found is one whose public blob was asked for.
  find_key-public_blob :
      (want : Bytes) (rs : List Record) (key : SshKey ed) (comment : String)
      → SshKeys.find_key ed fp want rs ≡ some (key, comment)
      → public_blob ed key ≡ want
  unfolding SshKeys.find_key
  find_key-public_blob want [] key comment e = cc
  find_key-public_blob want (r ∷ rs) key comment e =
      pick-public_blob want r (SshKeys.key_in ed fp r) _ (SshKeys.find_key ed fp want rs) key
        comment refl (find_key-public_blob want rs key comment) e

  module _ {K : Type 0} (R : Reports) (w : World K) (start : Agent K) where
    from_hex-Fixed :
        (r : Result HexError Bytes)
        → Triple
            (Any w start)
            (Fixed w start)
            (SshKeys.from_hex r)
            (λ b a. Fixed w start a × (r ≡ ok b))
    unfolding pure fail
    from_hex-Fixed (ok b) = record { at = λ a h. (h, refl) }
    from_hex-Fixed (err e) = record { at = λ a h. tt }

    need_found-Fixed :
        (r : Option (SshKey ed × String))
        → Triple
            (Any w start)
            (Fixed w start)
            (SshKeys.need_found ed fp r)
            (λ k a. Fixed w start a × (r ≡ some k))
    unfolding pure fail SshKeys.need_found
    need_found-Fixed none = record { at = λ a h. tt }
    need_found-Fixed (some k) = record { at = λ a h. (h, refl) }

    -- What a signature rests on.
    Signed : Bytes → Bytes → Response R → Agent K → Type 0
    Signed blob text x a =
        (s : Bytes)
        → x ≡ ssh_signature s
        → (want : Bytes) × (message : Bytes) × (key : SshKey ed) × (unhex blob ≡ ok want)
          × (unhex text ≡ ok message)
          × (public_blob ed key ≡ want)
          × (s ≡ hex (sign_blob ed key message))
          × (consider start.approvals SshKeys.client (fp want) Policy.ssh_sign ≡ remembered)

    settle_sign-Signed :
        (blob text want message : Bytes) (key : SshKey ed) (comment : String) (v : Verdict)
        → unhex blob ≡ ok want
        → unhex text ≡ ok message
        → public_blob ed key ≡ want
        → consider start.approvals SshKeys.client (fp want) Policy.ssh_sign ≡ v
        → Triple
            (Any w start)
            (Fixed w start)
            (SshKeys.settle_sign ed fp R w v want key comment message)
            (Signed blob text)
    unfolding SshKeys.settle_sign Signed
    settle_sign-Signed blob text want message key comment remembered b t k e =
        Triple-bind _ _ (Triple-any _) λ u. Triple-pure _ λ a h s i.
          let same : s ≡ hex (sign_blob ed key message) = cc in
          (want, message, key, b, t, k, same, e)
    settle_sign-Signed blob text want message key comment must_ask b t k e =
        Triple-bind _ _ (Triple-any _) λ g.
          Triple-bind _ _ (Triple-any _)
            λ n. Triple-bind _ _ (Triple-any _) λ u. Triple-pure _ λ a h s i. cc
    settle_sign-Signed blob text want message key comment blocked b t k e =
        Triple-bind _ _ (Triple-any _) λ u. Triple-fail _ λ a h. tt

    ssh_sign-Signed :
        (blob text : Bytes)
        → Triple
            (Any w start)
            (Fixed w start)
            (SshKeys.ssh_sign ed fp R w blob text)
            (Signed blob text)
    unfolding SshKeys.ssh_sign SshKeys.need_hex
    ssh_sign-Signed blob text = Triple-bind _ _ (from_hex-Fixed (unhex blob)) λ want.
        Triple-known _ (λ a h. h.1)
          λ b. Triple-bind _ _ (Triple-from _ (λ a h. h.0) (from_hex-Fixed (unhex text))) λ message.
            Triple-known _ (λ a h. h.1)
              λ t. Triple-bind _ _ (Triple-from _ (λ a h. h.0) (opened-Fixed w start)) λ o.
                Triple-bind _ _
                  (Triple-from _ (λ a h. h.0)
                    (need_found-Fixed (SshKeys.find_key ed fp want o.vault.records)))
                  λ (key, comment).
                    Triple-known _ (λ a h. h.1)
                      λ f.
                        Triple-bind _ _
                          (Triple-from _ (λ a h. h.0)
                            (verdict-Fixed w start SshKeys.client (fp want) Policy.ssh_sign))
                          λ v.
                            Triple-known _ (λ a h. h.1)
                              λ e.
                                Triple-from _ (λ a h. h.0)
                                  (settle_sign-Signed blob text want message key comment v b t
                                    (find_key-public_blob want o.vault.records key comment f) e)

    answer_of :
        (blob text : Bytes) (r : Agent K × Result AgentError (Response R)) (a : Agent K) (s : Bytes)
        → After (Any w start) (Signed blob text) r
        → r ≡ (a, ok (ssh_signature s))
        → Signed blob text (ssh_signature s) a
    answer_of blob text r a s h e = subst (After (Any w start) (Signed blob text)) e h

    -- A signature that the agent gives an SSH client is on the message of the request, by the key whose
    -- public blob the request names, and the approvals had let the SSH client sign with that key when
    -- the request came (so never under lockdown, unless the client is trusted).
    pub ssh_sign-Earned :
        (blob text : Bytes) (a : Agent K) (s : Bytes)
        → SshKeys.ssh_sign ed fp R w blob text start ≡ (a, ok (ssh_signature s))
        → (want : Bytes) × (message : Bytes) × (key : SshKey ed) × (unhex blob ≡ ok want)
          × (unhex text ≡ ok message)
          × (public_blob ed key ≡ want)
          × (s ≡ hex (sign_blob ed key message))
          × (consider start.approvals SshKeys.client (fp want) Policy.ssh_sign ≡ remembered)
    unfolding Signed
    ssh_sign-Earned blob text a s e =
        answer_of blob text (SshKeys.ssh_sign ed fp R w blob text start) a s
          ((ssh_sign-Signed blob text).at start (start-Fixed w start)) e s refl
