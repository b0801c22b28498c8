-- ===== src/Ssh/Agent/Examples.antt =====
-- A vault with one key, which counts the signatures it was asked for.
use blackbag.Common.{ℕ, suc, ◌≡◌, refl, if◌then◌else◌, none, some, [], ◌∷◌, ◌++◌, arith}
use blackbag.Common.Bytes.{Bytes, bytes_eq, are_bytes-IsByte}
use blackbag.Common.Result.{ok}
use blackbag.Ssh.Agent.{sign_request, Identity, Signer, respond, identities_answer}
use blackbag.Ssh.Agent.Requests.{sign_body, Answered, respond-Answered}
use blackbag.Ssh.Agent.Answers.{read_answer, read_answer-identities_answer}

abbrev key : Identity
key = record { key_blob = b'k' ∷ b'1' ∷ []; comment = b'm' ∷ b'e' ∷ [] }

abbrev vault : Signer ℕ
vault = record {
  identities = λ s. (key ∷ [], s);
  sign = λ key_blob bytes flags s.
      if bytes_eq key_blob key.key_blob then (some (0 ∷ bytes), suc s) else (none, s);
}

abbrev request : Bytes
request = sign_request ∷ sign_body (b'k' ∷ b'1' ∷ []) (b'x' ∷ []) 0

respond-Answered_example :
    Answered vault (request ++ 9 ∷ []) 0 (respond vault (request ++ 9 ∷ []) 0)
respond-Answered_example =
    respond-Answered vault (request ++ 9 ∷ []) 0 (are_bytes-IsByte (request ++ 9 ∷ []) refl)

read_answer-identities_answer_example :
    read_answer (identities_answer (key ∷ key ∷ [])) ≡ ok (key ∷ key ∷ [])
read_answer-identities_answer_example =
    read_answer-identities_answer (key ∷ key ∷ [])
      ((omega arith, omega arith), ((omega arith, omega arith), tt)) (omega arith)
