-- ===== src/Audit/Examples.antt =====
-- Two requests logged, on a checksum in the place of SHA-256.
use blackbag.Common.{
  ℕ, ◌+◌, ◌*◌, ◌%◌, ◌^◌, ◌≡◌, ◌↔◌, refl, ◌⊎◌, inl, inr, Bool, true, false, Bool-cases, none, some,
  List, [], ◌∷◌, map, arith, ltb, ◌&&◌, length, take, All,
}
use blackbag.Common.Bytes.{Bytes}
use blackbag.Common.Int.{ℤ, pos, negsuc}
use blackbag.Audit.{
  genesis, Who, passkey, ssh_agent, approved, refused, Formats, Entry, Log, parts, surface_str,
  decision_str, hex, compute, last_digest, new, append, head, intact, verify,
}
use blackbag.Audit.Digest.{IsHash, HasBreak, IsShort, AreShort}
use blackbag.Audit.Chain.{
  Chain, Known, IsWritten, new-IsWritten, append-IsWritten, Call, verify-appends, verify-intact_iff,
}
use blackbag.Audit.Tampering.{verify-prefix}

abbrev sum : Bytes → ℕ
sum [] = 0
sum (b ∷ bs) = 3 * sum bs + b + 1

abbrev show_pid : ℤ → Bytes
show_pid (pos n) = n ∷ []
show_pid (negsuc n) = b'-' ∷ n ∷ []

abbrev checksum : Formats
checksum = record {
  Time = ℕ;
  to_rfc3339 = λ t. t ∷ [];
  show_u32 = λ n. n ∷ [];
  show_i32 = show_pid;
  sha256 = λ m. sum m % 256 ∷ length m % 256 ∷ [];
}

checksum-IsHash : IsHash checksum
checksum-IsHash m = (omega arith, (omega arith, tt))

abbrev who : Who
who = record { uid = 1000; pid = pos 42; program = some (b'g' ∷ b'i' ∷ b't' ∷ []) }

abbrev one_entry : Log checksum
one_entry = (append checksum (new checksum) who ssh_agent approved (b'k' ∷ []) none 7 true).0

abbrev two_entries : Log checksum
two_entries =
    (append checksum one_entry who passkey refused (b'w' ∷ []) (some (b'n' ∷ [])) 9 false).0

abbrev all_short : List Bytes → Bool
all_short [] = true
all_short (p ∷ ps) = ltb (length p) (2 ^ 64) && all_short ps

all_short-IsShort : (ps : List Bytes) → all_short ps ≡ true → All IsShort ps
all_short-IsShort [] h = tt
all_short-IsShort (p ∷ ps) h = elim (Bool-cases (ltb (length p) (2 ^ 64))) [
  | inl short ↦ (ground arith, all_short-IsShort ps (rw short at h))
  | inr long ↦ absurd (cc (rw long at h))
]

one_entry-IsWritten : IsWritten checksum one_entry
one_entry-IsWritten =
    (append-IsWritten checksum (new checksum) who ssh_agent approved (b'k' ∷ []) none 7 true
      (new-IsWritten checksum)).0

append-IsWritten_example :
    IsWritten checksum two_entries
    × (head checksum two_entries
        ≡ (append checksum one_entry who passkey refused (b'w' ∷ []) (some (b'n' ∷ [])) 9 false).1)
append-IsWritten_example =
    append-IsWritten checksum one_entry who passkey refused (b'w' ∷ []) (some (b'n' ∷ [])) 9 false
      one_entry-IsWritten

-- The same two calls as in `two_entries`.
abbrev calls : List (Call checksum)
calls =
    record {
      who = who;
      surface = ssh_agent;
      decision = approved;
      subject = b'k' ∷ [];
      detail = none;
      now = 7;
      head_written = true;
    }
    ∷ record {
      who = who;
      surface = passkey;
      decision = refused;
      subject = b'w' ∷ [];
      detail = some (b'n' ∷ []);
      now = 9;
      head_written = false;
    }
    ∷ []

verify-appends_example :
    verify checksum two_entries two_entries.recorded_head ≡ intact 2 (head checksum two_entries)
verify-appends_example = verify-appends checksum calls

abbrev all_entries_short : List (Entry checksum) → Bool
all_entries_short [] = true
all_entries_short (e ∷ es) = all_short (parts checksum e) && all_entries_short es

all_entries_short-AreShort :
    (es : List (Entry checksum)) → all_entries_short es ≡ true → AreShort checksum es
all_entries_short-AreShort [] h = tt
all_entries_short-AreShort (e ∷ es) h = elim (Bool-cases (all_short (parts checksum e))) [
  | inl short ↦
      (all_short-IsShort (parts checksum e) short, all_entries_short-AreShort es (rw short at h))
  | inr long ↦ absurd (cc (rw long at h))
]

one_entry-AreShort : AreShort checksum one_entry.entries
unfolding append new parts head compute hex last_digest surface_str decision_str
one_entry-AreShort = all_entries_short-AreShort one_entry.entries refl

two_entries-AreShort : AreShort checksum two_entries.entries
unfolding append new parts head compute hex last_digest surface_str decision_str
two_entries-AreShort = all_entries_short-AreShort two_entries.entries refl

one_entry-knows :
    verify checksum one_entry one_entry.recorded_head ≡ intact 1 (head checksum one_entry)
one_entry-knows = verify-appends checksum (take 1 calls)

-- The second log knows the head of the first, as its own head was not written.
two_entries-knows :
    verify checksum two_entries (some (head checksum one_entry))
    ≡ intact (length two_entries.entries) (head checksum two_entries)
unfolding append new head last_digest compute
two_entries-knows = verify-appends checksum calls

verify-prefix_example :
    ((k : ℕ) × (map (parts checksum) (take k two_entries.entries)
        ≡ map (parts checksum) one_entry.entries))
    ⊎ HasBreak checksum
unfolding append new
verify-prefix_example =
    verify-prefix checksum checksum-IsHash one_entry two_entries one_entry.recorded_head 1 2
      (head checksum one_entry) (head checksum two_entries) one_entry-AreShort two_entries-AreShort
      one_entry-knows two_entries-knows

verify-intact_iff_example :
    (verify checksum two_entries none ≡ intact 2 (head checksum two_entries)) ↔ (
      Chain checksum genesis two_entries.entries
      × (2 ≡ length two_entries.entries)
      × (head checksum two_entries ≡ head checksum two_entries)
      × Known checksum two_entries.entries (head checksum two_entries) none)
verify-intact_iff_example =
    verify-intact_iff checksum two_entries none 2 (head checksum two_entries)
