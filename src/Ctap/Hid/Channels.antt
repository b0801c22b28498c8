-- ===== src/Ctap/Hid/Channels.antt =====
-- Channels: one cannot disturb another's transaction, the one that is busy is not restarted, and the
-- ids that are handed out are real.
use blackbag.Common.{
  ℕ, zero, suc, ◌+◌, ◌%◌, ◌<◌, ◌^◌, ◌≡◌, ◌≢◌, refl, bit_and, Bool, true, false, Option, none, some,
  List, [], ◌∷◌, arith, if◌then◌else◌, ◌==◌, leb, Bool-cases, inl, inr, ◌∙◌, filter,
}
use blackbag.Common.Bytes.{Bytes, from_be32, low_bits, top_bit}
use blackbag.Common.Assoc.{get, get-remove, get-insert}
use blackbag.Ctap.Hid.{
  broadcast_cid, cmd_init, cmd_cancel, channel_busy, Partial, Reassembler, Step, error, new,
  is_busy, allocate, push_init, push_part, push_cont, push_on, push,
}

-- The channel that a report names, if it is long enough to carry a header.
abbrev pub channel_of : Bytes → Option ℕ
channel_of (a ∷ b ∷ c ∷ d ∷ byte ∷ hi ∷ lo ∷ rest) = some (from_be32 a b c d)
channel_of short = none

abbrev pub is_on : ℕ → Bytes → Bool
is_on cid p = elim (channel_of p) [ none ↦ false | some c ↦ c == cid ]

push_init-get :
    (r : Reassembler) (cid cmd hi lo : ℕ) (rest : Bytes) (j : ℕ)
    → (cid == j) ≡ false
    → get j (push_init r cid cmd hi lo rest).0.opened ≡ get j r.opened
unfolding push_init
push_init-get r cid cmd hi lo rest j h = grind (arith, get-remove, get-insert)

push_cont-get :
    (r : Reassembler) (cid seq : ℕ) (rest : Bytes) (found : Option Partial) (j : ℕ)
    → (cid == j) ≡ false
    → get j (push_cont r cid seq rest found).0.opened ≡ get j r.opened
unfolding push_cont push_part
push_cont-get r cid seq rest none j h = refl
push_cont-get r cid seq rest (some part) j h = grind (arith, get-remove, get-insert)

-- A report changes no channel's transaction but that of the channel that it names.
pub push-get_other :
    (r : Reassembler) (p : Bytes) (j : ℕ)
    → is_on j p ≡ false
    → get j (push r p).0.opened ≡ get j r.opened
unfolding push push_on
push-get_other r (a ∷ b ∷ c ∷ d ∷ byte ∷ hi ∷ lo ∷ rest) j h =
    let cid : ℕ = from_be32 a b c d in
    let cmd : ℕ = bit_and byte 0x7f in
    ground (
      arith,
      push_init-get r cid cmd hi lo rest j h,
      push_cont-get r cid cmd (hi ∷ lo ∷ rest) (get cid r.opened) j h,
    )
push-get_other r _ j h = refl

-- An initialisation report on a channel with a transaction in flight is refused and changes nothing,
-- unless its command is INIT or CANCEL.
pub push_busy :
    (r : Reassembler) (a b c d cmd hi lo : ℕ) (rest : Bytes)
    → cmd < 128
    → from_be32 a b c d ≢ 0
    → is_busy r (from_be32 a b c d) ≡ true
    → cmd ≢ cmd_init
    → cmd ≢ cmd_cancel
    → push r (a ∷ b ∷ c ∷ d ∷ (cmd + 128) ∷ hi ∷ lo ∷ rest)
      ≡ (r, error (from_be32 a b c d) channel_busy)
unfolding push push_on push_init is_busy
push_busy r a b c d cmd hi lo rest h nz busy ni nc =
    ground (arith, top_bit (cmd + 128), low_bits (cmd + 128))

-- The id that comes after `n`: 0xffff_ffff and 0 are passed over.
abbrev pub next_id : ℕ → ℕ
next_id n = if leb 0xffff_fffe n then 1 else n + 1

-- `allocate` ends within three rounds, takes the next id that is neither 0 nor the broadcast channel,
-- and touches no transaction.
pub allocate_lem :
    (r : Reassembler)
    → r.next_cid < 2 ^ 32
    → (allocate r ≡ (record r { next_cid = next_id r.next_cid }, some (next_id r.next_cid)))
      × (next_id r.next_cid ≢ 0)
      × (next_id r.next_cid < broadcast_cid)
unfolding allocate
allocate_lem r h = ground arith

pub allocate_times : ℕ → Reassembler → Reassembler
allocate_times zero r = r
allocate_times (suc k) r = (allocate (allocate_times k r)).0

-- How many ids there are to hand out.
abbrev pub ids : ℕ
ids = 0xffff_fffe

next_cid-allocate_times : (k : ℕ) → (allocate_times (suc k) new).next_cid ≡ k % ids + 1
unfolding allocate_times new
next_cid-allocate_times zero = ground (arith, allocate_lem new)
next_cid-allocate_times (suc k) =
    ground (arith, next_cid-allocate_times k, allocate_lem (allocate_times (suc k) new))

-- However many ids were handed out before, the next one is real: they go from 1 to 2 ^ 32 - 2 and
-- round again, past the broadcast channel and 0.
pub allocate_counts : (k : ℕ) → (allocate (allocate_times k new)).1 ≡ some (k % ids + 1)
unfolding allocate_times new
allocate_counts zero = ground (arith, allocate_lem new)
allocate_counts (suc k) =
    ground (arith, next_cid-allocate_times k, allocate_lem (allocate_times (suc k) new))

-- The steps that the reports of one channel got, in a run of reports of any channels.
unfoldable pub answers : ℕ → Reassembler → List Bytes → List Step
answers cid r [] = []
answers cid r (p ∷ ps) =
    let (r', s) = push r p in let rest = answers cid r' ps in if is_on cid p then s ∷ rest else rest

pub answers_on :
    (cid : ℕ) (r : Reassembler) (p : Bytes) (ps : List Bytes)
    → is_on cid p ≡ true
    → answers cid r (p ∷ ps) ≡ (push r p).1 ∷ answers cid (push r p).0 ps
unfolding answers
answers_on cid r p ps h = rw h

pub answers_off :
    (cid : ℕ) (r : Reassembler) (p : Bytes) (ps : List Bytes)
    → is_on cid p ≡ false
    → answers cid r (p ∷ ps) ≡ answers cid (push r p).0 ps
unfolding answers
answers_off cid r p ps h = rw h

pub answers_none :
    (cid : ℕ) (r : Reassembler) (ps : List Bytes)
    → filter (is_on cid) ps ≡ []
    → answers cid r ps ≡ []
answers_none cid r [] h = unfold answers in refl
answers_none cid r (p ∷ ps) h = elim (Bool-cases (is_on cid p)) [
  | inl on ↦ cc (rw on at h)
  | inr off ↦ answers_off cid r p ps off ∙ answers_none cid (push r p).0 ps (rw off at h)
]
