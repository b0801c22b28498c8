-- ===== src/Totp/Steps.antt =====
-- The code and its time to live over time.
use blackbag.Common.{
  ℕ, ◌+◌, ◌-◌, ◌*◌, ◌/◌, ◌%◌, ◌<◌, ◌≤◌, ◌≡◌, refl, ap, sym, ◌∙◌, true, not, ◌==◌, arith,
}
use blackbag.Common.Bytes.{Bytes}
use blackbag.Common.Result.{ok, bind_inv, ensure, ensure_inv}
use native.Mathlib.Nat.{
  div-add-mod', mul-add-div_right, mul-add-mod_self_right, div-eq_of_lt, mod-eq_of_lt, mod-lt,
}
use blackbag.Totp.{TotpAlgorithm, zero_step, Hmac, hotp, totp_at}

same_step :
    (t k step : ℕ)
    → 0 < step
    → k < step - t % step
    → ((t + k) / step ≡ t / step) × ((t + k) % step ≡ t % step + k)
same_step t k step positive within =
    let y = t % step + k in
    let small : y < step = omega arith in
    let whole : t / step * step + y ≡ t + k =
      omega (arith, ap (λ n. n + k) (div-add-mod' t step)) in
    (
      ap (λ n. n / step) (sym whole)
          ∙ mul-add-div_right positive (t / step) y
          ∙ ap (λ n. t / step + n) (div-eq_of_lt small)
          ∙ omega arith,
      ap (λ n. n % step) (sym whole)
          ∙ mul-add-mod_self_right (t / step) step y
          ∙ mod-eq_of_lt small,
    )

pass_step : (step : ℕ) (u : Unit {0}) → ensure (not (step == 0)) zero_step ≡ ok u → 0 < step
pass_step step u h =
    let nonzero : not (step == 0) ≡ true = ensure_inv (not (step == 0)) zero_step u h in
    ground arith

-- A code that is given lasts for at least one second and for at most the step.
pub totp_at-bounds :
    (hmac : Hmac) (secret : Bytes) (t step digits : ℕ) (algorithm : TotpAlgorithm) (code : Bytes)
    (ttl : ℕ)
    → totp_at hmac secret t step digits algorithm ≡ ok (code, ttl)
    → (0 < ttl) × (ttl ≤ step)
unfolding totp_at
totp_at-bounds hmac secret t step digits algorithm code ttl h =
    let (u, first, rest) = bind_inv (ensure (not (step == 0)) zero_step) _ (code, ttl) h in
    let (found, second, out) =
      bind_inv (hotp hmac secret (t / step) digits algorithm) _ (code, ttl) rest in
    let positive = pass_step step u first in
    let below : t % step < step = mod-lt t positive in
    let remains : step - t % step ≡ ttl = cc in (omega arith, omega arith)

-- The code that is given for a time stays the code for as many seconds as it says remain; meanwhile
-- the remaining time goes down second by second.
pub totp_at-ttl :
    (hmac : Hmac) (secret : Bytes) (t step digits : ℕ) (algorithm : TotpAlgorithm) (code : Bytes)
    (ttl k : ℕ)
    → totp_at hmac secret t step digits algorithm ≡ ok (code, ttl)
    → k < ttl
    → totp_at hmac secret (t + k) step digits algorithm ≡ ok (code, ttl - k)
unfolding totp_at
totp_at-ttl hmac secret t step digits algorithm code ttl k h within =
    let (u, first, rest) = bind_inv (ensure (not (step == 0)) zero_step) _ (code, ttl) h in
    let (found, second, out) =
      bind_inv (hotp hmac secret (t / step) digits algorithm) _ (code, ttl) rest in
    let nonzero : not (step == 0) ≡ true = ensure_inv (not (step == 0)) zero_step u first in
    let positive = pass_step step u first in
    let remains : step - t % step ≡ ttl = cc in
    let same_code : found ≡ code = cc in
    let (counter, elapsed) = same_step t k step positive (omega arith) in
    let later : step - (t % step + k) ≡ ttl - k = omega arith in
    rw (nonzero, counter, elapsed, second, same_code, later) refl
