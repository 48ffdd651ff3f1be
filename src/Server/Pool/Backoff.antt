-- ===== src/Server/Pool/Backoff.antt =====
-- The delay before a retry (internal/worker/pool.go).
use native.Mathlib.Nat.{mod-eq_of_lt}
use job_flow_web_application.Prelude.{ℕ, zero, suc, ◌+◌, ◌-◌, ◌*◌, ◌%◌, ◌≤◌, ◌<◌, ◌≡◌, refl, arith}
use job_flow_web_application.Prelude.Int.{ℤ, pos, neg_part}
use job_flow_web_application.Server.Queue.{times}
use job_flow_web_application.Server.Pool.{pow_two, to_word, residue, delay_of}

-- The conversion is exact for the numbers that a 64-bit integer holds.
abbrev pub IsConversion : (ℕ → ℤ) → Type 0
IsConversion convert = (n : ℕ) → n < 63 → convert n ≡ pos (pow_two n)

pow_two_mono : (k n m : ℕ) → n + k ≡ m → pow_two k ≤ pow_two m
unfolding pow_two
pow_two_mono k zero m e = let same : k ≡ m = omega arith in rw same (omega arith)
pow_two_mono k (suc n) zero e = absurd (omega arith)
pow_two_mono k (suc n) (suc m) e = omega (arith, pow_two_mono k n m (omega arith))

pow_two_33 : pow_two 33 ≡ 8589934592
unfolding pow_two
pow_two_33 = refl

pow_two-le : (k : ℕ) → k ≤ 33 → pow_two k ≤ 8589934592
pow_two-le k h = omega (arith, pow_two_33, pow_two_mono k (33 - k) 33 (omega arith))

to_word_of_small : (n : ℕ) → n < 9223372036854775808 → to_word (residue (pos n)) ≡ pos n
unfolding to_word
to_word_of_small n h =
    let e : n % 18446744073709551616 ≡ n = mod-eq_of_lt (omega arith) in ground (arith, e)

times_pos : (n : ℕ) → times (pos n) 1000000000 ≡ pos (n * 1000000000)
times_pos n = ground arith

negative_delay : 0 < neg_part (to_word (residue (times (pos (pow_two 34)) 1000000000)))
unfolding to_word pow_two
negative_delay = omega arith

-- If the conversion to 64 bits is exact where it can be, the delay before the retry after a number of
-- attempts from 1 to 34 is 2 to the number of attempts less one, in seconds. After 35 attempts the
-- product no longer fits, and the delay is negative.
pub delay_of_lem :
    (convert : ℕ → ℤ)
    → IsConversion convert
    → ((attempts : ℕ)
        → 1 ≤ attempts
        → attempts ≤ 34
        → delay_of convert attempts ≡ pos (pow_two (attempts - 1) * 1000000000))
      × (0 < neg_part (delay_of convert 35))
unfolding delay_of
delay_of_lem convert exact = (
  λ attempts one few.
      let k = attempts - 1 in
      let bound = pow_two-le k (omega arith) in
      rw (exact k (omega arith), times_pos (pow_two k))
        (to_word_of_small (pow_two k * 1000000000) (omega arith)),
  rw (exact 34 (omega arith)) negative_delay,
)
