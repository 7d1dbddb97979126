-- ===== src/Queue/Retries.antt =====
-- How often and when a job is tried again: `JobQueue.fail` of rrpp_bridge/queue.py.
use rrpp_agent_bridge.Common.{ℕ, ◌+◌, ◌*◌, ◌-◌, ◌^◌, ◌≤◌, min, suc, zero, arith, ◌≡◌}
use native.Mathlib.Nat.{pow-succ'}
use native.Mathlib.Numerals.{unary_clauses}
use rrpp_agent_bridge.Queue.Recovery.{retry_delay}

power-pos : (n : ℕ) → 1 ≤ 2 ^ n
power-pos zero = ground arith
power-pos (suc n) = simp unary_clauses (omega (arith, power-pos n))

-- The wait before the next attempt is from five seconds to five minutes.
pub retry_delay-bounds : (attempts : ℕ) → (5 ≤ retry_delay attempts) × (retry_delay attempts ≤ 300)
unfolding retry_delay
retry_delay-bounds attempts = (omega (arith, power-pos (attempts - 1)), omega arith)

next_exponent : (n : ℕ) → suc n + 1 - 1 ≡ suc n
next_exponent n = omega arith

exponent : (n : ℕ) → suc n - 1 ≡ n
exponent n = omega arith

-- From the first attempt on, the wait doubles with each attempt until it reaches five minutes.
pub retry_delay-doubles :
    (attempts : ℕ) → 1 ≤ attempts → retry_delay (attempts + 1) ≡ min (2 * retry_delay attempts) 300
unfolding retry_delay
retry_delay-doubles zero h = omega (arith, h)
retry_delay-doubles (suc n) h = rw (next_exponent n, exponent n, pow-succ' 2 n) (omega arith)
