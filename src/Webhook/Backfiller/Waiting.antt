-- ===== src/Webhook/Backfiller/Waiting.antt =====
-- How long the waiting for the services takes, and when it succeeds.
use cloudzero_agent.Base.{ℕ, zero, suc, ◌+◌, ◌*◌, ◌≤◌, ◌<◌, Bool, Bool-cases, inl, inr, ◌≡◌, arith}
use Prim.Native.Nat.{◌^◌}
use cloudzero_agent.Webhook.Backfiller.Await.{
  max_connection_attempts, await_from, await_webhook_service,
}

pow_suc : (a : ℕ) → 2 ^ (a + 1) ≡ 2 * 2 ^ a
pow_suc a = let e : a + 1 ≡ suc a = omega arith in rw e (omega arith)

pow_mono : (a left k : ℕ) → a + left ≡ k → 2 ^ a ≤ 2 ^ k
pow_mono a zero k e = let e' : a ≡ k = omega arith in rw e' (omega arith)
pow_mono a (suc left) k e = omega (arith, pow_mono (a + 1) left k (omega arith), pow_suc a)

await_from-slept :
    (answers : ℕ → Bool) (jitter : ℕ → ℕ) (left attempt k : ℕ)
    → ((i : ℕ) → jitter i < 1000)
    → attempt + left ≡ k
    → (await_from answers jitter left attempt).slept + 2 ^ attempt * 1000
      ≤ 2 ^ k * 1000 + 999 * left
unfolding await_from
await_from-slept answers jitter zero attempt k h s = omega (arith, pow_mono attempt zero k s)
await_from-slept answers jitter (suc left) attempt k h s = elim (Bool-cases (answers attempt)) [
  | inl e ↦ rw e (omega (arith, pow_mono attempt (suc left) k s))
  | inr e ↦ rw e (
      omega (
        arith,
        await_from-slept answers jitter left (attempt + 1) k h (omega arith),
        pow_suc attempt,
        h attempt,
      ))
]

-- With a jitter below a second, ten attempts for the webhook take less than 1033 seconds of sleep,
-- whatever it answers.
pub await_webhook_service-slept :
    (validates : ℕ → Bool) (jitter : ℕ → ℕ)
    → ((i : ℕ) → jitter i < 1000)
    → (await_webhook_service validates jitter max_connection_attempts).slept < 1033 * 1000
unfolding await_webhook_service
await_webhook_service-slept validates jitter h =
    omega (arith, await_from-slept validates jitter 10 0 10 h (omega arith))
