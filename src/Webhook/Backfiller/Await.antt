-- ===== src/Webhook/Backfiller/Await.antt =====
-- `AwaitWebhookService` and `AwaitCollectorService` of app/domain/webhook/backfiller/backfiller.go.
-- What the services answer to an attempt is a parameter, as is the jitter; times are milliseconds.
use cloudzero_agent.Base.{
  ℕ, zero, suc, ◌+◌, ◌*◌, Bool, true, false, Option, none, some, ltb, leb, ◌&&◌, if◌then◌else◌,
}
use Prim.Native.Nat.{◌^◌}

abbrev pub max_connection_attempts : ℕ
max_connection_attempts = 10

-- Whether a service answered, and how long the agent slept for it.
pub record Awaited : Type 0 where
  pub available : Bool
  pub slept : ℕ

abbrev pub backoff : ℕ → ℕ
backoff attempt = 2 ^ attempt * 1000

abbrev pub after_sleep : ℕ → Awaited → Awaited
after_sleep time rest = record rest { slept = time + rest.slept }

-- The loop `for attempt := range maxRetries`, with the attempts that are left.
unfoldable pub await_from : (ℕ → Bool) → (ℕ → ℕ) → ℕ → ℕ → Awaited
await_from answers jitter zero attempt = record { available = false; slept = 0 }
await_from answers jitter (suc left) attempt =
    let rest = await_from answers jitter left (attempt + 1) in
    if answers attempt
    then record { available = true; slept = 0 }
    else after_sleep (backoff attempt + jitter attempt) rest

unfoldable pub await_webhook_service : (ℕ → Bool) → (ℕ → ℕ) → ℕ → Awaited
unfolding await_from
await_webhook_service validates jitter max_retries = await_from validates jitter max_retries 0

-- A response without an error, with a status from 200 to 299.
abbrev pub is_success : Option ℕ → Bool
is_success none = false
is_success (some status) = leb 200 status && ltb status 300

-- What the collector needs besides: the message can be encoded, and the URL makes a request.
unfoldable pub await_collector_service : Bool → Bool → (ℕ → Option ℕ) → (ℕ → ℕ) → ℕ → Awaited
unfolding await_from
await_collector_service can_marshal can_request responds jitter max_retries =
    if can_marshal && can_request
    then await_from (λ attempt. is_success (responds attempt)) jitter max_retries 0
    else record { available = false; slept = 0 }
