-- ===== src/Utils/Retry.antt =====
-- utils/retry.go. The library backoff is an interface; the context of the retries is one that is not
-- cancelled, and the operation gives no permanent error.
use ocm_service_common.Common.{ℕ, suc, String, Option, none, some, ◌≡◌, ◌≢◌, ◌≤◌, ◌<◌}
use ocm_service_common.Common.Result.{Run, returns, panics}

-- What a call of an operation gives: the value and the error, as Go returns both.
abbrev pub Call : Type 0 → Type 0
Call T = T × Option String

-- `backoff.RetryNotify` under `backoff.WithMaxRetries`: how many times it calls an operation again, of
-- which each call gives an error or none. It does so only after an error, at most as often as retries
-- are given, and it gives up on an error only when all of them are used.
pub record Backoff : Type 1 where
  pub retries : ℕ → (ℕ → Option String) → ℕ
  pub retries-few :
      (max_retries : ℕ) (errors : ℕ → Option String) → retries max_retries errors ≤ max_retries
  pub retries-failed :
      (max_retries : ℕ) (errors : ℕ → Option String) (m : ℕ)
      → m < retries max_retries errors
      → errors m ≢ none
  pub retries-used :
      (max_retries : ℕ) (errors : ℕ → Option String)
      → errors (retries max_retries errors) ≢ none
      → retries max_retries errors ≡ max_retries

-- The settings; the operation is the sequence of what its calls give.
pub record Retry (T : Type 0) : Type 0 where
  pub max_retries : ℕ
  pub backoff_interval : ℕ
  pub operation : Option (ℕ → Call T)

-- The interval is in nanoseconds.
unfoldable pub new_retry : {T : Type 0} → Retry T
new_retry = record { max_retries = 3; backoff_interval = 10000000; operation = none }

unfoldable pub with_max_retries : {T : Type 0} → ℕ → Retry T → Retry T
with_max_retries max_retries r = record r { max_retries = max_retries }

unfoldable pub with_constant_backoff : {T : Type 0} → ℕ → Retry T → Retry T
with_constant_backoff interval r = record r { backoff_interval = interval }

unfoldable pub run : {T : Type 0} → (ℕ → Call T) → Retry T → Retry T
run operation r = record r { operation = some operation }

-- `Exec`: what its last call gives, whatever the callback for errors does, and the number of calls; a
-- nil operation panics.
unfoldable pub exec : {T : Type 0} → Backoff → Retry T → Run (Call T × ℕ)
exec backoff r = elim r.operation [
  | none ↦ panics
  | some operation ↦
      let n = backoff.retries r.max_retries (λ k. (operation k).1) in returns (operation n, suc n)
]
