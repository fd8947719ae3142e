-- ===== src/RetryPolicy/Attempts.antt =====
-- How often internal/pluginrt/builtins/retry_policy.go retries, and with what result.
use api_x.Base.{ℕ, ◌+◌, ◌≤◌, ◌<◌, ◌≡◌, true, ◌⊎◌}
use api_x.Plugin.{ProxyResponse}
use api_x.RetryPolicy.{RetryRule, Attempt, cancelled, network_error, matches_status}

module _ (rule : RetryRule) (world : ℕ → Attempt) where
  -- What a run of the loop is worth, from an attempt on and with some attempts left: no more requests
  -- than attempts, and a last status that is still to be retried only after every attempt, or when
  -- the context ended or the network failed.
  abbrev pub Tries : ℕ → ℕ → ProxyResponse × ℕ → Type 0
  Tries left attempt (last, sent) =
      (sent ≤ left)
      × (matches_status rule last.status_code ≡ true
          → (sent ≡ left)
            ⊎ ((n : ℕ) × (attempt ≤ n)
                × (n < attempt + left)
                × ((world n ≡ cancelled) ⊎ (world n ≡ network_error))))
