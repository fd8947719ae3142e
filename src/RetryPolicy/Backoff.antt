-- ===== src/RetryPolicy/Backoff.antt =====
-- How long internal/pluginrt/builtins/retry_policy.go sleeps.
use api_x.Base.{ℕ, ◌*◌, ◌^◌, ◌<◌, str, ◌≡◌, false, arith, leb, if◌then◌else◌}
use api_x.Base.Int.{ltb_ℤ, ℤ, pos, negsuc, ◌≤ℤ◌}
use api_x.Base.Strings.{equal_fold}
use api_x.RetryPolicy.{RetryRule, base_of, max_of, sleep_duration}

cut_le : (max : ℕ) (d : ℤ) → (if ltb_ℤ (pos max) d then pos max else d) ≤ℤ pos max
cut_le max (pos n) = ground arith
cut_le max (negsuc n) = ground arith

-- No sleep is longer than the maximum, even where the product is no `int64`.
pub sleep_bounded :
    (overflowed : ℕ → ℤ) (rule : RetryRule) (attempt : ℕ)
    → sleep_duration overflowed rule attempt ≤ℤ pos (max_of rule)
unfolding sleep_duration
sleep_bounded overflowed rule attempt = cut_le (max_of rule) _

-- Where the product fits in an `int64`, an exponential backoff is the product, cut at the maximum.
pub exponential_sleep :
    (overflowed : ℕ → ℤ) (rule : RetryRule) (attempt : ℕ)
    → equal_fold rule.backoff (str "fixed") ≡ false
    → base_of rule * 2 ^ attempt < 2 ^ 63
    → sleep_duration overflowed rule attempt
      ≡ pos (
          if leb (base_of rule * 2 ^ attempt) (max_of rule)
          then base_of rule * 2 ^ attempt
          else max_of rule)
unfolding sleep_duration
exponential_sleep overflowed rule attempt not_fixed fits =
    rw (not_fixed, sleep_duration) (ground (arith, fits))
