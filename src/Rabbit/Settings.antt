-- ===== src/Rabbit/Settings.antt =====
-- The settings in milliseconds that src/infrastructure/rabbitmq/settle-failed-message.ts and
-- src/infrastructure/rabbitmq/rabbitmq.connection.ts read from the environment. A JavaScript number
-- and the conversion of a text to one are parameters.
use processing_catalog.Text.{trim}
use processing_catalog.Prelude.{
  Option, ℕ, String, some, ◌≡◌, Bool, if◌then◌else◌, true, arith, ◌<◌, ◌&&◌, ◌==◌, none,
}

-- What the code uses of JavaScript's numbers: Number(text), Number.isFinite, the comparisons with
-- 0, and a literal, which is a finite number that is not negative, and positive but for 0.
pub record JsNumbers (N : Type 0) : Type 0 where
  pub number : String → N
  pub is_finite : N → Bool
  pub is_at_least_0 : N → Bool
  pub is_above_0 : N → Bool
  pub literal : ℕ → N
  pub literal_finite : (n : ℕ) → is_finite (literal n) ≡ true
  pub literal_at_least_0 : (n : ℕ) → is_at_least_0 (literal n) ≡ true
  pub literal_above_0 : (n : ℕ) → 0 < n → is_above_0 (literal n) ≡ true

abbrev pub default_retry_backoff_ms : ℕ
default_retry_backoff_ms = 1000

abbrev pub default_outbox_publish_timeout_ms : ℕ
default_outbox_publish_timeout_ms = 5000

module _ {N : Type 0} (numbers : JsNumbers N) where
  -- raw.trim() === ''
  is_empty : String → Bool
  is_empty raw = trim raw == ""

  unfoldable pub parse_non_negative_ms : Option String → N → N
  unfolding is_empty
  parse_non_negative_ms none fallback = fallback
  parse_non_negative_ms (some raw) fallback =
      if is_empty raw
      then fallback
      else (let configured = numbers.number raw in
          if numbers.is_finite configured && numbers.is_at_least_0 configured
          then configured
          else fallback)

  unfoldable pub parse_positive_ms : Option String → N → N
  unfolding is_empty
  parse_positive_ms none fallback = fallback
  parse_positive_ms (some raw) fallback =
      if is_empty raw
      then fallback
      else (let configured = numbers.number raw in
          if numbers.is_finite configured && numbers.is_above_0 configured
          then configured
          else fallback)

  -- `env` is process.env
  unfoldable pub retry_backoff_ms : (String → Option String) → N
  unfolding parse_non_negative_ms
  retry_backoff_ms env =
      parse_non_negative_ms (env "RABBITMQ_RETRY_BACKOFF_MS")
        (numbers.literal default_retry_backoff_ms)

  unfoldable pub outbox_publish_timeout_ms : (String → Option String) → N
  unfolding parse_positive_ms
  outbox_publish_timeout_ms env =
      parse_positive_ms (env "OUTBOX_PUBLISH_TIMEOUT_MS")
        (numbers.literal default_outbox_publish_timeout_ms)

  -- What both readers answer, from the fallback and the test that each makes.
  non_negative-bounds :
      (raw : Option String) (fallback : N)
      → numbers.is_finite fallback ≡ true
      → numbers.is_at_least_0 fallback ≡ true
      → (numbers.is_finite (parse_non_negative_ms raw fallback) ≡ true)
        × (numbers.is_at_least_0 (parse_non_negative_ms raw fallback) ≡ true)
  unfolding parse_non_negative_ms
  non_negative-bounds none fallback finite bound = (finite, bound)
  non_negative-bounds (some raw) fallback finite bound = ground (arith, finite, bound)

  positive-bounds :
      (raw : Option String) (fallback : N)
      → numbers.is_finite fallback ≡ true
      → numbers.is_above_0 fallback ≡ true
      → (numbers.is_finite (parse_positive_ms raw fallback) ≡ true)
        × (numbers.is_above_0 (parse_positive_ms raw fallback) ≡ true)
  unfolding parse_positive_ms
  positive-bounds none fallback finite bound = (finite, bound)
  positive-bounds (some raw) fallback finite bound = ground (arith, finite, bound)

  -- Whatever the environment holds, the pause before a requeue is a finite number of milliseconds that
  -- is not negative, and the timeout of a publish is one above 0, so never the 0 that would turn it
  -- off.
  pub settings-bounds :
      (env : String → Option String)
      → (numbers.is_finite (retry_backoff_ms env) ≡ true)
        × (numbers.is_at_least_0 (retry_backoff_ms env) ≡ true)
        × (numbers.is_finite (outbox_publish_timeout_ms env) ≡ true)
        × (numbers.is_above_0 (outbox_publish_timeout_ms env) ≡ true)
  unfolding retry_backoff_ms outbox_publish_timeout_ms
  settings-bounds env =
      let (finite, bound) =
        non_negative-bounds (env "RABBITMQ_RETRY_BACKOFF_MS")
          (numbers.literal default_retry_backoff_ms)
          (numbers.literal_finite default_retry_backoff_ms)
          (numbers.literal_at_least_0 default_retry_backoff_ms) in
      let rest =
        positive-bounds (env "OUTBOX_PUBLISH_TIMEOUT_MS")
          (numbers.literal default_outbox_publish_timeout_ms)
          (numbers.literal_finite default_outbox_publish_timeout_ms)
          (numbers.literal_above_0 default_outbox_publish_timeout_ms (omega arith)) in
      (finite, bound, rest.0, rest.1)
