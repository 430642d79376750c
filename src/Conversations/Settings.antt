-- ===== src/Conversations/Settings.antt =====
-- modelship/openai/state/responses.py: the lifetimes read from the environment. `Setting` is what
-- `float` makes of the variable; a number that is not above 0 stands as 0.
use Prim.Native.Nat.{max}
use modelship.Prelude.{ℕ, zero, suc, ◌≤◌, ◌≡◌, Option, none, some, arith}

pub data Setting : Type 0 where
  unset : Setting
  not_a_number : Setting
  number : ℕ → Setting

abbrev pub default_ttl : ℕ
default_ttl = 2592000

abbrev pub default_stale : ℕ
default_stale = 30

abbrev pub default_stream_ttl : ℕ
default_stream_ttl = 600

-- `max(ttl, 24 * 60 * 60.0) if ttl > 0 else None`
unfoldable pub ttl_seconds : Setting → Option ℕ
ttl_seconds unset = some default_ttl
ttl_seconds not_a_number = some default_ttl
ttl_seconds (number zero) = none
ttl_seconds (number (suc n)) = some (max (suc n) 86400)

-- `threshold if threshold > 0 else _DEFAULT_STALE_S`
unfoldable pub stale_seconds : Setting → ℕ
stale_seconds unset = default_stale
stale_seconds not_a_number = default_stale
stale_seconds (number zero) = default_stale
stale_seconds (number (suc n)) = suc n

unfoldable pub stream_buffer_ttl_seconds : Setting → ℕ
stream_buffer_ttl_seconds unset = default_stream_ttl
stream_buffer_ttl_seconds not_a_number = default_stream_ttl
stream_buffer_ttl_seconds (number zero) = default_stream_ttl
stream_buffer_ttl_seconds (number (suc n)) = suc n

-- A conversation that expires lives at least a day, whatever is configured.
pub ttl_seconds_day : (s : Setting) (t : ℕ) → ttl_seconds s ≡ some t → 86400 ≤ t
unfolding ttl_seconds
ttl_seconds_day unset t h = ground arith
ttl_seconds_day not_a_number t h = ground arith
ttl_seconds_day (number zero) t h = ground arith
ttl_seconds_day (number (suc n)) t h = ground arith
