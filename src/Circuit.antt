-- ===== src/Circuit.antt =====
-- The circuit breaker of the gateway, apps/gateway-api/src/security/circuit-breaker.ts. Times are
-- milliseconds of `Date.now()`, which is never set back behind `opened_at`. A call of `exec` is two steps, since others run while its
-- function is awaited: `admit` before the call and `settle` after it.
pub mod Laws
mod Tests
use roadwatch.Prelude.{
  ℕ, ◌+◌, ◌-◌, ◌/◌, leb, ◌||◌, max, Option, none, some, Bool, true, false, List, [], ◌∷◌,
  if◌then◌else◌,
}

pub data CircuitState : Type 0 where
  closed open_state half_open : CircuitState

pub record CircuitBreakerOptions : Type 0 where
  pub failure_threshold : ℕ
  pub open_ms : ℕ

pub record CircuitBreaker : Type 0 where
  pub failures : ℕ
  pub state : CircuitState
  pub opened_at : ℕ

abbrev pub new_circuit : CircuitBreaker
new_circuit = record { failures = 0; state = closed; opened_at = 0 }

abbrev pub is_half_open : CircuitState → Bool
is_half_open half_open = true
is_half_open closed = false
is_half_open open_state = false

-- What `maybeHalfOpen` makes of the state.
abbrev pub thawed : CircuitState → Bool → CircuitState
thawed open_state elapsed = if elapsed then half_open else open_state
thawed closed elapsed = closed
thawed half_open elapsed = half_open

unfoldable pub maybe_half_open : CircuitBreakerOptions → ℕ → CircuitBreaker → CircuitBreaker
maybe_half_open o now c = record c { state = thawed c.state (leb o.open_ms (now - c.opened_at)) }

unfoldable pub get_state :
    CircuitBreakerOptions → ℕ → CircuitBreaker → CircuitState × CircuitBreaker
get_state o now c = let c' = maybe_half_open o now c in (c'.state, c')

-- `Math.ceil(ms / 1000)`
abbrev pub ceil_seconds : ℕ → ℕ
ceil_seconds ms = (ms + 999) / 1000

abbrev pub retry_after_seconds : CircuitBreakerOptions → ℕ → CircuitBreaker → ℕ
retry_after_seconds o now c = max 1 (ceil_seconds (o.open_ms - (now - c.opened_at)))

abbrev pub refusal : CircuitState → ℕ → Option ℕ
refusal open_state seconds = some seconds
refusal closed seconds = none
refusal half_open seconds = none

-- `exec` up to the call of its function: `some seconds` is the error "circuit open".
unfoldable pub admit : CircuitBreakerOptions → ℕ → CircuitBreaker → Option ℕ × CircuitBreaker
admit o now c =
    let c' = maybe_half_open o now c in (refusal c'.state (retry_after_seconds o now c'), c')

-- `exec` after its function returned, or threw.
unfoldable pub settle : CircuitBreakerOptions → ℕ → Bool → CircuitBreaker → CircuitBreaker
settle o now true c = record c { failures = 0; state = closed }
settle o now false c =
    if leb o.failure_threshold (c.failures + 1) || is_half_open c.state
    then record { failures = c.failures + 1; state = open_state; opened_at = now }
    else record c { failures = c.failures + 1 }
