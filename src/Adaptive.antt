-- ===== src/Adaptive.antt =====
-- The limits that admission control takes from the load, packages/redis/adaptive-backpressure.ts.
-- Bounds are natural numbers. Halves and quarters of them are exact in floating point, so the
-- products with `pressure / 4` are written out in quarters, and Math.round rounds a half up.
pub mod Laws
pub mod Cache
pub mod Pair
mod Tests
use roadwatch.Prelude.{
  ℕ, ◌+◌, ◌-◌, ◌*◌, ◌/◌, ltb, min, max, Option, none, some, Bool, true, false, if◌then◌else◌,
}

pub record AdaptiveLimitBounds : Type 0 where
  pub min_requests_per_window : ℕ
  pub max_requests_per_window : ℕ
  pub min_inflight : ℕ
  pub max_inflight : ℕ
  pub window_seconds : ℕ
  pub inflight_ttl_seconds : ℕ
  pub limits_cache_ms : Option ℕ

abbrev pub default_limits_cache_ms : ℕ
default_limits_cache_ms = 2000

pub record ResolvedLimits : Type 0 where
  pub max_requests_per_window : ℕ
  pub max_inflight : ℕ
  pub window_seconds : ℕ
  pub inflight_ttl_seconds : ℕ

pub record AdaptiveLoadSignals : Type 0 where
  pub outbox_depth : ℕ
  pub recent_429_count : ℕ
  pub recent_5xx_count : ℕ

abbrev pub clamp : ℕ → ℕ → ℕ → ℕ
clamp value lo hi = max lo (min hi value)

-- `Math.round((a + b) / 2)`
unfoldable pub middle : ℕ → ℕ → ℕ
middle a b = (a + b + 1) / 2

unfoldable pub pressure : AdaptiveLoadSignals → ℕ
pressure s =
    (if ltb 500 s.outbox_depth then 2 else if ltb 100 s.outbox_depth then 1 else 0)
    + (if ltb 20 s.recent_5xx_count then 2 else if ltb 5 s.recent_5xx_count then 1 else 0)

-- `Math.round(clamp(hi - (hi - lo) * shrink, lo, hi))` for `shrink = Math.min(1, pressure / 4)`.
unfoldable pub shrunk : ℕ → ℕ → ℕ → ℕ
shrunk lo hi pressure = (clamp (4 * hi - (hi - lo) * min 4 pressure) (4 * lo) (4 * hi) + 2) / 4

abbrev pub limits_with : AdaptiveLimitBounds → ℕ → ℕ → ResolvedLimits
limits_with b requests inflight = record {
  max_requests_per_window = requests;
  max_inflight = inflight;
  window_seconds = b.window_seconds;
  inflight_ttl_seconds = b.inflight_ttl_seconds;
}

-- The gauge of the limits in redis, which nothing reads back, is left out.
unfoldable pub compute_adaptive_limits :
    Bool → AdaptiveLimitBounds → AdaptiveLoadSignals → ResolvedLimits
compute_adaptive_limits redis_configured b s =
    if redis_configured
    then limits_with b (shrunk b.min_requests_per_window b.max_requests_per_window (pressure s))
        (shrunk b.min_inflight b.max_inflight (pressure s))
    else limits_with b (middle b.min_requests_per_window b.max_requests_per_window)
        (middle b.min_inflight b.max_inflight)

-- What one replica remembers for one set of bounds.
pub record Memo : Type 0 where
  pub at : ℕ
  pub limits : ResolvedLimits

abbrev pub cache_ms : AdaptiveLimitBounds → Option ℕ → ℕ
cache_ms b none = default_limits_cache_ms
cache_ms b (some ms) = ms

abbrev pub fresh_memo : ℕ → ResolvedLimits → ResolvedLimits × Option Memo
fresh_memo now limits = (limits, some (record { at = now; limits = limits }))

abbrev pub recall : Option Memo → ℕ → ℕ → ResolvedLimits → ResolvedLimits × Option Memo
recall none ms now computed = fresh_memo now computed
recall (some memo) ms now computed =
    if ltb (now - memo.at) ms then (memo.limits, some memo) else fresh_memo now computed

-- The limits, and what is remembered afterwards; `s` are the signals if they are read now.
unfoldable pub resolve_adaptive_limits :
    Bool
    → AdaptiveLimitBounds
    → ℕ
    → AdaptiveLoadSignals
    → Option Memo
    → ResolvedLimits × Option Memo
resolve_adaptive_limits redis_configured b now s memo =
    recall memo (cache_ms b b.limits_cache_ms) now (compute_adaptive_limits redis_configured b s)
