-- ===== src/Adaptive/Laws.antt =====
-- How the limits of packages/redis/adaptive-backpressure.ts follow the load.
use roadwatch.Prelude.{ℕ, ◌-◌, ◌*◌, ◌≤◌, ◌<◌, ◌≡◌, min, Bool, true, false, refl, arith}
use roadwatch.Adaptive.{
  AdaptiveLimitBounds, AdaptiveLoadSignals, middle, pressure, shrunk, compute_adaptive_limits,
}

-- The pressure grows with the backlog and the failures.
pressure_mono :
    (s t : AdaptiveLoadSignals)
    → s.outbox_depth ≤ t.outbox_depth
    → s.recent_5xx_count ≤ t.recent_5xx_count
    → pressure s ≤ pressure t
unfolding pressure
pressure_mono s t a b = ground arith

pressure_zero :
    (s : AdaptiveLoadSignals) → s.outbox_depth ≤ 100 → s.recent_5xx_count ≤ 5 → pressure s ≡ 0
unfolding pressure
pressure_zero s quiet well = ground arith

pressure_four :
    (s : AdaptiveLoadSignals) → 500 < s.outbox_depth → 20 < s.recent_5xx_count → 4 ≤ pressure s
unfolding pressure
pressure_four s deep failing = ground arith

mul_mono : (k a b : ℕ) → a ≤ b → k * a ≤ k * b
mul_mono k a b h = grind arith

shrunk_zero : (lo hi : ℕ) → lo ≤ hi → shrunk lo hi 0 ≡ hi
unfolding shrunk
shrunk_zero lo hi h = omega arith

shrunk_four : (lo hi p : ℕ) → lo ≤ hi → 4 ≤ p → shrunk lo hi p ≡ lo
unfolding shrunk
shrunk_four lo hi p h q = let e : min 4 p ≡ 4 = omega arith in rw e (omega arith)

shrunk_bounds : (lo hi p : ℕ) → lo ≤ hi → (lo ≤ shrunk lo hi p) × (shrunk lo hi p ≤ hi)
unfolding shrunk
shrunk_bounds lo hi p h = (omega arith, omega arith)

shrunk_anti : (lo hi p q : ℕ) → p ≤ q → shrunk lo hi q ≤ shrunk lo hi p
unfolding shrunk
shrunk_anti lo hi p q h =
    let least : min 4 p ≤ min 4 q = omega arith in
    let more = mul_mono (hi - lo) (min 4 p) (min 4 q) least in omega arith

middle_bounds : (lo hi : ℕ) → lo ≤ hi → (lo ≤ middle lo hi) × (middle lo hi ≤ hi)
unfolding middle
middle_bounds lo hi h = (omega arith, omega arith)

-- Where the lower bounds are at most the upper ones, with redis or without it and whatever the load:
-- the limits lie within the bounds, and the window and the time to live are those asked for.
pub compute_adaptive_limits_bounds :
    (redis : Bool) (b : AdaptiveLimitBounds) (s : AdaptiveLoadSignals)
    → b.min_requests_per_window ≤ b.max_requests_per_window
    → b.min_inflight ≤ b.max_inflight
    → let l = compute_adaptive_limits redis b s in
      (b.min_requests_per_window ≤ l.max_requests_per_window)
      × (l.max_requests_per_window ≤ b.max_requests_per_window)
      × (b.min_inflight ≤ l.max_inflight)
      × (l.max_inflight ≤ b.max_inflight)
      × (l.window_seconds ≡ b.window_seconds)
      × (l.inflight_ttl_seconds ≡ b.inflight_ttl_seconds)
unfolding compute_adaptive_limits
compute_adaptive_limits_bounds false b s hr hi =
    let (r, r') = middle_bounds b.min_requests_per_window b.max_requests_per_window hr in
    let (i, i') = middle_bounds b.min_inflight b.max_inflight hi in (r, r', i, i', refl, refl)
compute_adaptive_limits_bounds true b s hr hi =
    let (r, r') =
      shrunk_bounds b.min_requests_per_window b.max_requests_per_window (pressure s) hr in
    let (i, i') = shrunk_bounds b.min_inflight b.max_inflight (pressure s) hi in
    (r, r', i, i', refl, refl)

-- With redis, a load with a backlog and failures no smaller gives limits no larger, whatever the
-- refusals counted in either; no backlog above 100 and no more than 5 failures give the upper
-- bounds, and a backlog above 500 with more than 20 failures the lower ones, where these are no
-- larger.
pub compute_adaptive_limits_anti :
    (b : AdaptiveLimitBounds) (s t : AdaptiveLoadSignals)
    → b.min_requests_per_window ≤ b.max_requests_per_window
    → b.min_inflight ≤ b.max_inflight
    → let l = compute_adaptive_limits true b s in
      let m = compute_adaptive_limits true b t in
      (s.outbox_depth ≤ t.outbox_depth
        → s.recent_5xx_count ≤ t.recent_5xx_count
        → (m.max_requests_per_window ≤ l.max_requests_per_window)
          × (m.max_inflight ≤ l.max_inflight))
      × (s.outbox_depth ≤ 100
          → s.recent_5xx_count ≤ 5
          → (l.max_requests_per_window ≡ b.max_requests_per_window)
            × (l.max_inflight ≡ b.max_inflight))
      × (500 < t.outbox_depth
          → 20 < t.recent_5xx_count
          → (m.max_requests_per_window ≡ b.min_requests_per_window)
            × (m.max_inflight ≡ b.min_inflight))
unfolding compute_adaptive_limits
compute_adaptive_limits_anti b s t hr hi = (
  λ more fails.
      let p = pressure_mono s t more fails in
      (
        shrunk_anti b.min_requests_per_window b.max_requests_per_window (pressure s) (pressure t) p,
        shrunk_anti b.min_inflight b.max_inflight (pressure s) (pressure t) p,
      ),
  λ quiet well.
      let p = pressure_zero s quiet well in
      (
        rw p (shrunk_zero b.min_requests_per_window b.max_requests_per_window hr),
        rw p (shrunk_zero b.min_inflight b.max_inflight hi),
      ),
  λ deep failing.
      let p = pressure_four t deep failing in
      (
        shrunk_four b.min_requests_per_window b.max_requests_per_window (pressure t) hr p,
        shrunk_four b.min_inflight b.max_inflight (pressure t) hi p,
      ),
)
