-- ===== src/Adaptive/Tests.antt =====
-- Limits of a quiet, a loaded and an overloaded service.
use roadwatch.Prelude.{
  ℕ, ◌≡◌, ◌≢◌, ◌⊎◌, refl, sym, subst, ◌∙◌, none, true, false, List, [], ◌∷◌, arith,
}
use roadwatch.Adaptive.{
  AdaptiveLimitBounds, AdaptiveLoadSignals, compute_adaptive_limits, resolve_adaptive_limits,
  shrunk, pressure, middle, limits_with,
}
use roadwatch.Prelude.{Option, some}
use roadwatch.Prelude.Text.{Text, Text-discrete, codes}
use roadwatch.Redis.{Redis}
use roadwatch.Redis.Store.{store, empty}
use roadwatch.Adaptive.{Memo, ResolvedLimits}
use roadwatch.Escalation.{text_eq}
use roadwatch.Escalation.Equality.{text_eq_refl}
use roadwatch.Admission.{Permit}
use roadwatch.Admission.Atomic.{Lives}
use roadwatch.Admission.Decision.{Distinct}
use roadwatch.Admission.Keys.{rate_key, inflight_key}
use roadwatch.Admission.Client.{permit_of}
use roadwatch.Adaptive.Pair.{Target, pair_of, read_load_signals, acquire_permit_pair, permit_config}
use roadwatch.Adaptive.Pair.Laws.{
  IsTaken, IsRefused, has_room, permits_of, acquire_permit_pair-either,
}
use roadwatch.Adaptive.Cache.{Request, memo_after}

abbrev bounds : AdaptiveLimitBounds
bounds = record {
  min_requests_per_window = 15000;
  max_requests_per_window = 60000;
  min_inflight = 100;
  max_inflight = 400;
  window_seconds = 60;
  inflight_ttl_seconds = 30;
  limits_cache_ms = none;
}

abbrev load : ℕ → ℕ → AdaptiveLoadSignals
load depth failures = record {
  outbox_depth = depth;
  recent_429_count = 7;
  recent_5xx_count = failures;
}

half_way : compute_adaptive_limits true bounds (load 101 6) ≡ limits_with bounds 37500 250
unfolding compute_adaptive_limits shrunk pressure
half_way = refl

no_redis : compute_adaptive_limits false bounds (load 0 0) ≡ limits_with bounds 37500 250
unfolding compute_adaptive_limits middle
no_redis = refl

abbrev first : Request
first = record { now = 1000; signals = load 0 0 }

abbrev second : Request
second = record { now = 2500; signals = load 600 30 }

-- The second request still gets the limits of the first.
remembered :
    (resolve_adaptive_limits true bounds 2500 (load 600 30) (memo_after true bounds (first ∷ []))).0
    ≡ limits_with bounds 60000 400
unfolding resolve_adaptive_limits compute_adaptive_limits shrunk pressure
remembered = refl

abbrev counters : Redis Text Text-discrete
counters = store Text-discrete

abbrev route : Target
route = record { scope = codes "write"; principal = codes "u1" }

abbrev global : Target
global = record { scope = codes "write"; principal = codes "all" }

differ : (a b : Text) → text_eq a b ≡ false → a ≢ b
differ a b h e = true_ne_false (sym (text_eq_refl a) ∙ subst (λ x. text_eq a x ≡ false) (sym e) h)
  where
    true_ne_false : true ≡ false → ⊥
    true_ne_false c = cc

abbrev route_rate : Text
route_rate = codes "roadwatch:backpressure:write:rate:u1:0"

abbrev route_inflight : Text
route_inflight = codes "roadwatch:backpressure:write:inflight:u1"

abbrev global_rate : Text
global_rate = codes "roadwatch:backpressure:write:rate:all:0"

abbrev global_inflight : Text
global_inflight = codes "roadwatch:backpressure:write:inflight:all"

abbrev the_limits : ResolvedLimits
the_limits =
    (resolve_adaptive_limits true bounds 1000
      (read_load_signals (λ t. t) counters 0 (empty Text-discrete)) none).0

abbrev both : List (Permit Text)
both =
    permits_of (λ t. t) counters 1000 (pair_of (λ t. t) counters route global (some 0) the_limits)

both-Distinct : Distinct both
unfolding permit_of rate_key inflight_key permit_config resolve_adaptive_limits
    compute_adaptive_limits shrunk pressure read_load_signals
both-Distinct = (
  differ route_rate route_inflight refl,
  ((differ route_rate global_rate refl, differ route_rate global_inflight refl), tt),
  ((differ route_inflight global_rate refl, differ route_inflight global_inflight refl), tt),
  (differ global_rate global_inflight refl, tt, tt, tt),
)

both-Lives : Lives both
unfolding permit_of permit_config resolve_adaptive_limits compute_adaptive_limits shrunk pressure
    read_load_signals
both-Lives = omega arith

acquire_permit_pair-either_example :
    let start : counters.State × Option Memo = (empty Text-discrete, none) in
    let ((s', memo'), answer) =
      acquire_permit_pair (λ t. t) counters true route global bounds (some 0) 1000 0 start in
    let (limits, kept) =
      resolve_adaptive_limits true bounds 1000
        (read_load_signals (λ t. t) counters 0 (empty Text-discrete))
        none in
    (IsTaken
        (λ t. t)
        counters
        1000
        (pair_of (λ t. t) counters route global (some 0) limits)
        (has_room (λ t. t) counters 1000 route global (some 0) limits (empty Text-discrete))
        (empty Text-discrete)
        s'
        answer
      ⊎ IsRefused
          (λ t. t)
          counters
          (has_room (λ t. t) counters 1000 route global (some 0) limits (empty Text-discrete))
          (empty Text-discrete)
          s'
          answer)
    × (memo' ≡ kept)
acquire_permit_pair-either_example =
    acquire_permit_pair-either (λ t. t) counters route global bounds (some 0) 1000 0
      (empty Text-discrete) none both-Distinct both-Lives
