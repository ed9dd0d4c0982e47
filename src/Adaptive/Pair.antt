-- ===== src/Adaptive/Pair.antt =====
-- What a write takes: the limits from the load and the permits under them,
-- packages/redis/adaptive-backpressure.ts over packages/redis/admission.ts. The gauge of the outbox
-- is what a GET of it returns; the error's class and its message are left out.
pub mod Laws
use Prim.Native.String.{String}
use roadwatch.Prelude.{
  ℕ, ◌+◌, max, List, [], ◌∷◌, Option, none, some, Bool, true, false, if◌then◌else◌,
}
use roadwatch.Prelude.Int.{ℤ, pos, pos_part}
use roadwatch.Prelude.Text.{Text, Text-discrete, codes}
use roadwatch.Redis.{Redis}
use roadwatch.Admission.{bump}
use roadwatch.Admission.Keys.{Config}
use roadwatch.Admission.Client.{Rejection, inflight, Outcome, Admission, acquire_admission}
use roadwatch.Adaptive.{
  AdaptiveLimitBounds, ResolvedLimits, AdaptiveLoadSignals, Memo, resolve_adaptive_limits,
}

pub record Target : Type 0 where
  pub scope : Text
  pub principal : Text

unfoldable pub permit_config : Target → ResolvedLimits → Config
permit_config target limits = record {
  scope = target.scope;
  principal = target.principal;
  max_requests_per_window = limits.max_requests_per_window;
  window_seconds = limits.window_seconds;
  max_inflight = limits.max_inflight;
  inflight_ttl_seconds = limits.inflight_ttl_seconds;
}

-- The error that a refusal throws, with the status 429.
pub record AdmissionError : Type 0 where
  pub retry_after_seconds : ℕ
  pub rejection : Rejection
  pub permit : Option String

abbrev pub seconds_or : ℕ → Option ℕ → ℕ
seconds_or other none = other
seconds_or other (some n) = n

abbrev pub rejection_or : Rejection → Option Rejection → Rejection
rejection_or other none = other
rejection_or other (some r) = r

-- `admissionRejection(outcome, outcome.rejection ?? 'inflight')`
unfoldable pub admission_rejection : Outcome → AdmissionError
admission_rejection o = record {
  retry_after_seconds = max 1 (seconds_or 5 o.retry_after_seconds);
  rejection = rejection_or inflight o.rejection;
  permit = o.permit;
}

-- `failed` is an exception of acquireAdmission itself.
pub data Taken : Type 0 where
  not_configured failed : Taken
  taken : List Text → Outcome → Taken
  refused : AdmissionError → Taken

abbrev pub signal_429_key : Text
signal_429_key = codes "roadwatch:backpressure:adaptive:429"

abbrev pub signal_5xx_key : Text
signal_5xx_key = codes "roadwatch:backpressure:adaptive:5xx"

-- `{ ...limits, maxInflight: input.routeMaxInflight }`
abbrev pub route_limits : Option ℕ → ResolvedLimits → ResolvedLimits
route_limits none limits = limits
route_limits (some ceiling) limits = record limits { max_inflight = ceiling }

module _ (to_lower_case : Text → Text) (redis : Redis Text Text-discrete) where
  open redis use {State, count}

  unfoldable pub record_admission_rejection : State → State
  record_admission_rejection s = (bump redis signal_429_key 60 s).0

  unfoldable pub record_upstream_failure : State → State
  record_upstream_failure s = (bump redis signal_5xx_key 60 s).0

  -- The counters only rise from 0; below it they would count as no load.
  unfoldable pub read_load_signals : ℕ → State → AdaptiveLoadSignals
  read_load_signals gauge s = record {
    outbox_depth = gauge;
    recent_429_count = pos_part (count s signal_429_key);
    recent_5xx_count = pos_part (count s signal_5xx_key);
  }

  -- What is done with the answer of acquireAdmission.
  abbrev pub conclude : State → Option (State × Admission) → State × Taken
  conclude s none = (s, failed)
  conclude s (some (s', a)) =
      if a.outcome.admitted
      then (s', taken a.release a.outcome)
      else (record_admission_rejection s', refused (admission_rejection a.outcome))

  -- The first configuration is that of the route.
  abbrev pub pair_of : Target → Target → Option ℕ → ResolvedLimits → List Config
  pair_of route global ceiling limits =
      permit_config route (route_limits ceiling limits) ∷ permit_config global limits ∷ []

  -- `acquirePermitPair` at a time, with what the replica remembers of the limits.
  unfoldable pub acquire_permit_pair :
      Bool
      → Target
      → Target
      → AdaptiveLimitBounds
      → Option ℕ
      → ℕ
      → ℕ
      → State × Option Memo
      → (State × Option Memo) × Taken
  acquire_permit_pair configured route global bounds ceiling now gauge (s, memo) =
      if configured
      then (let (limits, memo') =
            resolve_adaptive_limits true bounds now (read_load_signals gauge s) memo in
          let (s', answer) = conclude s (
            acquire_admission to_lower_case redis now (pair_of route global ceiling limits)
              ("route" ∷ "global" ∷ []) s) in
          ((s', memo'), answer))
      else ((s, memo), not_configured)

  -- `acquireAdaptiveBackpressurePermit`, with redis configured.
  unfoldable pub acquire_adaptive_backpressure_permit :
      Target → AdaptiveLimitBounds → ℕ → ℕ → State × Option Memo → (State × Option Memo) × Taken
  acquire_adaptive_backpressure_permit target bounds now gauge (s, memo) =
      let (limits, memo') =
        resolve_adaptive_limits true bounds now (read_load_signals gauge s) memo in
      let (s', answer) =
        conclude s
          (acquire_admission to_lower_case redis now (permit_config target limits ∷ []) [] s) in
      ((s', memo'), answer)
