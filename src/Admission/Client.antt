-- ===== src/Admission/Client.antt =====
-- `acquireAdmission` of packages/redis/admission.ts, and the pair of permits that a complaint write
-- takes. The callback `release` is the list of keys that RELEASE_SCRIPT is run on.
pub mod Laws
pub mod Charges
use roadwatch.Prelude.{
  ℕ, ◌-◌, List, [], ◌∷◌, map, Option, none, some, Bool, true, false, min, max, ltb, ◌==◌, get_elem?,
  length, if◌then◌else◌,
}
use Prim.Native.String.{String}
use roadwatch.Prelude.Text.{Text, Text-discrete}
use roadwatch.Redis.{Redis}
use roadwatch.Admission.{Permit, Reply, acquire, release}
use roadwatch.Admission.Keys.{Config, rate_key, inflight_key}

pub data Rejection : Type 0 where
  rate inflight : Rejection

pub record Outcome : Type 0 where
  pub admitted : Bool
  pub rejection : Option Rejection
  pub permit : Option String
  pub retry_after_seconds : Option ℕ

pub record Admission : Type 0 where
  pub outcome : Outcome
  pub release : List Text

admitted_outcome : Outcome
admitted_outcome = record {
  admitted = true;
  rejection = none;
  permit = none;
  retry_after_seconds = none;
}

-- How long a refused client is told to wait.
retry_bound : Config → ℕ → ℕ
retry_bound c retry_after = max 1 (
    if ltb 0 retry_after
    then min retry_after (max c.window_seconds c.inflight_ttl_seconds)
    else c.window_seconds)

refused_outcome : Config → Option String → Reply → Outcome
unfolding retry_bound
refused_outcome c label r = record {
  admitted = false;
  rejection = some (if r.reason == 1 then rate else inflight);
  permit = label;
  retry_after_seconds = some (retry_bound c r.retry_after);
}

module _ (to_lower_case : Text → Text) (redis : Redis Text Text-discrete) where
  open redis use {State}

  -- The keys and arguments that one permit adds to the script's.
  unfoldable pub permit_of : ℕ → Config → Permit Text
  permit_of now c = record {
    rate_key = rate_key to_lower_case now c;
    inflight_key = inflight_key to_lower_case c;
    max_rate = c.max_requests_per_window;
    window = c.window_seconds;
    max_inflight = c.max_inflight;
    ttl = c.inflight_ttl_seconds;
  }

  -- `none` is the exception of `configs[refusedAt - 1]!` on a permit that is not there.
  refuse : List String → Reply → State → Option Config → Option (State × Admission)
  unfolding refused_outcome
  refuse labels r s none = none
  refuse labels r s (some c) =
      some (
        s,
        record { outcome = refused_outcome c (get_elem? labels (r.permit - 1)) r; release = [] },
      )

  respond : ℕ → List Config → List String → State → Reply → Option (State × Admission)
  unfolding refuse
  respond now configs labels s r =
      if r.permit == 0
      then some (
        s,
        record { outcome = admitted_outcome; release = map (inflight_key to_lower_case) configs },
      )
      else refuse labels r s (get_elem? configs (r.permit - 1))

  pub acquire_admission : ℕ → List Config → List String → State → Option (State × Admission)
  unfolding respond admitted_outcome
  acquire_admission now [] labels s = some (s, record { outcome = admitted_outcome; release = [] })
  acquire_admission now (c ∷ configs) labels s =
      let (s', r) = acquire redis (map (permit_of now) (c ∷ configs)) s in
      respond now (c ∷ configs) labels s' r
