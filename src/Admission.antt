-- ===== src/Admission.antt =====
-- The two Lua scripts of packages/redis/admission.ts. Redis is a parameter; a script runs to its
-- end before any other client is served, so it is one function on the state.
pub mod Atomic
pub mod Decision
pub mod Holders
pub mod Keys
pub mod Client
mod Tests
use roadwatch.Prelude.{ℕ, ◌+◌, List, [], ◌∷◌, ◌++◌, Bool, if◌then◌else◌}
use roadwatch.Prelude.Int.{ℤ, pos, ltb_ℤ, eq_ℤ}
use roadwatch.Redis.{Redis}

-- KEYS and ARGV of one permit.
pub record Permit (K : Type 0) : Type 0 where
  pub rate_key : K
  pub inflight_key : K
  pub max_rate : ℕ
  pub window : ℕ
  pub max_inflight : ℕ
  pub ttl : ℕ

-- `{ permit, reason, retryAfter }`: the 1-based permit that refused, or 0; 1 for a rate limit and 2
-- for too much in flight.
pub record Reply : Type 0 where
  pub permit : ℕ
  pub reason : ℕ
  pub retry_after : ℕ

abbrev pub reply : ℕ → ℕ → ℕ → Reply
reply permit reason retry_after = record {
  permit = permit;
  reason = reason;
  retry_after = retry_after;
}

module _ {K : Type 0} {same : Discrete K} (redis : Redis K same) where
  open redis use {State, count, incr, decr, expire}

  -- The rest of ACQUIRE_SCRIPT, with `giveBack` from the top of it.
  unfoldable pub give_back : List (K × K) → State → State
  give_back [] s = s
  give_back ((rate_key, inflight_key) ∷ taken) s =
      give_back taken (decr inflight_key (decr rate_key s))

  -- INCR, and EXPIRE by the request that created the key.
  unfoldable pub bump : K → ℕ → State → State × ℤ
  bump k seconds s =
      let (s', n) = incr k s in (if eq_ℤ n (pos 1) then expire k seconds s' else s', n)

  -- The loop over the permits; `taken` holds the keys of those before `p`, first the first.
  unfoldable pub acquire_from : ℕ → List (K × K) → List (Permit K) → State → State × Reply
  acquire_from p taken [] s = (s, reply 0 0 0)
  acquire_from p taken (m ∷ permits) s =
      let (s', rate) = bump m.rate_key m.window s in
      let (s'', inflight) = bump m.inflight_key m.ttl s' in
      let rest = acquire_from (p + 1) (taken ++ (m.rate_key, m.inflight_key) ∷ []) permits s'' in
      if ltb_ℤ (pos m.max_rate) rate
      then (give_back taken (decr m.rate_key s'), reply p 1 m.window)
      else if ltb_ℤ (pos m.max_inflight) inflight
      then (give_back taken (decr m.rate_key (decr m.inflight_key s'')), reply p 2 m.ttl)
      else rest

  -- ACQUIRE_SCRIPT
  unfoldable pub acquire : List (Permit K) → State → State × Reply
  acquire permits s = acquire_from 1 [] permits s

  -- RELEASE_SCRIPT
  unfoldable pub release : List K → State → State
  release [] s = s
  release (inflight_key ∷ keys) s = release keys (decr inflight_key s)
