-- ===== src/Admission/Atomic.antt =====
-- ACQUIRE_SCRIPT takes all permits or none.
use roadwatch.Prelude.{
  ℕ, ◌+◌, ◌<◌, ◌≡◌, ◌∙◌, inl, inr, List, [], ◌∷◌, ◌++◌, map, true, false, ◌==◌, if◌then◌else◌, ite,
  if_pos, if_neg, arith, Bool-cases, All,
}
use roadwatch.Prelude.Int.{pos, ltb_ℤ, eq_ℤ, ◌+ℤ◌, ◌-ℤ◌, int_laws}
use roadwatch.Redis.{Redis}
use roadwatch.Admission.{Permit, give_back, bump, acquire_from, acquire, release}

-- Every key that the permits create is given at least a second.
abbrev pub Lives : {K : Type 0} → List (Permit K) → Type 0
Lives permits = All (λ m. (0 < m.window) × (0 < m.ttl)) permits

module _ {K : Type 0} (same : Discrete K) where
  -- How often a key is one of two, of those taken, and of those that the permits charge.
  abbrev pub hit : K → K → ℕ
  hit k j = ite (same k j) 1 0

  abbrev pub held : List (K × K) → K → ℕ
  held [] j = 0
  held ((a, b) ∷ taken) j = hit a j + hit b j + held taken j

  abbrev pub charged : List (Permit K) → K → ℕ
  charged [] j = 0
  charged (m ∷ permits) j = hit m.rate_key j + hit m.inflight_key j + charged permits j

  abbrev pub occurs : List K → K → ℕ
  occurs [] j = 0
  occurs (k ∷ keys) j = hit k j + occurs keys j

  held-append :
      (taken more : List (K × K)) (j : K) → held (taken ++ more) j ≡ held taken j + held more j
  held-append [] more j = omega arith
  held-append (k ∷ taken) more j = omega (arith, held-append taken more j)

module _ {K : Type 0} {same : Discrete K} (redis : Redis K same) where
  open redis use {
    State, count, incr, decr, expire, incr_reply, count-incr, count-decr, count-expire,
  }

  pub count-decr_hit :
      (k : K) (s : State) (j : K) → count (decr k s) j ≡ count s j -ℤ pos (hit same k j)
  count-decr_hit k s j = elim (same k j) [
    | yes e ↦ rw (count-decr k s j, if_pos _ e, if_pos _ e)
    | no n ↦ rw (count-decr k s j, if_neg _ n, if_neg _ n) (omega int_laws)
  ]

  count-incr_hit :
      (k : K) (s : State) (j : K) → count (incr k s).0 j ≡ count s j +ℤ pos (hit same k j)
  count-incr_hit k s j = elim (same k j) [
    | yes e ↦ rw (count-incr k s j, if_pos _ e, if_pos _ e)
    | no n ↦ rw (count-incr k s j, if_neg _ n, if_neg _ n) (omega int_laws)
  ]

  pub count-bump :
      (k : K) (seconds : ℕ) (s : State) (j : K)
      → 0 < seconds
      → count (bump redis k seconds s).0 j ≡ count s j +ℤ pos (hit same k j)
  unfolding bump
  count-bump k seconds s j long = elim (Bool-cases (eq_ℤ (incr k s).1 (pos 1))) [
    | inl first ↦ rw first (count-expire k seconds (incr k s).0 j long ∙ count-incr_hit k s j)
    | inr later ↦ rw later (count-incr_hit k s j)
  ]

  pub bump_reply :
      (k : K) (seconds : ℕ) (s : State) → (bump redis k seconds s).1 ≡ count s k +ℤ pos 1
  unfolding bump
  bump_reply k seconds s = incr_reply k s

  count-give_back :
      (taken : List (K × K)) (s : State) (j : K)
      → count (give_back redis taken s) j ≡ count s j -ℤ pos (held same taken j)
  unfolding give_back
  count-give_back [] s j = omega int_laws
  count-give_back ((a, b) ∷ taken) s j =
      rw
        (
          count-give_back taken (decr b (decr a s)) j,
          count-decr_hit b (decr a s) j,
          count-decr_hit a s j,
        )
        (omega int_laws)

  not_zero : (p : ℕ) → 0 < p → (p == 0) ≡ false
  not_zero p h = ground arith

  count-acquire_from :
      (p : ℕ) (taken : List (K × K)) (permits : List (Permit K)) (s : State) (j : K)
      → 0 < p
      → Lives permits
      → let (s', r) = acquire_from redis p taken permits s in
        count s' j ≡ (
          if r.permit == 0
          then count s j +ℤ pos (charged same permits j)
          else count s j -ℤ pos (held same taken j))
  unfolding acquire_from
  count-acquire_from p taken [] s j h long = omega int_laws
  count-acquire_from p taken (m ∷ permits) s j h ((window, ttl), long) =
      let (s', rate) = bump redis m.rate_key m.window s in
      let (s'', inflight) = bump redis m.inflight_key m.ttl s' in
      let took : List (K × K) = (m.rate_key, m.inflight_key) ∷ [] in
      let more = taken ++ took in
      elim (Bool-cases (ltb_ℤ (pos m.max_rate) rate)) [
        | inl full ↦
            rw (full, not_zero p h)
              (rw
                (
                  count-give_back taken (decr m.rate_key s') j,
                  count-decr_hit m.rate_key s' j,
                  count-bump m.rate_key m.window s j window,
                )
                (omega int_laws))
        | inr room ↦ elim (Bool-cases (ltb_ℤ (pos m.max_inflight) inflight)) [
          | inl full ↦
              rw (room, full, not_zero p h)
                (rw
                  (
                    count-give_back taken (decr m.rate_key (decr m.inflight_key s'')) j,
                    count-decr_hit m.rate_key (decr m.inflight_key s'') j,
                    count-decr_hit m.inflight_key s'' j,
                    count-bump m.inflight_key m.ttl s' j ttl,
                    count-bump m.rate_key m.window s j window,
                  )
                  (omega int_laws))
          | inr room' ↦
              rw (room, room')
                (elim (Bool-cases ((acquire_from redis (p + 1) more permits s'').1.permit == 0)) [
                  | inl done ↦ rw done (
                      rw done at (count-acquire_from (p + 1) more permits s'' j (omega arith) long)
                      ∙ rw
                          (
                            count-bump m.inflight_key m.ttl s' j ttl,
                            count-bump m.rate_key m.window s j window,
                          )
                          (omega int_laws))
                  | inr refused ↦ rw refused (
                      rw refused at
                        (count-acquire_from (p + 1) more permits s'' j (omega arith) long)
                      ∙ rw
                          (
                            held-append same taken took j,
                            count-bump m.inflight_key m.ttl s' j ttl,
                            count-bump m.rate_key m.window s j window,
                          )
                          (omega int_laws))
                ])
        ]
      ]

  -- For windows and lifetimes of at least a second: an admission charges every key once for each
  -- permit that uses it; a refusal leaves every counter, of any key, at the value that it had.
  pub count-acquire :
      (permits : List (Permit K)) (s : State) (j : K)
      → Lives permits
      → let (s', r) = acquire redis permits s in
        count s' j
        ≡ (if r.permit == 0 then count s j +ℤ pos (charged same permits j) else count s j)
  unfolding acquire
  count-acquire permits s j long =
      elim (Bool-cases ((acquire_from redis 1 [] permits s).1.permit == 0)) [
        | inl done ↦ rw done (rw done at (count-acquire_from 1 [] permits s j (omega arith) long))
        | inr refused ↦ rw refused (
            rw refused at (count-acquire_from 1 [] permits s j (omega arith) long) ∙ omega int_laws)
      ]

  pub count-release :
      (keys : List K) (s : State) (j : K)
      → count (release redis keys s) j ≡ count s j -ℤ pos (occurs same keys j)
  unfolding release
  count-release [] s j = omega int_laws
  count-release (k ∷ keys) s j =
      rw (count-release keys (decr k s) j, count-decr_hit k s j) (omega int_laws)

  pub charged_parts :
      (permits : List (Permit K)) (j : K)
      → charged same permits j
        ≡ occurs same (map (λ m. m.rate_key) permits) j
          + occurs same (map (λ m. m.inflight_key) permits) j
  charged_parts [] j = omega arith
  charged_parts (m ∷ permits) j = omega (arith, charged_parts permits j)

  -- A write that was admitted and then released leaves its charges to the rate windows, and
  -- nothing in flight.
  pub release-acquire :
      (permits : List (Permit K)) (s : State) (j : K)
      → Lives permits
      → (acquire redis permits s).1.permit ≡ 0
      → count (release redis (map (λ m. m.inflight_key) permits) (acquire redis permits s).0) j
        ≡ count s j +ℤ pos (occurs same (map (λ m. m.rate_key) permits) j)
  release-acquire permits s j long admitted =
      let done : ((acquire redis permits s).1.permit == 0) ≡ true = ground arith in
      rw
        (
          count-release (map (λ m. m.inflight_key) permits) (acquire redis permits s).0 j,
          rw done at (count-acquire permits s j long),
          charged_parts permits j,
        )
        (omega int_laws)
