-- ===== src/Admission/Decision.antt =====
-- Whom ACQUIRE_SCRIPT refuses, and why, read off the counters as they were.
use roadwatch.Prelude.{
  ℕ, ◌+◌, ◌<◌, ◌≡◌, ◌≢◌, refl, ap, ◌∙◌, List, [], ◌∷◌, ◌++◌, if◌then◌else◌, if_neg, Bool-cases, All,
  inl, inr,
}
use roadwatch.Prelude.Int.{ℤ, pos, ltb_ℤ, ◌+ℤ◌, int_laws}
use roadwatch.Redis.{Redis}
use roadwatch.Admission.{Permit, Reply, reply, bump, acquire_from, acquire}
use roadwatch.Admission.Atomic.{count-bump, bump_reply, Lives}

-- The first permit with no room, its rate checked before its backlog.
unfoldable pub reference : {K : Type 0} → (K → ℤ) → ℕ → List (Permit K) → Reply
reference n p [] = reply 0 0 0
reference n p (m ∷ permits) =
    if ltb_ℤ (pos m.max_rate) (n m.rate_key +ℤ pos 1)
    then reply p 1 m.window
    else if ltb_ℤ (pos m.max_inflight) (n m.inflight_key +ℤ pos 1)
    then reply p 2 m.ttl
    else reference n (p + 1) permits

-- No counter serves twice.
abbrev pub Fresh : {K : Type 0} → K → List (Permit K) → Type 0
Fresh k permits = All (λ m. (k ≢ m.rate_key) × (k ≢ m.inflight_key)) permits

abbrev pub Distinct : {K : Type 0} → List (Permit K) → Type 0
Distinct [] = Unit
Distinct (m ∷ permits) =
    (m.rate_key ≢ m.inflight_key)
    × Fresh m.rate_key permits
    × Fresh m.inflight_key permits
    × Distinct permits

reference-agree :
    {K : Type 0} (n n' : K → ℤ) (p : ℕ) (permits : List (Permit K))
    → All (λ m. (n m.rate_key ≡ n' m.rate_key) × (n m.inflight_key ≡ n' m.inflight_key)) permits
    → reference n p permits ≡ reference n' p permits
unfolding reference
reference-agree n n' p [] agree = refl
reference-agree n n' p (m ∷ permits) ((rate, inflight), agree) =
    rw (rate, inflight, reference-agree n n' (p + 1) permits agree)

module _ {K : Type 0} {same : Discrete K} (redis : Redis K same) where
  open redis use {State, count}

  count-bump_ne :
      (k j : K) (seconds : ℕ) (s : State)
      → 0 < seconds
      → k ≢ j
      → count (bump redis k seconds s).0 j ≡ count s j
  count-bump_ne k j seconds s long other =
      rw (count-bump redis k seconds s j long, if_neg _ other) (omega int_laws)

  keep :
      (m : Permit K) (permits : List (Permit K)) (s : State)
      → (0 < m.window) × (0 < m.ttl)
      → Fresh m.rate_key permits
      → Fresh m.inflight_key permits
      → let s'' = (bump redis m.inflight_key m.ttl (bump redis m.rate_key m.window s).0).0 in
        All
          (λ q.
            (count s'' q.rate_key ≡ count s q.rate_key)
            × (count s'' q.inflight_key ≡ count s q.inflight_key))
          permits
  keep m [] s long fr fi = tt
  keep m (q ∷ permits) s (w, t) ((rr, ri), fr) ((ir, ii), fi) =
      let s' = (bump redis m.rate_key m.window s).0 in
      (
        (
          count-bump_ne m.inflight_key q.rate_key m.ttl s' t ir
              ∙ count-bump_ne m.rate_key q.rate_key m.window s w rr,
          count-bump_ne m.inflight_key q.inflight_key m.ttl s' t ii
              ∙ count-bump_ne m.rate_key q.inflight_key m.window s w ri,
        ),
        keep m permits s (w, t) fr fi,
      )

  acquire_from-reference :
      (p : ℕ) (taken : List (K × K)) (permits : List (Permit K)) (s : State)
      → Distinct permits
      → Lives permits
      → (acquire_from redis p taken permits s).1 ≡ reference (count s) p permits
  unfolding acquire_from reference
  acquire_from-reference p taken [] s d long = refl
  acquire_from-reference p taken (m ∷ permits) s (other, fr, fi, d) ((w, t), long) =
      let s' = (bump redis m.rate_key m.window s).0 in
      let s'' = (bump redis m.inflight_key m.ttl s').0 in
      let rest =
        acquire_from-reference (p + 1) (taken ++ (m.rate_key, m.inflight_key) ∷ []) permits s'' d
          long
        ∙ reference-agree (count s'') (count s) (p + 1) permits (keep m permits s (w, t) fr fi) in
      let rate = bump_reply redis m.rate_key m.window s in
      let inflight =
        bump_reply redis m.inflight_key m.ttl s'
        ∙ ap (λ n. n +ℤ pos 1) (count-bump_ne m.rate_key m.inflight_key m.window s w other) in
      rw (rate, inflight)
        (elim (Bool-cases (ltb_ℤ (pos m.max_rate) (count s m.rate_key +ℤ pos 1))) [
          | inl full ↦ rw full
          | inr room ↦
              rw room
                (elim (Bool-cases (ltb_ℤ (pos m.max_inflight) (count s m.inflight_key +ℤ pos 1))) [
                  | inl full ↦ rw full
                  | inr room' ↦ rw room' rest
                ])
        ])

  -- Where no two permits share a counter and every key lives for a second, the script names the first permit that has no room, the
  -- limit that is full and the time to wait, as the counters before the call decide, and otherwise
  -- admits.
  pub acquire-reference :
      (permits : List (Permit K)) (s : State)
      → Distinct permits
      → Lives permits
      → (acquire redis permits s).1 ≡ reference (count s) 1 permits
  unfolding acquire
  acquire-reference permits s d long = acquire_from-reference 1 [] permits s d long
