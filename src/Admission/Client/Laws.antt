-- ===== src/Admission/Client/Laws.antt =====
-- What a caller of `acquireAdmission` can rely on.
use roadwatch.Prelude.{
  ℕ, zero, suc, ◌+◌, ◌-◌, ◌≤◌, ◌≡◌, refl, ap, ◌∙◌, ◌⊎◌, inl, inr, List, [], ◌∷◌, ◌++◌, map, Option,
  none, some, true, false, max, ◌==◌, get_elem?, arith, Bool-cases,
}
use Prim.Native.String.{String}
use roadwatch.Prelude.Int.{pos, ltb_ℤ}
use roadwatch.Prelude.Text.{Text, Text-discrete}
use roadwatch.Redis.{Redis}
use roadwatch.Admission.{Permit, Reply, bump, acquire_from, acquire}
use roadwatch.Admission.Keys.{Config, inflight_key}
use roadwatch.Admission.Client.{
  Admission, admitted_outcome, retry_bound, refused_outcome, refuse, respond, permit_of,
  acquire_admission,
}

-- The permit at index `i`, counted from `p`, refused, for the limit and the wait that are its own.
record Names {K : Type 0} (p : ℕ) (permits : List (Permit K)) (r : Reply) : Type 0 where
  i : ℕ
  m : Permit K
  position : r.permit ≡ p + i
  at : get_elem? permits i ≡ some m
  limit : ((r.reason ≡ 1) × (r.retry_after ≡ m.window)) ⊎ ((r.reason ≡ 2) × (r.retry_after ≡ m.ttl))

Names-cons :
    {K : Type 0} (p : ℕ) (m : Permit K) (permits : List (Permit K)) (r : Reply)
    → (r.permit ≡ 0) ⊎ Names (p + 1) permits r
    → (r.permit ≡ 0) ⊎ Names p (m ∷ permits) r
Names-cons p m permits r (inl admitted) = inl admitted
Names-cons p m permits r (inr n) = inr (record {
  i = suc n.i;
  m = n.m;
  position = omega (arith, n.position);
  at = n.at;
  limit = n.limit;
})

acquire_from-Names :
    {K : Type 0} {same : Discrete K} (redis : Redis K same) (p : ℕ) (taken : List (K × K))
    (permits : List (Permit K)) (s : redis.State)
    → let r = (acquire_from redis p taken permits s).1 in (r.permit ≡ 0) ⊎ Names p permits r
unfolding acquire_from
acquire_from-Names redis p taken [] s = inl refl
acquire_from-Names redis p taken (m ∷ permits) s =
    let (s', n) = bump redis m.rate_key m.window s in
    let (s'', n') = bump redis m.inflight_key m.ttl s' in
    elim (Bool-cases (ltb_ℤ (pos m.max_rate) n)) [
      | inl full ↦ rw full (
          inr
            (record { i = 0; m = m; position = omega arith; at = refl; limit = inl (refl, refl) }))
      | inr room ↦ rw room (elim (Bool-cases (ltb_ℤ (pos m.max_inflight) n')) [
        | inl full ↦ rw full (
            inr (record {
              i = 0;
              m = m;
              position = omega arith;
              at = refl;
              limit = inr (refl, refl);
            }))
        | inr room' ↦ rw room' (
            Names-cons p m permits _ (
              acquire_from-Names redis (p + 1) (taken ++ (m.rate_key, m.inflight_key) ∷ []) permits
                s''))
      ])
    ]

get_elem?-map {ℓ κ} :
    {A : Type ℓ} {B : Type κ} (f : A → B) (xs : List A) (i : ℕ) {y : B}
    → get_elem? (map f xs) i ≡ some y
    → (x : A) × (get_elem? xs i ≡ some x) × (f x ≡ y)
get_elem?-map f [] i e = cc
get_elem?-map f (x ∷ xs) zero e = (x, refl, cc)
get_elem?-map f (x ∷ xs) (suc i) e = get_elem?-map f xs i e

retry_bound-within :
    (c : Config) (n : ℕ)
    → (1 ≤ retry_bound c n)
      × (retry_bound c n ≤ max 1 (max c.window_seconds c.inflight_ttl_seconds))
unfolding retry_bound
retry_bound-within c n = ground arith

-- A refused caller learns the label of the permit and a wait of at least one second, no longer than
-- the limiter's window or time to live, and has nothing to release.
pub record IsRefusal (configs : List Config) (labels : List String) (a : Admission) : Type 0 where
  pub index : ℕ
  pub config : Config
  pub wait : ℕ
  pub at : get_elem? configs index ≡ some config
  pub refused : a.outcome.admitted ≡ false
  pub named : a.outcome.permit ≡ get_elem? labels index
  pub told : a.outcome.retry_after_seconds ≡ some wait
  pub at_least : 1 ≤ wait
  pub at_most : wait ≤ max 1 (max config.window_seconds config.inflight_ttl_seconds)
  pub nothing_held : a.release ≡ []

module _ (to_lower_case : Text → Text) where
  pub record IsAdmission (configs : List Config) (a : Admission) : Type 0 where
    pub admitted : a.outcome.admitted ≡ true
    pub no_reason : a.outcome.rejection ≡ none
    pub held : a.release ≡ map (inflight_key to_lower_case) configs

module _ (to_lower_case : Text → Text) (redis : Redis Text Text-discrete) where
  open redis use {State, count}

  abbrev Answer : List Config → List String → Option (State × Admission) → Type 0
  Answer configs labels o =
      (s' : State) × (a : Admission) × (o ≡ some (s', a))
      × (IsAdmission to_lower_case configs a ⊎ IsRefusal configs labels a)

  respond-Answer :
      (now : ℕ) (configs : List Config) (labels : List String) (s : State) (r : Reply)
      → (r.permit ≡ 0) ⊎ Names 1 (map (permit_of to_lower_case redis now) configs) r
      → Answer configs labels (respond to_lower_case redis now configs labels s r)
  unfolding respond refuse admitted_outcome refused_outcome
  respond-Answer now configs labels s r (inl admitted) =
      let zero_permit : (r.permit == 0) ≡ true = ground arith in
      let a : Admission = record {
        outcome = admitted_outcome;
        release = map (inflight_key to_lower_case) configs;
      } in
      (s, a, rw zero_permit, inl (record { admitted = refl; no_reason = refl; held = refl }))
  respond-Answer now configs labels s r (inr n) =
      let some_permit : (r.permit == 0) ≡ false = ground (arith, n.position) in
      let place : r.permit - 1 ≡ n.i = omega (arith, n.position) in
      let (c, at, made) = get_elem?-map (permit_of to_lower_case redis now) configs n.i n.at in
      let a : Admission = record {
        outcome = refused_outcome c (get_elem? labels (r.permit - 1)) r;
        release = [];
      } in
      (
        s,
        a,
        rw (some_permit, ap (get_elem? configs) place ∙ at) refl,
        inr (record {
          index = n.i;
          config = c;
          wait = retry_bound c r.retry_after;
          at = at;
          refused = refl;
          named = ap (get_elem? labels) place;
          told = refl;
          at_least = (retry_bound-within c r.retry_after).0;
          at_most = (retry_bound-within c r.retry_after).1;
          nothing_held = refl;
        }),
      )

  -- `acquireAdmission` always returns: an admission, whose release gives back one inflight key for
  -- each config; or a refusal, which holds nothing, names the label of one of the configs, and tells
  -- a wait of at least a second and at most the longer of that config's window and time to live.
  pub acquire_admission-Answer :
      (now : ℕ) (configs : List Config) (labels : List String) (s : State)
      → (s' : State) × (a : Admission) × (acquire_admission to_lower_case redis now configs labels s
          ≡ some (s', a))
        × (IsAdmission to_lower_case configs a ⊎ IsRefusal configs labels a)
  unfolding acquire_admission acquire admitted_outcome
  acquire_admission-Answer now [] labels s = (
    s,
    record { outcome = admitted_outcome; release = [] },
    refl,
    inl (record { admitted = refl; no_reason = refl; held = refl }),
  )
  acquire_admission-Answer now (c ∷ configs) labels s =
      let permits = map (permit_of to_lower_case redis now) (c ∷ configs) in
      respond-Answer now (c ∷ configs) labels (acquire_from redis 1 [] permits s).0
        (acquire_from redis 1 [] permits s).1 (acquire_from-Names redis 1 [] permits s)
