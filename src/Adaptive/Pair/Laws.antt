-- ===== src/Adaptive/Pair/Laws.antt =====
-- What a write is charged, packages/redis/adaptive-backpressure.ts.
use Prim.Native.String.{String}
use roadwatch.Prelude.{
  ℕ, ◌≡◌, ◌≤◌, ◌⊎◌, inl, inr, refl, ap, ◌∙◌, List, [], ◌∷◌, map, Option, none, some, Bool, true,
  false, not, ◌&&◌, ◌==◌, if◌then◌else◌, arith,
}
use roadwatch.Prelude.Int.{ℤ, pos, ltb_ℤ, ◌+ℤ◌}
use roadwatch.Prelude.Text.{Text, Text-discrete}
use roadwatch.Redis.{Redis}
use roadwatch.Admission.{Permit, Reply, reply, acquire}
use roadwatch.Admission.Atomic.{charged, hit, count-bump, Lives}
use roadwatch.Admission.Decision.{Distinct, reference, acquire-reference}
use roadwatch.Admission.Keys.{Config, inflight_key}
use roadwatch.Admission.Client.{Outcome, permit_of, acquire_admission}
use roadwatch.Admission.Client.Charges.{acquire_admission-charges}
use roadwatch.Adaptive.{AdaptiveLimitBounds, ResolvedLimits, Memo, resolve_adaptive_limits}
use roadwatch.Adaptive.Pair.{
  Target, Taken, taken, refused, AdmissionError, admission_rejection, signal_429_key, conclude,
  route_limits, permit_config, record_admission_rejection, read_load_signals, pair_of,
  acquire_permit_pair,
}

module _ (to_lower_case : Text → Text) (redis : Redis Text Text-discrete) where
  open redis use {State, count}

  abbrev pub permits_of : ℕ → List Config → List (Permit Text)
  permits_of now configs = map (permit_of to_lower_case redis now) configs

  -- Whether one more is within a limit.
  abbrev fits : ℤ → ℕ → Bool
  fits n most = not (ltb_ℤ (pos most) (n +ℤ pos 1))

  abbrev most_of : Option ℕ → ResolvedLimits → ℕ
  most_of none limits = limits.max_inflight
  most_of (some ceiling) limits = ceiling

  -- Whether both windows are under the rate of the limits, the backlog of the service under their
  -- backlog, and that of the route under the same or under its own ceiling.
  abbrev pub has_room : ℕ → Target → Target → Option ℕ → ResolvedLimits → State → Bool
  has_room now route global ceiling limits s =
      let a =
        permit_of to_lower_case redis now (permit_config route (route_limits ceiling limits)) in
      let b = permit_of to_lower_case redis now (permit_config global limits) in
      fits (count s a.rate_key) limits.max_requests_per_window
      && fits (count s a.inflight_key) (most_of ceiling limits)
      && fits (count s b.rate_key) limits.max_requests_per_window
      && fits (count s b.inflight_key) limits.max_inflight

  reference-pair :
      (n : Text → ℤ) (a b : Permit Text)
      → ((reference n 1 (a ∷ b ∷ [])).permit == 0) ≡ (
          fits (n a.rate_key) a.max_rate
          && fits (n a.inflight_key) a.max_inflight
          && fits (n b.rate_key) b.max_rate
          && fits (n b.inflight_key) b.max_inflight)
  unfolding reference
  reference-pair n a b =
      by_tests (ltb_ℤ (pos a.max_rate) (n a.rate_key +ℤ pos 1))
        (ltb_ℤ (pos a.max_inflight) (n a.inflight_key +ℤ pos 1))
        (ltb_ℤ (pos b.max_rate) (n b.rate_key +ℤ pos 1))
        (ltb_ℤ (pos b.max_inflight) (n b.inflight_key +ℤ pos 1))
    where
      by_tests :
          (p q r t : Bool)
          → let answer : Reply =
              if p
              then reply 1 1 a.window
              else if q
              then reply 1 2 a.ttl
              else if r
              then reply 2 1 b.window
              else if t
              then reply 2 2 b.ttl
              else reply 0 0 0 in
            (answer.permit == 0) ≡ (not p && not q && not r && not t)
      by_tests true q r t = refl
      by_tests false true r t = refl
      by_tests false false true t = refl
      by_tests false false false true = refl
      by_tests false false false false = refl

  -- A write that got its permits: each is charged once, and its backlog keys can be given back.
  pub record IsTaken (now : ℕ) (configs : List Config) (room : Bool) (s s' : State) (answer : Taken)
      : Type 0 where
    pub had_room : room ≡ true
    pub outcome : Outcome
    pub is_taken : answer ≡ taken (map (inflight_key to_lower_case) configs) outcome
    pub each_once :
        (j : Text)
        → count s' j ≡ count s j +ℤ pos (charged Text-discrete (permits_of now configs) j)

  -- A write that was refused: nothing is charged but the count of refusals, and it is told to wait.
  pub record IsRefused (room : Bool) (s s' : State) (answer : Taken) : Type 0 where
    pub no_room : room ≡ false
    pub error : AdmissionError
    pub is_refused : answer ≡ refused error
    pub waits : 1 ≤ error.retry_after_seconds
    pub one_refusal :
        (j : Text) → count s' j ≡ count s j +ℤ pos (hit Text-discrete signal_429_key j)

  admits : ℕ → List Config → State → Bool
  admits now configs s = (acquire redis (permits_of now configs) s).1.permit == 0

  conclude-either :
      (now : ℕ) (configs : List Config) (labels : List String) (s : State)
      → Lives (permits_of now configs)
      → let (s', answer) =
          conclude to_lower_case redis s
            (acquire_admission to_lower_case redis now configs labels s) in
        IsTaken now configs (admits now configs s) s s' answer
        ⊎ IsRefused (admits now configs s) s s' answer
  unfolding record_admission_rejection admission_rejection admits
  conclude-either now configs labels s long =
      let (s', a, e, how) =
        acquire_admission-charges to_lower_case redis now configs labels s long in
      rw e (elim how [
        | inl c ↦ simp c.is_admitted (
            inl (record {
              had_room = c.had_room;
              outcome = a.outcome;
              is_taken = ap (λ keys. taken keys a.outcome) c.to_release;
              each_once = c.each_once;
            }))
        | inr f ↦ simp f.is_refused (
            inr (record {
              no_room = f.no_room;
              error = admission_rejection a.outcome;
              is_refused = refl;
              waits = omega arith;
              one_refusal = λ j.
                  count-bump redis signal_429_key 60 s' j (omega arith)
                  ∙ ap (λ n. n +ℤ pos (hit Text-discrete signal_429_key j)) (f.no_charge j);
            }))
      ])

  admits-has_room :
      (route global : Target) (ceiling : Option ℕ) (limits : ResolvedLimits) (now : ℕ) (s : State)
      → Distinct (permits_of now (pair_of to_lower_case redis route global ceiling limits))
      → Lives (permits_of now (pair_of to_lower_case redis route global ceiling limits))
      → admits now (pair_of to_lower_case redis route global ceiling limits) s
        ≡ has_room now route global ceiling limits s
  unfolding admits permit_config permit_of
  admits-has_room route global none limits now s d long =
      ap (λ (r : Reply). r.permit == 0) (acquire-reference redis _ s d long)
      ∙ reference-pair (count s) _ _
  admits-has_room route global (some most) limits now s d long =
      ap (λ (r : Reply). r.permit == 0) (acquire-reference redis _ s d long)
      ∙ reference-pair (count s) _ _

  -- With redis configured, a write asks for the permits of its route and of the whole service, which
  -- share no key and live for a second or more. It is taken exactly if both have room under the
  -- limits that the replica has for the load, and then every counter is charged once for each of
  -- the two permits that uses it and the two backlog keys can be given back; otherwise it is refused
  -- with a wait of at least a second, and no counter is changed but that of the refusals, which
  -- rises by one. The replica remembers the limits that it used.
  pub acquire_permit_pair-either :
      (route global : Target) (bounds : AdaptiveLimitBounds) (ceiling : Option ℕ) (now gauge : ℕ)
      (s : State) (memo : Option Memo)
      → let (limits, kept) =
          resolve_adaptive_limits true bounds now
            (read_load_signals to_lower_case redis gauge s)
            memo in
        Distinct (permits_of now (pair_of to_lower_case redis route global ceiling limits))
        → let (limits, kept) =
            resolve_adaptive_limits true bounds now
              (read_load_signals to_lower_case redis gauge s)
              memo in
          Lives (permits_of now (pair_of to_lower_case redis route global ceiling limits))
          → let ((s', memo'), answer) =
              acquire_permit_pair to_lower_case redis true route global bounds ceiling now gauge
                (s, memo) in
            let (limits, kept) =
              resolve_adaptive_limits true bounds now
                (read_load_signals to_lower_case redis gauge s)
                memo in
            let room = has_room now route global ceiling limits s in
            let pair = pair_of to_lower_case redis route global ceiling limits in
            (IsTaken now pair room s s' answer ⊎ IsRefused room s s' answer) × (memo' ≡ kept)
  unfolding acquire_permit_pair
  acquire_permit_pair-either route global bounds ceiling now gauge s memo d long =
      let limits =
        (resolve_adaptive_limits true bounds now (read_load_signals to_lower_case redis gauge s)
          memo).0 in
      let pair = pair_of to_lower_case redis route global ceiling limits in
      (
        rw⁻¹ (admits-has_room route global ceiling limits now s d long)
            (conclude-either now pair ("route" ∷ "global" ∷ []) s long),
        refl,
      )
