-- ===== src/Admission/Client/Charges.antt =====
-- The counters after `acquireAdmission` of packages/redis/admission.ts.
use Prim.Native.String.{String}
use roadwatch.Prelude.{
  ℕ, ◌-◌, ◌≡◌, ◌⊎◌, inl, inr, refl, List, [], ◌∷◌, map, Option, none, some, true, false, ◌==◌,
  get_elem?, Bool-cases, Option-cases,
}
use roadwatch.Prelude.Int.{pos, ◌+ℤ◌, int_laws}
use roadwatch.Prelude.Text.{Text, Text-discrete}
use roadwatch.Redis.{Redis}
use roadwatch.Admission.{acquire}
use roadwatch.Admission.Atomic.{charged, count-acquire, Lives}
use roadwatch.Admission.Keys.{Config, inflight_key}
use roadwatch.Admission.Client.{
  Admission, permit_of, refuse, respond, acquire_admission, admitted_outcome, refused_outcome,
}
use roadwatch.Admission.Client.Laws.{acquire_admission-Answer}

module _ (to_lower_case : Text → Text) (redis : Redis Text Text-discrete) where
  open redis use {State, count}

  -- An admission that charged every permit once, and gives back their backlog keys.
  pub record IsCharged (now : ℕ) (configs : List Config) (s s' : State) (a : Admission)
      : Type 0 where
    pub is_admitted : a.outcome.admitted ≡ true
    pub had_room :
        ((acquire redis (map (permit_of to_lower_case redis now) configs) s).1.permit == 0) ≡ true
    pub to_release : a.release ≡ map (inflight_key to_lower_case) configs
    pub each_once :
        (j : Text)
        → count s' j
          ≡ count s j
            +ℤ pos (charged Text-discrete (map (permit_of to_lower_case redis now) configs) j)

  pub record IsFree (now : ℕ) (configs : List Config) (s s' : State) (a : Admission) : Type 0 where
    pub is_refused : a.outcome.admitted ≡ false
    pub no_room :
        ((acquire redis (map (permit_of to_lower_case redis now) configs) s).1.permit == 0) ≡ false
    pub no_charge : (j : Text) → count s' j ≡ count s j

  pub acquire_admission-charges :
      (now : ℕ) (configs : List Config) (labels : List String) (s : State)
      → Lives (map (permit_of to_lower_case redis now) configs)
      → (s' : State) × (a : Admission) × (acquire_admission to_lower_case redis now configs labels s
          ≡ some (s', a))
        × (IsCharged now configs s s' a ⊎ IsFree now configs s s' a)
  unfolding acquire_admission acquire roadwatch.Admission.acquire_from respond refuse
      admitted_outcome refused_outcome
  acquire_admission-charges now [] labels s long = (
    s,
    record { outcome = admitted_outcome; release = [] },
    refl,
    inl (record {
      is_admitted = refl;
      had_room = refl;
      to_release = refl;
      each_once = λ j. omega int_laws;
    }),
  )
  acquire_admission-charges now (c ∷ configs) labels s long =
      let permits = map (permit_of to_lower_case redis now) (c ∷ configs) in
      let s' = (acquire redis permits s).0 in
      let r = (acquire redis permits s).1 in
      let counts = λ (j : Text). count-acquire redis permits s j long in
      elim (Bool-cases (r.permit == 0)) [
        | inl zero_permit ↦
            let a : Admission = record {
              outcome = admitted_outcome;
              release = map (inflight_key to_lower_case) (c ∷ configs);
            } in
            (
              s',
              a,
              rw zero_permit refl,
              inl (record {
                is_admitted = refl;
                had_room = zero_permit;
                to_release = refl;
                each_once = λ j. rw zero_permit at (counts j);
              }),
            )
        | inr some_permit ↦ elim (Option-cases (get_elem? (c ∷ configs) (r.permit - 1))) [
          | inl missing ↦
              let (t, b, e, how) =
                acquire_admission-Answer to_lower_case redis now (c ∷ configs) labels s in
              let clash : ◌≡◌ {A = Option (State × Admission)} none (some (t, b)) =
                rw (some_permit, missing) at e in
              absurd (cc)
          | inr (d, there) ↦
              let a : Admission = record {
                outcome = refused_outcome d (get_elem? labels (r.permit - 1)) r;
                release = [];
              } in
              (
                s',
                a,
                rw (some_permit, there) refl,
                inr (record {
                  is_refused = refl;
                  no_room = some_permit;
                  no_charge = λ j. rw some_permit at (counts j);
                }),
              )
        ]
      ]
