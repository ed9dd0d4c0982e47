-- ===== src/Lifecycle/Contractor/Laws.antt =====
-- What the transaction of services/scheduler/index.ts on a contractor leaves behind.
use Prim.Native.String.{String}
use roadwatch.Prelude.{
  ℕ, ◌≡◌, ◌⊎◌, inl, inr, refl, ap, sym, subst, ◌∙◌, Option, none, some, Bool, true, false, List, [],
  ◌∷◌, ◌++◌, Bool-cases, arith,
}
use roadwatch.Prelude.Int.{ℤ, pos, negsuc, eq_ℤ, ◌≤ℤ◌}
use roadwatch.Karma.{KarmaTier, get_work_band_from_score}
use roadwatch.Lifecycle.Contractor.{
  Contractor, Standing, Faults, new_score, transaction, or_before, apply_contractor_karma,
}

abbrev pub band_of : ℕ → ℤ → KarmaTier
band_of now score = get_work_band_from_score score 0 now

-- The row and the ledger after a change that was made.
abbrev pub changed : ℕ → ℤ → String → String → Contractor → Standing → Standing
changed now delta reason ref_id c s = record {
  contractor = some (record {
    karma_score = some (new_score delta c.karma_score);
    work_band = some (band_of now (new_score delta c.karma_score));
  });
  ledger = s.ledger ++ record { delta = delta; reason = reason; ref_id = some ref_id } ∷ [];
}

-- Nothing at all, or all of it.
abbrev pub AllOrNothing : ℕ → ℤ → String → String → Standing → Standing → Type 0
AllOrNothing now delta reason ref_id s s' =
    (s' ≡ s)
    ⊎ ((c : Contractor) × (s.contractor ≡ some c) × (s' ≡ changed now delta reason ref_id c s))

module _ (now : ℕ) (delta : ℤ) (reason ref_id : String) where
  run_all :
      (begun updated selected banded inserted committed : Bool) (s : Standing)
      (c : Option Contractor)
      → s.contractor ≡ c
      → let f : Faults = record {
        begun = begun;
        updated = updated;
        selected = selected;
        banded = banded;
        inserted = inserted;
        committed = committed;
      } in
        AllOrNothing now delta reason ref_id s
          (or_before s (transaction now f delta reason ref_id (record s { contractor = c })))
  unfolding transaction
  run_all false u e b i m s c h = inl refl
  run_all true false e b i m s c h = inl refl
  run_all true true e b i m s none h = elim (Bool-cases e) [
    | inl x ↦ rw x (inl refl)
    | inr x ↦ rw x (inl refl)
  ]
  run_all true true false b i m s (some c) h = inl refl
  run_all true true true false i m s (some c) h = inl refl
  run_all true true true true false m s (some c) h = inl refl
  run_all true true true true true false s (some c) h = inl refl
  run_all true true true true true true s (some c) h = inr (c, h, refl)

  apply_contractor_karma-AllOrNothing :
      (f : Faults) (s : Standing)
      → AllOrNothing now delta reason ref_id s (apply_contractor_karma now f delta reason ref_id s)
  unfolding apply_contractor_karma
  apply_contractor_karma-AllOrNothing f s = elim (Bool-cases (eq_ℤ delta (pos 0))) [
    | inl e ↦ rw e (inl refl)
    | inr e ↦
        rw e
          (run_all f.begun f.updated f.selected f.banded f.inserted f.committed s s.contractor refl)
  ]

band_of_lem : (now : ℕ) (score : ℤ) → band_of now score ≡ band_of 0 score
unfolding get_work_band_from_score
band_of_lem now score = ground arith

-- A score that is recorded lies between -500 and 10000, and the band is that of it.
abbrev pub Agrees : Standing → Type 0
Agrees s =
    (c : Contractor) (score : ℤ)
    → s.contractor ≡ some c
    → c.karma_score ≡ some score
    → (c.work_band ≡ some (band_of 0 score)) × (negsuc 499 ≤ℤ score) × (score ≤ℤ pos 10000)

pub record Change : Type 0 where
  pub now : ℕ
  pub faults : Faults
  pub delta : ℤ
  pub reason : String
  pub ref_id : String

abbrev pub change : Change → Standing → Standing
change h s = apply_contractor_karma h.now h.faults h.delta h.reason h.ref_id s

abbrev pub changes : List Change → Standing → Standing
changes [] s = s
changes (h ∷ hs) s = changes hs (change h s)

new_score_bounds :
    (delta : ℤ) (score : Option ℤ)
    → (negsuc 499 ≤ℤ new_score delta score) × (new_score delta score ≤ℤ pos 10000)
new_score_bounds delta score = (ground arith, ground arith)

changed-Agrees :
    (now : ℕ) (delta : ℤ) (reason ref_id : String) (c : Contractor) (s : Standing)
    → Agrees (changed now delta reason ref_id c s)
changed-Agrees now delta reason ref_id c s d score here own =
    let n = new_score delta c.karma_score in
    let (low, high) = new_score_bounds delta c.karma_score in
    let made : ◌≡◌ {A = Contractor}
        (record { karma_score = some n; work_band = some (band_of now n) }) d =
      cc in
    let same : ◌≡◌ {A = Option ℤ} (some n) (some score) =
      ap (λ (x : Contractor). x.karma_score) made ∙ own in
    let equal : n ≡ score = cc in
    subst
      (λ (x : Contractor).
        (x.work_band ≡ some (band_of 0 score)) × (negsuc 499 ≤ℤ score) × (score ≤ℤ pos 10000))
      made
      (
        ap some (band_of_lem now n ∙ ap (band_of 0) equal),
        subst (λ z. negsuc 499 ≤ℤ z) equal low,
        subst (λ z. z ≤ℤ pos 10000) equal high,
      )

-- Where the recorded score of a contractor lies within -500 and 10000 and the band is that of the
-- score, this stays so under any changes, whichever of their statements fail.
pub changes-Agrees : (hs : List Change) (s : Standing) → Agrees s → Agrees (changes hs s)
changes-Agrees [] s a = a
changes-Agrees (h ∷ hs) s a =
    changes-Agrees hs (change h s)
      (elim (apply_contractor_karma-AllOrNothing h.now h.delta h.reason h.ref_id h.faults s) [
        | inl same ↦ subst Agrees (sym same) a
        | inr all ↦
            subst Agrees (sym all.2) (changed-Agrees h.now h.delta h.reason h.ref_id all.0 s)
      ])
