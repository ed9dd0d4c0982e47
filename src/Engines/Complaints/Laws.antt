-- ===== src/Engines/Complaints/Laws.antt =====
-- What packages/core/src/engines/ComplaintEngine.ts decides.
use roadwatch.Prelude.{
  ℕ, ◌+◌, ◌≤◌, ◌<◌, ◌≡◌, ◌≢◌, ◌↔◌, inl, inr, refl, ap, sym, subst, ◌∙◌, List, [], ◌∷◌, ◌++◌, Option,
  none, some, Bool, true, false, not, ltb, ◌&&◌, if◌then◌else◌, All, Bool-cases, arith,
}
use roadwatch.Engines.Dates.{is_weekend}
use roadwatch.Engines.Dates.Laws.{working_days, calculate_sla_breach_date-IsDue}
use roadwatch.Engines.Complaints.{
  ComplaintStatus, resolved, rejected, is_closed, DamageType, same_damage, Complaint,
  time_threshold_ms, is_duplicate, deduplicate, abs_diff, allowed_days, judged,
  calculate_sla_status,
}

module _ {Place : Type 0} (is_near : Place → Place → Bool) where
  -- An open report of the same damage, near and of about the same time.
  pub record Repeats (new existing : Complaint Place) : Type 0 where
    pub not_resolved : existing.status ≢ resolved
    pub not_rejected : existing.status ≢ rejected
    pub not_before : new.timestamp ≤ existing.timestamp + time_threshold_ms
    pub not_after : existing.timestamp ≤ new.timestamp + time_threshold_ms
    pub near : is_near new.location existing.location ≡ true
    pub same_kind : new.damage_type ≡ existing.damage_type

  open_iff : (s : ComplaintStatus) → (not (is_closed s) ≡ true) → (s ≢ resolved) × (s ≢ rejected)
  open_iff ComplaintStatus.reported h = ((λ e. cc), (λ e. cc))
  open_iff ComplaintStatus.under_review h = ((λ e. cc), (λ e. cc))
  open_iff ComplaintStatus.assigned h = ((λ e. cc), (λ e. cc))
  open_iff ComplaintStatus.in_progress h = ((λ e. cc), (λ e. cc))
  open_iff ComplaintStatus.resolved h = ((λ e. cc), (λ e. cc))
  open_iff ComplaintStatus.rejected h = ((λ e. cc), (λ e. cc))

  closed_cases : (s : ComplaintStatus) → (s ≢ resolved) → (s ≢ rejected) → not (is_closed s) ≡ true
  closed_cases ComplaintStatus.reported h k = refl
  closed_cases ComplaintStatus.under_review h k = refl
  closed_cases ComplaintStatus.assigned h k = refl
  closed_cases ComplaintStatus.in_progress h k = refl
  closed_cases ComplaintStatus.resolved h k = absurd (h refl)
  closed_cases ComplaintStatus.rejected h k = absurd (k refl)

  same_damage_iff : (a b : DamageType) → (same_damage a b ≡ true) ↔ (a ≡ b)
  same_damage_iff a b = ground arith

  and_iff : (a b : Bool) → ((a && b) ≡ true) ↔ ((a ≡ true) × (b ≡ true))
  and_iff true b = ((λ h. (refl, h)), (λ h. h.1))
  and_iff false b = ((λ h. cc), (λ h. cc))

  is_duplicate-Repeats :
      (new existing : Complaint Place)
      → (is_duplicate is_near new existing ≡ true) ↔ Repeats new existing
  unfolding is_duplicate
  is_duplicate-Repeats new existing =
      let status = not (is_closed existing.status) in
      let time = not (ltb time_threshold_ms (abs_diff new.timestamp existing.timestamp)) in
      let near = is_near new.location existing.location in
      let kind = same_damage new.damage_type existing.damage_type in
      (
        λ h.
            let (ab, cd) = (and_iff (status && time) (near && kind)).0 h in
            let (a, b) = (and_iff status time).0 ab in
            let (c, d) = (and_iff near kind).0 cd in
            let (x, y) = open_iff existing.status a in
            record {
              not_resolved = x;
              not_rejected = y;
              not_before = ground arith;
              not_after = ground arith;
              near = c;
              same_kind = (same_damage_iff new.damage_type existing.damage_type).0 d;
            },
        λ r. (and_iff (status && time) (near && kind)).1 (
          (and_iff status time).1 (
            closed_cases existing.status r.not_resolved r.not_rejected,
            within r.not_before r.not_after,
          ),
          (and_iff near kind).1
              (r.near, (same_damage_iff new.damage_type existing.damage_type).1 r.same_kind),
        ),
      )
    where
      within :
          new.timestamp ≤ existing.timestamp + time_threshold_ms
          → existing.timestamp ≤ new.timestamp + time_threshold_ms
          → not (ltb time_threshold_ms (abs_diff new.timestamp existing.timestamp)) ≡ true
      within h k = ground arith

  -- What was found: nothing, where nothing repeats, or the first report that does.
  abbrev pub Found : Complaint Place → List (Complaint Place) → Option (Complaint Place) → Type 0
  Found new existing none = All (λ e. ¬ Repeats new e) existing
  Found new existing (some e) =
      (before : List (Complaint Place)) × (after : List (Complaint Place)) × (existing
        ≡ before ++ e ∷ after)
      × Repeats new e
      × All (λ b. ¬ Repeats new b) before

  -- A new report is given the first of the existing ones that are neither resolved nor rejected, of
  -- the same damage, near, and at most 14 days before or after it, and none where there is no such.
  pub deduplicate-Found :
      (new : Complaint Place) (existing : List (Complaint Place))
      → Found new existing (deduplicate is_near new existing)
  unfolding deduplicate
  deduplicate-Found new [] = tt
  deduplicate-Found new (e ∷ existing) = elim (Bool-cases (is_duplicate is_near new e)) [
    | inl hit ↦
        subst
          (λ b. Found new (e ∷ existing) (if b then some e else deduplicate is_near new existing))
          (sym hit) ([], existing, refl, (is_duplicate-Repeats new e).0 hit, tt)
    | inr miss ↦
        subst
          (λ b. Found new (e ∷ existing) (if b then some e else deduplicate is_near new existing))
          (sym miss)
          (later (deduplicate is_near new existing)
            (λ r. absurd (clash miss ((is_duplicate-Repeats new e).1 r)))
            (deduplicate-Found new existing))
  ]
    where
      clash : {b : Bool} → b ≡ false → b ≡ true → ⊥
      clash h k = cc

      later :
          (o : Option (Complaint Place))
          → ¬ Repeats new e
          → Found new existing o
          → Found new (e ∷ existing) o
      later none n h = (n, h)
      later (some f) n (before, after, split, hit, none_before) =
          (e ∷ before, after, ap (◌∷◌ e) split, hit, (n, none_before))

-- The deadline of a complaint is always found: the day on which two working days have passed since
-- its own for a severity of 4 or 5, and seven for a lower one, itself a working day; it is breached
-- exactly after that moment, unless it is resolved.
pub calculate_sla_status_lem :
    {Place : Type 0} (day_of : ℕ → ℕ) (at_day : ℕ → ℕ → ℕ) (c : Complaint Place) (now : ℕ)
    → (n : ℕ) × (late : Bool) × (calculate_sla_status day_of at_day c now
        ≡ some (late, at_day c.timestamp (day_of c.timestamp + n)))
      × (working_days (day_of c.timestamp) n ≡ (if ltb c.severity 4 then 7 else 2))
      × (is_weekend (day_of c.timestamp + n) ≡ false)
      × ((late ≡ true)
          ↔ ((at_day c.timestamp (day_of c.timestamp + n) < now) × (c.status ≢ resolved)))
unfolding calculate_sla_status allowed_days
calculate_sla_status_lem day_of at_day c now =
    let (n, found, count, work, none_left) =
      calculate_sla_breach_date-IsDue (day_of c.timestamp) (allowed_days c) in
    (
      n,
      _,
      ap (judged (at_day c.timestamp) c.status now) found,
      count ∙ ground arith,
      work (ground arith),
      ground arith,
    )
