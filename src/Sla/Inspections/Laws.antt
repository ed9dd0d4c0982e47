-- ===== src/Sla/Inspections/Laws.antt =====
-- Every mark of an overdue inspection is one notice, in services/scheduler/index.ts.
use roadwatch.Prelude.{
  ℕ, ◌+◌, ◌≡◌, inl, inr, refl, sym, ◌∙◌, Option, none, some, Bool, true, false, List, [], ◌∷◌, ◌++◌,
  if◌then◌else◌, All, Bool-cases, Option-cases, arith,
}
use roadwatch.Prelude.Int.{ℤ}
use roadwatch.Prelude.Text.{Text}
use roadwatch.Escalation.{text_eq}
use roadwatch.Sla.{Complaint, Notice}
use roadwatch.Sla.Inspections.{
  Assignment, Db, OverdueRow, overdue, mark, overdue_notice, mark_overdue, returning_overdue,
  report_overdue, check_inspection_overdue, penalty, inspector_of, is_none,
}

abbrev pub one_if : Bool → ℕ
one_if b = if b then 1 else 0

-- The notices on a complaint.
abbrev pub noticed : Text → List Notice → ℕ
noticed id [] = 0
noticed id (n ∷ ns) = one_if (text_eq n.complaint_id id) + noticed id ns

abbrev pub unmarked : Text → Assignment → ℕ
unmarked id a = if a.inspection_overdue_notified then 0 else one_if (text_eq a.complaint_id id)

-- The assignments of a complaint whose inspection was not reported.
abbrev pub waiting : Text → List Assignment → ℕ
waiting id [] = 0
waiting id (a ∷ rows) = unmarked id a + waiting id rows

abbrev pub returned : Text → List OverdueRow → ℕ
returned id [] = 0
returned id (row ∷ rows) = one_if (text_eq row.assignment.complaint_id id) + returned id rows

noticed-append :
    (id : Text) (ns : List Notice) (n : Notice)
    → noticed id (ns ++ n ∷ []) ≡ noticed id ns + one_if (text_eq n.complaint_id id)
noticed-append id [] n = omega arith
noticed-append id (m ∷ ns) n = omega (arith, noticed-append id ns n)

none_ne_some : (c : Complaint) → ◌≡◌ {A = Option Complaint} none (some c) → ⊥
none_ne_some c h = cc

-- One check: whether it runs, when, and the complaints at that time.
pub record Check : Type 0 where
  pub runs : Bool
  pub now : ℕ
  pub complaints : List Complaint

module _ (upper : Text → Text) (engineer_of_road : Option Text → Option Text) where
  overdue-marked :
      (now : ℕ) (cs : List Complaint) (a : Assignment)
      → a.inspection_overdue_notified ≡ true
      → overdue upper engineer_of_road now cs a ≡ none
  unfolding overdue
  overdue-marked now cs a e = elim (Bool-cases (is_none a.inspection_completed_at)) [
    | inl n ↦ simp (n, e)
    | inr n ↦ simp n
  ]

  overdue-unmarked :
      (now : ℕ) (cs : List Complaint) (a : Assignment) (c : Complaint)
      → overdue upper engineer_of_road now cs a ≡ some c
      → a.inspection_overdue_notified ≡ false
  overdue-unmarked now cs a c h = elim (Bool-cases a.inspection_overdue_notified) [
    | inl e ↦
        let clash : ◌≡◌ {A = Option Complaint} none (some c) =
          sym (overdue-marked now cs a e) ∙ h in
        absurd (none_ne_some c clash)
    | inr e ↦ e
  ]

  mark_overdue-waiting :
      (now : ℕ) (cs : List Complaint) (id : Text) (rows : List Assignment)
      → waiting id (mark_overdue upper engineer_of_road now cs rows)
          + returned id (returning_overdue upper engineer_of_road now cs rows)
        ≡ waiting id rows
  unfolding mark_overdue returning_overdue
  mark_overdue-waiting now cs id [] = refl
  mark_overdue-waiting now cs id (a ∷ rows) =
      let rest = mark_overdue-waiting now cs id rows in
      elim (Option-cases (overdue upper engineer_of_road now cs a)) [
        | inl e ↦ rw e (omega (arith, rest))
        | inr (c, e) ↦
            let new = overdue-unmarked now cs a c e in rw e (rw new (omega (arith, rest)))
      ]

  report_overdue-noticed :
      (delta : ℤ) (id : Text) (rows : List OverdueRow) (db : Db)
      → noticed id (report_overdue upper engineer_of_road delta rows db).notices
        ≡ noticed id db.notices + returned id rows
  unfolding report_overdue
  report_overdue-noticed delta id [] db = omega arith
  report_overdue-noticed delta id (row ∷ rows) db =
      let n = overdue_notice upper engineer_of_road row in
      let next : Db = record db {
        notices = db.notices ++ n ∷ [];
        charges =
            db.charges ++ penalty delta row.assignment (inspector_of upper engineer_of_road row);
      } in
      omega (arith, report_overdue-noticed delta id rows next, noticed-append id db.notices n)

  report_overdue-assignments :
      (delta : ℤ) (rows : List OverdueRow) (db : Db)
      → (report_overdue upper engineer_of_road delta rows db).assignments ≡ db.assignments
  unfolding report_overdue
  report_overdue-assignments delta [] db = refl
  report_overdue-assignments delta (row ∷ rows) db = report_overdue-assignments delta rows _

  check-conserved :
      (delta : ℤ) (id : Text) (runs : Bool) (now : ℕ) (cs : List Complaint) (db : Db)
      → noticed id (check_inspection_overdue upper engineer_of_road runs delta now cs db).notices
          + waiting id
              (check_inspection_overdue upper engineer_of_road runs delta now cs db).assignments
        ≡ noticed id db.notices + waiting id db.assignments
  unfolding check_inspection_overdue
  check-conserved delta id false now cs db = refl
  check-conserved delta id true now cs db =
      let rows = returning_overdue upper engineer_of_road now cs db.assignments in
      let marked : Db = record db {
        assignments = mark_overdue upper engineer_of_road now cs db.assignments;
      } in
      let told = report_overdue-noticed delta id rows marked in
      let kept = report_overdue-assignments delta rows marked in
      rw kept (omega (arith, told, mark_overdue-waiting now cs id db.assignments))

  abbrev pub checks : ℤ → List Check → Db → Db
  checks delta [] db = db
  checks delta (k ∷ ks) db =
      checks delta ks
        (check_inspection_overdue upper engineer_of_road k.runs delta k.now k.complaints db)

  checks-conserved :
      (delta : ℤ) (id : Text) (ks : List Check) (db : Db)
      → noticed id (checks delta ks db).notices + waiting id (checks delta ks db).assignments
        ≡ noticed id db.notices + waiting id db.assignments
  checks-conserved delta id [] db = refl
  checks-conserved delta id (k ∷ ks) db =
      checks-conserved delta id ks
        (check_inspection_overdue upper engineer_of_road k.runs delta k.now k.complaints db)
      ∙ check-conserved delta id k.runs k.now k.complaints db

  mark_overdue-settled :
      (now : ℕ) (cs : List Complaint) (rows : List Assignment)
      → All
          (λ a. overdue upper engineer_of_road now cs a ≡ none)
          (mark_overdue upper engineer_of_road now cs rows)
  unfolding mark_overdue
  mark_overdue-settled now cs [] = tt
  mark_overdue-settled now cs (a ∷ rows) =
      (one (overdue upper engineer_of_road now cs a) refl, mark_overdue-settled now cs rows)
    where
      one :
          (c : Option Complaint)
          → overdue upper engineer_of_road now cs a ≡ c
          → overdue upper engineer_of_road now cs (mark upper engineer_of_road a c) ≡ none
      one none e = e
      one (some c) e = overdue-marked now cs (record a { inspection_overdue_notified = true }) refl

  check_inspection_overdue-settled :
      (delta : ℤ) (now : ℕ) (cs : List Complaint) (db : Db)
      → All
          (λ a. overdue upper engineer_of_road now cs a ≡ none)
          (check_inspection_overdue upper engineer_of_road true delta now cs db).assignments
  unfolding check_inspection_overdue
  check_inspection_overdue-settled delta now cs db =
      let rows = returning_overdue upper engineer_of_road now cs db.assignments in
      let marked : Db = record db {
        assignments = mark_overdue upper engineer_of_road now cs db.assignments;
      } in
      let kept = report_overdue-assignments delta rows marked in
      rw kept (mark_overdue-settled now cs db.assignments)

  -- After any checks, at any times, with any complaints and some of which may not run, and one more
  -- that runs: it leaves no assignment that it would report at the same time, and the notices on a
  -- complaint and its assignments that are not marked are together as many as at first, so that
  -- each mark is one notice and none is given twice.
  pub checks-check_inspection_overdue :
      (delta : ℤ) (id : Text) (ks : List Check) (now : ℕ) (cs : List Complaint) (db : Db)
      → All
          (λ a. overdue upper engineer_of_road now cs a ≡ none)
          (check_inspection_overdue upper engineer_of_road true delta now cs
            (checks delta ks db)).assignments
        × (noticed id
                (check_inspection_overdue upper engineer_of_road true delta now cs
                  (checks delta ks db)).notices
              + waiting id
                  (check_inspection_overdue upper engineer_of_road true delta now cs
                    (checks delta ks db)).assignments
            ≡ noticed id db.notices + waiting id db.assignments)
  checks-check_inspection_overdue delta id ks now cs db = (
    check_inspection_overdue-settled delta now cs (checks delta ks db),
    check-conserved delta id true now cs (checks delta ks db) ∙ checks-conserved delta id ks db,
  )
