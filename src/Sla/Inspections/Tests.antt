-- ===== src/Sla/Inspections/Tests.antt =====
-- Two assignments of one complaint, of which one is late.
use roadwatch.Prelude.{ℕ, ◌+◌, ◌≡◌, refl, none, some, Option, true, false, List, [], ◌∷◌, All}
use roadwatch.Prelude.Int.{negsuc}
use roadwatch.Prelude.Text.{Text, codes}
use roadwatch.Sla.{Complaint}
use roadwatch.Sla.Inspections.{
  Assignment, Db, overdue, mark_overdue, returning_overdue, report_overdue,
  check_inspection_overdue, grace,
}
use roadwatch.Sla.Inspections.Laws.{
  Check, noticed, waiting, checks, checks-check_inspection_overdue,
}

abbrev same : Text → Text
same t = t

abbrev engineer_of : Option Text → Option Text
engineer_of road = some (codes "e1")

abbrev complaint : Complaint
complaint = record {
  id = codes "c1";
  status = codes "IN_PROGRESS";
  district = none;
  zone = none;
  authority_id = none;
  authority_org = none;
  road_id = none;
  metadata = none;
}

abbrev completed : ℕ → Assignment
completed at = record {
  complaint_id = codes "c1";
  inspector_id = none;
  completed_at = some at;
  inspection_completed_at = none;
  inspection_due_at = none;
  inspection_overdue_notified = false;
}

abbrev two : Db
two = record { assignments = completed 0 ∷ completed grace ∷ []; notices = []; charges = [] }

abbrev night : ℕ → Check
night now = record { runs = true; now = now; complaints = complaint ∷ [] }

abbrev nights : List Check
nights = night (grace + 1) ∷ night (grace + 1) ∷ []

one_is_late : noticed (codes "c1") (checks same engineer_of (negsuc 14) nights two).notices ≡ 1
unfolding check_inspection_overdue overdue mark_overdue returning_overdue report_overdue
one_is_late = refl

abbrev after : Db
after =
    check_inspection_overdue same engineer_of true (negsuc 14) (grace + 2) (complaint ∷ [])
      (checks same engineer_of (negsuc 14) nights two)

checks-check_inspection_overdue_example :
    All (λ a. overdue same engineer_of (grace + 2) (complaint ∷ []) a ≡ none) after.assignments
    × (noticed (codes "c1") after.notices + waiting (codes "c1") after.assignments
        ≡ noticed (codes "c1") two.notices + waiting (codes "c1") two.assignments)
checks-check_inspection_overdue_example =
    checks-check_inspection_overdue same engineer_of (negsuc 14) (codes "c1") nights (grace + 2)
      (complaint ∷ []) two
