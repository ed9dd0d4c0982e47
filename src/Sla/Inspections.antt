-- ===== src/Sla/Inspections.antt =====
-- The check of inspections that an engineer owes, `checkInspectionOverdue` of
-- services/scheduler/index.ts. Times are milliseconds; the engineer of a road is a parameter, as is
-- UPPER of the database. What the check asks for is kept: whether a notification arrives is not
-- known to it.
pub mod Laws
mod Tests
use roadwatch.Prelude.{
  ℕ, ◌+◌, ◌*◌, not, ◌&&◌, ◌||◌, Option, none, some, Bool, true, false, List, [], ◌∷◌, ◌++◌,
  if◌then◌else◌,
}
use roadwatch.Prelude.Int.{ℤ, pos, eq_ℤ}
use roadwatch.Prelude.Text.{Text, codes}
use roadwatch.Escalation.{text_eq, is_empty}
use roadwatch.Sla.{
  Complaint, Notice, Charge, sla_warning, engineer, coalesce, find_complaint, is_past,
}
use roadwatch.Sla.Check.{text_or}

-- A row of `complaint_assignments`.
pub record Assignment : Type 0 where
  pub complaint_id : Text
  pub inspector_id : Option Text
  pub completed_at : Option ℕ
  pub inspection_completed_at : Option ℕ
  pub inspection_due_at : Option ℕ
  pub inspection_overdue_notified : Bool

pub record Db : Type 0 where
  pub assignments : List Assignment
  pub notices : List Notice
  pub charges : List Charge

-- A row that the UPDATE returns.
pub record OverdueRow : Type 0 where
  pub assignment : Assignment
  pub complaint : Complaint

abbrev pub grace : ℕ
grace = 24 * 60 * 60 * 1000

-- `COALESCE(inspection_due_at, completed_at + interval '24 hours') < now`, for what was completed.
abbrev pub is_late : ℕ → Assignment → Option ℕ → Bool
is_late now a none = false
is_late now a (some completed) =
    is_past now (coalesce a.inspection_due_at (some (completed + grace)))

abbrev pub is_none {ℓ} : {A : Type ℓ} → Option A → Bool
is_none none = true
is_none (some a) = false

abbrev pub penalty : ℤ → Assignment → Option Text → List Charge
penalty delta a none = []
penalty delta a (some who) =
    if is_empty who || eq_ℤ delta (pos 0)
    then []
    else record { charged = engineer; who = who; delta = delta; ref_id = a.complaint_id } ∷ []

module _ (upper : Text → Text) (engineer_of_road : Option Text → Option Text) where
  -- `UPPER(status) IN ('RESOLUTION_SUBMITTED', 'IN_PROGRESS', 'ESCALATED')`
  abbrev pub is_under_way : Text → Bool
  is_under_way status =
      text_eq (upper status) (codes "RESOLUTION_SUBMITTED")
      || text_eq (upper status) (codes "IN_PROGRESS")
      || text_eq (upper status) (codes "ESCALATED")

  abbrev pub under_way : Option Complaint → Option Complaint
  under_way none = none
  under_way (some c) = if is_under_way c.status then some c else none

  -- The complaint of a row that the WHERE accepts.
  unfoldable pub overdue : ℕ → List Complaint → Assignment → Option Complaint
  overdue now complaints a =
      if is_none a.inspection_completed_at
        && not a.inspection_overdue_notified
        && is_late now a a.completed_at
      then under_way (find_complaint a.complaint_id complaints)
      else none

  abbrev pub mark : Assignment → Option Complaint → Assignment
  mark a none = a
  mark a (some c) = record a { inspection_overdue_notified = true }

  abbrev pub overdue_row : Assignment → Option Complaint → List OverdueRow → List OverdueRow
  overdue_row a none rows = rows
  overdue_row a (some c) rows = record { assignment = a; complaint = c } ∷ rows

  -- UPDATE … SET inspection_overdue_notified = true, and its RETURNING.
  unfoldable pub mark_overdue : ℕ → List Complaint → List Assignment → List Assignment
  mark_overdue now complaints [] = []
  mark_overdue now complaints (a ∷ rows) =
      mark a (overdue now complaints a) ∷ mark_overdue now complaints rows

  unfoldable pub returning_overdue : ℕ → List Complaint → List Assignment → List OverdueRow
  returning_overdue now complaints [] = []
  returning_overdue now complaints (a ∷ rows) =
      overdue_row a (overdue now complaints a) (returning_overdue now complaints rows)

  abbrev pub inspector_of : OverdueRow → Option Text
  inspector_of row = coalesce row.assignment.inspector_id (engineer_of_road row.complaint.road_id)

  abbrev pub overdue_notice : OverdueRow → Notice
  overdue_notice row = record {
    kind = sla_warning;
    complaint_id = row.assignment.complaint_id;
    district = text_or (codes "UNKNOWN") row.complaint.district;
    zone = row.complaint.zone;
  }

  unfoldable pub report_overdue : ℤ → List OverdueRow → Db → Db
  report_overdue delta [] db = db
  report_overdue delta (row ∷ rows) db = report_overdue delta rows (record db {
    notices = db.notices ++ overdue_notice row ∷ [];
    charges = db.charges ++ penalty delta row.assignment (inspector_of row);
  })

  -- `runs` is that no holiday is kept, that the table is there and that the UPDATE succeeds.
  unfoldable pub check_inspection_overdue : Bool → ℤ → ℕ → List Complaint → Db → Db
  check_inspection_overdue runs delta now complaints db =
      if runs
      then report_overdue delta (returning_overdue now complaints db.assignments)
          (record db { assignments = mark_overdue now complaints db.assignments })
      else db
