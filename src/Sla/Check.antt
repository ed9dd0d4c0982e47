-- ===== src/Sla/Check.antt =====
-- One row of the nightly check and the loop over the rows, services/scheduler/index.ts. A statement
-- that throws ends the whole check; what is caught on the way goes on.
use roadwatch.Prelude.{
  ℕ, ◌+◌, not, ◌||◌, Option, none, some, Bool, true, false, List, [], ◌∷◌, ◌++◌, if◌then◌else◌,
}
use roadwatch.Prelude.Int.{ℤ, pos, eq_ℤ}
use roadwatch.Prelude.Text.{Text, codes}
use roadwatch.Escalation.{
  text_eq, is_empty, Move, next_in_linear_hierarchy, hierarchy_for_road_type,
}
use roadwatch.Sla.{
  SlaRow, Escalated, Complaint, Joined, BreachRow, Kind, sla_warning, escalation, sla_breached,
  escalation_due, LogType, StatusEvent, Charged, contractor, engineer, organisation, Db, coalesce,
  mark_breached, returning,
}

-- Which of the statements for one row succeed: moving the complaint, the two log lines, the insert
-- of the event and its second attempt, the connection for the contractor's karma, and the mark.
pub record Faults : Type 0 where
  pub moved : Bool
  pub logged_breach : Bool
  pub logged_due : Bool
  pub enqueued : Bool
  pub enqueued_again : Bool
  pub connected : Bool
  pub marked : Bool

pub record Config : Type 0 where
  pub karma_sla_contractor : ℤ
  pub karma_sla_engineer : ℤ
  pub org_karma_base_penalty : ℤ

-- The state, and whether the code goes on.
abbrev pub Outcome : Type 0
Outcome = Db × Bool

infixl 5 ◌then_do◌
abbrev pub ◌then_do◌ : Outcome → (Db → Outcome) → Outcome
(db, true) then_do k = k db
(db, false) then_do k = (db, false)

abbrev pub text_or : Text → Option Text → Text
text_or other none = other
text_or other (some t) = t

abbrev pub to_authority : Option Move → Option Text → Option Text
to_authority none authority = authority
to_authority (some m) authority = some m.to_authority_id

abbrev pub from_authority : Option Move → Option Text → Option Text
from_authority none authority = authority
from_authority (some m) authority = some m.from_authority_id

-- `Number(row.metadata?.escalationLevel ?? 0) + 1`
abbrev pub level_after : Option Move → Option Escalated → ℕ
level_after none none = 1
level_after none (some e) = e.escalation_level + 1
level_after (some m) metadata = m.tier

abbrev pub notify : Kind → BreachRow → Db → Db
notify kind row db = record db {
  notices =
      db.notices
      ++ record {
        kind = kind;
        complaint_id = row.tracked.complaint_id;
        district = text_or (codes "UNKNOWN") row.complaint.district;
        zone = row.complaint.zone;
      }
        ∷ [];
}

abbrev pub escalated_status : Text
escalated_status = codes "ESCALATED"

abbrev pub escalate_to : Option Move → BreachRow → Complaint → Complaint
escalate_to move row c =
    let next = to_authority move row.complaint.authority_id in
    record c {
      status = escalated_status;
      authority_id = coalesce next c.authority_id;
      metadata = some (record {
        escalation_level = level_after move row.complaint.metadata;
        from_authority_id = from_authority move row.complaint.authority_id;
        to_authority_id = next;
      });
    }

-- `UPDATE complaints … WHERE id = $1`
unfoldable pub move_complaints : Option Move → BreachRow → List Complaint → List Complaint
move_complaints move row [] = []
move_complaints move row (c ∷ cs) =
    (if text_eq c.id row.tracked.complaint_id then escalate_to move row c else c)
    ∷ move_complaints move row cs

abbrev pub move_complaint : Bool → Option Move → BreachRow → Db → Outcome
move_complaint ok move row db =
    if ok
    then (record db { complaints = move_complaints move row db.complaints }, true)
    else (db, false)

abbrev pub log : Bool → LogType → BreachRow → Db → Db
log ok type row db =
    if ok
    then record db { event_logs = db.event_logs ++ (type, row.tracked.complaint_id) ∷ [] }
    else db

abbrev pub event_of : Bool → BreachRow → StatusEvent
event_of keyed row = record {
  complaint_id = row.tracked.complaint_id;
  from_status = row.complaint.status;
  to_status = escalated_status;
  keyed = keyed;
}

abbrev pub put_event : Bool → BreachRow → Db → Db
put_event keyed row db = record db { outbox = db.outbox ++ event_of keyed row ∷ [] }

-- `enqueueStatusChangedOutbox`: whether the table is there, and whether the insert succeeds and the
-- second one without the optional columns.
unfoldable pub enqueue_status_changed_outbox :
    (has_outbox enqueued enqueued_again : Bool) → BreachRow → Db → Outcome
enqueue_status_changed_outbox has_outbox enqueued enqueued_again row db =
    if not has_outbox
    then (db, true)
    else if enqueued
    then (put_event true row db, true)
    else if enqueued_again
    then (put_event false row db, true)
    else (db, false)

-- `if (id) await apply…Karma(id, delta, …)`, which does nothing for a delta of 0; `reached` is
-- whether the connection is there that the contractor's change asks for first.
abbrev pub charge : Bool → Charged → ℤ → Text → Option Text → Db → Outcome
charge reached charged delta ref_id none db = (db, true)
charge reached charged delta ref_id (some who) db =
    if is_empty who
    then (db, true)
    else if eq_ℤ delta (pos 0)
    then (db, true)
    else if not reached
    then (db, false)
    else (
      record db {
        charges =
            db.charges
            ++ record { charged = charged; who = who; delta = delta; ref_id = ref_id } ∷ [];
      },
      true,
    )

-- `COALESCE(ca.contractor_id, ra.contractor_id, st.contractor_id) ?? contractor_id`
abbrev pub contractor_of : BreachRow → Option Text
contractor_of row = coalesce row.joined.assigned_contractor_id row.tracked.contractor_id

abbrev pub engineer_of : BreachRow → Option Text
engineer_of row = coalesce row.joined.inspector_id row.joined.engineer_user_id

abbrev pub organisation_of : BreachRow → Option Text
organisation_of row = coalesce row.complaint.authority_org row.complaint.authority_id

unfoldable pub apply_breach_karma : Config → Faults → BreachRow → Db → Outcome
apply_breach_karma config f row db =
    let ref_id = row.tracked.complaint_id in
    charge f.connected contractor config.karma_sla_contractor ref_id (contractor_of row) db
    then_do charge true engineer config.karma_sla_engineer ref_id (engineer_of row)
    then_do charge true organisation config.org_karma_base_penalty ref_id (organisation_of row)

-- `UPDATE sla_tracking SET breach_notified = true, breached = true … WHERE complaint_id = $1`
unfoldable pub set_notified : Text → List SlaRow → List SlaRow
set_notified id [] = []
set_notified id (st ∷ rows) =
    (if text_eq st.complaint_id id
      then record st { breach_notified = true; breached = true }
      else st)
    ∷ set_notified id rows

abbrev pub mark_notified : Bool → BreachRow → Db → Outcome
mark_notified ok row db =
    if ok
    then (record db { tracking = set_notified row.tracked.complaint_id db.tracking }, true)
    else (db, false)

module _ (upper to_upper_case : Text → Text) (joins : Text → Joined) where
  -- `hierarchyForRoadType(row.road_type ?? row.road_id)`
  abbrev pub hierarchy_of : BreachRow → List Text
  hierarchy_of row =
      hierarchy_for_road_type to_upper_case
        (text_or [] (coalesce row.joined.road_type row.complaint.road_id))

  abbrev pub move_of : BreachRow → Option Move
  move_of row = next_in_linear_hierarchy (text_or [] row.complaint.authority_id) (hierarchy_of row)

  unfoldable pub process_row : Bool → Config → Faults → BreachRow → Db → Outcome
  process_row has_outbox config f row db =
      move_complaint f.moved (move_of row) row (notify sla_warning row db)
      then_do (λ db'. enqueue_status_changed_outbox has_outbox f.enqueued f.enqueued_again row (
          log f.logged_due escalation_due row
            (log f.logged_breach sla_breached row (notify escalation row db'))))
      then_do apply_breach_karma config f row
      then_do mark_notified f.marked row

  unfoldable pub process_rows : Bool → Config → (Text → Faults) → List BreachRow → Db → Outcome
  process_rows has_outbox config faults [] db = (db, true)
  process_rows has_outbox config faults (row ∷ rows) db =
      process_row has_outbox config (faults row.tracked.complaint_id) row db
      then_do process_rows has_outbox config faults rows

  -- The check at a time: `holiday` is the skip of a holiday, `ready` that the tables are there,
  -- and `updated` that the first statement succeeds.
  unfoldable pub check_sla_breaches :
      (holiday ready updated has_outbox : Bool) → Config → (Text → Faults) → ℕ → Db → Db
  check_sla_breaches holiday ready updated has_outbox config faults now db =
      if holiday || not ready || not updated
      then db
      else (process_rows has_outbox config faults
          (returning upper joins now db.complaints db.tracking)
          (record db { tracking = mark_breached upper now db.complaints db.tracking })).0
