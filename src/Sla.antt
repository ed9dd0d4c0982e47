-- ===== src/Sla.antt =====
-- The nightly check of missed deadlines, `checkSlaBreaches` of services/scheduler/index.ts, with
-- what it calls, and the tracking rows of `ensureSlaTracking` in
-- apps/gateway-api/src/services/complaint-lifecycle.ts. The tables are lists; UPPER of the database
-- and `toUpperCase` are parameters, and so are the tables that the check only joins.
pub mod Check
pub mod Effects
pub mod Inspections
pub mod Laws
pub mod Once
pub mod Quiet
pub mod Settled
pub mod Tracking
mod Tests
use Prim.Native.String.{String}
use roadwatch.Prelude.{
  ℕ, ◌+◌, ltb, not, ◌&&◌, ◌||◌, Option, none, some, Bool, true, false, List, [], ◌∷◌, ◌++◌,
  if◌then◌else◌,
}
use roadwatch.Prelude.Int.{ℤ, pos, eq_ℤ}
use roadwatch.Prelude.Text.{Text, codes}
use roadwatch.Escalation.{
  text_eq, is_empty, Move, next_in_linear_hierarchy, hierarchy_for_road_type,
}

-- A row of `sla_tracking`.
pub record SlaRow : Type 0 where
  pub complaint_id : Text
  pub contractor_id : Option Text
  pub breached : Bool
  pub breach_notified : Bool
  pub sla_deadline : Option ℕ

-- What a breach leaves in a complaint's metadata.
pub record Escalated : Type 0 where
  pub escalation_level : ℕ
  pub from_authority_id : Option Text
  pub to_authority_id : Option Text

pub record Complaint : Type 0 where
  pub id : Text
  pub status : Text
  pub district : Option Text
  pub zone : Option Text
  pub authority_id : Option Text
  pub authority_org : Option Text
  pub road_id : Option Text
  pub metadata : Option Escalated

-- The row of the catalogue and of the assignments that the joins find for a complaint.
pub record Joined : Type 0 where
  pub road_type : Option Text
  pub engineer_user_id : Option Text
  pub inspector_id : Option Text
  pub assigned_contractor_id : Option Text

pub record BreachRow : Type 0 where
  pub tracked : SlaRow
  pub complaint : Complaint
  pub joined : Joined

pub data Kind : Type 0 where
  sla_warning escalation : Kind

pub record Notice : Type 0 where
  pub kind : Kind
  pub complaint_id : Text
  pub district : Text
  pub zone : Option Text

pub data LogType : Type 0 where
  sla_breached escalation_due : LogType

-- An event of `kafka_event_outbox`; the second attempt leaves the key out.
pub record StatusEvent : Type 0 where
  pub complaint_id : Text
  pub from_status : Text
  pub to_status : Text
  pub keyed : Bool

pub data Charged : Type 0 where
  contractor engineer organisation : Charged

-- A karma change that was asked for.
pub record Charge : Type 0 where
  pub charged : Charged
  pub who : Text
  pub delta : ℤ
  pub ref_id : Text

pub record Db : Type 0 where
  pub tracking : List SlaRow
  pub complaints : List Complaint
  pub outbox : List StatusEvent
  pub event_logs : List (LogType × Text)
  pub notices : List Notice
  pub charges : List Charge

-- `INSERT … ON CONFLICT (complaint_id) DO UPDATE` of `ensureSlaTracking`.
abbrev pub coalesce {ℓ} : {A : Type ℓ} → Option A → Option A → Option A
coalesce none b = b
coalesce (some a) b = some a

unfoldable pub ensure_sla_tracking : Text → Option Text → ℕ → List SlaRow → List SlaRow
ensure_sla_tracking complaint_id contractor_id deadline [] =
    record {
      complaint_id = complaint_id;
      contractor_id = contractor_id;
      breached = false;
      breach_notified = false;
      sla_deadline = some deadline;
    }
    ∷ []
ensure_sla_tracking complaint_id contractor_id deadline (st ∷ rows) =
    let rest = ensure_sla_tracking complaint_id contractor_id deadline rows in
    if text_eq st.complaint_id complaint_id
    then record st {
      contractor_id = coalesce contractor_id st.contractor_id;
      sla_deadline = coalesce st.sla_deadline (some deadline);
    }
      ∷ rows
    else st ∷ rest

-- `WHERE id = $1`
abbrev pub find_complaint : Text → List Complaint → Option Complaint
find_complaint id [] = none
find_complaint id (c ∷ cs) =
    let rest = find_complaint id cs in if text_eq c.id id then some c else rest

abbrev pub is_past : ℕ → Option ℕ → Bool
is_past now none = false
is_past now (some deadline) = ltb deadline now

module _ (upper : Text → Text) where
  -- `UPPER(status) NOT IN ('RESOLVED', 'CLOSED', 'DISMISSED')`
  abbrev pub is_open : Text → Bool
  is_open status = not (
      text_eq (upper status) (codes "RESOLVED")
      || text_eq (upper status) (codes "CLOSED")
      || text_eq (upper status) (codes "DISMISSED"))

  abbrev pub open_of : Option Complaint → Option Complaint
  open_of none = none
  open_of (some c) = if is_open c.status then some c else none

  -- The complaint of a row that the WHERE accepts.
  unfoldable pub due : ℕ → List Complaint → SlaRow → Option Complaint
  due now complaints st =
      if not st.breach_notified && is_past now st.sla_deadline
      then open_of (find_complaint st.complaint_id complaints)
      else none

  abbrev pub breach : SlaRow → Option Complaint → SlaRow
  breach st none = st
  breach st (some c) = record st { breached = true }

  abbrev pub breach_row :
      (Text → Joined) → SlaRow → Option Complaint → List BreachRow → List BreachRow
  breach_row joins st none rows = rows
  breach_row joins st (some c) rows =
      record { tracked = st; complaint = c; joined = joins c.id } ∷ rows

  -- UPDATE … SET breached = true, and its RETURNING.
  unfoldable pub mark_breached : ℕ → List Complaint → List SlaRow → List SlaRow
  mark_breached now complaints [] = []
  mark_breached now complaints (st ∷ rows) =
      breach st (due now complaints st) ∷ mark_breached now complaints rows

  unfoldable pub returning : (Text → Joined) → ℕ → List Complaint → List SlaRow → List BreachRow
  returning joins now complaints [] = []
  returning joins now complaints (st ∷ rows) =
      breach_row joins st (due now complaints st) (returning joins now complaints rows)
