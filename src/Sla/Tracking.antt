-- ===== src/Sla/Tracking.antt =====
-- Tracking a complaint that is tracked, apps/gateway-api/src/services/complaint-lifecycle.ts.
use roadwatch.Prelude.{
  ℕ, ◌≡◌, inl, inr, ap, sym, ◌∙◌, Option, none, some, Bool, List, [], ◌∷◌, map, Bool-cases,
  if◌then◌else◌,
}
use roadwatch.Prelude.Text.{Text}
use roadwatch.Escalation.{text_eq}
use roadwatch.Sla.{SlaRow, ensure_sla_tracking, coalesce}

abbrev pub tracking_of : Text → List SlaRow → Option SlaRow
tracking_of id [] = none
tracking_of id (st ∷ rows) =
    let rest = tracking_of id rows in if text_eq st.complaint_id id then some st else rest

-- What of a row the nightly check goes by.
abbrev pub watched : SlaRow → Text × Bool × Bool × Option ℕ
watched st = (st.complaint_id, st.breached, st.breach_notified, st.sla_deadline)

-- Where a complaint is tracked with a deadline, tracking it again with any deadline leaves the
-- deadline and the marks of every row as they are.
pub ensure_sla_tracking-watched :
    (id : Text) (contractor_id : Option Text) (deadline set_before : ℕ) (rows : List SlaRow)
    (st : SlaRow)
    → tracking_of id rows ≡ some st
    → st.sla_deadline ≡ some set_before
    → map watched (ensure_sla_tracking id contractor_id deadline rows) ≡ map watched rows
unfolding ensure_sla_tracking
ensure_sla_tracking-watched id contractor_id deadline set_before [] st h e = cc
ensure_sla_tracking-watched id contractor_id deadline set_before (s ∷ rows) st h e =
    elim (Bool-cases (text_eq s.complaint_id id)) [
      | inl same ↦
          let here : some s ≡ some st = rw same at h in
          let row : s ≡ st = cc in
          let mine : s.sla_deadline ≡ some set_before =
            ap (λ (r : SlaRow). r.sla_deadline) row ∙ e in
          rw same λ i.
            (
              s.complaint_id,
              s.breached,
              s.breach_notified,
              (ap (λ d. coalesce d (some deadline)) mine ∙ sym mine) i,
            )
            ∷ map watched rows
      | inr other ↦ rw other (
          ap (◌∷◌ (watched s)) (
            ensure_sla_tracking-watched id contractor_id deadline set_before rows st (rw other at h)
              e))
    ]
