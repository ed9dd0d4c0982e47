-- ===== src/Sla/Laws.antt =====
-- What the nightly check of services/scheduler/index.ts keeps when any of its statements fails.
use roadwatch.Prelude.{
  ℕ, ◌≡◌, ◌⊎◌, inl, inr, refl, sym, subst, ◌∙◌, Option, none, some, Bool, true, false, List, [],
  ◌∷◌, ◌++◌, All, Bool-cases, not, ◌||◌,
}
use roadwatch.Prelude.Text.{Text}
use roadwatch.Escalation.{text_eq, Move}
use roadwatch.Escalation.Equality.{text_eq_sound}
use roadwatch.Sla.{
  SlaRow, Complaint, Joined, BreachRow, StatusEvent, Db, due, mark_breached, returning, breach,
}
use roadwatch.Sla.Effects.{
  Effect, process_row-Effect, process_row-outbox, then_do-true, then_do-false,
}
use roadwatch.Sla.Check.{
  event_of, move_of, Faults, Config, Outcome, escalated_status, set_notified, process_row,
  process_rows, check_sla_breaches,
}

-- The event of an escalation of the complaint is in the outbox.
abbrev pub Announced : Text → List StatusEvent → Type 0
Announced id [] = ⊥
Announced id (e ∷ es) = ((e.complaint_id ≡ id) × (e.to_status ≡ escalated_status)) ⊎ Announced id es

pub Announced-append :
    (id : Text) (es fs : List StatusEvent) → Announced id es → Announced id (es ++ fs)
Announced-append id [] fs h = elim h [ ]
Announced-append id (e ∷ es) fs (inl h) = inl h
Announced-append id (e ∷ es) fs (inr h) = inr (Announced-append id es fs h)

pub Announced-last :
    (id : Text) (es : List StatusEvent) (e : StatusEvent)
    → (e.complaint_id ≡ id) × (e.to_status ≡ escalated_status)
    → Announced id (es ++ e ∷ [])
Announced-last id [] e h = inl h
Announced-last id (f ∷ es) e h = inr (Announced-last id es e h)

-- Every row that is marked as notified has its event.
abbrev AllAnnouncedIn : List SlaRow → List StatusEvent → Type 0
AllAnnouncedIn rows es = All (λ st. st.breach_notified ≡ true → Announced st.complaint_id es) rows

All-set_notified :
    (id : Text) (rows : List SlaRow) (es : List StatusEvent)
    → Announced id es
    → AllAnnouncedIn rows es
    → All (λ st. st.breach_notified ≡ true → Announced st.complaint_id es) (set_notified id rows)
unfolding set_notified
All-set_notified id [] es a h = tt
All-set_notified id (st ∷ rows) es a h = elim (Bool-cases (text_eq st.complaint_id id)) [
  | inl e ↦ rw e (
    (λ n. subst (λ i. Announced i es) (sym (text_eq_sound st.complaint_id id e)) a),
    All-set_notified id rows es a h.1,
  )
  | inr e ↦ rw e (h.0, All-set_notified id rows es a h.1)
]

All-put_event :
    (rows : List SlaRow) (es fs : List StatusEvent)
    → AllAnnouncedIn rows es
    → All (λ st. st.breach_notified ≡ true → Announced st.complaint_id (es ++ fs)) rows
All-put_event [] es fs h = tt
All-put_event (st ∷ rows) es fs h =
    (λ n. Announced-append st.complaint_id es fs (h.0 n), All-put_event rows es fs h.1)

abbrev pub AllAnnounced : Db → Type 0
AllAnnounced db = AllAnnouncedIn db.tracking db.outbox

mark_breached-AllAnnounced :
    (upper : Text → Text) (now : ℕ) (complaints : List Complaint) (rows : List SlaRow)
    (es : List StatusEvent)
    → AllAnnouncedIn rows es
    → AllAnnouncedIn (mark_breached upper now complaints rows) es
unfolding mark_breached
mark_breached-AllAnnounced upper now complaints [] es h = tt
mark_breached-AllAnnounced upper now complaints (st ∷ rows) es h = (
  kept (due upper now complaints st),
  mark_breached-AllAnnounced upper now complaints rows es h.1,
)
  where
    kept :
        (c : Option Complaint)
        → (breach upper st c).breach_notified ≡ true
        → Announced (breach upper st c).complaint_id es
    kept none = h.0
    kept (some c) = h.0

Effect-AllAnnounced :
    (row : BreachRow) (move : Option Move) (db : Db) (o : Outcome)
    → Effect row move db o
    → AllAnnounced db
    → AllAnnounced o.0
Effect-AllAnnounced row move db o (Effect.finished keyed go et ec eo) h =
    let event = event_of keyed row in
    let es = db.outbox ++ event ∷ [] in
    let there : Announced row.tracked.complaint_id es =
      Announced-last row.tracked.complaint_id db.outbox event (refl, refl) in
    rw (et, eo)
      (All-set_notified row.tracked.complaint_id db.tracking es there
        (All-put_event db.tracking db.outbox (event ∷ []) h))
Effect-AllAnnounced row move db o (Effect.halted stop et ec (inl eo)) h = rw (et, eo) h
Effect-AllAnnounced row move db o (Effect.halted stop et ec (inr (keyed, eo))) h =
    rw (et, eo) (All-put_event db.tracking db.outbox (event_of keyed row ∷ []) h)

module _ (upper to_upper_case : Text → Text) (joins : Text → Joined) (config : Config) where
  abbrev rounds : (Text → Faults) → List BreachRow → Db → Outcome
  rounds = process_rows upper to_upper_case joins true config

  process_rows-AllAnnounced :
      (faults : Text → Faults) (rows : List BreachRow) (db : Db)
      → AllAnnounced db
      → AllAnnounced (rounds faults rows db).0
  unfolding process_rows
  process_rows-AllAnnounced faults [] db h = h
  process_rows-AllAnnounced faults (row ∷ rows) db h =
      let f = faults row.tracked.complaint_id in
      let o = process_row upper to_upper_case joins true config f row db in
      let after =
        Effect-AllAnnounced row (move_of upper to_upper_case joins row) db o
          (process_row-Effect upper to_upper_case joins config f row db) h in
      elim (Bool-cases o.1) [
        | inl e ↦
            rw (then_do-true o (rounds faults rows) e)
              (process_rows-AllAnnounced faults rows o.0 after)
        | inr e ↦ rw (then_do-false o (rounds faults rows) e) after
      ]

  process_rows-outbox :
      (faults : Text → Faults) (rows : List BreachRow) (db : Db)
      → (process_rows upper to_upper_case joins false config faults rows db).0.outbox ≡ db.outbox
  unfolding process_rows
  process_rows-outbox faults [] db = refl
  process_rows-outbox faults (row ∷ rows) db =
      let f = faults row.tracked.complaint_id in
      let o = process_row upper to_upper_case joins false config f row db in
      let rest = process_rows upper to_upper_case joins false config faults rows in
      let kept = process_row-outbox upper to_upper_case joins config f row db in
      elim (Bool-cases o.1) [
        | inl e ↦ rw (then_do-true o rest e) (process_rows-outbox faults rows o.0 ∙ kept)
        | inr e ↦ rw (then_do-false o rest e) kept
      ]

  -- What a check keeps with the outbox table, and what it does to the events without it.
  abbrev pub Kept : Bool → Db → Db → Type 0
  Kept true db after = AllAnnounced after
  Kept false db after = after.outbox ≡ db.outbox

  -- If every row of the tracking that is marked as notified has the event of its escalation in the
  -- outbox, then after a check in which any statements fail this is so again where the table of the
  -- outbox is there; where it is not, the check adds no event, whatever rows it marks.
  pub check_sla_breaches-AllAnnounced :
      (holiday ready updated has_outbox : Bool) (faults : Text → Faults) (now : ℕ) (db : Db)
      → AllAnnounced db
      → Kept has_outbox db (
          check_sla_breaches upper to_upper_case joins holiday ready updated has_outbox config
            faults now db)
  unfolding check_sla_breaches
  check_sla_breaches-AllAnnounced holiday ready updated true faults now db h =
      elim (Bool-cases (holiday || not ready || not updated)) [
        | inl e ↦ rw e h
        | inr e ↦ rw e (
            process_rows-AllAnnounced faults (returning upper joins now db.complaints db.tracking)
              (record db { tracking = mark_breached upper now db.complaints db.tracking })
              (mark_breached-AllAnnounced upper now db.complaints db.tracking db.outbox h))
      ]
  check_sla_breaches-AllAnnounced holiday ready updated false faults now db h =
      elim (Bool-cases (holiday || not ready || not updated)) [
        | inl e ↦ rw e refl
        | inr e ↦ rw e (
            process_rows-outbox faults (returning upper joins now db.complaints db.tracking)
              (record db { tracking = mark_breached upper now db.complaints db.tracking }))
      ]
