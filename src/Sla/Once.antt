-- ===== src/Sla/Once.antt =====
-- A complaint that the nightly check of services/scheduler/index.ts has dealt with is left alone.
use roadwatch.Prelude.{
  ℕ, ◌≡◌, ◌≢◌, inl, inr, refl, sym, ap, ◌∙◌, Option, none, some, Bool, true, false, List, [], ◌∷◌,
  ◌++◌, if◌then◌else◌, All, Bool-cases, not, ◌||◌,
}
use roadwatch.Prelude.Text.{Text}
use roadwatch.Escalation.{text_eq, Move}
use roadwatch.Escalation.Equality.{text_eq_sound, text_eq_ne}
use roadwatch.Sla.{
  SlaRow, Complaint, Joined, BreachRow, StatusEvent, Db, due, mark_breached, returning, breach,
  breach_row, find_complaint,
}
use roadwatch.Sla.Check.{
  Faults, Config, Outcome, move_complaints, set_notified, process_row, process_rows,
  check_sla_breaches, event_of, move_of, escalate_to,
}
use roadwatch.Sla.Effects.{Effect, process_row-Effect, then_do-true, then_do-false}

abbrev pub events_of : Text → List StatusEvent → List StatusEvent
events_of id [] = []
events_of id (e ∷ es) =
    let rest = events_of id es in if text_eq e.complaint_id id then e ∷ rest else rest

events_of-append :
    (id : Text) (es : List StatusEvent) (e : StatusEvent)
    → e.complaint_id ≢ id
    → events_of id (es ++ e ∷ []) ≡ events_of id es
events_of-append id [] e ne = rw (text_eq_ne id e.complaint_id (λ h. ne (sym h))) refl
events_of-append id (f ∷ es) e ne =
    ap (λ rest. if text_eq f.complaint_id id then f ∷ rest else rest) (events_of-append id es e ne)

-- Every row that tracks the complaint is marked as notified.
abbrev pub IsNotified : Text → List SlaRow → Type 0
IsNotified id rows = All (λ st. st.complaint_id ≡ id → st.breach_notified ≡ true) rows

set_notified-IsNotified :
    (id other : Text) (rows : List SlaRow)
    → IsNotified id rows
    → IsNotified id (set_notified other rows)
unfolding set_notified
set_notified-IsNotified id other [] h = tt
set_notified-IsNotified id other (st ∷ rows) h =
    (one (text_eq st.complaint_id other), set_notified-IsNotified id other rows h.1)
  where
    one :
        (b : Bool)
        → (if b then record st { breach_notified = true; breached = true } else st).complaint_id
          ≡ id
        → (if b then record st { breach_notified = true; breached = true } else st).breach_notified
          ≡ true
    one true e = refl
    one false e = h.0 e

module _ (upper : Text → Text) (now : ℕ) (complaints : List Complaint) where
  mark_breached-IsNotified :
      (id : Text) (rows : List SlaRow)
      → IsNotified id rows
      → IsNotified id (mark_breached upper now complaints rows)
  unfolding mark_breached
  mark_breached-IsNotified id [] h = tt
  mark_breached-IsNotified id (st ∷ rows) h =
      (one (due upper now complaints st), mark_breached-IsNotified id rows h.1)
    where
      one :
          (c : Option Complaint)
          → (breach upper st c).complaint_id ≡ id
          → (breach upper st c).breach_notified ≡ true
      one none = h.0
      one (some c) = h.0

  pub due-notified : (st : SlaRow) → st.breach_notified ≡ true → due upper now complaints st ≡ none
  unfolding due
  due-notified st e = simp e

  returning-others :
      (joins : Text → Joined) (id : Text) (rows : List SlaRow)
      → IsNotified id rows
      → All
          (λ (r : BreachRow). r.tracked.complaint_id ≢ id)
          (returning upper joins now complaints rows)
  unfolding returning
  returning-others joins id [] h = tt
  returning-others joins id (st ∷ rows) h =
      one (due upper now complaints st) (returning upper joins now complaints rows)
        (λ e. due-notified st (h.0 e)) (returning-others joins id rows h.1)
    where
      one :
          (c : Option Complaint) (rest : List BreachRow)
          → (st.complaint_id ≡ id → c ≡ none)
          → All (λ (r : BreachRow). r.tracked.complaint_id ≢ id) rest
          → All (λ (r : BreachRow). r.tracked.complaint_id ≢ id) (breach_row upper joins st c rest)
      one none rest skip others = others
      one (some c) rest skip others = ((λ e. absurd (clash (skip e))), others)
        where
          clash : some c ≡ none → ⊥
          clash e = cc

pub find_complaint-move_complaints :
    (id : Text) (move : Option Move) (row : BreachRow) (cs : List Complaint)
    → row.tracked.complaint_id ≢ id
    → find_complaint id (move_complaints move row cs) ≡ find_complaint id cs
unfolding move_complaints
find_complaint-move_complaints id move row [] ne = refl
find_complaint-move_complaints id move row (c ∷ cs) ne =
    one (text_eq c.id row.tracked.complaint_id) (text_eq_sound c.id row.tracked.complaint_id)
      (find_complaint-move_complaints id move row cs ne)
  where
    one :
        (b : Bool)
        → (b ≡ true → c.id ≡ row.tracked.complaint_id)
        → find_complaint id (move_complaints move row cs) ≡ find_complaint id cs
        → find_complaint id
            ((if b then escalate_to move row c else c) ∷ move_complaints move row cs)
          ≡ find_complaint id (c ∷ cs)
    one false other ih = ap (λ rest. if text_eq c.id id then some c else rest) ih
    one true same ih = rw (text_eq_ne id c.id (λ e. ne (sym (same refl) ∙ sym e))) ih

-- What of the tables concerns one complaint.
abbrev pub SameFor : Text → Db → Db → Type 0
SameFor id d e =
    (find_complaint id e.complaints ≡ find_complaint id d.complaints)
    × (events_of id e.outbox ≡ events_of id d.outbox)

module _ (id : Text) where
  Effect-SameFor :
      (row : BreachRow) (move : Option Move) (db : Db) (o : Outcome)
      → Effect row move db o
      → row.tracked.complaint_id ≢ id
      → SameFor id db o.0
  Effect-SameFor row move db o (Effect.finished keyed go et ec eo) ne = (
    ap (find_complaint id) ec ∙ find_complaint-move_complaints id move row db.complaints ne,
    ap (events_of id) eo ∙ events_of-append id db.outbox (event_of keyed row) ne,
  )
  Effect-SameFor row move db o (Effect.halted stop et ec eo) ne = (
    elim ec [
      | inl same ↦ ap (find_complaint id) same
      | inr moved ↦
          ap (find_complaint id) moved ∙ find_complaint-move_complaints id move row db.complaints ne
    ],
    elim eo [
      | inl same ↦ ap (events_of id) same
      | inr sent ↦ ap (events_of id) sent.1 ∙ events_of-append id db.outbox (event_of sent.0 row) ne
    ],
  )

  Effect-IsNotified :
      (row : BreachRow) (move : Option Move) (db : Db) (o : Outcome)
      → Effect row move db o
      → IsNotified id db.tracking
      → IsNotified id o.0.tracking
  Effect-IsNotified row move db o (Effect.finished keyed go et ec eo) h =
      rw et (set_notified-IsNotified id row.tracked.complaint_id db.tracking h)
  Effect-IsNotified row move db o (Effect.halted stop et ec eo) h = rw et h

  module _ (upper to_upper_case : Text → Text) (joins : Text → Joined) (config : Config) where
    abbrev rounds : (Text → Faults) → List BreachRow → Db → Outcome
    rounds = process_rows upper to_upper_case joins true config

    process_rows-SameFor :
        (faults : Text → Faults) (rows : List BreachRow) (db : Db)
        → All (λ (r : BreachRow). r.tracked.complaint_id ≢ id) rows
        → IsNotified id db.tracking
        → SameFor id db (rounds faults rows db).0 × IsNotified id (rounds faults rows db).0.tracking
    unfolding process_rows
    process_rows-SameFor faults [] db others h = ((refl, refl), h)
    process_rows-SameFor faults (row ∷ rows) db others h =
        let move = move_of upper to_upper_case joins row in
        let f = faults row.tracked.complaint_id in
        let o = process_row upper to_upper_case joins true config f row db in
        let effect = process_row-Effect upper to_upper_case joins config f row db in
        let (one_complaint, one_event) = Effect-SameFor row move db o effect others.0 in
        let marked = Effect-IsNotified row move db o effect h in
        elim (Bool-cases o.1) [
          | inl e ↦ rw (then_do-true o (rounds faults rows) e) (
              let ((same, events), after) = process_rows-SameFor faults rows o.0 others.1 marked in
              ((same ∙ one_complaint, events ∙ one_event), after))
          | inr e ↦ rw (then_do-false o (rounds faults rows) e) ((one_complaint, one_event), marked)
        ]

    pub check_sla_breaches-SameFor :
        (holiday ready updated : Bool) (faults : Text → Faults) (now : ℕ) (db : Db)
        → IsNotified id db.tracking
        → let after =
            check_sla_breaches upper to_upper_case joins holiday ready updated true config faults
              now db in
          SameFor id db after × IsNotified id after.tracking
    unfolding check_sla_breaches
    check_sla_breaches-SameFor holiday ready updated faults now db h =
        elim (Bool-cases (holiday || not ready || not updated)) [
          | inl e ↦ rw e ((refl, refl), h)
          | inr e ↦ rw e (
              process_rows-SameFor faults (returning upper joins now db.complaints db.tracking)
                (record db { tracking = mark_breached upper now db.complaints db.tracking })
                (returning-others upper now db.complaints joins id db.tracking h)
                (mark_breached-IsNotified upper now db.complaints id db.tracking h))
        ]

-- One run of the check: its time, what fails, and whether it is skipped.
pub record Night : Type 0 where
  pub holiday : Bool
  pub ready : Bool
  pub updated : Bool
  pub faults : Text → Faults
  pub now : ℕ

module _ (upper to_upper_case : Text → Text) (joins : Text → Joined) (config : Config) where
  abbrev pub nights : List Night → Db → Db
  nights [] db = db
  nights (n ∷ ns) db = nights ns (
      check_sla_breaches upper to_upper_case joins n.holiday n.ready n.updated true config n.faults
        n.now db)

  -- Where the outbox is there and every row that tracks a complaint is marked as notified: any number
  -- of checks, whichever of their statements fail, leave the complaint and its events in the outbox
  -- as they are, so that it is not escalated again.
  pub nights-SameFor :
      (ns : List Night) (id : Text) (db : Db)
      → IsNotified id db.tracking
      → (find_complaint id (nights ns db).complaints ≡ find_complaint id db.complaints)
        × (events_of id (nights ns db).outbox ≡ events_of id db.outbox)
  nights-SameFor [] id db h = (refl, refl)
  nights-SameFor (n ∷ ns) id db h =
      let ((same, events), after) =
        check_sla_breaches-SameFor id upper to_upper_case joins config n.holiday n.ready n.updated
          n.faults n.now db h in
      let (same', events') = nights-SameFor ns id _ after in (same' ∙ same, events' ∙ events)
