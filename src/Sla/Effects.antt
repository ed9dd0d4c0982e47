-- ===== src/Sla/Effects.antt =====
-- What processing one row of the nightly check of services/scheduler/index.ts does to the tables.
use roadwatch.Prelude.{
  ◌≡◌, ◌⊎◌, inl, inr, refl, ap, ◌∙◌, Option, none, some, Bool, true, false, [], ◌∷◌, ◌++◌,
  Bool-cases,
}
use roadwatch.Prelude.Int.{ℤ, pos, eq_ℤ}
use roadwatch.Prelude.Text.{Text}
use roadwatch.Escalation.{Move, is_empty}
use roadwatch.Sla.{
  BreachRow, Joined, Charged, Db, contractor, engineer, organisation, sla_warning, escalation,
  sla_breached, escalation_due,
}
use roadwatch.Sla.Check.{
  Faults, Config, Outcome, move_complaint, notify, log, put_event, ◌then_do◌, move_complaints,
  enqueue_status_changed_outbox, charge, apply_breach_karma, set_notified, mark_notified,
  process_row, event_of, move_of, contractor_of, engineer_of, organisation_of,
}

abbrev SameRows : Db → Db → Type 0
SameRows d e = (e.tracking ≡ d.tracking) × (e.complaints ≡ d.complaints) × (e.outbox ≡ d.outbox)

-- What one row does: all that it should, and the loop goes on, or part of it in order.
pub data Effect (row : BreachRow) (move : Option Move) (db : Db) (o : Outcome) : Type 0 where
  finished :
      (keyed : Bool)
      → o.1 ≡ true
      → o.0.tracking ≡ set_notified row.tracked.complaint_id db.tracking
      → o.0.complaints ≡ move_complaints move row db.complaints
      → o.0.outbox ≡ db.outbox ++ event_of keyed row ∷ []
      → Effect row move db o
  halted :
      o.1 ≡ false
      → o.0.tracking ≡ db.tracking
      → (o.0.complaints ≡ db.complaints) ⊎ (o.0.complaints ≡ move_complaints move row db.complaints)
      → (o.0.outbox ≡ db.outbox)
        ⊎ ((keyed : Bool) × (o.0.outbox ≡ db.outbox ++ event_of keyed row ∷ []))
      → Effect row move db o

pub then_do-true : (o : Outcome) (k : Db → Outcome) → o.1 ≡ true → (o then_do k) ≡ k o.0
then_do-true (db, true) k h = refl
then_do-true (db, false) k h = cc

pub then_do-false : (o : Outcome) (k : Db → Outcome) → o.1 ≡ false → (o then_do k) ≡ (o.0, false)
then_do-false (db, true) k h = cc
then_do-false (db, false) k h = refl

-- A step that keeps the tables keeps them when it is followed by another such.
then_do-SameRows :
    (db : Db) (o : Outcome) (k : Db → Outcome)
    → SameRows db o.0
    → ((d : Db) → SameRows d (k d).0)
    → SameRows db (o then_do k).0
then_do-SameRows db (d, true) k h keep = let n = keep d in (n.0 ∙ h.0, n.1 ∙ h.1, n.2 ∙ h.2)
then_do-SameRows db (d, false) k h keep = h

charge-SameRows :
    (reached : Bool) (charged : Charged) (delta : ℤ) (ref_id : Text) (who : Option Text) (db : Db)
    → SameRows db (charge reached charged delta ref_id who db).0
charge-SameRows reached charged delta ref_id none db = (refl, refl, refl)
charge-SameRows reached charged delta ref_id (some who) db = elim (Bool-cases (is_empty who)) [
  | inl e ↦ rw e (refl, refl, refl)
  | inr e ↦ rw e (elim (Bool-cases (eq_ℤ delta (pos 0))) [
    | inl z ↦ rw z (refl, refl, refl)
    | inr z ↦ rw z (elim (Bool-cases reached) [
      | inl r ↦ rw r (refl, refl, refl)
      | inr r ↦ rw r (refl, refl, refl)
    ])
  ])
]

karma-SameRows :
    (config : Config) (f : Faults) (row : BreachRow) (db : Db)
    → SameRows db (apply_breach_karma config f row db).0
unfolding apply_breach_karma
karma-SameRows config f row db =
    let id = row.tracked.complaint_id in
    let a = contractor_of row in
    let b = engineer_of row in
    let c = organisation_of row in
    let first : Db → Outcome = charge f.connected contractor config.karma_sla_contractor id a in
    let second : Db → Outcome = charge true engineer config.karma_sla_engineer id b in
    let third : Db → Outcome = charge true organisation config.org_karma_base_penalty id c in
    then_do-SameRows db (first db then_do second) third
      (then_do-SameRows db (first db) second
        (charge-SameRows f.connected contractor config.karma_sla_contractor id a db)
        (λ d. charge-SameRows true engineer config.karma_sla_engineer id b d))
      (λ d. charge-SameRows true organisation config.org_karma_base_penalty id c d)

module _ (config : Config) (f : Faults) (row : BreachRow) (move : Option Move) (db : Db) where
  abbrev IsEscalated : Bool → Db → Type 0
  IsEscalated keyed d =
      (d.tracking ≡ db.tracking)
      × (d.complaints ≡ move_complaints move row db.complaints)
      × (d.outbox ≡ db.outbox ++ event_of keyed row ∷ [])

  mark-Effect :
      (ok keyed : Bool) (d : Db) → IsEscalated keyed d → Effect row move db (mark_notified ok row d)
  mark-Effect true keyed d (et, ec, eo) =
      finished keyed refl (ap (set_notified row.tracked.complaint_id) et) ec eo
  mark-Effect false keyed d (et, ec, eo) = halted refl et (inr ec) (inr (keyed, eo))

  -- The end of the round, from a state in which the complaint is moved and the event is written.
  end-Effect :
      (keyed : Bool) (d : Db)
      → IsEscalated keyed d
      → Effect row move db (apply_breach_karma config f row d then_do mark_notified f.marked row)
  end-Effect keyed d (et, ec, eo) =
      let (kt, kc, ko) = karma-SameRows config f row d in
      let o = apply_breach_karma config f row d in
      let there : IsEscalated keyed o.0 = (kt ∙ et, kc ∙ ec, ko ∙ eo) in
      elim (Bool-cases o.1) [
        | inl e ↦
            rw (then_do-true o (mark_notified f.marked row) e)
              (mark-Effect f.marked keyed o.0 there)
        | inr e ↦
            rw (then_do-false o (mark_notified f.marked row) e)
              (halted refl there.0 (inr there.1) (inr (keyed, there.2)))
      ]

  enqueue-Effect :
      (enqueued enqueued_again : Bool) (d : Db)
      → d.tracking ≡ db.tracking
      → d.complaints ≡ move_complaints move row db.complaints
      → d.outbox ≡ db.outbox
      → Effect row move db (
          enqueue_status_changed_outbox true enqueued enqueued_again row d
          then_do apply_breach_karma config f row
          then_do mark_notified f.marked row)
  unfolding enqueue_status_changed_outbox
  enqueue-Effect true again d et ec eo =
      end-Effect true (put_event true row d) (et, ec, ap (λ es. es ++ event_of true row ∷ []) eo)
  enqueue-Effect false true d et ec eo =
      end-Effect false (put_event false row d) (et, ec, ap (λ es. es ++ event_of false row ∷ []) eo)
  enqueue-Effect false false d et ec eo = halted refl et (inr ec) (inl eo)

  round-Effect :
      (moved : Bool)
      → Effect row move db (
          move_complaint moved move row (notify sla_warning row db)
          then_do (λ db'. enqueue_status_changed_outbox true f.enqueued f.enqueued_again row (
              log f.logged_due escalation_due row
                (log f.logged_breach sla_breached row (notify escalation row db'))))
          then_do apply_breach_karma config f row
          then_do mark_notified f.marked row)
  round-Effect false = halted refl refl (inl refl) (inl refl)
  round-Effect true = logged f.logged_breach f.logged_due
    where
      logged :
          (breach_ok due_ok : Bool)
          → Effect row move db (
              enqueue_status_changed_outbox true f.enqueued f.enqueued_again row (
                log due_ok escalation_due row (
                  log breach_ok sla_breached row (
                    notify escalation row (record (notify sla_warning row db) {
                      complaints = move_complaints move row db.complaints;
                    }))))
              then_do apply_breach_karma config f row
              then_do mark_notified f.marked row)
      logged true true = enqueue-Effect f.enqueued f.enqueued_again _ refl refl refl
      logged true false = enqueue-Effect f.enqueued f.enqueued_again _ refl refl refl
      logged false true = enqueue-Effect f.enqueued f.enqueued_again _ refl refl refl
      logged false false = enqueue-Effect f.enqueued f.enqueued_again _ refl refl refl

-- Without the outbox table a round writes no event.
mark-outbox :
    (ok : Bool) (row : BreachRow) (db : Db) → (mark_notified ok row db).0.outbox ≡ db.outbox
mark-outbox true row db = refl
mark-outbox false row db = refl

then_do-outbox :
    (db : Db) (o : Outcome) (k : Db → Outcome)
    → o.0.outbox ≡ db.outbox
    → ((d : Db) → (k d).0.outbox ≡ d.outbox)
    → (o then_do k).0.outbox ≡ db.outbox
then_do-outbox db (d, true) k h keep = keep d ∙ h
then_do-outbox db (d, false) k h keep = h

moved-outbox :
    (ok : Bool) (move : Option Move) (row : BreachRow) (db : Db)
    → (move_complaint ok move row (notify sla_warning row db)).0.outbox ≡ db.outbox
moved-outbox true move row db = refl
moved-outbox false move row db = refl

logged-outbox :
    (first second : Bool) (row : BreachRow) (db : Db)
    → (log second escalation_due row (log first sla_breached row (notify escalation row db))).outbox
      ≡ db.outbox
logged-outbox true true row db = refl
logged-outbox true false row db = refl
logged-outbox false true row db = refl
logged-outbox false false row db = refl

pub process_row-outbox :
    (upper to_upper_case : Text → Text) (joins : Text → Joined) (config : Config) (f : Faults)
    (row : BreachRow) (db : Db)
    → (process_row upper to_upper_case joins false config f row db).0.outbox ≡ db.outbox
unfolding process_row enqueue_status_changed_outbox
process_row-outbox upper to_upper_case joins config f row db =
    let move = move_of upper to_upper_case joins row in
    let events : Db → Outcome = λ d.
      enqueue_status_changed_outbox false f.enqueued f.enqueued_again row (
        log f.logged_due escalation_due row
          (log f.logged_breach sla_breached row (notify escalation row d))) in
    let karma : Db → Outcome = apply_breach_karma config f row in
    let first = move_complaint f.moved move row (notify sla_warning row db) in
    then_do-outbox db (first then_do events then_do karma) (mark_notified f.marked row)
      (then_do-outbox db (first then_do events) karma
        (then_do-outbox db first events (moved-outbox f.moved move row db)
          (λ d. logged-outbox f.logged_breach f.logged_due row d))
        (λ d. (karma-SameRows config f row d).2))
      (λ d. mark-outbox f.marked row d)

pub process_row-Effect :
    (upper to_upper_case : Text → Text) (joins : Text → Joined) (config : Config) (f : Faults)
    (row : BreachRow) (db : Db)
    → Effect row
        (move_of upper to_upper_case joins row)
        db
        (process_row upper to_upper_case joins true config f row db)
unfolding process_row
process_row-Effect upper to_upper_case joins config f row db =
    round-Effect config f row (move_of upper to_upper_case joins row) db f.moved
