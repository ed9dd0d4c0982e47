-- ===== src/Sla/Quiet.antt =====
-- A nightly check of services/scheduler/index.ts of which nothing fails leaves no work behind.
use roadwatch.Prelude.{◌≡◌, inl, inr, refl, Option, none, some, Bool, true, false, Bool-cases, ◌||◌}
use roadwatch.Prelude.Int.{ℤ, pos, eq_ℤ}
use roadwatch.Prelude.Text.{Text}
use roadwatch.Escalation.{Move, is_empty}
use roadwatch.Sla.{Joined, BreachRow, Charged, Db, contractor, engineer, organisation}
use roadwatch.Sla.Check.{
  Faults, Config, Outcome, ◌then_do◌, move_complaint, process_row, move_of, charge,
  apply_breach_karma, mark_notified, enqueue_status_changed_outbox, contractor_of, engineer_of,
  organisation_of,
}

-- Every statement of one round that can end the check succeeds.
pub record IsWell (f : Faults) : Type 0 where
  pub moves : f.moved ≡ true
  pub enqueues : (f.enqueued || f.enqueued_again) ≡ true
  pub connects : f.connected ≡ true
  pub marks : f.marked ≡ true

then_do-goes_on :
    (o : Outcome) (k : Db → Outcome)
    → o.1 ≡ true
    → ((d : Db) → (k d).1 ≡ true)
    → (o then_do k).1 ≡ true
then_do-goes_on (db, true) k h step = step db
then_do-goes_on (db, false) k h step = cc

move_complaint-goes_on :
    (ok : Bool) (move : Option Move) (row : BreachRow) (db : Db)
    → ok ≡ true
    → (move_complaint ok move row db).1 ≡ true
move_complaint-goes_on true move row db h = refl
move_complaint-goes_on false move row db h = cc

enqueue-goes_on :
    (enqueued again : Bool) (row : BreachRow) (db : Db)
    → (enqueued || again) ≡ true
    → (enqueue_status_changed_outbox true enqueued again row db).1 ≡ true
unfolding enqueue_status_changed_outbox
enqueue-goes_on true again row db h = refl
enqueue-goes_on false true row db h = refl
enqueue-goes_on false false row db h = cc

charge-goes_on :
    (reached : Bool) (charged : Charged) (delta : ℤ) (ref_id : Text) (who : Option Text) (db : Db)
    → reached ≡ true
    → (charge reached charged delta ref_id who db).1 ≡ true
charge-goes_on reached charged delta ref_id none db h = refl
charge-goes_on false charged delta ref_id (some who) db h = cc
charge-goes_on true charged delta ref_id (some who) db h = elim (Bool-cases (is_empty who)) [
  | inl e ↦ rw e refl
  | inr e ↦ rw e (elim (Bool-cases (eq_ℤ delta (pos 0))) [ inl z ↦ rw z refl | inr z ↦ rw z refl ])
]

mark-goes_on :
    (ok : Bool) (row : BreachRow) (db : Db) → ok ≡ true → (mark_notified ok row db).1 ≡ true
mark-goes_on true row db h = refl
mark-goes_on false row db h = cc

karma-goes_on :
    (config : Config) (f : Faults) (row : BreachRow) (db : Db)
    → f.connected ≡ true
    → (apply_breach_karma config f row db).1 ≡ true
unfolding apply_breach_karma
karma-goes_on config f row db h =
    let id = row.tracked.complaint_id in
    let first : Db → Outcome =
      charge f.connected contractor config.karma_sla_contractor id (contractor_of row) in
    let second : Db → Outcome =
      charge true engineer config.karma_sla_engineer id (engineer_of row) in
    let third : Db → Outcome =
      charge true organisation config.org_karma_base_penalty id (organisation_of row) in
    then_do-goes_on (first db then_do second) third
      (then_do-goes_on (first db) second
        (charge-goes_on f.connected contractor config.karma_sla_contractor id (contractor_of row) db
          h)
        (λ d. charge-goes_on true engineer config.karma_sla_engineer id (engineer_of row) d refl))
      (λ d.
        charge-goes_on true organisation config.org_karma_base_penalty id (organisation_of row) d
          refl)

module _ (upper to_upper_case : Text → Text) (joins : Text → Joined) (config : Config) where
  pub process_row-goes_on :
      (f : Faults) (row : BreachRow) (db : Db)
      → IsWell f
      → (process_row upper to_upper_case joins true config f row db).1 ≡ true
  unfolding process_row
  process_row-goes_on f row db w =
      then_do-goes_on _ (mark_notified f.marked row)
        (then_do-goes_on _ (apply_breach_karma config f row)
          (then_do-goes_on _ _
            (move_complaint-goes_on f.moved (move_of upper to_upper_case joins row) row _ w.moves)
            (λ d. enqueue-goes_on f.enqueued f.enqueued_again row _ w.enqueues))
          (λ d. karma-goes_on config f row d w.connects))
        (λ d. mark-goes_on f.marked row d w.marks)
