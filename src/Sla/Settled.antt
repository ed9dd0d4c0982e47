-- ===== src/Sla/Settled.antt =====
-- After a whole nightly check of services/scheduler/index.ts nothing is left for the same time.
use roadwatch.Prelude.{ℕ, ◌≡◌, ◌⊎◌, none, true, List, [], ◌∷◌, All}
use roadwatch.Prelude.Text.{Text}
use roadwatch.Sla.{SlaRow, Complaint, Joined, BreachRow, Db, due}
use roadwatch.Sla.Check.{
  Faults, Config, Outcome, move_complaints, set_notified, process_rows, move_of,
}
use roadwatch.Sla.Laws.{Announced}
use roadwatch.Sla.Quiet.{IsWell}

abbrev Among : Text → List BreachRow → Type 0
Among id [] = ⊥
Among id (r ∷ rows) = (r.tracked.complaint_id ≡ id) ⊎ Among id rows

module _ (upper : Text → Text) (now : ℕ) where
  -- Each tracking row is not due, or among those still to be processed.
  abbrev Owed : List Complaint → List SlaRow → List BreachRow → Type 0
  Owed complaints rows left =
      All (λ st. (due upper now complaints st ≡ none) ⊎ Among st.complaint_id left) rows

module _ (upper to_upper_case : Text → Text) (joins : Text → Joined) (config : Config) where
  abbrev rounds : (Text → Faults) → List BreachRow → Db → Outcome
  rounds = process_rows upper to_upper_case joins true config

  -- What a round that goes on has done.
  Finished : BreachRow → Db → Outcome → Type 0
  Finished row db o =
      Announced row.tracked.complaint_id o.0.outbox
      × (o.0.tracking ≡ set_notified row.tracked.complaint_id db.tracking)
      × (o.0.complaints ≡ move_complaints (move_of upper to_upper_case joins row) row db.complaints)

  module _ (faults : Text → Faults) (well : (id : Text) → IsWell (faults id)) (now : ℕ) where
    abbrev Served : List BreachRow → Outcome → Type 0
    Served rows o =
        Owed upper now o.0.complaints o.0.tracking []
        × All (λ (r : BreachRow). Announced r.tracked.complaint_id o.0.outbox) rows
