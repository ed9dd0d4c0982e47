-- ===== src/Outbox.antt =====
-- The outbox of events for Kafka, apps/gateway-api/src/kafka/outbox.ts. The table is the list of its
-- rows. A statement of SQL runs at once, at the second of the database's clock that it is given;
-- `locked` are the ids that another transaction holds, which SKIP LOCKED passes over.
pub mod Drain
pub mod Rows
pub mod Chosen
pub mod Landing
pub mod Laws
pub mod Settling
mod Tests
use Prim.Native.String.{String}
use roadwatch.Prelude.{
  ℕ, suc, ◌+◌, ◌*◌, ltb, leb, ◌==◌, ◌&&◌, ◌||◌, min, max, Option, none, some, Bool, true, false,
  not, List, [], ◌∷◌, ◌++◌, map, take, if◌then◌else◌,
}

pub data Status : Type 0 where
  pending in_flight sent failed dead : Status

-- `event` is the topic, key, headers and payload, which only travel together.
pub record Row {ℓ} (Event : Type ℓ) : Type ℓ where
  pub id : ℕ
  pub event : Event
  pub status : Status
  pub attempts : ℕ
  pub available_at : ℕ
  pub sent_at : Option ℕ
  pub last_error : Option String
  pub created_at : ℕ
  pub updated_at : ℕ

abbrev pub outbox_max_attempts_before_dead : ℕ
outbox_max_attempts_before_dead = 10

abbrev pub is_open : Status → Bool
is_open pending = true
is_open failed = true
is_open in_flight = false
is_open sent = false
is_open dead = false

abbrev pub mem : ℕ → List ℕ → Bool
mem i [] = false
mem i (j ∷ js) = i == j || mem i js

unfoldable pub delay_seconds : ℕ → ℕ
delay_seconds attempts = min 60 (max 5 (attempts * 5))

module _ {ℓ} {Event : Type ℓ} where
  unfoldable pub enqueue_kafka_event : ℕ → Event → ℕ → List (Row Event) → List (Row Event)
  enqueue_kafka_event id event now rows =
      rows
      ++ record {
        id = id;
        event = event;
        status = pending;
        attempts = 0;
        available_at = now;
        sent_at = none;
        last_error = none;
        created_at = now;
        updated_at = now;
      }
        ∷ []

  -- The WHERE of the claim, with what SKIP LOCKED passes over.
  abbrev pub claimable : List ℕ → ℕ → Row Event → Bool
  claimable locked now r = is_open r.status && leb r.available_at now && not (mem r.id locked)

  -- ORDER BY created_at ASC
  abbrev pub insert : Row Event → List (Row Event) → List (Row Event)
  insert r [] = r ∷ []
  insert r (s ∷ rows) = if leb r.created_at s.created_at then r ∷ s ∷ rows else s ∷ insert r rows

  abbrev pub candidates : List ℕ → ℕ → List (Row Event) → List (Row Event)
  candidates locked now [] = []
  candidates locked now (r ∷ rows) =
      let rest = candidates locked now rows in
      if claimable locked now r then insert r rest else rest

  -- The ids that the claim selects.
  unfoldable pub chosen : List ℕ → ℕ → ℕ → List (Row Event) → List ℕ
  chosen locked limit now rows =
      map (λ (r : Row Event). r.id) (take limit (candidates locked now rows))

  abbrev pub take_up : List ℕ → ℕ → Row Event → Row Event
  take_up ids now r =
      if mem r.id ids
      then record r { status = in_flight; attempts = r.attempts + 1; updated_at = now }
      else r

  abbrev pub returning : List ℕ → List (Row Event) → List (Row Event)
  returning ids [] = []
  returning ids (r ∷ rows) =
      let rest = returning ids rows in if mem r.id ids then r ∷ rest else rest

  -- The rows returned and the table after the claim.
  unfoldable pub claim_pending_events :
      List ℕ → ℕ → ℕ → List (Row Event) → List (Row Event) × List (Row Event)
  claim_pending_events locked limit now rows =
      let ids = chosen locked limit now rows in
      let rows' = map (take_up ids now) rows in (returning ids rows', rows')

  -- UPDATE … WHERE id = $1
  abbrev pub update_where : ℕ → (Row Event → Row Event) → List (Row Event) → List (Row Event)
  update_where id f rows = map (λ (r : Row Event). if r.id == id then f r else r) rows

  abbrev pub set_sent : ℕ → Row Event → Row Event
  set_sent now r = record r {
    status = sent;
    sent_at = some now;
    updated_at = now;
    last_error = none;
  }

  abbrev pub set_failed : ℕ → String → ℕ → Row Event → Row Event
  set_failed attempts error now r =
      if leb outbox_max_attempts_before_dead attempts
      then record r {
        status = dead;
        attempts = attempts;
        last_error = some error;
        updated_at = now;
      }
      else record r {
        status = failed;
        attempts = attempts;
        last_error = some error;
        available_at = now + delay_seconds attempts;
        updated_at = now;
      }

  unfoldable pub mark_sent : ℕ → ℕ → List (Row Event) → List (Row Event)
  mark_sent id now = update_where id (set_sent now)

  unfoldable pub mark_failed : ℕ → ℕ → String → ℕ → List (Row Event) → List (Row Event)
  mark_failed id attempts error now = update_where id (set_failed attempts error now)
