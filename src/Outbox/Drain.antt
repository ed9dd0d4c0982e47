-- ===== src/Outbox/Drain.antt =====
-- The relay of apps/gateway-api/src/kafka/outbox.ts: one drain, and one tick of drains.
use Prim.Native.String.{String}
use roadwatch.Prelude.{ℕ, ◌+◌, ltb, leb, List, [], ◌∷◌, if◌then◌else◌}
use roadwatch.Outbox.{
  Row, outbox_max_attempts_before_dead, claim_pending_events, mark_sent, mark_failed,
}

-- What becomes of a row that is published, and the second of the statement that says so. A publish
-- that succeeds and whose `markSent` fails is caught, so it counts as refused. `halted` is a process
-- that dies, or a database that fails in `markFailed`: the drain ends there.
pub data Reply : Type 0 where
  delivered : (at : ℕ) → Reply
  refused : (error : String) (at : ℕ) → Reply
  halted : Reply

pub record Drained {ℓ} (Event : Type ℓ) : Type ℓ where
  pub rows : List (Row Event)
  pub sent : ℕ
  pub dead_letters : List (Row Event)

-- One drain: the ids that others hold, the second of the claim, and the answers by id.
pub record Round : Type 0 where
  pub locked : List ℕ
  pub now : ℕ
  pub reply : ℕ → Reply

module _ {ℓ} {Event : Type ℓ} where
  -- The body of the loop; `rest` is the rest of the loop on the table.
  abbrev pub publish_one :
      Reply → Row Event → (List (Row Event) → Drained Event) → List (Row Event) → Drained Event
  publish_one (delivered at) row rest table =
      let d = rest (mark_sent row.id at table) in record d { sent = d.sent + 1 }
  publish_one (refused error at) row rest table =
      let d = rest (mark_failed row.id row.attempts error at table) in
      if leb outbox_max_attempts_before_dead row.attempts
      then record d { dead_letters = row ∷ d.dead_letters }
      else d
  publish_one halted row rest table = record { rows = table; sent = 0; dead_letters = [] }

  unfoldable pub publish_all : (ℕ → Reply) → List (Row Event) → List (Row Event) → Drained Event
  publish_all reply [] table = record { rows = table; sent = 0; dead_letters = [] }
  publish_all reply (row ∷ rows) table =
      publish_one (reply row.id) row (publish_all reply rows) table

  unfoldable pub drain_kafka_event_outbox : Round → ℕ → List (Row Event) → Drained Event
  drain_kafka_event_outbox round batch_size table =
      let (rows, table') = claim_pending_events round.locked batch_size round.now table in
      publish_all round.reply rows table'

  -- One tick: a drain for each round, of which there are as many as the tick may make, until one
  -- sends less than a whole batch.
  unfoldable pub relay_tick : ℕ → List Round → List (Row Event) → List (Row Event)
  relay_tick batch_size [] table = table
  relay_tick batch_size (round ∷ rounds) table =
      let d = drain_kafka_event_outbox round batch_size table in
      let more = relay_tick batch_size rounds d.rows in
      if ltb d.sent batch_size then d.rows else more
