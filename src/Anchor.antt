-- ===== src/Anchor.antt =====
-- The loop of services/fabric-anchor-consumer/index.ts between Kafka, the database and Fabric. A
-- partition of a topic and an idempotency key are numbers here. JSON.parse is not code of the
-- repository: what it makes of a message is a field. The loop's pauses, the circuit around Fabric
-- and the alerts to operators only delay or report, and are left out.
pub mod Flush
pub mod Runs
pub mod Laws
pub mod Delivery
pub mod Budget
pub mod Races
mod Tests
use roadwatch.Prelude.{
  ℕ, suc, ◌+◌, ltb, leb, ◌==◌, Option, none, some, Bool, true, false, not, List, [], ◌∷◌, ◌++◌, map,
  if◌then◌else◌,
}

pub data Topic : Type 0 where
  complaint_submitted complaint_status_changed other_topic : Topic

-- The fields of a parsed payload that the loop reads; `none` is missing or empty.
pub record Payload : Type 0 where
  pub idempotency_key : Option ℕ
  pub complaint_id : Option ℕ

pub record ConsumedMessage : Type 0 where
  pub topic : Topic
  pub partition : ℕ
  pub offset : ℕ
  pub parsed : Option Payload

-- An entry of `batch`.
pub record Item : Type 0 where
  pub raw : ConsumedMessage
  pub key : ℕ
  pub complaint_id : ℕ

-- What a flush sends: to Fabric, to the tables of proofs, to Kafka, and to `processed_events`.
pub data Call : Type 0 where
  create_complaint update_complaint_status : Item → Call
  submit_root : (items : List Item) → Call
  store_proof store_proof_by_batch publish_anchored : Item → Call
  mark_processed : (key : ℕ) → Call

pub record Anchor : Type 0 where
  pub pending_commit_offsets : ℕ → Option ℕ
  pub committed : ℕ → ℕ
  pub processed : ℕ → Bool
  pub failures : ℕ → ℕ
  pub batch : List Item
  pub dead_letters : List ConsumedMessage
  pub sent : List Call

abbrev pub put {ℓ} : {A : Type ℓ} → ℕ → A → (ℕ → A) → ℕ → A
put k a f j = if j == k then a else f j

-- One message in the offsets that the next commit is to write.
abbrev pub later_offset : Option ℕ → ℕ → ℕ
later_offset none offset = offset
later_offset (some prev) offset = if ltb prev offset then offset else prev

abbrev pub note_offsets : List ConsumedMessage → (ℕ → Option ℕ) → ℕ → Option ℕ
note_offsets [] offsets = offsets
note_offsets (m ∷ ms) offsets =
    note_offsets ms (put m.partition (some (later_offset (offsets m.partition) m.offset)) offsets)

-- `consume`, once the queue has been drained.
unfoldable pub consume : List ConsumedMessage → Anchor → Anchor
consume messages s = record s { pending_commit_offsets = note_offsets messages (λ p. none) }

abbrev pub next_offset : Option ℕ → ℕ → ℕ
next_offset none committed = committed
next_offset (some offset) committed = offset + 1

unfoldable pub commit : Anchor → Anchor
commit s = record s {
  committed = λ p. next_offset (s.pending_commit_offsets p) (s.committed p);
  pending_commit_offsets = λ p. none;
}

abbrev pub known_topic : Topic → Bool
known_topic complaint_submitted = true
known_topic complaint_status_changed = true
known_topic other_topic = false

abbrev pub item_of : ConsumedMessage → Option ℕ → Option ℕ → Option Item
item_of m (some key) (some complaint) =
    if known_topic m.topic
    then some (record { raw = m; key = key; complaint_id = complaint })
    else none
item_of m (some key) none = none
item_of m none complaint = none

abbrev pub read_payload : ConsumedMessage → Option Payload → Option Item
read_payload m none = none
read_payload m (some payload) = item_of m payload.idempotency_key payload.complaint_id

-- The entry that a message makes, or `none` where the code throws.
unfoldable pub validate : ConsumedMessage → Option Item
validate m = read_payload m m.parsed

-- A malformed message goes to the dead letters; its rows in the database stand under a fresh random
-- key, which concerns no other message.
abbrev pub take_in : ConsumedMessage → Option Item → Anchor → Anchor
take_in m (some item) s = record s { batch = s.batch ++ item ∷ [] }
take_in m none s = record s { dead_letters = s.dead_letters ++ m ∷ [] }

unfoldable pub add_all : List ConsumedMessage → Anchor → Anchor
add_all [] s = s
add_all (m ∷ ms) s = add_all ms (take_in m (validate m) s)

abbrev pub is_none {ℓ} : {A : Type ℓ} → Option A → Bool
is_none none = true
is_none (some a) = false

abbrev pub all_malformed : List ConsumedMessage → Bool
all_malformed [] = true
all_malformed (m ∷ ms) = let rest = all_malformed ms in if is_none (validate m) then rest else false

-- `malformedOnly`
unfoldable pub malformed_only : List ConsumedMessage → Bool
malformed_only [] = false
malformed_only (m ∷ ms) = all_malformed (m ∷ ms)

-- One round of the loop up to the flush.
unfoldable pub poll : List ConsumedMessage → Anchor → Anchor
poll messages s =
    let s' = add_all messages (consume messages s) in
    if malformed_only messages then commit s' else s'
