-- ===== src/Anchor/Flush.antt =====
-- `flush` of services/fabric-anchor-consumer/index.ts. It reads the batch, sends, and clears the
-- batch; polls may come in between, so it is two steps. Any call may throw, the commit among them,
-- and so may any statement of the error path; a process that goes on after that is what is modelled.
use roadwatch.Prelude.{
  ℕ, zero, suc, ◌+◌, leb, Option, none, some, Bool, true, false, List, [], ◌∷◌, ◌++◌, map, length,
  take, if◌then◌else◌,
}
use roadwatch.Anchor.{
  Topic, complaint_submitted, complaint_status_changed, other_topic, ConsumedMessage, Item, Call,
  create_complaint, update_complaint_status, submit_root, store_proof, store_proof_by_batch,
  publish_anchored, mark_processed, Anchor, put, commit, poll,
}

abbrev pub unprocessed : (ℕ → Bool) → List Item → List Item
unprocessed processed [] = []
unprocessed processed (item ∷ items) =
    let rest = unprocessed processed items in if processed item.key then rest else item ∷ rest

abbrev pub is_submitted : Topic → Bool
is_submitted complaint_submitted = true
is_submitted complaint_status_changed = false
is_submitted other_topic = false

abbrev pub is_status : Topic → Bool
is_status complaint_submitted = false
is_status complaint_status_changed = true
is_status other_topic = false

abbrev pub with_topic : (Topic → Bool) → List Item → List Item
with_topic test [] = []
with_topic test (item ∷ items) =
    let rest = with_topic test items in if test item.raw.topic then item ∷ rest else rest

-- What the loop after the anchoring writes for each complaint.
abbrev pub proofs : List Item → List Call
proofs [] = []
proofs (item ∷ items) =
    store_proof item ∷ store_proof_by_batch item ∷ publish_anchored item ∷ proofs items

abbrev pub anchor_calls : List Item → List Call
anchor_calls [] = []
anchor_calls (item ∷ items) = submit_root (item ∷ items) ∷ proofs (item ∷ items)

-- All calls of a flush, in order, for the entries that are not processed yet.
unfoldable pub plan : List Item → List Call
plan unique =
    map create_complaint (with_topic is_submitted unique)
    ++ (map update_complaint_status (with_topic is_status unique)
        ++ (anchor_calls (with_topic is_submitted unique)
            ++ map (λ (item : Item). mark_processed item.key) unique))

-- What a call does to `processed_events`.
abbrev pub marked : Call → (ℕ → Bool) → ℕ → Bool
marked (mark_processed key) processed = put key true processed
marked (create_complaint item) processed = processed
marked (update_complaint_status item) processed = processed
marked (submit_root items) processed = processed
marked (store_proof item) processed = processed
marked (store_proof_by_batch item) processed = processed
marked (publish_anchored item) processed = processed

abbrev pub run_call : Call → Anchor → Anchor
run_call c s = record s { processed = marked c s.processed; sent = s.sent ++ c ∷ [] }

unfoldable pub run_calls : List Call → Anchor → Anchor
run_calls [] s = s
run_calls (c ∷ cs) s = run_calls cs (run_call c s)

-- `recordFailure`, and what follows it in the loop of the error path.
abbrev pub fail_item : Item → Anchor → Anchor
fail_item item s =
    let attempts = s.failures item.key + 1 in
    let given_up = leb 3 attempts in
    record s {
      failures = put item.key attempts s.failures;
      dead_letters = if given_up then s.dead_letters ++ item.raw ∷ [] else s.dead_letters;
      processed = if given_up then put item.key true s.processed else s.processed;
    }

unfoldable pub fail_all : List Item → Anchor → Anchor
fail_all [] s = s
fail_all (item ∷ items) s = fail_all items (fail_item item s)

-- The error path up to a statement that throws: `recordFailure`, `sendDlq` and `markProcessed` of
-- each entry have three numbers in turn, and later ones are of what comes after the loop.
abbrev pub count_failure : Item → Anchor → Anchor
count_failure item s = record s { failures = put item.key (s.failures item.key + 1) s.failures }

abbrev pub dead_letter : Item → Anchor → Anchor
dead_letter item s =
    let attempts = s.failures item.key + 1 in
    record s {
      failures = put item.key attempts s.failures;
      dead_letters = if leb 3 attempts then s.dead_letters ++ item.raw ∷ [] else s.dead_letters;
    }

unfoldable pub fail_up_to : ℕ → List Item → Anchor → Anchor
fail_up_to n [] s = s
fail_up_to zero (item ∷ items) s = s
fail_up_to (suc zero) (item ∷ items) s = count_failure item s
fail_up_to (suc (suc zero)) (item ∷ items) s = dead_letter item s
fail_up_to (suc (suc (suc n))) (item ∷ items) s = fail_up_to n items (fail_item item s)

abbrev pub commit_and_clear : Anchor → Anchor
commit_and_clear s = record (commit s) { batch = [] }

abbrev pub clear_if_none : List Item → Anchor → Anchor
clear_if_none [] s = commit_and_clear s
clear_if_none (item ∷ items) s = s

-- The error path; `broken` is the number of its statement that throws, if one does.
unfoldable pub flush_failed : (broken : Option ℕ) → Anchor → Anchor
flush_failed none s =
    let s' = fail_all s.batch s in clear_if_none (unprocessed s'.processed s'.batch) s'
flush_failed (some n) s = fail_up_to n s.batch s

-- The number of the call that throws, and what then breaks the error path.
abbrev pub Fault : Type 0
Fault = ℕ × Option ℕ

-- The flush of those entries; after the last of the calls it is the commit that throws.
abbrev pub send_all : List Item → Option Fault → Anchor → Anchor
send_all unique none s = commit_and_clear (run_calls (plan unique) s)
send_all unique (some (k, broken)) s =
    if leb k (length (plan unique))
    then flush_failed broken (run_calls (take k (plan unique)) s)
    else commit_and_clear (run_calls (plan unique) s)

abbrev pub send_unique : List Item → Option Fault → Anchor → Anchor
send_unique [] none s = commit_and_clear s
send_unique [] (some (k, broken)) s = flush_failed broken s
send_unique (item ∷ items) fault s = send_all (item ∷ items) fault s

-- The first step reads which entries are not processed.
unfoldable pub flush_begin : Anchor → List Item
flush_begin s = unprocessed s.processed s.batch

unfoldable pub flush_end : List Item → Option Fault → Anchor → Anchor
flush_end unique fault s = send_unique unique fault s

abbrev pub flush_batch : List Item → Option Fault → Anchor → Anchor
flush_batch [] fault s = s
flush_batch (item ∷ items) fault s = flush_end (flush_begin s) fault s

-- A flush that nothing interrupts.
unfoldable pub flush : Option Fault → Anchor → Anchor
flush fault s = flush_batch s.batch fault s

-- One round of the loop, with the fault of its flush.
unfoldable pub round : ℕ → List ConsumedMessage → Option Fault → Anchor → Anchor
round batch_size_limit messages fault s =
    let s' = poll messages s in
    if leb batch_size_limit (length s'.batch) then flush fault s' else s'
