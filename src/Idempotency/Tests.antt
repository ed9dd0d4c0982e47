-- ===== src/Idempotency/Tests.antt =====
-- A key claimed, taken over, released late, completed and asked for again.
use Prim.Native.String.{String}
use roadwatch.Prelude.{ℕ, ◌≡◌, ◌≢◌, refl, Option, none, some, arith}
use roadwatch.Idempotency.{
  StoredResult, claimed, replay_stored, replay_mismatch, claim_idempotency, release_key,
  store_result, insert_claim, judge, reclaim,
}
use roadwatch.Idempotency.Requests.{
  Pc, System, insert, select, take_over, tick, act, Reach, here, next, start, Live, update, owner,
}
use roadwatch.Idempotency.Laws.{claim-store-claim, release-claim_again}
use roadwatch.Idempotency.Exclusion.{owner_unique, Holds}

-- Request 0 claims at 0 and dies; request 1 tries at 2, with one second to live, and takes over.
abbrev handed : System ℕ
handed = record {
  now = 2;
  row =
      some
        (record { request_hash = "h"; response_code = none; response_body = none; updated_at = 2 });
  pc =
      update
        (update (update (update (start {Body = ℕ}).pc 0 (owner 0)) 1 Pc.selecting) 1 Pc.reclaiming)
        1 (owner 2);
}

handed-Reach : Reach 1 start handed
unfolding insert_claim judge reclaim
handed-Reach =
    next
      (next (next (next (next (next here (act 0 "h" insert)) tick) tick) (act 1 "h" insert))
        (act 1 "h" select))
      (act 1 "h" take_over)

handed-Live : Live 1 handed 1
handed-Live = (2, refl, omega arith)

owner_unique_example : (◌≡◌ {A = ℕ} 1 1) × Holds handed.row 2
unfolding handed-Live
owner_unique_example = owner_unique 1 handed 1 1 handed-Reach handed-Live handed-Live

kept : Option (StoredResult ℕ)
kept = release_key (store_result 201 (some 7) 4 (claim_idempotency "h" 60 3 none).1)

claim-store-claim_example :
    (claim_idempotency {Body = ℕ} "h" 60 3 none).0 ≡ claimed
    × (claim_idempotency "h" 60 90 kept ≡ (replay_stored 201 7, kept))
    × (◌≢◌ {A = String} "g" "h" → claim_idempotency "g" 60 90 kept ≡ (replay_mismatch, kept))
unfolding kept
claim-store-claim_example = claim-store-claim "h" "g" 201 60 3 4 90 7

abandoned : Option (StoredResult ℕ)
abandoned = (claim_idempotency "h" 60 3 none).1

release-claim_again_example :
    ((claim_idempotency {Body = ℕ} "h" 60 64 (claim_idempotency "h" 60 3 none).1).0 ≡ claimed)
    × ((claim_idempotency "h" 60 65 (
          release_key
            (claim_idempotency {Body = ℕ} "h" 60 64 (claim_idempotency "h" 60 3 none).1).1)).0
        ≡ claimed)
release-claim_again_example = release-claim_again {Body = ℕ} "h" 60 3 64 65 (omega arith)
