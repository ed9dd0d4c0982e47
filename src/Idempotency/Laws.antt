-- ===== src/Idempotency/Laws.antt =====
-- What a caller of apps/gateway-api/src/idempotency.ts relies on when a request is sent again.
use Prim.Native.String.{String}
use text.Mathlib.TextEquality.{eq_iff}
use roadwatch.Prelude.{ℕ, ◌+◌, ◌≤◌, ◌≡◌, ◌≢◌, ◌<◌, Option, none, some, arith, refl}
use roadwatch.Idempotency.{
  StoredResult, Answer, claimed, replay_stored, replay_mismatch, replay_in_progress,
  claim_idempotency, release_key, store_result, insert_claim, judge, reclaim,
}

module _ {ℓ} {Body : Type ℓ} where
  fresh_claim :
      (hash : String) (ttl t : ℕ) → (claim_idempotency {Body = Body} hash ttl t none).0 ≡ claimed
  unfolding claim_idempotency insert_claim
  fresh_claim hash ttl t = refl

  -- A key that is claimed, completed at any second with a body that is not null, and then released is answered from the table, whatever the time to live and the
  -- clock: a request of the same hash gets the code and body stored, one of another hash the
  -- mismatch, and neither changes the row.
  pub claim-store-claim :
      (hash other : String) (code ttl t0 t1 t2 : ℕ) (body : Body)
      → let row : Option (StoredResult Body) =
          release_key (store_result code (some body) t1 (claim_idempotency hash ttl t0 none).1) in
        (claim_idempotency {Body = Body} hash ttl t0 none).0 ≡ claimed
        × (claim_idempotency hash ttl t2 row ≡ (replay_stored code body, row))
        × (other ≢ hash → claim_idempotency other ttl t2 row ≡ (replay_mismatch, row))
  unfolding claim_idempotency insert_claim judge release_key store_result
  claim-store-claim hash other code ttl t0 t1 t2 body =
      let same = eq_iff hash hash in
      let differ = eq_iff hash other in (refl, ground (arith, same), λ ne. ground (arith, differ))

  -- A claim that its request neither completes nor releases blocks its key for the time to live and
  -- no longer: a retry of the same hash owns the claim exactly when it comes more than `ttl`
  -- seconds after it, and then the row is renewed at that second; until then the retry is told that
  -- the key is in progress and the row stays.
  pub claim_again :
      (hash : String) (ttl t0 t1 : ℕ)
      → let row : Option (StoredResult Body) = (claim_idempotency hash ttl t0 none).1 in
        let again : Answer Body × Option (StoredResult Body) = claim_idempotency hash ttl t1 row in
        (t0 + ttl < t1
          → (again.0 ≡ claimed)
            × (again.1
                ≡ some (record {
                  request_hash = hash;
                  response_code = none;
                  response_body = none;
                  updated_at = t1;
                })))
        × (t1 ≤ t0 + ttl → (again.0 ≡ replay_in_progress) × (again.1 ≡ row))
  unfolding claim_idempotency insert_claim judge reclaim
  claim_again hash ttl t0 t1 =
      let same = eq_iff hash hash in
      (
        λ h. (ground (arith, same), ground (arith, same)),
        λ h. (ground (arith, same), ground (arith, same)),
      )

  -- A result stored with a body of null is never answered: at every later second, a request of the
  -- same hash is told that the key is in progress, and the row stays, since a row with a code is
  -- never taken over.
  pub claim-store_null :
      (hash : String) (code ttl t0 t1 t2 : ℕ)
      → let row : Option (StoredResult Body) =
          store_result code none t1 (claim_idempotency hash ttl t0 none).1 in
        claim_idempotency hash ttl t2 (release_key row) ≡ (replay_in_progress, row)
  unfolding claim_idempotency insert_claim judge reclaim store_result release_key
  claim-store_null hash code ttl t0 t1 t2 = let same = eq_iff hash hash in ground (arith, same)

  -- A release names no owner: when a claim was taken over after the time to live, and the first
  -- request then fails and releases, a third request of the same hash owns the claim at any second,
  -- also while the second request, whose claim is in the row, is still at work.
  pub release-claim_again :
      (hash : String) (ttl t0 t1 t2 : ℕ)
      → t0 + ttl < t1
      → let taken : Answer Body × Option (StoredResult Body) =
          claim_idempotency hash ttl t1 (claim_idempotency hash ttl t0 none).1 in
        (taken.0 ≡ claimed) × ((claim_idempotency hash ttl t2 (release_key (taken.1))).0 ≡ claimed)
  unfolding release_key
  release-claim_again hash ttl t0 t1 t2 late =
      let again = (claim_again hash ttl t0 t1).0 late in
      (again.0, rw (again.1) (fresh_claim hash ttl t2))
