-- ===== src/Idempotency.antt =====
-- Idempotency keys of the gateway, apps/gateway-api/src/idempotency.ts. Every statement names one
-- scope and key in its WHERE, so the table is modelled at one of them: the row, or `none`. A
-- statement of SQL runs at once; `now` is the database's clock when it runs, in seconds.
pub mod Requests
pub mod Exclusion
pub mod Laws
mod Tests
use Prim.Native.String.{String}
use text.Mathlib.Text.{◌==◌ as str_eq}
use roadwatch.Prelude.{ℕ, ◌+◌, ltb, ◌&&◌, Option, none, some, Bool, true, false, not, if◌then◌else◌}

-- A row of `api_idempotency_keys`, over the type of response bodies. A body of JSON null is read
-- back as null, so it is `none` here.
pub record StoredResult {ℓ} (Body : Type ℓ) : Type ℓ where
  pub request_hash : String
  pub response_code : Option ℕ
  pub response_body : Option Body
  pub updated_at : ℕ

pub data Answer {ℓ} (Body : Type ℓ) : Type ℓ where
  claimed : Answer Body
  replay_mismatch replay_in_progress failed_to_claim : Answer Body
  replay_stored : ℕ → Body → Answer Body

abbrev pub is_none {ℓ} : {A : Type ℓ} → Option A → Bool
is_none none = true
is_none (some a) = false

module _ {ℓ} {Body : Type ℓ} where
  -- INSERT … ON CONFLICT DO NOTHING, and whether it wrote a row.
  unfoldable pub insert_claim :
      String → ℕ → Option (StoredResult Body) → Option (StoredResult Body) × Bool
  insert_claim hash now none = (
    some (record {
      request_hash = hash;
      response_code = none;
      response_body = none;
      updated_at = now;
    }),
    true,
  )
  insert_claim hash now (some r) = (some r, false)

  -- The conditional UPDATE that takes a stale claim over, and whether it wrote.
  unfoldable pub reclaim : ℕ → ℕ → Option (StoredResult Body) → Option (StoredResult Body) × Bool
  reclaim ttl now none = (none, false)
  reclaim ttl now (some r) =
      if is_none r.response_code && ltb (r.updated_at + ttl) now
      then (some (record r { updated_at = now }), true)
      else (some r, false)

  replay : Option ℕ → Option Body → Option (Answer Body)
  replay (some code) (some body) = some (replay_stored code body)
  replay none body = none
  replay (some code) none = none

  -- What the row that was read decides; `none` is to try to take the claim over.
  unfoldable pub judge : String → Option (StoredResult Body) → Option (Answer Body)
  unfolding replay
  judge hash none = some failed_to_claim
  judge hash (some r) =
      if not (str_eq r.request_hash hash)
      then some replay_mismatch
      else replay r.response_code r.response_body

  finish :
      Option (Answer Body)
      → ℕ
      → ℕ
      → Option (StoredResult Body)
      → Answer Body × Option (StoredResult Body)
  finish (some answer) ttl now row = (answer, row)
  finish none ttl now row =
      let (row', wrote) = reclaim ttl now row in
      if wrote then (claimed, row') else (replay_in_progress, row')

  -- The three statements of `claimIdempotency`, one after the other without another's between.
  unfoldable pub claim_idempotency :
      String → ℕ → ℕ → Option (StoredResult Body) → Answer Body × Option (StoredResult Body)
  unfolding finish
  claim_idempotency hash ttl now row =
      let (row', fresh) = insert_claim hash now row in
      if fresh then (claimed, row') else finish (judge hash row') ttl now row'

  -- DELETE … WHERE response_code IS NULL
  unfoldable pub release_key : Option (StoredResult Body) → Option (StoredResult Body)
  release_key none = none
  release_key (some r) = if is_none r.response_code then none else some r

  unfoldable pub store_result :
      ℕ → Option Body → ℕ → Option (StoredResult Body) → Option (StoredResult Body)
  store_result code body now none = none
  store_result code body now (some r) =
      some (record r { response_code = some code; response_body = body; updated_at = now })
