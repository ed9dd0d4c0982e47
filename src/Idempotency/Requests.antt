-- ===== src/Idempotency/Requests.antt =====
-- Requests with one key on any number of replicas, interleaved at every statement of
-- apps/gateway-api/src/idempotency.ts. A request that owns the claim runs its transaction and then
-- stores the result or releases the key; one that dies just takes no further step.
use Prim.Native.String.{String}
use roadwatch.Prelude.{ℕ, ◌+◌, ◌≤◌, ◌≡◌, Option, none, some, Bool, ◌==◌, if◌then◌else◌}
use roadwatch.Idempotency.{
  StoredResult, Answer, insert_claim, reclaim, judge, release_key, store_result,
}

-- Where a request stands: `owner` since the second of its claim.
pub data Pc {ℓ} (Body : Type ℓ) : Type ℓ where
  idle selecting reclaiming : Pc Body
  owner : (since : ℕ) → Pc Body
  answered : Answer Body → Pc Body
  done : Pc Body

pub record System {ℓ} (Body : Type ℓ) : Type ℓ where
  pub now : ℕ
  pub row : Option (StoredResult Body)
  pub pc : ℕ → Pc Body

module _ {ℓ} {Body : Type ℓ} where
  abbrev pub after_insert : ℕ → Bool → Pc Body
  after_insert now wrote = if wrote then owner now else selecting

  abbrev pub after_select : Option (Answer Body) → Pc Body
  after_select none = reclaiming
  after_select (some answer) = answered answer

  abbrev pub after_reclaim : ℕ → Bool → Pc Body
  after_reclaim now wrote = if wrote then owner now else answered Answer.replay_in_progress

  -- One statement of one request.
  pub data Move (hash : String) (ttl now : ℕ) (row : Option (StoredResult Body))
      : Pc Body → Option (StoredResult Body) → Pc Body → Type ℓ where
    insert :
        Move hash ttl now row idle
          (insert_claim hash now row).0
          (after_insert now (insert_claim hash now row).1)
    select : Move hash ttl now row selecting row (after_select (judge hash row))
    take_over :
        Move hash ttl now row reclaiming
          (reclaim ttl now row).0
          (after_reclaim now (reclaim ttl now row).1)
    store :
        {since : ℕ} (code : ℕ) (body : Option Body)
        → Move hash ttl now row (owner since) (store_result code body now row) done
    release :
        {since : ℕ} → now ≤ since + ttl → Move hash ttl now row (owner since) (release_key row) done

  abbrev pub update : (ℕ → Pc Body) → ℕ → Pc Body → ℕ → Pc Body
  update pc i p j = if j == i then p else pc j

  pub data Step (ttl : ℕ) (s : System Body) : System Body → Type ℓ where
    tick : Step ttl s (record s { now = s.now + 1 })
    act :
        (i : ℕ) (hash : String) {row : Option (StoredResult Body)} {p : Pc Body}
        → Move hash ttl s.now s.row (s.pc i) row p
        → Step ttl s (record s { row = row; pc = update s.pc i p })

  pub data Reach (ttl : ℕ) (s : System Body) : System Body → Type ℓ where
    here : Reach ttl s s
    next : {t u : System Body} → Reach ttl s t → Step ttl t u → Reach ttl s u

  abbrev pub start : System Body
  start = record { now = 0; row = none; pc = λ i. idle }

  -- A request that owns the claim and is within the time to live.
  abbrev pub Live : ℕ → System Body → ℕ → Type ℓ
  Live ttl s i = (since : ℕ) × (s.pc i ≡ owner since) × (s.now ≤ since + ttl)
