-- ===== src/Chaincode.antt =====
-- The complaint contract on the Fabric ledger, chaincode/src/contract.ts with the assets of
-- chaincode/src/asset.ts. A composite key of `EVENT` or `ANCHOR` is no key of a complaint and is
-- another key for another attribute, so the world state is one map for each. Values are what
-- `JSON.parse` gives back. A transaction that throws writes nothing: it is an error, and no ledger.
pub mod Authority
pub mod Transactions
pub mod Laws
pub mod Events
pub mod Callers
mod Tests
use Prim.Native.String.{String}
use text.Mathlib.Text.{◌==◌ as str_eq}
use roadwatch.Prelude.{
  ℕ, ◌+◌, ◌-◌, ◌||◌, ◌==◌, List, [], ◌∷◌, Option, none, some, Bool, true, false, not, length, take,
  drop, max, if◌then◌else◌, ite,
}
use roadwatch.Prelude.Int.{ℤ, pos, negsuc}
use roadwatch.Prelude.Text.{Text, Text-discrete, codes}

pub data ComplaintStatus : Type 0 where
  filed in_progress resolved rejected : ComplaintStatus

pub record Complaint : Type 0 where
  pub id : String
  pub road_id : String
  pub report_count : ℕ
  pub details_hash : String
  pub status : ComplaintStatus
  pub authority_org : String
  pub created_at : ℕ
  pub updated_at : ℕ

pub record ComplaintPii : Type 0 where
  pub citizen_id : Option String
  pub location : Option String
  pub initial_ipfs_cid : Option String
  pub resolution_ipfs_cid : Option String

pub record AnchorRecord : Type 0 where
  pub anchor_id : Text
  pub merkle_root : Text
  pub batch_size : ℕ
  pub region_code : String
  pub submitted_by : Text
  pub tx_id : String
  pub timestamp : ℕ

pub data LedgerEvent : Type 0 where
  merkle_root_anchored : AnchorRecord → LedgerEvent
  complaint_status_updated : String → ComplaintStatus → String → ℕ → LedgerEvent
  complaint_resolved : String → Bool → String → ℕ → LedgerEvent

-- `emitted` lists the chaincode events, the last first.
pub record Ledger : Type 0 where
  pub complaints : String → Option Complaint
  pub events : String → Bool
  pub anchors : Text → Option AnchorRecord
  pub private_data : String → Option ComplaintPii
  pub emitted : List LedgerEvent

pub data TxError : Type 0 where
  msp_not_allowed complaint_exists complaint_missing : TxError
  citizen_not_allowed unauthorized_msp invalid_status : TxError
  invalid_merkle_root region_code_required invalid_batch_size : TxError

pub data Result : Type 0 where
  committed : Ledger → Result
  failed : TxError → Result

abbrev pub put {ℓ} : {A : Type ℓ} → String → A → (String → A) → String → A
put key value state k = if str_eq k key then value else state k

unfoldable pub same_text : Text → Text → Bool
same_text a b = ite (Text-discrete a b) true false

-- What follows where the event is new, with its mark written; otherwise the transaction ends.
unfoldable pub mark_event_processed : String → Ledger → (Ledger → Result) → Result
mark_event_processed event_id l rest =
    if l.events event_id
    then committed l
    else rest (record l { events = put event_id true l.events })

abbrev pub blank_is_none : String → Option String
blank_is_none s = if str_eq s "" then none else some s

-- What `transient.get('pii')` holds, and the arguments where it holds nothing.
unfoldable pub pii_of : Option ComplaintPii → (citizen_id location cid : String) → ComplaintPii
pii_of (some pii) citizen_id location cid = pii
pii_of none citizen_id location cid = record {
  citizen_id = blank_is_none citizen_id;
  location = blank_is_none location;
  initial_ipfs_cid = blank_is_none cid;
  resolution_ipfs_cid = none;
}

abbrev truthy : Option String → Bool
truthy none = false
truthy (some s) = not (str_eq s "")

unfoldable pub store_pii : String → ComplaintPii → Ledger → Ledger
store_pii id pii l =
    if truthy pii.citizen_id || truthy pii.location || truthy pii.initial_ipfs_cid
    then record l { private_data = put id (some pii) l.private_data }
    else l

abbrev pub put_complaint : Complaint → String → Ledger → Ledger
put_complaint c id l = record l { complaints = put id (some c) l.complaints }

member : Text → List Text → Bool
unfolding same_text
member m [] = false
member m (x ∷ xs) = let rest = member m xs in if same_text m x then true else rest

abbrev pub is_some {ℓ} : {A : Type ℓ} → Option A → Bool
is_some none = false
is_some (some a) = true

abbrev pub new_complaint : (id road_id details_hash authority_org : String) → ℕ → ℕ → Complaint
new_complaint id road_id details_hash authority_org count now = record {
  id = id;
  road_id = road_id;
  report_count = count;
  details_hash = details_hash;
  status = filed;
  authority_org = authority_org;
  created_at = now;
  updated_at = now;
}

-- `allowed` is the list that ALLOWED_CITIZEN_MSPS spells, or the default.
unfoldable pub create_complaint :
    (allowed : List Text) (msp : Text) (transient : Option ComplaintPii) (now : ℕ)
    (id citizen_id road_id location cid authority_org details_hash : String)
    → Ledger
    → Result
unfolding member pii_of store_pii
create_complaint allowed msp transient now id citizen_id road_id location cid authority_org
      details_hash l =
    if not (member msp allowed)
    then failed msp_not_allowed
    else if is_some (l.complaints id)
    then failed complaint_exists
    else committed (
        store_pii id (pii_of transient citizen_id location cid)
          (put_complaint (new_complaint id road_id details_hash authority_org 1 now) id l))

-- `Math.max(1, Number(reportCount) || other)`; 0 also stands for what is no number.
unfoldable pub count_or : ℤ → ℕ → ℕ
count_or (pos n) other = if n == 0 then max 1 other else n
count_or (negsuc n) other = 1

unfoldable pub merge_submission :
    (transient : Option ComplaintPii) (now : ℕ)
    (id citizen_id road_id location cid authority_org details_hash : String) (report_count : ℤ)
    → Option Complaint
    → Ledger
    → Ledger
unfolding pii_of store_pii
merge_submission transient now id citizen_id road_id location cid authority_org details_hash
      report_count (some c) l =
    put_complaint
      (record c { report_count = count_or report_count (c.report_count + 1); updated_at = now }) id
      l
merge_submission transient now id citizen_id road_id location cid authority_org details_hash
      report_count none l =
    store_pii id (pii_of transient citizen_id location cid) (
      put_complaint
        (new_complaint id road_id details_hash authority_org (count_or report_count 1) now) id l)

unfoldable pub upsert_complaint_submission :
    (transient : Option ComplaintPii) (now : ℕ)
    (id citizen_id road_id location cid authority_org details_hash event_id : String)
    (report_count : ℤ)
    → Ledger
    → Result
unfolding merge_submission
upsert_complaint_submission transient now id citizen_id road_id location cid authority_org
      details_hash event_id report_count l =
    mark_event_processed event_id l (λ m. committed (
      merge_submission transient now id citizen_id road_id location cid authority_org details_hash
        report_count (m.complaints id) m))
