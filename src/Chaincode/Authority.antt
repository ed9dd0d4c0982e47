-- ===== src/Chaincode/Authority.antt =====
-- The transactions of authorities in chaincode/src/contract.ts: anchors, status and resolution.
use Prim.Native.String.{String}
use text.Mathlib.Text.{◌==◌ as str_eq}
use roadwatch.Prelude.{
  ℕ, ◌-◌, ◌||◌, ◌&&◌, ◌==◌, ◌++◌, ◌∷◌, Option, none, some, Bool, not, length, take, drop,
  if◌then◌else◌,
}
use roadwatch.Prelude.Text.{Text, codes}
use roadwatch.Chaincode.{
  Complaint, ComplaintStatus, filed, in_progress, resolved, rejected, ComplaintPii, AnchorRecord,
  Ledger, merkle_root_anchored, complaint_status_updated, complaint_resolved, Result, committed,
  failed, citizen_not_allowed, unauthorized_msp, complaint_missing, invalid_status,
  invalid_merkle_root, region_code_required, invalid_batch_size, same_text, put, put_complaint,
  is_some, mark_event_processed,
}

unfoldable pub put_anchor :
    Text → AnchorRecord → (Text → Option AnchorRecord) → Text → Option AnchorRecord
unfolding same_text
put_anchor root r anchors k = if same_text k root then some r else anchors k

-- `batch_size` is 0 where the argument is no number of at least 1; `timestamp` is that of the
-- transaction, in seconds.
unfoldable pub submit_merkle_root :
    (msp merkle_root : Text) (region_code : String) (batch_size : ℕ) (tx_id : String)
    (timestamp : ℕ)
    → Ledger
    → Result
unfolding put_anchor
submit_merkle_root msp merkle_root region_code batch_size tx_id timestamp l =
    let anchor : AnchorRecord = record {
      anchor_id = codes "ANCHOR_" ++ take 16 merkle_root;
      merkle_root = merkle_root;
      batch_size = batch_size;
      region_code = region_code;
      submitted_by = msp;
      tx_id = tx_id;
      timestamp = timestamp;
    } in
    if not (same_text msp (codes "NHAIMSP")) && not (same_text msp (codes "RoadWatchMSP"))
    then failed unauthorized_msp
    else if not (length merkle_root == 64)
    then failed invalid_merkle_root
    else if str_eq region_code ""
    then failed region_code_required
    else if batch_size == 0
    then failed invalid_batch_size
    else if is_some (l.anchors merkle_root)
    then committed l
    else committed (record l {
      anchors = put_anchor merkle_root anchor l.anchors;
      emitted = merkle_root_anchored anchor ∷ l.emitted;
    })

unfoldable pub is_citizen_org : Text → Bool
unfolding same_text
is_citizen_org msp = same_text msp (codes "CitizenOrgMSP")

-- `endsWith('MSP')`
unfoldable pub ends_with_msp : Text → Bool
unfolding same_text
ends_with_msp msp = same_text (drop (length msp - 3) msp) (codes "MSP")

-- The two checks of the caller that `UpdateComplaintStatus` and `ResolveComplaint` begin with.
unfoldable pub authority_only : Text → Result → Result
unfolding is_citizen_org ends_with_msp
authority_only msp rest =
    if is_citizen_org msp
    then failed citizen_not_allowed
    else if not (ends_with_msp msp) || is_citizen_org msp
    then failed unauthorized_msp
    else rest

-- `Object.values(ComplaintStatus)`
unfoldable pub status_of : String → Option ComplaintStatus
status_of s =
    if str_eq s "FILED"
    then some filed
    else if str_eq s "IN_PROGRESS"
    then some in_progress
    else if str_eq s "RESOLVED"
    then some resolved
    else if str_eq s "REJECTED"
    then some rejected
    else none

unfoldable pub set_status :
    String → String → ℕ → Option Complaint → Option ComplaintStatus → Ledger → Result
set_status id employee now none status l = failed complaint_missing
set_status id employee now (some c) none l = failed invalid_status
set_status id employee now (some c) (some status) l =
    let moved = put_complaint (record c { status = status; updated_at = now }) id l in
    committed
      (record moved { emitted = complaint_status_updated id status employee now ∷ moved.emitted })

-- `event_key` is the optional key of idempotency, where the empty one counts as none.
unfoldable pub update_complaint_status :
    (msp : Text) (now : ℕ) (id new_status employee event_key : String) → Ledger → Result
unfolding set_status
update_complaint_status msp now id new_status employee event_key l =
    if str_eq event_key ""
    then authority_only msp (set_status id employee now (l.complaints id) (status_of new_status) l)
    else mark_event_processed event_key l (λ m.
      authority_only msp (set_status id employee now (m.complaints id) (status_of new_status) m))

with_resolution : String → Option ComplaintPii → ComplaintPii
with_resolution cid none = record {
  citizen_id = none;
  location = none;
  initial_ipfs_cid = none;
  resolution_ipfs_cid = some cid;
}
with_resolution cid (some pii) = record pii { resolution_ipfs_cid = some cid }

-- `writable` is whether the peer takes the write of private data; the contract skips it otherwise.
unfoldable pub keep_evidence : Bool → String → String → Ledger → Ledger
unfolding with_resolution
keep_evidence writable id cid l =
    if writable
    then record l {
      private_data = put id (some (with_resolution cid (l.private_data id))) l.private_data;
    }
    else l

unfoldable pub resolve : Bool → String → String → String → ℕ → Option Complaint → Ledger → Result
unfolding keep_evidence
resolve writable id cid employee now none l = failed complaint_missing
resolve writable id cid employee now (some c) l =
    let moved = put_complaint (record c { status = resolved; updated_at = now }) id l in
    let kept = keep_evidence writable id cid moved in
    committed (record kept {
      emitted = complaint_resolved id (not (str_eq cid "")) employee now ∷ kept.emitted;
    })

unfoldable pub resolve_complaint :
    (msp : Text) (writable : Bool) (now : ℕ) (id cid employee : String) → Ledger → Result
unfolding resolve
resolve_complaint msp writable now id cid employee l =
    authority_only msp (resolve writable id cid employee now (l.complaints id) l)
