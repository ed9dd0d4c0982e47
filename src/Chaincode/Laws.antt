-- ===== src/Chaincode/Laws.antt =====
-- What any sequence of transactions keeps of a complaint, and events that are sent twice.
use Prim.Native.String.{String}
use text.Mathlib.Text.{◌==◌ as str_eq}
use text.Mathlib.TextEquality.{eq_iff}
use roadwatch.Prelude.{
  ℕ, ◌+◌, ◌≤◌, ◌≡◌, inl, inr, refl, ◌∙◌, min, List, [], ◌∷◌, Option, none, some, Bool, true, false,
  not, if◌then◌else◌, arith, Bool-cases,
}
use roadwatch.Prelude.Int.{ℤ, pos, negsuc}
use roadwatch.Prelude.Text.{Text}
use roadwatch.Chaincode.{
  Complaint, ComplaintStatus, ComplaintPii, Ledger, Result, committed, failed, put, is_some,
  new_complaint, put_complaint, pii_of, store_pii, count_or, merge_submission, mark_event_processed,
  citizen_not_allowed, unauthorized_msp, msp_not_allowed, complaint_exists, resolved,
  create_complaint, upsert_complaint_submission, member,
}
use roadwatch.Chaincode.Authority.{
  submit_merkle_root, update_complaint_status, resolve_complaint, authority_only, set_status,
  resolve, keep_evidence, status_of, is_citizen_org,
}
use roadwatch.Chaincode.Transactions.{
  Tx, create_tx, upsert_tx, anchor_tx, update_tx, resolve_tx, submit, after, run,
}

-- A complaint under its key, before and after: it stays, with its identity and time of creation,
-- and a new one stands under its own id with at least one report.
abbrev pub Kept : String → Option Complaint → Option Complaint → Type 0
Kept key none none = Unit
Kept key none (some d) = (d.id ≡ key) × (1 ≤ d.report_count)
Kept key (some c) none = ⊥
Kept key (some c) (some d) =
    (d.id ≡ c.id)
    × (d.road_id ≡ c.road_id)
    × (d.details_hash ≡ c.details_hash)
    × (d.authority_org ≡ c.authority_org)
    × (d.created_at ≡ c.created_at)
    × (min 1 c.report_count ≤ d.report_count)

Kept-refl : (key : String) (o : Option Complaint) → Kept key o o
Kept-refl key none = tt
Kept-refl key (some c) = (refl, refl, refl, refl, refl, omega arith)

Kept-trans : (key : String) (a b c : Option Complaint) → Kept key a b → Kept key b c → Kept key a c
Kept-trans key none none c h k = k
Kept-trans key none (some b) none h k = absurd k
Kept-trans key none (some b) (some c) (i, n) (j, _, _, _, _, m) = (j ∙ i, omega arith)
Kept-trans key (some a) none c h k = absurd h
Kept-trans key (some a) (some b) none h k = absurd k
Kept-trans key (some a) (some b) (some c) (i, r, d, o, t, n) (i', r', d', o', t', n') =
    (i' ∙ i, r' ∙ r, d' ∙ d, o' ∙ o, t' ∙ t, omega arith)

-- Every key of the ledger.
abbrev KeptAll : Ledger → Ledger → Type 0
KeptAll l m = (key : String) → Kept key (l.complaints key) (m.complaints key)

KeptAll-refl : (l : Ledger) → KeptAll l l
KeptAll-refl l key = Kept-refl key (l.complaints key)

put-Kept :
    (id : String) (d : Complaint) (state : String → Option Complaint)
    → Kept id (state id) (some d)
    → (key : String) → Kept key (state key) (put id (some d) state key)
put-Kept id d state h key = elim (Bool-cases (str_eq key id)) [
  | inl e ↦ rw (e, (eq_iff key id).0 e) h
  | inr n ↦ rw n (Kept-refl key (state key))
]

abbrev KeepsAll : Ledger → Result → Type 0
KeepsAll l r = KeptAll l (after l r)

if_KeepsAll :
    (b : Bool) (l : Ledger) (x y : Result)
    → KeepsAll l x
    → KeepsAll l y
    → KeepsAll l (if b then x else y)
if_KeepsAll true l x y hx hy = hx
if_KeepsAll false l x y hx hy = hy

store_pii-KeptAll :
    (id : String) (pii : ComplaintPii) (l m : Ledger) → KeptAll l m → KeptAll l (store_pii id pii m)
unfolding store_pii
store_pii-KeptAll id pii l m h = if_KeptAll _
  where
    if_KeptAll :
        (b : Bool)
        → KeptAll l (if b then record m { private_data = put id (some pii) m.private_data } else m)
    if_KeptAll true = h
    if_KeptAll false = h

event_KeepsAll :
    (l : Ledger) (events : String → Bool) (r : Result)
    → KeepsAll (record l { events = events }) r
    → KeepsAll l r
event_KeepsAll l events (committed m) h = h
event_KeepsAll l events (failed e) h = h

mark-KeepsAll :
    (event_id : String) (l : Ledger) (rest : Ledger → Result)
    → ((m : Ledger) → KeepsAll m (rest m))
    → KeepsAll l (mark_event_processed event_id l rest)
unfolding mark_event_processed
mark-KeepsAll event_id l rest h =
    let events = put event_id true l.events in
    if_KeepsAll (l.events event_id) l (committed l) (rest (record l { events = events }))
      (KeptAll-refl l)
      (event_KeepsAll l events (rest (record l { events = events }))
        (h (record l { events = events })))

authority_only-KeepsAll :
    (msp : Text) (l : Ledger) (rest : Result)
    → KeepsAll l rest
    → KeepsAll l (authority_only msp rest)
unfolding authority_only
authority_only-KeepsAll msp l rest h =
    if_KeepsAll (is_citizen_org msp) l (failed citizen_not_allowed) _ (KeptAll-refl l)
      (if_KeepsAll _ l (failed unauthorized_msp) rest (KeptAll-refl l) h)

new-Kept :
    (id road hash org : String) (count now : ℕ) (l : Ledger)
    → l.complaints id ≡ none
    → 1 ≤ count
    → KeptAll l (put_complaint (new_complaint id road hash org count now) id l)
new-Kept id road hash org count now l e n =
    put-Kept id (new_complaint id road hash org count now) l.complaints (rw e (refl, n))

some_at :
    (l : Ledger) (id : String) (c d : Complaint)
    → l.complaints id ≡ some c
    → Kept id (some c) (some d)
    → KeptAll l (put_complaint d id l)
some_at l id c d e h = put-Kept id d l.complaints (rw e h)

count_or-pos : (n : ℤ) (other : ℕ) → 1 ≤ count_or n other
unfolding count_or
count_or-pos (pos n) other = ground arith
count_or-pos (negsuc n) other = omega arith

create_complaint-KeepsAll :
    (allowed : List Text) (msp : Text) (transient : Option ComplaintPii) (now : ℕ)
    (id citizen road location cid org hash : String) (l : Ledger)
    → KeepsAll l
        (create_complaint allowed msp transient now id citizen road location cid org hash l)
unfolding create_complaint
create_complaint-KeepsAll allowed msp transient now id citizen road location cid org hash l =
    if_KeepsAll (not (member msp allowed)) l (failed msp_not_allowed)
      (if is_some (l.complaints id) then failed complaint_exists else committed stored)
      (KeptAll-refl l) (fresh (l.complaints id) refl)
  where
    stored : Ledger
    stored =
        store_pii id (pii_of transient citizen location cid)
          (put_complaint (new_complaint id road hash org 1 now) id l)

    fresh :
        (o : Option Complaint)
        → l.complaints id ≡ o
        → KeepsAll l (if is_some o then failed complaint_exists else committed stored)
    fresh (some c) e = KeptAll-refl l
    fresh none e =
        store_pii-KeptAll id (pii_of transient citizen location cid) l _
          (new-Kept id road hash org 1 now l e (omega arith))

merge_submission-KeptAll :
    (transient : Option ComplaintPii) (now : ℕ) (id citizen road location cid org hash : String)
    (count : ℤ) (o : Option Complaint) (l : Ledger)
    → l.complaints id ≡ o
    → KeptAll l (merge_submission transient now id citizen road location cid org hash count o l)
unfolding merge_submission
merge_submission-KeptAll transient now id citizen road location cid org hash count none l e =
    store_pii-KeptAll id (pii_of transient citizen location cid) l _
      (new-Kept id road hash org (count_or count 1) now l e (count_or-pos count 1))
merge_submission-KeptAll transient now id citizen road location cid org hash count (some c) l e =
    some_at l id c _ e
      (refl, refl, refl, refl, refl, omega (arith, count_or-pos count (c.report_count + 1)))

set_status-KeepsAll :
    (id employee : String) (now : ℕ) (o : Option Complaint) (s : Option ComplaintStatus)
    (l : Ledger)
    → l.complaints id ≡ o
    → KeepsAll l (set_status id employee now o s l)
unfolding set_status
set_status-KeepsAll id employee now none s l e = KeptAll-refl l
set_status-KeepsAll id employee now (some c) none l e = KeptAll-refl l
set_status-KeepsAll id employee now (some c) (some s) l e =
    some_at l id c (record c { status = s; updated_at = now }) e
      (refl, refl, refl, refl, refl, omega arith)

resolve-KeepsAll :
    (writable : Bool) (id cid employee : String) (now : ℕ) (o : Option Complaint) (l : Ledger)
    → l.complaints id ≡ o
    → KeepsAll l (resolve writable id cid employee now o l)
unfolding resolve keep_evidence
resolve-KeepsAll writable id cid employee now none l e = KeptAll-refl l
resolve-KeepsAll true id cid employee now (some c) l e =
    some_at l id c (record c { status = resolved; updated_at = now }) e
      (refl, refl, refl, refl, refl, omega arith)
resolve-KeepsAll false id cid employee now (some c) l e =
    some_at l id c (record c { status = resolved; updated_at = now }) e
      (refl, refl, refl, refl, refl, omega arith)

same_KeptAll : (l m : Ledger) → m.complaints ≡ l.complaints → KeptAll l m
same_KeptAll l m e key = rw e (Kept-refl key (l.complaints key))

pub submit_merkle_root-complaints :
    (msp root : Text) (region : String) (size : ℕ) (tx_id : String) (ts : ℕ) (l : Ledger)
    → (after l (submit_merkle_root msp root region size tx_id ts l)).complaints ≡ l.complaints
unfolding submit_merkle_root
submit_merkle_root-complaints msp root region size tx_id ts l = ground arith

submit-KeepsAll : (tx : Tx) (l : Ledger) → KeepsAll l (submit tx l)
unfolding upsert_complaint_submission submit_merkle_root update_complaint_status resolve_complaint
submit-KeepsAll (create_tx allowed msp transient now id citizen road location cid org hash) l =
    create_complaint-KeepsAll allowed msp transient now id citizen road location cid org hash l
submit-KeepsAll (upsert_tx transient now id citizen road location cid org hash event_id count) l =
    mark-KeepsAll event_id l
      (λ m. committed (
        merge_submission transient now id citizen road location cid org hash count (m.complaints id)
          m))
      (λ m.
        merge_submission-KeptAll transient now id citizen road location cid org hash count
          (m.complaints id) m refl)
submit-KeepsAll (anchor_tx msp root region size tx_id ts) l =
    same_KeptAll l (after l (submit_merkle_root msp root region size tx_id ts l))
      (submit_merkle_root-complaints msp root region size tx_id ts l)
submit-KeepsAll (update_tx msp now id status employee key) l =
    let move : Ledger → Result =
      λ m. set_status id employee now (m.complaints id) (status_of status) m in
    let guarded : Ledger → Result = λ m. authority_only msp (move m) in
    let kept : (m : Ledger) → KeepsAll m (guarded m) = λ m.
      authority_only-KeepsAll msp m (move m)
        (set_status-KeepsAll id employee now (m.complaints id) (status_of status) m refl) in
    if_KeepsAll (str_eq key "") l (guarded l) (mark_event_processed key l guarded) (kept l)
      (mark-KeepsAll key l guarded kept)
submit-KeepsAll (resolve_tx msp writable now id cid employee) l =
    authority_only-KeepsAll msp l (resolve writable id cid employee now (l.complaints id) l)
      (resolve-KeepsAll writable id cid employee now (l.complaints id) l refl)

-- Whatever transactions are submitted, a complaint stays under its key with its identity, its
-- authority and its time of creation, its report count does not fall to 0, and a complaint that is
-- new stands under its own id with at least one report.
pub run-Kept :
    (txs : List Tx) (l : Ledger) (key : String)
    → Kept key (l.complaints key) ((run txs l).complaints key)
run-Kept [] l key = Kept-refl key (l.complaints key)
run-Kept (tx ∷ txs) l key =
    Kept-trans key _ _ _ (submit-KeepsAll tx l key) (run-Kept txs (after l (submit tx l)) key)
