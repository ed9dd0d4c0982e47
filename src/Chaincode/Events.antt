-- ===== src/Chaincode/Events.antt =====
-- An event that was processed once stays so, and is not processed again.
use Prim.Native.String.{String}
use text.Mathlib.Text.{◌==◌ as str_eq}
use text.Mathlib.TextEquality.{eq_iff}
use roadwatch.Prelude.{
  ℕ, ◌≡◌, inl, inr, refl, List, [], ◌∷◌, Option, none, some, Bool, true, false, arith, Bool-cases,
}
use roadwatch.Prelude.Int.{ℤ}
use roadwatch.Prelude.Text.{Text}
use roadwatch.Chaincode.{
  Complaint, ComplaintStatus, ComplaintPii, Ledger, Result, committed, failed, put, store_pii,
  merge_submission, mark_event_processed, create_complaint, upsert_complaint_submission,
}
use roadwatch.Chaincode.Authority.{
  submit_merkle_root, status_of, update_complaint_status, resolve_complaint, authority_only,
  set_status, resolve, keep_evidence,
}
use roadwatch.Chaincode.Transactions.{
  Tx, create_tx, upsert_tx, anchor_tx, update_tx, resolve_tx, submit, after, run,
}

-- The events of a result, where there is one, are those given.
abbrev HasEvents : (String → Bool) → Result → Type 0
HasEvents events (committed m) = m.events ≡ events
HasEvents events (failed e) = Unit

merge_submission-events :
    (transient : Option ComplaintPii) (now : ℕ) (id citizen road location cid org hash : String)
    (count : ℤ) (o : Option Complaint) (l : Ledger)
    → (merge_submission transient now id citizen road location cid org hash count o l).events
      ≡ l.events
unfolding merge_submission store_pii
merge_submission-events transient now id citizen road location cid org hash count none l =
    ground arith
merge_submission-events transient now id citizen road location cid org hash count (some c) l = refl

set_status-HasEvents :
    (id employee : String) (now : ℕ) (o : Option Complaint) (s : Option ComplaintStatus)
    (l : Ledger)
    → HasEvents l.events (set_status id employee now o s l)
unfolding set_status
set_status-HasEvents id employee now none s l = tt
set_status-HasEvents id employee now (some c) none l = tt
set_status-HasEvents id employee now (some c) (some s) l = refl

resolve-HasEvents :
    (writable : Bool) (id cid employee : String) (now : ℕ) (o : Option Complaint) (l : Ledger)
    → HasEvents l.events (resolve writable id cid employee now o l)
unfolding resolve keep_evidence
resolve-HasEvents writable id cid employee now none l = tt
resolve-HasEvents true id cid employee now (some c) l = refl
resolve-HasEvents false id cid employee now (some c) l = refl

authority_only-HasEvents :
    (msp : Text) (events : String → Bool) (r : Result)
    → HasEvents events r
    → HasEvents events (authority_only msp r)
unfolding authority_only
authority_only-HasEvents msp events r h = ground (arith, h)

-- An event that is marked is marked after.
abbrev Grows : String → Ledger → Result → Type 0
Grows event l r = (l.events event ≡ true) → (after l r).events event ≡ true

HasEvents-Grows :
    (event : String) (l : Ledger) (r : Result) → HasEvents l.events r → Grows event l r
HasEvents-Grows event l (committed m) h e = rw h e
HasEvents-Grows event l (failed x) h e = e

mark-Grows :
    (event key : String) (l : Ledger) (rest : Ledger → Result)
    → ((m : Ledger) → HasEvents m.events (rest m))
    → Grows event l (mark_event_processed key l rest)
unfolding mark_event_processed
mark-Grows event key l rest h e = elim (Bool-cases (l.events key)) [
  | inl seen ↦ rw seen e
  | inr new ↦ rw new (kept (rest marked) (h marked))
]
  where
    marked : Ledger
    marked = record l { events = put key true l.events }

    put_true : put key true l.events event ≡ true
    put_true = elim (Bool-cases (str_eq event key)) [ inl s ↦ rw s refl | inr n ↦ rw n e ]

    kept : (r : Result) → HasEvents marked.events r → (after l r).events event ≡ true
    kept (committed m) k = rw k put_true
    kept (failed x) k = e

create_complaint-events :
    (allowed : List Text) (msp : Text) (transient : Option ComplaintPii) (now : ℕ)
    (id citizen road location cid org hash : String) (l : Ledger)
    → (after l
        (create_complaint allowed msp transient now id citizen road location cid org hash l)).events
      ≡ l.events
unfolding create_complaint store_pii
create_complaint-events allowed msp transient now id citizen road location cid org hash l =
    ground arith

submit_merkle_root-events :
    (msp root : Text) (region : String) (size : ℕ) (tx_id : String) (ts : ℕ) (l : Ledger)
    → (after l (submit_merkle_root msp root region size tx_id ts l)).events ≡ l.events
unfolding submit_merkle_root
submit_merkle_root-events msp root region size tx_id ts l = ground arith

submit-Grows : (event : String) (tx : Tx) (l : Ledger) → Grows event l (submit tx l)
unfolding upsert_complaint_submission update_complaint_status resolve_complaint
submit-Grows event (create_tx allowed msp transient now id citizen road location cid org hash) l e =
    rw (create_complaint-events allowed msp transient now id citizen road location cid org hash l) e
submit-Grows event (upsert_tx transient now id citizen road location cid org hash key count) l e =
    mark-Grows event key l
      (λ m. committed (
        merge_submission transient now id citizen road location cid org hash count (m.complaints id)
          m))
      (λ m.
        merge_submission-events transient now id citizen road location cid org hash count
          (m.complaints id) m)
      e
submit-Grows event (anchor_tx msp root region size tx_id ts) l e =
    rw (submit_merkle_root-events msp root region size tx_id ts l) e
submit-Grows event (update_tx msp now id status employee key) l e =
    let move : Ledger → Result =
      λ m. set_status id employee now (m.complaints id) (status_of status) m in
    let guarded : Ledger → Result = λ m. authority_only msp (move m) in
    let has : (m : Ledger) → HasEvents m.events (guarded m) = λ m.
      authority_only-HasEvents msp m.events (move m)
        (set_status-HasEvents id employee now (m.complaints id) (status_of status) m) in
    elim (Bool-cases (str_eq key "")) [
      | inl none_given ↦ rw none_given (HasEvents-Grows event l (guarded l) (has l) e)
      | inr given ↦ rw given (mark-Grows event key l guarded has e)
    ]
submit-Grows event (resolve_tx msp writable now id cid employee) l e =
    let r = resolve writable id cid employee now (l.complaints id) l in
    HasEvents-Grows event l (authority_only msp r)
      (authority_only-HasEvents msp l.events r
        (resolve-HasEvents writable id cid employee now (l.complaints id) l))
      e

run-events :
    (event : String) (txs : List Tx) (l : Ledger)
    → l.events event ≡ true
    → (run txs l).events event ≡ true
run-events event [] l e = e
run-events event (tx ∷ txs) l e =
    run-events event txs (after l (submit tx l)) (submit-Grows event tx l e)

upsert_marks :
    (transient : Option ComplaintPii) (now : ℕ)
    (id citizen road location cid org hash event : String) (count : ℤ) (l : Ledger)
    → (after l (
          upsert_complaint_submission transient now id citizen road location cid org hash event
            count l)).events
        event
      ≡ true
unfolding upsert_complaint_submission mark_event_processed
upsert_marks transient now id citizen road location cid org hash event count l =
    elim (Bool-cases (l.events event)) [
      | inl seen ↦ rw seen seen
      | inr new ↦
          let marked = record l { events = put event true l.events } in
          rw
            (
              new,
              merge_submission-events transient now id citizen road location cid org hash count
                  (l.complaints id) marked,
              (eq_iff event event).1 refl,
            )
            refl
    ]

-- An upsert never fails, and once one of an event has been submitted, whatever transactions follow,
-- an upsert of the same event, with whatever arguments, leaves the ledger as it is.
pub upsert_once :
    (transient transient' : Option ComplaintPii) (now now' : ℕ)
    (id citizen road location cid org hash event : String)
    (id' citizen' road' location' cid' org' hash' : String) (count count' : ℤ) (txs : List Tx)
    (l : Ledger)
    → let first =
        upsert_complaint_submission transient now id citizen road location cid org hash event count
          l in
      ((m : Ledger) × (first ≡ committed m)
        × (upsert_complaint_submission transient' now' id' citizen' road' location' cid' org' hash'
              event count'
              (run txs m)
            ≡ committed (run txs m)))
unfolding upsert_complaint_submission mark_event_processed
upsert_once transient transient' now now' id citizen road location cid org hash event id' citizen'
      road' location' cid' org' hash' count count' txs l =
    let first =
      upsert_complaint_submission transient now id citizen road location cid org hash event count
        l in
    let seen =
      run-events event txs (after l first)
        (upsert_marks transient now id citizen road location cid org hash event count l) in
    (
      after l first,
      elim (Bool-cases (l.events event)) [ inl s ↦ rw s refl | inr n ↦ rw n refl ],
      rw seen refl,
    )
