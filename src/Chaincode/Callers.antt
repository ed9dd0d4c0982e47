-- ===== src/Chaincode/Callers.antt =====
-- Who moves the status of a complaint, and what is written of an anchor.
use Prim.Native.String.{String}
use text.Mathlib.Text.{◌==◌ as str_eq}
use text.Mathlib.TextEquality.{eq_iff}
use roadwatch.Prelude.{
  ℕ, ◌≡◌, ◌⊎◌, inl, inr, refl, sym, List, Option, none, some, Bool, true, false, if◌then◌else◌,
  arith, Bool-cases,
}
use roadwatch.Prelude.Int.{ℤ}
use roadwatch.Prelude.Text.{Text}
use roadwatch.Chaincode.{
  citizen_not_allowed, unauthorized_msp, msp_not_allowed, complaint_exists, Complaint,
  ComplaintStatus, filed, resolved, ComplaintPii, Ledger, Result, committed, failed, put,
  put_complaint, new_complaint, is_some, store_pii, pii_of, count_or, merge_submission,
  mark_event_processed, create_complaint, upsert_complaint_submission, member,
}
use roadwatch.Chaincode.Authority.{
  submit_merkle_root, status_of, update_complaint_status, resolve_complaint, authority_only,
  set_status, resolve, keep_evidence, is_citizen_org, ends_with_msp,
}
use roadwatch.Chaincode.Transactions.{
  Tx, create_tx, upsert_tx, anchor_tx, update_tx, resolve_tx, submit, after,
}
use roadwatch.Chaincode.Laws.{submit_merkle_root-complaints}

-- An authority's transaction that asks for the status.
abbrev pub Moves : Tx → ComplaintStatus → String → Type 0
Moves (create_tx allowed msp transient now id citizen road location cid org hash) s key = ⊥
Moves (upsert_tx transient now id citizen road location cid org hash event_id count) s key = ⊥
Moves (anchor_tx msp root region size tx_id ts) s key = ⊥
Moves (update_tx msp now id new_status employee event_key) s key =
    (is_citizen_org msp ≡ false)
    × (ends_with_msp msp ≡ true)
    × (id ≡ key)
    × (status_of new_status ≡ some s)
Moves (resolve_tx msp writable now id cid employee) s key =
    (is_citizen_org msp ≡ false) × (ends_with_msp msp ≡ true) × (id ≡ key) × (resolved ≡ s)

-- The status under a key, before and after, if a move is what changed it.
abbrev Steady : (ComplaintStatus → Type 0) → Option Complaint → Option Complaint → Type 0
Steady moves none none = Unit
Steady moves none (some d) = d.status ≡ filed
Steady moves (some c) none = ⊥
Steady moves (some c) (some d) = (d.status ≡ c.status) ⊎ moves d.status

Steady-refl : (moves : ComplaintStatus → Type 0) (o : Option Complaint) → Steady moves o o
Steady-refl moves none = tt
Steady-refl moves (some c) = inl refl

put-Steady :
    (moves : String → ComplaintStatus → Type 0) (id : String) (d : Complaint)
    (state : String → Option Complaint)
    → Steady (moves id) (state id) (some d)
    → (key : String) → Steady (moves key) (state key) (put id (some d) state key)
put-Steady moves id d state h key = elim (Bool-cases (str_eq key id)) [
  | inl e ↦ rw (e, (eq_iff key id).0 e) h
  | inr n ↦ rw n (Steady-refl (moves key) (state key))
]

abbrev SteadyAll : (String → ComplaintStatus → Type 0) → Ledger → Result → Type 0
SteadyAll moves l r =
    (key : String) → Steady (moves key) (l.complaints key) ((after l r).complaints key)

same-SteadyAll :
    (moves : String → ComplaintStatus → Type 0) (l : Ledger) (r : Result)
    → (after l r).complaints ≡ l.complaints
    → SteadyAll moves l r
same-SteadyAll moves l r e key = rw e (Steady-refl (moves key) (l.complaints key))

abbrev Mover : Text → String → ComplaintStatus → String → ComplaintStatus → Type 0
Mover msp id asked key s =
    (is_citizen_org msp ≡ false) × (ends_with_msp msp ≡ true) × (id ≡ key) × (asked ≡ s)

guarded-SteadyAll :
    (moves : String → ComplaintStatus → Type 0) (msp : Text) (l : Ledger) (rest : Result)
    → (is_citizen_org msp ≡ false → ends_with_msp msp ≡ true → SteadyAll moves l rest)
    → SteadyAll moves l (authority_only msp rest)
unfolding authority_only
guarded-SteadyAll moves msp l rest h = elim (Bool-cases (is_citizen_org msp)) [
  | inl c ↦ rw c (same-SteadyAll moves l (failed citizen_not_allowed) refl)
  | inr n ↦ elim (Bool-cases (ends_with_msp msp)) [
    | inl e ↦ rw (n, e) (h n e)
    | inr o ↦ rw (n, o) (same-SteadyAll moves l (failed unauthorized_msp) refl)
  ]
]

set_status-SteadyAll :
    (moves : String → ComplaintStatus → Type 0) (id employee : String) (now : ℕ)
    (o : Option Complaint) (s : Option ComplaintStatus) (l : Ledger)
    → l.complaints id ≡ o
    → ((t : ComplaintStatus) → s ≡ some t → moves id t)
    → SteadyAll moves l (set_status id employee now o s l)
unfolding set_status
set_status-SteadyAll moves id employee now none s l e h =
    λ key. Steady-refl (moves key) (l.complaints key)
set_status-SteadyAll moves id employee now (some c) none l e h =
    λ key. Steady-refl (moves key) (l.complaints key)
set_status-SteadyAll moves id employee now (some c) (some t) l e h =
    put-Steady moves id (record c { status = t; updated_at = now }) l.complaints
      (rw e (inr (h t refl)))

resolve-SteadyAll :
    (moves : String → ComplaintStatus → Type 0) (writable : Bool) (id cid employee : String)
    (now : ℕ) (o : Option Complaint) (l : Ledger)
    → l.complaints id ≡ o
    → moves id resolved
    → SteadyAll moves l (resolve writable id cid employee now o l)
unfolding resolve keep_evidence
resolve-SteadyAll moves writable id cid employee now none l e h =
    λ key. Steady-refl (moves key) (l.complaints key)
resolve-SteadyAll moves true id cid employee now (some c) l e h =
    put-Steady moves id (record c { status = resolved; updated_at = now }) l.complaints
      (rw e (inr h))
resolve-SteadyAll moves false id cid employee now (some c) l e h =
    put-Steady moves id (record c { status = resolved; updated_at = now }) l.complaints
      (rw e (inr h))

event_SteadyAll :
    (moves : String → ComplaintStatus → Type 0) (l : Ledger) (events : String → Bool) (r : Result)
    → SteadyAll moves (record l { events = events }) r
    → SteadyAll moves l r
event_SteadyAll moves l events (committed m) h = h
event_SteadyAll moves l events (failed e) h = h

mark-SteadyAll :
    (moves : String → ComplaintStatus → Type 0) (event_id : String) (l : Ledger)
    (rest : Ledger → Result)
    → ((m : Ledger) → SteadyAll moves m (rest m))
    → SteadyAll moves l (mark_event_processed event_id l rest)
unfolding mark_event_processed
mark-SteadyAll moves event_id l rest h =
    let events = put event_id true l.events in
    let marked = record l { events = events } in
    elim (Bool-cases (l.events event_id)) [
      | inl seen ↦ rw seen (same-SteadyAll moves l (committed l) refl)
      | inr new ↦ rw new (event_SteadyAll moves l events (rest marked) (h marked))
    ]

store_pii-complaints :
    (id : String) (pii : ComplaintPii) (l : Ledger) → (store_pii id pii l).complaints ≡ l.complaints
unfolding store_pii
store_pii-complaints id pii l = ground arith

merge_submission-SteadyAll :
    (moves : String → ComplaintStatus → Type 0) (transient : Option ComplaintPii) (now : ℕ)
    (id citizen road location cid org hash : String) (count : ℤ) (o : Option Complaint) (l : Ledger)
    → l.complaints id ≡ o
    → SteadyAll moves l
        (committed (merge_submission transient now id citizen road location cid org hash count o l))
unfolding merge_submission
merge_submission-SteadyAll moves transient now id citizen road location cid org hash count none l
      e =
    λ key.
      let new = new_complaint id road hash org (count_or count 1) now in
      rw (store_pii-complaints id (pii_of transient citizen location cid) (put_complaint new id l))
        (put-Steady moves id new l.complaints (rw e refl) key)
merge_submission-SteadyAll moves transient now id citizen road location cid org hash count (some c)
      l e =
    put-Steady moves id _ l.complaints (rw e (inl refl))

create_complaint-SteadyAll :
    (moves : String → ComplaintStatus → Type 0) (allowed : List Text) (msp : Text)
    (transient : Option ComplaintPii) (now : ℕ) (id citizen road location cid org hash : String)
    (l : Ledger)
    → SteadyAll moves l
        (create_complaint allowed msp transient now id citizen road location cid org hash l)
unfolding create_complaint
create_complaint-SteadyAll moves allowed msp transient now id citizen road location cid org hash l =
    elim (Bool-cases (member msp allowed)) [
      | inr no_member ↦ rw no_member (same-SteadyAll moves l (failed msp_not_allowed) refl)
      | inl is_member ↦ rw is_member (fresh (l.complaints id) refl)
    ]
  where
    new : Complaint
    new = new_complaint id road hash org 1 now

    stored : Ledger
    stored = store_pii id (pii_of transient citizen location cid) (put_complaint new id l)

    fresh :
        (o : Option Complaint)
        → l.complaints id ≡ o
        → SteadyAll moves l (if is_some o then failed complaint_exists else committed stored)
    fresh (some c) e = same-SteadyAll moves l (failed complaint_exists) refl
    fresh none e = λ key.
        rw
          (store_pii-complaints id (pii_of transient citizen location cid) (put_complaint new id l))
          (put-Steady moves id new l.complaints (rw e refl) key)

submit-SteadyAll : (tx : Tx) (l : Ledger) → SteadyAll (λ key s. Moves tx s key) l (submit tx l)
unfolding upsert_complaint_submission update_complaint_status resolve_complaint
submit-SteadyAll (create_tx allowed msp transient now id citizen road location cid org hash) l =
    create_complaint-SteadyAll _ allowed msp transient now id citizen road location cid org hash l
submit-SteadyAll (upsert_tx transient now id citizen road location cid org hash event_id count) l =
    mark-SteadyAll (λ key s. ⊥) event_id l
      (λ m. committed (
        merge_submission transient now id citizen road location cid org hash count (m.complaints id)
          m))
      (λ m.
        merge_submission-SteadyAll (λ key s. ⊥) transient now id citizen road location cid org hash
          count (m.complaints id) m refl)
submit-SteadyAll (anchor_tx msp root region size tx_id ts) l =
    same-SteadyAll _ l (submit_merkle_root msp root region size tx_id ts l)
      (submit_merkle_root-complaints msp root region size tx_id ts l)
submit-SteadyAll (update_tx msp now id status employee key) l =
    let moves : String → ComplaintStatus → Type 0 =
      λ k s. Moves (update_tx msp now id status employee key) s k in
    let move : Ledger → Result =
      λ m. set_status id employee now (m.complaints id) (status_of status) m in
    let guarded : Ledger → Result = λ m. authority_only msp (move m) in
    let steady : (m : Ledger) → SteadyAll moves m (guarded m) = λ m.
      guarded-SteadyAll moves msp m (move m) (λ n e.
        set_status-SteadyAll moves id employee now (m.complaints id) (status_of status) m refl
          (λ t a. (n, e, refl, a))) in
    elim (Bool-cases (str_eq key "")) [
      | inl none_given ↦ rw none_given (steady l)
      | inr given ↦ rw given (mark-SteadyAll moves key l guarded steady)
    ]
submit-SteadyAll (resolve_tx msp writable now id cid employee) l =
    let moves : String → ComplaintStatus → Type 0 =
      λ k s. Moves (resolve_tx msp writable now id cid employee) s k in
    guarded-SteadyAll moves msp l (resolve writable id cid employee now (l.complaints id) l) (λ n e.
      resolve-SteadyAll moves writable id cid employee now (l.complaints id) l refl
        (n, e, refl, refl))

-- A transaction that finds a complaint leaves it there; where the status is another afterwards, the
-- transaction is one to update or resolve that complaint, asks for that status, and its caller is
-- of an MSP whose name ends in MSP and that is not CitizenOrgMSP.
pub submit-Moves :
    (tx : Tx) (l : Ledger) (key : String) (c : Complaint)
    → l.complaints key ≡ some c
    → (d : Complaint) × ((after l (submit tx l)).complaints key ≡ some d)
      × ((d.status ≡ c.status) ⊎ Moves tx d.status key)
submit-Moves tx l key c e =
    found (l.complaints key) ((after l (submit tx l)).complaints key) e (submit-SteadyAll tx l key)
  where
    found :
        (before o : Option Complaint)
        → before ≡ some c
        → Steady (λ s. Moves tx s key) before o
        → (d : Complaint) × (o ≡ some d) × ((d.status ≡ c.status) ⊎ Moves tx d.status key)
    found none o b h = absurd (ground arith)
    found (some b') none b h = absurd h
    found (some b') (some d) b h = (d, refl, rw (sym (some_inj b' b)) h)
      where
        some_inj : (x : Complaint) → some x ≡ some c → x ≡ c
        some_inj x e = cc
