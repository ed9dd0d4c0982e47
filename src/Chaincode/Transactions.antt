-- ===== src/Chaincode/Transactions.antt =====
-- The transactions of chaincode/src/contract.ts that write, and the ledger after a sequence of them.
use Prim.Native.String.{String}
use roadwatch.Prelude.{ℕ, List, [], ◌∷◌, Option, Bool}
use roadwatch.Prelude.Int.{ℤ}
use roadwatch.Prelude.Text.{Text}
use roadwatch.Chaincode.{
  ComplaintPii, Ledger, Result, committed, failed, create_complaint, upsert_complaint_submission,
}
use roadwatch.Chaincode.Authority.{submit_merkle_root, update_complaint_status, resolve_complaint}

pub data Tx : Type 0 where
  create_tx :
      List Text
      → Text
      → Option ComplaintPii
      → ℕ
      → (id citizen_id road_id location cid authority_org details_hash : String) → Tx
  upsert_tx :
      Option ComplaintPii
      → ℕ
      → (id citizen_id road_id location cid authority_org details_hash event_id : String) → ℤ
      → Tx
  anchor_tx : (msp merkle_root : Text) → String → ℕ → String → ℕ → Tx
  update_tx : Text → ℕ → (id new_status employee event_key : String) → Tx
  resolve_tx : Text → Bool → ℕ → (id cid employee : String) → Tx

abbrev pub submit : Tx → Ledger → Result
submit (create_tx allowed msp transient now id citizen road location cid org hash) l =
    create_complaint allowed msp transient now id citizen road location cid org hash l
submit (upsert_tx transient now id citizen road location cid org hash event_id count) l =
    upsert_complaint_submission transient now id citizen road location cid org hash event_id count l
submit (anchor_tx msp root region size tx_id ts) l =
    submit_merkle_root msp root region size tx_id ts l
submit (update_tx msp now id status employee key) l =
    update_complaint_status msp now id status employee key l
submit (resolve_tx msp writable now id cid employee) l =
    resolve_complaint msp writable now id cid employee l

-- The ledger after a transaction: one that throws leaves it as it was.
abbrev pub after : Ledger → Result → Ledger
after l (committed m) = m
after l (failed e) = l

abbrev pub run : List Tx → Ledger → Ledger
run [] l = l
run (tx ∷ txs) l = run txs (after l (submit tx l))
