-- ===== src/Anchor/Races.antt =====
-- Two ways in which services/fabric-anchor-consumer/index.ts commits past a message that is not
-- settled: a poll that comes between the two steps of a flush, and a poll of which nothing can be
-- read while entries wait in the batch.
use mathlib.Core.List.{Memᴰ}
use mathlib.Core.List.Memᴰ
use roadwatch.Prelude.{
  ℕ, ◌≤◌, ◌<◌, ◌≡◌, ◌≢◌, inl, inr, refl, sym, ap, subst, ◌∙◌, ◌==◌, Option, none, some, Bool, true,
  false, List, [], ◌∷◌, ◌++◌, map, if◌then◌else◌, arith,
}
use roadwatch.Anchor.{
  ConsumedMessage, Item, Call, create_complaint, update_complaint_status, mark_processed, Anchor,
  put, consume, commit, validate, take_in, add_all, malformed_only, poll, is_none,
}
use roadwatch.Anchor.Flush.{
  run_call, run_calls, plan, proofs, anchor_calls, with_topic, is_submitted, is_status, flush_begin,
  flush_end, commit_and_clear,
}
use roadwatch.Anchor.Laws.{run_calls-SameBatch, run_calls-append}
use roadwatch.Anchor.Delivery.{Settled, Held}

run_calls-dead : (cs : List Call) (s : Anchor) → (run_calls cs s).dead_letters ≡ s.dead_letters
unfolding run_calls
run_calls-dead [] s = refl
run_calls-dead (c ∷ cs) s = run_calls-dead cs (run_call c s)

-- Calls that mark nothing.
creates-processed :
    (items : List Item) (s : Anchor)
    → (run_calls (map create_complaint items) s).processed ≡ s.processed
unfolding run_calls
creates-processed [] s = refl
creates-processed (x ∷ items) s = creates-processed items (run_call (create_complaint x) s)

updates-processed :
    (items : List Item) (s : Anchor)
    → (run_calls (map update_complaint_status items) s).processed ≡ s.processed
unfolding run_calls
updates-processed [] s = refl
updates-processed (x ∷ items) s = updates-processed items (run_call (update_complaint_status x) s)

proofs-processed :
    (items : List Item) (s : Anchor) → (run_calls (proofs items) s).processed ≡ s.processed
unfolding run_calls
proofs-processed [] s = refl
proofs-processed (x ∷ items) s = proofs-processed items (
    run_call (Call.publish_anchored x)
      (run_call (Call.store_proof_by_batch x) (run_call (Call.store_proof x) s)))

anchors-processed :
    (items : List Item) (s : Anchor) → (run_calls (anchor_calls items) s).processed ≡ s.processed
unfolding run_calls
anchors-processed [] s = refl
anchors-processed (x ∷ items) s =
    proofs-processed (x ∷ items) (run_call (Call.submit_root (x ∷ items)) s)

marks-processed_ne :
    (items : List Item) (s : Anchor) (k : ℕ)
    → ((x : Item) → Memᴰ x items → x.key ≢ k)
    → (run_calls (map (λ (i : Item). mark_processed i.key) items) s).processed k ≡ s.processed k
unfolding run_calls
marks-processed_ne [] s k h = refl
marks-processed_ne (x ∷ items) s k h =
    marks-processed_ne items (run_call (mark_processed x.key) s) k (λ y m. h y (Memᴰ.tail m))
    ∙ put_ne x.key s.processed (h x (Memᴰ.head refl))
  where
    put_ne : (key : ℕ) (f : ℕ → Bool) → key ≢ k → put key true f k ≡ f k
    put_ne key f ne =
        let other : (k == key) ≡ false = ground (arith, λ (e : k ≡ key). ne (sym e)) in rw other

-- The calls of a flush mark no other key than those of its entries.
plan-processed_ne :
    (items : List Item) (s : Anchor) (k : ℕ)
    → ((x : Item) → Memᴰ x items → x.key ≢ k)
    → (run_calls (plan items) s).processed k ≡ s.processed k
unfolding plan
plan-processed_ne items s k h =
    let a = map create_complaint (with_topic is_submitted items) in
    let b = map update_complaint_status (with_topic is_status items) in
    let c = anchor_calls (with_topic is_submitted items) in
    let d = map (λ (i : Item). mark_processed i.key) items in
    let t = run_calls a s in
    let u = run_calls b t in
    ap (λ (x : Anchor). x.processed k)
      (run_calls-append a (b ++ (c ++ d)) s
        ∙ run_calls-append b (c ++ d) t
        ∙ run_calls-append c d u)
    ∙ marks-processed_ne items (run_calls c u) k h
    ∙ ap (λ (f : ℕ → Bool). f k)
        (anchors-processed (with_topic is_submitted items) u
          ∙ updates-processed (with_topic is_status items) t
          ∙ creates-processed (with_topic is_submitted items) s)

-- A flush without a fault ends like this.
flush_end-none :
    (unique : List Item) (t : Anchor)
    → (cs : List Call) × (flush_end unique none t ≡ commit_and_clear (run_calls cs t))
      × ((k : ℕ)
          → ((x : Item) → Memᴰ x unique → x.key ≢ k)
          → (run_calls cs t).processed k ≡ t.processed k)
unfolding flush_end run_calls
flush_end-none [] t = ([], refl, λ k h. refl)
flush_end-none (x ∷ unique) t =
    (plan (x ∷ unique), refl, λ k h. plan-processed_ne (x ∷ unique) t k h)

abbrev noted : ConsumedMessage → Anchor → Anchor
noted m s = record s { pending_commit_offsets = put m.partition (some m.offset) (λ p. none) }

poll_valid :
    (s : Anchor) (m : ConsumedMessage) (item : Item)
    → validate m ≡ some item
    → poll (m ∷ []) s ≡ record (noted m s) { batch = s.batch ++ item ∷ [] }
unfolding poll add_all consume malformed_only
poll_valid s m item v =
    ap
      (λ (o : Option Item).
        if (if is_none o then true else false)
        then commit (take_in m o (noted m s))
        else take_in m o (noted m s))
      v

poll_invalid :
    (s : Anchor) (m : ConsumedMessage)
    → validate m ≡ none
    → poll (m ∷ []) s ≡ commit (record (noted m s) { dead_letters = s.dead_letters ++ m ∷ [] })
unfolding poll add_all consume malformed_only
poll_invalid s m v =
    ap
      (λ (o : Option Item).
        if (if is_none o then true else false)
        then commit (take_in m o (noted m s))
        else take_in m o (noted m s))
      v

put-at : (k : ℕ) (o : Option ℕ) (f : ℕ → Option ℕ) → put k o f k ≡ o
put-at k o f = ground arith

-- The message is passed over: neither settled nor in the batch, and below the committed offset.
abbrev pub Lost : Anchor → ConsumedMessage → Type 0
Lost t m = (¬ Settled t m) × (¬ Held t m) × (m.offset < t.committed m.partition)

cleared-Lost :
    (p : Anchor) (m : ConsumedMessage) (item : Item) (cs : List Call)
    → validate m ≡ some item
    → (run_calls cs p).processed item.key ≡ false
    → (¬ Memᴰ m p.dead_letters)
    → p.pending_commit_offsets m.partition ≡ some m.offset
    → Lost (commit_and_clear (run_calls cs p)) m
unfolding commit
cleared-Lost p m item cs v new fine at = (unsettled, λ h. absurd (elim (h.2) [ ]), past)
  where
    unsettled : ¬ Settled (commit_and_clear (run_calls cs p)) m
    unsettled (inl d) =
        fine (subst (λ (l : List ConsumedMessage). Memᴰ m l) (run_calls-dead cs p) d)
    unsettled (inr (x, w, h)) = cc

    past : m.offset < (commit_and_clear (run_calls cs p)).committed m.partition
    past =
        rw (ap (λ (f : ℕ → Option ℕ). f m.partition) ((run_calls-SameBatch cs p).2) ∙ at)
          (omega arith)

-- A message that is polled between the two steps of a flush which meets no fault, of a key that is
-- neither processed nor of one of the entries that the flush sends, and which is no dead letter: it
-- is neither settled nor in the batch afterwards, and the offset committed is past it.
pub poll-flush_end :
    (s : Anchor) (m : ConsumedMessage) (item : Item)
    → validate m ≡ some item
    → s.processed item.key ≡ false
    → ((x : Item) → Memᴰ x (flush_begin s) → x.key ≢ item.key)
    → (¬ Memᴰ m s.dead_letters)
    → Lost (flush_end (flush_begin s) none (poll (m ∷ []) s)) m
poll-flush_end s m item v new other fine =
    let p = record (noted m s) { batch = s.batch ++ item ∷ [] } in
    let (cs, e, h) = flush_end-none (flush_begin s) p in
    subst (λ (t : Anchor). Lost t m)
      (sym (ap (flush_end (flush_begin s) none) (poll_valid s m item v) ∙ e))
      (cleared-Lost p m item cs v (h item.key other ∙ new) fine
        (put-at m.partition (some m.offset) (λ p. none)))

-- A message that cannot be read, polled alone while a message of the same partition with no higher
-- offset waits unsettled: that one stays unsettled, and the offset committed is past it.
pub poll-malformed :
    (s : Anchor) (m below : ConsumedMessage)
    → validate m ≡ none
    → below.partition ≡ m.partition
    → below.offset ≤ m.offset
    → below ≢ m
    → (¬ Settled s below)
    → (¬ Settled (poll (m ∷ []) s) below)
      × (below.offset < (poll (m ∷ []) s).committed below.partition)
unfolding commit
poll-malformed s m below bad same le ne unsettled =
    subst (λ (t : Anchor). (¬ Settled t below) × (below.offset < t.committed below.partition))
      (sym (poll_invalid s m bad)) (stays, passed)
  where
    stays :
        ¬ Settled (commit (record (noted m s) { dead_letters = s.dead_letters ++ m ∷ [] })) below
    stays (inl d) = elim (Memᴰ.append_cases s.dead_letters d) [
      | inl old ↦ unsettled (inl old)
      | inr n ↦ ne (Memᴰ.eq_of_singleton n)
    ]
    stays (inr h) = unsettled (inr h)

    passed :
        below.offset
        < (commit (record (noted m s) { dead_letters = s.dead_letters ++ m ∷ [] })).committed
            below.partition
    passed =
        rw
          (ap (put m.partition (some m.offset) (λ p. none)) same
            ∙ put-at m.partition (some m.offset) (λ p. none))
          (omega arith)
