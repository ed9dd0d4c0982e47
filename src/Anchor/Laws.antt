-- ===== src/Anchor/Laws.antt =====
-- What each step of services/fabric-anchor-consumer/index.ts keeps: messages once settled stay so.
use mathlib.Core.List.{Memᴰ}
use mathlib.Core.List.Memᴰ
use roadwatch.Prelude.{
  ℕ, zero, suc, ◌+◌, ◌≡◌, ◌⊎◌, inl, inr, refl, sym, ap, subst, ◌∙◌, leb, ◌==◌, Bool, true, List, [],
  ◌∷◌, ◌++◌, map, arith, Bool-cases,
}
use roadwatch.Anchor.{
  ConsumedMessage, Item, Call, mark_processed, create_complaint, update_complaint_status,
  submit_root, store_proof, store_proof_by_batch, publish_anchored, Anchor, put,
}
use roadwatch.Anchor.Flush.{
  unprocessed, marked, run_call, run_calls, fail_item, fail_all, count_failure, dead_letter,
  fail_up_to, plan, with_topic, is_submitted, is_status, anchor_calls,
}

-- Nothing settled is lost.
pub record Grows (s t : Anchor) : Type 0 where
  pub dead : (m : ConsumedMessage) → Memᴰ m s.dead_letters → Memᴰ m t.dead_letters
  pub done : (k : ℕ) → s.processed k ≡ true → t.processed k ≡ true

pub Grows-refl : (s : Anchor) → Grows s s
Grows-refl s = record { dead = λ m h. h; done = λ k h. h }

pub Grows-trans : (s t u : Anchor) → Grows s t → Grows t u → Grows s u
Grows-trans s t u g h = record {
  dead = λ m a. h.dead m (g.dead m a);
  done = λ k a. h.done k (g.done k a);
}

pub put-true : (key k : ℕ) (f : ℕ → Bool) → f k ≡ true → put key true f k ≡ true
put-true key k f h = elim (Bool-cases (k == key)) [ inl e ↦ rw e refl | inr e ↦ rw e h ]

put_self : (key : ℕ) (f : ℕ → Bool) → put key true f key ≡ true
put_self key f = ground arith

marked-true : (c : Call) (f : ℕ → Bool) (k : ℕ) → f k ≡ true → marked c f k ≡ true
marked-true (mark_processed key) f k h = put-true key k f h
marked-true (create_complaint item) f k h = h
marked-true (update_complaint_status item) f k h = h
marked-true (submit_root items) f k h = h
marked-true (store_proof item) f k h = h
marked-true (store_proof_by_batch item) f k h = h
marked-true (publish_anchored item) f k h = h

-- Calls and failures touch neither the batch nor the offsets.
abbrev pub SameBatch : Anchor → Anchor → Type 0
SameBatch s t =
    (t.batch ≡ s.batch)
    × (t.committed ≡ s.committed)
    × (t.pending_commit_offsets ≡ s.pending_commit_offsets)

pub run_calls-Grows : (cs : List Call) (s : Anchor) → Grows s (run_calls cs s)
unfolding run_calls
run_calls-Grows [] s = Grows-refl s
run_calls-Grows (c ∷ cs) s =
    Grows-trans s (run_call c s) (run_calls cs (run_call c s))
      (record { dead = λ m h. h; done = λ k h. marked-true c s.processed k h })
      (run_calls-Grows cs (run_call c s))

pub run_calls-SameBatch : (cs : List Call) (s : Anchor) → SameBatch s (run_calls cs s)
unfolding run_calls
run_calls-SameBatch [] s = (refl, refl, refl)
run_calls-SameBatch (c ∷ cs) s = run_calls-SameBatch cs (run_call c s)

pub run_calls-append :
    (cs ds : List Call) (s : Anchor) → run_calls (cs ++ ds) s ≡ run_calls ds (run_calls cs s)
unfolding run_calls
run_calls-append [] ds s = refl
run_calls-append (c ∷ cs) ds s = run_calls-append cs ds (run_call c s)

fail_item-Grows : (item : Item) (s : Anchor) → Grows s (fail_item item s)
fail_item-Grows item s = elim (Bool-cases (leb 3 (s.failures item.key + 1))) [
  | inl e ↦ record {
    dead = λ m h. rw e (Memᴰ.append_left (item.raw ∷ []) h);
    done = λ k h. rw e (put-true item.key k s.processed h);
  }
  | inr e ↦ record { dead = λ m h. rw e h; done = λ k h. rw e h }
]

pub fail_all-Grows : (items : List Item) (s : Anchor) → Grows s (fail_all items s)
unfolding fail_all
fail_all-Grows [] s = Grows-refl s
fail_all-Grows (item ∷ items) s =
    Grows-trans s (fail_item item s) (fail_all items (fail_item item s)) (fail_item-Grows item s)
      (fail_all-Grows items (fail_item item s))

pub fail_all-SameBatch : (items : List Item) (s : Anchor) → SameBatch s (fail_all items s)
unfolding fail_all
fail_all-SameBatch [] s = (refl, refl, refl)
fail_all-SameBatch (item ∷ items) s = fail_all-SameBatch items (fail_item item s)

count_failure-Grows : (item : Item) (s : Anchor) → Grows s (count_failure item s)
count_failure-Grows item s = record { dead = λ m h. h; done = λ k h. h }

dead_letter-Grows : (item : Item) (s : Anchor) → Grows s (dead_letter item s)
dead_letter-Grows item s = elim (Bool-cases (leb 3 (s.failures item.key + 1))) [
  | inl e ↦ record { dead = λ m h. rw e (Memᴰ.append_left (item.raw ∷ []) h); done = λ k h. h }
  | inr e ↦ record { dead = λ m h. rw e h; done = λ k h. h }
]

pub fail_up_to-Grows : (n : ℕ) (items : List Item) (s : Anchor) → Grows s (fail_up_to n items s)
unfolding fail_up_to
fail_up_to-Grows n [] s = Grows-refl s
fail_up_to-Grows zero (item ∷ items) s = Grows-refl s
fail_up_to-Grows (suc zero) (item ∷ items) s = count_failure-Grows item s
fail_up_to-Grows (suc (suc zero)) (item ∷ items) s = dead_letter-Grows item s
fail_up_to-Grows (suc (suc (suc n))) (item ∷ items) s =
    Grows-trans s (fail_item item s) (fail_up_to n items (fail_item item s))
      (fail_item-Grows item s) (fail_up_to-Grows n items (fail_item item s))

pub fail_up_to-SameBatch :
    (n : ℕ) (items : List Item) (s : Anchor) → SameBatch s (fail_up_to n items s)
unfolding fail_up_to
fail_up_to-SameBatch n [] s = (refl, refl, refl)
fail_up_to-SameBatch zero (item ∷ items) s = (refl, refl, refl)
fail_up_to-SameBatch (suc zero) (item ∷ items) s = (refl, refl, refl)
fail_up_to-SameBatch (suc (suc zero)) (item ∷ items) s = (refl, refl, refl)
fail_up_to-SameBatch (suc (suc (suc n))) (item ∷ items) s =
    fail_up_to-SameBatch n items (fail_item item s)

pub mem-unprocessed :
    (processed : ℕ → Bool) (items : List Item) (item : Item)
    → Memᴰ item items
    → (processed item.key ≡ true) ⊎ Memᴰ item (unprocessed processed items)
mem-unprocessed processed [] item m = elim m [ ]
mem-unprocessed processed (x ∷ items) item (Memᴰ.head e) = elim (Bool-cases (processed x.key)) [
  | inl h ↦ inl (ap (λ (i : Item). processed i.key) e ∙ h)
  | inr h ↦ rw h (inr (Memᴰ.head e))
]
mem-unprocessed processed (x ∷ items) item (Memᴰ.tail m) = elim (Bool-cases (processed x.key)) [
  | inl h ↦ rw h (mem-unprocessed processed items item m)
  | inr h ↦ rw h (further (mem-unprocessed processed items item m))
]
  where
    further :
        (processed item.key ≡ true) ⊎ Memᴰ item (unprocessed processed items)
        → (processed item.key ≡ true) ⊎ Memᴰ item (x ∷ unprocessed processed items)
    further (inl h) = inl h
    further (inr n) = inr (Memᴰ.tail n)

pub marks_processed :
    (items : List Item) (s : Anchor) (item : Item)
    → Memᴰ item items
    → (run_calls (map (λ (i : Item). mark_processed i.key) items) s).processed item.key ≡ true
unfolding run_calls
marks_processed [] s item m = elim m [ ]
marks_processed (x ∷ items) s item (Memᴰ.head e) =
    let t = run_call (mark_processed x.key) s in
    (run_calls-Grows (map (λ (i : Item). mark_processed i.key) items) t).done item.key
      (ap (λ (i : Item). put x.key true s.processed i.key) e ∙ put_self x.key s.processed)
marks_processed (x ∷ items) s item (Memᴰ.tail m) =
    marks_processed items (run_call (mark_processed x.key) s) item m

-- After all calls of a flush its entries are processed.
pub plan-processed :
    (items : List Item) (s : Anchor) (item : Item)
    → Memᴰ item items
    → (run_calls (plan items) s).processed item.key ≡ true
unfolding plan
plan-processed items s item m =
    let a = map create_complaint (with_topic is_submitted items) in
    let b = map update_complaint_status (with_topic is_status items) in
    let c = anchor_calls (with_topic is_submitted items) in
    let d = map (λ (i : Item). mark_processed i.key) items in
    let t = run_calls a s in
    let u = run_calls b t in
    let staged : run_calls (plan items) s ≡ run_calls d (run_calls c u) =
      run_calls-append a (b ++ (c ++ d)) s
      ∙ run_calls-append b (c ++ d) t
      ∙ run_calls-append c d u in
    subst (λ (x : Anchor). x.processed item.key ≡ true) (sym staged)
      (marks_processed items (run_calls c u) item m)
