-- ===== src/Anchor/Budget.antt =====
-- The retry budget of a batch in services/fabric-anchor-consumer/index.ts.
use mathlib.Core.List.{Memᴰ}
use roadwatch.Prelude.{
  ℕ, ◌+◌, ◌≤◌, ◌≡◌, ◌⊎◌, inl, inr, refl, sym, ap, subst, ◌∙◌, leb, ◌==◌, Option, none, some, Bool,
  true, List, [], ◌∷◌, length, take, arith, Bool-cases,
}
use roadwatch.Anchor.{Item, Call, Anchor}
use roadwatch.Anchor.Flush.{
  unprocessed, run_call, run_calls, fail_item, fail_all, plan, flush, flush_batch, flush_begin,
  Fault, flush_end, flush_failed, send_unique, send_all, clear_if_none,
}
use roadwatch.Anchor.Laws.{fail_all-Grows, fail_all-SameBatch, run_calls-SameBatch}

-- The call of that number throws, if there is one, and no statement of the error path does.
abbrev pub failing : Option ℕ → Option Fault
failing none = none
failing (some k) = some (k, none)

-- Each entry of the batch has failed that many times or more.
abbrev Tried : ℕ → Anchor → Type 0
Tried n s = (item : Item) → Memᴰ item s.batch → n ≤ s.failures item.key

run_calls-failures : (cs : List Call) (s : Anchor) → (run_calls cs s).failures ≡ s.failures
unfolding run_calls
run_calls-failures [] s = refl
run_calls-failures (c ∷ cs) s = run_calls-failures cs (run_call c s)

fail_item_mono : (x : Item) (s : Anchor) (k : ℕ) → s.failures k ≤ (fail_item x s).failures k
fail_item_mono x s k = elim (Bool-cases (k == x.key)) [
  | inl e ↦ rw e (ground (arith, ap s.failures (same e)))
  | inr e ↦ rw e (omega arith)
]
  where
    same : (k == x.key) ≡ true → k ≡ x.key
    same e = ground arith

fail_item_self : (x : Item) (s : Anchor) → (fail_item x s).failures x.key ≡ s.failures x.key + 1
fail_item_self x s = ground arith

fail_all_mono :
    (items : List Item) (s : Anchor) (k : ℕ) → s.failures k ≤ (fail_all items s).failures k
unfolding fail_all
fail_all_mono [] s k = omega arith
fail_all_mono (x ∷ items) s k =
    omega (arith, fail_item_mono x s k, fail_all_mono items (fail_item x s) k)

fail_all_counts :
    (items : List Item) (s : Anchor) (item : Item)
    → Memᴰ item items
    → s.failures item.key + 1 ≤ (fail_all items s).failures item.key
unfolding fail_all
fail_all_counts [] s item m = elim m [ ]
fail_all_counts (x ∷ items) s item (Memᴰ.head e) =
    subst (λ (i : Item). s.failures i.key + 1 ≤ (fail_all items (fail_item x s)).failures i.key)
      (sym e) (omega (arith, fail_item_self x s, fail_all_mono items (fail_item x s) x.key))
fail_all_counts (x ∷ items) s item (Memᴰ.tail m) =
    omega (arith, fail_item_mono x s item.key, fail_all_counts items (fail_item x s) item m)

fail_item-processed :
    (x : Item) (s : Anchor) → 2 ≤ s.failures x.key → (fail_item x s).processed x.key ≡ true
fail_item-processed x s h = ground arith

fail_all-processed :
    (items : List Item) (s : Anchor) (item : Item)
    → Memᴰ item items
    → 2 ≤ s.failures item.key
    → (fail_all items s).processed item.key ≡ true
unfolding fail_all
fail_all-processed [] s item m h = elim m [ ]
fail_all-processed (x ∷ items) s item (Memᴰ.head e) h =
    (fail_all-Grows items (fail_item x s)).done item.key (
      subst (λ (i : Item). (fail_item x s).processed i.key ≡ true) (sym e)
        (fail_item-processed x s (subst (λ (i : Item). 2 ≤ s.failures i.key) e h)))
fail_all-processed (x ∷ items) s item (Memᴰ.tail m) h =
    fail_all-processed items (fail_item x s) item m (omega (arith, fail_item_mono x s item.key))

unprocessed-nil :
    (processed : ℕ → Bool) (items : List Item)
    → ((item : Item) → Memᴰ item items → processed item.key ≡ true)
    → unprocessed processed items ≡ []
unprocessed-nil processed [] h = refl
unprocessed-nil processed (x ∷ items) h =
    rw (h x (Memᴰ.head refl)) (unprocessed-nil processed items (λ item m. h item (Memᴰ.tail m)))

-- A flush ends with the batch empty, or on the error path after some calls.
flush_outcome :
    (fault : Option ℕ) (s : Anchor)
    → ((flush (failing fault) s).batch ≡ [])
      ⊎ ((cs : List Call) × (flush (failing fault) s ≡ flush_failed none (run_calls cs s)))
unfolding flush flush_end flush_begin run_calls
flush_outcome fault s = by_batch s.batch refl
  where
    by_fault :
        (unique : List Item) (fault : Option ℕ)
        → ((send_all unique (failing fault) s).batch ≡ [])
          ⊎ ((cs : List Call) × (send_all unique (failing fault) s
                ≡ flush_failed none (run_calls cs s)))
    by_fault unique none = inl refl
    by_fault unique (some k) = elim (Bool-cases (leb k (length (plan unique)))) [
      | inl e ↦ inr (take k (plan unique), rw e refl)
      | inr e ↦ inl (rw e refl)
    ]

    no_calls :
        (fault : Option ℕ)
        → ((send_unique [] (failing fault) s).batch ≡ [])
          ⊎ ((cs : List Call) × (send_unique [] (failing fault) s
                ≡ flush_failed none (run_calls cs s)))
    no_calls none = inl refl
    no_calls (some k) = inr ([], refl)

    by_unique :
        (unique : List Item)
        → ((send_unique unique (failing fault) s).batch ≡ [])
          ⊎ ((cs : List Call) × (send_unique unique (failing fault) s
                ≡ flush_failed none (run_calls cs s)))
    by_unique [] = no_calls fault
    by_unique (x ∷ unique) = by_fault (x ∷ unique) fault

    by_batch :
        (batch : List Item)
        → s.batch ≡ batch
        → ((flush_batch batch (failing fault) s).batch ≡ [])
          ⊎ ((cs : List Call) × (flush_batch batch (failing fault) s
                ≡ flush_failed none (run_calls cs s)))
    by_batch [] e = inl e
    by_batch (x ∷ batch) e = by_unique (unprocessed s.processed s.batch)

clear_cases :
    (rest : List Item) (u : Anchor)
    → ((clear_if_none rest u).batch ≡ []) ⊎ (clear_if_none rest u ≡ u)
clear_cases [] u = inl refl
clear_cases (x ∷ rest) u = inr refl

flush_failed-Tried :
    (n : ℕ) (t : Anchor)
    → Tried n t
    → ((flush_failed none t).batch ≡ []) ⊎ Tried (n + 1) (flush_failed none t)
unfolding flush_failed
flush_failed-Tried n t h =
    let u = fail_all t.batch t in
    elim (clear_cases (unprocessed u.processed u.batch) u) [
      | inl e ↦ inl e
      | inr e ↦ inr (subst (Tried (n + 1)) (sym e) counted)
    ]
  where
    counted : Tried (n + 1) (fail_all t.batch t)
    counted item m =
        let m' = subst (λ (b : List Item). Memᴰ item b) ((fail_all-SameBatch t.batch t).0) m in
        omega (arith, fail_all_counts t.batch t item m', h item m')

flush_failed-last : (t : Anchor) → Tried 2 t → (flush_failed none t).batch ≡ []
unfolding flush_failed
flush_failed-last t h =
    let u = fail_all t.batch t in
    ap (λ (rest : List Item). (clear_if_none rest u).batch)
      (unprocessed-nil u.processed u.batch (λ item m.
        let m' = subst (λ (b : List Item). Memᴰ item b) ((fail_all-SameBatch t.batch t).0) m in
        fail_all-processed t.batch t item m' (h item m')))

run_calls-Tried : (n : ℕ) (cs : List Call) (s : Anchor) → Tried n s → Tried n (run_calls cs s)
run_calls-Tried n cs s h item m =
    subst (λ (f : ℕ → ℕ). n ≤ f item.key) (sym (run_calls-failures cs s))
      (h item (subst (λ (b : List Item). Memᴰ item b) ((run_calls-SameBatch cs s).0) m))

flush-Tried :
    (n : ℕ) (fault : Option ℕ) (s : Anchor)
    → Tried n s
    → ((flush (failing fault) s).batch ≡ []) ⊎ Tried (n + 1) (flush (failing fault) s)
flush-Tried n fault s h = elim (flush_outcome fault s) [
  | inl e ↦ inl e
  | inr (cs, e) ↦
      subst (λ (t : Anchor). (t.batch ≡ []) ⊎ Tried (n + 1) t) (sym e)
        (flush_failed-Tried n (run_calls cs s) (run_calls-Tried n cs s h))
]

flush-last : (fault : Option ℕ) (s : Anchor) → Tried 2 s → (flush (failing fault) s).batch ≡ []
flush-last fault s h = elim (flush_outcome fault s) [
  | inl e ↦ e
  | inr (cs, e) ↦
      ap (λ (t : Anchor). t.batch) e ∙ flush_failed-last (run_calls cs s) (run_calls-Tried 2 cs s h)
]

nil-Tried : (n : ℕ) (s : Anchor) → s.batch ≡ [] → Tried n s
nil-Tried n s e item m = absurd (elim (subst (λ (b : List Item). Memᴰ item b) e m) [ ])

flush-Tried_next :
    (n : ℕ) (fault : Option ℕ) (s : Anchor) → Tried n s → Tried (n + 1) (flush (failing fault) s)
flush-Tried_next n fault s h = elim (flush-Tried n fault s h) [
  | inl e ↦ nil-Tried (n + 1) (flush (failing fault) s) e
  | inr t ↦ t
]

-- Whatever the batch and the counts are and whichever call of each flush throws, where the statements
-- of the error path succeed: after three flushes with no poll in between the batch is empty.
pub flush_thrice :
    (s : Anchor) (first second third : Option ℕ)
    → (flush (failing third) (flush (failing second) (flush (failing first) s))).batch ≡ []
flush_thrice s first second third =
    flush-last third (flush (failing second) (flush (failing first) s)) (
      flush-Tried_next 1 second (flush (failing first) s)
        (flush-Tried_next 0 first s (λ item m. omega arith)))
