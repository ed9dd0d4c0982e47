-- ===== src/Anchor/Delivery.antt =====
-- No message that was polled is passed over by the offsets that
-- services/fabric-anchor-consumer/index.ts commits.
use mathlib.Core.List.{Memᴰ}
use roadwatch.Prelude.{
  ℕ, ◌<◌, ◌≡◌, ◌⊎◌, inl, inr, refl, sym, subst, ◌∙◌, leb, Option, none, some, true, List, [], ◌∷◌,
  length, take, Bool-cases,
}
use roadwatch.Anchor.{ConsumedMessage, Item, Anchor, commit, validate}
use roadwatch.Anchor.Flush.{
  unprocessed, run_calls, fail_all, plan, flush, flush_batch, flush_begin, flush_end, flush_failed,
  Fault, fail_up_to, send_unique, send_all, commit_and_clear, clear_if_none,
}
use roadwatch.Anchor.Laws.{
  Grows, Grows-refl, Grows-trans, SameBatch, run_calls-Grows, run_calls-SameBatch, fail_all-Grows,
  fail_up_to-Grows, fail_up_to-SameBatch, fail_all-SameBatch, mem-unprocessed, plan-processed,
}

-- The message is among the dead letters, or its key is processed.
abbrev pub Settled : Anchor → ConsumedMessage → Type 0
Settled s m =
    Memᴰ m s.dead_letters
    ⊎ ((item : Item) × (validate m ≡ some item) × (s.processed item.key ≡ true))

abbrev pub Held : Anchor → ConsumedMessage → Type 0
Held s m = (item : Item) × (validate m ≡ some item) × Memᴰ item s.batch

pub record Keeps (s : Anchor) (ms : List ConsumedMessage) : Type 0 where
  pub somewhere : (m : ConsumedMessage) → Memᴰ m ms → Settled s m ⊎ Held s m
  pub below : (m : ConsumedMessage) → Memᴰ m ms → m.offset < s.committed m.partition → Settled s m

pub Settled-Grows : (s t : Anchor) (m : ConsumedMessage) → Grows s t → Settled s m → Settled t m
Settled-Grows s t m g (inl d) = inl (g.dead m d)
Settled-Grows s t m g (inr (item, v, h)) = inr (item, v, g.done item.key h)

-- Where no offset moves and no entry leaves the batch.
pub stays-Keeps :
    (s t : Anchor) (ms : List ConsumedMessage)
    → Keeps s ms
    → Grows s t
    → ((item : Item) → Memᴰ item s.batch → Memᴰ item t.batch)
    → t.committed ≡ s.committed
    → Keeps t ms
stays-Keeps s t ms k g sub same = record {
  somewhere = λ m h. lift m (k.somewhere m h);
  below = λ m h lt.
      Settled-Grows s t m g (k.below m h (subst (λ (c : ℕ → ℕ). m.offset < c m.partition) same lt));
}
  where
    lift : (m : ConsumedMessage) → Settled s m ⊎ Held s m → Settled t m ⊎ Held t m
    lift m (inl h) = inl (Settled-Grows s t m g h)
    lift m (inr (item, v, h)) = inr (item, v, sub item h)

-- Where all is settled, any commit is right.
pub Settled-Keeps :
    (s : Anchor) (ms : List ConsumedMessage)
    → ((m : ConsumedMessage) → Memᴰ m ms → Settled s m)
    → Keeps s ms
Settled-Keeps s ms all = record { somewhere = λ m h. inl (all m h); below = λ m h lt. all m h }

clear-Keeps :
    (s t : Anchor) (ms : List ConsumedMessage)
    → Keeps s ms
    → Grows s t
    → ((item : Item) → Memᴰ item s.batch → t.processed item.key ≡ true)
    → Keeps (commit_and_clear t) ms
unfolding commit
clear-Keeps s t ms k g done =
    Settled-Keeps (commit_and_clear t) ms (λ m h. settle m (k.somewhere m h))
  where
    settle : (m : ConsumedMessage) → Settled s m ⊎ Held s m → Settled (commit_and_clear t) m
    settle m (inl h) = Settled-Grows s t m g h
    settle m (inr (item, v, h)) = inr (item, v, done item h)

clear_if_none-Keeps :
    (s t : Anchor) (ms : List ConsumedMessage) (rest : List Item)
    → rest ≡ unprocessed t.processed t.batch
    → Keeps s ms
    → Grows s t
    → t.batch ≡ s.batch
    → t.committed ≡ s.committed
    → Keeps (clear_if_none rest t) ms
clear_if_none-Keeps s t ms [] e k g same_batch same = clear-Keeps s t ms k g (λ item h.
    elim (mem-unprocessed t.processed t.batch item
      (subst (λ (b : List Item). Memᴰ item b) (sym same_batch) h)) [
        | inl done ↦ done
        | inr n ↦ absurd (elim (subst (λ (b : List Item). Memᴰ item b) (sym e) n) [ ])
      ])
clear_if_none-Keeps s t ms (x ∷ rest) e k g same_batch same =
    stays-Keeps s t ms k g (λ item h. subst (λ (b : List Item). Memᴰ item b) (sym same_batch) h)
      same

flush_failed-Keeps :
    (broken : Option ℕ) (s t : Anchor) (ms : List ConsumedMessage)
    → Keeps s ms
    → Grows s t
    → SameBatch s t
    → Keeps (flush_failed broken t) ms
unfolding flush_failed
flush_failed-Keeps (some n) s t ms k g (b, c, p) =
    let u = fail_up_to n t.batch t in
    let (b', c', p') = fail_up_to-SameBatch n t.batch t in
    stays-Keeps s u ms k (Grows-trans s t u g (fail_up_to-Grows n t.batch t))
      (λ item h. subst (λ (x : List Item). Memᴰ item x) (sym (b' ∙ b)) h) (c' ∙ c)
flush_failed-Keeps none s t ms k g (b, c, p) =
    let u = fail_all t.batch t in
    let (b', c', p') = fail_all-SameBatch t.batch t in
    clear_if_none-Keeps s u ms (unprocessed u.processed u.batch) refl k
      (Grows-trans s t u g (fail_all-Grows t.batch t)) (b' ∙ b) (c' ∙ c)

sent-Keeps :
    (s : Anchor) (ms : List ConsumedMessage)
    → Keeps s ms
    → Keeps (commit_and_clear (run_calls (plan (unprocessed s.processed s.batch)) s)) ms
sent-Keeps s ms k =
    let unique = unprocessed s.processed s.batch in
    let g = run_calls-Grows (plan unique) s in
    clear-Keeps s (run_calls (plan unique) s) ms k g (λ item h.
      elim (mem-unprocessed s.processed s.batch item h) [
        | inl done ↦ g.done item.key done
        | inr n ↦ plan-processed unique s item n
      ])

send_all-Keeps :
    (s : Anchor) (ms : List ConsumedMessage) (fault : Option Fault)
    → Keeps s ms
    → Keeps (send_all (unprocessed s.processed s.batch) fault s) ms
send_all-Keeps s ms none k = sent-Keeps s ms k
send_all-Keeps s ms (some (n, broken)) k =
    let unique = unprocessed s.processed s.batch in
    elim (Bool-cases (leb n (length (plan unique)))) [
      | inl e ↦ rw e (
          flush_failed-Keeps broken s (run_calls (take n (plan unique)) s) ms k
            (run_calls-Grows (take n (plan unique)) s)
            (run_calls-SameBatch (take n (plan unique)) s))
      | inr e ↦ rw e (sent-Keeps s ms k)
    ]

send_unique-Keeps :
    (s : Anchor) (ms : List ConsumedMessage) (unique : List Item) (fault : Option Fault)
    → unique ≡ unprocessed s.processed s.batch
    → Keeps s ms
    → Keeps (send_unique unique fault s) ms
send_unique-Keeps s ms [] (some (n, broken)) e k =
    flush_failed-Keeps broken s s ms k (Grows-refl s) (refl, refl, refl)
send_unique-Keeps s ms [] none e k = clear-Keeps s s ms k (Grows-refl s) (λ item h.
    elim (mem-unprocessed s.processed s.batch item h) [
      | inl done ↦ done
      | inr n ↦ absurd (elim (subst (λ (b : List Item). Memᴰ item b) (sym e) n) [ ])
    ])
send_unique-Keeps s ms (x ∷ unique) fault e k =
    subst (λ (u : List Item). Keeps (send_all u fault s) ms) (sym e) (send_all-Keeps s ms fault k)

flush_batch-Keeps :
    (s : Anchor) (ms : List ConsumedMessage) (batch : List Item) (fault : Option Fault)
    → Keeps s ms
    → Keeps (flush_batch batch fault s) ms
unfolding flush_begin flush_end
flush_batch-Keeps s ms [] fault k = k
flush_batch-Keeps s ms (x ∷ batch) fault k = send_unique-Keeps s ms (flush_begin s) fault refl k

pub flush-Keeps :
    (s : Anchor) (ms : List ConsumedMessage) (fault : Option Fault)
    → Keeps s ms
    → Keeps (flush fault s) ms
unfolding flush
flush-Keeps s ms fault k = flush_batch-Keeps s ms s.batch fault k
