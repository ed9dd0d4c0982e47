-- ===== src/Anchor/Runs.antt =====
-- The loop of services/fabric-anchor-consumer/index.ts: polls and flushes, one after the other.
use mathlib.Core.List.{Memᴰ}
use mathlib.Core.List.Memᴰ
use roadwatch.Prelude.{
  ℕ, ◌≤◌, ◌<◌, ◌≡◌, ◌⊎◌, inl, inr, refl, sym, ap, subst, ◌∙◌, Option, none, some, true, false, List,
  [], ◌∷◌, ◌++◌, if◌then◌else◌, arith, Bool-cases, Option-cases,
}
use roadwatch.Anchor.{
  ConsumedMessage, Item, Anchor, consume, commit, validate, take_in, add_all, all_malformed,
  malformed_only, is_none, poll,
}
use roadwatch.Anchor.Flush.{Fault, flush}
use roadwatch.Anchor.Laws.{Grows, Grows-refl, Grows-trans}
use roadwatch.Anchor.Delivery.{
  Settled, Held, Keeps, Settled-Grows, stays-Keeps, Settled-Keeps, flush-Keeps,
}

take_in-Grows : (m : ConsumedMessage) (o : Option Item) (s : Anchor) → Grows s (take_in m o s)
take_in-Grows m none s = record { dead = λ n h. Memᴰ.append_left (m ∷ []) h; done = λ k h. h }
take_in-Grows m (some item) s = record { dead = λ n h. h; done = λ k h. h }

take_in-batch :
    (m : ConsumedMessage) (o : Option Item) (s : Anchor) (item : Item)
    → Memᴰ item s.batch
    → Memᴰ item (take_in m o s).batch
take_in-batch m none s item h = h
take_in-batch m (some x) s item h = Memᴰ.append_left (x ∷ []) h

take_in-committed :
    (m : ConsumedMessage) (o : Option Item) (s : Anchor) → (take_in m o s).committed ≡ s.committed
take_in-committed m none s = refl
take_in-committed m (some item) s = refl

take_in-taken :
    (m : ConsumedMessage) (o : Option Item) (s : Anchor)
    → validate m ≡ o
    → Settled (take_in m o s) m ⊎ Held (take_in m o s) m
take_in-taken m none s e = inl (inl (Memᴰ.append_right s.dead_letters (Memᴰ.head refl)))
take_in-taken m (some item) s e = inr (item, e, Memᴰ.append_right s.batch (Memᴰ.head refl))

add_all-Grows : (ms : List ConsumedMessage) (s : Anchor) → Grows s (add_all ms s)
unfolding add_all
add_all-Grows [] s = Grows-refl s
add_all-Grows (m ∷ ms) s =
    let t = take_in m (validate m) s in
    Grows-trans s t (add_all ms t) (take_in-Grows m (validate m) s) (add_all-Grows ms t)

add_all-batch :
    (ms : List ConsumedMessage) (s : Anchor) (item : Item)
    → Memᴰ item s.batch
    → Memᴰ item (add_all ms s).batch
unfolding add_all
add_all-batch [] s item h = h
add_all-batch (m ∷ ms) s item h =
    add_all-batch ms (take_in m (validate m) s) item (take_in-batch m (validate m) s item h)

add_all-committed :
    (ms : List ConsumedMessage) (s : Anchor) → (add_all ms s).committed ≡ s.committed
unfolding add_all
add_all-committed [] s = refl
add_all-committed (m ∷ ms) s =
    add_all-committed ms (take_in m (validate m) s) ∙ take_in-committed m (validate m) s

-- Every message that comes in is settled or in the batch.
add_all-taken :
    (ms : List ConsumedMessage) (s : Anchor) (m : ConsumedMessage)
    → Memᴰ m ms
    → Settled (add_all ms s) m ⊎ Held (add_all ms s) m
unfolding add_all
add_all-taken [] s m h = elim h [ ]
add_all-taken (x ∷ ms) s m (Memᴰ.tail h) = add_all-taken ms (take_in x (validate x) s) m h
add_all-taken (x ∷ ms) s m (Memᴰ.head e) =
    subst (λ (n : ConsumedMessage). Settled u n ⊎ Held u n) (sym e)
      (onward (take_in-taken x (validate x) s refl))
  where
    t : Anchor
    t = take_in x (validate x) s

    u : Anchor
    u = add_all ms t

    onward : Settled t x ⊎ Held t x → Settled u x ⊎ Held u x
    onward (inl h) = inl (Settled-Grows t u x (add_all-Grows ms t) h)
    onward (inr (item, v, h)) = inr (item, v, add_all-batch ms t item h)

false_ne : false ≡ true → ⊥
false_ne e = cc

all_malformed-batch :
    (ms : List ConsumedMessage) (s : Anchor)
    → all_malformed ms ≡ true
    → (add_all ms s).batch ≡ s.batch
unfolding add_all
all_malformed-batch [] s h = refl
all_malformed-batch (m ∷ ms) s h = elim (Option-cases (validate m)) [
  | inl e ↦
      ap (λ (o : Option Item). (add_all ms (take_in m o s)).batch) e
      ∙ all_malformed-batch ms (take_in m none s)
          (sym (ap (λ (o : Option Item). if is_none o then all_malformed ms else false) e) ∙ h)
  | inr (item, e) ↦ absurd (
      false_ne
        (sym (ap (λ (o : Option Item). if is_none o then all_malformed ms else false) e) ∙ h))
]

-- What Kafka and the code are to keep to for a poll: it delivers nothing below the committed offsets,
-- and if nothing delivered can be read, the batch is empty.
abbrev pub Orderly : Anchor → List ConsumedMessage → Type 0
Orderly s ms =
    ((m : ConsumedMessage) → Memᴰ m ms → s.committed m.partition ≤ m.offset)
    × (malformed_only ms ≡ true → s.batch ≡ [])

add_all-Keeps :
    (s : Anchor) (old ms : List ConsumedMessage)
    → ((m : ConsumedMessage) → Memᴰ m ms → s.committed m.partition ≤ m.offset)
    → Keeps s old
    → Keeps (add_all ms s) (ms ++ old)
add_all-Keeps s old ms fresh k = record {
  somewhere = λ m h. elim (Memᴰ.append_cases ms h) [
    | inl new ↦ add_all-taken ms s m new
    | inr n ↦ before.somewhere m n
  ];
  below = λ m h lt. elim (Memᴰ.append_cases ms h) [
    | inl new ↦ absurd (late m new lt)
    | inr n ↦ before.below m n lt
  ];
}
  where
    before : Keeps (add_all ms s) old
    before =
        stays-Keeps s (add_all ms s) old k (add_all-Grows ms s) (add_all-batch ms s)
          (add_all-committed ms s)

    late : (m : ConsumedMessage) → Memᴰ m ms → m.offset < (add_all ms s).committed m.partition → ⊥
    late m new lt =
        let old_offset : m.offset < s.committed m.partition =
          subst (λ (c : ℕ → ℕ). m.offset < c m.partition) (add_all-committed ms s) lt in
        let above = fresh m new in omega arith

malformed_only-batch :
    (ms : List ConsumedMessage) (s : Anchor)
    → malformed_only ms ≡ true
    → (add_all ms s).batch ≡ s.batch
unfolding malformed_only
malformed_only-batch [] s h = absurd (false_ne h)
malformed_only-batch (m ∷ ms) s h = all_malformed-batch (m ∷ ms) s h

commit-Keeps :
    (s : Anchor) (ms : List ConsumedMessage) → s.batch ≡ [] → Keeps s ms → Keeps (commit s) ms
unfolding commit
commit-Keeps s ms e k = Settled-Keeps (commit s) ms (λ m h. elim (k.somewhere m h) [
  | inl settled ↦ settled
  | inr (item, v, n) ↦ absurd (elim (subst (λ (b : List Item). Memᴰ item b) e n) [ ])
])

poll-Keeps :
    (s : Anchor) (old ms : List ConsumedMessage)
    → Orderly s ms
    → Keeps s old
    → Keeps (poll ms s) (ms ++ old)
unfolding poll consume
poll-Keeps s old ms (fresh, alone) k =
    let t = consume ms s in
    let taken =
      add_all-Keeps t old ms fresh (record { somewhere = k.somewhere; below = k.below }) in
    elim (Bool-cases (malformed_only ms)) [
      | inl e ↦
          rw e
            (commit-Keeps (add_all ms t) (ms ++ old) (malformed_only-batch ms t e ∙ alone e) taken)
      | inr e ↦ rw e taken
    ]

pub data Action : Type 0 where
  polling : (messages : List ConsumedMessage) → Action
  flushing : (fault : Option Fault) → Action

-- The state after a run, its newest action first, and the messages polled in it.
abbrev pub after : Anchor → List Action → Anchor
after s [] = s
after s (polling ms ∷ actions) = poll ms (after s actions)
after s (flushing fault ∷ actions) = flush fault (after s actions)

abbrev pub polled : List Action → List ConsumedMessage
polled [] = []
polled (polling ms ∷ actions) = ms ++ polled actions
polled (flushing fault ∷ actions) = polled actions

abbrev pub OrderlyRun : Anchor → List Action → Type 0
OrderlyRun s [] = Unit
OrderlyRun s (polling ms ∷ actions) = Orderly (after s actions) ms × OrderlyRun s actions
OrderlyRun s (flushing fault ∷ actions) = OrderlyRun s actions

after-Keeps :
    (s : Anchor) (actions : List Action)
    → OrderlyRun s actions
    → Keeps (after s actions) (polled actions)
after-Keeps s [] o = record {
  somewhere = λ m h. absurd (elim h [ ]);
  below = λ m h lt. absurd (elim h [ ]);
}
after-Keeps s (polling ms ∷ actions) (o, os) =
    poll-Keeps (after s actions) (polled actions) ms o (after-Keeps s actions os)
after-Keeps s (flushing fault ∷ actions) os =
    flush-Keeps (after s actions) (polled actions) fault (after-Keeps s actions os)

-- From any state, after any run of polls and whole flushes, whichever call or commit of each flush
-- throws and whichever statement of the error path then does, in which Kafka delivers nothing below
-- the committed offsets and a poll of which nothing can be read comes with an empty batch: every
-- message polled in the run is settled or has its entry in the batch, and one below the committed
-- offset of its partition is settled. Settled means that it is among the dead letters or its key is
-- processed.
pub after-Settled :
    (s : Anchor) (actions : List Action) (m : ConsumedMessage)
    → OrderlyRun s actions
    → Memᴰ m (polled actions)
    → (Settled (after s actions) m ⊎ Held (after s actions) m)
      × (m.offset < (after s actions).committed m.partition → Settled (after s actions) m)
after-Settled s actions m o h = let k = after-Keeps s actions o in (k.somewhere m h, k.below m h)
