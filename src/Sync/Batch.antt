-- ===== src/Sync/Batch.antt =====
-- The order of the outbox and the batch that is packed from it.
use roadwatch.Prelude.{
  ℕ, ◌+◌, ◌≤◌, ◌<◌, ◌≡◌, ◌⊎◌, inl, inr, refl, ap, leb, ltb, ◌==◌, List, [], ◌∷◌, ◌++◌, true, false,
  arith, Bool-cases, All,
}
use mathlib.Core.List.{Perm}
use mathlib.Core.List.Perm
use roadwatch.Sync.{
  OutboxType, text, media, protobuf, queue_weight, OutboxRecord, goes_first, insert,
  prioritize_sync, pack, build_outbox_batch,
}

-- The order that a queue has: protobufs, texts, media; the smaller first among those of one type; and
-- the older first among those of one size.
abbrev pub rank : OutboxType → ℕ
rank protobuf = 0
rank text = 1
rank media = 2

abbrev pub Precedes : OutboxRecord → OutboxRecord → Type 0
Precedes a b =
    (rank a.type < rank b.type)
    ⊎ ((rank a.type ≡ rank b.type)
        × ((a.size_bytes < b.size_bytes)
            ⊎ ((a.size_bytes ≡ b.size_bytes) × (a.created_at ≤ b.created_at))))

abbrev pub IsQueue : List OutboxRecord → Type 0
IsQueue [] = Unit
IsQueue (x ∷ xs) = All (λ y. Precedes x y) xs × IsQueue xs

-- Sorted by the comparison of the code.
abbrev IsSorted : List OutboxRecord → Type 0
IsSorted [] = Unit
IsSorted (x ∷ xs) = All (λ y. goes_first x y ≡ true) xs × IsSorted xs

rank-weight : (t : OutboxType) → queue_weight t ≡ rank t + 1
unfolding queue_weight
rank-weight protobuf = refl
rank-weight text = refl
rank-weight media = refl

goes_first-Precedes : (a b : OutboxRecord) → goes_first a b ≡ true → Precedes a b
unfolding goes_first
goes_first-Precedes a b h = by_weight (rank-weight a.type) (rank-weight b.type)
  where
    by_weight :
        queue_weight a.type ≡ rank a.type + 1 → queue_weight b.type ≡ rank b.type + 1 → Precedes a b
    by_weight p q = elim (Bool-cases (queue_weight a.type == queue_weight b.type)) [
      | inl same ↦ elim (Bool-cases (a.size_bytes == b.size_bytes)) [
        | inl level ↦
            let at : leb a.created_at b.created_at ≡ true = rw (same, level) at h in
            inr (ground arith, inr (ground arith, ground arith))
        | inr level ↦
            let at : ltb a.size_bytes b.size_bytes ≡ true = rw (same, level) at h in
            inr (ground arith, inl (ground arith))
      ]
      | inr other ↦
          let at : ltb (queue_weight a.type) (queue_weight b.type) ≡ true = rw other at h in
          inl (ground arith)
    ]

All-Precedes :
    (x : OutboxRecord) (ys : List OutboxRecord)
    → All (λ y. goes_first x y ≡ true) ys
    → All (λ y. Precedes x y) ys
All-Precedes x [] h = tt
All-Precedes x (y ∷ ys) (h, hs) = (goes_first-Precedes x y h, All-Precedes x ys hs)

IsSorted-IsQueue : (xs : List OutboxRecord) → IsSorted xs → IsQueue xs
IsSorted-IsQueue [] h = tt
IsSorted-IsQueue (x ∷ xs) (h, hs) = (All-Precedes x xs h, IsSorted-IsQueue xs hs)

goes_first_trans :
    (a b c : OutboxRecord) → goes_first a b ≡ true → goes_first b c ≡ true → goes_first a c ≡ true
unfolding goes_first
goes_first_trans a b c h k = ground arith

goes_first_total : (a b : OutboxRecord) → goes_first a b ≡ false → goes_first b a ≡ true
unfolding goes_first
goes_first_total a b h = ground arith

All-trans :
    (x y : OutboxRecord) (ys : List OutboxRecord)
    → goes_first x y ≡ true
    → All (λ z. goes_first y z ≡ true) ys
    → All (λ z. goes_first x z ≡ true) ys
All-trans x y [] h a = tt
All-trans x y (z ∷ zs) h (a, more) = (goes_first_trans x y z h a, All-trans x y zs h more)

All-insert :
    (P : OutboxRecord → Type 0) (x : OutboxRecord) (ys : List OutboxRecord)
    → P x
    → All P ys
    → All P (insert x ys)
unfolding insert
All-insert P x [] p h = (p, tt)
All-insert P x (y ∷ ys) p (q, qs) = elim (Bool-cases (goes_first x y)) [
  | inl e ↦ rw e (p, (q, qs))
  | inr n ↦ rw n (q, All-insert P x ys p qs)
]

insert-IsSorted : (x : OutboxRecord) (ys : List OutboxRecord) → IsSorted ys → IsSorted (insert x ys)
unfolding insert
insert-IsSorted x [] h = (tt, tt)
insert-IsSorted x (y ∷ ys) (h, hs) = elim (Bool-cases (goes_first x y)) [
  | inl e ↦ rw e ((e, All-trans x y ys e h), (h, hs))
  | inr n ↦ rw n (
    All-insert (λ z. goes_first y z ≡ true) x ys (goes_first_total x y n) h,
    insert-IsSorted x ys hs,
  )
]

insert-Perm : (x : OutboxRecord) (ys : List OutboxRecord) → Perm (x ∷ ys) (insert x ys)
unfolding insert
insert-Perm x [] = Perm.refl (x ∷ [])
insert-Perm x (y ∷ ys) = elim (Bool-cases (goes_first x y)) [
  | inl e ↦ rw e (Perm.refl (x ∷ y ∷ ys))
  | inr n ↦ rw n (Perm.trans (Perm.swap y x ys) (Perm.cons y (insert-Perm x ys)))
]

abbrev pub total : List OutboxRecord → ℕ
total [] = 0
total (x ∷ xs) = x.size_bytes + total xs

-- The first of what was left behind does not fit.
abbrev pub Overflows : ℕ → ℕ → List OutboxRecord → Type 0
Overflows most used [] = Unit
Overflows most used (x ∷ xs) = most < used + x.size_bytes

pack-total :
    (most current : ℕ) (queue : List OutboxRecord)
    → current ≤ most
    → let b = pack most current queue in
      (current + total b ≤ most)
      × ((rest : List OutboxRecord) × (queue ≡ b ++ rest) × Overflows most (current + total b) rest)
unfolding pack
pack-total most current [] h = (omega arith, ([], refl, tt))
pack-total most current (x ∷ queue) h = elim (Bool-cases (leb (current + x.size_bytes) most)) [
  | inl e ↦
      let (below, (rest, split, over)) =
        pack-total most (current + x.size_bytes) queue (ground arith) in
      rw e (omega (arith, below), (rest, ap (λ q. x ∷ q) split, shift rest over))
  | inr n ↦ rw n (omega arith, (x ∷ queue, refl, ground arith))
]
  where
    shift :
        (rest : List OutboxRecord)
        → Overflows most
            (current + x.size_bytes + total (pack most (current + x.size_bytes) queue))
            rest
        → Overflows most
            (current + (x.size_bytes + total (pack most (current + x.size_bytes) queue)))
            rest
    shift [] h = tt
    shift (y ∷ ys) h = omega (arith, h)

prioritize_sync-IsSorted : (records : List OutboxRecord) → IsSorted (prioritize_sync records)
unfolding prioritize_sync
prioritize_sync-IsSorted [] = tt
prioritize_sync-IsSorted (x ∷ xs) =
    insert-IsSorted x (prioritize_sync xs) (prioritize_sync-IsSorted xs)

prioritize_sync-Perm : (records : List OutboxRecord) → Perm records (prioritize_sync records)
unfolding prioritize_sync
prioritize_sync-Perm [] = Perm.refl []
prioritize_sync-Perm (x ∷ xs) =
    Perm.trans (Perm.cons x (prioritize_sync-Perm xs)) (insert-Perm x (prioritize_sync xs))

-- A batch takes at most the bytes it may, is the front of the records in an order of protobufs before
-- texts before media, then smaller before larger, then older before newer, and leaves one out only
-- where the first one left does not fit.
pub build_outbox_batch-front :
    (records : List OutboxRecord) (most : ℕ)
    → let batch = build_outbox_batch records most in
      (total batch ≤ most)
      × ((rest : List OutboxRecord) × Perm records (batch ++ rest)
          × IsQueue (batch ++ rest)
          × Overflows most (total batch) rest)
unfolding build_outbox_batch
build_outbox_batch-front records most =
    let (below, (rest, split, over)) = pack-total most 0 (prioritize_sync records) (omega arith) in
    (
      omega (arith, below),
      (
        rest,
        rw⁻¹ split (prioritize_sync-Perm records),
        rw⁻¹ split (IsSorted-IsQueue (prioritize_sync records) (prioritize_sync-IsSorted records)),
        from_zero rest _ over,
      ),
    )
  where
    from_zero :
        (rest : List OutboxRecord) (n : ℕ) → Overflows most (0 + n) rest → Overflows most n rest
    from_zero [] n h = tt
    from_zero (x ∷ xs) n h = omega (arith, h)
