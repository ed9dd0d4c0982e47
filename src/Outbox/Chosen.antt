-- ===== src/Outbox/Chosen.antt =====
-- Which rows the claim of apps/gateway-api/src/kafka/outbox.ts selects.
use mathlib.Core.List.{Memᴰ}
use mathlib.Core.List.Memᴰ
use roadwatch.Prelude.{
  ℕ, suc, zero, ◌≤◌, ◌≡◌, ◌⊎◌, inl, inr, refl, sym, ap, ◌∙◌, leb, ◌==◌, Bool, true, false, List, [],
  ◌∷◌, take, length, if◌then◌else◌, arith, Bool-cases, ==_iff,
}
use roadwatch.Outbox.{Row, mem, claimable, insert, candidates, chosen}
use roadwatch.Outbox.Rows.{ids_of}

module _ {ℓ} {Event : Type ℓ} where
  -- No two rows have one id: the primary key.
  abbrev pub Unique : List (Row Event) → Type ℓ
  Unique rows = (r s : Row Event) → Memᴰ r rows → Memᴰ s rows → r.id ≡ s.id → r ≡ s

  mem-ids_of :
      (rows : List (Row Event)) (i : ℕ)
      → mem i (ids_of rows) ≡ true
      → (r : Row Event) × Memᴰ r rows × (r.id ≡ i)
  mem-ids_of [] i h = absurd (cc)
  mem-ids_of (r ∷ rows) i h = elim (Bool-cases (i == r.id)) [
    | inl e ↦ (r, Memᴰ.head refl, sym ((==_iff i r.id).0 e))
    | inr e ↦ let t = mem-ids_of rows i (ground arith) in (t.0, Memᴰ.tail (t.1), t.2)
  ]

  pub ids_of-mem :
      (rows : List (Row Event)) (r : Row Event) → Memᴰ r rows → mem r.id (ids_of rows) ≡ true
  ids_of-mem [] r m = elim m [ ]
  ids_of-mem (s ∷ rows) r (Memᴰ.head e) = let e' = ap (λ (x : Row Event). x.id) e in ground arith
  ids_of-mem (s ∷ rows) r (Memᴰ.tail m) = let t = ids_of-mem rows r m in ground arith

  take-mem : (n : ℕ) (rows : List (Row Event)) (r : Row Event) → Memᴰ r (take n rows) → Memᴰ r rows
  take-mem zero rows r m = elim m [ ]
  take-mem (suc n) [] r m = elim m [ ]
  take-mem (suc n) (s ∷ rows) r (Memᴰ.head e) = Memᴰ.head e
  take-mem (suc n) (s ∷ rows) r (Memᴰ.tail m) = Memᴰ.tail (take-mem n rows r m)

  take_all : (n : ℕ) (rows : List (Row Event)) → length rows ≤ n → take n rows ≡ rows
  take_all zero [] h = refl
  take_all zero (r ∷ rows) h = absurd (omega arith)
  take_all (suc n) [] h = refl
  take_all (suc n) (r ∷ rows) h =
      ap (λ (l : List (Row Event)). r ∷ l) (take_all n rows (omega arith))

  insert-mem :
      (s : Row Event) (rows : List (Row Event)) (r : Row Event)
      → Memᴰ r (insert s rows)
      → (r ≡ s) ⊎ Memᴰ r rows
  insert-mem s [] r m = Memᴰ.cases_cons m
  insert-mem s (t ∷ rows) r m = split (leb s.created_at t.created_at) (insert-mem s rows r) m
    where
      later : (r ≡ s) ⊎ Memᴰ r rows → (r ≡ s) ⊎ Memᴰ r (t ∷ rows)
      later (inl e) = inl e
      later (inr m') = inr (Memᴰ.tail m')

      split :
          (b : Bool)
          → (Memᴰ r (insert s rows) → (r ≡ s) ⊎ Memᴰ r rows)
          → Memᴰ r (if b then s ∷ t ∷ rows else t ∷ insert s rows)
          → (r ≡ s) ⊎ Memᴰ r (t ∷ rows)
      split true ih m' = Memᴰ.cases_cons m'
      split false ih (Memᴰ.head e) = inr (Memᴰ.head e)
      split false ih (Memᴰ.tail m') = later (ih m')

  mem-insert :
      (s : Row Event) (rows : List (Row Event)) (r : Row Event)
      → (r ≡ s) ⊎ Memᴰ r rows
      → Memᴰ r (insert s rows)
  mem-insert s [] r (inl e) = Memᴰ.head e
  mem-insert s [] r (inr m) = elim m [ ]
  mem-insert s (t ∷ rows) r m = elim (Bool-cases (leb s.created_at t.created_at)) [
    | inl e ↦ rw e (first m)
    | inr e ↦ rw e (further (mem-insert s rows r) m)
  ]
    where
      first : (r ≡ s) ⊎ Memᴰ r (t ∷ rows) → Memᴰ r (s ∷ t ∷ rows)
      first (inl e) = Memᴰ.head e
      first (inr m') = Memᴰ.tail m'

      further :
          ((r ≡ s) ⊎ Memᴰ r rows → Memᴰ r (insert s rows))
          → (r ≡ s) ⊎ Memᴰ r (t ∷ rows)
          → Memᴰ r (t ∷ insert s rows)
      further ih (inl e) = Memᴰ.tail (ih (inl e))
      further ih (inr (Memᴰ.head e)) = Memᴰ.head e
      further ih (inr (Memᴰ.tail m')) = Memᴰ.tail (ih (inr m'))

  length-insert :
      (s : Row Event) (rows : List (Row Event)) → length (insert s rows) ≡ suc (length rows)
  length-insert s [] = refl
  length-insert s (t ∷ rows) = ground (arith, length-insert s rows)

  module _ (locked : List ℕ) (now : ℕ) where
    candidates-mem :
        (table : List (Row Event)) (r : Row Event)
        → Memᴰ r (candidates locked now table)
        → Memᴰ r table × (claimable locked now r ≡ true)
    candidates-mem [] r m = elim m [ ]
    candidates-mem (s ∷ table) r m = split (claimable locked now s) refl (candidates-mem table r) m
      where
        here_or_later :
            claimable locked now s ≡ true
            → (Memᴰ r (candidates locked now table)
                → Memᴰ r table × (claimable locked now r ≡ true))
            → (r ≡ s) ⊎ Memᴰ r (candidates locked now table)
            → Memᴰ r (s ∷ table) × (claimable locked now r ≡ true)
        here_or_later c ih (inl e) = (Memᴰ.head e, ap (claimable locked now) e ∙ c)
        here_or_later c ih (inr m') = (Memᴰ.tail ((ih m').0), (ih m').1)

        split :
            (b : Bool)
            → claimable locked now s ≡ b
            → (Memᴰ r (candidates locked now table)
                → Memᴰ r table × (claimable locked now r ≡ true))
            → Memᴰ r
                (if b then insert s (candidates locked now table) else candidates locked now table)
            → Memᴰ r (s ∷ table) × (claimable locked now r ≡ true)
        split true c ih m' = here_or_later c ih (insert-mem s (candidates locked now table) r m')
        split false c ih m' = (Memᴰ.tail ((ih m').0), (ih m').1)

    mem-candidates :
        (table : List (Row Event)) (r : Row Event)
        → Memᴰ r table
        → claimable locked now r ≡ true
        → Memᴰ r (candidates locked now table)
    mem-candidates [] r m c = elim m [ ]
    mem-candidates (s ∷ table) r (Memᴰ.head e) c =
        rw (sym (ap (claimable locked now) e) ∙ c)
          (mem-insert s (candidates locked now table) r (inl e))
    mem-candidates (s ∷ table) r (Memᴰ.tail m) c = elim (Bool-cases (claimable locked now s)) [
      | inl e ↦
          rw e (mem-insert s (candidates locked now table) r (inr (mem-candidates table r m c)))
      | inr e ↦ rw e (mem-candidates table r m c)
    ]

    length-candidates :
        (table : List (Row Event)) → length (candidates locked now table) ≤ length table
    length-candidates [] = omega arith
    length-candidates (s ∷ table) =
        ground (arith, length-candidates table, length-insert s (candidates locked now table))

    -- Only ids of rows of the table that are open, due and not locked are chosen.
    pub chosen-mem :
        (limit : ℕ) (table : List (Row Event)) (i : ℕ)
        → mem i (chosen locked limit now table) ≡ true
        → (r : Row Event) × Memᴰ r table × (r.id ≡ i) × (claimable locked now r ≡ true)
    unfolding chosen
    chosen-mem limit table i h =
        let (r, m, e) = mem-ids_of (take limit (candidates locked now table)) i h in
        let (m', c) = candidates-mem table r (take-mem limit (candidates locked now table) r m) in
        (r, m', e, c)

    -- All of them are, if the limit is as long as the table.
    pub mem-chosen :
        (limit : ℕ) (table : List (Row Event)) (r : Row Event)
        → length table ≤ limit
        → Memᴰ r table
        → claimable locked now r ≡ true
        → mem r.id (chosen locked limit now table) ≡ true
    unfolding chosen
    mem-chosen limit table r h m c =
        rw (take_all limit (candidates locked now table) (omega (arith, length-candidates table)))
          (ids_of-mem (candidates locked now table) r (mem-candidates table r m c))
