-- ===== src/Idempotency/Exclusion.antt =====
-- Two requests never own one key together, as long as each is done within the time to live.
use Prim.Native.String.{String}
use roadwatch.Prelude.{
  ℕ, ◌+◌, ◌≤◌, ◌≡◌, ◌≢◌, ◌⊎◌, inl, inr, refl, sym, subst, ◌∙◌, ltb, ◌&&◌, Option, none, some, true,
  false, ◌==◌, arith, Bool-cases,
}
use roadwatch.Idempotency.{
  StoredResult, Answer, is_none, insert_claim, reclaim, judge, store_result,
}
use roadwatch.Idempotency.Requests.{
  Pc, idle, selecting, reclaiming, owner, done, System, Move, insert, select, take_over, store,
  release, after_insert, after_select, after_reclaim, update, Step, tick, act, Reach, here, next,
  start, Live,
}

module _ {ℓ} {Body : Type ℓ} where
  -- The row stands for a claim of that second, unless a result was stored.
  abbrev pub Holds : Option (StoredResult Body) → ℕ → Type 0
  Holds none since = ⊥
  Holds (some r) since = (r.updated_at ≡ since) ⊎ (is_none r.response_code ≡ false)

  abbrev Free : ℕ → ℕ → Option (StoredResult Body) → Type 0
  Free ttl now row = (t : ℕ) → now ≤ t + ttl → Holds row t → ⊥

  abbrev Owns : Pc Body → Type ℓ
  Owns p = (t : ℕ) × (p ≡ owner t)

  -- What a statement does to the claim: take it, leave it, or give it up.
  data Effect (ttl now : ℕ) (row : Option (StoredResult Body)) (p : Pc Body)
      (row' : Option (StoredResult Body)) (p' : Pc Body) : Type ℓ where
    takes : p' ≡ owner now → Free ttl now row → Holds row' now → Effect ttl now row p row' p'
    leaves : (¬ Owns p') → ((t : ℕ) → Holds row t → Holds row' t) → Effect ttl now row p row' p'
    drops :
        (since : ℕ)
        → p ≡ owner since
        → now ≤ since + ttl
        → (¬ Owns p')
        → Effect ttl now row p row' p'

  insert-Effect :
      (hash : String) (ttl now : ℕ) (row : Option (StoredResult Body))
      → Effect ttl now row idle
          (insert_claim hash now row).0
          (after_insert now (insert_claim hash now row).1)
  unfolding insert_claim
  insert-Effect hash ttl now none = takes refl (λ t le h. h) (inl refl)
  insert-Effect hash ttl now (some r) = leaves (λ o. cc (o.1)) (λ t h. h)

  select-Effect :
      (ttl now : ℕ) (row : Option (StoredResult Body)) (answer : Option (Answer Body))
      → Effect ttl now row selecting row (after_select answer)
  select-Effect ttl now row none = leaves (λ o. cc (o.1)) (λ t h. h)
  select-Effect ttl now row (some a) = leaves (λ o. cc (o.1)) (λ t h. h)

  stale-Free :
      (ttl now : ℕ) (r : StoredResult Body)
      → (is_none r.response_code && ltb (r.updated_at + ttl) now) ≡ true
      → Free ttl now (some r)
  stale-Free ttl now r e t le (inl same) = ground arith
  stale-Free ttl now r e t le (inr complete) = ground arith

  reclaim-Effect :
      (ttl now : ℕ) (row : Option (StoredResult Body))
      → Effect ttl now row reclaiming
          (reclaim ttl now row).0
          (after_reclaim now (reclaim ttl now row).1)
  unfolding reclaim
  reclaim-Effect ttl now none = leaves (λ o. cc (o.1)) (λ t h. h)
  reclaim-Effect ttl now (some r) =
      elim (Bool-cases (is_none r.response_code && ltb (r.updated_at + ttl) now)) [
        | inl e ↦ rw e (takes refl (stale-Free ttl now r e) (inl refl))
        | inr e ↦ rw e (leaves (λ o. cc (o.1)) (λ t h. h))
      ]

  store-Effect :
      (ttl now since code : ℕ) (body : Option Body) (row : Option (StoredResult Body))
      → Effect ttl now row (owner since) (store_result code body now row) done
  unfolding store_result
  store-Effect ttl now since code body none = leaves (λ o. cc (o.1)) (λ t h. h)
  store-Effect ttl now since code body (some r) = leaves (λ o. cc (o.1)) (λ t h. inr refl)

  move-Effect :
      {hash : String} {ttl now : ℕ} {row : Option (StoredResult Body)} {p : Pc Body}
      {row' : Option (StoredResult Body)} {p' : Pc Body}
      → Move hash ttl now row p row' p'
      → Effect ttl now row p row' p'
  move-Effect {hash} {ttl} {now} {row} insert = insert-Effect hash ttl now row
  move-Effect {hash} {ttl} {now} {row} select = select-Effect ttl now row (judge hash row)
  move-Effect {ttl} {now} {row} take_over = reclaim-Effect ttl now row
  move-Effect {ttl} {now} {row} (store {since} code body) = store-Effect ttl now since code body row
  move-Effect (release {since} le) = drops since refl le (λ o. cc (o.1))

  pub record Inv (ttl : ℕ) (s : System Body) : Type ℓ where
    pub held : (i t : ℕ) → s.pc i ≡ owner t → s.now ≤ t + ttl → Holds s.row t
    pub single : (i j : ℕ) → Live ttl s i → Live ttl s j → i ≡ j

  start-Inv : (ttl : ℕ) → Inv ttl start
  start-Inv ttl = record { held = λ i t e le. absurd (cc); single = λ i j l m. absurd (cc (l.1)) }

  tick-Inv : (ttl : ℕ) (s : System Body) → Inv ttl s → Inv ttl (record s { now = s.now + 1 })
  tick-Inv ttl s v = record {
    held = λ i t e le. v.held i t e (omega arith);
    single = λ i j l m. v.single i j (l.0, l.1, omega (arith, l.2)) (m.0, m.1, omega (arith, m.2));
  }

  -- The request that moved, or another that stands where it stood.
  update_cases :
      (pc : ℕ → Pc Body) (i : ℕ) (p : Pc Body) (j : ℕ)
      → ((j ≡ i) × (update pc i p j ≡ p)) ⊎ ((j ≢ i) × (update pc i p j ≡ pc j))
  update_cases pc i p j = elim (Bool-cases (j == i)) [
    | inl e ↦ inl (ground arith, rw e)
    | inr e ↦ inr (ground arith, rw e)
  ]

  module _ (ttl : ℕ) (s : System Body) (v : Inv ttl s) (i : ℕ) (row' : Option (StoredResult Body))
      (p' : Pc Body) where
    after : System Body
    after = record s { row = row'; pc = update s.pc i p' }

    -- A live owner is the request that moved, or was one before.
    mover :
        (j t : ℕ)
        → after.pc j ≡ owner t
        → ((j ≡ i) × (p' ≡ owner t)) ⊎ ((j ≢ i) × (s.pc j ≡ owner t))
    unfolding after
    mover j t e = elim (update_cases s.pc i p' j) [
      | inl (same, u) ↦ inl (same, sym u ∙ e)
      | inr (other, u) ↦ inr (other, sym u ∙ e)
    ]

    module _ (e : p' ≡ owner s.now) (free : Free ttl s.now s.row) (h : Holds row' s.now) where
      only : (j t : ℕ) → after.pc j ≡ owner t → s.now ≤ t + ttl → (j ≡ i) × (s.now ≡ t)
      only j t ej le = elim (mover j t ej) [
        | inl (same, u) ↦ (same, cc)
        | inr (other, u) ↦ absurd (free t le (v.held j t u le))
      ]

      takes-Inv : Inv ttl after
      unfolding after
      takes-Inv = record {
        held = λ j t ej le. subst (Holds row') ((only j t ej le).1) h;
        single = λ j k l m. (only j (l.0) (l.1) (l.2)).0 ∙ sym ((only k (m.0) (m.1) (m.2)).0);
      }

    module _ (nope : ¬ Owns p')
        (frame : (j : ℕ)
          → j ≢ i
          → (t : ℕ) → s.pc j ≡ owner t
          → s.now ≤ t + ttl
          → Holds row' t) where
      before : (j t : ℕ) → after.pc j ≡ owner t → (j ≢ i) × (s.pc j ≡ owner t)
      before j t ej = elim (mover j t ej) [
        | inl (same, u) ↦ absurd (nope (t, u))
        | inr other ↦ other
      ]

      before-Live : (j : ℕ) → Live ttl after j → Live ttl s j
      unfolding after
      before-Live j (t, ej, le) = (t, (before j t ej).1, le)

      leaves-Inv : Inv ttl after
      unfolding after
      leaves-Inv = record {
        held = λ j t ej le. frame j ((before j t ej).0) t ((before j t ej).1) le;
        single = λ j k l m. v.single j k (before-Live j l) (before-Live k m);
      }

  act-Inv :
      {hash : String} (ttl : ℕ) (s : System Body)
      → Inv ttl s
      → (i : ℕ) {row' : Option (StoredResult Body)} {p' : Pc Body}
      → Move hash ttl s.now s.row (s.pc i) row' p'
      → Inv ttl (record s { row = row'; pc = update s.pc i p' })
  unfolding after
  act-Inv ttl s v i {row'} {p'} m = elim (move-Effect m) [
    | takes e free h ↦ takes-Inv ttl s v i row' p' e free h
    | leaves nope keep ↦ leaves-Inv ttl s v i row' p' nope (λ j ne t e le. keep t (v.held j t e le))
    | drops since e le nope ↦
        leaves-Inv ttl s v i row' p' nope
          (λ j ne t ej lej. absurd (ne (v.single j i (t, ej, lej) (since, e, le))))
  ]

  step-Inv : (ttl : ℕ) (s t : System Body) → Inv ttl s → Step ttl s t → Inv ttl t
  step-Inv ttl s t v tick = tick-Inv ttl s v
  step-Inv ttl s t v (act i hash m) = act-Inv ttl s v i m

  walk-Inv : (ttl : ℕ) (t : System Body) → Reach ttl start t → Inv ttl t
  walk-Inv ttl t here = start-Inv ttl
  walk-Inv ttl t (next {t = m} r step) = step-Inv ttl m t (walk-Inv ttl m r) step

  -- In every state that requests of any payloads reach from an empty table, when no request releases
  -- its claim after the time to live: two requests that own the claim and are within the time to
  -- live are one request, and its row is there, with its second unless a result was stored.
  pub owner_unique :
      (ttl : ℕ) (s : System Body) (i j : ℕ)
      → Reach ttl start s
      → (l : Live ttl s i) → Live ttl s j
      → (i ≡ j) × Holds s.row (l.0)
  owner_unique ttl s i j r l m =
      let v = walk-Inv ttl s r in (v.single i j l m, v.held i (l.0) (l.1) (l.2))
