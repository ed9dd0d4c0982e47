-- ===== src/Outbox/Landing.antt =====
-- Where a row that the loop of apps/gateway-api/src/kafka/outbox.ts takes up ends.
use Prim.Native.String.{String}
use mathlib.Core.List.{Memᴰ}
use roadwatch.Prelude.{
  ℕ, ◌≡◌, ◌≢◌, ◌⊎◌, inl, inr, refl, sym, subst, ◌∙◌, ◌==◌, true, false, List, [], ◌∷◌, arith,
  Bool-cases, ==_iff,
}
use roadwatch.Outbox.{Row, mem, set_sent, set_failed}
use roadwatch.Outbox.Drain.{Reply, delivered, refused, halted}
use roadwatch.Outbox.Rows.{ids_of, settle_one, settle_by}

module _ {ℓ} {Event : Type ℓ} where
  set_failed-id :
      (attempts : ℕ) (error : String) (at : ℕ) (r : Row Event)
      → (set_failed attempts error at r).id ≡ r.id
  set_failed-id attempts error at r = ground arith

  -- The property holds of the row as the answer for `c` leaves it.
  abbrev pub Lands {κ} : (Row Event → Type κ) → Reply → Row Event → Row Event → Type κ
  Lands P (delivered at) c q = P (set_sent at q)
  Lands P (refused error at) c q = P (set_failed c.attempts error at q)
  Lands P halted c q = Unit

  module _ {κ} (reply : ℕ → Reply) (alive : (i : ℕ) → reply i ≢ halted) (P : Row Event → Type κ)
      (i : ℕ) where
    -- One row of the loop: a row with its id lands, another is left as it is.
    settle_one-reaches :
        (o : Reply) (c : Row Event) (rest : Row Event → Row Event) (r : Row Event)
        → o ≢ halted
        → ((q : Row Event) → c.id ≡ i → Lands P o c q)
        → r.id ≡ i
        → ((q : Row Event) → q.id ≡ i → P q → P (rest q))
        → ((i == c.id) ≡ false → P (rest r))
        → P (settle_one o c rest r)
    settle_one-reaches (delivered at) c rest r live lands here after skip =
        elim (Bool-cases (r.id == c.id)) [
          | inl e ↦
              rw e (after (set_sent at r) here (lands r (sym ((==_iff r.id c.id).0 e) ∙ here)))
          | inr e ↦ rw e (skip (subst (λ (x : ℕ). (x == c.id) ≡ false) here e))
        ]
    settle_one-reaches (refused error at) c rest r live lands here after skip =
        elim (Bool-cases (r.id == c.id)) [
          | inl e ↦ rw e (
              after (set_failed c.attempts error at r) (set_failed-id c.attempts error at r ∙ here)
                (lands r (sym ((==_iff r.id c.id).0 e) ∙ here)))
          | inr e ↦ rw e (skip (subst (λ (x : ℕ). (x == c.id) ≡ false) here e))
        ]
    settle_one-reaches halted c rest r live lands here after skip = absurd (live refl)

    -- A row with the id ends where its property holds, if it holds now or a row with its id is
    -- among those of the loop.
    pub settle_by-reaches :
        (rows : List (Row Event))
        → ((c : Row Event) → Memᴰ c rows → c.id ≡ i → (q : Row Event) → Lands P (reply c.id) c q)
        → (r : Row Event) → r.id ≡ i
        → (mem i (ids_of rows) ≡ true) ⊎ P r
        → P (settle_by reply rows r)
    settle_by-reaches [] lands r e (inl h) = absurd (cc)
    settle_by-reaches [] lands r e (inr h) = h
    settle_by-reaches (c ∷ rows) lands r e h =
        let onward = settle_by-reaches rows (λ d m. lands d (Memᴰ.tail m)) in
        settle_one-reaches (reply c.id) c (settle_by reply rows) r (alive c.id)
          (λ q same. lands c (Memᴰ.head refl) same q) e (λ q eq p. onward q eq (inr p))
          (λ other. onward r e (elim h [ inl m ↦ inl (ground arith) | inr p ↦ inr p ]))
