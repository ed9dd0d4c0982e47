-- ===== src/Outbox/Rows.antt =====
-- The drain of apps/gateway-api/src/kafka/outbox.ts seen from one row: the statements of the claim
-- and of the loop change each row by itself.

use mathlib.Core.List.{map-map, map-id}
use roadwatch.Prelude.{
  ℕ, ◌≡◌, inl, inr, refl, sym, ap, ◌∙◌, leb, ◌==◌, Bool, true, false, List, [], ◌∷◌, map,
  if◌then◌else◌, arith, Bool-cases, ==_iff,
}
use roadwatch.Outbox.{
  outbox_max_attempts_before_dead, Row, mem, take_up, returning, set_sent, set_failed, chosen,
  claim_pending_events, mark_sent, mark_failed,
}
use roadwatch.Outbox.Drain.{
  Reply, delivered, refused, halted, Drained, Round, publish_one, publish_all,
  drain_kafka_event_outbox,
}

module _ {ℓ} {Event : Type ℓ} where
  -- The loop from the row `c` on, for one row of the table.
  abbrev pub settle_one : Reply → Row Event → (Row Event → Row Event) → Row Event → Row Event
  settle_one (delivered at) c rest r = rest (if r.id == c.id then set_sent at r else r)
  settle_one (refused error at) c rest r =
      rest (if r.id == c.id then set_failed c.attempts error at r else r)
  settle_one halted c rest r = r

  abbrev pub settle_by : (ℕ → Reply) → List (Row Event) → Row Event → Row Event
  settle_by reply [] r = r
  settle_by reply (c ∷ rows) r = settle_one (reply c.id) c (settle_by reply rows) r

  -- A dead letter changes no row.
  if_rows :
      (b : Bool) (c : Row Event) (d : Drained Event)
      → (if b then record d { dead_letters = c ∷ d.dead_letters } else d).rows ≡ d.rows
  if_rows true c d = refl
  if_rows false c d = refl

  publish_one-map :
      (o : Reply) (c : Row Event) (rest : List (Row Event) → Drained Event)
      (f : Row Event → Row Event)
      → ((table : List (Row Event)) → (rest table).rows ≡ map f table)
      → (table : List (Row Event))
      → (publish_one o c rest table).rows ≡ map (settle_one o c f) table
  unfolding mark_sent mark_failed
  publish_one-map (delivered at) c rest f h table =
      h (mark_sent c.id at table)
      ∙ map-map f (λ (r : Row Event). if r.id == c.id then set_sent at r else r) table
  publish_one-map (refused error at) c rest f h table =
      if_rows (leb outbox_max_attempts_before_dead c.attempts) c
        (rest (mark_failed c.id c.attempts error at table))
      ∙ h (mark_failed c.id c.attempts error at table)
      ∙ map-map f (λ (r : Row Event). if r.id == c.id then set_failed c.attempts error at r else r)
          table
  publish_one-map halted c rest f h table = sym (map-id table)

  publish_all-map :
      (reply : ℕ → Reply) (rows table : List (Row Event))
      → (publish_all reply rows table).rows ≡ map (settle_by reply rows) table
  unfolding publish_all
  publish_all-map reply [] table = sym (map-id table)
  publish_all-map reply (c ∷ rows) table =
      publish_one-map (reply c.id) c (publish_all reply rows) (settle_by reply rows)
        (publish_all-map reply rows) table

  abbrev pub ids_of : List (Row Event) → List ℕ
  ids_of rows = map (λ (r : Row Event). r.id) rows

  settle_by-out :
      (reply : ℕ → Reply) (rows : List (Row Event)) (r : Row Event)
      → mem r.id (ids_of rows) ≡ false
      → settle_by reply rows r ≡ r
  settle_by-out reply [] r h = refl
  settle_by-out reply (c ∷ rows) r h =
      settle_one-out (reply c.id) c (settle_by reply rows) r (ground arith)
        (settle_by-out reply rows r (ground arith))
    where
      settle_one-out :
          (o : Reply) (c : Row Event) (rest : Row Event → Row Event) (r : Row Event)
          → (r.id == c.id) ≡ false
          → rest r ≡ r
          → settle_one o c rest r ≡ r
      settle_one-out (delivered at) c rest r e h = rw e h
      settle_one-out (refused error at) c rest r e h = rw e h
      settle_one-out halted c rest r e h = refl

  settle_by-id :
      (reply : ℕ → Reply) (rows : List (Row Event)) (r : Row Event)
      → (settle_by reply rows r).id ≡ r.id
  settle_by-id reply [] r = refl
  settle_by-id reply (c ∷ rows) r =
      settle_one-id (reply c.id) c (settle_by reply rows) (settle_by-id reply rows) r
    where
      settle_one-id :
          (o : Reply) (c : Row Event) (rest : Row Event → Row Event)
          → ((r : Row Event) → (rest r).id ≡ r.id)
          → (r : Row Event) → (settle_one o c rest r).id ≡ r.id
      settle_one-id (delivered at) c rest h r =
          h (if r.id == c.id then set_sent at r else r) ∙ ground arith
      settle_one-id (refused error at) c rest h r =
          h (if r.id == c.id then set_failed c.attempts error at r else r) ∙ ground arith
      settle_one-id halted c rest h r = refl

  returning-out :
      (ids : List ℕ) (rows : List (Row Event)) (i : ℕ)
      → mem i ids ≡ false
      → mem i (ids_of (returning ids rows)) ≡ false
  returning-out ids [] i h = refl
  returning-out ids (r ∷ rows) i h = elim (Bool-cases (mem r.id ids)) [
    | inl e ↦ rw e (ground (arith, returning-out ids rows i h, apart))
    | inr e ↦ rw e (returning-out ids rows i h)
  ]
    where
      apart : mem r.id ids ≡ true → mem i ids ≡ false → (i == r.id) ≡ false
      apart a b = elim (Bool-cases (i == r.id)) [
        | inl same ↦
            (let e : mem i ids ≡ mem r.id ids =
                ap (λ (j : ℕ). mem j ids) ((==_iff i r.id).0 same) in
              cc)
        | inr e ↦ e
      ]

  -- What a drain makes of one row.
  abbrev pub row_after : Round → ℕ → List (Row Event) → Row Event → Row Event
  row_after round limit table r =
      let ids = chosen round.locked limit round.now table in
      settle_by round.reply (returning ids (map (take_up ids round.now) table))
        (take_up ids round.now r)

  pub drain-map :
      (round : Round) (limit : ℕ) (table : List (Row Event))
      → (drain_kafka_event_outbox round limit table).rows ≡ map (row_after round limit table) table
  unfolding drain_kafka_event_outbox claim_pending_events
  drain-map round limit table =
      let ids = chosen round.locked limit round.now table in
      let claimed = returning ids (map (take_up ids round.now) table) in
      publish_all-map round.reply claimed (map (take_up ids round.now) table)
      ∙ map-map (settle_by round.reply claimed) (take_up ids round.now) table

  pub row_after-out :
      (round : Round) (limit : ℕ) (table : List (Row Event)) (r : Row Event)
      → mem r.id (chosen round.locked limit round.now table) ≡ false
      → row_after round limit table r ≡ r
  row_after-out round limit table r h =
      let ids = chosen round.locked limit round.now table in
      rw h (
        settle_by-out round.reply (returning ids (map (take_up ids round.now) table)) r
          (returning-out ids (map (take_up ids round.now) table) r.id h))

  pub row_after-id :
      (round : Round) (limit : ℕ) (table : List (Row Event)) (r : Row Event)
      → (row_after round limit table r).id ≡ r.id
  row_after-id round limit table r =
      let ids = chosen round.locked limit round.now table in
      settle_by-id round.reply (returning ids (map (take_up ids round.now) table))
        (take_up ids round.now r)
      ∙ ground arith
