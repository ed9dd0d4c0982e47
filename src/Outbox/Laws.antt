-- ===== src/Outbox/Laws.antt =====
-- Which rows a drain of apps/gateway-api/src/kafka/outbox.ts leaves alone, and which in flight.
use mathlib.Core.List.{Memᴰ}
use mathlib.Core.List.Memᴰ
use roadwatch.Prelude.{
  ◌⊎◌, inl, inr, ℕ, ◌≡◌, ◌≢◌, inl, inr, refl, sym, ap, subst, ◌∙◌, ltb, true, false, List, [], ◌∷◌,
  map, arith, Bool-cases,
}
use roadwatch.Outbox.{Row, in_flight, sent, dead, mem, claimable, chosen, take_up, returning}
use roadwatch.Outbox.Drain.{
  Reply, delivered, refused, halted, Round, drain_kafka_event_outbox, relay_tick,
}
use roadwatch.Outbox.Rows.{ids_of, row_after, drain-map, row_after-out, row_after-id}
use roadwatch.Outbox.Landing.{Lands, settle_by-reaches}
use roadwatch.Outbox.Chosen.{Unique, ids_of-mem, chosen-mem}

module _ {ℓ} {Event : Type ℓ} where
  pub map-mem :
      (f : Row Event → Row Event) (rows : List (Row Event)) {r : Row Event}
      → Memᴰ r rows
      → Memᴰ (f r) (map f rows)
  map-mem f [] m = elim m [ ]
  map-mem f (s ∷ rows) (Memᴰ.head e) = Memᴰ.head (ap f e)
  map-mem f (s ∷ rows) (Memᴰ.tail m) = Memᴰ.tail (map-mem f rows m)

  pub mem-map :
      (f : Row Event → Row Event) (rows : List (Row Event)) (q : Row Event)
      → Memᴰ q (map f rows)
      → (r : Row Event) × Memᴰ r rows × (q ≡ f r)
  mem-map f [] q m = elim m [ ]
  mem-map f (s ∷ rows) q (Memᴰ.head e) = (s, Memᴰ.head refl, e)
  mem-map f (s ∷ rows) q (Memᴰ.tail m) = let (r, m', e) = mem-map f rows q m in (r, Memᴰ.tail m', e)

  -- A row of the table after a drain is what the drain made of one before.
  pub drain-mem :
      (round : Round) (limit : ℕ) (table : List (Row Event)) (q : Row Event)
      → Memᴰ q (drain_kafka_event_outbox round limit table).rows
      → (r : Row Event) × Memᴰ r table × (q ≡ row_after round limit table r)
  drain-mem round limit table q m =
      mem-map (row_after round limit table) table q (subst (Memᴰ q) (drain-map round limit table) m)

  pub drain-Unique :
      (round : Round) (limit : ℕ) (table : List (Row Event))
      → Unique table
      → Unique (drain_kafka_event_outbox round limit table).rows
  drain-Unique round limit table u p q mp mq e =
      let (r, mr, er) = drain-mem round limit table p mp in
      let (s, ms, es) = drain-mem round limit table q mq in
      let same : r.id ≡ s.id =
        sym (row_after-id round limit table r)
        ∙ sym (ap (λ (x : Row Event). x.id) er)
        ∙ e
        ∙ ap (λ (x : Row Event). x.id) es
        ∙ row_after-id round limit table s in
      er ∙ ap (row_after round limit table) (u r s mr ms same) ∙ sym es

  not-chosen :
      (round : Round) (limit : ℕ) (table : List (Row Event)) (r : Row Event)
      → Unique table
      → Memᴰ r table
      → claimable round.locked round.now r ≡ false
      → mem r.id (chosen round.locked limit round.now table) ≡ false
  not-chosen round limit table r u m c =
      elim (Bool-cases (mem r.id (chosen round.locked limit round.now table))) [
        | inl e ↦
            let (s, ms, es, cs) = chosen-mem round.locked round.now limit table r.id e in
            let same = ap (claimable round.locked round.now) (u s r ms m es) in cc
        | inr e ↦ e
      ]

  -- A row that a drain may not claim comes out of it as it went in.
  pub row_after-kept :
      (round : Round) (limit : ℕ) (table : List (Row Event)) (r : Row Event)
      → Unique table
      → Memᴰ r table
      → claimable round.locked round.now r ≡ false
      → row_after round limit table r ≡ r
  row_after-kept round limit table r u m c =
      row_after-out round limit table r (not-chosen round limit table r u m c)

  pub drain-kept :
      (round : Round) (limit : ℕ) (table : List (Row Event)) (r : Row Event)
      → Unique table
      → Memᴰ r table
      → claimable round.locked round.now r ≡ false
      → Memᴰ r (drain_kafka_event_outbox round limit table).rows
  drain-kept round limit table r u m c = subst (Memᴰ r) (sym (drain-map round limit table)) (
      Memᴰ.cast (sym (row_after-kept round limit table r u m c))
        (map-mem (row_after round limit table) table m))

  closed-kept :
      (locked : List ℕ) (now : ℕ) (r : Row Event)
      → (r.status ≡ in_flight) ⊎ ((r.status ≡ sent) ⊎ (r.status ≡ dead))
      → claimable locked now r ≡ false
  closed-kept locked now r (inl e) = rw e
  closed-kept locked now r (inr (inl e)) = rw e
  closed-kept locked now r (inr (inr e)) = rw e

  -- Where ids are unique, a row that is in flight, sent or dead is in the table unchanged after any
  -- tick, whatever its drains lock, and whatever is answered to them. So a row that a dead process
  -- left in flight is never published again.
  pub relay_tick-closed :
      (limit : ℕ) (rounds : List Round) (table : List (Row Event)) (r : Row Event)
      → Unique table
      → Memᴰ r table
      → (r.status ≡ in_flight) ⊎ ((r.status ≡ sent) ⊎ (r.status ≡ dead))
      → Memᴰ r (relay_tick limit rounds table)
  unfolding relay_tick
  relay_tick-closed limit [] table r u m h = m
  relay_tick-closed limit (round ∷ rounds) table r u m h =
      let d = drain_kafka_event_outbox round limit table in
      let kept = drain-kept round limit table r u m (closed-kept round.locked round.now r h) in
      elim (Bool-cases (ltb d.sent limit)) [
        | inl e ↦ rw e kept
        | inr e ↦
            rw e (relay_tick-closed limit rounds d.rows r (drain-Unique round limit table u) kept h)
      ]

  returning-mem :
      (ids : List ℕ) (rows : List (Row Event)) (r : Row Event)
      → Memᴰ r rows
      → mem r.id ids ≡ true
      → Memᴰ r (returning ids rows)
  returning-mem ids [] r m h = elim m [ ]
  returning-mem ids (s ∷ rows) r (Memᴰ.head e) h =
      let at_s : mem s.id ids ≡ true = sym (ap (λ (x : Row Event). mem x.id ids) e) ∙ h in
      rw at_s (Memᴰ.head e)
  returning-mem ids (s ∷ rows) r (Memᴰ.tail m) h = elim (Bool-cases (mem s.id ids)) [
    | inl e ↦ rw e (Memᴰ.tail (returning-mem ids rows r m h))
    | inr e ↦ rw e (returning-mem ids rows r m h)
  ]

  -- A row that is chosen is among those returned, as the claim left it.
  pub take_up-returned :
      (ids : List ℕ) (now : ℕ) (table : List (Row Event)) (r : Row Event)
      → Memᴰ r table
      → mem r.id ids ≡ true
      → mem r.id (ids_of (returning ids (map (take_up ids now) table))) ≡ true
  take_up-returned ids now table r m h =
      let q = take_up ids now r in
      let same : q.id ≡ r.id = ground arith in
      subst (λ (i : ℕ). mem i (ids_of (returning ids (map (take_up ids now) table))) ≡ true) same
        (ids_of-mem (returning ids (map (take_up ids now) table)) q (
          returning-mem ids (map (take_up ids now) table) q (map-mem (take_up ids now) table m)
            (ap (λ (i : ℕ). mem i ids) same ∙ h)))

  landed_ne :
      (o : Reply) (c q : Row Event)
      → o ≢ halted
      → Lands (λ (x : Row Event). x.status ≢ in_flight) o c q
  landed_ne (delivered at) c q live = ground arith
  landed_ne (refused error at) c q live = ground arith
  landed_ne halted c q live = tt

  -- A row that is chosen is not in flight at the end of the drain.
  row_after-ne :
      (round : Round) (limit : ℕ) (table : List (Row Event)) (r : Row Event)
      → ((i : ℕ) → round.reply i ≢ halted)
      → Memᴰ r table
      → mem r.id (chosen round.locked limit round.now table) ≡ true
      → (row_after round limit table r).status ≢ in_flight
  row_after-ne round limit table r alive m h =
      let ids = chosen round.locked limit round.now table in
      settle_by-reaches round.reply alive (λ (x : Row Event). x.status ≢ in_flight) r.id
        (returning ids (map (take_up ids round.now) table))
        (λ c n same q. landed_ne (round.reply c.id) c q (alive c.id)) (take_up ids round.now r)
        (ground arith) (inl (take_up-returned ids round.now table r m h))

  -- Where no publish of a drain halts: a row that is in flight after it was in flight before, and is
  -- the same row.
  pub drain-in_flight :
      (round : Round) (limit : ℕ) (table : List (Row Event)) (q : Row Event)
      → ((i : ℕ) → round.reply i ≢ halted)
      → Memᴰ q (drain_kafka_event_outbox round limit table).rows
      → q.status ≡ in_flight
      → Memᴰ q table
  drain-in_flight round limit table q alive m e =
      let (r, mr, er) = drain-mem round limit table q m in
      elim (Bool-cases (mem r.id (chosen round.locked limit round.now table))) [
        | inl h ↦ absurd (
            row_after-ne round limit table r alive mr h
              (sym (ap (λ (x : Row Event). x.status) er) ∙ e))
        | inr h ↦ Memᴰ.cast (er ∙ row_after-out round limit table r h) mr
      ]
